-- ===== src/PerConnection/Echoes.antt =====
-- The threads of network/tcp_echo/server.cpp and client.cpp: what comes in against what goes out.
use linux_programming.Prelude.{
  ℕ, zero, suc, ◌+◌, ◌≤◌, ◌<◌, ◌≡◌, refl, ◌∙◌, ap, sym, Option, none, some, List, [], ◌∷◌, ◌++◌,
  ◌⊎◌, inl, inr, arith, length, take, drop, append_assoc, append-nil, take-append-drop, take_all,
  true, false, ltb,
}
use mathlib.Core.Path.{subst}
use linux_programming.Kernel.{Reply, ret, again, fail, Kernel, IsFinite}
use linux_programming.Transfer.{Link, sent, send_loop, send_full}
use linux_programming.Transfer.Full.{IsEager, Through, send_full-Through}
use linux_programming.PerConnection.{buf_size, after_send, received, echo_loop, closed, worker}

module _ (K : Kernel) (fin : IsFinite K) where
  open K use {World, recv, send, close}
  open fin use {supply}

  sent-supply :
      (continue : List ℕ → Link World → Option ℕ × Link World) (bs : List ℕ) (r : Reply ℕ)
      (w : World) (s : Link World)
      → ((cs : List ℕ) (t : Link World) → supply (continue cs t).1.world ≤ supply t.world)
      → supply (sent K continue bs r w s).1.world ≤ supply w
  unfolding sent
  sent-supply continue bs (ret n) w s f =
      f (drop n bs) (record s { world = w; tx = s.tx ++ take n bs })
  sent-supply continue bs again w s f = omega arith
  sent-supply continue bs fail w s f = omega arith

  send_loop-supply :
      (fuel fd : ℕ) (bs : List ℕ) (s : Link World)
      → supply (send_loop K fuel fd bs s).1.world ≤ supply s.world
  unfolding send_loop
  send_loop-supply zero fd bs s = omega arith
  send_loop-supply (suc fuel) fd [] s = omega arith
  send_loop-supply (suc fuel) fd (b ∷ bs) s =
      let (r, w) = send fd (b ∷ bs) s.world in
      omega (
        arith,
        fin.send_keeps fd (b ∷ bs) s.world,
        sent-supply (send_loop K fuel fd) (b ∷ bs) r w s (λ cs t. send_loop-supply fuel fd cs t),
      )

  send_full-supply :
      (fd : ℕ) (msg : List ℕ) (s : Link World)
      → supply (send_full K fd msg s).1.world ≤ supply s.world
  unfolding send_full
  send_full-supply fd msg s = send_loop-supply (length msg + 1) fd msg s

  -- What came in since `s` has gone out, but for `lost`, which is empty unless a send failed.
  pub record Echoed (s t : Link World) : Type 0 where
    pub got : List ℕ
    pub gone : List ℕ
    pub lost : List ℕ
    pub rx : t.rx ≡ s.rx ++ got
    pub tx : t.tx ≡ s.tx ++ gone
    pub same : got ≡ gone ++ lost
    pub ended : ((lost ≡ []) × (t.stops ≡ s.stops)) ⊎ (t.stops ≡ s.stops + 1)

  abbrev pub Ends : Link World → Option (Link World) → Type 0
  Ends s o = (t : Link World) × (o ≡ some t) × Echoed s t

  abbrev Result : Link World → Option (Link World) → Type 0
  Result s none = ⊥
  Result s (some t) = Echoed s t

  quiet : (s : Link World) (w : World) → Echoed s (record s { world = w })
  quiet s w = record {
    got = [];
    gone = [];
    lost = [];
    rx = sym (append-nil s.rx);
    tx = sym (append-nil s.tx);
    same = refl;
    ended = inl (refl, refl);
  }

  -- A round that sent all its bytes, and what follows it.
  Echoed-then :
      (bs : List ℕ) (s m t : Link World)
      → m.rx ≡ s.rx ++ bs
      → m.tx ≡ s.tx ++ bs
      → m.stops ≡ s.stops
      → Echoed m t
      → Echoed s t
  Echoed-then bs s m t r x z e = record {
    got = bs ++ e.got;
    gone = bs ++ e.gone;
    lost = e.lost;
    rx = e.rx ∙ ap (λ l. l ++ e.got) r ∙ append_assoc s.rx bs e.got;
    tx = e.tx ∙ ap (λ l. l ++ e.gone) x ∙ append_assoc s.tx bs e.gone;
    same = ap (λ l. bs ++ l) e.same ∙ sym (append_assoc bs e.gone e.lost);
    ended = rw z at e.ended;
  }

  after_send-Ends :
      (continue : Link World → Option (Link World)) (bs : List ℕ) (s m : Link World)
      (o : Option ℕ × Link World) (n : ℕ)
      → m.rx ≡ s.rx ++ bs
      → m.tx ≡ s.tx
      → m.stops ≡ s.stops
      → o.0 ≡ some n
      → o.1.tx ≡ m.tx ++ take n bs
      → o.1.rx ≡ m.rx
      → Through n (length bs) m o.1
      → Ends o.1 (continue o.1)
      → Ends s (after_send K continue (length bs) o)
  unfolding after_send
  after_send-Ends continue bs s m (none, u) n a b c e x y z f = absurd (cc e)
  after_send-Ends continue bs s m (some k, u) n a b c e x y (inl (all, st)) f =
      let same : k ≡ n = ap (λ o. elim o [ none ↦ 0 | some i ↦ i ]) e in
      let whole : ltb k (length bs) ≡ false = ground (arith, same, all) in
      let (t, g, h) = f in
      let out : u.tx ≡ s.tx ++ bs =
        x ∙ ap (λ l. l ++ take n bs) b ∙ ap (λ l. s.tx ++ l) (take_all n bs (omega (arith, all))) in
      (t, rw whole g, Echoed-then bs s u t (y ∙ a) out (st ∙ c) h)
  after_send-Ends continue bs s m (some k, u) n a b c e x y (inr (less, st)) f =
      let same : k ≡ n = ap (λ o. elim o [ none ↦ 0 | some i ↦ i ]) e in
      let part : ltb k (length bs) ≡ true = ground (arith, same, less) in
      (
        u,
        rw part refl,
        record {
          got = bs;
          gone = take n bs;
          lost = drop n bs;
          rx = y ∙ a;
          tx = x ∙ ap (λ l. l ++ take n bs) b;
          same = sym (take-append-drop n bs);
          ended = inr (omega (arith, st, c));
        },
      )

  module _ (eager : IsEager K) where
    received-Ends :
        (continue : Link World → Option (Link World)) (fd : ℕ) (r : Reply (List ℕ)) (w : World)
        (s : Link World)
        → ((b : ℕ) (bs : List ℕ) (t : Link World)
            → r ≡ ret (b ∷ bs)
            → supply t.world ≤ supply w
            → Ends t (continue t))
        → Ends s (received K continue fd r w s)
    unfolding received
    received-Ends continue fd (ret []) w s f = (_, refl, quiet s w)
    received-Ends continue fd (ret (b ∷ bs)) w s f =
        let m : Link World = record s { world = w; rx = s.rx ++ (b ∷ bs) } in
        let o = send_full K fd (b ∷ bs) m in
        let (n, e, x, y, z) = send_full-Through K eager fd (b ∷ bs) m in
        after_send-Ends continue (b ∷ bs) s m o n refl refl refl e x y z
          (f b bs o.1 refl (send_full-supply fd (b ∷ bs) m))
    received-Ends continue fd again w s f = (_, refl, quiet s w)
    received-Ends continue fd fail w s f = (_, refl, quiet s w)

    echo_loop-Ends :
        (fuel fd : ℕ) (s : Link World) → supply s.world < fuel → Ends s (echo_loop K fuel fd s)
    unfolding echo_loop
    echo_loop-Ends zero fd s h = absurd (omega arith)
    echo_loop-Ends (suc fuel) fd s h =
        let (r, w) = recv fd buf_size s.world in
        received-Ends (echo_loop K fuel fd) fd r w s (λ b bs t e l.
          echo_loop-Ends fuel fd t (omega (arith, h, l, fin.recv_uses fd buf_size s.world b bs e)))

    closed-Ends :
        (fd : ℕ) (s : Link World) (o : Option (Link World)) → Ends s o → Ends s (closed K fd o)
    unfolding closed
    closed-Ends fd s none (t, e, h) = absurd (cc e)
    closed-Ends fd s (some u) (t, e, h) =
        let g : Echoed s u = subst (Result s) (sym e) h in
        (
          _,
          refl,
          record {
            got = g.got;
            gone = g.gone;
            lost = g.lost;
            rx = g.rx;
            tx = g.tx;
            same = g.same;
            ended = g.ended;
          },
        )

    -- When the clients send finitely many times and a blocking `send` does not return 0, `worker` of
    -- server.cpp ends. What came in went out, in order, but for the end of the last piece, of which
    -- something is lost only if a call of `send` failed.
    pub worker-Ends :
        (fuel fd : ℕ) (s : Link World) → supply s.world < fuel → Ends s (worker K fuel fd s)
    unfolding worker
    worker-Ends fuel fd s h = closed-Ends fd s (echo_loop K fuel fd s) (echo_loop-Ends fuel fd s h)
