-- ===== src/Transfer/Full.antt =====
-- What send_full and recv_full of network/tcp_echo/util.cpp return, against the bytes that got through.
use linux_programming.Prelude.{
  ℕ, zero, suc, ◌+◌, ◌-◌, ◌≤◌, ◌<◌, ◌≡◌, ◌≢◌, refl, ◌∙◌, ap, sym, Option, some, List, [], ◌∷◌, ◌++◌,
  ◌⊎◌, inl, inr, arith, length, take, drop, length-append, append_assoc, append-nil, take-add,
  length-drop,
}
use linux_programming.Kernel.{Reply, ret, again, fail, Kernel}
use linux_programming.Transfer.{
  Link, sent, send_loop, subtract_from, send_full, received, recv_loop, recv_full,
}

-- All `len` bytes are through and no call ended the transfer, or fewer are, and the last call did.
abbrev pub Through : {W : Type 0} → ℕ → ℕ → Link W → Link W → Type 0
Through n len s t = ((n ≡ len) × (t.stops ≡ s.stops)) ⊎ ((n < len) × (t.stops ≡ s.stops + 1))

module _ (K : Kernel) where
  open K use {World, send, recv, send_bound, recv_bound}

  -- A blocking `send` of at least one byte does not return 0.
  abbrev pub IsEager : Type 0
  IsEager = (fd b : ℕ) (bs : List ℕ) (w : World) → (send fd (b ∷ bs) w).0 ≢ ret 0

  -- What the loop of `send_full` leaves when the bytes `bs` were to go.
  abbrev Sends : List ℕ → Link World → Option ℕ × Link World → Type 0
  Sends bs s (r, t) =
      (left : ℕ) × (r ≡ some left)
      × (left ≤ length bs)
      × (t.tx ≡ s.tx ++ take (length bs - left) bs)
      × (t.rx ≡ s.rx)
      × (((left ≡ 0) × (t.stops ≡ s.stops)) ⊎ ((0 < left) × (t.stops ≡ s.stops + 1)))

  sent-Sends :
      (continue : List ℕ → Link World → Option ℕ × Link World) (bs : List ℕ) (r : Reply ℕ)
      (w : World) (s : Link World)
      → 0 < length bs
      → ((n : ℕ) → r ≡ ret n → n ≤ length bs)
      → ((n : ℕ) (t : Link World) → r ≡ ret n → Sends (drop n bs) t (continue (drop n bs) t))
      → Sends bs s (sent K continue bs r w s)
  unfolding sent
  sent-Sends continue bs (ret n) w s pos_len b f =
      let (left, e, l, x, y, z) = f n (record s { world = w; tx = s.tx ++ take n bs }) refl in
      let m = b n refl in
      let d = length-drop n bs in
      let split : length bs - left ≡ n + (length (drop n bs) - left) = omega (arith, l, d, m) in
      (
        left,
        e,
        omega (arith, l, d),
        x
            ∙ append_assoc s.tx (take n bs) (take (length (drop n bs) - left) (drop n bs))
            ∙ ap (λ u. s.tx ++ u) (sym (ap (λ k. take k bs) split ∙ take-add n _ bs)),
        y,
        z,
      )
  sent-Sends continue bs again w s pos_len b f =
      let z : length bs - length bs ≡ 0 = omega arith in
      (length bs, refl, omega arith, rw z (sym (append-nil s.tx)), refl, inr (pos_len, refl))
  sent-Sends continue bs fail w s pos_len b f =
      let z : length bs - length bs ≡ 0 = omega arith in
      (length bs, refl, omega arith, rw z (sym (append-nil s.tx)), refl, inr (pos_len, refl))

  send_loop-Sends :
      IsEager
      → (fuel fd : ℕ) (bs : List ℕ) (s : Link World) → length bs < fuel
      → Sends bs s (send_loop K fuel fd bs s)
  unfolding send_loop
  send_loop-Sends eager zero fd bs s h = absurd (omega arith)
  send_loop-Sends eager (suc fuel) fd [] s h =
      (0, refl, omega arith, sym (append-nil s.tx), refl, inl (refl, refl))
  send_loop-Sends eager (suc fuel) fd (b ∷ bs) s h =
      sent-Sends (send_loop K fuel fd) (b ∷ bs) ((send fd (b ∷ bs) s.world).0)
        ((send fd (b ∷ bs) s.world).1) s (omega arith) (λ n e. send_bound fd (b ∷ bs) s.world n e)
        (λ n t e.
          send_loop-Sends eager fuel fd (drop n (b ∷ bs)) t (drop_less n e (eager fd b bs s.world)))
    where
      drop_less :
          (n : ℕ)
          → (send fd (b ∷ bs) s.world).0 ≡ ret n
          → (send fd (b ∷ bs) s.world).0 ≢ ret 0
          → length (drop n (b ∷ bs)) < fuel
      drop_less zero e ne = absurd (ne e)
      drop_less (suc n) e ne = omega (arith, length-drop (suc n) (b ∷ bs))

  -- When a blocking `send` of at least one byte never returns 0, `send_full` ends. It returns how many
  -- bytes went out: they are the front of the message, and all of it unless a call failed.
  pub send_full-Through :
      IsEager
      → (fd : ℕ) (msg : List ℕ) (s : Link World)
      → let (r, t) = send_full K fd msg s in
        (n : ℕ) × (r ≡ some n)
        × (t.tx ≡ s.tx ++ take n msg)
        × (t.rx ≡ s.rx)
        × Through n (length msg) s t
  unfolding send_full
  send_full-Through eager fd msg s =
      let (left, e, l, x, y, z) = send_loop-Sends eager (length msg + 1) fd msg s (omega arith) in
      (
        length msg - left,
        ap (subtract_from (length msg)) e,
        x,
        y,
        elim z [
          | inl (a, b) ↦ inl (omega (arith, a), b)
          | inr (a, b) ↦ inr (omega (arith, a, l), b)
        ],
      )

  -- What the loop of `recv_full` leaves when `remaining` bytes were to come.
  abbrev Receives : ℕ → Link World → Option ℕ × Link World → Type 0
  Receives remaining s (r, t) =
      (left : ℕ) × (got : List ℕ) × (r ≡ some left)
      × (length got + left ≡ remaining)
      × (t.rx ≡ s.rx ++ got)
      × (t.tx ≡ s.tx)
      × (((left ≡ 0) × (t.stops ≡ s.stops)) ⊎ ((0 < left) × (t.stops ≡ s.stops + 1)))

  received-Receives :
      (continue : ℕ → Link World → Option ℕ × Link World) (remaining : ℕ) (r : Reply (List ℕ))
      (w : World) (s : Link World)
      → 0 < remaining
      → ((bs : List ℕ) → r ≡ ret bs → length bs ≤ remaining)
      → ((k : ℕ) (t : Link World) → k < remaining → Receives k t (continue k t))
      → Receives remaining s (received K continue remaining r w s)
  unfolding received
  received-Receives continue remaining (ret []) w s h b f =
      (remaining, [], refl, omega arith, sym (append-nil s.rx), refl, inr (h, refl))
  received-Receives continue remaining (ret (x ∷ xs)) w s h b f =
      let m = b (x ∷ xs) refl in
      let (left, got, e, l, a, y, z) =
        f (remaining - length (x ∷ xs)) (record s { world = w; rx = s.rx ++ (x ∷ xs) })
          (omega (arith, h)) in
      (
        left,
        (x ∷ xs) ++ got,
        e,
        omega (arith, l, m, length-append (x ∷ xs) got),
        a ∙ append_assoc s.rx (x ∷ xs) got,
        y,
        z,
      )
  received-Receives continue remaining again w s h b f =
      (remaining, [], refl, omega arith, sym (append-nil s.rx), refl, inr (h, refl))
  received-Receives continue remaining fail w s h b f =
      (remaining, [], refl, omega arith, sym (append-nil s.rx), refl, inr (h, refl))

  recv_loop-Receives :
      (fuel fd remaining : ℕ) (s : Link World)
      → remaining < fuel
      → Receives remaining s (recv_loop K fuel fd remaining s)
  unfolding recv_loop
  recv_loop-Receives zero fd remaining s h = absurd (omega arith)
  recv_loop-Receives (suc fuel) fd zero s h =
      (0, [], refl, omega arith, sym (append-nil s.rx), refl, inl (refl, refl))
  recv_loop-Receives (suc fuel) fd (suc remaining) s h =
      received-Receives (recv_loop K fuel fd) (suc remaining) ((recv fd (suc remaining) s.world).0)
        ((recv fd (suc remaining) s.world).1) s (omega arith)
        (λ bs e. recv_bound fd (suc remaining) s.world bs e)
        (λ k t l. recv_loop-Receives fuel fd k t (omega arith))

  -- `recv_full` ends. It returns how many bytes came in, which is `len` unless the stream ended or a
  -- call failed.
  pub recv_full-Through :
      (fd len : ℕ) (s : Link World)
      → let (r, t) = recv_full K fd len s in
        (got : List ℕ) × (r ≡ some (length got))
        × (t.rx ≡ s.rx ++ got)
        × (t.tx ≡ s.tx)
        × Through (length got) len s t
  unfolding recv_full
  recv_full-Through fd len s =
      let (left, got, e, l, a, y, z) = recv_loop-Receives (len + 1) fd len s (omega arith) in
      let n : len - left ≡ length got = omega (arith, l) in
      (
        got,
        ap (subtract_from len) e ∙ ap (λ k. some k) n,
        a,
        y,
        elim z [
          | inl (p, q) ↦ inl (omega (arith, p, l), q)
          | inr (p, q) ↦ inr (omega (arith, p, l), q)
        ],
      )
