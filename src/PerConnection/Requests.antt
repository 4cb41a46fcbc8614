-- ===== src/PerConnection/Requests.antt =====
-- The thread of network/tcp_echo/client.cpp: the packets that it sends and the bytes that it waits for.
use linux_programming.Prelude.{
  ℕ, zero, suc, ◌+◌, ◌*◌, ◌≤◌, ◌<◌, ◌≡◌, refl, ◌∙◌, ap, ap₂, sym, Option, none, some, List, [],
  ◌++◌, inl, inr, arith, length, take, length-append, append_assoc, append-nil, take_all,
  length-take, ltb, Bool-cases, ltb→lt, replicate, ◌%◌,
}
use mathlib.Core.Path.{subst}
use linux_programming.Kernel.{Kernel}
use linux_programming.Transfer.{Link, send_full}
use linux_programming.Transfer.Full.{IsEager, send_full-Through, recv_full-Through}
use linux_programming.PerConnection.{closed, request, after_request, request_loop, client}

times : (n k : ℕ) → suc n * k ≡ k + n * k
times n k = grind arith

lens_apart :
    (i j k l : ℕ)
    → ◌≡◌ {A = Option ℕ × Option ℕ} (some i, some j) (some k, some l)
    → (i ≡ k) × (j ≡ l)
lens_apart i j k l e =
    let value : Option ℕ → ℕ = λ o. elim o [ none ↦ 0 | some x ↦ x ] in
    (ap (λ p. value p.0) e, ap (λ p. value p.1) e)

-- `n` packets in a row.
abbrev pub packets : ℕ → List ℕ → List ℕ
packets zero bs = []
packets (suc n) bs = bs ++ packets n bs

-- From `s` to `t`, after at most `n` requests: no more is missing than one packet; and if no call ended a
-- transfer, all packets went out and as many bytes came in.
pub record Asked (n : ℕ) (msg : List ℕ) {W : Type 0} (s t : Link W) : Type 0 where
  pub gone : List ℕ
  pub got : List ℕ
  pub tx : t.tx ≡ s.tx ++ gone
  pub rx : t.rx ≡ s.rx ++ got
  pub missing : length gone ≤ length got + length msg
  pub few : length got ≤ n * length msg
  pub stopped : s.stops ≤ t.stops
  pub complete : t.stops ≡ s.stops → (gone ≡ packets n msg) × (length got ≡ n * length msg)

module _ (K : Kernel) (eager : IsEager K) (msg : List ℕ) (fd : ℕ) where
  open K use {World}

  abbrev pub Ends : ℕ → Link World → Option (Link World) → Type 0
  Ends n s o = (t : Link World) × (o ≡ some t) × Asked n msg s t

  abbrev Result : ℕ → Link World → Option (Link World) → Type 0
  Result n s none = ⊥
  Result n s (some t) = Asked n msg s t

  -- What one request does.
  record Round (s : Link World) (r : (Option ℕ × Option ℕ) × Link World) : Type 0 where
    send_len : ℕ
    in_bytes : List ℕ
    lens : r.0 ≡ (some send_len, some (length in_bytes))
    out : r.1.tx ≡ s.tx ++ take send_len msg
    into : r.1.rx ≡ s.rx ++ in_bytes
    send_le : send_len ≤ length msg
    recv_le : length in_bytes ≤ length msg
    stops_le : s.stops ≤ r.1.stops
    whole : r.1.stops ≡ s.stops → (send_len ≡ length msg) × (length in_bytes ≡ length msg)

  request-Round : (s : Link World) → Round s (request K fd msg s)
  unfolding request
  request-Round s =
      let (n, e, x, y, z) = send_full-Through K eager fd msg s in
      let t = (send_full K fd msg s).1 in
      let (got, f, a, b, c) = recv_full-Through K fd (length msg) t in
      record {
        send_len = n;
        in_bytes = got;
        lens = ap₂ (λ o p. (o, p)) e f;
        out = b ∙ x;
        into = a ∙ ap (λ l. l ++ got) y;
        send_le = omega (arith, z);
        recv_le = omega (arith, c);
        stops_le = omega (arith, z, c);
        whole = λ q. (omega (arith, z, c, q), omega (arith, z, c, q));
      }

  after_request-Ends :
      (n : ℕ) (continue : Link World → Option (Link World)) (s : Link World)
      (r : (Option ℕ × Option ℕ) × Link World)
      → Round s r
      → ((t : Link World) → Ends n t (continue t))
      → Ends (suc n) s (after_request K continue r)
  unfolding after_request
  after_request-Ends n continue s ((none, p), u) v f = absurd (cc v.lens)
  after_request-Ends n continue s ((some i, none), u) v f = absurd (cc v.lens)
  after_request-Ends n continue s ((some i, some j), u) v f =
      let (sends, receives) = lens_apart i j v.send_len (length v.in_bytes) v.lens in
      let taken = length-take v.send_len msg in
      elim (Bool-cases (ltb j i)) [
        | inl e ↦
            let short : j < i = ltb→lt j i e in
            (
              u,
              rw e refl,
              record {
                gone = take v.send_len msg;
                got = v.in_bytes;
                tx = v.out;
                rx = v.into;
                missing = omega (arith, taken, v.send_le);
                few = omega (arith, times n (length msg), v.recv_le);
                stopped = v.stops_le;
                complete = λ q.
                    let (a, b) = v.whole q in absurd (omega (arith, a, b, sends, receives, short));
              },
            )
        | inr e ↦
            let (t, g, h) = f u in
            let enough : i ≤ j = ground (arith, e) in
            (
              t,
              rw e g,
              record {
                gone = take v.send_len msg ++ h.gone;
                got = v.in_bytes ++ h.got;
                tx =
                    h.tx
                    ∙ ap (λ l. l ++ h.gone) v.out
                    ∙ append_assoc s.tx (take v.send_len msg) h.gone;
                rx = h.rx ∙ ap (λ l. l ++ h.got) v.into ∙ append_assoc s.rx v.in_bytes h.got;
                missing = omega (
                  arith,
                  length-append (take v.send_len msg) h.gone,
                  length-append v.in_bytes h.got,
                  taken,
                  h.missing,
                  enough,
                  sends,
                  receives,
                );
                few =
                    omega (
                      arith,
                      length-append v.in_bytes h.got,
                      times n (length msg),
                      v.recv_le,
                      h.few,
                    );
                stopped = omega (arith, v.stops_le, h.stopped);
                complete = λ q.
                    let (a, b) = v.whole (omega (arith, q, v.stops_le, h.stopped)) in
                    let (c, d) = h.complete (omega (arith, q, v.stops_le, h.stopped)) in
                    (
                      ap₂ ◌++◌ (take_all v.send_len msg (omega (arith, a))) c,
                      omega (arith, length-append v.in_bytes h.got, times n (length msg), b, d),
                    );
              },
            )
      ]

  request_loop-Ends : (n : ℕ) (s : Link World) → Ends n s (request_loop K n fd msg s)
  unfolding request_loop
  request_loop-Ends zero s = (
    s,
    refl,
    record {
      gone = [];
      got = [];
      tx = sym (append-nil s.tx);
      rx = sym (append-nil s.rx);
      missing = omega arith;
      few = omega arith;
      stopped = omega arith;
      complete = λ e. (refl, omega arith);
    },
  )
  request_loop-Ends (suc n) s =
      after_request-Ends n (request_loop K n fd msg) s (request K fd msg s) (request-Round s)
        (λ t. request_loop-Ends n t)

  closed-Ends :
      (n : ℕ) (s : Link World) (o : Option (Link World)) → Ends n s o → Ends n s (closed K fd o)
  unfolding closed
  closed-Ends n s none (t, e, h) = absurd (cc e)
  closed-Ends n s (some u) (t, e, h) =
      let g : Asked n msg s u = subst (Result n s) (sym e) h in
      (
        _,
        refl,
        record {
          gone = g.gone;
          got = g.got;
          tx = g.tx;
          rx = g.rx;
          missing = g.missing;
          few = g.few;
          stopped = g.stopped;
          complete = g.complete;
        },
      )

-- When a blocking `send` does not return 0, `worker` of client.cpp ends. It receives no more than
-- `request_num` packets' bytes, and what it sent exceeds that by a packet at most; if no call failed and
-- the stream did not end, it sent `request_num` packets and received as many bytes.
pub client-Asked :
    (K : Kernel)
    → IsEager K
    → (request_num size fd : ℕ) (s : Link K.World)
    → (t : Link K.World) × (client K request_num size fd s ≡ some t)
      × Asked request_num (replicate size (fd % 256)) s t
unfolding client
client-Asked K eager request_num size fd s =
    let msg = replicate size (fd % 256) in
    closed-Ends K eager msg fd request_num s (request_loop K request_num fd msg s)
      (request_loop-Ends K eager msg fd request_num s)
