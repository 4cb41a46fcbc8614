-- ===== src/Client/Checks.antt =====
-- `send` and `recv` of client_epoll_verify.cpp, one after the other, against an echo.
use linux_programming.Prelude.{
  ℕ, ◌*◌, ◌^◌, ◌≤◌, ◌<◌, ◌≡◌, inl, inr, refl, ◌∙◌, ap, sym, true, Option, some, List, [], ◌∷◌, ◌++◌,
  arith, length, take, take_all, ◌==◌,
}
use mathlib.Core.Path.{subst}
use mathlib.Core.List.{append_cancel_left}
use linux_programming.Kernel.{ret, Kernel}
use linux_programming.Ring.Memory.{write_at}
use linux_programming.BoundedQueue.Memory.{slice-write_at}
use linux_programming.Transfer.{send_full}
use linux_programming.Transfer.Full.{Through, IsEager, send_full-Through}
use linux_programming.Client.{
  Connection, rounds, fill_words, prepare, count_sent, send, check, count_received, received,
}
use linux_programming.Client.Words.{
  part, message, after, length-message, fill_words-message, check_words-message,
}

-- The packets of a connection are `n` numbers long and fit its buffers.
pub record IsSized {W : Type 0} (n : ℕ) (c : Connection W) : Type 0 where
  pub numbers : c.pkt_size ≡ 8 * n
  pub tx_room : c.pkt_size ≤ length c.tx_buf
  pub rx_room : c.pkt_size ≤ length c.rx_buf

-- What `send` leaves of the receiving side, and what goes out.
pub record Sent {W : Type 0} (n : ℕ) (c d : Connection W) : Type 0 where
  pub sized : IsSized n d
  pub next : d.tx_seq ≡ after n c.tx_seq
  pub same_rx_seq : d.rx_seq ≡ c.rx_seq
  pub same_err : d.err_cnt ≡ c.err_cnt
  pub out : ℕ
  pub wire : d.link.tx ≡ c.link.tx ++ take out (message n c.tx_seq)
  pub through : Through out c.pkt_size c.link d.link

some-injective :
    {W : Type 0} {a b : Connection W} → ◌≡◌ {A = Option (Connection W)} (some a) (some b) → a ≡ b
some-injective e = cc

rounds_of : (n : ℕ) → rounds (8 * n) ≡ n
rounds_of n = omega arith

module _ (K : Kernel) where
  open K use {World}

  -- `send` ends, and puts the front of the next `n` numbers on the wire, all of them unless the
  -- kernel failed.
  pub send-Sent :
      IsEager K
      → (n : ℕ) (c : Connection World) → IsSized n c
      → (d : Connection World) × (send K c ≡ some d) × Sent n c d
  unfolding send prepare count_sent
  send-Sent eager n c v =
      let r : rounds c.pkt_size ≡ n = ap rounds v.numbers ∙ rounds_of n in
      let (buf, seq) = fill_words (rounds c.pkt_size) 0 c.tx_buf c.tx_seq in
      let (m, s, l) =
        fill_words-message (rounds c.pkt_size) 0 c.tx_seq c.tx_buf
          (omega (arith, r, v.numbers, v.tx_room)) in
      let size : 8 * rounds c.pkt_size ≡ c.pkt_size = omega (arith, r, v.numbers) in
      let packet : take c.pkt_size buf ≡ message n c.tx_seq =
        ap (λ k. take k buf) (sym size) ∙ m ∙ ap (λ k. message k c.tx_seq) r in
      let len : length (take c.pkt_size buf) ≡ c.pkt_size =
        ap length packet ∙ length-message n c.tx_seq ∙ sym v.numbers in
      let (k, e, x, y, z) = send_full-Through K eager c.fd (take c.pkt_size buf) c.link in
      let link = (send_full K c.fd (take c.pkt_size buf) c.link).1 in
      (
        _,
        ap (λ o. count_sent K link o (prepare K c)) e,
        record {
          sized = record {
            numbers = v.numbers;
            tx_room = omega (arith, l, v.tx_room);
            rx_room = v.rx_room;
          };
          next = s ∙ ap (λ j. after j c.tx_seq) r;
          same_rx_seq = refl;
          same_err = refl;
          out = k;
          wire = x ∙ ap (λ bs. c.link.tx ++ take k bs) packet;
          through = subst (λ j. Through k j c.link link) len z;
        },
      )

  -- A packet that holds the numbers that the connection expects is received without an error.
  pub received-clean :
      (n : ℕ) (c : Connection World) (bs : List ℕ)
      → IsSized n c
      → c.rx_seq < 2 ^ 64
      → 0 < n
      → bs ≡ message n c.rx_seq
      → let (a, d) = received K (ret bs) c in
        (a ≡ some c.pkt_size)
        × (d.err_cnt ≡ c.err_cnt)
        × (d.rx_seq ≡ after n c.rx_seq)
        × (d.tx_seq ≡ c.tx_seq)
  unfolding received count_received check
  received-clean n c [] v s p e = absurd (omega (arith, ap length e, length-message n c.rx_seq))
  received-clean n c (b ∷ bs) v s p e =
      let len : length (b ∷ bs) ≡ c.pkt_size =
        ap length e ∙ length-message n c.rx_seq ∙ sym v.numbers in
      let full : (length (b ∷ bs) == c.pkt_size) ≡ true = ground (arith, len) in
      let r : rounds c.pkt_size ≡ n = ap rounds v.numbers ∙ rounds_of n in
      let buf = write_at c.rx_buf 0 (b ∷ bs) in
      let read : part buf 0 (8 * rounds c.pkt_size) ≡ message (rounds c.pkt_size) c.rx_seq =
        slice-write_at c.rx_buf (b ∷ bs) 0 (8 * rounds c.pkt_size)
          (omega (arith, len, r, v.numbers)) (omega (arith, r, v.numbers, v.rx_room))
        ∙ e
        ∙ ap (λ k. message k c.rx_seq) (sym r) in
      let checked = check_words-message (rounds c.pkt_size) 0 c.rx_seq c.err_cnt buf s read in
      rw (full, check)
        (
          ap (λ k. some k) len,
          ap (λ x. x.1) checked,
          ap (λ x. x.0) checked ∙ ap (λ k. after k c.rx_seq) r,
          refl,
        )

  -- For packets of at least one whole number that fit the buffers, a `send` that never returns 0, and a
  -- connection that expects the number that it sends next: the bytes that `send` has put on the wire,
  -- if the kernel took all of them, come back from an echo as they are. When one `recv` returns them,
  -- it counts no error, and the number expected is again the one that is sent next.
  pub echo-clean :
      IsEager K
      → (n : ℕ) (c : Connection World) → IsSized n c
      → 0 < n
      → c.tx_seq < 2 ^ 64
      → c.rx_seq ≡ c.tx_seq
      → (d : Connection World) (bs : List ℕ) → send K c ≡ some d
      → d.link.stops ≡ c.link.stops
      → d.link.tx ≡ c.link.tx ++ bs
      → let (a, e) = received K (ret bs) d in
        (a ≡ some c.pkt_size) × (e.err_cnt ≡ c.err_cnt) × (e.rx_seq ≡ e.tx_seq)
  echo-clean eager n c v p h same d bs ran ok wire =
      let (d', ran', sent') = send-Sent eager n c v in
      let sent = subst (Sent n c) (some-injective (sym ran' ∙ ran)) sent' in
      let size = length-message n c.tx_seq in
      let all : sent.out ≡ c.pkt_size = elim sent.through [
        | inl (full, z) ↦ full
        | inr (part, z) ↦ absurd (omega (arith, z, ok))
      ] in
      let packet : bs ≡ message n d.rx_seq =
        append_cancel_left c.link.tx bs _ (sym wire ∙ sent.wire)
        ∙ take_all sent.out (message n c.tx_seq) (omega (arith, all, size, v.numbers))
        ∙ ap (message n) (sym (sent.same_rx_seq ∙ same)) in
      let same_size : d.pkt_size ≡ c.pkt_size = sent.sized.numbers ∙ sym v.numbers in
      let (a, err, seq, tx) =
        received-clean n d bs sent.sized (omega (arith, sent.same_rx_seq, same, h)) p packet in
      (
        a ∙ ap (λ k. some k) same_size,
        err ∙ sent.same_err,
        seq ∙ ap (after n) (sent.same_rx_seq ∙ same) ∙ sym sent.next ∙ sym tx,
      )
