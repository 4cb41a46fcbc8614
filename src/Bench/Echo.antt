-- ===== src/Bench/Echo.antt =====
-- A packet of client_epoll_bench.cpp that is sent and comes back: the sample that is taken of it.
use linux_programming.Prelude.{
  ℕ, ◌+◌, ◌-◌, ◌^◌, ◌≤◌, ◌<◌, ◌≡◌, inl, inr, refl, ◌∙◌, ap, ap₂, sym, true, Option, some, List, [],
  ◌∷◌, ◌++◌, arith, length, length-append, length-take, take, drop, take_all, take-append,
  drop-append, drop_all, ◌==◌,
}
use mathlib.Core.Path.{subst}
use mathlib.Core.List.{append_cancel_left}
use linux_programming.Kernel.{ret, Kernel}
use linux_programming.Ring.Memory.{write_at, length-write_at}
use linux_programming.BoundedQueue.Memory.{slice-write_at}
use linux_programming.Transfer.{send_full}
use linux_programming.Transfer.Full.{Through, IsEager, send_full-Through}
use linux_programming.Client.{bytes_of, word_of}
use linux_programming.Client.Words.{part, length-bytes_of, word_of-bytes_of, take-take, drop-take}
use linux_programming.Latency as Latency
use linux_programming.Bench.{
  Connection, timeval, micros, rtt, stamp, count_sent, send, sample, count_received, received,
}

length-timeval : (now : ℕ × ℕ) → length (timeval now) ≡ 16
unfolding timeval
length-timeval (sec, usec) = omega (
  arith,
  length-append (bytes_of 8 sec) (bytes_of 8 usec),
  length-bytes_of 8 sec,
  length-bytes_of 8 usec,
)

-- The numbers of a `struct timeval` are read back.
first_number : (now : ℕ × ℕ) → now.0 < 2 ^ 64 → word_of (take 8 (timeval now)) ≡ now.0
unfolding timeval
first_number (sec, usec) h =
    let size = length-bytes_of 8 sec in
    ap word_of (
      take-append 8 (bytes_of 8 sec) (bytes_of 8 usec) (omega (arith, size))
      ∙ take_all 8 (bytes_of 8 sec) (omega (arith, size)))
    ∙ word_of-bytes_of 8 sec (omega arith)

second_number : (now : ℕ × ℕ) → now.1 < 2 ^ 64 → word_of (drop 8 (timeval now)) ≡ now.1
unfolding timeval
second_number (sec, usec) h =
    let size = length-bytes_of 8 sec in
    ap word_of (
      drop-append 8 (bytes_of 8 sec) (bytes_of 8 usec) (omega (arith, size))
      ∙ ap (λ l. l ++ bytes_of 8 usec) (drop_all 8 (bytes_of 8 sec) (omega (arith, size))))
    ∙ word_of-bytes_of 8 usec (omega arith)

-- A buffer whose first 16 bytes are a `struct timeval`.
read_back :
    (now : ℕ × ℕ) (buf : List ℕ)
    → now.0 < 2 ^ 64
    → now.1 < 2 ^ 64
    → part buf 0 16 ≡ timeval now
    → (word_of (part buf 0 8) ≡ now.0) × (word_of (part buf 8 8) ≡ now.1)
read_back now buf h k e = (
  ap word_of (sym (take-take 8 8 buf) ∙ ap (take 8) e) ∙ first_number now h,
  ap word_of (sym (drop-take 8 8 buf) ∙ ap (drop 8) e) ∙ second_number now k,
)

-- The packets hold a `struct timeval` and fit the buffers.
pub record IsSized {W : Type 0} (c : Connection W) : Type 0 where
  pub stamped : 16 ≤ c.pkt_size
  pub tx_room : c.pkt_size ≤ length c.tx_buf
  pub rx_room : c.pkt_size ≤ length c.rx_buf

-- The first bytes of a packet show in the front of a buffer that it is written to.
front-write_at :
    (buf bs : List ℕ) (m : ℕ)
    → m ≤ length bs
    → length bs ≤ length buf
    → part (write_at buf 0 bs) 0 m ≡ take m bs
front-write_at buf bs m h k =
    let e : length bs ≡ m + (length bs - m) = omega (arith, h) in
    let all : part (write_at buf 0 bs) 0 (length bs) ≡ bs =
      slice-write_at buf bs 0 (length bs) refl (omega (arith, k)) in
    sym (take-take m (length bs - m) (write_at buf 0 bs))
    ∙ ap (λ n. take m (take n (write_at buf 0 bs))) (sym e)
    ∙ ap (take m) all

some_connection :
    {W : Type 0} {a b : Connection W} → ◌≡◌ {A = Option (Connection W)} (some a) (some b) → a ≡ b
some_connection e = cc

module _ (K : Kernel) (clock : K.World → (ℕ × ℕ) × K.World) where
  open K use {World}

  -- The packet that `send` sends.
  abbrev packet : Connection World → List ℕ
  packet c = take c.pkt_size (write_at c.tx_buf 0 (timeval (clock c.link.world).0))

  -- What `send` leaves of the receiving side, and what goes out.
  record Sent (c d : Connection World) : Type 0 where
    same_size : d.pkt_size ≡ c.pkt_size
    same_rx_buf : d.rx_buf ≡ c.rx_buf
    same_latency : d.latency_tracer ≡ c.latency_tracer
    out : ℕ
    wire : d.link.tx ≡ c.link.tx ++ take out (packet c)
    through : Through out (length (packet c)) c.link d.link

  send-Sent :
      IsEager K
      → (c : Connection World) → (d : Connection World) × (send K clock c ≡ some d) × Sent c d
  unfolding send stamp count_sent
  send-Sent eager c =
      let e = stamp K clock c in
      let (k, ran, x, y, z) = send_full-Through K eager e.fd (take e.pkt_size e.tx_buf) e.link in
      (
        _,
        ap (λ o. count_sent K clock (send_full K e.fd (take e.pkt_size e.tx_buf) e.link).1 o e) ran,
        record {
          same_size = refl;
          same_rx_buf = refl;
          same_latency = refl;
          out = k;
          wire = x;
          through = z;
        },
      )

  received-sample :
      (c : Connection World) (old : ℕ × ℕ) (bs : List ℕ)
      → 16 ≤ c.pkt_size
      → c.pkt_size ≤ length c.rx_buf
      → length bs ≡ c.pkt_size
      → take 16 bs ≡ timeval old
      → old.0 < 2 ^ 64
      → old.1 < 2 ^ 64
      → let (a, e) = received K clock (ret bs) c in
        (a ≡ some c.pkt_size)
        × (e.latency_tracer ≡ Latency.push (rtt (clock c.link.world).0 old) c.latency_tracer)
  unfolding received sample count_received
  received-sample c old [] l room len e h k = absurd (omega (arith, l, len))
  received-sample c old (b ∷ bs) l room len e h k =
      let full : (length (b ∷ bs) == c.pkt_size) ≡ true = ground (arith, len) in
      let buf = write_at c.rx_buf 0 (b ∷ bs) in
      let front =
        front-write_at c.rx_buf (b ∷ bs) 16 (omega (arith, l, len)) (omega (arith, len, room)) in
      let (sec, usec) = read_back old buf h k (front ∙ e) in
      let both : ◌≡◌ {A = ℕ × ℕ} (word_of (part buf 0 8), word_of (part buf 8 8)) old =
        ap₂ (λ (x : ℕ) (y : ℕ). (x, y)) sec usec in
      rw (full, sample)
        (
          ap (λ n. some n) len,
          ap (λ o. Latency.push (rtt (clock c.link.world).0 o) c.latency_tracer) both,
        )

  -- The word of a difference that is not negative and fits a `long long` is the difference.
  rtt_exact :
      (now old : ℕ × ℕ)
      → micros old ≤ micros now
      → micros now < 2 ^ 63
      → rtt now old ≡ micros now - micros old
  unfolding rtt
  rtt_exact now old h k = omega (arith, h, k)

  -- For packets that hold a `struct timeval` and fit the buffers, a `send` that never returns 0, times
  -- whose numbers fit, and a clock that has not been set back between the sending and the check: the
  -- bytes that `send` has put on the wire, if the kernel took all of them, come back as they are. When
  -- one `recv` returns them, one sample is pushed, the microseconds from the time at which the packet
  -- was sent to the time of the check.
  pub echo_time :
      IsEager K
      → (c : Connection World) → IsSized c
      → (clock c.link.world).0.0 < 2 ^ 64
      → (clock c.link.world).0.1 < 2 ^ 64
      → (d : Connection World) (bs : List ℕ) → send K clock c ≡ some d
      → d.link.stops ≡ c.link.stops
      → d.link.tx ≡ c.link.tx ++ bs
      → micros (clock c.link.world).0 ≤ micros (clock d.link.world).0
      → micros (clock d.link.world).0 < 2 ^ 63
      → let (a, e) = received K clock (ret bs) d in
        (a ≡ some c.pkt_size)
        × (e.latency_tracer
            ≡ Latency.push
                (micros (clock d.link.world).0 - micros (clock c.link.world).0)
                c.latency_tracer)
  echo_time eager c v h k d bs ran ok wire onward fits =
      let (d', ran', sent') = send-Sent eager c in
      let sent = subst (Sent c) (some_connection (sym ran' ∙ ran)) sent' in
      let old = (clock c.link.world).0 in
      let buf = write_at c.tx_buf 0 (timeval old) in
      let room = length-write_at c.tx_buf 0 (timeval old) in
      let size : length (packet c) ≡ c.pkt_size =
        omega (arith, length-take c.pkt_size buf, room, v.tx_room) in
      let all : sent.out ≡ length (packet c) = elim sent.through [
        | inl (full, z) ↦ full
        | inr (part, z) ↦ absurd (omega (arith, z, ok))
      ] in
      let whole : bs ≡ packet c =
        append_cancel_left c.link.tx bs _ (sym wire ∙ sent.wire)
        ∙ take_all sent.out (packet c) (omega (arith, all)) in
      let split : c.pkt_size ≡ 16 + (c.pkt_size - 16) = omega (arith, v.stamped) in
      let stamped : take 16 bs ≡ timeval old =
        ap (take 16) whole
        ∙ ap (λ n. take 16 (take n buf)) split
        ∙ take-take 16 (c.pkt_size - 16) buf
        ∙ slice-write_at c.tx_buf (timeval old) 0 16 (length-timeval old)
            (omega (arith, v.stamped, v.tx_room)) in
      let (a, e) =
        received-sample d old bs (omega (arith, sent.same_size, v.stamped))
          (omega (arith, sent.same_size, ap length sent.same_rx_buf, v.rx_room))
          (ap length whole ∙ size ∙ sym sent.same_size) stamped h k in
      (
        a ∙ ap (λ n. some n) sent.same_size,
        e
            ∙ ap (Latency.push (rtt (clock d.link.world).0 old)) sent.same_latency
            ∙ ap (λ n. Latency.push n c.latency_tracer)
                (rtt_exact (clock d.link.world).0 old onward fits),
      )
