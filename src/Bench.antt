-- ===== src/Bench.antt =====
-- class Connection of network/tcp_echo/client_epoll_bench.cpp, which sends packets that begin with the
-- time, and takes the time that each needed to come back. `clock` is gettimeofday. Numbers stand in
-- memory with the low byte first; a `struct timeval` is two numbers of 8 bytes.
pub mod Echo
use linux_programming.Prelude.{
  ℕ, zero, suc, ◌+◌, ◌-◌, ◌*◌, ◌%◌, ◌^◌, Option, none, some, List, [], ◌∷◌, ◌++◌, length, take,
  bit_and, ◌==◌, if◌then◌else◌,
}
use linux_programming.Kernel.{Reply, ret, again, fail, Kernel, epollin}
use linux_programming.Ring.Memory.{write_at, slice}
use linux_programming.Transfer.{Link, send_full}
use linux_programming.Client.{Tracer, bytes_of, word_of}
use linux_programming.Latency as Latency

-- A connection with the buffers and the tracers that it shares with its loop, and its link to the
-- kernel.
pub record Connection (W : Type 0) : Type 0 where
  pub fd : ℕ
  pub pkt_size : ℕ
  pub tx_buf : List ℕ
  pub rx_buf : List ℕ
  pub tracer : Tracer
  pub latency_tracer : Latency.Tracer
  pub link : Link W

-- A `struct timeval` in memory: seconds and microseconds.
unfoldable pub timeval : ℕ × ℕ → List ℕ
timeval (sec, usec) = bytes_of 8 sec ++ bytes_of 8 usec

-- The microseconds of a time.
abbrev pub micros : ℕ × ℕ → ℕ
micros (sec, usec) = usec + sec * 1000 * 1000

-- `rtt`, a `long long`, as its 64-bit word in two's complement: the two differences add up to that of
-- the two times, and 2 ^ 64 is added before it is reduced.
unfoldable pub rtt : (now old : ℕ × ℕ) → ℕ
rtt now old = (micros now + 2 ^ 64 - micros old % 2 ^ 64) % 2 ^ 64

module _ (K : Kernel) (clock : K.World → (ℕ × ℕ) × K.World) where
  open K use {World, recv}

  -- `send` up to the call of `send_full`, and after it.
  unfoldable pub stamp : Connection World → Connection World
  stamp c =
      let (now, w) = clock c.link.world in
      record c { tx_buf = write_at c.tx_buf 0 (timeval now); link = record (c.link) { world = w } }

  unfoldable pub count_sent : Link World → Option ℕ → Connection World → Option (Connection World)
  count_sent l none c = none
  count_sent l (some n) c = some (record c {
    link = l;
    tracer = record (c.tracer) {
      tx_pkt = (c.tracer.tx_pkt + 1) % 2 ^ 64;
      tx_byte = (c.tracer.tx_byte + n) % 2 ^ 64;
    };
  })

  -- `send`; `none` is the fuel of `send_full` used up.
  unfoldable pub send : Connection World → Option (Connection World)
  send c =
      let d = stamp c in
      let (r, l) = send_full K d.fd (take d.pkt_size d.tx_buf) d.link in count_sent l r d

  -- `if (recd == pkt_size)`: a sample is taken.
  unfoldable pub sample : ℕ → Connection World → Connection World
  sample recd c =
      if recd == c.pkt_size
      then (let (now, w) = clock c.link.world in
          let old : ℕ × ℕ = (
            word_of (slice c.rx_buf (record { base = 0; len = 8 })),
            word_of (slice c.rx_buf (record { base = 8; len = 8 })),
          ) in
          record c {
            latency_tracer = Latency.push (rtt now old) c.latency_tracer;
            link = record (c.link) { world = w };
          })
      else c

  unfoldable pub count_received : ℕ → Connection World → Connection World
  count_received recd c = record c {
    tracer = record (c.tracer) {
      rx_pkt = (c.tracer.rx_pkt + 1) % 2 ^ 64;
      rx_byte = (c.tracer.rx_byte + recd) % 2 ^ 64;
    };
  }

  -- `recv` after the system call; -1 is `none`.
  unfoldable pub received : Reply (List ℕ) → Connection World → Option ℕ × Connection World
  received (ret []) c = (none, c)
  received (ret (b ∷ bs)) c =
      let recd = length (b ∷ bs) in
      let d = record c {
        rx_buf = write_at c.rx_buf 0 (b ∷ bs);
        link = record (c.link) { rx = c.link.rx ++ (b ∷ bs) };
      } in
      (some recd, count_received recd (sample recd d))
  received again c = (none, c)
  received fail c = (none, c)

  unfoldable pub receive : Connection World → Option ℕ × Connection World
  receive c =
      let (r, w) = recv c.fd c.pkt_size c.link.world in
      received r (record c { link = record (c.link) { world = w } })

  -- `handle`: 0 or -1; `none` is fuel used up.
  unfoldable pub respond : Option ℕ × Connection World → Option (Option ℕ × Connection World)
  respond (none, c) = some (none, c)
  respond (some recd, c) = elim (send c) [ none ↦ none | some d ↦ some (some 0, d) ]

  unfoldable pub handle : ℕ → Connection World → Option (Option ℕ × Connection World)
  handle events c = if bit_and events epollin == 0 then some (none, c) else respond (receive c)
