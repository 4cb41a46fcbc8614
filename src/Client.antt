-- ===== src/Client.antt =====
-- network/tcp_echo/client_epoll_verify.cpp: class Connection, which sends packets of consecutive
-- 64-bit numbers to an echo server and checks what comes back, and the events of EventLoop::run.
-- Numbers stand in memory with the low byte first. The counters are uint64_t.
pub mod Words
pub mod Checks
use linux_programming.Prelude.{
  ℕ, zero, suc, ◌+◌, ◌*◌, ◌/◌, ◌%◌, ◌^◌, Option, none, some, List, [], ◌∷◌, ◌++◌, length, take,
  bit_and, ◌==◌, if◌then◌else◌,
}
use linux_programming.Kernel.{Reply, ret, again, fail, Kernel, epollin}
use linux_programming.Ring.{Iovec}
use linux_programming.Ring.Memory.{write_at, slice}
use linux_programming.Transfer.{Link, send_full}

-- A number of `n` bytes in memory, written and read.
unfoldable pub bytes_of : ℕ → ℕ → List ℕ
bytes_of zero x = []
bytes_of (suc n) x = x % 256 ∷ bytes_of n (x / 256)

unfoldable pub word_of : List ℕ → ℕ
word_of [] = 0
word_of (b ∷ bs) = b + 256 * word_of bs

-- The loops `for (int i = 0; i < pkt_size; i += sizeof(uint64_t))` make this many rounds.
abbrev pub rounds : ℕ → ℕ
rounds pkt_size = (pkt_size + 7) / 8

-- The loop of `send` over `tx_buf`, from `i` on, with `tx_seq`.
unfoldable pub fill_words : ℕ → ℕ → List ℕ → ℕ → List ℕ × ℕ
fill_words zero i buf seq = (buf, seq)
fill_words (suc n) i buf seq =
    fill_words n (i + 8) (write_at buf i (bytes_of 8 seq)) ((seq + 1) % 2 ^ 64)

-- The loop of `recv` over `rx_buf`, with `rx_seq` and `*err_cnt_p`.
unfoldable pub check_words : ℕ → ℕ → List ℕ → ℕ × ℕ → ℕ × ℕ
check_words zero i buf (seq, err) = (seq, err)
check_words (suc n) i buf (seq, err) =
    let val = word_of (slice buf (record { base = i; len = 8 })) in
    check_words n (i + 8) buf ((seq + 1) % 2 ^ 64, if val == seq then err else (err + 1) % 2 ^ 64)

-- `ThroughputTracer::data`
pub record Tracer : Type 0 where
  pub tx_pkt : ℕ
  pub rx_pkt : ℕ
  pub tx_byte : ℕ
  pub rx_byte : ℕ

-- A connection with the buffers, the tracer and the counter that it shares with its loop, and its
-- link to the kernel.
pub record Connection (W : Type 0) : Type 0 where
  pub fd : ℕ
  pub pkt_size : ℕ
  pub tx_buf : List ℕ
  pub rx_buf : List ℕ
  pub tracer : Tracer
  pub tx_seq : ℕ
  pub rx_seq : ℕ
  pub err_cnt : ℕ
  pub link : Link W

module _ (K : Kernel) where
  open K use {World, recv}

  -- `send` up to the call of `send_full`, and after it, when that returned `sent`.
  unfoldable pub prepare : Connection World → Connection World
  prepare c =
      let (buf, seq) = fill_words (rounds c.pkt_size) 0 c.tx_buf c.tx_seq in
      record c { tx_buf = buf; tx_seq = seq }

  unfoldable pub count_sent : Link World → Option ℕ → Connection World → Option (Connection World)
  count_sent l none c = none
  count_sent l (some sent) c = some (record c {
    link = l;
    tracer = record (c.tracer) {
      tx_pkt = (c.tracer.tx_pkt + 1) % 2 ^ 64;
      tx_byte = (c.tracer.tx_byte + sent) % 2 ^ 64;
    };
  })

  -- `send`; `none` is the fuel of `send_full` used up.
  unfoldable pub send : Connection World → Option (Connection World)
  send c =
      let d = prepare c in
      let (r, l) = send_full K d.fd (take d.pkt_size d.tx_buf) d.link in count_sent l r d

  -- `if (recd == pkt_size)`: the packet is checked.
  unfoldable pub check : ℕ → Connection World → Connection World
  check recd c =
      if recd == c.pkt_size
      then (let (seq, err) = check_words (rounds c.pkt_size) 0 c.rx_buf (c.rx_seq, c.err_cnt) in
          record c { rx_seq = seq; err_cnt = err })
      else c

  unfoldable pub count_received : ℕ → Connection World → Connection World
  count_received recd c = record c {
    tracer = record (c.tracer) {
      rx_pkt = (c.tracer.rx_pkt + 1) % 2 ^ 64;
      rx_byte = (c.tracer.rx_byte + recd) % 2 ^ 64;
    };
  }

  -- `recv` after the system call; -1 is `none`.
  unfoldable pub received : Reply (List ℕ) → Connection World → Option ℕ × Connection World
  received (ret []) c = (none, c)
  received (ret (b ∷ bs)) c =
      let recd = length (b ∷ bs) in
      let d = record c {
        rx_buf = write_at c.rx_buf 0 (b ∷ bs);
        link = record (c.link) { rx = c.link.rx ++ (b ∷ bs) };
      } in
      (some recd, count_received recd (check recd d))
  received again c = (none, c)
  received fail c = (none, c)

  unfoldable pub receive : Connection World → Option ℕ × Connection World
  receive c =
      let (r, w) = recv c.fd c.pkt_size c.link.world in
      received r (record c { link = record (c.link) { world = w } })

  -- `handle`: 0 or -1; `none` is fuel used up.
  unfoldable pub respond : Option ℕ × Connection World → Option (Option ℕ × Connection World)
  respond (none, c) = some (none, c)
  respond (some recd, c) = elim (send c) [ none ↦ none | some d ↦ some (some 0, d) ]

  unfoldable pub handle : ℕ → Connection World → Option (Option ℕ × Connection World)
  handle events c = if bit_and events epollin == 0 then some (none, c) else respond (receive c)
