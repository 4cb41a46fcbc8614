-- ===== src/Response.antt =====
-- class Connection of network/tcp_echo/server_epollout_response.cpp: each 8 bytes that a client
-- sends are a request, and each request is answered by the whole of `response_buf`.
-- The definitions take the constant `response_size`, 256 MiB in the source, as an argument, so that
-- they run in tests. RingBuffer is the class of server_epollout_handle.cpp, word for word.
pub mod Calls
pub mod Stream
pub mod Send
pub mod Requests
pub mod Handle
use linux_programming.Prelude.{
  ℕ, zero, suc, ◌+◌, ◌-◌, ◌%◌, ◌*◌, ◌/◌, Bool, true, false, not, Option, none, some, List, [], ◌∷◌,
  ◌++◌, length, take, drop, bit_and, bit_or, ltb, ◌==◌, if◌then◌else◌, ◌&&◌, ◌||◌,
}
use linux_programming.Prelude.Int.{ℤ, pos, nonpositive, at_least}
use linux_programming.Kernel.{
  Reply, ret, again, fail, Kernel, CtlOp, add, modify, epollin, epollout,
}
use linux_programming.Ring
use linux_programming.Ring.{
  RingBuffer, Iovec, max_pkt_size, get_blank_size, get_exist_size, get_blank_iovec, add_blank,
  add_exist,
}
use linux_programming.Ring.Memory.{scatter, total_len}
use linux_programming.Echo.{events_of}
use Calls.{Connection, State, Exit, done, error, exhausted, M, ◌>>◌, return}

-- The loop of `main` that fills `response_buf`: the bytes from `i` on, as chars.
unfoldable pub fill : ℕ → ℕ → List ℕ
fill i zero = []
fill i (suc n) = i % 256 ∷ fill (i + 1) n

unfoldable pub response_buf : ℕ → List ℕ
unfolding fill
response_buf response_size = fill 0 response_size

module _ {W : Type 0} where
  unfoldable pub with_conn : Connection → State W → State W
  with_conn c s = record s { conn = c }

  -- The kernel has answered a `recvmsg` over `vs`.
  unfoldable pub received : List Iovec → Reply (List ℕ) → W → State W → State W
  unfolding with_conn
  received vs (ret bs) w s =
      let b = record (s.buf) { buf = scatter s.buf.buf vs bs } in
      record s { conn = record (s.conn) { buf = b }; world = w; rx = s.rx ++ bs }
  received vs again w s = record s { world = w }
  received vs fail w s = record s { world = w }

  -- `buf.add_exist(recv_len); return recv_len;`
  unfoldable pub count_received : ℕ → M W
  count_received n s = (done n, record s { conn = record (s.conn) { buf = add_exist n s.buf } })

  -- What `recv_buf` does with the result of `recvmsg`.
  unfoldable pub recv_done : Reply (List ℕ) → M W
  unfolding count_received
  recv_done (ret []) s = (error, s)
  recv_done (ret (b ∷ bs)) s = count_received (length (b ∷ bs)) s
  recv_done again s = count_received 0 s
  recv_done fail s = (error, s)

  -- The loop of `recv_request`: a request is 8 bytes. A valid ring holds fewer than
  -- `max_pkt_size / 8` requests, which is the fuel that `recv_request` gives.
  unfoldable pub take_requests : ℕ → State W → State W
  take_requests zero s = s
  take_requests (suc fuel) s = elim (at_least 8 (get_exist_size s.buf)) [
    | true ↦ take_requests fuel (record s {
      conn = record (s.conn) { response_cnt = s.response_cnt + 1; buf = add_blank 8 s.buf };
    })
    | false ↦ s
  ]

-- How many bytes are still to send.
abbrev pub pending : ℕ → Connection → ℕ
pending response_size c = c.response_cnt * response_size + (response_size - c.response_pos)

module _ (K : Kernel) (response_size : ℕ) where
  open K use {World, send, recvmsg, epoll_ctl}

  -- The constructor, for a new object over a block of memory `fresh`.
  unfoldable pub construct : (fd epfd : ℕ) (fresh : List ℕ) → World → State World
  construct fd epfd fresh w =
      let (ok, w') = epoll_ctl epfd add fd epollin w in
      record {
        conn = record {
          fd = fd;
          epfd = epfd;
          buf = Ring.init fresh;
          response_cnt = 0;
          response_pos = response_size;
          enable_epollout = false;
        };
        world = w';
        rx = [];
        tx = [];
        interest = if ok then epollin else 0;
        ctl_ok = ok;
      }

  unfoldable pub set_epollout : Bool → State World → State World
  set_epollout flag s =
      let (ok, w) = epoll_ctl s.epfd modify s.fd (events_of flag) s.world in
      record s {
        conn = record (s.conn) { enable_epollout = flag };
        world = w;
        interest = if ok then events_of flag else s.interest;
        ctl_ok = ok;
      }

  unfoldable pub recv_buf : M World
  recv_buf s =
      if nonpositive (get_blank_size s.buf)
      then (done 0, s)
      else let vs = get_blank_iovec s.buf in
        let (r, w) = recvmsg s.fd (total_len vs) s.world in recv_done r (received vs r w s)

  -- The head of a round of `send_response`: the next response is begun.
  unfoldable pub next_response : State World → State World
  next_response s =
      if s.response_pos == response_size
      then if ltb 0 s.response_cnt
        then record s {
          conn = record (s.conn) { response_cnt = s.response_cnt - 1; response_pos = 0 };
        }
        else s
      else s

  -- `if (!enable_epollout) set_epollout(true);`, and the other way round.
  unfoldable pub turn : Bool → State World → State World
  turn true s = if s.enable_epollout then s else set_epollout true s
  turn false s = if s.enable_epollout then set_epollout false s else s

  -- `response_pos += send_len;`
  unfoldable pub advance : ℕ → State World → State World
  advance n s = record s { conn = record (s.conn) { response_pos = s.response_pos + n } }

  -- The rest of a round, after a `send` that took `n` bytes; `continue` is the rest of the loop.
  unfoldable pub after_send : M World → ℕ → M World
  after_send continue n s =
      if s.response_cnt == 0 && s.response_pos == response_size
      then continue (turn false s)
      else if n == 0
      then (done 0, turn true s)
      else continue s

  unfoldable pub send_step : M World → List ℕ → Reply ℕ → World → M World
  send_step continue bs (ret n) w s =
      after_send continue n (advance n (record s { world = w; tx = s.tx ++ take n bs }))
  send_step continue bs again w s = after_send continue 0 (advance 0 (record s { world = w }))
  send_step continue bs fail w s = (error, record s { world = w })

  unfoldable pub send_round : M World → M World
  send_round continue s =
      let t = next_response s in
      let bs = drop t.response_pos (response_buf response_size) in
      let (r, w) = send t.fd bs t.world in send_step continue bs r w t

  -- The loop of `send_response`, on fuel.
  unfoldable pub send_loop : ℕ → M World
  send_loop zero s = (exhausted, s)
  send_loop (suc fuel) s = elim (ltb 0 s.response_cnt || ltb s.response_pos response_size) [
    | true ↦ send_round (send_loop fuel) s
    | false ↦ (done 0, s)
  ]

  unfoldable pub send_response : M World
  send_response s = send_loop (pending response_size s.conn + 1) s

  -- `recv_request` after `recv_buf`.
  unfoldable pub serve_requests : M World
  serve_requests s = (send_response >> return 0) (take_requests (max_pkt_size / 8) s)

  unfoldable pub recv_request : M World
  unfolding serve_requests
  recv_request = recv_buf >> serve_requests

  unfoldable pub handle_read : M World
  handle_read = recv_request >> return 0

  unfoldable pub handle_write : M World
  handle_write = send_response >> return 0

  -- `ev & ~(EPOLLIN | EPOLLOUT)`, on uint32_t
  unfoldable pub handle : ℕ → M World
  handle ev s =
      if not (bit_and ev 0xffff_fffa == 0)
      then (error, s)
      else ((if bit_and ev epollout == 0 then return 0 else handle_write)
            >> (if bit_and ev epollin == 0 then return 0 else handle_read)
            >> return 0)
          s
