-- ===== src/Echo.antt =====
-- class Connection of network/tcp_echo/server_epollout_handle.cpp: an echo connection on a
-- non-blocking socket, with a ring for the bytes that are received and not yet sent.
-- An `int` result is `none` for -1, and `some n` for n. Each method of the class is a function on a
-- `State`, the object with the world it runs in; a call that returns -1 ends a `do` block as
-- `if (f() < 0) return -1;` ends a method. What is printed is left out.
pub mod Calls
pub mod Control
pub mod Receive
pub mod Send
pub mod Handle
use linux_programming.Prelude.{
  ℕ, ◌+◌, ◌≡◌, Bool, true, false, not, Option, none, some, List, [], ◌∷◌, length, bit_and, bit_or,
  ltb, ◌==◌, if◌then◌else◌,
}
use linux_programming.Prelude.Int.{ℤ, pos, nonpositive, eq_ℤ}
use linux_programming.Kernel.{
  Reply, ret, again, fail, Kernel, CtlOp, add, modify, epollin, epollout,
}
use linux_programming.Ring
use linux_programming.Ring.{
  RingBuffer, Iovec, distance, get_blank_size, get_exist_size, get_blank_iovec, get_exist_iovec,
  add_blank, add_exist,
}
use linux_programming.Ring.Memory.{gather, slice, total_len}
use Calls.{Connection, State, M, ◌>>=◌, ◌>>◌, return, with_buf, received, sent}

module _ {W : Type 0} where
  -- `buf.add_exist(recv_len); ret += recv_len;` and the test that ends the loop.
  unfoldable pub count_received : Iovec → (ℕ → M W ℕ) → ℕ → List ℕ → M W ℕ
  count_received v next total bs s =
      let t = with_buf (add_exist (length bs) s.buf) s in
      if ltb (length bs) v.len then (some (total + length bs), t) else next (total + length bs) t

  -- What one round of the loop in `recv_buf_native` does with the result of `recv`.
  unfoldable pub recv_step : Iovec → (ℕ → M W ℕ) → ℕ → Reply (List ℕ) → M W ℕ
  recv_step v next total (ret []) s = (none, s)
  recv_step v next total (ret (b ∷ bs)) s = count_received v next total (b ∷ bs) s
  recv_step v next total again s = count_received v next total [] s
  recv_step v next total fail s = (none, s)

  -- What `recv_buf` does with the result of `recvmsg`.
  unfoldable pub recv_done : Reply (List ℕ) → M W ℕ
  recv_done (ret []) s = (none, s)
  recv_done (ret (b ∷ bs)) s =
      (some (length (b ∷ bs)), with_buf (add_exist (length (b ∷ bs)) s.buf) s)
  recv_done again s = (none, s)
  recv_done fail s = (none, s)

-- The flags that `set_epollout` registers.
abbrev pub events_of : Bool → ℕ
events_of flag = bit_or epollin (if flag then epollout else 0)

module _ (K : Kernel) where
  open K use {World, send, sendmsg, recv, recvmsg, epoll_ctl}

  -- The constructor, for a new object over a block of memory `fresh`.
  unfoldable pub construct : (fd epfd : ℕ) (fresh : List ℕ) → World → State World
  construct fd epfd fresh w =
      let (ok, w') = epoll_ctl epfd add fd epollin w in
      record {
        conn = record { fd = fd; epfd = epfd; buf = Ring.init fresh; enable_epollout = false };
        world = w';
        rx = [];
        tx = [];
        interest = if ok then epollin else 0;
        ctl_ok = ok;
      }

  unfoldable pub set_epollout : Bool → State World → State World
  set_epollout flag s =
      let (ok, w) = epoll_ctl s.epfd modify s.fd (events_of flag) s.world in
      record s {
        conn = record (s.conn) { enable_epollout = flag };
        world = w;
        interest = if ok then events_of flag else s.interest;
        ctl_ok = ok;
      }

  -- It stands in the class, and `handle_read` uses `recv_buf_native` in its place.
  unfoldable pub recv_buf : M World ℕ
  recv_buf s =
      if nonpositive (get_blank_size s.buf)
      then (some 0, s)
      else let vs = get_blank_iovec s.buf in
        let (r, w) = recvmsg s.fd (total_len vs) s.world in recv_done r (received vs r w s)

  -- The loop over the iovecs, with `ret` in `total`.
  unfoldable pub recv_iovs : List Iovec → ℕ → M World ℕ
  recv_iovs [] total s = (some total, s)
  recv_iovs (v ∷ vs) total s =
      let (r, w) = recv s.fd v.len s.world in
      recv_step v (recv_iovs vs) total r (received (v ∷ []) r w s)

  unfoldable pub recv_buf_native : M World ℕ
  recv_buf_native s =
      if nonpositive (get_blank_size s.buf)
      then (some 0, s)
      else recv_iovs (get_blank_iovec s.buf) 0 s

  -- Turns EPOLLOUT off when all is sent and on when not, if that changes anything.
  unfoldable pub update_epollout : Bool → State World → State World
  update_epollout all_sent s =
      if all_sent
      then if s.enable_epollout then set_epollout false s else s
      else if s.enable_epollout
      then s
      else set_epollout true s

  unfoldable pub send_done : ℤ → Reply ℕ → M World ℕ
  send_done to_send (ret n) s =
      let t = with_buf (add_blank n s.buf) s in (some n, update_epollout (eq_ℤ (pos n) to_send) t)
  send_done to_send again s =
      let t = with_buf (add_blank 0 s.buf) s in (some 0, update_epollout (eq_ℤ (pos 0) to_send) t)
  send_done to_send fail s = (none, s)

  unfoldable pub send_buf : M World ℕ
  send_buf s =
      let to_send = get_exist_size s.buf in
      if nonpositive to_send
      then (some 0, s)
      else let bs = gather s.buf.buf (get_exist_iovec s.buf) in
        let (r, w) = sendmsg s.fd bs s.world in send_done to_send r (sent bs r w s)

  -- One round of the loop in `send_buf_native`, after a `send` that took `n` bytes.
  unfoldable pub count_sent : ℤ → Iovec → (ℕ → M World ℕ) → ℕ → ℕ → M World ℕ
  count_sent to_send v next have n s =
      let t = with_buf (add_blank n s.buf) s in
      if eq_ℤ (pos (have + n)) to_send
      then next (have + n) (update_epollout true t)
      else if ltb n v.len
      then (some (have + n), update_epollout false t)
      else next (have + n) t

  unfoldable pub send_step : ℤ → Iovec → (ℕ → M World ℕ) → ℕ → Reply ℕ → M World ℕ
  send_step to_send v next have (ret n) s = count_sent to_send v next have n s
  send_step to_send v next have again s = count_sent to_send v next have 0 s
  send_step to_send v next have fail s = (none, s)

  -- The loop over the iovecs, with `have_send` in `have`.
  unfoldable pub send_iovs : ℤ → List Iovec → ℕ → M World ℕ
  send_iovs to_send [] have s = (some have, s)
  send_iovs to_send (v ∷ vs) have s =
      let bs = slice s.buf.buf v in
      let (r, w) = send s.fd bs s.world in
      send_step to_send v (send_iovs to_send vs) have r (sent bs r w s)

  unfoldable pub send_buf_native : M World ℕ
  send_buf_native s =
      let to_send = get_exist_size s.buf in
      if nonpositive to_send then (some 0, s) else send_iovs to_send (get_exist_iovec s.buf) 0 s

  unfoldable pub handle_read : M World ℕ
  handle_read = do recv_buf_native; send_buf_native; return 0

  unfoldable pub handle_write : M World ℕ
  handle_write = do send_buf; return 0

  -- `ev & ~(EPOLLIN | EPOLLOUT)`, on uint32_t
  unfoldable pub handle : ℕ → M World ℕ
  handle ev s =
      if not (bit_and ev 0xffff_fffa == 0)
      then (none, s)
      else (do
        (if bit_and ev epollout == 0 then return 0 else handle_write)
        (if bit_and ev epollin == 0 then return 0 else handle_read)
        return 0)
          s
