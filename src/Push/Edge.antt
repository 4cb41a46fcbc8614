-- ===== src/Push/Edge.antt =====
-- class Connection of network/tcp_echo/server_epoll_et.cpp, which is registered once, for edge-triggered
-- events: it never changes what it asks for, and has to send and receive until the socket says EAGAIN.
-- `reponse` and `rounds` are as in Push.
pub mod Drains
pub mod Receive
pub mod Handles
use linux_programming.Prelude.{
  ℕ, zero, suc, ◌+◌, ◌-◌, ◌%◌, ◌^◌, not, Option, none, some, List, [], ◌∷◌, ◌++◌, length, take,
  drop, bit_and, ltb, ◌==◌, true, false, if◌then◌else◌,
}
use linux_programming.Kernel.{Reply, ret, again, fail, Kernel, epollin, epollout}
use linux_programming.Response.Calls.{Exit, done, error, exhausted}
use linux_programming.Push.{buf_size}
use linux_programming.Push.Server.{Pusher}

-- The members of class Connection, with the bytes that the socket has accepted.
pub record Session : Type 0 where
  pub fd : ℕ
  pub recv_len : ℕ
  pub send_len : ℕ
  pub tx : List ℕ

pub record State (W : Type 0) : Type 0 where
  pub session : Session
  pub open session use *
  pub world : W

-- `ret == 0? 0 : -1`
abbrev pub zero_or_error : {W : Type 0} → Exit × State W → Exit × State W
zero_or_error (done zero, s) = (done 0, s)
zero_or_error (done (suc n), s) = (error, s)
zero_or_error (error, s) = (error, s)
zero_or_error (exhausted, s) = (exhausted, s)

-- `if (m < 0) goto error;`, and then `k`.
abbrev pub and_then : {W : Type 0} → Exit × State W → (State W → Exit × State W) → Exit × State W
and_then (done n, s) k = k s
and_then (error, s) k = (error, s)
and_then (exhausted, s) k = (exhausted, s)

-- EPOLLIN | EPOLLOUT | EPOLLET
abbrev pub edges : ℕ
edges = 0x8000_0005

module _ (K : Kernel) (reponse : List ℕ) where
  open K use {World, send, recv}

  -- `send_len += tmp`, after a `send` that took the bytes `bs`.
  unfoldable pub sent : List ℕ → World → State World → State World
  sent bs w s = record s {
    session = record (s.session) { send_len = s.send_len + length bs; tx = s.tx ++ bs };
    world = w;
  }

  -- The loop of `send_buf`, on fuel: `tmp` when it ends. `none` is fuel used up.
  unfoldable pub send_step :
      (Reply ℕ → State World → Option (Reply ℕ) × State World)
      → List ℕ
      → Reply ℕ
      → World
      → State World
      → Option (Reply ℕ) × State World
  send_step continue bs (ret zero) w s = (some (ret 0), record s { world = w })
  send_step continue bs (ret (suc n)) w s = continue (ret (suc n)) (sent (take (suc n) bs) w s)
  send_step continue bs again w s = (some again, record s { world = w })
  send_step continue bs fail w s = (some fail, record s { world = w })

  unfoldable pub send_loop : ℕ → Reply ℕ → State World → Option (Reply ℕ) × State World
  send_loop zero tmp s = (none, s)
  send_loop (suc fuel) tmp s = elim (ltb s.send_len (length reponse)) [
    | true ↦
        let bs = drop s.send_len reponse in
        let (r, w) = send s.fd bs s.world in send_step (send_loop fuel) bs r w s
    | false ↦ (some tmp, s)
  ]

  -- The rest of `send_buf`, by the last `tmp`.
  unfoldable pub send_stopped : Reply ℕ → State World → Exit × State World
  send_stopped again s = (done 0, s)
  send_stopped (ret n) s = (error, s)
  send_stopped fail s = (error, s)

  unfoldable pub send_end : Reply ℕ → State World → Exit × State World
  send_end tmp s = if s.send_len == length reponse then (done 1, s) else send_stopped tmp s

  unfoldable pub send_buf : State World → Exit × State World
  send_buf s =
      let (o, t) = send_loop (length reponse - s.send_len + 1) (ret 0) s in
      elim o [ none ↦ (exhausted, t) | some tmp ↦ send_end tmp t ]

  -- The constructor, which drops the result of `send_buf`.
  unfoldable pub construct : (fd : ℕ) → World → Exit × State World
  construct fd w =
      send_buf
        (record { session = record { fd = fd; recv_len = 0; send_len = 0; tx = [] }; world = w })

  -- The loop of `handle_recv` and its end.
  unfoldable pub recv_step :
      (State World → Exit × State World) → Reply (List ℕ) → World → State World → Exit × State World
  recv_step continue (ret []) w s = (error, record s { world = w })
  recv_step continue (ret (b ∷ bs)) w s = continue (record s {
    session = record (s.session) { recv_len = (s.recv_len + length (b ∷ bs)) % 2 ^ 32 };
    world = w;
  })
  recv_step continue again w s = (done 0, record s { world = w })
  recv_step continue fail w s = (error, record s { world = w })

  unfoldable pub handle_recv : ℕ → State World → Exit × State World
  handle_recv zero s = (exhausted, s)
  handle_recv (suc rounds) s =
      let (r, w) = recv s.fd buf_size s.world in recv_step (handle_recv rounds) r w s

  unfoldable pub handle_send : State World → Exit × State World
  handle_send s = zero_or_error (send_buf s)

  -- `events & ~(EPOLLIN | EPOLLOUT)`, on 32 bits
  unfoldable pub handle : ℕ → ℕ → State World → Exit × State World
  handle rounds ev s =
      if not (bit_and ev 0xffff_fffa == 0)
      then (error, s)
      else and_then (if bit_and ev epollout == 0 then (done 0, s) else handle_send s) (λ t.
        and_then (if bit_and ev epollin == 0 then (done 0, t) else handle_recv rounds t)
          (λ u. (done 0, u)))

  abbrev pub rest : Exit × State World → Exit × Session × World
  rest (x, s) = (x, s.session, s.world)

  -- The class in its server.
  abbrev pub edge : Pusher K
  edge = record {
    Session = Session;
    fd_of = λ c. c.fd;
    mask = edges;
    construct = λ fd epoll_fd interest w. rest (construct fd w);
    handle = λ rounds ev c w. rest (handle rounds ev (record { session = c; world = w }));
  }
