-- ===== src/Push/Single.antt =====
-- class Connection of network/tcp_echo/server_epollout_simple.cpp: one `send` for each EPOLLOUT, and
-- EPOLLOUT is registered from the start. What the class has in common with the class of
-- server_epollout.cpp, word for word, is taken from there.
pub mod Send
pub mod Serves
use linux_programming.Prelude.{
  ℕ, zero, suc, ◌+◌, ◌-◌, ◌≤◌, ◌<◌, ◌≡◌, ◌≢◌, refl, ◌∙◌, ap, sym, Bool, true, false, not, Option,
  none, some, List, [], ◌∷◌, ◌++◌, inl, inr, arith, length, take, drop, bit_and, ltb, ◌==◌,
  if◌then◌else◌, if_lem, Bool-cases, length-take, length-drop, take-add,
}
use linux_programming.Kernel.{Reply, ret, again, fail, Kernel, IsFinite, epollin, epollout}
use linux_programming.Response.Calls.{Exit, done, error, exhausted}
use linux_programming.Push.Server.{Pusher}
use linux_programming.Push.Pushing.{rest}
use linux_programming.Push.{
  Connection, Session, State, set_epollout, sent, handle_recv, zero_or_error, and_then,
}

-- EPOLLIN and EPOLLOUT.
abbrev pub both : ℕ
both = 5

module _ (K : Kernel) (reponse : List ℕ) where
  open K use {World, send, epoll_ctl}

  -- The `if` of `send_buf`: `tmp` and what was sent.
  unfoldable pub sent_once : List ℕ → Reply ℕ → World → State World → Reply ℕ × State World
  sent_once bs (ret zero) w s = (ret 0, record s { world = w })
  sent_once bs (ret (suc n)) w s = (ret (suc n), sent K reponse (take (suc n) bs) w s)
  sent_once bs again w s = (again, record s { world = w })
  sent_once bs fail w s = (fail, record s { world = w })

  unfoldable pub send_once : State World → Reply ℕ × State World
  send_once s =
      if ltb s.send_len (length reponse)
      then (let bs = drop s.send_len reponse in
          let (r, w) = send s.fd bs s.world in sent_once bs r w s)
      else (ret 0, s)

  -- The end of `send_buf`, for a response that is not complete.
  unfoldable pub send_stopped : Reply ℕ → State World → Exit × State World
  send_stopped (ret n) s = (done 0, s)
  send_stopped again s = (done 0, if s.enable_epollout then s else set_epollout K reponse true s)
  send_stopped fail s = (error, s)

  unfoldable pub send_end : Reply ℕ → State World → Exit × State World
  send_end tmp s =
      if s.send_len == length reponse
      then (done 1, if s.enable_epollout then set_epollout K reponse false s else s)
      else send_stopped tmp s

  unfoldable pub send_buf : State World → Exit × State World
  send_buf s = let (tmp, t) = send_once s in send_end tmp t

  -- The constructor, which drops the result of `send_buf`.
  unfoldable pub construct : (fd epoll_fd interest : ℕ) → World → Exit × State World
  construct fd epoll_fd interest w = send_buf (record {
    session = record {
      conn = record {
        fd = fd;
        epoll_fd = epoll_fd;
        recv_len = 0;
        send_len = 0;
        enable_epollout = false;
      };
      tx = [];
      interest = interest;
      ctl_ok = not (interest == 0);
    };
    world = w;
  })

  unfoldable pub handle_send : State World → Exit × State World
  handle_send s = zero_or_error (send_buf s)

  -- `events & ~(EPOLLIN | EPOLLOUT)`, on 32 bits
  unfoldable pub handle : ℕ → ℕ → State World → Exit × State World
  handle rounds ev s =
      if not (bit_and ev 0xffff_fffa == 0)
      then (error, s)
      else and_then (if bit_and ev epollout == 0 then (done 0, s) else handle_send s) (λ t.
        and_then (if bit_and ev epollin == 0 then (done 0, t) else handle_recv K reponse rounds t)
          (λ u. (done 0, u)))

  -- The class in its server; `handle_accept` registers EPOLLIN and EPOLLOUT.
  abbrev pub single : Pusher K
  single = record {
    Session = Session;
    fd_of = λ c. c.conn.fd;
    mask = both;
    construct = λ fd epoll_fd interest w. rest K reponse (construct fd epoll_fd interest w);
    handle = λ rounds ev c w. rest K reponse (handle rounds ev (record { session = c; world = w }));
  }
