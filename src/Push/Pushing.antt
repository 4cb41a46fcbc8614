-- ===== src/Push/Pushing.antt =====
-- The class of network/tcp_echo/server_epollout.cpp in its server.
use linux_programming.Prelude.{ℕ, ◌≤◌, ◌<◌, ◌≡◌, ◌≢◌, some, List}
use linux_programming.Kernel.{Kernel, IsFinite, epollin}
use linux_programming.Response.Calls.{Exit, done, error, exhausted}
use linux_programming.Push.{Session, State, construct, handle}
use linux_programming.Push.Server.{Pusher, Server, IsWorking, on_events}
use linux_programming.Push.Events.{IsServing, on_events-Serves}
use linux_programming.Push.Send.{IsPushing, Sends, construct_lem}
use linux_programming.Push.Receive.{send_buf-supply}
use linux_programming.Push.Handle.{handle_lem}

module _ (K : Kernel) (reponse : List ℕ) where
  open K use {World}

  abbrev pub rest : Exit × State World → Exit × Session × World
  rest (x, s) = (x, s.session, s.world)

  abbrev pub pusher : Pusher K
  pusher = record {
    Session = Session;
    fd_of = λ c. c.conn.fd;
    mask = epollin;
    construct = λ fd epoll_fd interest w. rest (construct K reponse fd epoll_fd interest w);
    handle = λ rounds ev c w. rest (handle K reponse rounds ev (record { session = c; world = w }));
  }

  module _ (finite : IsFinite K) where
    open finite use {supply}

    Sends-ends : (x : Exit) (s : State World) → Sends reponse (x, s) → x ≢ exhausted
    Sends-ends (done n) s h e = cc e
    Sends-ends error s h e = cc e
    Sends-ends exhausted s h e = h

    construct-supply :
        (fd epoll_fd interest : ℕ) (w : World)
        → supply (construct K reponse fd epoll_fd interest w).1.world ≤ supply w
    unfolding construct
    construct-supply fd epoll_fd interest w = send_buf-supply K finite reponse _

    pub pusher-IsWorking : IsWorking K pusher finite (IsPushing reponse)
    pusher-IsWorking = record {
      construct_works = λ fd epoll_fd interest w.
          let (p, own, ends) = construct_lem K reponse fd epoll_fd interest w in
          (p, own, Sends-ends _ _ ends, construct-supply fd epoll_fd interest w);
      handle_works = λ rounds ev c w p h.
          let ((k, l, q), out) =
            handle_lem K finite reponse rounds ev (record { session = c; world = w }) p h in
          (k.pushing, k.same_fd, q, l);
    }

    -- When the clients send finitely many times, every batch of events of server_epollout.cpp is
    -- handled to its end, and afterwards still every connection is found under its own descriptor,
    -- and its socket has accepted the front of the response.
    pub pushing_serves :
        (rounds listen_fd epoll_fd : ℕ) (es : List (ℕ × ℕ)) (s : Server K pusher)
        → IsServing K pusher finite (IsPushing reponse) pusher-IsWorking s
        → supply s.world < rounds
        → (t : Server K pusher) × (on_events K pusher rounds listen_fd epoll_fd es s ≡ some t)
          × IsServing K pusher finite (IsPushing reponse) pusher-IsWorking t
          × (supply t.world ≤ supply s.world)
    pushing_serves = on_events-Serves K pusher finite (IsPushing reponse) pusher-IsWorking
