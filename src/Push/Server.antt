-- ===== src/Push/Server.antt =====
-- The map of connections and the events of `loop` of network/tcp_echo/server_epollout.cpp, over the
-- class of the connections: server_epollout_simple.cpp and server_epoll_et.cpp have the same text
-- with a class of their own.
use linux_programming.Prelude.{
  ℕ, ◌≤◌, ◌<◌, ◌≡◌, ◌≢◌, Option, none, some, List, [], ◌∷◌, update, ◌==◌, if◌then◌else◌,
}
use linux_programming.Kernel.{Kernel, IsFinite, add, del}
use linux_programming.Response.Calls.{Exit, done, error, exhausted}

-- What `loop` asks of the class: the events that `handle_accept` registers, the constructor, and
-- `handle` with fuel for its receiving loop. A session is an object at rest.
pub record Pusher (K : Kernel) : Type 1 where
  pub Session : Type 0
  pub fd_of : Session → ℕ
  pub mask : ℕ
  pub construct : (fd epoll_fd interest : ℕ) → K.World → Exit × Session × K.World
  pub handle : (rounds events : ℕ) → Session → K.World → Exit × Session × K.World

module _ (K : Kernel) (P : Pusher K) where
  open K use {World, epoll_ctl, accept4, close}
  open P use {Session, fd_of, mask, construct, handle}

  -- `conns`, with the sessions in place of the pointers.
  pub record Server : Type 0 where
    pub conns : ℕ → Option Session
    pub world : World

  -- `conns.insert`, which leaves a connection that is there already.
  unfoldable pub insert : ℕ → Session → (ℕ → Option Session) → ℕ → Option Session
  insert fd c conns = elim (conns fd) [ none ↦ update conns fd (some c) | some d ↦ conns ]

  -- `conns.insert` of the new connection. `none` is a loop's fuel used up.
  unfoldable pub entered : ℕ → Exit × Session × World → Server → Option Server
  entered fd (done n, c, w) s = some (record { conns = insert fd c s.conns; world = w })
  entered fd (error, c, w) s = some (record { conns = insert fd c s.conns; world = w })
  entered fd (exhausted, c, w) s = none

  -- `handle_accept` after `accept4`.
  unfoldable pub accepted : ℕ → Option ℕ → Server → Option Server
  accepted epoll_fd none s = some s
  accepted epoll_fd (some fd) s =
      let (ok, w) = epoll_ctl epoll_fd add fd mask s.world in
      entered fd (construct fd epoll_fd (if ok then mask else 0) w) s

  unfoldable pub handle_accept : (listen_fd epoll_fd : ℕ) → Server → Option Server
  handle_accept listen_fd epoll_fd s =
      let (r, w) = accept4 listen_fd s.world in accepted epoll_fd r (record s { world = w })

  unfoldable pub close_conn : (fd epoll_fd : ℕ) → Server → Server
  close_conn fd epoll_fd s =
      let w = (epoll_ctl epoll_fd del fd 0 s.world).1 in
      record { conns = update s.conns fd none; world = close fd w }

  -- What `loop` does with the result of `handle`.
  unfoldable pub handled : (fd epoll_fd : ℕ) → Exit × Session × World → Server → Option Server
  handled fd epoll_fd (x, c, w) s =
      let t : Server = record { conns = update s.conns fd (some c); world = w } in
      elim x [ done n ↦ some t | error ↦ some (close_conn fd epoll_fd t) | exhausted ↦ none ]

  -- One event of `loop`, `(data.fd, events)`.
  unfoldable pub on_event : (rounds listen_fd epoll_fd : ℕ) → ℕ × ℕ → Server → Option Server
  on_event rounds listen_fd epoll_fd (fd, ev) s =
      if fd == listen_fd then handle_accept listen_fd epoll_fd s else elim (s.conns fd) [
        | none ↦ some s
        | some c ↦ handled fd epoll_fd (handle rounds ev c s.world) s
      ]

  -- The `for` loop of `loop`, over what one `epoll_wait` returned.
  unfoldable pub on_events : (rounds listen_fd epoll_fd : ℕ) → List (ℕ × ℕ) → Server → Option Server
  on_events rounds listen_fd epoll_fd [] s = some s
  on_events rounds listen_fd epoll_fd (e ∷ es) s = elim (on_event rounds listen_fd epoll_fd e s) [
    | none ↦ none
    | some t ↦ on_events rounds listen_fd epoll_fd es t
  ]

-- A class works with a predicate on its objects if the constructor establishes it and `handle` keeps
-- it, both end, and neither makes the clients send more.
pub record IsWorking (K : Kernel) (P : Pusher K) (finite : IsFinite K) (Good : P.Session → Type 0)
    : Type 0 where
  pub construct_works :
      (fd epoll_fd interest : ℕ) (w : K.World)
      → let (x, c, w') = P.construct fd epoll_fd interest w in
        Good c × (P.fd_of c ≡ fd) × (x ≢ exhausted) × (finite.supply w' ≤ finite.supply w)
  pub handle_works :
      (rounds events : ℕ) (c : P.Session) (w : K.World)
      → Good c
      → finite.supply w < rounds
      → let (x, d, w') = P.handle rounds events c w in
        Good d × (P.fd_of d ≡ P.fd_of c) × (x ≢ exhausted) × (finite.supply w' ≤ finite.supply w)
