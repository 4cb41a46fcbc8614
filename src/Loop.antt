-- ===== src/Loop.antt =====
-- The rest of network/tcp_echo/server_epollout_handle.cpp: the objects that events point to, class
-- Acceptor and class EventLoop, which calls `handle` of the object that each event points to and
-- deletes the object when the call returns -1. The connections stand on the heap; the acceptor is a
-- local variable of `main`, so that its deletion is undefined behaviour.
pub mod Safety
use linux_programming.Prelude.{
  ℕ, ◌+◌, ◌≡◌, Bool, not, Option, none, some, List, [], ◌∷◌, bit_and, ◌==◌, if◌then◌else◌, update,
}
use linux_programming.Kernel.{Kernel, del, add, epollin}
use linux_programming.Echo
use linux_programming.Echo.Calls.{Connection, State}

-- A connection at rest: its members, and its history as in `State`.
pub record Session : Type 0 where
  pub conn : Connection
  pub open conn use *
  pub rx : List ℕ
  pub tx : List ℕ
  pub interest : ℕ
  pub ctl_ok : Bool

abbrev pub enter : {W : Type 0} → Session → W → State W
enter c w = record {
  conn = c.conn;
  world = w;
  rx = c.rx;
  tx = c.tx;
  interest = c.interest;
  ctl_ok = c.ctl_ok;
}

abbrev pub leave : {W : Type 0} → State W → Session
leave s = record { conn = s.conn; rx = s.rx; tx = s.tx; interest = s.interest; ctl_ok = s.ctl_ok }

-- The members of class Acceptor.
pub record Acceptor : Type 0 where
  pub fd : ℕ
  pub epfd : ℕ

-- The classes below EpollHandler.
pub data Handler : Type 0 where
  acceptor : Acceptor → Handler
  connection : Session → Handler

-- The objects by their addresses. One from `next` on has not been allocated; a deleted object leaves its address empty.
pub record Server (W : Type 0) : Type 0 where
  pub objects : ℕ → Option Handler
  pub next : ℕ
  pub world : W

-- `fresh a` is what `new char[]` leaves in the block of a connection that is allocated at `a`.
module _ (K : Kernel) (fresh : ℕ → List ℕ) where
  open K use {World, epoll_ctl, accept4, close}

  -- `new Connection(new_fd, epfd)`, after an `accept4` that answered `r`.
  unfoldable pub accepted : ℕ → Option ℕ → Server World → Option ℕ × Server World
  accepted epfd none s = (none, s)
  accepted epfd (some fd) s =
      let c = Echo.construct K fd epfd (fresh s.next) s.world in
      (
        some 0,
        record {
          objects = update s.objects s.next (some (connection (leave c)));
          next = s.next + 1;
          world = c.world;
        },
      )

  -- Acceptor::handle; `ev & ~EPOLLIN` on uint32_t
  unfoldable pub accept_handle : Acceptor → ℕ → Server World → Option ℕ × Server World
  accept_handle a ev s =
      if not (bit_and ev 0xffff_fffe == 0)
      then (none, s)
      else let (r, w) = accept4 a.fd s.world in accepted a.epfd r (record s { world = w })

  -- The virtual call `handler->handle(ev)` on the object at `p`.
  unfoldable pub handle_object : ℕ → Handler → ℕ → Server World → Option ℕ × Server World
  handle_object p (acceptor a) ev s = accept_handle a ev s
  handle_object p (connection c) ev s =
      let (o, t) = Echo.handle K ev (enter c s.world) in
      (o, record s { objects = update s.objects p (some (connection (leave t))); world = t.world })

  -- The destructor ~Connection and the release of the object.
  unfoldable pub destroy : ℕ → Session → Server World → Server World
  destroy p c s =
      let w = (epoll_ctl c.epfd del c.fd 0 s.world).1 in
      record s { objects = update s.objects p none; world = close c.fd w }

  -- `delete handler;`
  unfoldable pub delete_handler : ℕ → Handler → Server World → Option (Server World)
  delete_handler p (acceptor a) s = none
  delete_handler p (connection c) s = some (destroy p c s)

  -- `if (ret < 0) delete handler;`
  unfoldable pub delete_failed : ℕ → Handler → Option ℕ × Server World → Option (Server World)
  delete_failed p h (none, s) = delete_handler p h s
  delete_failed p h (some n, s) = some s

  -- One event, `(data.ptr, events)`. `none` is undefined behaviour: a call through a pointer to no
  -- object, or the deletion of the acceptor.
  unfoldable pub on_event : ℕ × ℕ → Server World → Option (Server World)
  on_event (p, ev) s = elim (s.objects p) [
    | none ↦ none
    | some h ↦ delete_failed p h (handle_object p h ev s)
  ]

  -- The `for` loop of EventLoop::run over what one `epoll_wait` returned.
  unfoldable pub on_events : List (ℕ × ℕ) → Server World → Option (Server World)
  on_events [] s = some s
  on_events (e ∷ es) s = elim (on_event e s) [ none ↦ none | some t ↦ on_events es t ]
