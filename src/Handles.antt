-- ===== src/Handles.antt =====
-- network/tcp_echo/server_epoll_handle.cpp: class Connection, whose `handle` sends back what one `recv`
-- returns, handle_accept, and the batch of events in `loop`. `echo` is the text of Connection::handle of
-- server_epoll_bench.cpp. The buffer that the connections share is left out.
pub mod Batches
use linux_programming.Prelude.{
  ℕ, ◌≡◌, ◌≢◌, Option, none, some, List, [], ◌∷◌, ◌++◌, get_or, set, bit_and, not, ◌==◌,
  if◌then◌else◌,
}
use linux_programming.Kernel.{Kernel, add, del, epollin}
use linux_programming.PerThread

abbrev pub buf_size : ℕ
buf_size = 4096

pub record Connection : Type 0 where
  pub fd : ℕ
  pub epoll_fd : ℕ

-- The objects by their addresses, of which a deleted one is `none`; `accepted` and `closed` are history.
pub record Server (W : Type 0) : Type 0 where
  pub objects : List (Option Connection)
  pub world : W
  pub accepted : List ℕ
  pub closed : List ℕ

abbrev pub object_at : List (Option Connection) → ℕ → Option Connection
object_at objects p = get_or objects p none

module _ (K : Kernel) where
  open K use {World, epoll_ctl, accept4, close}

  -- Connection::echo
  unfoldable pub echo : Connection → World → Option ℕ × World
  echo c w =
      let conn : PerThread.Connection = record { fd = some c.fd; pkt_size = buf_size } in
      PerThread.handle K conn w

  -- `if (echo() <= 0) ret = -1;`
  unfoldable pub after_echo : Option ℕ × World → Option ℕ × World
  after_echo (r, w) = (if PerThread.is_over r then none else some 0, w)

  -- Connection::handle; `none` is -1.
  unfoldable pub handle : ℕ → Connection → World → Option ℕ × World
  handle events c w = if not (bit_and events epollin == 0) then after_echo (echo c w) else (none, w)

  -- `new Connection(fd, epoll_fd, buf)`, after an `accept4` that answered `r`.
  unfoldable pub accepted : (epoll_fd : ℕ) → Option ℕ → Server World → Server World
  accepted epoll_fd none s = s
  accepted epoll_fd (some fd) s = record {
    objects = s.objects ++ (some (record { fd = fd; epoll_fd = epoll_fd }) ∷ []);
    world = (epoll_ctl epoll_fd add fd epollin s.world).1;
    accepted = s.accepted ++ (fd ∷ []);
    closed = s.closed;
  }

  unfoldable pub handle_accept : (listen_fd epoll_fd : ℕ) → Server World → Server World
  handle_accept listen_fd epoll_fd s =
      let (r, w) = accept4 listen_fd s.world in accepted epoll_fd r (record s { world = w })

  -- Connection::~Connection and the release of the object.
  unfoldable pub destroy : ℕ → Connection → Server World → Server World
  destroy p c s = record s {
    objects = set s.objects p none;
    world = close c.fd (epoll_ctl c.epoll_fd del c.fd 0 s.world).1;
    closed = s.closed ++ (c.fd ∷ []);
  }

  -- `if (epoll_handler->handle(evs) < 0) delete epoll_handler;`
  unfoldable pub after_handle : ℕ → Connection → Option ℕ × World → Server World → Server World
  after_handle p c (none, w) s = destroy p c (record s { world = w })
  after_handle p c (some n, w) s = record s { world = w }

  -- One event, `(data.ptr, events)`, of which the listening descriptor has NULL. `none` is a call through
  -- a pointer to no object.
  unfoldable pub on_event :
      (listen_fd epoll_fd : ℕ) → Option ℕ × ℕ → Server World → Option (Server World)
  on_event listen_fd epoll_fd (none, evs) s = some (handle_accept listen_fd epoll_fd s)
  on_event listen_fd epoll_fd (some p, evs) s = elim (object_at s.objects p) [
    | none ↦ none
    | some c ↦ some (after_handle p c (handle evs c s.world) s)
  ]

  -- The `for` loop of `loop` over what one `epoll_wait` returned.
  unfoldable pub on_events :
      (listen_fd epoll_fd : ℕ) → List (Option ℕ × ℕ) → Server World → Option (Server World)
  on_events listen_fd epoll_fd [] s = some s
  on_events listen_fd epoll_fd (e ∷ es) s = elim (on_event listen_fd epoll_fd e s) [
    | none ↦ none
    | some t ↦ on_events listen_fd epoll_fd es t
  ]
