-- ===== src/PerThread.antt =====
-- network/tcp_echo/server_epoll_bench.cpp: class Connection, class EventLoop, of which each runs in a
-- thread of its own, and class Acceptor, which hands the connections to the loops. A step is one accept,
-- one call of dump_conn, which holds the mutex, or one batch of events.
pub mod Places
pub mod Watched
pub mod Owned
use linux_programming.Prelude.{
  ℕ, ◌+◌, ◌-◌, ◌^◌, ◌%◌, ◌<◌, ◌≡◌, ◌≢◌, ◌⊎◌, Bool, true, false, Option, none, some, List, [], ◌∷◌,
  ◌++◌, length, get_or, set, zero, suc, bit_or, not, ◌==◌, if◌then◌else◌,
}
use linux_programming.Kernel.{Kernel, Reply, ret, again, fail, CtlOp, add, del, epollin, epollerr}

abbrev pub max_pkt_size : ℕ
max_pkt_size = 1024

-- A descriptor; `none` is -1.
pub record Connection : Type 0 where
  pub fd : Option ℕ
  pub pkt_size : ℕ

-- `none` in `conns` is a unique_ptr that was moved from. `watched` and `closed` are history: the
-- indices whose descriptors epoll watches, and the descriptors that were closed.
pub record EventLoop : Type 0 where
  pub epfd : ℕ
  pub conns : List (Option Connection)
  pub buf_conns : List Connection
  pub watched : List ℕ
  pub closed : List (Option ℕ)

unfoldable pub new_loop : (epfd : ℕ) → EventLoop
new_loop epfd = record { epfd = epfd; conns = []; buf_conns = []; watched = []; closed = [] }

-- The pointer `conns[idx]`; past the end there is none.
abbrev pub conn_at : List (Option Connection) → ℕ → Option Connection
conn_at conns idx = get_or conns idx none

abbrev pub without : ℕ → List ℕ → List ℕ
without i [] = []
without i (j ∷ js) = if j == i then without i js else j ∷ without i js

abbrev pub Within : ℕ → List ℕ → Type 0
Within i [] = ⊥
Within i (j ∷ js) = (i ≡ j) ⊎ Within i js

abbrev pub Absent : ℕ → List (ℕ × ℕ) → Type 0
Absent i [] = Unit
Absent i ((j, ev) ∷ es) = (i ≢ j) × Absent i es

-- What `epoll_wait` may return: events of descriptors that it watches, one for each at most.
abbrev pub IsBatch : List ℕ → List (ℕ × ℕ) → Type 0
IsBatch watched [] = Unit
IsBatch watched ((i, ev) ∷ es) = Within i watched × Absent i es × IsBatch watched es

-- `ret <= 0`, of which -1 is `none`.
abbrev pub is_over : Option ℕ → Bool
is_over none = true
is_over (some n) = n == 0

module _ (K : Kernel) where
  open K use {World, send, recv, epoll_ctl, accept4, close}

  -- A call on the descriptor -1 fails.
  unfoldable pub recv_from : Option ℕ → ℕ → World → Reply (List ℕ) × World
  recv_from none count w = (fail, w)
  recv_from (some fd) count w = recv fd count w

  unfoldable pub send_to : Option ℕ → List ℕ → World → Reply ℕ × World
  send_to none bs w = (fail, w)
  send_to (some fd) bs w = send fd bs w

  unfoldable pub ctl : ℕ → CtlOp → Option ℕ → ℕ → World → Bool × World
  ctl epfd op none events w = (false, w)
  ctl epfd op (some fd) events w = epoll_ctl epfd op fd events w

  unfoldable pub close_fd : Option ℕ → World → World
  close_fd none w = w
  close_fd (some fd) w = close fd w

  -- What Connection::handle returns after `send`.
  unfoldable pub sent : Reply ℕ × World → Option ℕ × World
  sent (ret n, w) = (some n, w)
  sent (again, w) = (none, w)
  sent (fail, w) = (none, w)

  -- Connection::handle, after `recv`
  unfoldable pub received : Connection → Reply (List ℕ) × World → Option ℕ × World
  received c (ret [], w) = (some 0, w)
  received c (ret (b ∷ bs), w) = sent (send_to c.fd (b ∷ bs) w)
  received c (again, w) = (none, w)
  received c (fail, w) = (none, w)

  -- Connection::handle
  unfoldable pub handle : Connection → World → Option ℕ × World
  handle c w = received c (recv_from c.fd c.pkt_size w)

  -- EventLoop::rm_conn(std::move(conns[idx])): the argument is destroyed at the end.
  unfoldable pub rm_conn : ℕ → Connection → EventLoop × World → EventLoop × World
  rm_conn idx c (l, w) = (
    record l {
      conns = set l.conns idx none;
      watched = without idx l.watched;
      closed = l.closed ++ (c.fd ∷ []);
    },
    close_fd c.fd (ctl l.epfd del c.fd 0 w).1,
  )

  -- What the loop does with the result of `handle`.
  unfoldable pub after_handle : ℕ → Connection → EventLoop → Option ℕ × World → EventLoop × World
  after_handle idx c l (r, w) = if is_over r then rm_conn idx c (l, w) else (l, w)

  -- One event, `(data.u32, events)`. `none` is a call through a pointer to no object.
  unfoldable pub on_event : ℕ × ℕ → EventLoop × World → Option (EventLoop × World)
  on_event (idx, event) (l, w) =
      if not (bit_or event epollin == 0)
      then elim (conn_at l.conns idx) [
        | none ↦ none
        | some c ↦ some (after_handle idx c l (handle c w))
      ]
      else if not (bit_or event epollerr == 0)
      then elim (conn_at l.conns idx) [ none ↦ none | some c ↦ some (rm_conn idx c (l, w)) ]
      else some (l, w)

  -- The `for` loop of EventLoop::run over what one `epoll_wait` returned.
  unfoldable pub on_events : List (ℕ × ℕ) → EventLoop × World → Option (EventLoop × World)
  on_events [] s = some s
  on_events (e ∷ es) s = elim (on_event e s) [ none ↦ none | some t ↦ on_events es t ]

  -- The index is watched if `epoll_ctl` did not fail; the connection is kept in either case.
  unfoldable pub added : Connection → EventLoop → Bool × World → EventLoop × World
  added c l (ok, w) = (
    record l {
      conns = l.conns ++ (some c ∷ []);
      watched = if ok then length l.conns ∷ l.watched else l.watched;
    },
    w,
  )

  -- The `while` loop of EventLoop::dump_conn, over the connections in `buf_conns`.
  unfoldable pub dump_loop : List Connection → EventLoop × World → EventLoop × World
  dump_loop [] (l, w) = (record l { buf_conns = [] }, w)
  dump_loop (c ∷ cs) (l, w) =
      dump_loop cs (added c (record l { buf_conns = cs }) (ctl l.epfd add c.fd epollin w))

  unfoldable pub dump_conn : EventLoop × World → EventLoop × World
  dump_conn (l, w) = dump_loop l.buf_conns (l, w)

  unfoldable pub add_conn : Connection → EventLoop → EventLoop
  add_conn c l = record l { buf_conns = l.buf_conns ++ (c ∷ []) }

  -- `conn_fd % loops->size()`: the int is converted to size_t.
  unfoldable pub loop_of : Option ℕ → ℕ → ℕ
  loop_of none size = (2 ^ 64 - 1) % size
  loop_of (some fd) size = fd % size

  -- The loops, the kernel, and the descriptors that `accept4` has returned so far.
  pub record Server : Type 0 where
    pub loops : List EventLoop
    pub world : World
    pub accepted : List (Option ℕ)

  -- The `while` loop's body in Acceptor::accept; `lfd` is the listening descriptor.
  unfoldable pub accept : (lfd : ℕ) → Server → Server
  accept lfd s =
      let (fd, w) = accept4 lfd s.world in
      let idx = loop_of fd (length s.loops) in
      let conn : Connection = record { fd = fd; pkt_size = max_pkt_size } in
      record {
        loops = set s.loops idx (add_conn conn (get_or s.loops idx (new_loop 0)));
        world = w;
        accepted = s.accepted ++ (fd ∷ []);
      }

  abbrev pub put_back : ℕ → EventLoop × World → Server → Server
  put_back i (l, w) s = record s { loops = set s.loops i l; world = w }

  -- The threads in turn: the one of the acceptor, and those of the loops.
  pub data Step (s : Server) : Server → Type 0 where
    accepts : (lfd : ℕ) → Step s (accept lfd s)
    dumps :
        (i : ℕ)
        → i < length s.loops
        → Step s (put_back i (dump_conn (get_or s.loops i (new_loop 0), s.world)) s)
    serves :
        (i : ℕ) (es : List (ℕ × ℕ)) {t : EventLoop × World}
        → i < length s.loops
        → IsBatch (get_or s.loops i (new_loop 0)).watched es
        → on_events es (get_or s.loops i (new_loop 0), s.world) ≡ some t
        → Step s (put_back i t s)

  pub data Reach (s : Server) : Server → Type 0 where
    here : Reach s s
    next : {t u : Server} → Reach s t → Step t u → Reach s u

  -- `main` after its loop over `threads`, whose epoll descriptors are `epfd`, `epfd + 1` and so on.
  unfoldable pub new_loops : (epfd threads : ℕ) → List EventLoop
  new_loops epfd zero = []
  new_loops epfd (suc n) = new_loop epfd ∷ new_loops (epfd + 1) n

  unfoldable pub start : (epfd threads : ℕ) → World → Server
  start epfd threads w = record { loops = new_loops epfd threads; world = w; accepted = [] }
