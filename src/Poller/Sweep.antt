-- ===== src/Poller/Sweep.antt =====
-- The rest of network/tcp_echo/server_poll_handle.cpp: the connections on the heap, and one pass of
-- `loop` over the table, after poll(2) has set `revents`. What is printed is left out.
pub mod Entries
pub mod Objects
pub mod Serves
use linux_programming.Prelude.{
  ℕ, zero, suc, ◌+◌, Bool, true, false, not, ◌&&◌, Option, none, some, List, [], ◌∷◌, ◌++◌, take,
  get_or, set, bit_and, ltb, ◌==◌, if◌then◌else◌, update,
}
use linux_programming.Kernel.{Reply, ret, again, fail, Kernel}
use linux_programming.Poller.{
  Pollfd, Poller, max_fds, num, Outcome, done, refused, overflow, is_fd, add_fd, remove_fd,
}

abbrev pub pollin : ℕ
pollin = 1

abbrev pub buf_size : ℕ
buf_size = 4096

-- A connection, with the bytes that it has received and that its socket has accepted.
pub record Session : Type 0 where
  pub fd : ℕ
  pub rx : List ℕ
  pub tx : List ℕ

-- An address from `next` on has not been allocated; a deleted object leaves its address empty.
pub record Server (W : Type 0) : Type 0 where
  pub poller : Poller
  pub objects : ℕ → Option Session
  pub next : ℕ
  pub world : W

-- A pass over the table ends, writes behind the end of `pfds`, or uses a handler that is no object.
-- `endless` is fuel used up.
pub data Pass (W : Type 0) : Type 0 where
  swept : Server W → Pass W
  overflown : Server W → Pass W
  wild : Pass W
  endless : Pass W

abbrev pub nothing : Pollfd
nothing = record { fd = none; events = 0; revents = 0 }

module _ (K : Kernel) where
  open K use {World, send, recv, accept4, close}

  -- `echo`: whether its result is positive.
  unfoldable pub sent : List ℕ → Reply ℕ → Session → Bool × Session
  sent bs (ret zero) c = (false, c)
  sent bs (ret (suc n)) c = (true, record c { tx = c.tx ++ take (suc n) bs })
  sent bs again c = (false, c)
  sent bs fail c = (false, c)

  unfoldable pub send_back : Reply (List ℕ) → Session → World → Bool × Session × World
  send_back (ret []) c w = (false, c, w)
  send_back (ret (b ∷ bs)) c w =
      let (r, w') = send c.fd (b ∷ bs) w in
      let (ok, d) = sent (b ∷ bs) r (record c { rx = c.rx ++ (b ∷ bs) }) in (ok, d, w')
  send_back again c w = (false, c, w)
  send_back fail c w = (false, c, w)

  unfoldable pub echo : Session → World → Bool × Session × World
  echo c w = let (r, w') = recv c.fd buf_size w in send_back r c w'

  -- `handle`: whether it returns 0.
  unfoldable pub handle : ℕ → Session → World → Bool × Session × World
  handle events c w = if bit_and events pollin == 0 then (false, c, w) else echo c w

  -- The destructor of the connection at `a`, and the release of the object.
  unfoldable pub destroy : ℕ → Session → Server World → Server World
  destroy a c s = record s {
    poller = (remove_fd c.fd s.poller).1;
    objects = update s.objects a none;
    world = close c.fd s.world;
  }

  -- `if (epoll_handler->handle(evs) < 0) delete epoll_handler;` for the object at `a`.
  unfoldable pub finish : ℕ → Bool × Session × World → Server World → Server World
  finish a (true, c, w) s = record s { objects = update s.objects a (some c); world = w }
  finish a (false, c, w) s = destroy a c (record s { world = w })

  unfoldable pub call_handler : (events : ℕ) → Option ℕ → Server World → Pass World
  call_handler events none s = wild
  call_handler events (some a) s = elim (s.objects a) [
    | none ↦ wild
    | some c ↦ swept (finish a (handle events c s.world) s)
  ]

  -- `poller->handlers[pfd.fd]`, and the call.
  unfoldable pub dispatch : Option ℕ → ℕ → Server World → Pass World
  dispatch none events s = wild
  dispatch (some fd) events s = call_handler events (s.poller.handlers fd) s

  -- `new Connection(fd, poller, buf)`, whose constructor drops the result of `add_fd`.
  unfoldable pub entered : ℕ → Outcome × Poller → Server World → Pass World
  entered fd (done, p) s = swept (record s {
    poller = p;
    objects = update s.objects s.next (some (record { fd = fd; rx = []; tx = [] }));
    next = s.next + 1;
  })
  entered fd (refused, p) s = swept (record s {
    objects = update s.objects s.next (some (record { fd = fd; rx = []; tx = [] }));
    next = s.next + 1;
  })
  entered fd (overflow, p) s = overflown s

  unfoldable pub accepted : Option ℕ → Server World → Pass World
  accepted none s = swept s
  accepted (some fd) s = entered fd (add_fd fd pollin (some s.next) s.poller) s

  unfoldable pub handle_accept : (listen_fd : ℕ) → Server World → Pass World
  handle_accept listen_fd s =
      let (r, w) = accept4 listen_fd s.world in accepted r (record s { world = w })

  -- `pfd.revents = 0;`
  unfoldable pub quiet : ℕ → Server World → Server World
  quiet i s =
      let x = get_or s.poller.pfds i nothing in
      record s {
        poller = record (s.poller) { pfds = set s.poller.pfds i (record x { revents = 0 }) };
      }

  -- The body of the `for` loop, for the entry `x` at `i`.
  unfoldable pub visit : (listen_fd i : ℕ) → Pollfd → Server World → Pass World
  visit listen_fd i x s =
      if is_fd listen_fd x.fd && not (bit_and x.revents pollin == 0)
      then handle_accept listen_fd (quiet i s)
      else if x.revents == 0
      then swept s
      else dispatch x.fd x.revents (quiet i s)

  -- The loop from `i` on.
  unfoldable pub and_on : (Server World → Pass World) → Pass World → Pass World
  and_on k (swept s) = k s
  and_on k (overflown s) = overflown s
  and_on k wild = wild
  and_on k endless = endless

  unfoldable pub sweep_from : (fuel listen_fd i : ℕ) → Server World → Pass World
  sweep_from zero listen_fd i s = endless
  sweep_from (suc fuel) listen_fd i s = elim (ltb i (num s.poller)) [
    | true ↦
        and_on (sweep_from fuel listen_fd (suc i))
          (visit listen_fd i (get_or s.poller.pfds i nothing) s)
    | false ↦ swept s
  ]

  -- The whole `for` loop: there are never more than `max_fds` entries.
  abbrev pub sweep : (listen_fd : ℕ) → Server World → Pass World
  sweep listen_fd s = sweep_from (max_fds + 1) listen_fd 0 s
