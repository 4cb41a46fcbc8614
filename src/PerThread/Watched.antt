-- ===== src/PerThread/Watched.antt =====
-- class EventLoop of network/tcp_echo/server_epoll_bench.cpp: the indices that epoll_wait returns.
use linux_programming.Prelude.{
  ℕ, zero, suc, ◌+◌, ◌≡◌, ◌≢◌, inl, inr, refl, sym, ◌∙◌, Bool, true, false, Option, none, some,
  List, [], ◌∷◌, ◌++◌, length, get_or, set, Bool-cases, get_or-set_ne,
}
use mathlib.Core.Path.{subst}
use linux_programming.Kernel.{Kernel, add, epollin}
use linux_programming.PerThread.{
  max_pkt_size, Connection, EventLoop, new_loop, conn_at, Within, Absent, IsBatch, is_over, rm_conn,
  handle, after_handle, on_event, on_events, added, dump_loop, dump_conn, add_conn, loop_of, Server,
  accept, Step, accepts, dumps, serves, Reach, here, next, new_loops, start, ctl,
}
use linux_programming.PerThread.Places.{
  any_event, without-Within, Within-without, conn_at-last, conn_at-append, set_cases,
}

-- Behind each index that epoll watches there is a connection.
abbrev pub IsWatching : EventLoop → Type 0
IsWatching l = (i : ℕ) → Within i l.watched → (c : Connection) × (conn_at l.conns i ≡ some c)

module _ (K : Kernel) where
  open K use {World, accept4}

  IsWatching-rm_conn :
      (k : ℕ) (c : Connection) (l : EventLoop) (w : World)
      → IsWatching l
      → IsWatching (rm_conn K k c (l, w)).0
  unfolding rm_conn
  IsWatching-rm_conn k c l w v i h =
      let (ne, at) = without-Within i k l.watched h in
      let (d, e) = v i at in (d, get_or-set_ne l.conns k i none none (λ z. ne (sym z)) ∙ e)

  -- What an event leaves of the loop: the others' indices are watched as before.
  record Leaves (k : ℕ) (l m : EventLoop) : Type 0 where
    watching : IsWatching m
    others_watched : (i : ℕ) → i ≢ k → Within i l.watched → Within i m.watched

  Leaves-after :
      (k : ℕ) (c : Connection) (l : EventLoop) (o : Option ℕ) (w : World)
      → IsWatching l
      → Leaves k l (after_handle K k c l (o, w)).0
  unfolding after_handle rm_conn
  Leaves-after k c l o w v = elim (Bool-cases (is_over o)) [
    | inl e ↦ rw e (record {
      watching = IsWatching-rm_conn k c l w v;
      others_watched = λ i ne h. Within-without i k l.watched ne h;
    })
    | inr e ↦ rw e (record { watching = v; others_watched = λ i ne h. h })
  ]

  on_event-Leaves :
      (k ev : ℕ) (l : EventLoop) (w : World)
      → IsWatching l
      → Within k l.watched
      → (t : EventLoop × World) × (on_event K (k, ev) (l, w) ≡ some t) × Leaves k l t.0
  unfolding on_event
  on_event-Leaves k ev l w v h =
      let (c, e) = v k h in
      let (o, x) = handle K c w in
      (
        after_handle K k c l (handle K c w),
        rw (any_event ev, e) refl,
        Leaves-after k c l (handle K c w).0 (handle K c w).1 v,
      )

  IsBatch-rest :
      (k : ℕ) (l m : EventLoop) (es : List (ℕ × ℕ))
      → Leaves k l m
      → Absent k es
      → IsBatch l.watched es
      → IsBatch m.watched es
  IsBatch-rest k l m [] v a b = tt
  IsBatch-rest k l m ((i, ev) ∷ es) v (ne, a) (h, d, b) =
      (v.others_watched i (λ z. ne (sym z)) h, d, IsBatch-rest k l m es v a b)

  batch_served :
      (es : List (ℕ × ℕ)) (l : EventLoop) (w : World)
      → IsWatching l
      → IsBatch l.watched es
      → (t : EventLoop × World) × (on_events K es (l, w) ≡ some t) × IsWatching t.0
  unfolding on_events
  batch_served [] l w v b = ((l, w), refl, v)
  batch_served ((k, ev) ∷ es) l w v (h, a, b) =
      let (t, e, left) = on_event-Leaves k ev l w v h in
      let (u, f, x) = batch_served es t.0 t.1 left.watching (IsBatch-rest k l t.0 es left a b) in
      (u, rw (on_events, e) f, x)

  IsWatching-added :
      (c : Connection) (l : EventLoop) (ok : Bool) (w : World)
      → IsWatching l
      → IsWatching (added K c l (ok, w)).0
  unfolding added
  IsWatching-added c l true w v i (inl e) = (c, rw e (conn_at-last l.conns (some c)))
  IsWatching-added c l true w v i (inr h) =
      let (d, e) = v i h in (d, conn_at-append l.conns (some c ∷ []) i d e)
  IsWatching-added c l false w v i h =
      let (d, e) = v i h in (d, conn_at-append l.conns (some c ∷ []) i d e)

  IsWatching-dump :
      (cs : List Connection) (l : EventLoop) (w : World)
      → IsWatching l
      → IsWatching (dump_loop K cs (l, w)).0
  unfolding dump_loop
  IsWatching-dump [] l w v = v
  IsWatching-dump (c ∷ cs) l w v =
      let m : EventLoop = record l { buf_conns = cs } in
      let (ok, x) = ctl K l.epfd add c.fd epollin w in
      IsWatching-dump cs (added K c m (ok, x)).0 (added K c m (ok, x)).1
        (IsWatching-added c m ok x v)

  -- Every loop watches as it should.
  abbrev AllWatching : Server K → Type 0
  AllWatching s = (i : ℕ) → IsWatching (get_or s.loops i (new_loop 0))

  put_back-AllWatching :
      (s : Server K) (i : ℕ) (l : EventLoop) (w : World) (a : List (Option ℕ))
      → IsWatching l
      → AllWatching s
      → AllWatching (record { loops = set s.loops i l; world = w; accepted = a })
  put_back-AllWatching s i l w a v all k = set_cases IsWatching s.loops i k l (new_loop 0) v all

  abbrev GoodResult : Option (EventLoop × World) → Type 0
  GoodResult none = ⊥
  GoodResult (some t) = IsWatching t.0

  Step-AllWatching : {s t : Server K} → Step K s t → AllWatching s → AllWatching t
  unfolding accept add_conn dump_conn
  Step-AllWatching {s} (accepts lfd) all =
      let (fd, w) = accept4 lfd s.world in
      let k = loop_of K fd (length s.loops) in
      let l = get_or s.loops k (new_loop 0) in
      let c : Connection = record { fd = fd; pkt_size = max_pkt_size } in
      put_back-AllWatching s k (add_conn K c l) w (s.accepted ++ (fd ∷ [])) (all k) all
  Step-AllWatching {s} (dumps i h) all =
      let l = get_or s.loops i (new_loop 0) in
      let (m, w) = dump_conn K (l, s.world) in
      put_back-AllWatching s i m w s.accepted (IsWatching-dump l.buf_conns l s.world (all i)) all
  Step-AllWatching {s} (serves i es {t} h b e) all =
      let (u, f, v) = batch_served es (get_or s.loops i (new_loop 0)) s.world (all i) b in
      put_back-AllWatching s i t.0 t.1 s.accepted (subst GoodResult (sym f ∙ e) v) all

  new_loops-IsWatching : (e m k : ℕ) → IsWatching (get_or (new_loops K e m) k (new_loop 0))
  unfolding new_loops new_loop
  new_loops-IsWatching e zero k j h = absurd h
  new_loops-IsWatching e (suc m) zero j h = absurd h
  new_loops-IsWatching e (suc m) (suc k) j h = new_loops-IsWatching (e + 1) m k j h

  start-AllWatching : (epfd n : ℕ) (w : World) → AllWatching (start K epfd n w)
  unfolding start
  start-AllWatching epfd n w i = new_loops-IsWatching epfd n i

  Reach-AllWatching : {s t : Server K} → AllWatching s → Reach K s t → AllWatching t
  Reach-AllWatching v here = v
  Reach-AllWatching v (next r st) = Step-AllWatching st (Reach-AllWatching v r)

  -- Whatever the threads have done, each loop gets through any batch that epoll_wait may return: it
  -- never calls through a pointer that was moved from or is past the end.
  pub reached_served :
      (epfd n : ℕ) (w : World) {s : Server K}
      → Reach K (start K epfd n w) s
      → (i : ℕ) (es : List (ℕ × ℕ)) → IsBatch (get_or s.loops i (new_loop 0)).watched es
      → (t : EventLoop × World) × (on_events K es (get_or s.loops i (new_loop 0), s.world) ≡ some t)
        × IsWatching t.0
  reached_served epfd n w {s} r i es b =
      batch_served es (get_or s.loops i (new_loop 0)) s.world
        (Reach-AllWatching (start-AllWatching epfd n w) r i) b
