-- ===== src/PerThread/Owned.antt =====
-- The descriptors that network/tcp_echo/server_epoll_bench.cpp accepts, and where each of them is.
use linux_programming.Prelude.{
  ℕ, zero, suc, ◌+◌, ◌-◌, ◌^◌, ◌<◌, ◌≡◌, refl, ap, ◌∙◌, Option, none, some, List, [], ◌∷◌, length,
  get_or, arith, Bool-cases, Option-cases, inl, inr, length-set,
}
use native.Mathlib.Nat.{mod-lt}
use mathlib.Core.Path.{subst}
use linux_programming.Kernel.{Kernel, add, epollin}
use linux_programming.Threads.{total, split-total, total-append}
use linux_programming.PerThread.{
  max_pkt_size, Connection, EventLoop, new_loop, conn_at, is_over, rm_conn, handle, after_handle,
  on_event, on_events, added, dump_loop, dump_conn, add_conn, loop_of, Server, accept, put_back,
  Step, accepts, dumps, serves, Reach, here, next, new_loops, start, ctl,
}
use linux_programming.PerThread.Places.{any_event}

module _ (v : Option ℕ → ℕ) where
  abbrev pub of_conn : Connection → ℕ
  of_conn c = v c.fd

  abbrev pub of_pointer : Option Connection → ℕ
  of_pointer none = 0
  of_pointer (some c) = v c.fd

  -- The descriptors of a loop, counted by `v`: those that wait in `buf_conns`, those of `conns`, and
  -- those that it has closed.
  abbrev pub held : EventLoop → ℕ
  held l = total of_conn l.buf_conns + total of_pointer l.conns + total v l.closed

  new_loop_lem : held (new_loop 0) ≡ 0
  unfolding new_loop total
  new_loop_lem = refl

  module _ (K : Kernel) where
    open K use {World, accept4}

    held-rm_conn :
        (k : ℕ) (c : Connection) (l : EventLoop) (w : World)
        → conn_at l.conns k ≡ some c
        → held (rm_conn K k c (l, w)).0 ≡ held l
    unfolding rm_conn total
    held-rm_conn k c l w e =
        let h = present l.conns k c e in
        let (p, q) = split-total of_pointer none l.conns k none refl h in
        omega (arith, p, q, ap of_pointer e, total-append v l.closed (c.fd ∷ []))
      where
        present :
            (cs : List (Option Connection)) (i : ℕ) (d : Connection)
            → conn_at cs i ≡ some d
            → i < length cs
        present [] i d e = absurd (cc e)
        present (o ∷ cs) zero d e = omega arith
        present (o ∷ cs) (suc i) d e = omega (arith, present cs i d e)

    abbrev Keeps : ℕ → Option (EventLoop × World) → Type 0
    Keeps h none = Unit
    Keeps h (some t) = held t.0 ≡ h

    event-Keeps : (e : ℕ × ℕ) (l : EventLoop) (w : World) → Keeps (held l) (on_event K e (l, w))
    unfolding on_event after_handle
    event-Keeps (k, ev) l w = elim (Option-cases (conn_at l.conns k)) [
      | inl e ↦ rw (any_event ev, e) tt
      | inr (c, e) ↦
          let (o, x) = handle K c w in
          rw (any_event ev, e)
            (elim (Bool-cases (is_over o)) [
              | inl y ↦ rw y (held-rm_conn k c l x e)
              | inr y ↦ rw y refl
            ])
    ]

    events-Keeps :
        (es : List (ℕ × ℕ)) (l : EventLoop) (w : World) → Keeps (held l) (on_events K es (l, w))
    unfolding on_events
    events-Keeps [] l w = refl
    events-Keeps (e ∷ es) l w = elim (Option-cases (on_event K e (l, w))) [
      | inl z ↦ rw (on_events, z) tt
      | inr (t, z) ↦
          let same : held t.0 ≡ held l = subst (Keeps (held l)) z (event-Keeps e l w) in
          rw (on_events, z) (subst (λ h. Keeps h (on_events K es t)) same (events-Keeps es t.0 t.1))
    ]

    held-dump :
        (cs : List Connection) (l : EventLoop) (w : World)
        → l.buf_conns ≡ cs
        → held (dump_loop K cs (l, w)).0 ≡ held l
    unfolding dump_loop added total
    held-dump [] l w e = omega (arith, ap (total of_conn) e)
    held-dump (c ∷ cs) l w e =
        let (ok, x) = ctl K l.epfd add c.fd epollin w in
        let (m, y) = added K c (record l { buf_conns = cs }) (ok, x) in
        omega (
          arith,
          held-dump cs m y refl,
          ap (total of_conn) e,
          total-append of_pointer l.conns (some c ∷ []),
        )

    -- Every loop of the server, and what was accepted.
    abbrev pub Balances : Server K → Type 0
    Balances s = total held s.loops ≡ total v s.accepted

    put_back-Balances :
        (s : Server K) (i : ℕ) (l : EventLoop) (w : World)
        → i < length s.loops
        → held l ≡ held (get_or s.loops i (new_loop 0))
        → Balances s
        → Balances (put_back K i (l, w) s)
    put_back-Balances s i l w h e b =
        let (p, q) = split-total held (new_loop 0) s.loops i l new_loop_lem h in
        omega (arith, p, q, e, b)

    loop_of_lt : (fd : Option ℕ) (n : ℕ) → 0 < n → loop_of K fd n < n
    unfolding loop_of
    loop_of_lt none n h = mod-lt (2 ^ 64 - 1) {m = n} h
    loop_of_lt (some fd) n h = mod-lt fd {m = n} h

    Step-Balances :
        {s t : Server K}
        → 0 < length s.loops
        → Step K s t
        → Balances s
        → Balances t × (length t.loops ≡ length s.loops)
    unfolding accept add_conn dump_conn total
    Step-Balances {s} z (accepts lfd) b =
        let (fd, w) = accept4 lfd s.world in
        let k = loop_of K fd (length s.loops) in
        let l = get_or s.loops k (new_loop 0) in
        let c : Connection = record { fd = fd; pkt_size = max_pkt_size } in
        let m = add_conn K c l in
        let h : k < length s.loops = loop_of_lt fd (length s.loops) z in
        let (p, q) = split-total held (new_loop 0) s.loops k m new_loop_lem h in
        (
          omega (
            arith,
            p,
            q,
            b,
            total-append of_conn l.buf_conns (c ∷ []),
            total-append v s.accepted (fd ∷ []),
          ),
          length-set s.loops k m,
        )
    Step-Balances {s} z (dumps i h) b =
        let l = get_or s.loops i (new_loop 0) in
        let (m, w) = dump_conn K (l, s.world) in
        (
          put_back-Balances s i m w h (held-dump l.buf_conns l s.world refl) b,
          length-set s.loops i m,
        )
    Step-Balances {s} z (serves i es {t} h a e) b =
        let l = get_or s.loops i (new_loop 0) in
        let same : held t.0 ≡ held l = subst (Keeps (held l)) e (events-Keeps es l s.world) in
        (put_back-Balances s i t.0 t.1 h same b, length-set s.loops i t.0)

    new_loops_lem : (e n : ℕ) → (total held (new_loops K e n) ≡ 0) × (length (new_loops K e n) ≡ n)
    unfolding new_loops new_loop total
    new_loops_lem e zero = (refl, refl)
    new_loops_lem e (suc n) =
        let (a, b) = new_loops_lem (e + 1) n in (omega (arith, a), omega (arith, b))

    Reach-Balances :
        (epfd n : ℕ) (w : World) {s : Server K}
        → 0 < n
        → Reach K (start K epfd n w) s
        → Balances s × (length s.loops ≡ n)
    unfolding start total
    Reach-Balances epfd n w z here = new_loops_lem epfd n
    Reach-Balances epfd n w z (next r st) =
        let (b, l) = Reach-Balances epfd n w z r in
        let (c, m) = Step-Balances (omega (arith, l, z)) st b in (c, m ∙ l)

    -- Whatever the threads have done, `v` adds up to the same over the descriptors that `accept4` has
    -- returned and over those of the loops: each waits in one `buf_conns`, or is in one of `conns`, or was
    -- closed, and none is there twice, lost, or closed twice. There is at least one loop.
    pub descriptors_conserved :
        (epfd n : ℕ) (w : World) {s : Server K}
        → 0 < n
        → Reach K (start K epfd n w) s
        → total held s.loops ≡ total v s.accepted
    descriptors_conserved epfd n w z r = (Reach-Balances epfd n w z r).0
