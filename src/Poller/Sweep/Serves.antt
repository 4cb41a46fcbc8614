-- ===== src/Poller/Sweep/Serves.antt =====
-- A pass of the loop of server_poll_handle.cpp over its table.
use linux_programming.Prelude.{
  ℕ, zero, suc, ◌+◌, ◌≤◌, ◌<◌, ◌≡◌, ◌≢◌, refl, true, not, ◌&&◌, Option, none, some, List, [], ◌∷◌,
  inl, inr, arith, length-set, drop, get_or, set, bit_and, ltb, ◌==◌, if_lem, Bool-cases,
  ℕ_discrete,
}
use linux_programming.Kernel.{Kernel}
use linux_programming.Poller.{Pollfd, max_fds, num, is_fd}
use linux_programming.Poller.Table.{count}
use linux_programming.Poller.Sweep.{
  Server, Pass, swept, overflown, wild, endless, pollin, nothing, dispatch, handle_accept, quiet,
  visit, and_on, sweep_from, sweep,
}
use linux_programming.Poller.Sweep.Entries.{
  AllPolled, listener_broken, AllPolled-AllReady, AllReady, AllReady-get, count-quiet, drop-set,
}
use linux_programming.Poller.Sweep.Objects.{
  Serves, Visits, accepted-Visits, dispatch-Visits, listener-Visits,
}

-- How a pass may end: with a serving server, where the table is full, or, if `P`, at a handler that is
-- no object.
abbrev pub Sweeps : {W : Type 0} → Type 0 → ℕ → Pass W → Type 0
Sweeps P listen_fd (swept t) = Serves listen_fd t
Sweeps P listen_fd (overflown t) = Serves listen_fd t × (num t.poller ≡ max_fds)
Sweeps P listen_fd wild = P
Sweeps P listen_fd endless = ⊥

module _ (K : Kernel) (P : Type 0) (listen_fd : ℕ) where
  open K use {World, send, recv, accept4, close}

  quiet-Serves :
      (i : ℕ) (s : Server World)
      → Serves listen_fd s
      → Serves listen_fd (quiet K i s)
        × (num (quiet K i s).poller ≡ num s.poller)
        × (drop (suc i) (quiet K i s).poller.pfds ≡ drop (suc i) s.poller.pfds)
  unfolding quiet
  quiet-Serves i s v =
      let x = get_or s.poller.pfds i nothing in
      let same : (k : ℕ) → count k (quiet K i s).poller.pfds ≡ count k s.poller.pfds =
        λ k. count-quiet k i s.poller.pfds in
      let size = length-set s.poller.pfds i (record x { revents = 0 }) in
      (
        record {
          table = record {
            once = λ k. omega (arith, same k, v.table.once k);
            in_range = λ k h. v.table.in_range k (omega (arith, same k, h));
            no_stale = λ k z. v.table.no_stale k (omega (arith, same k, z));
            bounded = omega (arith, size, v.table.bounded);
          };
          listens = omega (arith, same listen_fd, v.listens);
          no_handler = v.no_handler;
          reached = λ k h ne. v.reached k (omega (arith, same k, h)) ne;
          fresh = v.fresh;
        },
        size,
        drop-set i (record x { revents = 0 }) s.poller.pfds,
      )

  -- The entry at `i` still holds its descriptor.
  quiet-held :
      (fd i : ℕ) (xs : List Pollfd)
      → is_fd fd (get_or xs i nothing).fd ≡ true
      → is_fd fd (get_or (set xs i (record (get_or xs i nothing) { revents = 0 })) i nothing).fd
        ≡ true
  quiet-held fd i [] e = e
  quiet-held fd zero (x ∷ xs) e = e
  quiet-held fd (suc i) (x ∷ xs) e = quiet-held fd i xs e

  called-Visits :
      (i : ℕ) (o : Option ℕ) (events : ℕ) (s : Server World)
      → (get_or s.poller.pfds i nothing).fd ≡ o
      → o ≢ none
      → (is_fd listen_fd o ≡ true → P)
      → AllReady P listen_fd (drop (suc i) s.poller.pfds)
      → Serves listen_fd s
      → Visits P listen_fd (suc i) (dispatch K o events (quiet K i s))
  unfolding quiet
  called-Visits i none events s e some_fd why u v = absurd (some_fd refl)
  called-Visits i (some fd) events s e some_fd why u v =
      let (q, l, d) = quiet-Serves i s v in
      let held : is_fd fd (get_or s.poller.pfds i nothing).fd ≡ true = rw e (ground arith) in
      elim (ℕ_discrete fd listen_fd) [
        | yes own ↦
            rw own
              (listener-Visits K P listen_fd (suc i) events (quiet K i s) (why (ground arith)) q)
        | no ne ↦
            dispatch-Visits K P listen_fd i fd events (quiet K i s)
              (quiet-held fd i s.poller.pfds held) ne (rw d u) q
      ]

  visit-Visits :
      (i : ℕ) (s : Server World)
      → i < num s.poller
      → AllReady P listen_fd (drop i s.poller.pfds)
      → Serves listen_fd s
      → Visits P listen_fd (suc i) (visit K listen_fd i (get_or s.poller.pfds i nothing) s)
  unfolding visit handle_accept
  visit-Visits i s l u v =
      let x = get_or s.poller.pfds i nothing in
      let (polled, after) = AllReady-get P listen_fd i s.poller.pfds l u in
      let (q, size, d) = quiet-Serves i s v in
      let r = accept4 listen_fd (quiet K i s).world in
      if_lem (Visits P listen_fd (suc i))
        (is_fd listen_fd x.fd && not (bit_and x.revents pollin == 0)) _ _
        (λ e.
          accepted-Visits K P listen_fd i r.0 (record (quiet K i s) { world = r.1 })
            (omega (arith, size, l)) (rw d after) q)
        (λ e.
          if_lem (Visits P listen_fd (suc i)) (x.revents == 0) (swept s) _ (λ z. (v, after))
            (λ z.
              called-Visits i x.fd x.revents s refl
                (λ gone. absurd (ground (arith, polled.0 gone, z)))
                (λ own. polled.1 (ground (arith, own, e, z))) after v))

  -- The rest of the pass, after one entry.
  onward :
      (i : ℕ) (k : Server World → Pass World) (r : Pass World)
      → Visits P listen_fd i r
      → ((t : Server World)
          → AllReady P listen_fd (drop i t.poller.pfds)
          → Serves listen_fd t
          → Sweeps P listen_fd (k t))
      → Sweeps P listen_fd (and_on K k r)
  unfolding and_on
  onward i k (swept t) h f = f t h.1 h.0
  onward i k (overflown t) h f = h
  onward i k wild h f = h
  onward i k endless h f = h

  sweep_from-Sweeps :
      (fuel i : ℕ) (s : Server World)
      → max_fds < fuel + i
      → i ≤ max_fds
      → AllReady P listen_fd (drop i s.poller.pfds)
      → Serves listen_fd s
      → Sweeps P listen_fd (sweep_from K fuel listen_fd i s)
  unfolding sweep_from
  sweep_from-Sweeps zero i s h b u v = absurd (omega arith)
  sweep_from-Sweeps (suc fuel) i s h b u v = elim (Bool-cases (ltb i (num s.poller))) [
    | inl more ↦
        rw (more, sweep_from)
          (onward (suc i) (sweep_from K fuel listen_fd (suc i)) _
            (visit-Visits i s (ground (arith, more)) u v)
            (λ t u' v'.
              sweep_from-Sweeps fuel (suc i) t (omega arith) (ground (arith, more, v.table.bounded))
                u' v'))
    | inr all ↦ rw (all, sweep_from) v
  ]

-- A pass over the table of a serving server, for which poll(2) has left no `revents` at a descriptor
-- of -1, ends before its fuel does. It leaves a serving server, in which every descriptor of the table
-- but the listening one still has its own connection, or it stops where `add_fd` writes behind a table
-- of `max_fds` entries. It calls a handler that is no object only if poll(2) has reported an error of
-- the listening socket without POLLIN.
pub sweep-Sweeps :
    (K : Kernel) (listen_fd : ℕ) (s : Server K.World)
    → Serves listen_fd s
    → AllPolled s.poller.pfds
    → Sweeps (listener_broken listen_fd s.poller.pfds ≡ true) listen_fd (sweep K listen_fd s)
sweep-Sweeps K listen_fd s v u =
    sweep_from-Sweeps K (listener_broken listen_fd s.poller.pfds ≡ true) listen_fd (max_fds + 1) 0 s
      (omega arith) (omega arith)
      (AllPolled-AllReady (listener_broken listen_fd s.poller.pfds ≡ true) listen_fd s.poller.pfds u
        (λ e. e))
      v
