-- ===== src/Handles/Batches.antt =====
-- A batch of events of network/tcp_echo/server_epoll_handle.cpp: no pointer dangles, and no descriptor is
-- lost.
use linux_programming.Prelude.{
  ℕ, zero, suc, ◌+◌, ◌<◌, ◌≡◌, ◌≢◌, refl, ◌∙◌, ap, Option, none, some, List, [], ◌∷◌, ◌++◌, arith,
  length, set, get_or-set_ne,
}
use linux_programming.Kernel.{Kernel}
use linux_programming.Threads.{total, split-total, total-append}
use linux_programming.Handles.{
  Connection, Server, object_at, accepted, handle_accept, destroy, after_handle, handle, on_event,
  on_events,
}

-- No later event of the batch has the pointer `p`.
abbrev pub Absent : ℕ → List (Option ℕ × ℕ) → Type 0
Absent p [] = Unit
Absent p ((none, evs) ∷ es) = Absent p es
Absent p ((some q, evs) ∷ es) = (p ≢ q) × Absent p es

-- What `epoll_wait` may return: the pointers of objects, each once at most, and NULL.
abbrev pub IsBatch : List (Option Connection) → List (Option ℕ × ℕ) → Type 0
IsBatch objects [] = Unit
IsBatch objects ((none, evs) ∷ es) = IsBatch objects es
IsBatch objects ((some p, evs) ∷ es) =
    ((c : Connection) × (object_at objects p ≡ some c)) × Absent p es × IsBatch objects es

abbrev pub of_object : (ℕ → ℕ) → Option Connection → ℕ
of_object v none = 0
of_object v (some c) = v c.fd

-- From `s` to `t`, what was accepted is what is held or was closed.
abbrev pub Conserves : {W : Type 0} → (ℕ → ℕ) → Server W → Server W → Type 0
Conserves v s t =
    total (of_object v) t.objects + total v t.closed + total v s.accepted
    ≡ total (of_object v) s.objects + total v s.closed + total v t.accepted

object_at-append :
    (os ps : List (Option Connection)) (p : ℕ) (c : Connection)
    → object_at os p ≡ some c
    → object_at (os ++ ps) p ≡ some c
object_at-append [] ps p c e = absurd (cc e)
object_at-append (o ∷ os) ps zero c e = e
object_at-append (o ∷ os) ps (suc p) c e = object_at-append os ps p c e

present_lt :
    (os : List (Option Connection)) (p : ℕ) (c : Connection)
    → object_at os p ≡ some c
    → p < length os
present_lt [] p c e = absurd (cc e)
present_lt (o ∷ os) zero c e = omega arith
present_lt (o ∷ os) (suc p) c e = omega (arith, present_lt os p c e)

IsBatch-append :
    (os ps : List (Option Connection)) (es : List (Option ℕ × ℕ))
    → IsBatch os es
    → IsBatch (os ++ ps) es
IsBatch-append os ps [] b = tt
IsBatch-append os ps ((none, evs) ∷ es) b = IsBatch-append os ps es b
IsBatch-append os ps ((some p, evs) ∷ es) ((c, e), a, b) =
    ((c, object_at-append os ps p c e), a, IsBatch-append os ps es b)

IsBatch-set :
    (os : List (Option Connection)) (p : ℕ) (es : List (Option ℕ × ℕ))
    → Absent p es
    → IsBatch os es
    → IsBatch (set os p none) es
IsBatch-set os p [] a b = tt
IsBatch-set os p ((none, evs) ∷ es) a b = IsBatch-set os p es a b
IsBatch-set os p ((some q, evs) ∷ es) (ne, a) ((c, e), d, b) =
    ((c, get_or-set_ne os p q none none ne ∙ e), d, IsBatch-set os p es a b)

module _ (K : Kernel) (v : ℕ → ℕ) where
  open K use {World, accept4}

  -- What one event leaves of the rest of the batch.
  abbrev Leaves : List (Option ℕ × ℕ) → Server World → Server World → Type 0
  Leaves es s t = IsBatch t.objects es × Conserves v s t

  accepted-Leaves :
      (epoll_fd : ℕ) (r : Option ℕ) (s : Server World) (es : List (Option ℕ × ℕ))
      → IsBatch s.objects es
      → Leaves es s (accepted K epoll_fd r s)
  unfolding accepted total
  accepted-Leaves epoll_fd none s es b = (b, omega arith)
  accepted-Leaves epoll_fd (some fd) s es b =
      let c : Connection = record { fd = fd; epoll_fd = epoll_fd } in
      (
        IsBatch-append s.objects (some c ∷ []) es b,
        omega (
          arith,
          total-append (of_object v) s.objects (some c ∷ []),
          total-append v s.accepted (fd ∷ []),
        ),
      )

  after_handle-Leaves :
      (p : ℕ) (c : Connection) (o : Option ℕ) (w : World) (s : Server World)
      (es : List (Option ℕ × ℕ))
      → object_at s.objects p ≡ some c
      → Absent p es
      → IsBatch s.objects es
      → Leaves es s (after_handle K p c (o, w) s)
  unfolding after_handle destroy total
  after_handle-Leaves p c (some n) w s es e a b = (b, omega arith)
  after_handle-Leaves p c none w s es e a b =
      let h = present_lt s.objects p c e in
      let (x, y) = split-total (of_object v) none s.objects p none refl h in
      (
        IsBatch-set s.objects p es a b,
        omega (arith, x, y, ap (of_object v) e, total-append v s.closed (c.fd ∷ [])),
      )

  -- A batch that epoll_wait may return, with each object's pointer once at most, is handled without a call
  -- through a pointer to no object. Over it, `v` adds up to as much on the descriptors accepted as on those
  -- of new objects and those closed: none is lost or closed twice.
  pub on_events-Conserves :
      (listen_fd epoll_fd : ℕ) (es : List (Option ℕ × ℕ)) (s : Server World)
      → IsBatch s.objects es
      → (t : Server World) × (on_events K listen_fd epoll_fd es s ≡ some t) × Conserves v s t
  unfolding on_events on_event handle_accept
  on_events-Conserves listen_fd epoll_fd [] s b = (s, refl, refl)
  on_events-Conserves listen_fd epoll_fd ((none, evs) ∷ es) s b =
      let (r, w) = accept4 listen_fd s.world in
      let m : Server World = record s { world = w } in
      let (c, first) = accepted-Leaves epoll_fd r m es b in
      let (t, f, more) = on_events-Conserves listen_fd epoll_fd es (accepted K epoll_fd r m) c in
      (t, f, omega (arith, first, more))
  on_events-Conserves listen_fd epoll_fd ((some p, evs) ∷ es) s ((c, e), a, b) =
      let (o, w) = handle K evs c s.world in
      let u = after_handle K p c (o, w) s in
      let (d, first) = after_handle-Leaves p c o w s es e a b in
      let (t, f, more) = on_events-Conserves listen_fd epoll_fd es u d in
      (t, rw (on_events, on_event, e) f, omega (arith, first, more))
