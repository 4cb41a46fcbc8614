-- ===== src/Push/Events.antt =====
-- The events of `loop` in the pushing servers: a batch of them, over all connections.
use linux_programming.Prelude.{
  ℕ, ◌≤◌, ◌<◌, ◌≡◌, ◌≢◌, refl, ◌∙◌, Option, none, some, List, [], ◌∷◌, inl, inr, arith, Bool-cases,
  Option-cases, ◌==◌, if◌then◌else◌, if_lem, update,
}
use mathlib.Core.Path.{subst}
use linux_programming.Kernel.{Kernel, IsFinite, add, del}
use linux_programming.Response.Calls.{Exit, done, error, exhausted}
use linux_programming.Push.Server.{
  Pusher, Server, IsWorking, insert, entered, accepted, handle_accept, close_conn, handled,
  on_event, on_events,
}

session-injective : {A : Type 0} {a b : A} → ◌≡◌ {A = Option A} (some a) (some b) → a ≡ b
session-injective e = cc

module _ (K : Kernel) (P : Pusher K) (finite : IsFinite K) (Good : P.Session → Type 0)
    (works : IsWorking K P finite Good) where
  open K use {World, epoll_ctl, accept4, close}
  open P use {Session, fd_of, mask, construct, handle}
  open finite use {supply, ctl_keeps, accept_keeps, close_keeps}

  abbrev IsOwn : ℕ → Session → Type 0
  IsOwn fd c = (fd_of c ≡ fd) × Good c

  -- Every connection is found under its own descriptor, and is as its class keeps it.
  abbrev AllOwn : (ℕ → Option Session) → Type 0
  AllOwn m = (fd : ℕ) (c : Session) → m fd ≡ some c → IsOwn fd c

  abbrev pub IsServing : Server K P → Type 0
  IsServing s = AllOwn s.conns

  update-AllOwn :
      (m : ℕ → Option Session) (fd : ℕ) (o : Option Session)
      → AllOwn m
      → ((c : Session) → o ≡ some c → IsOwn fd c)
      → AllOwn (update m fd o)
  update-AllOwn m fd o v h q c e = elim (Bool-cases (fd == q)) [
    | inl same ↦ let e' : fd ≡ q = ground arith in subst (λ x. IsOwn x c) e' (h c (ground arith))
    | inr other ↦ v q c (ground arith)
  ]

  insert-AllOwn :
      (fd : ℕ) (c : Session) (m : ℕ → Option Session)
      → IsOwn fd c
      → AllOwn m
      → AllOwn (insert K P fd c m)
  unfolding insert
  insert-AllOwn fd c m h v = elim (Option-cases (m fd)) [
    | inl new ↦
        rw (new, insert)
          (update-AllOwn m fd (some c) v (λ d e. subst (IsOwn fd) (session-injective e) h))
    | inr (d, old) ↦ rw (old, insert) v
  ]

  -- The event was handled, and left a server that serves.
  abbrev Serves : World → Option (Server K P) → Type 0
  Serves w o = (t : Server K P) × (o ≡ some t) × IsServing t × (supply t.world ≤ supply w)

  -- A new connection is entered, whichever way its constructor's `send_buf` ended.
  settled :
      (fd : ℕ) (s : Server K P) (x : Exit) (c : Session) (w : World)
      → IsOwn fd c
      → x ≢ exhausted
      → IsServing s
      → supply w ≤ supply s.world
      → Serves s.world (entered K P fd (x, c, w) s)
  unfolding entered
  settled fd s (done n) c w h e v l = (_, refl, insert-AllOwn fd c s.conns h v, l)
  settled fd s error c w h e v l = (_, refl, insert-AllOwn fd c s.conns h v, l)
  settled fd s exhausted c w h e v l = absurd (e refl)

  accepted-Serves :
      (epoll_fd : ℕ) (r : Option ℕ) (s : Server K P)
      → IsServing s
      → Serves s.world (accepted K P epoll_fd r s)
  unfolding accepted
  accepted-Serves epoll_fd none s v = (s, refl, v, omega arith)
  accepted-Serves epoll_fd (some fd) s v =
      let (ok, w) = epoll_ctl epoll_fd add fd mask s.world in
      let (good, own, ends, l) = works.construct_works fd epoll_fd (if ok then mask else 0) w in
      settled fd s _ _ _ (own, good) ends v
        (omega (arith, l, ctl_keeps epoll_fd add fd mask s.world))

  handle_accept-Serves :
      (listen_fd epoll_fd : ℕ) (s : Server K P)
      → IsServing s
      → Serves s.world (handle_accept K P listen_fd epoll_fd s)
  unfolding handle_accept
  handle_accept-Serves listen_fd epoll_fd s v =
      let (r, w) = accept4 listen_fd s.world in
      let (t, e, u, l) = accepted-Serves epoll_fd r (record s { world = w }) v in
      (t, e, u, omega (arith, l, accept_keeps listen_fd s.world))

  handled-Serves :
      (fd epoll_fd : ℕ) (x : Exit) (c : Session) (w : World) (s : Server K P)
      → IsServing s
      → IsOwn fd c
      → x ≢ exhausted
      → supply w ≤ supply s.world
      → Serves s.world (handled K P fd epoll_fd (x, c, w) s)
  unfolding handled close_conn
  handled-Serves fd epoll_fd (done n) c w s v h q l = (
    _,
    refl,
    update-AllOwn s.conns fd (some c) v (λ d e. subst (IsOwn fd) (session-injective e) h),
    l,
  )
  handled-Serves fd epoll_fd error c w s v h q l =
      let m = update s.conns fd (some c) in
      let w' = (epoll_ctl epoll_fd del fd 0 w).1 in
      (
        _,
        refl,
        update-AllOwn m fd none
            (update-AllOwn s.conns fd (some c) v (λ d e. subst (IsOwn fd) (session-injective e) h))
            (λ d e. absurd (cc e)),
        omega (arith, l, close_keeps fd w', ctl_keeps epoll_fd del fd 0 w),
      )
  handled-Serves fd epoll_fd exhausted c w s v h q l = absurd (q refl)

  on_event-Serves :
      (rounds listen_fd epoll_fd fd ev : ℕ) (s : Server K P)
      → IsServing s
      → supply s.world < rounds
      → Serves s.world (on_event K P rounds listen_fd epoll_fd (fd, ev) s)
  unfolding on_event
  on_event-Serves rounds listen_fd epoll_fd fd ev s v h =
      if_lem (Serves s.world) (fd == listen_fd) (handle_accept K P listen_fd epoll_fd s) _
        (λ e. handle_accept-Serves listen_fd epoll_fd s v)
        (λ e. elim (Option-cases (s.conns fd)) [
          | inl gone ↦ rw gone (s, refl, v, omega arith)
          | inr (c, found) ↦
              let (own, good) = v fd c found in
              let (good', same, ends, l) = works.handle_works rounds ev c s.world good h in
              rw found (handled-Serves fd epoll_fd _ _ _ s v (same ∙ own, good') ends l)
        ])

  -- Every batch of events is handled to its end, and the connections stay as they must be.
  pub on_events-Serves :
      (rounds listen_fd epoll_fd : ℕ) (es : List (ℕ × ℕ)) (s : Server K P)
      → IsServing s
      → supply s.world < rounds
      → Serves s.world (on_events K P rounds listen_fd epoll_fd es s)
  unfolding on_events
  on_events-Serves rounds listen_fd epoll_fd [] s v h = (s, refl, v, omega arith)
  on_events-Serves rounds listen_fd epoll_fd ((fd, ev) ∷ es) s v h =
      let (t, e, u, l) = on_event-Serves rounds listen_fd epoll_fd fd ev s v h in
      let (t', e', u', l') =
        on_events-Serves rounds listen_fd epoll_fd es t u (omega (arith, l, h)) in
      (t', rw (e, on_events) e', u', omega (arith, l, l'))
