-- ===== src/Loop/Safety.antt =====
-- class EventLoop of network/tcp_echo/server_epollout_handle.cpp: the objects on the
-- heap over a batch of events.
use linux_programming.Prelude.{
  update, ℕ, ◌≤◌, ◌≡◌, ◌≢◌, refl, Bool, true, false, not, Option, none, some, List, [], ◌∷◌, arith,
  length, ◌++◌, ap, Bool-cases, inl, inr, bit_and, ◌==◌, ◌⊎◌, ◌∙◌, sym, ℕ_discrete,
}
use mathlib.Core.Path.{subst}
use linux_programming.Kernel.{Kernel}
use linux_programming.Ring.{max_pkt_size}
use linux_programming.Echo
use linux_programming.Echo.Calls.{State}
use linux_programming.Echo.Receive.{IsEcho}
use linux_programming.Echo.Send.{IsArmed}
use linux_programming.Echo.Handle.{Serves, handle-Serves, construct-Serves}
use linux_programming.Loop.{
  Session, enter, leave, Acceptor, Handler, acceptor, connection, Server, accepted, accept_handle,
  handle_object, destroy, delete_handler, delete_failed, on_event, on_events,
}

abbrev pub IsWorking : Type 0 → Session → Type 0
IsWorking W c = (w : W) → IsEcho (enter c w) × IsArmed (enter c w)

-- Every connection is a working echo, and nothing stands beyond `next`.
pub record IsServing {W : Type 0} (s : Server W) : Type 0 where
  pub works : (p : ℕ) (c : Session) → s.objects p ≡ some (connection c) → IsWorking W c
  pub unused : (p : ℕ) → s.next ≤ p → s.objects p ≡ none

abbrev pub is_live : Option Handler → Bool
is_live none = false
is_live (some h) = true

-- The pointers of a batch are pairwise different, as those that epoll_wait returns are.
abbrev pub Absent : ℕ → List (ℕ × ℕ) → Type 0
Absent p [] = Unit
Absent p ((q, ev) ∷ es) = (p ≢ q) × Absent p es

abbrev pub Distinct : List (ℕ × ℕ) → Type 0
Distinct [] = Unit
Distinct ((p, ev) ∷ es) = Absent p es × Distinct es

abbrev pub AllLive : {W : Type 0} → Server W → List (ℕ × ℕ) → Type 0
AllLive s [] = Unit
AllLive s ((p, ev) ∷ es) = (is_live (s.objects p) ≡ true) × AllLive s es

update_cases :
    (f : ℕ → Option Handler) (p q : ℕ) (v o : Option Handler)
    → update f p v q ≡ o
    → (p ≡ q) × (v ≡ o) ⊎ (p ≢ q) × (f q ≡ o)
update_cases f p q v o e = elim (Bool-cases (p == q)) [
  | inl same ↦ inl (ground arith, (rw same at e))
  | inr other ↦ inr ((λ z. ground arith), (rw other at e))
]

update_ne : (f : ℕ → Option Handler) (p q : ℕ) (v : Option Handler) → p ≢ q → update f p v q ≡ f q
update_ne f p q v ne = ground arith

update-live :
    (f : ℕ → Option Handler) (p q : ℕ) (h : Handler)
    → is_live (f q) ≡ true
    → is_live (update f p (some h) q) ≡ true
update-live f p q h e = ground arith

connection-injective :
    (a b : Session) → ◌≡◌ {A = Option Handler} (some (connection a)) (some (connection b)) → a ≡ b
connection-injective a b e = cc

-- A working state leaves a working connection.
leave-IsWorking :
    {W : Type 0} (s : State W) (c : Session)
    → IsEcho s
    → IsArmed s
    → ◌≡◌ {A = Option Handler} (some (connection (leave s))) (some (connection c))
    → IsWorking W c
leave-IsWorking {W} s c e a q =
    subst (IsWorking W) (connection-injective (leave s) c q)
      (λ w. (record { valid = e.valid; balance = e.balance; registers = e.registers }, a))

module _ (K : Kernel) (fresh : ℕ → List ℕ) (sized : (a : ℕ) → length (fresh a) ≡ max_pkt_size) where
  open K use {World}

  -- What handling an event at `p` leaves, the deletion on failure left aside.
  record Handled (p : ℕ) (before : ℕ → Option Handler) (o : Option ℕ) (t : Server World)
      : Type 0 where
    others : (q : ℕ) (c : Session) → p ≢ q → t.objects q ≡ some (connection c) → IsWorking World c
    own : (n : ℕ) (c : Session) → o ≡ some n → t.objects p ≡ some (connection c) → IsWorking World c
    unused : (q : ℕ) → t.next ≤ q → t.objects q ≡ none
    live : (q : ℕ) → is_live (before q) ≡ true → is_live (t.objects q) ≡ true

  accepted-Handled :
      (p epfd : ℕ) (a : Acceptor) (r : Option ℕ) (s : Server World)
      → s.objects p ≡ some (acceptor a)
      → IsServing s
      → let (o, t) = accepted K fresh epfd r s in Handled p s.objects o t
  unfolding accepted
  accepted-Handled p epfd a none s h v = record {
    others = λ q c ne e. v.works q c e;
    own = λ n c e. cc;
    unused = v.unused;
    live = λ q e. e;
  }
  accepted-Handled p epfd a (some fd) s h v = record {
    others = λ q c ne e. elim (update_cases s.objects s.next q _ _ e) [
      | inl (_, z) ↦ leave-IsWorking new c built.0 (built.1 0 refl) z
      | inr (_, z) ↦ v.works q c z
    ];
    own = λ n c _ e. elim (update_cases s.objects s.next p _ _ e) [
      | inl (_, z) ↦ leave-IsWorking new c built.0 (built.1 0 refl) z
      | inr (_, z) ↦ v.works p c z
    ];
    unused = λ q le. update_ne s.objects s.next q _ (omega arith) ∙ v.unused q (omega arith);
    live = λ q e. update-live s.objects s.next q _ e;
  }
    where
      new : State World
      new = Echo.construct K fd epfd (fresh s.next) s.world

      built : Serves (some 0, new)
      built = construct-Serves K fd epfd (fresh s.next) s.world (sized s.next)

  handle_object-Handled :
      (p ev : ℕ) (h : Handler) (s : Server World)
      → s.objects p ≡ some h
      → IsServing s
      → let (o, t) = handle_object K fresh p h ev s in Handled p s.objects o t
  unfolding handle_object accept_handle
  handle_object-Handled p ev (acceptor a) s q v =
      elim (Bool-cases (not (bit_and ev 0xffff_fffe == 0))) [
        | inl bad ↦ rw bad record {
          others = λ r c ne e. v.works r c e;
          own = λ n c e. cc;
          unused = v.unused;
          live = λ r e. e;
        }
        | inr good ↦
            let (r, w) = K.accept4 a.fd s.world in
            rw good (
              accepted-Handled p a.epfd a r (record s { world = w }) q
                (record { works = v.works; unused = v.unused }))
      ]
  handle_object-Handled p ev (connection c) s q v = record {
    others = λ r d ne e. v.works r d (sym (update_ne s.objects p r _ ne) ∙ e);
    own = λ n d ok e. elim (update_cases s.objects p p _ _ e) [
      | inl (_, z) ↦ leave-IsWorking t d served.0 (served.1 n ok) z
      | inr (ne, _) ↦ absurd (ne refl)
    ];
    unused = λ r le. update_ne s.objects p r _ (λ z. cc (v.unused r le, z)) ∙ v.unused r le;
    live = λ r e. update-live s.objects p r _ e;
  }
    where
      t : State World
      t = (Echo.handle K ev (enter c s.world)).1

      served : Serves (Echo.handle K ev (enter c s.world))
      served = let (e, a) = v.works p c q s.world in handle-Serves K ev (enter c s.world) e a

  -- What one event leaves, when its pointer is live.
  record Survives (p : ℕ) (before : ℕ → Option Handler) (t : Server World) : Type 0 where
    serving : IsServing t
    live : (q : ℕ) → p ≢ q → is_live (before q) ≡ true → is_live (t.objects q) ≡ true

  -- An acceptor's `handle` returns -1: the event is not just EPOLLIN, or `accept4` fails.
  abbrev pub Refuses : Acceptor → ℕ → World → Type 0
  Refuses a ev w = ((bit_and ev 0xffff_fffe == 0) ≡ false) ⊎ ((K.accept4 a.fd w).0 ≡ none)

  accepted_none :
      (epfd : ℕ) (r : Option ℕ) (s : Server World) → (accepted K fresh epfd r s).0 ≡ none → r ≡ none
  unfolding accepted
  accepted_none epfd none s e = refl
  accepted_none epfd (some fd) s e = absurd (cc e)

  accept_handle-Refuses :
      (a : Acceptor) (ev : ℕ) (s : Server World)
      → (accept_handle K fresh a ev s).0 ≡ none
      → Refuses a ev s.world
  unfolding accept_handle
  accept_handle-Refuses a ev s e = elim (Bool-cases (bit_and ev 0xffff_fffe == 0)) [
    | inr bad ↦ inl bad
    | inl good ↦ inr (accepted_none a.epfd _ _ (rw good at e))
  ]

  -- How one event may end: handled, or with the deletion of the acceptor.
  abbrev After : ℕ → ℕ → Server World → Option (Server World) → Type 0
  After p ev s o =
      ((t : Server World) × (o ≡ some t) × Survives p s.objects t)
      ⊎ ((a : Acceptor) × (s.objects p ≡ some (acceptor a)) × Refuses a ev s.world)

  delete_failed-After :
      (p ev : ℕ) (h : Handler) (s : Server World) (r : Option ℕ × Server World)
      → s.objects p ≡ some h
      → handle_object K fresh p h ev s ≡ r
      → Handled p s.objects r.0 r.1
      → After p ev s (delete_failed K fresh p h r)
  unfolding delete_failed delete_handler destroy handle_object
  delete_failed-After p ev (acceptor a) s (none, t) q e d =
      inr (a, q, accept_handle-Refuses a ev s (ap (λ r. r.0) e))
  delete_failed-After p ev (connection c) s (none, t) q e d = inl (
    _,
    refl,
    record {
      serving = record {
        works = λ q c e. elim (update_cases t.objects p q none _ e) [
          | inl (_, z) ↦ absurd (cc z)
          | inr (ne, z) ↦ d.others q c ne z
        ];
        unused = λ q le. ground (arith, d.unused q le);
      };
      live = λ q ne e. ground (arith, d.live q e);
    },
  )
  delete_failed-After p ev h s (some n, t) q e d = inl (
    t,
    refl,
    record {
      serving = record {
        works = λ q c e. elim (ℕ_discrete p q) [
          | yes same ↦ d.own n c refl (rw (← same) at e)
          | no ne ↦ d.others q c ne e
        ];
        unused = d.unused;
      };
      live = λ q ne e. d.live q e;
    },
  )

  on_event-After :
      (p ev : ℕ) (s : Server World)
      → IsServing s
      → is_live (s.objects p) ≡ true
      → After p ev s (on_event K fresh (p, ev) s)
  unfolding on_event
  on_event-After p ev s v l = go (s.objects p) refl l
    where
      handled :
          (h : Handler)
          → s.objects p ≡ some h
          → on_event K fresh (p, ev) s ≡ delete_failed K fresh p h (handle_object K fresh p h ev s)
      handled h q = rw (q, on_event) refl

      go :
          (o : Option Handler)
          → s.objects p ≡ o
          → is_live o ≡ true
          → After p ev s (on_event K fresh (p, ev) s)
      go none q l' = absurd (cc l')
      go (some h) q l' = subst (After p ev s) (sym (handled h q)) (
          delete_failed-After p ev h s (handle_object K fresh p h ev s) q refl
            (handle_object-Handled p ev h s q v))

  AllLive-Survives :
      (p : ℕ) (s t : Server World) (es : List (ℕ × ℕ))
      → Survives p s.objects t
      → Absent p es
      → AllLive s es
      → AllLive t es
  AllLive-Survives p s t [] v a l = tt
  AllLive-Survives p s t ((q, ev) ∷ es) v a l =
      (v.live q a.0 l.0, AllLive-Survives p s t es v a.1 l.1)

  -- A batch that ends with the deletion of the acceptor: it is handled up to an event at which the
  -- acceptor's `handle` returns -1.
  pub record Stops (es : List (ℕ × ℕ)) (s : Server World) : Type 0 where
    pub before : List (ℕ × ℕ)
    pub after : List (ℕ × ℕ)
    pub pointer : ℕ
    pub events : ℕ
    pub split : es ≡ before ++ (pointer, events) ∷ after
    pub server : Server World
    pub ran : on_events K fresh before s ≡ some server
    pub serving : IsServing server
    pub listener : Acceptor
    pub found : server.objects pointer ≡ some (acceptor listener)
    pub refuses : Refuses listener events server.world

  -- A batch of events whose pointers are different and all point to objects is handled to its end,
  -- without a call through a pointer to a deleted object, or up to an event at which the acceptor's
  -- `handle` returns -1, as `accept4` fails or the event is not just EPOLLIN, so that the acceptor is
  -- deleted. Up to there, and at the end, every connection is again an echo, whose `enable_epollout` is
  -- on exactly if it has bytes to send; EPOLLOUT is then registered exactly if it is on, unless the
  -- last control call of the connection failed.
  pub on_events-IsServing :
      (es : List (ℕ × ℕ)) (s : Server World)
      → IsServing s
      → Distinct es
      → AllLive s es
      → ((t : Server World) × (on_events K fresh es s ≡ some t) × IsServing t) ⊎ Stops es s
  unfolding on_events
  on_events-IsServing [] s v d l = inl (s, refl, v)
  on_events-IsServing ((p, ev) ∷ es) s v d l = elim (on_event-After p ev s v l.0) [
    | inr (a, q, r) ↦ inr (record {
      before = [];
      after = es;
      pointer = p;
      events = ev;
      split = refl;
      server = s;
      ran = refl;
      serving = v;
      listener = a;
      found = q;
      refuses = r;
    })
    | inl (t, e, k) ↦
        elim (on_events-IsServing es t k.serving d.1 (AllLive-Survives p s t es k d.0 l.1)) [
          | inl (u, f, w) ↦ inl (u, rw (e, on_events) f, w)
          | inr z ↦ inr (record {
            before = (p, ev) ∷ z.before;
            after = z.after;
            pointer = z.pointer;
            events = z.events;
            split = ap (λ l. (p, ev) ∷ l) z.split;
            server = z.server;
            ran = rw (e, on_events) z.ran;
            serving = z.serving;
            listener = z.listener;
            found = z.found;
            refuses = z.refuses;
          })
        ]
  ]
