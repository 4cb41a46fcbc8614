-- ===== src/Poller/Sweep/Objects.antt =====
-- The connections on the heap of server_poll_handle.cpp, and one entry of the table.
use linux_programming.Prelude.{
  ℕ, zero, suc, ◌≤◌, ◌<◌, ◌≡◌, ◌≢◌, refl, sym, ◌∙◌, ap, Bool, true, false, Option, none, some, List,
  [], ◌∷◌, arith, drop, get_or, bit_and, ◌==◌, if_lem, update, ℕ_discrete,
}
use mathlib.Core.Path.{subst}
use linux_programming.Kernel.{Reply, ret, again, fail, Kernel}
use linux_programming.Poller.{Poller, max_fds, num, Outcome, done, refused, overflow, is_fd, add_fd}
use linux_programming.Poller.Table.{count, Adds, Removes, add_fd-Adds, remove_fd-Removes}
use linux_programming.Poller.Slots.{IsValid, Adds-IsValid, Removes-IsValid}
use linux_programming.Poller.Sweep.{
  Session, Server, Pass, swept, overflown, wild, endless, pollin, nothing, sent, send_back, echo,
  handle, destroy, finish, call_handler, dispatch, entered, accepted,
}
use linux_programming.Poller.Sweep.Entries.{
  AllReady, count-held, remove_fd-AllReady, add_fd-AllReady,
}

-- The object of a descriptor in the table.
abbrev pub IsReached : Poller → (ℕ → Option Session) → ℕ → Type 0
IsReached p objects fd =
    (a : ℕ) × (c : Session) × (p.handlers fd ≡ some a) × (objects a ≡ some c) × (c.fd ≡ fd)

-- The table is valid; the listening descriptor is in it and has no handler, and every other descriptor
-- in it has one, which is a connection on the heap with this descriptor.
pub record IsServing (listen_fd : ℕ) (p : Poller) (objects : ℕ → Option Session) (next : ℕ)
    : Type 0 where
  pub table : IsValid p
  pub listens : 0 < count listen_fd p.pfds
  pub no_handler : p.handlers listen_fd ≡ none
  pub reached : (fd : ℕ) → 0 < count fd p.pfds → fd ≢ listen_fd → IsReached p objects fd
  pub fresh : (a : ℕ) → next ≤ a → objects a ≡ none

abbrev pub Serves : {W : Type 0} → ℕ → Server W → Type 0
Serves listen_fd s = IsServing listen_fd s.poller s.objects s.next

-- How the visit of an entry may end: with a serving server and the entries from `i` on still to
-- visit, or where the table is full.
abbrev pub Visits : {W : Type 0} → Type 0 → (listen_fd i : ℕ) → Pass W → Type 0
Visits P listen_fd i (swept t) = Serves listen_fd t × AllReady P listen_fd (drop i t.poller.pfds)
Visits P listen_fd i (overflown t) = Serves listen_fd t × (num t.poller ≡ max_fds)
Visits P listen_fd i wild = P
Visits P listen_fd i endless = ⊥

-- An object that is not the one at `a` is where it was.
objects-other :
    (objects : ℕ → Option Session) (a b : ℕ) (o : Option Session)
    → a ≢ b
    → update objects a o b ≡ objects b
objects-other objects a b o ne = ground arith

objects-own : (objects : ℕ → Option Session) (a : ℕ) (o : Option Session) → update objects a o a ≡ o
objects-own objects a o = ground arith

some_session : {c d : Session} → ◌≡◌ {A = Option Session} (some c) (some d) → c ≡ d
some_session e = cc

-- Two descriptors have two objects.
apart :
    (objects : ℕ → Option Session) (a b fd k : ℕ) (c d : Session)
    → objects a ≡ some c
    → objects b ≡ some d
    → c.fd ≡ fd
    → d.fd ≡ k
    → k ≢ fd
    → a ≢ b
apart objects a b fd k c d e f own own' ne same =
    let z : c ≡ d = some_session (sym e ∙ ap objects same ∙ f) in
    ne (sym own' ∙ ap (λ (x : Session). x.fd) (sym z) ∙ own)

moved :
    (p q : Poller) (objects : ℕ → Option Session) (a k : ℕ) (o : Option Session)
    → q.handlers k ≡ p.handlers k
    → ((b : ℕ) → (c : Session) → objects b ≡ some c → c.fd ≡ k → a ≢ b)
    → IsReached p objects k
    → IsReached q (update objects a o) k
moved p q objects a k o same ne (b, c, h, e, own) =
    (b, c, same ∙ h, objects-other objects a b o (ne b c e own) ∙ e, own)

-- A new object at `next`.
not_next :
    (objects : ℕ → Option Session) (next : ℕ)
    → ((a : ℕ) → next ≤ a → objects a ≡ none)
    → (b : ℕ) (c : Session) → objects b ≡ some c
    → next ≢ b
not_next objects next fresh b c e same =
    let z : objects b ≡ none = fresh b (omega (arith, same)) in absurd (cc (sym z ∙ e))

module _ (K : Kernel) (P : Type 0) (listen_fd : ℕ) where
  open K use {World, send, recv, accept4, close}

  entered-Visits :
      (fd i : ℕ) (o : Outcome) (q : Poller) (s : Server World)
      → Adds fd (some s.next) s.poller (o, q)
      → AllReady P listen_fd (drop i s.poller.pfds)
      → AllReady P listen_fd (drop i q.pfds)
      → Serves listen_fd s
      → Visits P listen_fd i (entered K fd (o, q) s)
  unfolding entered
  entered-Visits fd i done q s a u w v =
      let (range, room, add) = a in
      (
        record {
          table = Adds-IsValid fd (some s.next) s.poller q done a room v.table;
          listens = omega (arith, (add.others listen_fd (other_fd add.absent)).0, v.listens);
          no_handler = (add.others listen_fd (other_fd add.absent)).1 ∙ v.no_handler;
          reached = λ k h ne. elim (ℕ_discrete k fd) [
            | yes e ↦
                subst
                  (IsReached q
                    (update s.objects s.next (some (record { fd = fd; rx = []; tx = [] }))))
                  (sym e)
                  (
                    s.next,
                    record { fd = fd; rx = []; tx = [] },
                    add.own,
                    objects-own s.objects s.next _,
                    refl,
                  )
            | no other ↦
                moved s.poller q s.objects s.next k _ (add.others k other).1
                  (λ b c e own. not_next s.objects s.next v.fresh b c e)
                  (v.reached k (omega (arith, (add.others k other).0, h)) ne)
          ];
          fresh = λ b l.
              objects-other s.objects s.next b _ (omega (arith, l)) ∙ v.fresh b (omega (arith, l));
        },
        w,
      )
    where
      other_fd : count fd s.poller.pfds ≡ 0 → listen_fd ≢ fd
      other_fd z same = omega (arith, v.listens, z, ap (λ k. count k s.poller.pfds) same)
  entered-Visits fd i refused q s a u w v = (
    record {
      table = v.table;
      listens = v.listens;
      no_handler = v.no_handler;
      reached = λ k h ne.
          moved s.poller s.poller s.objects s.next k _ refl
            (λ b c e own. not_next s.objects s.next v.fresh b c e) (v.reached k h ne);
      fresh = λ b l.
          objects-other s.objects s.next b _ (omega (arith, l)) ∙ v.fresh b (omega (arith, l));
    },
    u,
  )
  entered-Visits fd i overflow q s a u w v = (v, omega (arith, a.0, v.table.bounded))

  pub accepted-Visits :
      (i : ℕ) (r : Option ℕ) (s : Server World)
      → i < num s.poller
      → AllReady P listen_fd (drop (suc i) s.poller.pfds)
      → Serves listen_fd s
      → Visits P listen_fd (suc i) (accepted K r s)
  unfolding accepted
  accepted-Visits i none s l u v = (v, u)
  accepted-Visits i (some fd) s l u v =
      let r = add_fd fd pollin (some s.next) s.poller in
      entered-Visits fd (suc i) r.0 r.1 s (add_fd-Adds fd pollin (some s.next) s.poller) u
        (add_fd-AllReady P listen_fd fd pollin i (some s.next) s.poller l u) v

  -- A connection keeps its descriptor.
  sent-fd : (bs : List ℕ) (r : Reply ℕ) (c : Session) → (sent K bs r c).1.fd ≡ c.fd
  unfolding sent
  sent-fd bs (ret zero) c = refl
  sent-fd bs (ret (suc n)) c = refl
  sent-fd bs again c = refl
  sent-fd bs fail c = refl

  send_back-fd :
      (r : Reply (List ℕ)) (c : Session) (w : World)
      → let (ok, d, w') = send_back K r c w in d.fd ≡ c.fd
  unfolding send_back
  send_back-fd (ret []) c w = refl
  send_back-fd (ret (b ∷ bs)) c w = sent-fd (b ∷ bs) ((send c.fd (b ∷ bs) w).0) _
  send_back-fd again c w = refl
  send_back-fd fail c w = refl

  handle-fd :
      (events : ℕ) (c : Session) (w : World) → let (ok, d, w') = handle K events c w in d.fd ≡ c.fd
  unfolding handle echo
  handle-fd events c w =
      if_lem (λ (r : Bool × Session × World). let (ok, d, w') = r in d.fd ≡ c.fd)
        (bit_and events pollin == 0) (false, c, w) _ (λ e. refl)
        (λ e. send_back-fd ((recv c.fd 4096 w).0) c ((recv c.fd 4096 w).1))

  -- The object at `a` is deleted with its entry.
  destroyed :
      (fd a : ℕ) (c : Session) (q : Poller) (o : Outcome) (s : Server World)
      → Removes fd s.poller (o, q)
      → 0 < count fd s.poller.pfds
      → s.objects a ≡ some c
      → c.fd ≡ fd
      → fd ≢ listen_fd
      → Serves listen_fd s
      → IsServing listen_fd q (update s.objects a none) s.next
  destroyed fd a c q done s r present e own far v = record {
    table = Removes-IsValid fd s.poller q done r v.table;
    listens = omega (arith, (r.others listen_fd (λ z. far (sym z))).0, v.listens);
    no_handler = (r.others listen_fd (λ z. far (sym z))).1 ∙ v.no_handler;
    reached = λ k h ne. elim (ℕ_discrete k fd) [
      | yes z ↦ absurd (omega (arith, r.fewer, v.table.once fd, h, ap (λ x. count x q.pfds) z))
      | no other ↦
          moved s.poller q s.objects a k none (r.others k other).1
            (λ b d f own'. apart s.objects a b fd k c d e f own own' other)
            (v.reached k (omega (arith, (r.others k other).0, h)) ne)
    ];
    fresh = λ b l. elim (ℕ_discrete a b) [
      | yes z ↦ rw z (objects-own s.objects b none)
      | no other ↦ objects-other s.objects a b none other ∙ v.fresh b l
    ];
  }
  destroyed fd a c q refused s r present e own far v = absurd (omega (arith, r.1, present))
  destroyed fd a c q overflow s r present e own far v = absurd r

  finish-Visits :
      (i fd a : ℕ) (c d : Session) (ok : Bool) (w : World) (s : Server World)
      → is_fd fd (get_or s.poller.pfds i nothing).fd ≡ true
      → s.poller.handlers fd ≡ some a
      → s.objects a ≡ some c
      → c.fd ≡ fd
      → d.fd ≡ fd
      → fd ≢ listen_fd
      → AllReady P listen_fd (drop (suc i) s.poller.pfds)
      → Serves listen_fd s
      → Visits P listen_fd (suc i) (swept (finish K a (ok, d, w) s))
  unfolding finish destroy
  finish-Visits i fd a c d true w s held at e own own' far u v = (
    record {
      table = v.table;
      listens = v.listens;
      no_handler = v.no_handler;
      reached = λ k h ne. elim (ℕ_discrete k fd) [
        | yes z ↦
            subst (IsReached s.poller (update s.objects a (some d))) (sym z)
              (a, d, at, objects-own s.objects a (some d), own')
        | no other ↦
            moved s.poller s.poller s.objects a k (some d) refl
              (λ b x f own''. apart s.objects a b fd k c x e f own own'' other) (v.reached k h ne)
      ];
      fresh = λ b l. elim (ℕ_discrete a b) [
        | yes z ↦
            let gone : s.objects a ≡ none = v.fresh a (omega (arith, z, l)) in
            absurd (cc (sym gone ∙ e))
        | no other ↦ objects-other s.objects a b (some d) other ∙ v.fresh b l
      ];
    },
    u,
  )
  finish-Visits i fd a c d false w s held at e own own' far u v = rw own' (
    destroyed fd a c _ _ s (remove_fd-Removes fd s.poller) (count-held fd i s.poller.pfds held) e
        own far v,
    remove_fd-AllReady P listen_fd fd i s.poller held u,
  )

  pub dispatch-Visits :
      (i fd events : ℕ) (s : Server World)
      → is_fd fd (get_or s.poller.pfds i nothing).fd ≡ true
      → fd ≢ listen_fd
      → AllReady P listen_fd (drop (suc i) s.poller.pfds)
      → Serves listen_fd s
      → Visits P listen_fd (suc i) (dispatch K (some fd) events s)
  unfolding dispatch call_handler
  dispatch-Visits i fd events s held ne u v =
      let (a, c, at, e, own) = v.reached fd (count-held fd i s.poller.pfds held) ne in
      let (ok, d, w) = handle K events c s.world in
      rw (at, dispatch, e, call_handler)
        (finish-Visits i fd a c d ok w s held at e own (handle-fd events c s.world ∙ own) ne u v)

  -- The listening descriptor has no handler to call.
  pub listener-Visits :
      (i events : ℕ) (s : Server World)
      → P
      → Serves listen_fd s
      → Visits P listen_fd i (dispatch K (some listen_fd) events s)
  unfolding dispatch call_handler
  listener-Visits i events s why v = rw (v.no_handler, dispatch, call_handler) why
