-- ===== src/Poller/Slots.antt =====
-- class Poller under sequences of calls.
use linux_programming.Prelude.{
  ℕ, zero, suc, ◌+◌, ◌≤◌, ◌<◌, ◌≡◌, refl, ◌∙◌, ap, Option, none, some, List, [], ◌∷◌, arith,
  ℕ_discrete,
}
use linux_programming.Poller.{
  Poller, max_fds, fd_range, num, new_poller, Outcome, done, refused, overflow, add_fd, remove_fd,
  Call, add, remove, go_on, call, calls,
}
use linux_programming.Poller.Table.{
  count, Added, Removed, Adds, Removes, add_fd-Adds, remove_fd-Removes,
}

pub record IsValid (p : Poller) : Type 0 where
  pub once : (fd : ℕ) → count fd p.pfds ≤ 1
  pub in_range : (fd : ℕ) → 0 < count fd p.pfds → fd < fd_range
  pub no_stale : (fd : ℕ) → count fd p.pfds ≡ 0 → p.handlers fd ≡ none
  pub bounded : num p ≤ max_fds

pub Adds-IsValid :
    (fd : ℕ) (handler : Option ℕ) (p q : Poller) (o : Outcome)
    → Adds fd handler p (o, q)
    → num p < max_fds
    → IsValid p
    → IsValid q
Adds-IsValid fd handler p q done (r, m, a) f v = record {
  once = λ k. elim (ℕ_discrete k fd) [
    | yes e ↦ rw e (omega (arith, a.one))
    | no ne ↦ omega (arith, (a.others k ne).0, v.once k)
  ];
  in_range = λ k h. elim (ℕ_discrete k fd) [
    | yes e ↦ omega arith
    | no ne ↦ v.in_range k (omega (arith, (a.others k ne).0, h))
  ];
  no_stale = λ k z. elim (ℕ_discrete k fd) [
    | yes e ↦ absurd (omega (arith, a.one, z, ap (λ x. count x q.pfds) e))
    | no ne ↦ (a.others k ne).1 ∙ v.no_stale k (omega (arith, (a.others k ne).0, z))
  ];
  bounded = omega (arith, a.longer, m);
}
Adds-IsValid fd handler p q refused (e, h) f v = rw e v
Adds-IsValid fd handler p q overflow h f v = absurd (omega arith)

pub Removes-IsValid :
    (fd : ℕ) (p q : Poller) (o : Outcome) → Removes fd p (o, q) → IsValid p → IsValid q
Removes-IsValid fd p q done r v = record {
  once = λ k. elim (ℕ_discrete k fd) [
    | yes e ↦ rw e (omega (arith, r.fewer, v.once fd))
    | no ne ↦ omega (arith, (r.others k ne).0, v.once k)
  ];
  in_range = λ k h. elim (ℕ_discrete k fd) [
    | yes e ↦ rw e (v.in_range fd r.present)
    | no ne ↦ v.in_range k (omega (arith, (r.others k ne).0, h))
  ];
  no_stale = λ k z. elim (ℕ_discrete k fd) [
    | yes e ↦ rw e r.own
    | no ne ↦ (r.others k ne).1 ∙ v.no_stale k (omega (arith, (r.others k ne).0, z))
  ];
  bounded = omega (arith, r.same_num, v.bounded);
}
Removes-IsValid fd p q refused (e, h) v = rw e v
Removes-IsValid fd p q overflow h v = absurd h

-- The calls of `add_fd` in a row of calls.
unfoldable pub adds : List Call → ℕ
adds [] = 0
adds (add fd events handler ∷ cs) = adds cs + 1
adds (remove fd ∷ cs) = adds cs

Goes : (Poller → Option Poller) → Poller → ℕ → Outcome × Poller → Type 0
Goes k p n r =
    ((q : Poller) → IsValid q → num q ≤ n → (u : Poller) × (k q ≡ some u) × IsValid u)
    → (u : Poller) × (go_on k r ≡ some u) × IsValid u

add-Goes :
    (k : Poller → Option Poller) (fd : ℕ) (handler : Option ℕ) (p : Poller) (o : Outcome)
    (q : Poller)
    → Adds fd handler p (o, q)
    → num p < max_fds
    → IsValid p
    → Goes k p (num p + 1) (o, q)
unfolding Goes go_on
add-Goes k fd handler p done q a l v f =
    f q (Adds-IsValid fd handler p q done a l v) (omega (arith, a.2.longer))
add-Goes k fd handler p refused q a l v f =
    f q (Adds-IsValid fd handler p q refused a l v) (omega (arith, ap num a.0))
add-Goes k fd handler p overflow q a l v f = absurd (omega arith)

remove-Goes :
    (k : Poller → Option Poller) (fd : ℕ) (p : Poller) (o : Outcome) (q : Poller)
    → Removes fd p (o, q)
    → IsValid p
    → Goes k p (num p) (o, q)
unfolding Goes go_on
remove-Goes k fd p done q a v f = f q (Removes-IsValid fd p q done a v) (omega (arith, a.same_num))
remove-Goes k fd p refused q a v f =
    f q (Removes-IsValid fd p q refused a v) (omega (arith, ap num a.0))
remove-Goes k fd p overflow q a v f = absurd a

-- Calls in a row, from a valid table with room for every `add_fd` among them, never write out of the
-- array and leave a valid table: every descriptor in it is in range and in one entry, and one that is
-- not in it has no handler.
pub calls-IsValid :
    (cs : List Call) (p : Poller)
    → IsValid p
    → num p + adds cs ≤ max_fds
    → (q : Poller) × (calls cs p ≡ some q) × IsValid q
unfolding calls call adds Goes
calls-IsValid [] p v h = (p, refl, v)
calls-IsValid (add fd events handler ∷ cs) p v h =
    add-Goes (calls cs) fd handler p _ _ (add_fd-Adds fd events handler p) (omega arith) v
      (λ q w l. calls-IsValid cs q w (omega arith))
calls-IsValid (remove fd ∷ cs) p v h =
    remove-Goes (calls cs) fd p _ _ (remove_fd-Removes fd p) v
      (λ q w l. calls-IsValid cs q w (omega arith))

pub new_poller-IsValid : IsValid new_poller
unfolding count
new_poller-IsValid = record {
  once = λ fd. omega arith;
  in_range = λ fd h. absurd (omega arith);
  no_stale = λ fd z. refl;
  bounded = omega arith;
}

-- A descriptor that comes and goes `n` times.
pub churn : ℕ → ℕ → List Call
churn fd zero = []
churn fd (suc n) = add fd 1 none ∷ remove fd ∷ churn fd n

must_add :
    (k : Poller → Option Poller) (fd : ℕ) (handler : Option ℕ) (p : Poller) (o : Outcome)
    (q : Poller)
    → Adds fd handler p (o, q)
    → fd < fd_range
    → count fd p.pfds ≡ 0
    → num p < max_fds
    → Added fd handler p q × (go_on k (o, q) ≡ k q)
unfolding go_on
must_add k fd handler p done q a r z m = (a.2, refl)
must_add k fd handler p refused q a r z m = absurd (omega arith)
must_add k fd handler p overflow q a r z m = absurd (omega arith)

must_remove :
    (k : Poller → Option Poller) (fd : ℕ) (p : Poller) (o : Outcome) (q : Poller)
    → Removes fd p (o, q)
    → 0 < count fd p.pfds
    → Removed fd p q × (go_on k (o, q) ≡ k q)
unfolding go_on
must_remove k fd p done q a h = (a, refl)
must_remove k fd p refused q a h = absurd (omega arith)
must_remove k fd p overflow q a h = absurd a

must_overflow :
    (fd : ℕ) (handler : Option ℕ) (p : Poller) (o : Outcome) (q : Poller)
    → Adds fd handler p (o, q)
    → fd < fd_range
    → count fd p.pfds ≡ 0
    → num p ≡ max_fds
    → o ≡ overflow
must_overflow fd handler p done q a r z m = absurd (omega arith)
must_overflow fd handler p refused q a r z m = absurd (omega arith)
must_overflow fd handler p overflow q a r z m = refl

churn-uses :
    (fd n : ℕ) (p : Poller)
    → fd < fd_range
    → count fd p.pfds ≡ 0
    → num p + n ≤ max_fds
    → (q : Poller) × (calls (churn fd n) p ≡ some q)
      × (num q ≡ num p + n)
      × ((k : ℕ) → count k q.pfds ≡ count k p.pfds)
unfolding churn calls call
churn-uses fd zero p r z h = (p, refl, omega arith, λ k. refl)
churn-uses fd (suc n) p r z h =
    let p' = (add_fd fd 1 none p).1 in
    let (a, e) =
      must_add (calls (remove fd ∷ churn fd n)) fd none p _ _ (add_fd-Adds fd 1 none p) r z
        (omega arith) in
    let p'' = (remove_fd fd p').1 in
    let (b, e') =
      must_remove (calls (churn fd n)) fd p' _ _ (remove_fd-Removes fd p') (omega (arith, a.one)) in
    let same : (k : ℕ) → count k p''.pfds ≡ count k p.pfds = λ k. elim (ℕ_discrete k fd) [
      | yes i ↦ rw i (omega (arith, a.one, b.fewer, z))
      | no ne ↦ (b.others k ne).0 ∙ (a.others k ne).0
    ] in
    let (q, done_all, l, s) =
      churn-uses fd n p'' r (same fd ∙ z) (omega (arith, a.longer, b.same_num, h)) in
    (q, e ∙ e' ∙ done_all, omega (arith, l, a.longer, b.same_num), λ k. s k ∙ same k)

-- Entries are never used again: after `max_fds` rounds of `add_fd` and `remove_fd` of one descriptor
-- the table of a new Poller holds no descriptor, and yet the next `add_fd` of any descriptor that is
-- in range writes behind the end of the array.
pub churn-overflow :
    (fd : ℕ)
    → fd < fd_range
    → (q : Poller) × (calls (churn fd max_fds) new_poller ≡ some q)
      × ((k : ℕ) → count k q.pfds ≡ 0)
      × ((k events : ℕ) (handler : Option ℕ)
          → k < fd_range
          → (add_fd k events handler q).0 ≡ overflow)
unfolding count
churn-overflow fd r =
    let (q, e, l, s) = churn-uses fd max_fds new_poller r refl (omega arith) in
    (
      q,
      e,
      s,
      λ k events handler h.
          must_overflow k handler q _ _ (add_fd-Adds k events handler q) h (s k) (omega (arith, l)),
    )
