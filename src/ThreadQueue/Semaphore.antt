-- ===== src/ThreadQueue/Semaphore.antt =====
-- pthread/blocking_queue/blocking_queue_semaphore.h: `not_empty` is a semaphore.
use linux_programming.Prelude.{
  ℕ, ◌+◌, ◌-◌, ◌*◌, ◌≤◌, ◌<◌, ◌≡◌, ◌≢◌, ◌⊎◌, refl, sym, ap, ◌∙◌, List, [], ◌∷◌, inl, inr, arith,
  length, eq_nil, length-append, get_or, dec_lt,
}
use linux_programming.Threads.{total, others, split-total, total-le, one-le-total}
use linux_programming.ThreadQueue.{
  Item, Shared, item_of, push, pop, Pc, consuming, take_locked, ended, Call, no_call, enter, tell,
  Move, put_lock, put_push, put_unlock, put_tell, take_enter, take_lock, take_pop, take_unlock,
  take_again, take_end, Signal, System, pick, Step, advance, spurious, Reach, here, next, start,
}
use linux_programming.ThreadQueue.Counts.{locks, nulls}
use linux_programming.ThreadQueue.Bound.{adds, takes, advances, wakes, Costs, advances_le}
use linux_programming.ThreadQueue.Finish.{
  Follows, wants, IsDone, start-Follows, total-start, Move-Follows, rest_counts,
}
use linux_programming.ThreadQueue.Progress.{
  helps, sleeps, helps-wants, outside, rest_active, found_outside, Goes, Goes-at, Goes-or_IsDone,
}

-- sem_post adds one to the semaphore, sem_wait takes one away and waits while it is 0. `take` has no
-- pthread_cond_wait here.
pub data Passes (s : ℕ) : Call → ℕ → Type 0 where
  pass : Passes s no_call s
  wait_one : 0 < s → Passes s enter (s - 1)
  post_one : Passes s tell (s + 1)

pub data Spurious (s : ℕ) : Call → ℕ → Type 0 where

abbrev pub semaphore : Signal
semaphore = record { State = ℕ; fresh = 0; Passes = Passes; Spurious = Spurious }

-- The items in the queue are those that the semaphore counts, those that no `put` has posted yet, and
-- those that a `take` has waited for; nobody sleeps.
abbrev Covers : ℕ → List Item → ℕ → ℕ → Type 0
Covers w l h sl = (length l ≡ w + h) × (sl ≡ 0)

Move-Covers :
    {m : ℕ} {q r : Shared} {a b : Pc} {c : Call} {w x : ℕ} (h sl : ℕ)
    → Passes w c x
    → Move m q a c r b
    → Covers w q.queue (h + helps a) (sl + sleeps a)
    → Covers x r.queue (h + helps b) (sl + sleeps b)
unfolding push pop
Move-Covers h sl pass (put_lock z f) v = omega arith
Move-Covers {m} {q} h sl pass (put_push {id} {i}) v =
    omega (arith, length-append q.queue (item_of m id i ∷ []))
Move-Covers h sl pass put_unlock v = omega arith
Move-Covers h sl post_one put_tell v = omega arith
Move-Covers h sl (wait_one g) take_enter v = omega arith
Move-Covers h sl pass (take_lock f) v = omega arith
Move-Covers {q = q} h sl pass (take_pop {x} {rest} e) v =
    let long : length q.queue ≡ length rest + 1 = ap length e ∙ omega arith in omega (arith, long)
Move-Covers h sl pass take_unlock v = omega arith
Move-Covers h sl pass take_again v = omega arith
Move-Covers h sl pass take_end v = omega arith

record IsSafe (m n : ℕ) (s : System semaphore) : Type 0 where
  follows : Follows m n s.shared s.pcs
  covered : Covers s.signal s.shared.queue (total helps s.pcs) (total sleeps s.pcs)

Step-IsSafe :
    {m n : ℕ} {s t : System semaphore} → Step semaphore m s t → IsSafe m n s → IsSafe m n t
Step-IsSafe {m} {n} {s} (advance (pick i {q} {c} {n = x} {b} h mv p)) v = record {
  follows = Move-Follows s.pcs i h mv v.follows;
  covered =
      let (l, l') = split-total helps ended s.pcs i b refl h in
      let (e, e') = split-total sleeps ended s.pcs i b refl h in
      rw (l', e')
        (Move-Covers (others helps ended s.pcs i) (others sleeps ended s.pcs i) p mv
          (rw (l, e) at v.covered));
}
Step-IsSafe {m} {n} {s} (spurious i h mv p) v = absurd (never p)
  where
    never : {w x : ℕ} {c : Call} → Spurious w c x → ⊥
    never p = elim p [ ]

start-IsSafe : (m n : ℕ) → IsSafe m n (start semaphore n)
unfolding start
start-IsSafe m n = record {
  follows = start-Follows semaphore m n;
  covered = (
    omega (arith, total-start helps 0 (λ id. refl) semaphore n),
    omega (arith, total-start sleeps 0 (λ id. refl) semaphore n),
  );
}

Reach-IsSafe :
    {m n : ℕ} {s t : System semaphore} → IsSafe m n s → Reach semaphore m s t → IsSafe m n t
Reach-IsSafe v here = v
Reach-IsSafe v (next r st) = Step-IsSafe st (Reach-IsSafe v r)

-- `take` calls front and pop on a queue that holds an item: it does not test for one.
pub take_finds_item :
    (m n : ℕ) {s : System semaphore}
    → Reach semaphore m (start semaphore n) s
    → (i : ℕ) → i < length s.pcs
    → get_or s.pcs i ended ≡ take_locked
    → s.shared.queue ≢ []
take_finds_item m n {s} r i h e gone =
    let (items, asleep) = (Reach-IsSafe (start-IsSafe m n) r).covered in
    absurd
      (omega (arith, items, ap length gone, one-le-total helps ended s.pcs i refl h, ap helps e))

-- Whatever the threads have done so far, one of them can make a step, or they are all done.
pub semaphore-Goes_or_IsDone :
    (m n : ℕ) {s : System semaphore}
    → Reach semaphore m (start semaphore n) s
    → Goes semaphore m s ⊎ IsDone m n s.shared s.pcs
unfolding nulls
semaphore-Goes_or_IsDone m n {s} r =
    let v = Reach-IsSafe (start-IsSafe m n) r in
    let (items, asleep) = v.covered in
    Goes-or_IsDone semaphore m s pass v.follows (λ i h e g. absurd (take_finds_item m n r i h e g))
      (_, post_one)
      (λ l w. elim (dec_lt 0 (total outside s.pcs)) [
        | no nz ↦ inr (omega (arith, nz, asleep, rest_active m s.pcs l w))
        | yes z ↦ elim (dec_lt 0 s.signal) [
          | yes g ↦
              let (i, h, e) = found_outside s.pcs z in
              inl (Goes-at semaphore m s i consuming h e take_enter (wait_one g))
          | no ng ↦
              let no_help = total-le helps locks (wants m) s.pcs (helps-wants m) in
              let gone = eq_nil s.shared.queue (omega (arith, items, ng, l, w, no_help)) in
              inr (sym (rest_counts v.follows l w) ∙ ap nulls gone)
        ]
      ])

semaphore-Costs : Costs semaphore
semaphore-Costs = record { cost = λ w. 0; free = refl; passes = paid; spuriously = λ p. elim p [ ] }
  where
    paid : {w x : ℕ} {c : Call} → Passes w c x → 0 + takes c ≤ 0 + adds c
    paid pass = omega arith
    paid (wait_one g) = omega arith
    paid post_one = omega arith

no_wakes : {m : ℕ} {s t : System semaphore} (r : Reach semaphore m s t) → wakes r ≡ 0
unfolding wakes
no_wakes here = refl
no_wakes (next r (advance a)) = no_wakes r
no_wakes (next r (spurious i h mv p)) = elim p [ ]

-- However the threads take turns, their steps come to an end: `n` producers and `n` consumers make no
-- more steps than this.
pub semaphore_steps_le :
    (m n : ℕ) {s : System semaphore} (r : Reach semaphore m (start semaphore n) s)
    → advances r ≤ n * (12 * (m + 1)) + n * 4
semaphore_steps_le m n r =
    let none_for_nothing = no_wakes r in
    omega (arith, none_for_nothing, advances_le semaphore semaphore-Costs m n r)
