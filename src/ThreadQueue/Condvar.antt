-- ===== src/ThreadQueue/Condvar.antt =====
-- pthread/blocking_queue/blocking_queue_condvar.h: `not_empty` is a condition variable.
use linux_programming.Prelude.{
  ℕ, ◌+◌, ◌-◌, ◌*◌, ◌≤◌, ◌<◌, ◌≡◌, ◌⊎◌, refl, sym, ap, ◌∙◌, List, [], ◌∷◌, inl, inr, arith, length,
  eq_nil, length-append, get_or, set, dec_lt,
}
use linux_programming.Threads.{total, others, split-total, total-le}
use linux_programming.ThreadQueue.{
  Item, Shared, item_of, push, pop, Pc, consuming, take_sleeping, ended, Call, no_call, enter,
  sleep, wake, tell, Move, put_lock, put_push, put_unlock, put_tell, take_enter, take_lock,
  take_sleep, take_wake, take_pop, take_unlock, take_again, take_end, Signal, System, pick, Step,
  advance, spurious, Reach, here, next, start,
}
use linux_programming.ThreadQueue.Counts.{locks, nulls, active}
use linux_programming.ThreadQueue.Bound.{adds, takes, advances, wakes, Costs, advances_le}
use linux_programming.ThreadQueue.Finish.{
  Follows, wants, IsDone, start-Follows, total-start, Move-Follows, rest_counts,
}
use linux_programming.ThreadQueue.Progress.{
  helps, sleeps, helps-wants, outside, rest_active, found_outside, found_asleep, Goes, Goes-at,
  Goes-or_IsDone,
}

-- The threads in pthread_cond_wait, and how many of them a signal has freed.
pub record Waits : Type 0 where
  pub waiters : ℕ
  pub wakeups : ℕ

-- pthread_cond_signal frees one waiting thread, if there is one that is not freed yet.
pub data Passes (s : Waits) : Call → Waits → Type 0 where
  pass : Passes s no_call s
  no_wait : Passes s enter s
  begin_wait : Passes s sleep (record s { waiters = s.waiters + 1 })
  end_wait :
      0 < s.wakeups → Passes s wake (record s { waiters = s.waiters - 1; wakeups = s.wakeups - 1 })
  signal_one : s.wakeups < s.waiters → Passes s tell (record s { wakeups = s.wakeups + 1 })
  signal_none : s.waiters ≤ s.wakeups → Passes s tell s

-- pthread_cond_wait may return without a signal.
pub data Spurious (s : Waits) : Call → Waits → Type 0 where
  no_signal : s.wakeups < s.waiters → Spurious s wake (record s { waiters = s.waiters - 1 })

abbrev pub condvar : Signal
condvar = record {
  State = Waits;
  fresh = record { waiters = 0; wakeups = 0 };
  Passes = Passes;
  Spurious = Spurious;
}

-- No wakeup is lost: when a thread sleeps that no signal has freed, there is for every item in the queue
-- a freed thread, a thread in `put` that pushed, or a thread in `take` that has not looked at the queue.
abbrev Covers : Waits → List Item → ℕ → ℕ → Type 0
Covers w l h sl =
    (w.waiters ≡ sl) × (w.wakeups ≤ w.waiters) × (w.waiters ≤ w.wakeups ⊎ length l ≤ h + w.wakeups)

Move-Covers :
    {m : ℕ} {q r : Shared} {a b : Pc} {c : Call} {w x : Waits} (h sl : ℕ)
    → Move m q a c r b
    → Passes w c x
    → Covers w q.queue (h + helps a) (sl + sleeps a)
    → Covers x r.queue (h + helps b) (sl + sleeps b)
unfolding push pop
Move-Covers h sl (put_lock z f) pass v = omega arith
Move-Covers {m} {q} h sl (put_push {id} {i}) pass v =
    omega (arith, length-append q.queue (item_of m id i ∷ []))
Move-Covers h sl put_unlock pass v = omega arith
Move-Covers h sl put_tell (signal_one g) v = omega arith
Move-Covers h sl put_tell (signal_none g) v = omega arith
Move-Covers h sl take_enter no_wait v = omega arith
Move-Covers h sl (take_lock f) pass v = omega arith
Move-Covers h sl (take_sleep e) begin_wait v = omega (arith, ap length e)
Move-Covers h sl take_wake (end_wait g) v = omega arith
Move-Covers {q = q} h sl (take_pop {x} {rest} e) pass v =
    let long : length q.queue ≡ length rest + 1 = ap length e ∙ omega arith in omega (arith, long)
Move-Covers h sl take_unlock pass v = omega arith
Move-Covers h sl take_again pass v = omega arith
Move-Covers h sl take_end pass v = omega arith

Spurious-Covers :
    {m : ℕ} {q r : Shared} {a b : Pc} {c : Call} {w x : Waits} (h sl : ℕ)
    → Spurious w c x
    → Move m q a c r b
    → Covers w q.queue (h + helps a) (sl + sleeps a)
    → Covers x r.queue (h + helps b) (sl + sleeps b)
Spurious-Covers h sl (no_signal g) take_wake v = omega arith

record IsSafe (m n : ℕ) (s : System condvar) : Type 0 where
  follows : Follows m n s.shared s.pcs
  covered : Covers s.signal s.shared.queue (total helps s.pcs) (total sleeps s.pcs)

Covers-set :
    (pcs : List Pc) (i : ℕ) (b : Pc) (w x : Waits) (l k : List Item)
    → i < length pcs
    → ((h sl : ℕ)
        → Covers w l (h + helps (get_or pcs i ended)) (sl + sleeps (get_or pcs i ended))
        → Covers x k (h + helps b) (sl + sleeps b))
    → Covers w l (total helps pcs) (total sleeps pcs)
    → Covers x k (total helps (set pcs i b)) (total sleeps (set pcs i b))
Covers-set pcs i b w x l k h f v =
    let (p, p') = split-total helps ended pcs i b refl h in
    let (s, s') = split-total sleeps ended pcs i b refl h in
    rw (p', s') (f (others helps ended pcs i) (others sleeps ended pcs i) (rw (p, s) at v))

Step-IsSafe : {m n : ℕ} {s t : System condvar} → Step condvar m s t → IsSafe m n s → IsSafe m n t
Step-IsSafe {m} {n} {s} (advance (pick i {q} {c} {n = x} {b} h mv p)) v = record {
  follows = Move-Follows s.pcs i h mv v.follows;
  covered =
      Covers-set s.pcs i b s.signal x s.shared.queue q.queue h (λ e sl. Move-Covers e sl mv p)
        v.covered;
}
Step-IsSafe {m} {n} {s} (spurious i {q} {c} {n = x} {b} h mv p) v = record {
  follows = Move-Follows s.pcs i h mv v.follows;
  covered =
      Covers-set s.pcs i b s.signal x s.shared.queue q.queue h (λ e sl. Spurious-Covers e sl p mv)
        v.covered;
}

start-IsSafe : (m n : ℕ) → IsSafe m n (start condvar n)
unfolding start
start-IsSafe m n = record {
  follows = start-Follows condvar m n;
  covered =
      let none_asleep = total-start sleeps 0 (λ id. refl) condvar n in
      (omega (arith, none_asleep), omega arith, omega arith);
}

Reach-IsSafe : {m n : ℕ} {s t : System condvar} → IsSafe m n s → Reach condvar m s t → IsSafe m n t
Reach-IsSafe v here = v
Reach-IsSafe v (next r st) = Step-IsSafe st (Reach-IsSafe v r)

-- With nobody under way and no thread freed, the queue is empty or nobody sleeps.
nobody_left :
    {m n : ℕ} {s : System condvar}
    → IsSafe m n s
    → total locks s.pcs ≡ 0
    → total (wants m) s.pcs ≡ 0
    → total outside s.pcs ≡ 0
    → s.signal.wakeups ≡ 0
    → total active s.pcs ≡ 0
unfolding nulls
nobody_left {m} {n} {s} v l w o u =
    let (same, fewer, cover) = v.covered in
    let few = rest_active m s.pcs l w in
    let no_help = total-le helps locks (wants m) s.pcs (helps-wants m) in
    elim cover [
      | inl c ↦ omega (arith, few, o, u, same, c)
      | inr c ↦
          let gone : s.shared.queue ≡ [] =
            eq_nil s.shared.queue (omega (arith, c, l, w, u, no_help)) in
          sym (rest_counts v.follows l w) ∙ ap nulls gone
    ]

-- Whatever the threads have done so far, one of them can make a step by itself, or they are all done.
pub condvar-Goes_or_IsDone :
    (m n : ℕ) {s : System condvar}
    → Reach condvar m (start condvar n) s
    → Goes condvar m s ⊎ IsDone m n s.shared s.pcs
condvar-Goes_or_IsDone m n {s} r =
    let v = Reach-IsSafe (start-IsSafe m n) r in
    let (same, fewer, cover) = v.covered in
    Goes-or_IsDone condvar m s pass v.follows (λ i h e g. (_, begin_wait)) telling
      (λ l w. elim (dec_lt 0 (total outside s.pcs)) [
        | yes z ↦
            let (i, h, e) = found_outside s.pcs z in
            inl (Goes-at condvar m s i consuming h e take_enter no_wait)
        | no nz ↦ elim (dec_lt 0 s.signal.wakeups) [
          | yes g ↦
              let (i, h, e) = found_asleep s.pcs (omega (arith, same, fewer, g)) in
              inl (Goes-at condvar m s i take_sleeping h e take_wake (end_wait g))
          | no ng ↦ inr (nobody_left v l w (omega (arith, nz)) (omega (arith, ng)))
        ]
      ])
  where
    telling : (k : Waits) × Passes s.signal tell k
    telling = elim (dec_lt s.signal.wakeups s.signal.waiters) [
      | yes g ↦ (_, signal_one g)
      | no ng ↦ (_, signal_none (omega (arith, ng)))
    ]

-- A freed thread has to lock the mutex and to look at the queue again.
condvar-Costs : Costs condvar
condvar-Costs = record {
  cost = λ w. 3 * w.wakeups;
  free = refl;
  passes = paid;
  spuriously = unpaid;
}
  where
    paid :
        {w x : Waits} {c : Call} → Passes w c x → 3 * x.wakeups + takes c ≤ 3 * w.wakeups + adds c
    paid pass = omega arith
    paid no_wait = omega arith
    paid begin_wait = omega arith
    paid (end_wait g) = omega arith
    paid (signal_one g) = omega arith
    paid (signal_none g) = omega arith

    unpaid :
        {w x : Waits} {c : Call}
        → Spurious w c x
        → 3 * x.wakeups + takes c ≤ 3 * w.wakeups + adds c + 3
    unpaid (no_signal g) = omega arith

-- However the threads take turns, their steps come to an end: `n` producers and `n` consumers make no
-- more steps than this, and two more for each pthread_cond_wait that returned without a signal.
pub condvar_steps_le :
    (m n : ℕ) {s : System condvar} (r : Reach condvar m (start condvar n) s)
    → advances r ≤ n * (12 * (m + 1)) + n * 4 + 2 * wakes r
condvar_steps_le m n r = advances_le condvar condvar-Costs m n r
