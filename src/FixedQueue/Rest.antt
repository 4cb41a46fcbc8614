-- ===== src/FixedQueue/Rest.antt =====
-- When no process holds the mutex of bounded_blocking_queue_semaphore_mmap_unnamed0/main.cpp or waits for it.
use linux_programming.Prelude.{
  ℕ, ◌+◌, ◌-◌, ◌<◌, ◌≤◌, ◌≡◌, ◌⊎◌, refl, true, false, length, get_or, arith,
}
use linux_programming.Threads.{total, total-le, total_mono, upto}
use linux_programming.FixedQueue.{
  Pc, producing, put_waiting, put_locked, put_stored, put_leaving, put_ended, consuming,
  take_waiting, take_locked, take_loaded, take_leaving, take_ended, System,
}
use linux_programming.FixedQueue.Counts.{locks, holds_empty, holds_full, puts, takes, IsSound}
use linux_programming.FixedQueue.Ids.{ids}

-- With `mutex` free, the process can go on.
abbrev pub wants : Pc → ℕ
wants put_waiting = 1
wants (put_leaving b) = 1
wants take_waiting = 1
wants (take_leaving b) = 1
wants a = 0

-- It is at the head of its loop.
abbrev pub at_put : Pc → ℕ
at_put producing = 1
at_put a = 0

abbrev pub at_take : Pc → ℕ
at_take consuming = 1
at_take a = 0

-- Its loop is over.
abbrev pub IsOver : Pc → Type 0
IsOver put_ended = Unit
IsOver take_ended = Unit
IsOver a = ⊥

-- What `main` finds after its waits, for `n` producers and `n` consumers: each process has ended, the
-- queue is empty, and the nodes were read one by one, in the order of their ids.
pub record IsDone (total_len n : ℕ) (s : System) : Type 0 where
  pub over : (i : ℕ) → i < length s.pcs → IsOver (get_or s.pcs i put_ended)
  pub stored : s.shared.p ≡ total_len + n
  pub loaded : s.shared.f ≡ total_len + n
  pub in_order : ids s.shared.taken ≡ upto (total_len + n)

-- Neither under way nor at the head of a loop.
pub idle-IsOver : (a : Pc) → locks a ≡ 0 → wants a ≡ 0 → at_put a ≡ 0 → at_take a ≡ 0 → IsOver a
idle-IsOver producing l w p t = absurd (omega (arith, p))
idle-IsOver put_waiting l w p t = absurd (omega (arith, w))
idle-IsOver put_locked l w p t = absurd (omega (arith, l))
idle-IsOver (put_stored b) l w p t = absurd (omega (arith, l))
idle-IsOver (put_leaving b) l w p t = absurd (omega (arith, w))
idle-IsOver put_ended l w p t = tt
idle-IsOver consuming l w p t = absurd (omega (arith, t))
idle-IsOver take_waiting l w p t = absurd (omega (arith, w))
idle-IsOver take_locked l w p t = absurd (omega (arith, l))
idle-IsOver (take_loaded b) l w p t = absurd (omega (arith, l))
idle-IsOver (take_leaving b) l w p t = absurd (omega (arith, w))
idle-IsOver take_ended l w p t = tt

-- The weights of a process, against where it is.
record Weighs (a : Pc) : Type 0 where
  empty_le : holds_empty a ≤ locks a + wants a
  full_le : holds_full a ≤ locks a + wants a
  puts_le : puts a ≤ locks a + wants a + at_put a
  takes_le : takes a ≤ locks a + wants a + at_take a
  at_put_le : at_put a ≤ puts a
  at_take_le : at_take a ≤ takes a

weighs : (a : Pc) → Weighs a
weighs producing = record {
  empty_le = omega arith;
  full_le = omega arith;
  puts_le = omega arith;
  takes_le = omega arith;
  at_put_le = omega arith;
  at_take_le = omega arith;
}
weighs put_waiting = record {
  empty_le = omega arith;
  full_le = omega arith;
  puts_le = omega arith;
  takes_le = omega arith;
  at_put_le = omega arith;
  at_take_le = omega arith;
}
weighs put_locked = record {
  empty_le = omega arith;
  full_le = omega arith;
  puts_le = omega arith;
  takes_le = omega arith;
  at_put_le = omega arith;
  at_take_le = omega arith;
}
weighs (put_stored true) = record {
  empty_le = omega arith;
  full_le = omega arith;
  puts_le = omega arith;
  takes_le = omega arith;
  at_put_le = omega arith;
  at_take_le = omega arith;
}
weighs (put_stored false) = record {
  empty_le = omega arith;
  full_le = omega arith;
  puts_le = omega arith;
  takes_le = omega arith;
  at_put_le = omega arith;
  at_take_le = omega arith;
}
weighs (put_leaving true) = record {
  empty_le = omega arith;
  full_le = omega arith;
  puts_le = omega arith;
  takes_le = omega arith;
  at_put_le = omega arith;
  at_take_le = omega arith;
}
weighs (put_leaving false) = record {
  empty_le = omega arith;
  full_le = omega arith;
  puts_le = omega arith;
  takes_le = omega arith;
  at_put_le = omega arith;
  at_take_le = omega arith;
}
weighs put_ended = record {
  empty_le = omega arith;
  full_le = omega arith;
  puts_le = omega arith;
  takes_le = omega arith;
  at_put_le = omega arith;
  at_take_le = omega arith;
}
weighs consuming = record {
  empty_le = omega arith;
  full_le = omega arith;
  puts_le = omega arith;
  takes_le = omega arith;
  at_put_le = omega arith;
  at_take_le = omega arith;
}
weighs take_waiting = record {
  empty_le = omega arith;
  full_le = omega arith;
  puts_le = omega arith;
  takes_le = omega arith;
  at_put_le = omega arith;
  at_take_le = omega arith;
}
weighs take_locked = record {
  empty_le = omega arith;
  full_le = omega arith;
  puts_le = omega arith;
  takes_le = omega arith;
  at_put_le = omega arith;
  at_take_le = omega arith;
}
weighs (take_loaded true) = record {
  empty_le = omega arith;
  full_le = omega arith;
  puts_le = omega arith;
  takes_le = omega arith;
  at_put_le = omega arith;
  at_take_le = omega arith;
}
weighs (take_loaded false) = record {
  empty_le = omega arith;
  full_le = omega arith;
  puts_le = omega arith;
  takes_le = omega arith;
  at_put_le = omega arith;
  at_take_le = omega arith;
}
weighs (take_leaving true) = record {
  empty_le = omega arith;
  full_le = omega arith;
  puts_le = omega arith;
  takes_le = omega arith;
  at_put_le = omega arith;
  at_take_le = omega arith;
}
weighs (take_leaving false) = record {
  empty_le = omega arith;
  full_le = omega arith;
  puts_le = omega arith;
  takes_le = omega arith;
  at_put_le = omega arith;
  at_take_le = omega arith;
}
weighs take_ended = record {
  empty_le = omega arith;
  full_le = omega arith;
  puts_le = omega arith;
  takes_le = omega arith;
  at_put_le = omega arith;
  at_take_le = omega arith;
}

abbrev pub Rest : (queue_len total_len n : ℕ) → System → (at_p at_t : ℕ) → Type 0
Rest u t n s x y =
    (s.shared.f + s.shared.full ≡ s.shared.p)
    × (s.shared.empty + s.shared.p ≡ u + s.shared.f)
    × (x + (s.shared.p - t) ≡ n)
    × (y + (s.shared.f - t) ≡ n)

-- The counts when nobody holds the mutex or waits for it.
pub rest :
    {u t n : ℕ} {s : System}
    → IsSound u t n s
    → total locks s.pcs ≡ 0
    → total wants s.pcs ≡ 0
    → Rest u t n s (total at_put s.pcs) (total at_take s.pcs)
rest {s = s} v l w =
    let busy : Pc → ℕ = λ a. locks a + wants a in
    let none_busy : total busy s.pcs ≡ 0 =
      omega (arith, l, w, total-le busy locks wants s.pcs (λ a. omega arith)) in
    let e = total-le holds_empty locks wants s.pcs (λ a. (weighs a).empty_le) in
    let f = total-le holds_full locks wants s.pcs (λ a. (weighs a).full_le) in
    let p = total-le puts busy at_put s.pcs (λ a. (weighs a).puts_le) in
    let c = total-le takes busy at_take s.pcs (λ a. (weighs a).takes_le) in
    let p' = total_mono at_put puts s.pcs (λ a. (weighs a).at_put_le) in
    let c' = total_mono at_take takes s.pcs (λ a. (weighs a).at_take_le) in
    (
      omega (arith, v.nodes, f, l, w),
      omega (arith, v.slots, e, l, w),
      omega (arith, v.producers, p, p', none_busy),
      omega (arith, v.consumers, c, c', none_busy),
    )

-- Then, if neither a producer nor a consumer can begin a round, all rounds are made.
pub all_made :
    (u t n f p full empty x y : ℕ)
    → 0 < u
    → 0 < n
    → f + full ≡ p
    → empty + p ≡ u + f
    → x + (p - t) ≡ n
    → y + (f - t) ≡ n
    → (x ≡ 0 ⊎ empty ≡ 0)
    → (y ≡ 0 ⊎ full ≡ 0)
    → (x ≡ 0) × (y ≡ 0) × (p ≡ t + n) × (f ≡ t + n)
all_made u t n f p full empty x y hu hn a b c d g h = omega arith

pub at-at_put : (a : Pc) → 0 < at_put a → a ≡ producing
at-at_put producing z = refl
at-at_put put_waiting z = absurd (omega arith)
at-at_put put_locked z = absurd (omega arith)
at-at_put (put_stored b) z = absurd (omega arith)
at-at_put (put_leaving b) z = absurd (omega arith)
at-at_put put_ended z = absurd (omega arith)
at-at_put consuming z = absurd (omega arith)
at-at_put take_waiting z = absurd (omega arith)
at-at_put take_locked z = absurd (omega arith)
at-at_put (take_loaded b) z = absurd (omega arith)
at-at_put (take_leaving b) z = absurd (omega arith)
at-at_put take_ended z = absurd (omega arith)

pub at-at_take : (a : Pc) → 0 < at_take a → a ≡ consuming
at-at_take producing z = absurd (omega arith)
at-at_take put_waiting z = absurd (omega arith)
at-at_take put_locked z = absurd (omega arith)
at-at_take (put_stored b) z = absurd (omega arith)
at-at_take (put_leaving b) z = absurd (omega arith)
at-at_take put_ended z = absurd (omega arith)
at-at_take consuming z = refl
at-at_take take_waiting z = absurd (omega arith)
at-at_take take_locked z = absurd (omega arith)
at-at_take (take_loaded b) z = absurd (omega arith)
at-at_take (take_leaving b) z = absurd (omega arith)
at-at_take take_ended z = absurd (omega arith)
