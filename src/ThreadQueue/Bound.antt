-- ===== src/ThreadQueue/Bound.antt =====
-- How many steps the threads of pthread/blocking_queue/main.cpp make in all.
use linux_programming.Prelude.{
  ℕ, ◌+◌, ◌-◌, ◌*◌, ◌≤◌, ◌<◌, ◌≡◌, refl, ap, [], ◌∷◌, arith, length, length-append, get_or, set,
}
use linux_programming.Threads.{total, split-total}
use linux_programming.ThreadQueue.{
  Shared, item_of, push, pop, Pc, producing, put_locked, put_pushed, put_leaving, consuming,
  take_entering, take_locked, take_sleeping, take_popped, took, ended, Call, no_call, enter, sleep,
  wake, tell, Move, put_lock, put_push, put_unlock, put_tell, take_enter, take_lock, take_sleep,
  take_wake, take_pop, take_unlock, take_again, take_end, Signal, System, pick, advance, spurious,
  Reach, here, next, start,
}
use linux_programming.ThreadQueue.Counts.{Fits}
use linux_programming.ThreadQueue.Finish.{Follows, start-Follows, total-start, Move-Follows}

-- The steps that a thread has left: a round of a producer counts for 12, of which an item in the queue
-- gets 5 and a signal 3.
abbrev pub load : (item_num : ℕ) → Pc → ℕ
load item_num (producing id i) = 12 * (item_num + 1 - i)
load item_num (put_locked id i) = 12 * (item_num - i) + 11
load item_num (put_pushed id i) = 12 * (item_num - i) + 5
load item_num (put_leaving id i) = 12 * (item_num - i) + 4
load item_num consuming = 4
load item_num take_entering = 3
load item_num take_locked = 2
load item_num take_sleeping = 1
load item_num (take_popped x) = 6
load item_num (took x) = 5
load item_num ended = 0

-- What a call may add to the cost of a state of `not_empty`, and what it has to take from it.
abbrev pub adds : Call → ℕ
adds no_call = 0
adds enter = 0
adds sleep = 0
adds wake = 0
adds tell = 3

abbrev pub takes : Call → ℕ
takes no_call = 0
takes enter = 0
takes sleep = 0
takes wake = 3
takes tell = 0

Move-load :
    {m : ℕ} {q r : Shared} {a b : Pc} {c : Call}
    → Move m q a c r b
    → Fits m a
    → load m b + 5 * length r.queue + adds c < load m a + 5 * length q.queue + takes c
unfolding push pop
Move-load (put_lock h f) e = omega arith
Move-load {m} {q} (put_push {id} {i}) e = omega (arith, length-append q.queue (item_of m id i ∷ []))
Move-load put_unlock e = omega arith
Move-load put_tell e = omega arith
Move-load take_enter e = omega arith
Move-load (take_lock f) e = omega arith
Move-load (take_sleep g) e = omega arith
Move-load take_wake e = omega arith
Move-load {q = q} (take_pop {x} {rest} g) e =
    let long : length q.queue ≡ length (x ∷ rest) = ap length g in omega (arith, long)
Move-load take_unlock e = omega arith
Move-load take_again e = omega arith
Move-load take_end e = omega arith

module _ {C : Signal} {m : ℕ} where
  -- The steps whose call passed by itself.
  unfoldable pub advances : {s t : System C} → Reach C m s t → ℕ
  advances here = 0
  advances (next r (advance a)) = advances r + 1
  advances (next r (spurious i h mv p)) = advances r

  -- The calls that passed for no reason.
  unfoldable pub wakes : {s t : System C} → Reach C m s t → ℕ
  wakes here = 0
  wakes (next r (advance a)) = wakes r
  wakes (next r (spurious i h mv p)) = wakes r + 1

-- A cost of the states of `not_empty` that pays for the thread that a signal frees.
pub record Costs (C : Signal) : Type 0 where
  pub cost : C.State → ℕ
  pub free : cost C.fresh ≡ 0
  pub passes : {w x : C.State} {c : Call} → C.Passes w c x → cost x + takes c ≤ cost w + adds c
  pub spuriously :
      {w x : C.State} {c : Call} → C.Spurious w c x → cost x + takes c ≤ cost w + adds c + 3

module _ (C : Signal) (k : Costs C) (m n : ℕ) where
  measure : System C → ℕ
  measure s = total (load m) s.pcs + 5 * length s.shared.queue + k.cost s.signal

  measure-pick :
      (s : System C) (i : ℕ) {q : Shared} {c : Call} {b : Pc} (x : C.State) (e : ℕ)
      → Follows m n s.shared s.pcs
      → i < length s.pcs
      → Move m s.shared (get_or s.pcs i ended) c q b
      → k.cost x + takes c ≤ k.cost s.signal + adds c + e
      → measure (record { shared = q; signal = x; pcs = set s.pcs i b }) < measure s + e
  unfolding measure
  measure-pick s i {b = b} x e v h mv p =
      let (l, l') = split-total (load m) ended s.pcs i b refl h in
      omega (arith, l, l', p, Move-load mv (v.sound.fits i))

  measured :
      {s : System C} (r : Reach C m (start C n) s)
      → Follows m n s.shared s.pcs
        × (advances r + measure s ≤ n * (12 * (m + 1)) + n * 4 + 2 * wakes r)
  unfolding advances wakes start measure
  measured here = (
    start-Follows C m n,
    omega (arith, k.free, total-start (load m) (12 * (m + 1)) (λ id. omega arith) C n),
  )
  measured (next {t} r (advance (pick i {n = x} h mv p))) =
      let (v, b) = measured r in
      (
        Move-Follows t.pcs i h mv v,
        omega (arith, b, measure-pick t i x 0 v h mv (omega (arith, k.passes p))),
      )
  measured (next {t} r (spurious i {n = x} h mv p)) =
      let (v, b) = measured r in
      (Move-Follows t.pcs i h mv v, omega (arith, b, measure-pick t i x 3 v h mv (k.spuriously p)))

  pub advances_le :
      {s : System C} (r : Reach C m (start C n) s)
      → advances r ≤ n * (12 * (m + 1)) + n * 4 + 2 * wakes r
  advances_le r = omega (arith, (measured r).1)
