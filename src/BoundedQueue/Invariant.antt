-- ===== src/BoundedQueue/Invariant.antt =====
-- The semaphores of bounded_blocking_queue.cpp, counted against the places of the processes.
use linux_programming.Prelude.{
  ℕ, ◌+◌, ◌≤◌, ◌<◌, ◌≡◌, refl, List, [], arith, length, get_or, replicate, ap, ℕ_discrete,
}
use linux_programming.Threads.{
  total, others, split-total, total-replicate, one-le-total, two-le-total,
}
use linux_programming.BoundedQueue.{
  Queue, bbq_init, store_item, drop_item, Pc, idle, put_waiting, put_locked, put_stored,
  put_leaving, take_waiting, take_locked, take_loaded, take_leaving, asking, asked, Move, put_wait,
  put_lock, put_store, put_unlock, put_post, take_wait, take_lock, take_load, take_unlock,
  take_post, ask_lock, ask, ask_unlock, System, Step, pick, Reach, here, next,
}

-- The process holds the mutex.
abbrev pub locks : Pc → ℕ
locks (put_locked item) = 1
locks put_stored = 1
locks take_locked = 1
locks (take_loaded item) = 1
locks asking = 1
locks (asked answer) = 1
locks a = 0

-- It holds a unit of `empty` for an item that is not stored yet, or for one that is taken already.
abbrev pub holds_empty : Pc → ℕ
holds_empty (put_waiting item) = 1
holds_empty (put_locked item) = 1
holds_empty (take_loaded item) = 1
holds_empty (take_leaving item) = 1
holds_empty a = 0

-- It holds a unit of `full` for an item that is not taken yet, or for one that is stored already.
abbrev pub holds_full : Pc → ℕ
holds_full (take_waiting) = 1
holds_full (take_locked) = 1
holds_full put_stored = 1
holds_full put_leaving = 1
holds_full a = 0

-- Of the items stored, `p - f` wait; every slot is waiting, or empty, or in some process's hands.
pub record IsSound (s : System) : Type 0 where
  pub one_lock : s.queue.mutex + total locks s.pcs ≡ 1
  pub order : s.queue.f ≤ s.queue.p
  pub items : s.queue.f + s.queue.full + total holds_full s.pcs ≡ s.queue.p
  pub slots : s.queue.empty + total holds_empty s.pcs + s.queue.p ≡ s.queue.queue_size + s.queue.f

abbrev pub Counts : Queue → ℕ → ℕ → ℕ → Type 0
Counts q l e h =
    (q.mutex + l ≡ 1)
    × (q.f ≤ q.p)
    × (q.f + q.full + h ≡ q.p)
    × (q.empty + e + q.p ≡ q.queue_size + q.f)

-- A move keeps the counts, `l`, `e` and `h` being the weights of the other processes.
Move-Counts :
    {q r : Queue} {a b : Pc} (l e h : ℕ)
    → Move q a r b
    → Counts q (l + locks a) (e + holds_empty a) (h + holds_full a)
    → Counts r (l + locks b) (e + holds_empty b) (h + holds_full b)
unfolding store_item drop_item
Move-Counts l e h (put_wait item n z) c = omega arith
Move-Counts l e h (put_lock z) c = omega arith
Move-Counts l e h put_store c = omega arith
Move-Counts l e h put_unlock c = omega arith
Move-Counts l e h put_post c = omega arith
Move-Counts l e h (take_wait z) c = omega arith
Move-Counts l e h (take_lock z) c = omega arith
Move-Counts l e h take_load c = omega arith
Move-Counts l e h take_unlock c = omega arith
Move-Counts l e h take_post c = omega arith
Move-Counts l e h (ask_lock z) c = omega arith
Move-Counts l e h ask c = omega arith
Move-Counts l e h ask_unlock c = omega arith

-- Every step keeps the counts.
pub Step-IsSound : {s t : System} → Step s t → IsSound s → IsSound t
Step-IsSound {s} (pick i {q} {b} h mv) v =
    let (l, l') = split-total locks idle s.pcs i b refl h in
    let (e, e') = split-total holds_empty idle s.pcs i b refl h in
    let (f, f') = split-total holds_full idle s.pcs i b refl h in
    let c =
      Move-Counts (others locks idle s.pcs i) (others holds_empty idle s.pcs i)
        (others holds_full idle s.pcs i) mv
        (
          omega (arith, l, v.one_lock),
          v.order,
          omega (arith, f, v.items),
          omega (arith, e, v.slots),
        ) in
    record {
      one_lock = omega (arith, l', c.0);
      order = c.1;
      items = omega (arith, f', c.2);
      slots = omega (arith, e', c.3);
    }

-- `main` at rest: the queue is new, and no process has called it yet.
unfoldable pub start : (item_size queue_size : ℕ) → List ℕ → ℕ → System
start item_size queue_size block processes = record {
  queue = bbq_init item_size queue_size block;
  pcs = replicate processes idle;
  ins = [];
  outs = [];
}

pub start-IsSound : (k m : ℕ) (block : List ℕ) (n : ℕ) → IsSound (start k m block n)
unfolding start bbq_init
start-IsSound k m block n = record {
  one_lock = omega (arith, total-replicate locks idle n);
  order = omega arith;
  items = omega (arith, total-replicate holds_full idle n);
  slots = omega (arith, total-replicate holds_empty idle n);
}

pub Reach-IsSound : {s t : System} → IsSound s → Reach s t → IsSound t
Reach-IsSound v here = v
Reach-IsSound v (next r st) = Step-IsSound st (Reach-IsSound v r)

pub storing :
    (s : System)
    → IsSound s
    → (i : ℕ) (item : List ℕ) → i < length s.pcs
    → get_or s.pcs i idle ≡ put_locked item
    → s.queue.p < s.queue.f + s.queue.queue_size
storing s v i item h e =
    omega (arith, v.slots, one-le-total holds_empty idle s.pcs i refl h, ap holds_empty e)

pub taking :
    (s : System)
    → IsSound s
    → (i : ℕ) → i < length s.pcs
    → get_or s.pcs i idle ≡ take_locked
    → s.queue.f < s.queue.p
taking s v i h e =
    omega (arith, v.items, one-le-total holds_full idle s.pcs i refl h, ap holds_full e)

module _ (k m n : ℕ) (block : List ℕ) {s : System} (r : Reach (start k m block n) s) where
  sound : IsSound s
  sound = Reach-IsSound (start-IsSound k m block n) r

  -- In no reachable state do two processes stand between the wait and the post of `mutex`.
  pub mutual_exclusion :
      (i j : ℕ)
      → i < length s.pcs
      → j < length s.pcs
      → locks (get_or s.pcs i idle) ≡ 1
      → locks (get_or s.pcs j idle) ≡ 1
      → i ≡ j
  mutual_exclusion i j hi hj li lj = elim (ℕ_discrete i j) [
    | yes e ↦ e
    | no ne ↦
        absurd
          (omega (arith, two-le-total locks idle s.pcs i j refl hi hj ne, sound.one_lock, li, lj))
  ]

  -- A process that is about to store an item finds a free slot, and one that is about to take an item
  -- finds one; the queue never holds more than its size.
  pub room_and_items :
      (i : ℕ)
      → i < length s.pcs
      → ((item : List ℕ)
          → get_or s.pcs i idle ≡ put_locked item
          → s.queue.p < s.queue.f + s.queue.queue_size)
        × (get_or s.pcs i idle ≡ take_locked → s.queue.f < s.queue.p)
        × (s.queue.p ≤ s.queue.f + s.queue.queue_size)
  room_and_items i h = (
    (λ item e. storing s sound i item h e),
    (λ e. taking s sound i h e),
    omega (arith, sound.slots),
  )
