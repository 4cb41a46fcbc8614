-- ===== src/ThreadQueue.antt =====
-- pthread/blocking_queue/: class BlockingQueue of blocking_queue_condvar.h and of
-- blocking_queue_semaphore.h, and main.cpp, whose producers and consumers call it, interleaved in any
-- order. A step is what a thread does between two calls of the pthread library; the work under the
-- mutex is one step. std::queue is a list, and a node is its two numbers. What the threads print, and
-- for how long they sleep, is left out. pthread/bounded_blocking_queue has the same text.
pub mod Counts
pub mod Delivery
pub mod Finish
pub mod Progress
pub mod Bound
pub mod Condvar
pub mod Semaphore
use linux_programming.Prelude.{
  ℕ, zero, suc, ◌+◌, ◌-◌, ◌≤◌, ◌<◌, ◌≡◌, Option, none, some, List, [], ◌∷◌, ◌++◌, length, get_or,
  set, replicate, ◌==◌, ltb, if◌then◌else◌,
}

-- `Node*`: the numbers of the node, or NULL.
abbrev pub Item : Type 0
Item = Option (ℕ × ℕ)

-- The members that the two classes share. `pushed` and `popped` are history.
pub record Shared : Type 0 where
  pub queue : List Item
  pub mutex : ℕ
  pub pushed : List Item
  pub popped : List Item

-- What `producer` puts in its round `i`.
abbrev pub item_of : (item_num id i : ℕ) → Item
item_of item_num id i = if i == item_num then none else some (id, i)

unfoldable pub push : Item → Shared → Shared
push x q = record q { queue = q.queue ++ (x ∷ []); pushed = q.pushed ++ (x ∷ []) }

unfoldable pub pop : Item → List Item → Shared → Shared
pop x rest q = record q { queue = rest; popped = q.popped ++ (x ∷ []) }

-- Where a thread stands.
pub data Pc : Type 0 where
  producing : (id i : ℕ) → Pc  -- at the head of the loop of `producer`
  put_locked : (id i : ℕ) → Pc  -- in `put`, with the mutex
  put_pushed : (id i : ℕ) → Pc  -- the item is in, the mutex still held
  put_leaving : (id i : ℕ) → Pc  -- before the call that tells a taker
  consuming : Pc  -- at the head of the loop of `consumer`
  take_entering : Pc  -- in `take`, before it has the mutex
  take_locked : Pc  -- with the mutex, before it looks at the queue
  take_sleeping : Pc  -- in pthread_cond_wait
  take_popped : Item → Pc  -- with the mutex and the item
  took : Item → Pc  -- `take` has returned
  ended : Pc  -- after the loop of `consumer`

-- What a step asks of `not_empty`, which the two classes have of different types.
pub data Call : Type 0 where
  no_call : Call
  enter : Call  -- the first call of `take`
  sleep : Call  -- pthread_cond_wait begins
  wake : Call  -- pthread_cond_wait is over, and has to lock the mutex again
  tell : Call  -- the last call of `put`

-- One step of one thread, with `not_empty` left out.
pub data Move (item_num : ℕ) (q : Shared) : Pc → Call → Shared → Pc → Type 0 where
  put_lock :
      {id i : ℕ}
      → i ≤ item_num
      → 0 < q.mutex
      → Move item_num q
          (producing id i)
          no_call
          (record q { mutex = q.mutex - 1 })
          (put_locked id i)
  put_push :
      {id i : ℕ}
      → Move item_num q (put_locked id i) no_call (push (item_of item_num id i) q) (put_pushed id i)
  put_unlock :
      {id i : ℕ}
      → Move item_num q
          (put_pushed id i)
          no_call
          (record q { mutex = q.mutex + 1 })
          (put_leaving id i)
  put_tell : {id i : ℕ} → Move item_num q (put_leaving id i) tell q (producing id (i + 1))
  take_enter : Move item_num q consuming enter q take_entering
  take_lock :
      0 < q.mutex
      → Move item_num q take_entering no_call (record q { mutex = q.mutex - 1 }) take_locked
  take_sleep :
      q.queue ≡ []
      → Move item_num q take_locked sleep (record q { mutex = q.mutex + 1 }) take_sleeping
  take_wake : Move item_num q take_sleeping wake q take_entering
  take_pop :
      {x : Item} {rest : List Item}
      → q.queue ≡ x ∷ rest
      → Move item_num q take_locked no_call (pop x rest q) (take_popped x)
  take_unlock :
      {x : Item}
      → Move item_num q (take_popped x) no_call (record q { mutex = q.mutex + 1 }) (took x)
  take_again : {a : ℕ × ℕ} → Move item_num q (took (some a)) no_call q consuming
  take_end : Move item_num q (took none) no_call q ended

-- `not_empty`: its state, and which calls it lets pass and what they leave. `Passes` is what the calls
-- do by themselves; a blocked call may also pass for no reason, by `Spurious`.
pub record Signal : Type 1 where
  pub State : Type 0
  pub fresh : State
  pub Passes : State → Call → State → Type 0
  pub Spurious : State → Call → State → Type 0

-- The queue, `not_empty`, and where each thread stands.
pub record System (C : Signal) : Type 0 where
  pub shared : Shared
  pub signal : C.State
  pub pcs : List Pc

module _ (C : Signal) (item_num : ℕ) where
  -- A step of one thread; it is an advance if its call passes by itself.
  pub data Advance (s : System C) : System C → Type 0 where
    pick :
        (i : ℕ) {q : Shared} {c : Call} {n : C.State} {b : Pc}
        → i < length s.pcs
        → Move item_num s.shared (get_or s.pcs i ended) c q b
        → C.Passes s.signal c n
        → Advance s (record { shared = q; signal = n; pcs = set s.pcs i b })

  pub data Step (s : System C) : System C → Type 0 where
    advance : {t : System C} → Advance s t → Step s t
    spurious :
        (i : ℕ) {q : Shared} {c : Call} {n : C.State} {b : Pc}
        → i < length s.pcs
        → Move item_num s.shared (get_or s.pcs i ended) c q b
        → C.Spurious s.signal c n
        → Step s (record { shared = q; signal = n; pcs = set s.pcs i b })

  pub data Reach (s : System C) : System C → Type 0 where
    here : Reach s s
    next : {t u : System C} → Reach s t → Step t u → Reach s u

-- `producer` of the ids from `id` on, for `n` threads.
unfoldable pub producers : (id n : ℕ) → List Pc
producers id zero = []
producers id (suc n) = producing id 0 ∷ producers (id + 1) n

-- `main` after its loops of pthread_create, with `n` producers and `n` consumers.
unfoldable pub start : (C : Signal) (n : ℕ) → System C
start C n = record {
  shared = record { queue = []; mutex = 1; pushed = []; popped = [] };
  signal = C.fresh;
  pcs = producers 0 n ++ replicate n consuming;
}
