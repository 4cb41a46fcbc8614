-- ===== src/BoundedQueue.antt =====
-- process/process_communication/bounded_blocking_queue_semaphore_mmap_unnamed1/
-- bounded_blocking_queue.{h,cpp}: a queue in shared memory with three semaphores, and the processes
-- that call it, interleaved in any order.
-- A step is what a process does between two semaphore operations; the bodies of `bbq_put` and
-- `bbq_take` between the wait and the post of `mutex` are one step each:
-- the process holds the mutex there.
-- `f` and `p` are int: the header limits the use of the queue to fewer than 2 ^ 31 items.
pub mod Memory
pub mod Invariant
pub mod Slots
pub mod Fifo
use linux_programming.Prelude.{
  ℕ, ◌+◌, ◌-◌, ◌*◌, ◌%◌, ◌<◌, ◌≡◌, Bool, List, [], ◌∷◌, ◌++◌, length, get_or, set, ◌==◌,
}
use linux_programming.Ring.{Iovec}
use linux_programming.Ring.Memory.{write_at, slice}

-- `struct BoundedBlockingQueue`. A semaphore is its value.
pub record Queue : Type 0 where
  pub mutex : ℕ
  pub empty : ℕ
  pub full : ℕ
  pub item_size : ℕ
  pub queue_size : ℕ
  pub f : ℕ
  pub p : ℕ
  pub que : List ℕ

-- `bbq_init` over a block of shared memory.
unfoldable pub bbq_init : (item_size queue_size : ℕ) → List ℕ → Queue
bbq_init item_size queue_size block = record {
  mutex = 1;
  empty = queue_size;
  full = 0;
  item_size = item_size;
  queue_size = queue_size;
  f = 0;
  p = 0;
  que = block;
}

-- `bbq->que + bbq->item_size * (k % bbq->queue_size)`, as an offset in `que`.
abbrev pub pointer : Queue → ℕ → ℕ
pointer q k = q.item_size * (k % q.queue_size)

-- The body of `bbq_put` under the mutex.
unfoldable pub store_item : List ℕ → Queue → Queue
store_item item q = record q { que = write_at q.que (pointer q q.p) item; p = q.p + 1 }

-- The body of `bbq_take` under the mutex: what is copied out, and what it leaves.
unfoldable pub load_item : Queue → List ℕ
load_item q = slice q.que (record { base = pointer q q.f; len = q.item_size })

unfoldable pub drop_item : Queue → Queue
drop_item q = record q { f = q.f + 1 }

-- Where a process stands, with its arguments and locals.
pub data Pc : Type 0 where
  idle : Pc  -- outside the queue's functions
  put_waiting : (item : List ℕ) → Pc  -- in bbq_put, with a unit of `empty`
  put_locked : (item : List ℕ) → Pc  -- with the mutex
  put_stored : Pc  -- the item is in, the mutex still held
  put_leaving : Pc  -- before sem_post(&bbq->full)
  take_waiting : Pc  -- in bbq_take, with a unit of `full`
  take_locked : Pc
  take_loaded : (item : List ℕ) → Pc
  take_leaving : (item : List ℕ) → Pc  -- before sem_post(&bbq->empty)
  asking : Pc  -- in bbq_empty, with the mutex
  asked : (answer : Bool) → Pc

-- One step of one process on the queue. sem_wait passes only at a positive value.
pub data Move (q : Queue) : Pc → Queue → Pc → Type 0 where
  put_wait :
      (item : List ℕ)
      → length item ≡ q.item_size
      → 0 < q.empty
      → Move q idle (record q { empty = q.empty - 1 }) (put_waiting item)
  put_lock :
      {item : List ℕ}
      → 0 < q.mutex
      → Move q (put_waiting item) (record q { mutex = q.mutex - 1 }) (put_locked item)
  put_store : {item : List ℕ} → Move q (put_locked item) (store_item item q) put_stored
  put_unlock : Move q put_stored (record q { mutex = q.mutex + 1 }) put_leaving
  put_post : Move q put_leaving (record q { full = q.full + 1 }) idle
  take_wait : 0 < q.full → Move q idle (record q { full = q.full - 1 }) take_waiting
  take_lock : 0 < q.mutex → Move q take_waiting (record q { mutex = q.mutex - 1 }) take_locked
  take_load : Move q take_locked (drop_item q) (take_loaded (load_item q))
  take_unlock :
      {item : List ℕ}
      → Move q (take_loaded item) (record q { mutex = q.mutex + 1 }) (take_leaving item)
  take_post : {item : List ℕ} → Move q (take_leaving item) (record q { empty = q.empty + 1 }) idle
  ask_lock : 0 < q.mutex → Move q idle (record q { mutex = q.mutex - 1 }) asking
  ask : Move q asking q (asked (q.f == q.p))
  ask_unlock : {answer : Bool} → Move q (asked answer) (record q { mutex = q.mutex + 1 }) idle

-- What a step adds to the history: the items stored and the items taken, in order.
abbrev pub stored : Pc → Pc → List (List ℕ)
stored (put_locked item) put_stored = item ∷ []
stored a b = []

abbrev pub taken : Pc → Pc → List (List ℕ)
taken take_locked (take_loaded item) = item ∷ []
taken a b = []

-- The queue, where each process stands, and two history variables.
pub record System : Type 0 where
  pub queue : Queue
  pub pcs : List Pc
  pub ins : List (List ℕ)
  pub outs : List (List ℕ)

pub data Step (s : System) : System → Type 0 where
  pick :
      (i : ℕ) {q : Queue} {b : Pc}
      → i < length s.pcs
      → Move s.queue (get_or s.pcs i idle) q b
      → Step s (record {
        queue = q;
        pcs = set s.pcs i b;
        ins = s.ins ++ stored (get_or s.pcs i idle) b;
        outs = s.outs ++ taken (get_or s.pcs i idle) b;
      })

-- The processes start outside the queue.
pub data Reach (s : System) : System → Type 0 where
  here : Reach s s
  next : {t u : System} → Reach s t → Step t u → Reach s u
