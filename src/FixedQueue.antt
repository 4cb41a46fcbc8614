-- ===== src/FixedQueue.antt =====
-- process/process_communication/bounded_blocking_queue_semaphore_mmap_unnamed0/main.cpp: producers and
-- consumers over one queue in shared memory, interleaved in any order. A step is what a process does
-- between two calls on the semaphores; the work under `mutex` is one step. What the consumers print is
-- left out. The lengths are parameters; `f` and `p` are numbers without a bound.
pub mod Counts
pub mod Ids
pub mod Rest
pub mod Ends
use linux_programming.Prelude.{
  ℕ, zero, suc, ◌+◌, ◌-◌, ◌%◌, ◌<◌, ◌≡◌, Bool, List, [], ◌∷◌, ◌++◌, length, get_or, set, replicate,
  leb, if◌then◌else◌,
}

pub record Node : Type 0 where
  pub id : ℕ
  pub author : ℕ
  pub value : ℕ

-- struct Shared; `taken` is history, the nodes that the consumers have read.
pub record Shared : Type 0 where
  pub queue : List Node
  pub f : ℕ
  pub p : ℕ
  pub mutex : ℕ
  pub empty : ℕ
  pub full : ℕ
  pub taken : List Node

-- What the memory holds at first, and what stands for a read past the end.
abbrev pub blank : Node
blank = record { id = 0; author = 0; value = 0 }

-- Where a process stands; the Boolean is its `flag`.
pub data Pc : Type 0 where
  producing : Pc  -- at the head of the loop of `producer_proc`
  put_waiting : Pc  -- before `sem_wait(&s->mutex)`
  put_locked : Pc  -- between the wait and the post of `mutex`, before the work
  put_stored : Bool → Pc  -- the same, after the work
  put_leaving : Bool → Pc  -- before `sem_post(&s->full)`
  put_ended : Pc
  consuming : Pc
  take_waiting : Pc
  take_locked : Pc
  take_loaded : Bool → Pc
  take_leaving : Bool → Pc
  take_ended : Pc

-- Lines 50 to 53.
unfoldable pub store : (queue_len author value : ℕ) → Shared → Shared
store queue_len author value s =
    let tmp : Node = record { id = s.p; author = author; value = value } in
    record s { queue = set s.queue (s.p % queue_len) tmp; p = s.p + 1 }

-- Lines 77 to 79.
unfoldable pub load : (queue_len : ℕ) → Shared → Shared
load queue_len s = record s {
  taken = s.taken ++ (get_or s.queue (s.f % queue_len) blank ∷ []);
  f = s.f + 1;
}

-- `flag` after a round: 0 if the count is past TOTAL_LEN.
unfoldable pub goes_on : (total_len count : ℕ) → Bool
goes_on total_len count = leb count total_len

pub record System : Type 0 where
  pub shared : Shared
  pub pcs : List Pc

module _ (queue_len total_len : ℕ) where
  pub data Move (s : Shared) : Pc → Shared → Pc → Type 0 where
    put_wait : 0 < s.empty → Move s producing (record s { empty = s.empty - 1 }) put_waiting
    put_lock : 0 < s.mutex → Move s put_waiting (record s { mutex = s.mutex - 1 }) put_locked
    put_store :
        (author value : ℕ)
        → Move s put_locked
            (store queue_len author value s)
            (put_stored (goes_on total_len (s.p + 1)))
    put_unlock :
        {b : Bool} → Move s (put_stored b) (record s { mutex = s.mutex + 1 }) (put_leaving b)
    put_post :
        {b : Bool}
        → Move s
            (put_leaving b)
            (record s { full = s.full + 1 })
            (if b then producing else put_ended)
    take_wait : 0 < s.full → Move s consuming (record s { full = s.full - 1 }) take_waiting
    take_lock : 0 < s.mutex → Move s take_waiting (record s { mutex = s.mutex - 1 }) take_locked
    take_load : Move s take_locked (load queue_len s) (take_loaded (goes_on total_len (s.f + 1)))
    take_unlock :
        {b : Bool} → Move s (take_loaded b) (record s { mutex = s.mutex + 1 }) (take_leaving b)
    take_post :
        {b : Bool}
        → Move s
            (take_leaving b)
            (record s { empty = s.empty + 1 })
            (if b then consuming else take_ended)

  pub data Step (s : System) : System → Type 0 where
    pick :
        (i : ℕ) {q : Shared} {b : Pc}
        → i < length s.pcs
        → Move s.shared (get_or s.pcs i put_ended) q b
        → Step s (record { shared = q; pcs = set s.pcs i b })

  pub data Reach (s : System) : System → Type 0 where
    here : Reach s s
    next : {t u : System} → Reach s t → Step t u → Reach s u

  -- `main` after its forks, with `n` producers and `n` consumers, as PRODUCER_NUM is CONSUMER_NUM.
  unfoldable pub start : (n : ℕ) → System
  start n = record {
    shared = record {
      queue = replicate queue_len blank;
      f = 0;
      p = 0;
      mutex = 1;
      empty = queue_len;
      full = 0;
      taken = [];
    };
    pcs = replicate n producing ++ replicate n consuming;
  }
