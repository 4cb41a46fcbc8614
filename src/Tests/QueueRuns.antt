-- ===== src/Tests/QueueRuns.antt =====
-- bounded_blocking_queue.cpp, run by two processes on a block of two slots of two bytes.
use linux_programming.Prelude.{ℕ, ◌+◌, ◌≤◌, ◌<◌, ◌≡◌, refl, List, [], ◌∷◌, ◌++◌, arith}
use linux_programming.Ring.Memory.{write_at}
use linux_programming.BoundedQueue.{
  bbq_init, store_item, idle, take_locked, put_locked, put_stored, put_wait, put_lock, put_store,
  System, pick, Reach, here, next,
}
use linux_programming.BoundedQueue.Invariant.{start, mutual_exclusion, room_and_items}
use linux_programming.BoundedQueue.Slots.{items}
use linux_programming.BoundedQueue.Fifo.{first_in_first_out}

abbrev block : List ℕ
block = 0 ∷ 0 ∷ 0 ∷ 0 ∷ []

abbrev item : List ℕ
item = 7 ∷ 8 ∷ []

abbrev rest : System
unfolding start bbq_init
rest = start 2 2 block 2

-- Process 1 is in `bbq_put` and holds the mutex.
abbrev locked : System
locked = record {
  queue = record {
    mutex = 0;
    empty = 1;
    full = 0;
    item_size = 2;
    queue_size = 2;
    f = 0;
    p = 0;
    que = block;
  };
  pcs = idle ∷ put_locked item ∷ [];
  ins = [];
  outs = [];
}

locked-Reach : Reach (start 2 2 block 2) locked
unfolding start bbq_init
locked-Reach =
    next (next here (pick 1 (omega arith) (put_wait item refl (omega arith))))
      (pick 1 (omega arith) (put_lock (omega arith)))

-- It has stored its item.
abbrev filled : System
filled = record {
  queue = record {
    mutex = 0;
    empty = 1;
    full = 0;
    item_size = 2;
    queue_size = 2;
    f = 0;
    p = 1;
    que = 7 ∷ 8 ∷ 0 ∷ 0 ∷ [];
  };
  pcs = idle ∷ put_stored ∷ [];
  ins = item ∷ [];
  outs = [];
}

filled-Reach : Reach (start 2 2 block 2) filled
unfolding start bbq_init store_item write_at
filled-Reach = next locked-Reach (pick 1 (omega arith) put_store)

mutual_exclusion_example : ◌≡◌ {A = ℕ} 1 1
mutual_exclusion_example =
    mutual_exclusion 2 2 2 block locked-Reach 1 1 (omega arith) (omega arith) refl refl

room_and_items_example :
    ((x : List ℕ) → put_locked item ≡ put_locked x → 0 < 0 + 2)
    × (put_locked item ≡ take_locked → 0 < 0)
    × (0 ≤ 0 + 2)
room_and_items_example = room_and_items 2 2 2 block locked-Reach 1 (omega arith)

first_in_first_out_example : item ∷ [] ≡ [] ++ items filled.queue
first_in_first_out_example = first_in_first_out 2 2 2 block refl filled-Reach
