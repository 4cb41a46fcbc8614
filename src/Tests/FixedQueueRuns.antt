-- ===== src/Tests/FixedQueueRuns.antt =====
-- bounded_blocking_queue_semaphore_mmap_unnamed0/main.cpp with two slots, one producer and one consumer.
use linux_programming.Prelude.{◌+◌, ◌*◌, ◌≤◌, ◌⊎◌, [], ◌∷◌, true, arith}
use linux_programming.FixedQueue.{
  blank, put_stored, consuming, put_wait, put_lock, put_store, System, pick, Reach, here, next,
  start, store, goes_on,
}
use linux_programming.FixedQueue.Rest.{IsDone}
use linux_programming.FixedQueue.Ends.{Goes, steps, ends_in_order}

-- The producer has stored its first node.
abbrev stored : System
stored = record {
  shared = record {
    queue = record { id = 0; author = 9; value = 5 } ∷ blank ∷ [];
    f = 0;
    p = 1;
    mutex = 0;
    empty = 1;
    full = 0;
    taken = [];
  };
  pcs = put_stored true ∷ consuming ∷ [];
}

stored-Reach : Reach 2 3 (start 2 3 1) stored
unfolding start store goes_on
stored-Reach =
    next
      (next (next here (pick 0 (omega arith) (put_wait (omega arith))))
        (pick 0 (omega arith) (put_lock (omega arith))))
      (pick 0 (omega arith) (put_store 9 5))

ends_in_order_example :
    (Goes 2 3 1 stored ⊎ IsDone 3 1 stored) × (steps stored-Reach ≤ 10 * (3 + 1) + 4 * 1)
ends_in_order_example = ends_in_order 2 3 1 (omega arith) (omega arith) stored-Reach
