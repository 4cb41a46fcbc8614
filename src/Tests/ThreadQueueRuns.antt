-- ===== src/Tests/ThreadQueueRuns.antt =====
-- pthread/blocking_queue/main.cpp with one producer, one consumer and one item.
use linux_programming.Prelude.{◌+◌, ◌*◌, ◌≤◌, ◌≢◌, ◌⊎◌, refl, List, [], ◌∷◌, some, arith}
use linux_programming.ThreadQueue.{
  Item, push, producing, put_pushed, take_locked, take_sleeping, put_lock, put_push, put_unlock,
  put_tell, take_enter, take_lock, take_sleep, System, pick, advance, Reach, here, next, start,
  producers,
}
use linux_programming.ThreadQueue.Finish.{IsDone}
use linux_programming.ThreadQueue.Progress.{Goes}
use linux_programming.ThreadQueue.Bound.{advances, wakes}
use linux_programming.ThreadQueue.Condvar
use linux_programming.ThreadQueue.Condvar.{condvar, condvar-Goes_or_IsDone, condvar_steps_le}
use linux_programming.ThreadQueue.Semaphore
use linux_programming.ThreadQueue.Semaphore.{semaphore, semaphore-Goes_or_IsDone, take_finds_item}

-- The consumer sleeps, and the producer has put its item and holds the mutex.
abbrev pushed : System condvar
pushed = record {
  shared = record { queue = some (0, 0) ∷ []; mutex = 0; pushed = some (0, 0) ∷ []; popped = [] };
  signal = record { waiters = 1; wakeups = 0 };
  pcs = put_pushed 0 0 ∷ take_sleeping ∷ [];
}

pushed-Reach : Reach condvar 1 (start condvar 1) pushed
unfolding start producers push
pushed-Reach =
    next
      (next
        (next
          (next (next here (advance (pick 1 (omega arith) take_enter Condvar.no_wait)))
            (advance (pick 1 (omega arith) (take_lock (omega arith)) Condvar.pass)))
          (advance (pick 1 (omega arith) (take_sleep refl) Condvar.begin_wait)))
        (advance (pick 0 (omega arith) (put_lock (omega arith) (omega arith)) Condvar.pass)))
      (advance (pick 0 (omega arith) put_push Condvar.pass))

condvar-Goes_or_IsDone_example : Goes condvar 1 pushed ⊎ IsDone 1 1 pushed.shared pushed.pcs
condvar-Goes_or_IsDone_example = condvar-Goes_or_IsDone 1 1 pushed-Reach

condvar_steps_le_example :
    advances pushed-Reach ≤ 1 * (12 * (1 + 1)) + 1 * 4 + 2 * wakes pushed-Reach
condvar_steps_le_example = condvar_steps_le 1 1 pushed-Reach

-- The item is in, and the consumer is about to take it.
abbrev taking : System semaphore
taking = record {
  shared = record { queue = some (0, 0) ∷ []; mutex = 0; pushed = some (0, 0) ∷ []; popped = [] };
  signal = 0;
  pcs = producing 0 1 ∷ take_locked ∷ [];
}

taking-Reach : Reach semaphore 1 (start semaphore 1) taking
unfolding start producers push
taking-Reach =
    next
      (next
        (next
          (next
            (next
              (next here (
                advance
                  (pick 0 (omega arith) (put_lock (omega arith) (omega arith)) Semaphore.pass)))
              (advance (pick 0 (omega arith) put_push Semaphore.pass)))
            (advance (pick 0 (omega arith) put_unlock Semaphore.pass)))
          (advance (pick 0 (omega arith) put_tell Semaphore.post_one)))
        (advance (pick 1 (omega arith) take_enter (Semaphore.wait_one (omega arith)))))
      (advance (pick 1 (omega arith) (take_lock (omega arith)) Semaphore.pass))

semaphore-Goes_or_IsDone_example : Goes semaphore 1 taking ⊎ IsDone 1 1 taking.shared taking.pcs
semaphore-Goes_or_IsDone_example = semaphore-Goes_or_IsDone 1 1 taking-Reach

take_finds_item_example : ◌≢◌ {A = List Item} (some (0, 0) ∷ []) []
take_finds_item_example = take_finds_item 1 1 taking-Reach 1 (omega arith) refl
