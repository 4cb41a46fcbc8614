-- ===== src/BoundedQueue/Fifo.antt =====
-- The history of the items in bounded_blocking_queue.cpp: stored, waiting, taken.
use linux_programming.Prelude.{
  ℕ, zero, suc, ◌+◌, ◌*◌, ◌≤◌, ◌<◌, ◌≡◌, refl, ◌∙◌, sym, List, ◌++◌, length, get_or, replicate,
  ℕ_discrete, get_or-set_self, get_or-set_ne, append_assoc, append-nil,
}
use mathlib.Core.Path.{subst}
use linux_programming.Ring.Memory.{length-write_at}
use linux_programming.BoundedQueue.{
  Queue, bbq_init, pointer, store_item, drop_item, Pc, idle, put_waiting, put_locked, put_stored,
  put_leaving, take_waiting, take_locked, take_loaded, take_leaving, asking, asked, Move, put_wait,
  put_lock, put_store, put_unlock, put_post, take_wait, take_lock, take_load, take_unlock,
  take_post, ask_lock, ask, ask_unlock, stored, taken, System, Step, pick, Reach, here, next,
}
use linux_programming.BoundedQueue.Invariant.{
  IsSound, Step-IsSound, start-IsSound, storing, taking, start,
}
use linux_programming.BoundedQueue.Slots.{items, slots, items-store_item, items-load_item}

-- What a move does to the waiting items.
record Passes (q r : Queue) (a b : Pc) : Type 0 where
  same_size : r.item_size ≡ q.item_size
  shape : length r.que ≡ r.item_size * r.queue_size
  moved : taken a b ++ items r ≡ items q ++ stored a b

-- What holds of the mover, by the semaphores and by its arguments.
record May (q : Queue) (a : Pc) : Type 0 where
  shape : length q.que ≡ q.item_size * q.queue_size
  order : q.f ≤ q.p
  room :
      (item : List ℕ)
      → a ≡ put_locked item
      → (q.p < q.f + q.queue_size) × (length item ≡ q.item_size)
  some_item : a ≡ take_locked → q.f < q.p

Move-Passes : {q r : Queue} {a b : Pc} → Move q a r b → May q a → Passes q r a b
unfolding items
Move-Passes {q} (put_wait item n z) v = record {
  same_size = refl;
  shape = v.shape;
  moved = sym (append-nil (items q));
}
Move-Passes {q} (put_lock z) v = record {
  same_size = refl;
  shape = v.shape;
  moved = sym (append-nil (items q));
}
Move-Passes {q} (put_store {item}) v =
    let (room, size) = v.room item refl in
    record {
      same_size = unfold store_item in refl;
      shape = unfold store_item in length-write_at q.que (pointer q q.p) item ∙ v.shape;
      moved = items-store_item q item v.shape size v.order room;
    }
Move-Passes {q} put_unlock v = record {
  same_size = refl;
  shape = v.shape;
  moved = sym (append-nil (items q));
}
Move-Passes {q} put_post v = record {
  same_size = refl;
  shape = v.shape;
  moved = sym (append-nil (items q));
}
Move-Passes {q} (take_wait z) v = record {
  same_size = refl;
  shape = v.shape;
  moved = sym (append-nil (items q));
}
Move-Passes {q} (take_lock z) v = record {
  same_size = refl;
  shape = v.shape;
  moved = sym (append-nil (items q));
}
Move-Passes {q} take_load v = record {
  same_size = unfold drop_item in refl;
  shape = unfold drop_item in v.shape;
  moved = sym (items-load_item q (v.some_item refl)) ∙ sym (append-nil (items q));
}
Move-Passes {q} take_unlock v = record {
  same_size = refl;
  shape = v.shape;
  moved = sym (append-nil (items q));
}
Move-Passes {q} take_post v = record {
  same_size = refl;
  shape = v.shape;
  moved = sym (append-nil (items q));
}
Move-Passes {q} (ask_lock z) v = record {
  same_size = refl;
  shape = v.shape;
  moved = sym (append-nil (items q));
}
Move-Passes {q} ask v = record {
  same_size = refl;
  shape = v.shape;
  moved = sym (append-nil (items q));
}
Move-Passes {q} ask_unlock v = record {
  same_size = refl;
  shape = v.shape;
  moved = sym (append-nil (items q));
}

-- The item that a process in `bbq_put` is about to store is one item long.
abbrev Fits : Queue → Pc → Type 0
Fits q (put_waiting item) = length item ≡ q.item_size
Fits q (put_locked item) = length item ≡ q.item_size
Fits q a = Unit

-- The history: what was stored is what was taken, followed by what waits.
pub record IsFifo (s : System) : Type 0 where
  pub sound : IsSound s
  pub shape : length s.queue.que ≡ s.queue.item_size * s.queue.queue_size
  pub fits : (i : ℕ) → Fits s.queue (get_or s.pcs i idle)
  pub history : s.ins ≡ s.outs ++ items s.queue

Move-Fits : {q r : Queue} {a b : Pc} → Move q a r b → Fits q a → Fits r b
Move-Fits (put_wait item n z) h = n
Move-Fits (put_lock z) h = h
Move-Fits put_store h = tt
Move-Fits put_unlock h = tt
Move-Fits put_post h = tt
Move-Fits (take_wait z) h = tt
Move-Fits (take_lock z) h = tt
Move-Fits take_load h = tt
Move-Fits take_unlock h = tt
Move-Fits take_post h = tt
Move-Fits (ask_lock z) h = tt
Move-Fits ask h = tt
Move-Fits ask_unlock h = tt

Fits-size : (q r : Queue) → r.item_size ≡ q.item_size → (a : Pc) → Fits q a → Fits r a
Fits-size q r e (put_waiting item) h = h ∙ sym e
Fits-size q r e (put_locked item) h = h ∙ sym e
Fits-size q r e idle h = tt
Fits-size q r e put_stored h = tt
Fits-size q r e put_leaving h = tt
Fits-size q r e take_waiting h = tt
Fits-size q r e take_locked h = tt
Fits-size q r e (take_loaded item) h = tt
Fits-size q r e (take_leaving item) h = tt
Fits-size q r e asking h = tt
Fits-size q r e (asked answer) h = tt

May-move : (s : System) (i : ℕ) → IsFifo s → i < length s.pcs → May s.queue (get_or s.pcs i idle)
May-move s i v h = record {
  shape = v.shape;
  order = v.sound.order;
  room = λ item e. (storing s v.sound i item h e, subst (Fits s.queue) e (v.fits i));
  some_item = λ e. taking s v.sound i h e;
}

Step-IsFifo : {s t : System} → Step s t → IsFifo s → IsFifo t
Step-IsFifo {s} (pick i {q} {b} h mv) v =
    let passes = Move-Passes mv (May-move s i v h) in
    record {
      sound = Step-IsSound (pick i h mv) v.sound;
      shape = passes.shape;
      fits = λ j. elim (ℕ_discrete i j) [
        | yes e ↦ rw (sym e, get_or-set_self s.pcs i b idle h) (Move-Fits mv (v.fits i))
        | no ne ↦
            rw (get_or-set_ne s.pcs i j b idle ne)
              (Fits-size s.queue q passes.same_size (get_or s.pcs j idle) (v.fits j))
      ];
      history =
          let out = taken (get_or s.pcs i idle) b in
          rw (
            v.history,
            append_assoc s.outs (items s.queue) (stored (get_or s.pcs i idle) b),
            append_assoc s.outs out (items q),
            passes.moved,
          );
    }

get_or-replicate : (n i : ℕ) → get_or (replicate n idle) i idle ≡ idle
get_or-replicate zero i = refl
get_or-replicate (suc n) zero = refl
get_or-replicate (suc n) (suc i) = get_or-replicate n i

start-IsFifo :
    (k m : ℕ) (block : List ℕ) (n : ℕ) → length block ≡ k * m → IsFifo (start k m block n)
unfolding start bbq_init items slots
start-IsFifo k m block n h = record {
  sound = start-IsSound k m block n;
  shape = h;
  fits = λ i. subst (Fits (start k m block n).queue) (sym (get_or-replicate n i)) tt;
  history = refl;
}

Reach-IsFifo : {s t : System} → IsFifo s → Reach s t → IsFifo t
Reach-IsFifo v here = v
Reach-IsFifo v (next r st) = Step-IsFifo st (Reach-IsFifo v r)

-- Whatever the processes do, the items stored so far are the items taken so far followed by the
-- items in the queue: nothing is lost, repeated, reordered or changed. The block of memory holds
-- `k * m` bytes.
pub first_in_first_out :
    (k m n : ℕ) (block : List ℕ) {s : System}
    → length block ≡ k * m
    → Reach (start k m block n) s
    → s.ins ≡ s.outs ++ items s.queue
first_in_first_out k m n block h r = (Reach-IsFifo (start-IsFifo k m block n h) r).history
