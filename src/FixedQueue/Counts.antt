-- ===== src/FixedQueue/Counts.antt =====
-- The semaphores of bounded_blocking_queue_semaphore_mmap_unnamed0/main.cpp, and the processes that have
-- made their last round, counted.
use linux_programming.Prelude.{
  ℕ, ◌+◌, ◌-◌, ◌*◌, ◌<◌, ◌≡◌, refl, true, false, length, get_or, set, replicate, arith,
}
use linux_programming.Threads.{total, others, split-total, total-replicate, total-append}
use linux_programming.FixedQueue.{
  Shared, Pc, producing, put_waiting, put_locked, put_stored, put_leaving, put_ended, consuming,
  take_waiting, take_locked, take_loaded, take_leaving, take_ended, Move, put_wait, put_lock,
  put_store, put_unlock, put_post, take_wait, take_lock, take_load, take_unlock, take_post, System,
  store, load, goes_on, start,
}

-- The process holds the mutex.
abbrev pub locks : Pc → ℕ
locks put_locked = 1
locks (put_stored b) = 1
locks take_locked = 1
locks (take_loaded b) = 1
locks a = 0

-- It holds a unit of `empty`: for a node not stored yet, or for one that is read already.
abbrev pub holds_empty : Pc → ℕ
holds_empty put_waiting = 1
holds_empty put_locked = 1
holds_empty (take_loaded b) = 1
holds_empty (take_leaving b) = 1
holds_empty a = 0

-- It holds a unit of `full`: for a node not read yet, or for one that is stored already.
abbrev pub holds_full : Pc → ℕ
holds_full take_waiting = 1
holds_full take_locked = 1
holds_full (put_stored b) = 1
holds_full (put_leaving b) = 1
holds_full a = 0

-- It is a producer that still stores, or a consumer that still reads.
abbrev pub puts : Pc → ℕ
puts producing = 1
puts put_waiting = 1
puts put_locked = 1
puts (put_stored true) = 1
puts (put_leaving true) = 1
puts a = 0

abbrev pub takes : Pc → ℕ
takes consuming = 1
takes take_waiting = 1
takes take_locked = 1
takes (take_loaded true) = 1
takes (take_leaving true) = 1
takes a = 0

-- The steps that are left to it until its next store or read.
abbrev pub left : Pc → ℕ
left producing = 2
left put_waiting = 1
left put_locked = 0
left (put_stored b) = 4
left (put_leaving b) = 3
left put_ended = 0
left consuming = 2
left take_waiting = 1
left take_locked = 0
left (take_loaded b) = 4
left (take_leaving b) = 3
left take_ended = 0

-- `total_len` and `n` processes of each kind; the weights of the other processes are `l`, `e`, `h`, `x`
-- and `y`.
abbrev Counts : (queue_len total_len n : ℕ) → Shared → (l e h x y : ℕ) → Type 0
Counts queue_len total_len n s l e h x y =
    (s.mutex + l ≡ 1)
    × (s.f + s.full + h ≡ s.p)
    × (s.empty + e + s.p ≡ queue_len + s.f)
    × (x + (s.p - total_len) ≡ n)
    × (y + (s.f - total_len) ≡ n)

last_put : (t c : ℕ) → puts (put_stored (goes_on t (c + 1))) + (c + 1 - t) ≡ 1 + (c - t)
unfolding goes_on
last_put t c = ground arith

last_take : (t c : ℕ) → takes (take_loaded (goes_on t (c + 1))) + (c + 1 - t) ≡ 1 + (c - t)
unfolding goes_on
last_take t c = ground arith

Move-Counts :
    {u t n : ℕ} {q r : Shared} {a b : Pc} (l e h x y : ℕ)
    → Move u t q a r b
    → Counts u t n q (l + locks a) (e + holds_empty a) (h + holds_full a) (x + puts a) (y + takes a)
    → Counts u t n r (l + locks b) (e + holds_empty b) (h + holds_full b) (x + puts b) (y + takes b)
unfolding store load
Move-Counts l e h x y (put_wait z) c = omega arith
Move-Counts l e h x y (put_lock z) c = omega arith
Move-Counts {u} {t} {q = q} l e h x y (put_store author value) c = omega (arith, last_put t q.p)
Move-Counts l e h x y (put_unlock {b = true}) c = omega arith
Move-Counts l e h x y (put_unlock {b = false}) c = omega arith
Move-Counts l e h x y (put_post {b = true}) c = omega arith
Move-Counts l e h x y (put_post {b = false}) c = omega arith
Move-Counts l e h x y (take_wait z) c = omega arith
Move-Counts l e h x y (take_lock z) c = omega arith
Move-Counts {u} {t} {q = q} l e h x y take_load c = omega (arith, last_take t q.f)
Move-Counts l e h x y (take_unlock {b = true}) c = omega arith
Move-Counts l e h x y (take_unlock {b = false}) c = omega arith
Move-Counts l e h x y (take_post {b = true}) c = omega arith
Move-Counts l e h x y (take_post {b = false}) c = omega arith

-- The steps that are left, of which a round takes 5.
abbrev pub measure : (total_len n : ℕ) → Shared → ℕ → ℕ
measure total_len n s w = w + 5 * (total_len + n - s.p) + 5 * (total_len + n - s.f)

Move-measure :
    {u t n : ℕ} {q r : Shared} {a b : Pc} (l e h x y w : ℕ)
    → Move u t q a r b
    → Counts u t n q l e h (x + puts a) (y + takes a)
    → measure t n r (w + left b) < measure t n q (w + left a)
unfolding store load
Move-measure l e h x y w (put_wait z) c = omega arith
Move-measure l e h x y w (put_lock z) c = omega arith
Move-measure l e h x y w (put_store author value) c = omega arith
Move-measure l e h x y w put_unlock c = omega arith
Move-measure l e h x y w (put_post {b = true}) c = omega arith
Move-measure l e h x y w (put_post {b = false}) c = omega arith
Move-measure l e h x y w (take_wait z) c = omega arith
Move-measure l e h x y w (take_lock z) c = omega arith
Move-measure l e h x y w take_load c = omega arith
Move-measure l e h x y w take_unlock c = omega arith
Move-measure l e h x y w (take_post {b = true}) c = omega arith
Move-measure l e h x y w (take_post {b = false}) c = omega arith

pub record IsSound (queue_len total_len n : ℕ) (s : System) : Type 0 where
  pub one_lock : s.shared.mutex + total locks s.pcs ≡ 1
  pub nodes : s.shared.f + s.shared.full + total holds_full s.pcs ≡ s.shared.p
  pub slots : s.shared.empty + total holds_empty s.pcs + s.shared.p ≡ queue_len + s.shared.f
  pub producers : total puts s.pcs + (s.shared.p - total_len) ≡ n
  pub consumers : total takes s.pcs + (s.shared.f - total_len) ≡ n

start-total :
    (u t n : ℕ) (w : Pc → ℕ) → total w (start u t n).pcs ≡ n * w producing + n * w consuming
unfolding start
start-total u t n w = omega (
  arith,
  total-append w (replicate n producing) (replicate n consuming),
  total-replicate w producing n,
  total-replicate w consuming n,
)

module _ {u t n : ℕ} where
  pub counts :
      {s : System}
      → IsSound u t n s
      → Counts u t n s.shared
          (total locks s.pcs)
          (total holds_empty s.pcs)
          (total holds_full s.pcs)
          (total puts s.pcs)
          (total takes s.pcs)
  counts v = (v.one_lock, v.nodes, v.slots, v.producers, v.consumers)

  pub Move-IsSound :
      {s : System} {q : Shared} {b : Pc} (i : ℕ)
      → i < length s.pcs
      → Move u t s.shared (get_or s.pcs i put_ended) q b
      → IsSound u t n s
      → IsSound u t n (record { shared = q; pcs = set s.pcs i b })
        × (measure t n q (total left (set s.pcs i b)) < measure t n s.shared (total left s.pcs))
  Move-IsSound {s} {q} {b} i h mv v =
      let (l, l') = split-total locks put_ended s.pcs i b refl h in
      let (e, e') = split-total holds_empty put_ended s.pcs i b refl h in
      let (f, f') = split-total holds_full put_ended s.pcs i b refl h in
      let (x, x') = split-total puts put_ended s.pcs i b refl h in
      let (y, y') = split-total takes put_ended s.pcs i b refl h in
      let (w, w') = split-total left put_ended s.pcs i b refl h in
      let c = counts v in
      let d =
        Move-Counts (others locks put_ended s.pcs i) (others holds_empty put_ended s.pcs i)
          (others holds_full put_ended s.pcs i) (others puts put_ended s.pcs i)
          (others takes put_ended s.pcs i) mv (rw (l, e, f, x, y) at c) in
      (
        record {
          one_lock = omega (arith, l', d.0);
          nodes = omega (arith, f', d.1);
          slots = omega (arith, e', d.2);
          producers = omega (arith, x', d.3);
          consumers = omega (arith, y', d.4);
        },
        rw (w, w')
            (Move-measure (total locks s.pcs) (total holds_empty s.pcs) (total holds_full s.pcs)
              (others puts put_ended s.pcs i) (others takes put_ended s.pcs i)
              (others left put_ended s.pcs i) mv (rw (x, y) at c)),
      )

  pub start-IsSound : IsSound u t n (start u t n) × (total left (start u t n).pcs ≡ n * 4)
  unfolding start
  start-IsSound = (
    record {
      one_lock = omega (arith, start-total u t n locks);
      nodes = omega (arith, start-total u t n holds_full);
      slots = omega (arith, start-total u t n holds_empty);
      producers = omega (arith, start-total u t n puts);
      consumers = omega (arith, start-total u t n takes);
    },
    omega (arith, start-total u t n left),
  )
