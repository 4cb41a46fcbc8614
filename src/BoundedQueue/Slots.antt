-- ===== src/BoundedQueue/Slots.antt =====
-- The slots of the block in bounded_blocking_queue.cpp, and the items that wait in them.
use linux_programming.Prelude.{
  ℕ, zero, suc, ◌+◌, ◌-◌, ◌*◌, ◌%◌, ◌≤◌, ◌<◌, ◌≡◌, ◌≢◌, ◌⊎◌, inl, inr, refl, ap₂, sym, List, [],
  ◌∷◌, ◌++◌, arith, length, dec_lt,
}
use native.Mathlib.Nat.{div-add-mod, mod-lt}
use linux_programming.Ring.Memory.{write_at, slice}
use linux_programming.BoundedQueue.{Queue, store_item, load_item, drop_item}
use linux_programming.BoundedQueue.Memory.{slice-write_at, slice-write_at_other}

pub mod_ne : (m k p : ℕ) → k < p → p < k + m → k % m ≢ p % m
mod_ne m k p h l e = grind (arith, div-add-mod)

slot_inside : (size m x : ℕ) → x < m → size * x + size ≤ size * m
slot_inside size m x h = grind arith

-- Slots at different places do not overlap.
slots_apart : (size x y : ℕ) → x ≢ y → size * y + size ≤ size * x ⊎ size * x + size ≤ size * y
slots_apart size x y ne = elim (dec_lt x y) [
  | yes h ↦ inr (slot_inside size y x h)
  | no h ↦ inl (slot_inside size x y (ground arith))
]

module _ (size m : ℕ) where
  unfoldable pub slot : List ℕ → ℕ → List ℕ
  slot block k = slice block (record { base = size * (k % m); len = size })

  -- The `n` items from number `k` on.
  unfoldable pub slots : List ℕ → ℕ → ℕ → List (List ℕ)
  slots block k zero = []
  slots block k (suc n) = slot block k ∷ slots block (k + 1) n

  -- An item written at number `p` shows only there.
  slots-write_at :
      (block item : List ℕ) (p k n : ℕ)
      → length item ≡ size
      → k + n ≤ p
      → p < k + m
      → slots (write_at block (size * (p % m)) item) k n ≡ slots block k n
  unfolding slots slot
  slots-write_at block item p k zero e h l = refl
  slots-write_at block item p k (suc n) e h l =
      ap₂ ◌∷◌
        (slice-write_at_other block item (size * (p % m)) (size * (k % m)) size
          (rw e (slots_apart size (p % m) (k % m) (λ z. mod_ne m k p (omega arith) l (sym z)))))
        (slots-write_at block item p (k + 1) n e (omega arith) (omega arith))

  slots_end :
      (block : List ℕ) (k n : ℕ)
      → slots block k (n + 1) ≡ slots block k n ++ (slot block (k + n) ∷ [])
  unfolding slots
  slots_end block k zero = let z : k + 0 ≡ k = omega arith in rw z
  slots_end block k (suc n) =
      let e : suc n + 1 ≡ suc (n + 1) = omega arith in
      let z : k + 1 + n ≡ k + suc n = omega arith in rw (e, slots_end block (k + 1) n, z)

-- The items that wait in the queue, in the order in which they will be taken.
unfoldable pub items : Queue → List (List ℕ)
unfolding slots slot
items q = slots q.item_size q.queue_size q.que q.f (q.p - q.f)

abbrev Shaped : Queue → Type 0
Shaped q = length q.que ≡ q.item_size * q.queue_size

-- The body of `bbq_put` appends the item, if a slot is free.
pub items-store_item :
    (q : Queue) (item : List ℕ)
    → length q.que ≡ q.item_size * q.queue_size
    → length item ≡ q.item_size
    → q.f ≤ q.p
    → q.p < q.f + q.queue_size
    → items (store_item item q) ≡ items q ++ (item ∷ [])
unfolding items store_item
items-store_item q item hl e le lt =
    let size = q.item_size in
    let m = q.queue_size in
    let block = write_at q.que (size * (q.p % m)) item in
    let n : q.p + 1 - q.f ≡ q.p - q.f + 1 = omega arith in
    let at_p : q.f + (q.p - q.f) ≡ q.p = omega arith in
    let back : slot size m block q.p ≡ item =
      unfold slot in
      slice-write_at q.que item (size * (q.p % m)) size e
        (rw hl (slot_inside size m (q.p % m) (mod-lt q.p {m = m} (omega arith)))) in
    rw (
      n,
      slots_end size m block q.f (q.p - q.f),
      at_p,
      back,
      slots-write_at size m q.que item q.p q.f (q.p - q.f) e (omega arith) lt,
    )

-- The body of `bbq_take` copies out the first item, and drops it.
pub items-load_item : (q : Queue) → q.f < q.p → items q ≡ load_item q ∷ items (drop_item q)
unfolding items load_item drop_item
items-load_item q h = let n : q.p - q.f ≡ suc (q.p - (q.f + 1)) = omega arith in rw n
