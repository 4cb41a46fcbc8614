-- ===== src/BoundedQueue/Memory.antt =====
-- memcpy into one slot of a block, and what the slots read afterwards.
use linux_programming.Prelude.{
  ℕ, zero, suc, ◌+◌, ◌≤◌, ◌<◌, ◌≡◌, ◌⊎◌, refl, ap, ap₂, ◌∙◌, List, [], ◌∷◌, arith, length, get_or,
  set, take, drop, length-set, get_or-set_self, get_or-set_ne,
}
use linux_programming.Ring.Memory.{write_at, slice, length-write_at, drop-cons}

take-drop-set :
    (k c i x : ℕ) (buf : List ℕ)
    → i < c ⊎ c + k ≤ i
    → take k (drop c (set buf i x)) ≡ take k (drop c buf)
take-drop-set k c i x [] h = refl
take-drop-set zero zero zero x (y ∷ buf) h = refl
take-drop-set (suc k) zero zero x (y ∷ buf) h = absurd (omega arith)
take-drop-set zero zero (suc i) x (y ∷ buf) h = refl
take-drop-set (suc k) zero (suc i) x (y ∷ buf) h =
    ap (λ l. y ∷ l) (take-drop-set k zero i x buf (omega arith))
take-drop-set k (suc c) zero x (y ∷ buf) h = refl
take-drop-set k (suc c) (suc i) x (y ∷ buf) h = take-drop-set k c i x buf (omega arith)

-- A write at `b` does not show in a range that ends before it or begins after it.
pub slice-write_at_other :
    (buf bs : List ℕ) (b c k : ℕ)
    → c + k ≤ b ⊎ b + length bs ≤ c
    → slice (write_at buf b bs) (record { base = c; len = k })
      ≡ slice buf (record { base = c; len = k })
unfolding write_at
slice-write_at_other buf [] b c k h = refl
slice-write_at_other buf (x ∷ xs) b c k h =
    slice-write_at_other (set buf b x) xs (b + 1) c k (omega arith)
    ∙ take-drop-set k c b x buf (omega arith)

get_or-write_at :
    (buf bs : List ℕ) (b i : ℕ) → i < b → get_or (write_at buf b bs) i 0 ≡ get_or buf i 0
unfolding write_at
get_or-write_at buf [] b i h = refl
get_or-write_at buf (x ∷ xs) b i h =
    get_or-write_at (set buf b x) xs (b + 1) i (omega arith)
    ∙ get_or-set_ne buf b i x 0 (λ e. omega arith)

-- What was written reads back.
pub slice-write_at :
    (buf bs : List ℕ) (b k : ℕ)
    → length bs ≡ k
    → b + k ≤ length buf
    → slice (write_at buf b bs) (record { base = b; len = k }) ≡ bs
unfolding write_at
slice-write_at buf [] b zero e h = refl
slice-write_at buf [] b (suc k) e h = absurd (omega arith)
slice-write_at buf (x ∷ xs) b zero e h = absurd (omega arith)
slice-write_at buf (x ∷ xs) b (suc k) e h =
    let after = write_at (set buf b x) (b + 1) xs in
    let size : length after ≡ length buf =
      length-write_at (set buf b x) (b + 1) xs ∙ length-set buf b x in
    rw (drop-cons after b (omega arith)) (
      ap₂ ◌∷◌
        (get_or-write_at (set buf b x) xs (b + 1) b (omega arith)
          ∙ get_or-set_self buf b x 0 (omega arith))
        (slice-write_at (set buf b x) xs (b + 1) k (omega arith)
          (omega (arith, length-set buf b x))))
