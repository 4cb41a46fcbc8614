-- ===== src/Threads.antt =====
-- Threads or processes over shared memory, interleaved in any order: what the models of the queues
-- share. A thread is the place where it stands; `Move` is what one thread may do.
use linux_programming.Prelude.{
  ℕ, zero, suc, ◌+◌, ◌*◌, ◌≤◌, ◌<◌, ◌≡◌, ◌≢◌, ◌++◌, List, [], ◌∷◌, arith, length, get_or, set,
  replicate, length-set, get_or-set_ne, ap, ℕ_discrete,
}

-- The numbers before `n`, in order.
unfoldable pub upto : ℕ → List ℕ
upto zero = []
upto (suc n) = upto n ++ (n ∷ [])

module _ {P : Type 0} where
  -- A weight summed over the threads.
  unfoldable pub total : (P → ℕ) → List P → ℕ
  total w [] = 0
  total w (a ∷ as') = w a + total w as'

  total-set :
      (w : P → ℕ) (d : P) (l : List P) (i : ℕ) (b : P)
      → i < length l
      → total w (set l i b) + w (get_or l i d) ≡ total w l + w b
  unfolding total
  total-set w d [] i b h = absurd (omega arith)
  total-set w d (a ∷ l) zero b h = omega arith
  total-set w d (a ∷ l) (suc i) b h = omega (arith, total-set w d l i b (omega arith))

  -- The weight of the threads other than `i`; `d` stands in its place.
  pub others : (P → ℕ) → P → List P → ℕ → ℕ
  others w d l i = total w (set l i d)

  pub split-total :
      (w : P → ℕ) (d : P) (l : List P) (i : ℕ) (b : P)
      → w d ≡ 0
      → i < length l
      → (total w l ≡ others w d l i + w (get_or l i d))
        × (total w (set l i b) ≡ others w d l i + w b)
  unfolding others
  split-total w d l i b z h = (
    omega (arith, total-set w d l i d h),
    omega (arith, total-set w d l i d h, total-set w d l i b h),
  )

  pub total-replicate : (w : P → ℕ) (a : P) (n : ℕ) → total w (replicate n a) ≡ n * w a
  unfolding total
  total-replicate w a zero = omega arith
  total-replicate w a (suc n) = omega (arith, total-replicate w a n)

  pub total-append : (w : P → ℕ) (l r : List P) → total w (l ++ r) ≡ total w l + total w r
  unfolding total
  total-append w [] r = omega arith
  total-append w (a ∷ l) r = omega (arith, total-append w l r)

  pub two-le-total :
      (w : P → ℕ) (d : P) (l : List P) (i j : ℕ)
      → w d ≡ 0
      → i < length l
      → j < length l
      → i ≢ j
      → w (get_or l i d) + w (get_or l j d) ≤ total w l
  two-le-total w d l i j z hi hj ne =
      let a = total-set w d l i d hi in
      let b = total-set w d (set l i d) j d (omega (arith, length-set l i d)) in
      omega (arith, a, b, z, ap w (get_or-set_ne l i j d d ne))

  pub one-le-total :
      (w : P → ℕ) (d : P) (l : List P) (i : ℕ)
      → w d ≡ 0
      → i < length l
      → w (get_or l i d) ≤ total w l
  one-le-total w d l i z h = omega (arith, total-set w d l i d h, z)

  -- A weight that is not 0 is some thread's.
  pub total-found :
      (w : P → ℕ) (d : P) (l : List P)
      → 0 < total w l
      → (i : ℕ) × (i < length l) × (0 < w (get_or l i d))
  unfolding total
  total-found w d [] h = absurd (omega arith)
  total-found w d (a ∷ l) h = elim (ℕ_discrete (w a) 0) [
    | yes z ↦ let (i, l', p) = total-found w d l (omega (arith, z)) in (suc i, omega (arith, l'), p)
    | no nz ↦ (0, omega arith, omega (arith, nz))
  ]

  pub total-le :
      (w u v : P → ℕ) (l : List P) → ((a : P) → w a ≤ u a + v a) → total w l ≤ total u l + total v l
  unfolding total
  total-le w u v [] h = omega arith
  total-le w u v (a ∷ l) h = omega (arith, h a, total-le w u v l h)

  pub total_mono : (w u : P → ℕ) (l : List P) → ((a : P) → w a ≤ u a) → total w l ≤ total u l
  unfolding total
  total_mono w u [] h = omega arith
  total_mono w u (a ∷ l) h = omega (arith, h a, total_mono w u l h)
