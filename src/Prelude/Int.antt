-- ===== src/Prelude/Int.antt =====
-- A C `int` that is the low half of a 64-bit word, as the integer that it stands for.
use Prim.Native.Nat.{ℕ, ◌-◌, ◌%◌, ◌^◌}
use linux_programming.Prelude.Tests.{ltb, leb, ◌==◌, if◌then◌else◌}
use mathlib.Core.Bool.{Bool, true, false}

-- `negsuc n` is -(n + 1).
pub data ℤ : Type 0 where
  pos : ℕ → ℤ
  negsuc : ℕ → ℤ

-- The conversion of a 64-bit word to `int`: its low 32 bits, read in two's complement.
abbrev pub to_int : ℕ → ℤ
to_int x = if ltb (x % 2 ^ 32) (2 ^ 31) then pos (x % 2 ^ 32) else negsuc (2 ^ 32 - x % 2 ^ 32 - 1)

-- `x <= 0`
abbrev pub nonpositive : ℤ → Bool
nonpositive (pos n) = n == 0
nonpositive (negsuc n) = true

abbrev pub eq_ℤ : ℤ → ℤ → Bool
eq_ℤ (pos a) (pos b) = a == b
eq_ℤ (negsuc a) (negsuc b) = a == b
eq_ℤ a b = false

-- `x >= k`
abbrev pub at_least : ℕ → ℤ → Bool
at_least k (pos n) = leb k n
at_least k (negsuc n) = false
