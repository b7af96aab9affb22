-- ===== src/Prelude/Int.antt =====
-- Signed integers over the native numbers: what an `int` of the program stands for.
use silicon.Prelude.Tests.{ltb, ◌==◌, if◌then◌else◌}
use Prim.Native.Nat.{ℕ}
use mathlib.Core.Bool.{Bool, true, false}

-- `negsuc n` is -(n + 1).
pub data ℤ : Type 0 where
  pos : ℕ → ℤ
  negsuc : ℕ → ℤ

-- `v < m`, at a literal m that is not negative.
abbrev pub below : ℤ → ℕ → Bool
below (pos n) m = ltb n m
below (negsuc n) m = true

-- The number that a value above zero stands for.
abbrev pub to_nat : ℤ → ℕ
to_nat (pos n) = n
to_nat (negsuc n) = 0

-- std::max(v, m), at a literal m that is not negative.
abbrev pub max_int : ℤ → ℕ → ℤ
max_int v m = if below v m then pos m else v

abbrev pub eq_int : ℤ → ℤ → Bool
eq_int (pos m) (pos n) = m == n
eq_int (pos m) (negsuc n) = false
eq_int (negsuc m) (pos n) = false
eq_int (negsuc m) (negsuc n) = m == n
