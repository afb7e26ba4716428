-- ===== src/Prelude/Int.antt =====
-- The integers of Go's `int`, where a value may be negative; `negsuc n` is -(n + 1).
use Prim.Native.Nat.{ℕ, zero, suc}
use mathlib.Core.Bool.{Bool, true, false}

pub data ℤ : Type 0 where
  pos : ℕ → ℤ
  negsuc : ℕ → ℤ

-- `n > 0`
abbrev pub is_positive : ℤ → Bool
is_positive (pos zero) = false
is_positive (pos (suc n)) = true
is_positive (negsuc n) = false

-- `n < 0`
abbrev pub is_negative : ℤ → Bool
is_negative (pos n) = false
is_negative (negsuc n) = true

-- The value of an integer that is not negative.
abbrev pub to_nat : ℤ → ℕ
to_nat (pos n) = n
to_nat (negsuc n) = 0
