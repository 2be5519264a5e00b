-- ===== src/Prelude/Int.antt =====
-- The C `int`, `int32_t` and `off_t` values that the program tests for a sign or for -1.
use Prim.Native.Nat.{ℕ, suc, ◌-◌, ◌%◌, ◌^◌}
use mathlib.Core.Bool.{Bool, true, false}
use westfield.Prelude.Tests.{ltb, ◌==◌}

-- `negsuc n` is -(n + 1).
pub data ℤ : Type 0 where
  pos : ℕ → ℤ
  negsuc : ℕ → ℤ

abbrev pub minus_one : ℤ
minus_one = negsuc 0

-- `x == -1`
abbrev pub is_minus_one : ℤ → Bool
is_minus_one (pos n) = false
is_minus_one (negsuc n) = n == 0

-- `x >= 0`
abbrev pub is_nonneg : ℤ → Bool
is_nonneg (pos n) = true
is_nonneg (negsuc n) = false

-- `x < 1`
abbrev pub lt_one : ℤ → Bool
lt_one (pos n) = n == 0
lt_one (negsuc n) = true

-- `n > x` for an unsigned `n` that is widened to the signed type of `x`
abbrev pub nat_gt : ℕ → ℤ → Bool
nat_gt n (pos m) = ltb m n
nat_gt n (negsuc m) = true

-- The conversion of `x` to an unsigned type of `w` bits, for `x` no less than -2^w.
abbrev pub to_unsigned : ℕ → ℤ → ℕ
to_unsigned w (pos n) = n % 2 ^ w
to_unsigned w (negsuc n) = 2 ^ w - suc n

-- `x == y`
abbrev pub eq_ℤ : ℤ → ℤ → Bool
eq_ℤ (pos m) (pos n) = m == n
eq_ℤ (pos m) (negsuc n) = false
eq_ℤ (negsuc m) (pos n) = false
eq_ℤ (negsuc m) (negsuc n) = m == n
