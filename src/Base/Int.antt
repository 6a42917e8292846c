-- ===== src/Base/Int.antt =====
-- Signed integers over the native numbers, for C++ `int`; `negsuc n` is -(n + 1).
use Prim.Native.Nat.{ℕ, zero, suc, ◌-◌, ◌%◌}
use mathlib.Core.Bool.{Bool, true, false}
use erizo_controller.Base.Tests.{ltb, eqb, if◌then◌else◌}

pub data ℤ : Type 0 where
  pos : ℕ → ℤ
  negsuc : ℕ → ℤ

-- `x == -1`, the error value of the Redis client.
abbrev pub is_minus_one : ℤ → Bool
is_minus_one (pos n) = false
is_minus_one (negsuc zero) = true
is_minus_one (negsuc (suc n)) = false

-- `!x`
abbrev pub is_zero : ℤ → Bool
is_zero (pos zero) = true
is_zero (pos (suc n)) = false
is_zero (negsuc n) = false

-- `x <= 0`
abbrev pub is_nonpos : ℤ → Bool
is_nonpos (pos zero) = true
is_nonpos (pos (suc n)) = false
is_nonpos (negsuc n) = true

abbrev pub succ : ℤ → ℤ
succ (pos n) = pos (suc n)
succ (negsuc zero) = pos zero
succ (negsuc (suc n)) = negsuc n

abbrev pub pred : ℤ → ℤ
pred (pos zero) = negsuc zero
pred (pos (suc n)) = pos n
pred (negsuc n) = negsuc (suc n)

-- Conversion of an `int` to an unsigned type of `w` values: `2 ^ 16` for `uint16_t`.
abbrev pub to_unsigned : ℕ → ℤ → ℕ
to_unsigned w (pos n) = n % w
to_unsigned w (negsuc n) = (w - (n % w) - 1) % w

abbrev pub negate : ℕ → ℤ
negate zero = pos 0
negate (suc n) = negsuc n

-- `a < b`
abbrev pub ltb_int : ℤ → ℤ → Bool
ltb_int (pos a) (pos b) = ltb a b
ltb_int (pos a) (negsuc b) = false
ltb_int (negsuc a) (pos b) = true
ltb_int (negsuc a) (negsuc b) = ltb b a

-- `a == b`
abbrev pub eqb_int : ℤ → ℤ → Bool
eqb_int (pos a) (pos b) = eqb a b
eqb_int (negsuc a) (negsuc b) = eqb a b
eqb_int _ _ = false

-- Conversion of a 32-bit unsigned number to `int`.
abbrev pub to_int32 : ℕ → ℤ
to_int32 n = if ltb n 2147483648 then pos n else negsuc (4294967295 - n)
