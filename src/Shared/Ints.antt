-- ===== src/Shared/Ints.antt =====
-- Signed machine integers: the library's ℤ over the native numbers, and the saturating operations of
-- an `i64`.
use Prim.Native.Nat.{ℕ, suc, ◌+◌, ◌-◌, ◌*◌, ◌/◌, min}
use ignis.Shared.Tests.{if◌then◌else◌, leb}

-- `negsuc n` is -(n + 1).
pub data ℤ : Type 0 where
  pos negsuc : ℕ → ℤ

abbrev pub difference : ℕ → ℕ → ℤ
difference a b = if leb b a then pos (a - b) else negsuc (b - a - 1)

infixl 65 ◌+ℤ◌
abbrev pub ◌+ℤ◌ : ℤ → ℤ → ℤ
pos a +ℤ pos b = pos (a + b)
pos a +ℤ negsuc b = difference a (suc b)
negsuc a +ℤ pos b = difference b (suc a)
negsuc a +ℤ negsuc b = negsuc (suc (a + b))

-- `i64::MAX`
abbrev pub i64_max : ℕ
i64_max = 9223372036854775807

-- `c_int::MAX`
abbrev pub i32_max : ℕ
i32_max = 2147483647

-- The nearest `i64`: `i64::MIN` is -(i64::MAX + 1).
abbrev pub saturate : ℤ → ℤ
saturate (pos n) = pos (min n i64_max)
saturate (negsuc n) = negsuc (min n i64_max)

abbrev pub saturating_add : ℤ → ℤ → ℤ
saturating_add a b = saturate (a +ℤ b)

-- By a factor that is not negative.
abbrev pub saturating_mul : ℤ → ℕ → ℤ
saturating_mul (pos n) k = saturate (pos (n * k))
saturating_mul (negsuc n) k = saturate (difference 0 (suc n * k))

-- Division by a divisor that is not negative rounds toward zero.
abbrev pub quotient : ℤ → ℕ → ℤ
quotient (pos n) k = pos (n / k)
quotient (negsuc n) k = difference 0 (suc n / k)

-- `clamp(0, high)`
abbrev pub clamp_from_zero : ℤ → ℕ → ℕ
clamp_from_zero (pos n) high = min n high
clamp_from_zero (negsuc n) high = 0
