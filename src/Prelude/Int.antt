-- ===== src/Prelude/Int.antt =====
-- Signed integers over the native numbers, and their wrap-around at 64 bits, as Go's `int64` has it.
use Prim.Native.Nat.{ℕ, suc, ◌+◌, ◌-◌, ◌*◌, ◌/◌, ◌%◌, ◌≤◌, ◌<◌}
use mathlib.Core.Path.{◌≡◌}
use mathlib.Core.Bool.{Bool}
use native.Mathlib.Omega.{arith}
use redis_dns.Prelude.Tests.{ltb, leb, ◌==◌, if◌then◌else◌}

-- `negsuc n` is -(n + 1).
pub data ℤ : Type 0 where
  pos : ℕ → ℤ
  negsuc : ℕ → ℤ

abbrev pub pos_part : ℤ → ℕ
pos_part (pos n) = n
pos_part (negsuc n) = 0

abbrev pub neg_part : ℤ → ℕ
neg_part (pos n) = 0
neg_part (negsuc n) = suc n

abbrev pub sub_ℕ : ℕ → ℕ → ℤ
sub_ℕ a b = if leb b a then pos (a - b) else negsuc (b - a - 1)

infixl 65 ◌-ℤ◌
abbrev pub ◌-ℤ◌ : ℤ → ℤ → ℤ
a -ℤ b = sub_ℕ (pos_part a + neg_part b) (neg_part a + pos_part b)

infixl 65 ◌+ℤ◌
abbrev pub ◌+ℤ◌ : ℤ → ℤ → ℤ
a +ℤ b = sub_ℕ (pos_part a + pos_part b) (neg_part a + neg_part b)

infixl 70 ◌*ℤ◌
abbrev pub ◌*ℤ◌ : ℤ → ℕ → ℤ
a *ℤ k = sub_ℕ (pos_part a * k) (neg_part a * k)

infix 50 ◌≤ℤ◌ ◌<ℤ◌
abbrev pub ◌≤ℤ◌ : ℤ → ℤ → Type 0
a ≤ℤ b = pos_part a + neg_part b ≤ pos_part b + neg_part a

abbrev pub ◌<ℤ◌ : ℤ → ℤ → Type 0
a <ℤ b = pos_part a + neg_part b < pos_part b + neg_part a

abbrev pub ltb_ℤ : ℤ → ℤ → Bool
ltb_ℤ a b = ltb (pos_part a + neg_part b) (pos_part b + neg_part a)

abbrev pub eq_ℤ : ℤ → ℤ → Bool
eq_ℤ a b = pos_part a + neg_part b == pos_part b + neg_part a

abbrev pub leb_ℤ : ℤ → ℤ → Bool
leb_ℤ a b = leb (pos_part a + neg_part b) (pos_part b + neg_part a)

-- `n <= 0`, the test that most defaults hang on.
abbrev pub nonpos : ℤ → Bool
nonpos a = leb_ℤ a (pos 0)

-- 2 ^ 63 and 2 ^ 64.
abbrev pub two63 : ℕ
two63 = 9223372036854775808

abbrev pub two64 : ℕ
two64 = 18446744073709551616

-- The int64 whose bit pattern is `r`, for `r` below 2 ^ 64.
abbrev pub of_bits : ℕ → ℤ
of_bits r = if ltb r two63 then pos r else negsuc (two64 - 1 - r)

-- An exact integer cut down to 64 bits, as Go's arithmetic does on overflow.
unfoldable pub wrap64 : ℤ → ℤ
wrap64 (pos n) = of_bits (n % two64)
wrap64 (negsuc n) = of_bits (two64 - 1 - n % two64)

-- `a + b`, `a * k` and `a / k` on int64, for a constant `k` that is positive.
infixl 65 ◌+64◌
unfoldable pub ◌+64◌ : ℤ → ℤ → ℤ
unfolding wrap64
a +64 b = wrap64 (a +ℤ b)

infixl 70 ◌*64◌
unfoldable pub ◌*64◌ : ℤ → ℕ → ℤ
unfolding wrap64
a *64 k = wrap64 (a *ℤ k)

-- Go's division cuts towards zero.
abbrev pub quot : ℤ → ℕ → ℤ
quot (pos n) k = pos (n / k)
quot (negsuc n) k = sub_ℕ 0 (suc n / k)

-- What fits in an int64.
pub record IsInt64 (a : ℤ) : Type 0 where
  pub upper : pos_part a < two63
  pub lower : neg_part a ≤ two63

-- A value in range is left alone.
pub wrap64_in_range : (a : ℤ) → IsInt64 a → wrap64 a ≡ a
unfolding wrap64
wrap64_in_range (pos n) h = ground (arith, h.upper)
wrap64_in_range (negsuc n) h = ground (arith, h.lower)

-- What comes out is always in range.
pub wrap64-IsInt64 : (a : ℤ) → IsInt64 (wrap64 a)
unfolding wrap64
wrap64-IsInt64 (pos n) = ground arith
wrap64-IsInt64 (negsuc n) = ground arith

pub *64-pos : (n k : ℕ) → n * k < two63 → pos n *64 k ≡ pos (n * k)
unfolding ◌*64◌ wrap64
*64-pos n k h = ground arith
