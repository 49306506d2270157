-- ===== src/Prelude/Int.antt =====
-- Signed integers over the native numbers, with Rust's `i64` and `i128` operations on them.
use Prim.Native.Nat.{ℕ, zero, suc, ◌+◌, ◌-◌, ◌*◌, ◌/◌, ◌^◌, min}
use mathlib.Core.Bool.{Bool}
use wrkr.Prelude.Tests.{ltb, leb, if◌then◌else◌}

-- `negsuc n` is -(n + 1).
pub data ℤ : Type 0 where
  pos : ℕ → ℤ
  negsuc : ℕ → ℤ

abbrev pub pos_part : ℤ → ℕ
pos_part (pos n) = n
pos_part (negsuc n) = 0

abbrev pub neg_part : ℤ → ℕ
neg_part (pos n) = 0
neg_part (negsuc n) = suc n

-- a - b, as an integer.
abbrev pub sub_ℕ : ℕ → ℕ → ℤ
sub_ℕ a b = if leb b a then pos (a - b) else negsuc (b - a - 1)

-- -n
abbrev pub neg : ℕ → ℤ
neg zero = pos 0
neg (suc n) = negsuc n

infixl 65 ◌+ℤ◌ ◌-ℤ◌
unfoldable pub ◌+ℤ◌ : ℤ → ℤ → ℤ
a +ℤ b = sub_ℕ (pos_part a + pos_part b) (neg_part a + neg_part b)

unfoldable pub ◌-ℤ◌ : ℤ → ℤ → ℤ
a -ℤ b = sub_ℕ (pos_part a + neg_part b) (neg_part a + pos_part b)

abbrev pub ltb_ℤ : ℤ → ℤ → Bool
ltb_ℤ a b = ltb (pos_part a + neg_part b) (pos_part b + neg_part a)

abbrev pub leb_ℤ : ℤ → ℤ → Bool
leb_ℤ a b = leb (pos_part a + neg_part b) (pos_part b + neg_part a)

-- `Ord::max` and `Ord::min`
abbrev pub max_ℤ : ℤ → ℤ → ℤ
max_ℤ a b = if leb_ℤ a b then b else a

abbrev pub min_ℤ : ℤ → ℤ → ℤ
min_ℤ a b = if leb_ℤ a b then a else b

-- `i128::saturating_mul`, by the signs of the factors.
unfoldable pub saturating_mul_i128 : ℤ → ℤ → ℤ
saturating_mul_i128 (pos a) (pos b) = pos (min (a * b) (2 ^ 127 - 1))
saturating_mul_i128 (pos a) (negsuc b) = neg (min (a * suc b) (2 ^ 127))
saturating_mul_i128 (negsuc a) (pos b) = neg (min (suc a * b) (2 ^ 127))
saturating_mul_i128 (negsuc a) (negsuc b) = pos (min (suc a * suc b) (2 ^ 127 - 1))

-- `/` on `i128`, which rounds towards zero. A divisor 0 gives 0 here; the code divides by none.
unfoldable pub div_i128 : ℤ → ℤ → ℤ
div_i128 (pos a) (pos b) = pos (a / b)
div_i128 (pos a) (negsuc b) = neg (a / suc b)
div_i128 (negsuc a) (pos b) = neg (suc a / b)
div_i128 (negsuc a) (negsuc b) = pos (suc a / suc b)

-- `i128::saturating_sub`
unfoldable pub saturating_sub_i128 : ℤ → ℤ → ℤ
unfolding ◌-ℤ◌
saturating_sub_i128 a b = min_ℤ (max_ℤ (a -ℤ b) (neg (2 ^ 127))) (pos (2 ^ 127 - 1))
