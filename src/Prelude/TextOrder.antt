-- ===== src/Prelude/TextOrder.antt =====
-- The order of texts, `Ord::cmp` on `str`.
use Prim.Native.Nat.compare as compare_ℕ
use Prim.Native.Nat.{ℕ, zero, suc, Ordering, compare as compare_ℕ}
use Prim.Native.Char.{code}
use Prim.Native.String.compare
use Prim.Native.String.{String, [], ◌∷◌, compare, then}
use mathlib.Core.Path.{◌≡◌, refl, sym, ap, ◌∙◌}
use mathlib.Core.Bool.{Bool, true, false}
use text.Mathlib.Text.{is_le}
use text.Mathlib.TextPositions.{compare_refl}

unfoldable pub str_le : String → String → Bool
str_le s t = is_le (compare s t)

abbrev swap : Ordering → Ordering
swap Ordering.lt = Ordering.gt
swap Ordering.eq = Ordering.eq
swap Ordering.gt = Ordering.lt

compare-swap_numbers : (m n : ℕ) → compare_ℕ n m ≡ swap (compare_ℕ m n)
compare-swap_numbers zero zero = compare_ℕ.zero-zero ∙ sym (ap swap compare_ℕ.zero-zero)
compare-swap_numbers zero (suc n) = compare_ℕ.suc-zero n ∙ sym (ap swap (compare_ℕ.zero-suc n))
compare-swap_numbers (suc m) zero = compare_ℕ.zero-suc m ∙ sym (ap swap (compare_ℕ.suc-zero m))
compare-swap_numbers (suc m) (suc n) =
    compare_ℕ.suc-suc n m ∙ compare-swap_numbers m n ∙ sym (ap swap (compare_ℕ.suc-suc m n))

then-swap : (o p : Ordering) → then (swap o) (swap p) ≡ swap (then o p)
then-swap Ordering.lt p = refl
then-swap Ordering.eq p = refl
then-swap Ordering.gt p = refl

compare-swap : (s t : String) → compare t s ≡ swap (compare s t)
compare-swap [] [] = compare.nil-nil ∙ sym (ap swap compare.nil-nil)
compare-swap [] (d ∷ t) = compare.cons-nil d t ∙ sym (ap swap (compare.nil-cons d t))
compare-swap (c ∷ s) [] = compare.nil-cons c s ∙ sym (ap swap (compare.cons-nil c s))
compare-swap (c ∷ s) (d ∷ t) =
    compare.cons-cons d c t s
    ∙ ap (λ (o : Ordering). then o (compare t s)) (compare-swap_numbers (code c) (code d))
    ∙ ap (then (swap (compare_ℕ (code c) (code d)))) (compare-swap s t)
    ∙ then-swap (compare_ℕ (code c) (code d)) (compare s t)
    ∙ sym (ap swap (compare.cons-cons c d s t))

is_le-swap : (o : Ordering) → is_le o ≡ false → is_le (swap o) ≡ true
is_le-swap Ordering.lt e = cc
is_le-swap Ordering.eq e = refl
is_le-swap Ordering.gt e = refl

-- Of two texts one is below the other.
pub str_le_total : (s t : String) → str_le s t ≡ false → str_le t s ≡ true
unfolding str_le
str_le_total s t e = ap is_le (compare-swap s t) ∙ is_le-swap (compare s t) e

pub str_le_refl : (s : String) → str_le s s ≡ true
unfolding str_le
str_le_refl s = ap is_le (compare_refl s)
