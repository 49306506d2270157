-- ===== src/Thresholds/KeyText.antt =====
-- Texts that `trim` and the selector's parser leave as they are.
use wrkr.Prelude.{
  ℕ, ◌≤◌, ◌≡◌, refl, ap, Bool, true, false, ◌||◌, ◌&&◌, not, Bool-cases, inl, inr, [], ◌∷◌, ◌++◌,
  length, arith, ◌==◌,
}
use wrkr.Prelude.Text.{Text, has_char}
use wrkr.Thresholds.Key.{is_space, trim_start, trim_end, trim, is_simple_char, is_simple}

-- Some character is white space.
unfoldable pub has_space : Text → Bool
has_space [] = false
has_space (c ∷ s) = is_space c || has_space s

or-eq-false : (a b : Bool) → (a || b) ≡ false → (a ≡ false) × (b ≡ false)
or-eq-false true b h = cc
or-eq-false false b h = (refl, h)

and-eq-true : (a b : Bool) → (a && b) ≡ true → (a ≡ true) × (b ≡ true)
and-eq-true true b h = (refl, h)
and-eq-true false b h = cc

not-eq-true : (a : Bool) → not a ≡ true → a ≡ false
not-eq-true true h = cc
not-eq-true false h = refl

pub has_space-append :
    (s t : Text) → has_space s ≡ false → has_space t ≡ false → has_space (s ++ t) ≡ false
unfolding has_space
has_space-append [] t h e = e
has_space-append (c ∷ s) t h e =
    let (first, rest) = or-eq-false (is_space c) (has_space s) h in
    rw first (has_space-append s t rest e)

trim_end_same : (s : Text) → has_space s ≡ false → trim_end s ≡ s
unfolding trim_end has_space
trim_end_same [] h = refl
trim_end_same (c ∷ s) h =
    let (first, rest) = or-eq-false (is_space c) (has_space s) h in
    rw first (ap (◌∷◌ c) (trim_end_same s rest))

pub trim_same : (s : Text) → has_space s ≡ false → trim s ≡ s
unfolding trim trim_start has_space
trim_same [] h = trim_end_same [] h
trim_same (c ∷ s) h =
    let (first, rest) = or-eq-false (is_space c) (has_space s) h in
    rw first (trim_end_same (c ∷ s) h)

-- A text that ends in a character that is no white space.
pub trim_end-append :
    (s : Text) (c : ℕ) → is_space c ≡ false → trim_end (s ++ (c ∷ [])) ≡ s ++ (c ∷ [])
unfolding trim_end
trim_end-append [] c h = rw h refl
trim_end-append (b ∷ []) c h = rw h (ground arith)
trim_end-append (b ∷ d ∷ s) c h = rw (trim_end-append (d ∷ s) c h) (ground arith)

length-trim_end : (s : Text) → length (trim_end s) ≤ length s
unfolding trim_end
length-trim_end [] = omega arith
length-trim_end (c ∷ s) = ground (arith, length-trim_end s)

length-trim_start : (s : Text) → length (trim_start s) ≤ length s
unfolding trim_start
length-trim_start [] = omega arith
length-trim_start (c ∷ s) = ground (arith, length-trim_start s)

-- A trimmed text does not begin with white space.
pub trim-starts : (c : ℕ) (s : Text) → trim (c ∷ s) ≡ c ∷ s → is_space c ≡ false
unfolding trim trim_start
trim-starts c s h = elim (Bool-cases (is_space c)) [
  | inr other ↦ other
  | inl space ↦
      let shorter : trim_end (trim_start s) ≡ c ∷ s = rw space at h in
      absurd (omega (arith, ap length shorter, length-trim_end (trim_start s), length-trim_start s))
]

pub trim-append :
    (c : ℕ) (s : Text) (d : ℕ)
    → is_space c ≡ false
    → is_space d ≡ false
    → trim ((c ∷ s) ++ (d ∷ [])) ≡ (c ∷ s) ++ (d ∷ [])
unfolding trim trim_start
trim-append c s d h e = rw h (trim_end-append (c ∷ s) d e)

-- What a simple text is free of.
simple_parts :
    (a b c d e : Bool)
    → not (a || (b || (c || (d || e)))) ≡ true
    → (a ≡ false) × (d ≡ false) × (e ≡ false)
simple_parts true b c d e h = cc
simple_parts false true c d e h = cc
simple_parts false false true d e h = cc
simple_parts false false false true e h = cc
simple_parts false false false false true h = cc
simple_parts false false false false false h = (refl, refl, refl)

pub is_simple_free :
    (s : Text)
    → is_simple s ≡ true
    → (has_space s ≡ false) × (has_char b',' s ≡ false) × (has_char b'=' s ≡ false)
unfolding is_simple has_space has_char
is_simple_free [] h = (refl, refl, refl)
is_simple_free (c ∷ s) h =
    let (first, rest) = and-eq-true (is_simple_char c) (is_simple s) h in
    let (space, comma, equals) =
      simple_parts (is_space c) (c == b'{') (c == b'}') (c == b',') (c == b'=') first in
    let (no_space, no_comma, no_equals) = is_simple_free s rest in
    (rw space no_space, rw comma no_comma, rw equals no_equals)
