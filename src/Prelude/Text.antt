-- ===== src/Prelude/Text.antt =====
-- Texts as lists of characters: `str::split_once`, `split`, `join` and `strip_suffix` with one
-- character.
use Prim.Native.Nat.{ℕ}
use mathlib.Core.Path.{◌≡◌, refl, ap}
use mathlib.Core.Bool.{Bool, false, ◌||◌}
use mathlib.Core.Option
use mathlib.Core.Option.{Option, none, some}
use mathlib.Core.List.{List, [], ◌∷◌, ◌++◌}
use native.Mathlib.Omega.{arith}
use wrkr.Prelude.Tests.{◌==◌, if◌then◌else◌}

abbrev pub Text : Type 0
Text = List ℕ

-- `str::split_once`
unfoldable pub split_once : ℕ → Text → Option (Text × Text)
split_once c [] = none
split_once c (b ∷ s) =
    let rest = split_once c s in
    if b == c then some ([], s) else Option.map (λ (p : Text × Text). (b ∷ p.0, p.1)) rest

-- `str::strip_suffix`
unfoldable pub strip_suffix : ℕ → Text → Option Text
strip_suffix c [] = none
strip_suffix c (b ∷ []) = if b == c then some [] else none
strip_suffix c (b ∷ d ∷ s) = Option.map (λ (t : Text). b ∷ t) (strip_suffix c (d ∷ s))

-- A character in front of the first part.
unfoldable pub cons_first : ℕ → List Text → List Text
cons_first b [] = (b ∷ []) ∷ []
cons_first b (part ∷ parts) = (b ∷ part) ∷ parts

-- `str::split`
unfoldable pub split : ℕ → Text → List Text
split c [] = [] ∷ []
split c (b ∷ s) = let rest = split c s in if b == c then [] ∷ rest else cons_first b rest

-- `slice::join`
unfoldable pub join : ℕ → List Text → Text
join c [] = []
join c (part ∷ []) = part
join c (part ∷ next ∷ parts) = part ++ (c ∷ join c (next ∷ parts))

unfoldable pub has_char : ℕ → Text → Bool
has_char c [] = false
has_char c (b ∷ s) = (b == c) || has_char c s

pub split_once-append :
    (c : ℕ) (s t : Text) → has_char c s ≡ false → split_once c (s ++ (c ∷ t)) ≡ some (s, t)
unfolding split_once has_char
split_once-append c [] t h = ground arith
split_once-append c (b ∷ s) t h = ground (arith, split_once-append c s t)

pub split_once-none : (c : ℕ) (s : Text) → has_char c s ≡ false → split_once c s ≡ none
unfolding split_once has_char
split_once-none c [] h = refl
split_once-none c (b ∷ s) h = ground (arith, split_once-none c s)

pub strip_suffix-append : (c : ℕ) (s : Text) → strip_suffix c (s ++ (c ∷ [])) ≡ some s
unfolding strip_suffix
strip_suffix-append c [] = ground arith
strip_suffix-append c (b ∷ []) = ground arith
strip_suffix-append c (b ∷ d ∷ s) =
    ap (Option.map (λ (t : Text). b ∷ t)) (strip_suffix-append c (d ∷ s))

split_last : (c : ℕ) (s : Text) → has_char c s ≡ false → split c s ≡ s ∷ []
unfolding split has_char cons_first
split_last c [] h = refl
split_last c (b ∷ s) h = ground (arith, split_last c s)

split-append : (c : ℕ) (s t : Text) → has_char c s ≡ false → split c (s ++ (c ∷ t)) ≡ s ∷ split c t
unfolding split has_char cons_first
split-append c [] t h = ground arith
split-append c (b ∷ s) t h = ground (arith, split-append c s t)

-- No part has the separator.
abbrev pub AreParts : ℕ → List Text → Type 0
AreParts c [] = Unit
AreParts c (part ∷ parts) = (has_char c part ≡ false) × AreParts c parts

-- Parts without the separator are split as they were joined, if there is one.
pub split-join :
    (c : ℕ) (part : Text) (parts : List Text)
    → AreParts c (part ∷ parts)
    → split c (join c (part ∷ parts)) ≡ part ∷ parts
unfolding join
split-join c part [] h = split_last c part h.0
split-join c part (next ∷ parts) h =
    rw (split-append c part (join c (next ∷ parts)) h.0)
      (ap (◌∷◌ part) (split-join c next parts h.1))
