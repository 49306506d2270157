-- ===== src/Thresholds/Parse.antt =====
-- `parse_threshold_expr` of wrkr-core/src/thresholds.rs.
use wrkr.Prelude.{
  ℕ, suc, ◌+◌, ◌-◌, ◌*◌, ◌^◌, Bool, true, false, ◌&&◌, ◌||◌, Option, none, some, List, [], ◌∷◌,
  length, take, drop, ltb, leb, ◌==◌, if◌then◌else◌,
}
use wrkr.Prelude.Results.{ResultOf, ok, err, ◌>>=◌}
use wrkr.Registry.HdrHistogram.{Histograms}
use wrkr.Thresholds.Folds.{Doubles}

pub data ThresholdOp : Type 0 where
  lt lte gt gte eq : ThresholdOp

pub data ThresholdAgg : Type 0 where
  avg min_of max_of count rate : ThresholdAgg
  p : ℕ → ThresholdAgg

pub record ThresholdExpr (Float : Type 0) : Type 0 where
  pub agg : ThresholdAgg
  pub op : ThresholdOp
  pub value : Float

pub data ParseError : Type 0 where
  empty_threshold missing_operator invalid_threshold : ParseError
  invalid_percentile percentile_out_of_range unknown_aggregation invalid_value : ParseError

-- `char::is_whitespace`
abbrev pub is_whitespace : ℕ → Bool
is_whitespace c =
    (leb 9 c && leb c 13)
    || c == 32
    || c == 0x85
    || c == 0xa0
    || c == 0x1680
    || (leb 0x2000 c && leb c 0x200a)
    || c == 0x2028
    || c == 0x2029
    || c == 0x202f
    || c == 0x205f
    || c == 0x3000

pub strip : List ℕ → List ℕ
strip [] = []
strip (c ∷ s) = let rest = strip s in if is_whitespace c then rest else c ∷ rest

pub starts_with : List ℕ → List ℕ → Bool
starts_with [] s = true
starts_with (t ∷ tok) [] = false
starts_with (t ∷ tok) (c ∷ s) = t == c && starts_with tok s

abbrev pub later : Option ℕ → Option ℕ
later none = none
later (some n) = some (suc n)

-- `s.find(tok)`
pub find : List ℕ → List ℕ → Option ℕ
unfolding starts_with
find tok [] = if starts_with tok [] then some 0 else none
find tok (c ∷ s) = let rest = find tok s in if starts_with tok (c ∷ s) then some 0 else later rest

abbrev ops : List (List ℕ × ThresholdOp)
ops =
    (b'<' ∷ b'=' ∷ [], lte)
    ∷ (b'>' ∷ b'=' ∷ [], gte)
    ∷ (b'=' ∷ b'=' ∷ [], eq)
    ∷ (b'<' ∷ [], lt)
    ∷ (b'>' ∷ [], gt)
    ∷ []

pub find_op : List (List ℕ × ThresholdOp) → List ℕ → Option (ℕ × ℕ × ThresholdOp)
unfolding find
find_op [] s = none
find_op ((tok, op) ∷ rest) s = elim (find tok s) [
  | some pos ↦ some (pos, length tok, op)
  | none ↦ find_op rest s
]

abbrev lower : ℕ → ℕ
lower c = if leb 65 c && leb c 90 then c + 32 else c

-- `a.eq_ignore_ascii_case(b)`
pub eq_ignore_ascii_case : List ℕ → List ℕ → Bool
eq_ignore_ascii_case [] [] = true
eq_ignore_ascii_case [] (d ∷ t) = false
eq_ignore_ascii_case (c ∷ s) [] = false
eq_ignore_ascii_case (c ∷ s) (d ∷ t) = lower c == lower d && eq_ignore_ascii_case s t

-- `strip_suffix(')')`
pub before_paren : List ℕ → Option (List ℕ)
before_paren [] = none
before_paren (c ∷ []) = if c == b')' then some [] else none
before_paren (c ∷ d ∷ s) = elim (before_paren (d ∷ s)) [
  | none ↦ none
  | some inner ↦ some (c ∷ inner)
]

-- `strip_prefix("p(").and_then(|v| v.strip_suffix(')'))`
pub percentile_text : List ℕ → Option (List ℕ)
unfolding before_paren
percentile_text [] = none
percentile_text (c ∷ []) = none
percentile_text (c ∷ d ∷ s) = if c == b'p' && d == b'(' then before_paren s else none

pub u32_digits : ℕ → List ℕ → Option ℕ
u32_digits n [] = some n
u32_digits n (c ∷ s) =
    let n' = n * 10 + (c - 48) in
    let rest = u32_digits n' s in if leb 48 c && leb c 57 && ltb n' (2 ^ 32) then rest else none

-- `str::parse::<u32>`
pub parse_u32 : List ℕ → Option ℕ
unfolding u32_digits
parse_u32 [] = none
parse_u32 (c ∷ []) = u32_digits 0 (c ∷ [])
parse_u32 (c ∷ d ∷ s) = if c == 43 then u32_digits 0 (d ∷ s) else u32_digits 0 (c ∷ d ∷ s)

abbrev percentile : Option ℕ → ResultOf ParseError ThresholdAgg
percentile none = err invalid_percentile
percentile (some n) = if leb 1 n && leb n 100 then ok (p n) else err percentile_out_of_range

pub parse_agg : List ℕ → ResultOf ParseError ThresholdAgg
unfolding eq_ignore_ascii_case percentile_text parse_u32
parse_agg left =
    if eq_ignore_ascii_case left (b'a' ∷ b'v' ∷ b'g' ∷ [])
    then ok avg
    else if eq_ignore_ascii_case left (b'm' ∷ b'i' ∷ b'n' ∷ [])
    then ok min_of
    else if eq_ignore_ascii_case left (b'm' ∷ b'a' ∷ b'x' ∷ [])
    then ok max_of
    else if eq_ignore_ascii_case left (b'c' ∷ b'o' ∷ b'u' ∷ b'n' ∷ b't' ∷ [])
    then ok count
    else if eq_ignore_ascii_case left (b'r' ∷ b'a' ∷ b't' ∷ b'e' ∷ [])
    then ok rate
    else elim (percentile_text left) [
      | some inner ↦ percentile (parse_u32 inner)
      | none ↦ err unknown_aggregation
    ]

abbrev is_empty : List ℕ → Bool
is_empty [] = true
is_empty (c ∷ s) = false

abbrev value_or : {Float : Type 0} → Option Float → ResultOf ParseError Float
value_or none = err invalid_value
value_or (some v) = ok v

unfoldable pub parse_threshold_expr :
    (lib : Histograms) → Doubles lib → List ℕ → ResultOf ParseError (ThresholdExpr lib.Float)
unfolding strip find_op parse_agg
parse_threshold_expr lib nums raw =
    let s = strip raw in
    if is_empty s then err empty_threshold else elim (find_op ops s) [
      | none ↦ err missing_operator
      | some (pos, size, op) ↦
          let left = take pos s in
          let right = drop (pos + size) s in
          if is_empty left || is_empty right then err invalid_threshold else (do
            agg ← parse_agg left
            value ← value_or (nums.parse right)
            ok (record { agg = agg; op = op; value = value }))
    ]
