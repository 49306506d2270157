-- ===== src/Thresholds.antt =====
-- wrkr-core/src/thresholds.rs (the expressions) and thresholds_eval.rs: the thresholds of a run,
-- parsed and compared with what the registry has. A text that is parsed is the list of its code
-- points. What the code uses of floating-point numbers is the parameter `Doubles`.
pub mod Folds
pub mod Parse
pub mod Single
pub mod Percentiles
pub mod Key
pub mod KeyText
pub mod KeyRender
mod Runs
use wrkr.Prelude.{
  ℕ, ◌+◌, ◌<◌, Bool, true, false, ◌||◌, Option, none, some, List, [], ◌∷◌, ◌++◌, String, ltb, ◌==◌,
  if◌then◌else◌,
}
use wrkr.Prelude.Results.{ResultOf, ok, err, ◌>>=◌}
use wrkr.Metrics.{TagSet, TagSelector, new_selector, matches}
use wrkr.Registry.{
  MetricKind, MetricSeries, Registry, lookup_metric, visit_series, fold_counter_sum,
}
use wrkr.Registry.HdrHistogram.{Histograms}
use Folds.{HistogramSummary, Doubles, fold_rate_sum, fold_histogram_summary}
use Parse.{
  ThresholdAgg, avg, min_of, max_of, count, rate, p, ThresholdOp, lt, lte, gt, gte, eq,
  ThresholdExpr, ParseError, parse_threshold_expr,
}

pub record ThresholdSet : Type 0 where
  pub metric : String
  pub tags : List (String × String)
  pub expressions : List (List ℕ)

pub record ThresholdViolation (Float : Type 0) : Type 0 where
  pub metric : String
  pub tags : List (String × String)
  pub expression : List ℕ
  pub observed : Option Float

module _ (lib : Histograms) (nums : Doubles lib) where
  abbrev percentile_of : ℕ → HistogramSummary lib.Float → Option lib.Float
  percentile_of n h =
      if n == 50
      then h.p50
      else if n == 75
      then h.p75
      else if n == 90
      then h.p90
      else if n == 95
      then h.p95
      else if n == 99
      then h.p99
      else none

  -- `and_then`
  abbrev and_then : {A B : Type 0} → Option A → (A → Option B) → Option B
  and_then none f = none
  and_then (some a) f = f a

  pub observed_value :
      Registry lib.Hist → ℕ → MetricKind → ThresholdAgg → TagSelector → Option lib.Float
  unfolding fold_counter_sum fold_rate_sum fold_histogram_summary
  observed_value r metric MetricKind.counter count s =
      some (lib.float_of (fold_counter_sum metric (matches s) r))
  observed_value r metric MetricKind.rate count s =
      let (total, hits, rate_of) = fold_rate_sum lib nums metric (matches s) r in
      some (lib.float_of total)
  observed_value r metric MetricKind.histogram count s =
      and_then (fold_histogram_summary lib metric (matches s) r)
        (λ (h : HistogramSummary lib.Float). some (lib.float_of h.count))
  observed_value r metric MetricKind.rate rate s =
      let (total, hits, rate_of) = fold_rate_sum lib nums metric (matches s) r in rate_of
  observed_value r metric MetricKind.histogram avg s =
      and_then (fold_histogram_summary lib metric (matches s) r)
        (λ (h : HistogramSummary lib.Float). h.mean)
  observed_value r metric MetricKind.histogram min_of s =
      and_then (fold_histogram_summary lib metric (matches s) r)
        (λ (h : HistogramSummary lib.Float). h.min)
  observed_value r metric MetricKind.histogram max_of s =
      and_then (fold_histogram_summary lib metric (matches s) r)
        (λ (h : HistogramSummary lib.Float). h.max)
  observed_value r metric MetricKind.histogram (p n) s =
      and_then (fold_histogram_summary lib metric (matches s) r) (percentile_of n)
  observed_value r metric _ _ s = none

  abbrev compare_values : lib.Float → ThresholdOp → lib.Float → Bool
  compare_values observed lt expected = nums.less observed expected
  compare_values observed lte expected = nums.less_or_equal observed expected
  compare_values observed gt expected = nums.less expected observed
  compare_values observed gte expected = nums.less_or_equal expected observed
  compare_values observed eq expected = nums.equal observed expected

  pub any_series : (TagSet → Bool) → List (MetricSeries lib.Hist) → Bool
  any_series takes [] = false
  any_series takes (s ∷ series) = takes s.tags || any_series takes series

  abbrev passes : Option lib.Float → ThresholdExpr lib.Float → Bool
  passes none expr = false
  passes (some v) expr = compare_values v expr.op expr.value

  abbrev violation : ThresholdSet → List ℕ → Option lib.Float → ThresholdViolation lib.Float
  violation set raw observed = record {
    metric = set.metric;
    tags = set.tags;
    expression = raw;
    observed = observed;
  }

  -- The expressions of a set whose metric is missing.
  pub all_fail : ThresholdSet → List (List ℕ) → List (ThresholdViolation lib.Float)
  all_fail set [] = []
  all_fail set (raw ∷ raws) = violation set raw none ∷ all_fail set raws

  abbrev evaluate_expression :
      Registry lib.Hist
      → TagSelector
      → ℕ
      → MetricKind
      → ThresholdSet
      → List ℕ
      → ThresholdExpr lib.Float
      → List (ThresholdViolation lib.Float)
  evaluate_expression r s metric kind set raw expr =
      let observed =
        if any_series (matches s) (visit_series metric r)
        then observed_value r metric kind expr.agg s
        else none in
      if passes observed expr then [] else violation set raw observed ∷ []

  pub evaluate_expressions :
      Registry lib.Hist
      → TagSelector
      → ℕ
      → MetricKind
      → ThresholdSet
      → List (List ℕ)
      → ResultOf (String × ParseError) (List (ThresholdViolation lib.Float))
  unfolding parse_threshold_expr observed_value any_series visit_series
  evaluate_expressions r s metric kind set [] = ok []
  evaluate_expressions r s metric kind set (raw ∷ raws) = elim (parse_threshold_expr lib nums raw) [
    | err e ↦ err (set.metric, e)
    | ok expr ↦ do
      rest ← evaluate_expressions r s metric kind set raws
      ok (evaluate_expression r s metric kind set raw expr ++ rest)
  ]

  -- The expressions of a set, once its metric is looked up.
  abbrev pub evaluate_found :
      ThresholdSet
      → Registry lib.Hist
      → TagSelector
      → Option (ℕ × MetricKind)
      → ResultOf (String × ParseError) (List (ThresholdViolation lib.Float))
  evaluate_found set r s none = ok (all_fail set set.expressions)
  evaluate_found set r s (some (metric, kind)) =
      evaluate_expressions r s metric kind set set.expressions

  -- One turn of the loop: the names that it looks up are interned.
  pub evaluate_set :
      ThresholdSet
      → Registry lib.Hist
      → Registry lib.Hist × ResultOf (String × ParseError) (List (ThresholdViolation lib.Float))
  unfolding new_selector lookup_metric all_fail evaluate_expressions
  evaluate_set set r =
      let (interner, s) = new_selector set.tags r.interner in
      let (r', found) = lookup_metric set.metric (record r { interner = interner }) in
      (r', evaluate_found set r' s found)

  pub evaluate_thresholds :
      List ThresholdSet
      → Registry lib.Hist
      → Registry lib.Hist × ResultOf (String × ParseError) (List (ThresholdViolation lib.Float))
  unfolding evaluate_set
  evaluate_thresholds [] r = (r, ok [])
  evaluate_thresholds (set ∷ sets) r =
      let (r', first) = evaluate_set set r in
      elim first [
        | err e ↦ (r', err e)
        | ok out ↦
            let (r'', rest) = evaluate_thresholds sets r' in
            (r'', do later ← rest; ok (out ++ later))
      ]
