-- ===== src/Thresholds/Single.antt =====
-- The thresholds of one set: which of its expressions fail, and where the evaluation stops.
use wrkr.Prelude.{
  ℕ, ◌≡◌, ◌≢◌, refl, sym, ap, ◌∙◌, subst, Option, none, some, Option-cases, Bool-cases, inl, inr,
  List, [], ◌∷◌, String, arith,
}
use mathlib.Core.List.{Memᴰ}
use mathlib.Core.List.Memᴰ
use wrkr.Prelude.Results.{ok, err, ok_inj, err_inj, ResultOf-cases, step-eq-ok}
use wrkr.Metrics.{TagSelector, new_selector, matches}
use wrkr.Registry.{MetricKind, Registry, lookup_metric, visit_series}
use wrkr.Registry.HdrHistogram.{Histograms}
use wrkr.Thresholds.Folds.{HistogramSummary, Doubles, fold_histogram_summary}
use wrkr.Thresholds.Parse.{ThresholdAgg, p, ThresholdExpr, ParseError, parse_threshold_expr}
use wrkr.Thresholds.{
  ThresholdSet, ThresholdViolation, percentile_of, observed_value, evaluate_expression,
  evaluate_expressions, evaluate_found, evaluate_set, all_fail, any_series,
}

-- A percentile that no summary has.
abbrev pub IsUnseen : ℕ → Type 0
IsUnseen n = (n ≢ 50) × (n ≢ 75) × (n ≢ 90) × (n ≢ 95) × (n ≢ 99)

module _ (lib : Histograms) (nums : Doubles lib) where
  percentile_of-none :
      (n : ℕ) (h : HistogramSummary lib.Float) → IsUnseen n → percentile_of lib nums n h ≡ none
  percentile_of-none n h (a, b, c, d, e) = ground (arith, a, b, c, d, e)

  observed_value-none :
      (r : Registry lib.Hist) (metric n : ℕ) (kind : MetricKind) (s : TagSelector)
      → IsUnseen n
      → observed_value lib nums r metric kind (p n) s ≡ none
  unfolding observed_value
  observed_value-none r metric n MetricKind.counter s h = refl
  observed_value-none r metric n MetricKind.gauge s h = refl
  observed_value-none r metric n MetricKind.rate s h = refl
  observed_value-none r metric n MetricKind.histogram s h =
      elim (Option-cases (fold_histogram_summary lib metric (matches s) r)) [
        | inl nothing ↦ rw nothing refl
        | inr (summary, found) ↦ rw found (percentile_of-none n summary h)
      ]

  abbrev pub unmet : ThresholdSet → List ℕ → ThresholdViolation lib.Float
  unmet set raw = record { metric = set.metric; tags = set.tags; expression = raw; observed = none }

  one_violated :
      (r : Registry lib.Hist) (s : TagSelector) (metric n : ℕ) (kind : MetricKind)
      (set : ThresholdSet) (raw : List ℕ) (expr : ThresholdExpr lib.Float)
      → expr.agg ≡ p n
      → IsUnseen n
      → evaluate_expression lib nums r s metric kind set raw expr ≡ unmet set raw ∷ []
  one_violated r s metric n kind set raw expr agg unseen =
      let nothing : observed_value lib nums r metric kind expr.agg s ≡ none =
        ap (λ (a : ThresholdAgg). observed_value lib nums r metric kind a s) agg
        ∙ observed_value-none r metric n kind s unseen in
      elim (Bool-cases (any_series lib nums (matches s) (visit_series metric r))) [
        | inl any ↦ rw any (rw nothing refl)
        | inr no_series ↦ rw no_series refl
      ]

  module _ (r : Registry lib.Hist) (s : TagSelector) (metric : ℕ) (kind : MetricKind)
      (set : ThresholdSet) where
    expressions_fail :
        (raws : List (List ℕ)) (why : String × ParseError)
        → evaluate_expressions lib nums r s metric kind set raws ≡ err why
        → (raw : List ℕ) × Memᴰ raw raws
          × (parse_threshold_expr lib nums raw ≡ err why.1)
          × (why.0 ≡ set.metric)
    unfolding evaluate_expressions
    expressions_fail [] why h = cc
    expressions_fail (raw ∷ raws) why h =
        elim (ResultOf-cases (parse_threshold_expr lib nums raw)) [
          | inr (e, bad) ↦
              let same : ◌≡◌ {A = String × ParseError} (set.metric, e) why =
                err_inj (rw (bad, evaluate_expressions) at h) in
              (raw, Memᴰ.head refl, rw (sym same) bad, rw (sym same) refl)
          | inl (expr, parsed) ↦
              elim (ResultOf-cases (evaluate_expressions lib nums r s metric kind set raws)) [
                | inl (rest, fine) ↦ absurd (
                    cc
                      (rw (fine, evaluate_expressions) at (rw (parsed, evaluate_expressions) at h)))
                | inr (e, later) ↦
                    let same : e ≡ why =
                      err_inj (rw later at (rw (parsed, evaluate_expressions) at h)) in
                    let (bad, at, fails, named) = expressions_fail raws why (later ∙ ap err same) in
                    (bad, Memᴰ.tail at, fails, named)
              ]
        ]

    expressions_report :
        (raws : List (List ℕ)) (out : List (ThresholdViolation lib.Float)) (raw : List ℕ)
        (expr : ThresholdExpr lib.Float) (n : ℕ)
        → Memᴰ raw raws
        → parse_threshold_expr lib nums raw ≡ ok expr
        → expr.agg ≡ p n
        → IsUnseen n
        → evaluate_expressions lib nums r s metric kind set raws ≡ ok out
        → Memᴰ (unmet set raw) out
    unfolding evaluate_expressions
    expressions_report [] out raw expr n at parsed agg unseen h = absurd (Memᴰ.not-nil at)
    expressions_report (first ∷ raws) out raw expr n at parsed agg unseen h =
        elim (ResultOf-cases (parse_threshold_expr lib nums first)) [
          | inr (e, bad) ↦ absurd (cc (rw (bad, evaluate_expressions) at h))
          | inl (found, fine) ↦
              let (rest, others, joined) =
                step-eq-ok (evaluate_expressions lib nums r s metric kind set raws) _
                  (rw (fine, evaluate_expressions) at h) in
              subst (Memᴰ (unmet set raw)) (ok_inj joined) (elim at [
                | Memᴰ.head same ↦
                    let this : found ≡ expr =
                      ok_inj (sym fine ∙ ap (parse_threshold_expr lib nums) (sym same) ∙ parsed) in
                    let one =
                      one_violated r s metric n kind set first found
                        (ap (λ (x : ThresholdExpr lib.Float). x.agg) this ∙ agg) unseen in
                    Memᴰ.append_left rest
                      (subst (Memᴰ (unmet set raw)) (sym one) (Memᴰ.head (ap (unmet set) same)))
                | Memᴰ.tail later ↦
                    Memᴰ.append_right (evaluate_expression lib nums r s metric kind set first found)
                      (expressions_report raws rest raw expr n later parsed agg unseen others)
              ])
        ]

  all_fail_report :
      (set : ThresholdSet) (raws : List (List ℕ)) (raw : List ℕ)
      → Memᴰ raw raws
      → Memᴰ (unmet set raw) (all_fail lib nums set raws)
  unfolding all_fail
  all_fail_report set [] raw at = absurd (Memᴰ.not-nil at)
  all_fail_report set (first ∷ raws) raw (Memᴰ.head same) = Memᴰ.head (ap (unmet set) same)
  all_fail_report set (first ∷ raws) raw (Memᴰ.tail later) =
      Memᴰ.tail (all_fail_report set raws raw later)

  found_fails :
      (set : ThresholdSet) (r : Registry lib.Hist) (s : TagSelector)
      (found : Option (ℕ × MetricKind)) (why : String × ParseError)
      → evaluate_found lib nums set r s found ≡ err why
      → (raw : List ℕ) × Memᴰ raw set.expressions
        × (parse_threshold_expr lib nums raw ≡ err why.1)
        × (why.0 ≡ set.metric)
  found_fails set r s none why h = cc
  found_fails set r s (some (metric, kind)) why h =
      expressions_fail r s metric kind set set.expressions why h

  found_reports :
      (set : ThresholdSet) (r : Registry lib.Hist) (s : TagSelector)
      (found : Option (ℕ × MetricKind)) (out : List (ThresholdViolation lib.Float)) (raw : List ℕ)
      (expr : ThresholdExpr lib.Float) (n : ℕ)
      → Memᴰ raw set.expressions
      → parse_threshold_expr lib nums raw ≡ ok expr
      → expr.agg ≡ p n
      → IsUnseen n
      → evaluate_found lib nums set r s found ≡ ok out
      → Memᴰ (unmet set raw) out
  found_reports set r s none out raw expr n at parsed agg unseen h =
      subst (Memᴰ (unmet set raw)) (ok_inj h) (all_fail_report set set.expressions raw at)
  found_reports set r s (some (metric, kind)) out raw expr n at parsed agg unseen h =
      expressions_report r s metric kind set set.expressions out raw expr n at parsed agg unseen h

  pub set_fails :
      (set : ThresholdSet) (r : Registry lib.Hist) (why : String × ParseError)
      → (evaluate_set lib nums set r).1 ≡ err why
      → (raw : List ℕ) × Memᴰ raw set.expressions
        × (parse_threshold_expr lib nums raw ≡ err why.1)
        × (why.0 ≡ set.metric)
  unfolding evaluate_set
  set_fails set r why h =
      let chosen = new_selector set.tags r.interner in
      let looked = lookup_metric set.metric (record r { interner = chosen.0 }) in
      found_fails set looked.0 chosen.1 looked.1 why h

  pub set_reports :
      (set : ThresholdSet) (r : Registry lib.Hist) (out : List (ThresholdViolation lib.Float))
      (raw : List ℕ) (expr : ThresholdExpr lib.Float) (n : ℕ)
      → Memᴰ raw set.expressions
      → parse_threshold_expr lib nums raw ≡ ok expr
      → expr.agg ≡ p n
      → IsUnseen n
      → (evaluate_set lib nums set r).1 ≡ ok out
      → Memᴰ (unmet set raw) out
  unfolding evaluate_set
  set_reports set r out raw expr n at parsed agg unseen h =
      let chosen = new_selector set.tags r.interner in
      let looked = lookup_metric set.metric (record r { interner = chosen.0 }) in
      found_reports set looked.0 chosen.1 looked.1 out raw expr n at parsed agg unseen h
