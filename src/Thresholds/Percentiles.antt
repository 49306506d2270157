-- ===== src/Thresholds/Percentiles.antt =====
-- The percentiles that thresholds may name, and those that are ever observed.
use wrkr.Prelude.{ℕ, ◌≡◌, refl, sym, ap, ◌∙◌, subst, none, inl, inr, List, [], ◌∷◌, String}
use mathlib.Core.List.{Memᴰ}
use mathlib.Core.List.Memᴰ
use wrkr.Prelude.Results.{ResultOf, ok, err, ok_inj, err_inj, ResultOf-cases, step-eq-ok}
use wrkr.Registry.{Registry}
use wrkr.Registry.HdrHistogram.{Histograms}
use wrkr.Thresholds.Folds.{Doubles}
use wrkr.Thresholds.Parse.{p, ThresholdExpr, ParseError, parse_threshold_expr}
use wrkr.Thresholds.{ThresholdSet, ThresholdViolation, evaluate_set, evaluate_thresholds}
use wrkr.Thresholds.Single.{IsUnseen, unmet, set_fails, set_reports}

module _ (lib : Histograms) (nums : Doubles lib) where
  -- An expression of these sets that does not parse, and the name that the error gives.
  abbrev pub IsMalformed : List ThresholdSet → String × ParseError → Type 0
  IsMalformed sets (name, e) =
      (set : ThresholdSet) × (raw : List ℕ) × Memᴰ set sets
      × Memᴰ raw set.expressions
      × (parse_threshold_expr lib nums raw ≡ err e)
      × (name ≡ set.metric)

  -- The violation is among those of a run, or the run stops at a malformed expression.
  abbrev pub Reports :
      List ThresholdSet
      → ThresholdViolation lib.Float
      → ResultOf (String × ParseError) (List (ThresholdViolation lib.Float))
      → Type 0
  Reports sets v (ok out) = Memᴰ v out
  Reports sets v (err why) = IsMalformed sets why

  thresholds_fail :
      (sets : List ThresholdSet) (r : Registry lib.Hist) (why : String × ParseError)
      → (evaluate_thresholds lib nums sets r).1 ≡ err why
      → IsMalformed sets why
  unfolding evaluate_thresholds
  thresholds_fail [] r why h = cc
  thresholds_fail (set ∷ sets) r why h =
      let after = (evaluate_set lib nums set r).0 in
      elim (ResultOf-cases (evaluate_set lib nums set r).1) [
        | inr (e, bad) ↦
            let same : e ≡ why = err_inj (rw (bad, evaluate_thresholds) at h) in
            let (raw, at, fails, named) = set_fails lib nums set r why (bad ∙ ap err same) in
            (set, raw, Memᴰ.head refl, at, fails, named)
        | inl (out, fine) ↦
            let tail = rw (fine, evaluate_thresholds) at h in
            elim (ResultOf-cases (evaluate_thresholds lib nums sets after).1) [
              | inl (rest, good) ↦ absurd (cc (rw good at tail))
              | inr (e, later) ↦
                  let same : e ≡ why = err_inj (rw later at tail) in
                  let (other, raw, here, at, fails, named) =
                    thresholds_fail sets after why (later ∙ ap err same) in
                  (other, raw, Memᴰ.tail here, at, fails, named)
            ]
      ]

  thresholds_report :
      (sets : List ThresholdSet) (r : Registry lib.Hist) (out : List (ThresholdViolation lib.Float))
      (set : ThresholdSet) (raw : List ℕ) (expr : ThresholdExpr lib.Float) (n : ℕ)
      → Memᴰ set sets
      → Memᴰ raw set.expressions
      → parse_threshold_expr lib nums raw ≡ ok expr
      → expr.agg ≡ p n
      → IsUnseen n
      → (evaluate_thresholds lib nums sets r).1 ≡ ok out
      → Memᴰ (unmet lib nums set raw) out
  unfolding evaluate_thresholds
  thresholds_report [] r out set raw expr n here at parsed agg unseen h = absurd (Memᴰ.not-nil here)
  thresholds_report (first ∷ sets) r out set raw expr n here at parsed agg unseen h =
      let after = (evaluate_set lib nums first r).0 in
      elim (ResultOf-cases (evaluate_set lib nums first r).1) [
        | inr (e, bad) ↦ absurd (cc (rw (bad, evaluate_thresholds) at h))
        | inl (one, fine) ↦
            let (rest, good, joined) =
              step-eq-ok (evaluate_thresholds lib nums sets after).1 _
                (rw (fine, evaluate_thresholds) at h) in
            subst (Memᴰ (unmet lib nums set raw)) (ok_inj joined) (elim here [
              | Memᴰ.head same ↦ Memᴰ.append_left rest (
                  set_reports lib nums set r one raw expr n at parsed agg unseen
                    (ap (λ (x : ThresholdSet). (evaluate_set lib nums x r).1) same ∙ fine))
              | Memᴰ.tail later ↦
                  Memᴰ.append_right one (
                    thresholds_report sets after rest set raw expr n later at parsed agg unseen
                      good)
            ])
      ]

  -- A threshold on a percentile that `parse_threshold_expr` accepts, other than 50, 75, 90, 95 and
  -- 99, is violated with nothing observed in every run that evaluates its thresholds to the end,
  -- whatever the registry holds, and whatever other expressions and sets there are: the violation
  -- of that expression is among the result's. A run that does not evaluate them to the end stops
  -- with the error of an expression of the sets that does not parse, under the name of its metric.
  pub evaluate_thresholds-IsUnseen :
      (sets : List ThresholdSet) (r : Registry lib.Hist) (set : ThresholdSet) (raw : List ℕ)
      (expr : ThresholdExpr lib.Float) (n : ℕ)
      → Memᴰ set sets
      → Memᴰ raw set.expressions
      → parse_threshold_expr lib nums raw ≡ ok expr
      → expr.agg ≡ p n
      → IsUnseen n
      → Reports sets
          (record { metric = set.metric; tags = set.tags; expression = raw; observed = none })
          (evaluate_thresholds lib nums sets r).1
  evaluate_thresholds-IsUnseen sets r set raw expr n here at parsed agg unseen =
      elim (ResultOf-cases (evaluate_thresholds lib nums sets r).1) [
        | inl (out, fine) ↦
            subst (Reports sets (unmet lib nums set raw)) (sym fine)
              (thresholds_report sets r out set raw expr n here at parsed agg unseen fine)
        | inr (why, fails) ↦
            subst (Reports sets (unmet lib nums set raw)) (sym fails)
              (thresholds_fail sets r why fails)
      ]
