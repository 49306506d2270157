-- ===== src/Thresholds/Folds.antt =====
-- The sums that thresholds read: `fold_rate_sum` and `fold_histogram_summary` of
-- wrkr-metrics/src/registry.rs, and `summarize_histogram` of metrics.rs.
use wrkr.Prelude.{ℕ, Bool, Option, none, some, List, [], ◌∷◌, ltb, if◌then◌else◌, saturating_add}
use wrkr.Metrics.{TagSet}
use wrkr.Registry.{MetricStorage, rate, histogram, MetricSeries, Registry, visit_series}
use wrkr.Registry.HdrHistogram.{Histograms}

-- What the code uses of 64-bit floating-point numbers: `a / b` of two counts, the comparisons, and
-- `str::parse`.
pub record Doubles (lib : Histograms) : Type 0 where
  pub ratio : ℕ → ℕ → lib.Float
  pub less : lib.Float → lib.Float → Bool
  pub less_or_equal : lib.Float → lib.Float → Bool
  pub equal : lib.Float → lib.Float → Bool
  pub parse : List ℕ → Option lib.Float

pub record HistogramSummary (Float : Type 0) : Type 0 where
  pub p50 : Option Float
  pub p75 : Option Float
  pub p90 : Option Float
  pub p95 : Option Float
  pub p99 : Option Float
  pub min : Option Float
  pub max : Option Float
  pub mean : Option Float
  pub stdev : Option Float
  pub count : ℕ

module _ {Hist : Type 0} where
  -- The closure of `fold_rate_sum`, on one series.
  pub add_rates : (TagSet → Bool) → ℕ × ℕ → MetricSeries Hist → ℕ × ℕ
  add_rates predicate (total, hits) s =
      if predicate s.tags
      then (elim s.storage [
        | rate t h ↦ (saturating_add total t, saturating_add hits h)
        | _ ↦ (total, hits)
      ])
      else (total, hits)

  pub sum_rates : (TagSet → Bool) → ℕ × ℕ → List (MetricSeries Hist) → ℕ × ℕ
  unfolding add_rates
  sum_rates predicate acc [] = acc
  sum_rates predicate acc (s ∷ series) = sum_rates predicate (add_rates predicate acc s) series

module _ (lib : Histograms) where
  unfoldable pub fold_rate_sum :
      Doubles lib → ℕ → (TagSet → Bool) → Registry lib.Hist → ℕ × ℕ × Option lib.Float
  unfolding sum_rates
  fold_rate_sum nums metric predicate r =
      let (total, hits) = sum_rates predicate (0, 0) (visit_series metric r) in
      (total, hits, if ltb 0 total then some (nums.ratio hits total) else none)

  -- `(count > 0).then(…)` of each field.
  unfoldable pub summarize_histogram : lib.Hist → HistogramSummary lib.Float
  summarize_histogram h =
      let some_count = ltb 0 (lib.len h) in
      let given = λ (v : lib.Float). if some_count then some v else none in
      record {
        p50 = given (lib.float_of (lib.value_at_percentile 50 h));
        p75 = given (lib.float_of (lib.value_at_percentile 75 h));
        p90 = given (lib.float_of (lib.value_at_percentile 90 h));
        p95 = given (lib.float_of (lib.value_at_percentile 95 h));
        p99 = given (lib.float_of (lib.value_at_percentile 99 h));
        min = given (lib.float_of (lib.min_value h));
        max = given (lib.float_of (lib.max_value h));
        mean = given (lib.mean h);
        stdev = given (lib.stdev h);
        count = lib.len h;
      }

  -- `any = true; acc.add(h)`
  abbrev pub add_histogram : Option lib.Hist → lib.Hist → lib.Hist
  add_histogram none h = lib.add lib.empty h
  add_histogram (some g) h = lib.add g h

  abbrev pub add_stored : Option lib.Hist → MetricStorage lib.Hist → Option lib.Hist
  add_stored acc (histogram h) = some (add_histogram acc h)
  add_stored acc _ = acc

  -- The histograms that are taken, merged; none if there is none.
  unfoldable pub merge_histograms :
      (TagSet → Bool) → Option lib.Hist → List (MetricSeries lib.Hist) → Option lib.Hist
  merge_histograms predicate acc [] = acc
  merge_histograms predicate acc (s ∷ series) =
      merge_histograms predicate (if predicate s.tags then add_stored acc s.storage else acc) series

  unfoldable pub fold_histogram_summary :
      ℕ → (TagSet → Bool) → Registry lib.Hist → Option (HistogramSummary lib.Float)
  unfolding summarize_histogram merge_histograms
  fold_histogram_summary metric predicate r =
      elim (merge_histograms predicate none (visit_series metric r)) [
        | none ↦ none
        | some h ↦ some (summarize_histogram h)
      ]
