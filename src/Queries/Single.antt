-- ===== src/Queries/Single.antt =====
-- Queries without groups, as wrkr-core asks them: the total, and the one merged histogram.
use wrkr.Prelude.{
  ℕ, ◌+◌, ◌≤◌, ◌≡◌, refl, ap, ◌∙◌, min, Bool, Bool-cases, inl, inr, Option, none, some, List, [],
  ◌∷◌, arith, ◌==◌, if◌then◌else◌, u64_max,
}
use wrkr.Metrics.{TagSet, project, tags_eq}
use wrkr.Registry.{
  MetricStorage, counter, gauge, rate, histogram, MetricSeries, Registry, visit_series, add_series,
  sum_counters, fold_counter_sum,
}
use wrkr.Registry.Series.{counter_value}
use wrkr.Registry.HdrHistogram.{Histograms}
use wrkr.Thresholds.Folds.{
  HistogramSummary, summarize_histogram, merge_histograms, fold_histogram_summary, add_histogram,
}
use wrkr.Queries.{
  Query, Groups, all_match, group_key, add_group, add_stored, sum_one, sum_series, sum_counter,
  sum_values, sum_counter_total, merge_group, merge_stored, merge_series, summarize_groups,
  merge_histogram_summary, single, merge_histogram_summary_single,
}
use wrkr.Registry.Series.{AreU64}

-- The groups of a query that does not group: one under no tags, or none while the sum is 0.
abbrev only : ℕ → Groups ℕ
only total = if total == 0 then [] else ([], total) ∷ []

module _ {Hist : Type 0} where
  add_stored-only :
      (s : MetricStorage Hist) (total : ℕ)
      → counter_value s ≤ u64_max
      → total ≤ u64_max
      → add_stored [] s (only total)
        ≡ only (elim s [ counter c ↦ min (total + c) u64_max | _ ↦ total ])
  unfolding add_stored add_group tags_eq
  add_stored-only (counter v) total fits below = ground arith
  add_stored-only (gauge z) total fits below = refl
  add_stored-only (rate t h) total fits below = refl
  add_stored-only (histogram h) total fits below = refl

  sum_one-only :
      (q : Query) (s : MetricSeries Hist) (total : ℕ)
      → q.group_keys ≡ []
      → counter_value s.storage ≤ u64_max
      → total ≤ u64_max
      → sum_one q (only total) s ≡ only (add_series (all_match q.filters) total s)
  unfolding sum_one add_series group_key project
  sum_one-only q s total e fits below = elim (Bool-cases (all_match q.filters s.tags)) [
    | inl taken ↦ rw taken (
        ap (λ (keys : List ℕ). add_stored (project keys s.tags) s.storage (only total)) e
        ∙ add_stored-only s.storage total fits below)
    | inr passed ↦ rw passed refl
  ]

  add_series-bound :
      (predicate : TagSet → Bool) (total : ℕ) (s : MetricSeries Hist)
      → total ≤ u64_max
      → add_series predicate total s ≤ u64_max
  unfolding add_series
  add_series-bound predicate total s below = ground arith

  sum_series-only :
      (q : Query) (series : List (MetricSeries Hist)) (total : ℕ)
      → q.group_keys ≡ []
      → AreU64 series
      → total ≤ u64_max
      → sum_values 0 (sum_series q (only total) series)
        ≡ sum_counters (all_match q.filters) total series
  unfolding sum_series sum_counters sum_values
  sum_series-only q [] total e fits below = ground arith
  sum_series-only q (s ∷ series) total e fits below =
      ap (λ (out : Groups ℕ). sum_values 0 (sum_series q out series))
        (sum_one-only q s total e fits.0 below)
      ∙ sum_series-only q series (add_series (all_match q.filters) total s) e fits.1
          (add_series-bound (all_match q.filters) total s below)

  -- For a query without groups on a metric whose counters are u64: `sum_counter_total`, whose sum
  -- wraps, is the sum that `fold_counter_sum` gives, which stops at the largest u64.
  pub sum_counter_total-fold_counter_sum :
      (q : Query) (r : Registry Hist)
      → q.group_keys ≡ []
      → AreU64 (visit_series q.metric r)
      → sum_counter_total q r ≡ fold_counter_sum q.metric (all_match q.filters) r
  unfolding sum_counter_total sum_counter fold_counter_sum
  sum_counter_total-fold_counter_sum q r e fits =
      sum_series-only q (visit_series q.metric r) 0 e fits (omega arith)

module _ (lib : Histograms) where
  abbrev one_group : Option lib.Hist → Groups lib.Hist
  one_group none = []
  one_group (some h) = ([], h) ∷ []

  merge_stored-one_group :
      (s : MetricStorage lib.Hist) (acc : Option lib.Hist)
      → merge_stored lib [] s (one_group acc)
        ≡ one_group (wrkr.Thresholds.Folds.add_stored lib acc s)
  unfolding merge_stored merge_group tags_eq
  merge_stored-one_group (counter v) acc = refl
  merge_stored-one_group (gauge z) acc = refl
  merge_stored-one_group (rate t h) acc = refl
  merge_stored-one_group (histogram h) none = refl
  merge_stored-one_group (histogram h) (some g) = refl

  merge_series-one_group :
      (q : Query) (series : List (MetricSeries lib.Hist)) (acc : Option lib.Hist)
      → q.group_keys ≡ []
      → merge_series lib q (one_group acc) series
        ≡ one_group (merge_histograms lib (all_match q.filters) acc series)
  unfolding merge_series merge_histograms group_key project
  merge_series-one_group q [] acc e = refl
  merge_series-one_group q (s ∷ series) acc e = elim (Bool-cases (all_match q.filters s.tags)) [
    | inl taken ↦ rw taken (
        ap (λ (acc' : Groups lib.Hist). merge_series lib q acc' series)
          (ap (λ (keys : List ℕ). merge_stored lib (project keys s.tags) s.storage (one_group acc))
              e
            ∙ merge_stored-one_group s.storage acc)
        ∙ merge_series-one_group q series (wrkr.Thresholds.Folds.add_stored lib acc s.storage) e)
    | inr passed ↦ rw passed (merge_series-one_group q series acc e)
  ]

  summarized :
      (acc : Option lib.Hist)
      → single (summarize_groups lib (one_group acc))
        ≡ elim acc [ none ↦ none | some h ↦ some (summarize_histogram lib h) ]
  unfolding single summarize_groups
  summarized none = refl
  summarized (some h) = refl

  -- For a query without groups, `merge_histogram_summary_single` gives what
  -- `fold_histogram_summary` gives for the series that pass the filters: one summary of all their
  -- histograms merged, or none where no histogram passes.
  pub merge_histogram_summary_single-fold :
      (q : Query) (r : Registry lib.Hist)
      → q.group_keys ≡ []
      → merge_histogram_summary_single lib q r
        ≡ fold_histogram_summary lib q.metric (all_match q.filters) r
  unfolding merge_histogram_summary_single merge_histogram_summary fold_histogram_summary
  merge_histogram_summary_single-fold q r e =
      ap (λ (acc : Groups lib.Hist). single (summarize_groups lib acc))
        (merge_series-one_group q (visit_series q.metric r) none e)
      ∙ summarized (merge_histograms lib (all_match q.filters) none (visit_series q.metric r))
