-- ===== src/Queries.antt =====
-- wrkr-metrics/src/agg.rs: queries on the series of a metric, filtered and grouped by tags. And
-- `compute_checks_failed` and `compute_scenario_summary` of wrkr-core/src/metrics_agg.rs, which ask
-- them.
-- A hash map of groups is the list of its entries, each key once.
pub mod Groups
pub mod Single
pub mod Keys
pub mod Summary
pub mod Reached
mod Runs
use wrkr.Prelude.{
  ℕ, Bool, true, false, ◌&&◌, not, Option, none, some, List, [], ◌∷◌, ◌++◌, leb, ◌==◌,
  if◌then◌else◌, saturating_add, wrapping_add,
}
use wrkr.Metrics.{TagSet, get, project, tags_eq}
use wrkr.Registry.{
  MetricStorage, counter, gauge, rate, histogram, MetricSeries, Registry, visit_series,
}
use wrkr.Registry.HdrHistogram.{Histograms}
use wrkr.Thresholds.Folds.{HistogramSummary, summarize_histogram}

pub data TagFilter : Type 0 where
  eq not_eq : (key value : ℕ) → TagFilter
  has missing : (key : ℕ) → TagFilter

-- `tags.get(k) == Some(v)`
unfoldable pub is_value : Option ℕ → ℕ → Bool
is_value none v = false
is_value (some w) v = w == v

abbrev is_some : Option ℕ → Bool
is_some none = false
is_some (some w) = true

-- `TagFilter::matches`
unfoldable pub filter_matches : TagFilter → TagSet → Bool
unfolding is_value
filter_matches (eq k v) tags = is_value (get k tags) v
filter_matches (not_eq k v) tags = not (is_value (get k tags) v)
filter_matches (has k) tags = is_some (get k tags)
filter_matches (missing k) tags = not (is_some (get k tags))

pub record Query : Type 0 where
  pub metric : ℕ
  pub filters : List TagFilter
  pub group_keys : List ℕ

-- `Query::new`, the pushes of `where_eq`, `where_not_eq`, `where_has` and `where_missing`.
abbrev pub query : ℕ → Query
query metric = record { metric = metric; filters = []; group_keys = [] }

abbrev pub where_filter : TagFilter → Query → Query
where_filter f q = record q { filters = q.filters ++ (f ∷ []) }

-- `sort_unstable` and `dedup` of numbers.
unfoldable pub insert_key : ℕ → List ℕ → List ℕ
insert_key k [] = k ∷ []
insert_key k (j ∷ keys) = let rest = insert_key k keys in if leb k j then k ∷ j ∷ keys else j ∷ rest

unfoldable pub sort_keys : List ℕ → List ℕ
sort_keys [] = []
sort_keys (k ∷ keys) = insert_key k (sort_keys keys)

unfoldable pub dedup : List ℕ → List ℕ
dedup [] = []
dedup (k ∷ []) = k ∷ []
dedup (k ∷ j ∷ keys) = let rest = dedup (j ∷ keys) in if k == j then rest else k ∷ rest

unfoldable pub group_by : List ℕ → Query → Query
group_by keys q = record q { group_keys = dedup (sort_keys keys) }

-- `Query::matches`
unfoldable pub all_match : List TagFilter → TagSet → Bool
all_match [] tags = true
all_match (f ∷ filters) tags = filter_matches f tags && all_match filters tags

unfoldable pub group_key : Query → TagSet → TagSet
group_key q tags = project q.group_keys tags

abbrev pub Groups : Type 0 → Type 0
Groups A = List (TagSet × A)

-- `out.entry(k).and_modify(…).or_insert(v)`
unfoldable pub add_group : TagSet → ℕ → Groups ℕ → Groups ℕ
add_group k v [] = (k, v) ∷ []
add_group k v ((j, w) ∷ out) =
    let rest = add_group k v out in
    if tags_eq j k then (j, saturating_add w v) ∷ out else (j, w) ∷ rest

-- `values().copied().sum()`, which wraps where overflow is not checked.
unfoldable pub sum_values : ℕ → Groups ℕ → ℕ
sum_values total [] = total
sum_values total ((k, v) ∷ out) = sum_values (wrapping_add total v) out

-- None where there is no group, or more than one.
unfoldable pub single : {A : Type 0} → Groups A → Option A
single [] = none
single ((k, a) ∷ []) = some a
single (p ∷ p' ∷ groups) = none

module _ {Hist : Type 0} where
  unfoldable pub add_stored : TagSet → MetricStorage Hist → Groups ℕ → Groups ℕ
  add_stored k (counter v) out = if v == 0 then out else add_group k v out
  add_stored k (gauge z) out = out
  add_stored k (rate t h) out = out
  add_stored k (histogram h) out = out

  -- The closure of `sum_counter`, on one series.
  unfoldable pub sum_one : Query → Groups ℕ → MetricSeries Hist → Groups ℕ
  sum_one q out s =
      if all_match q.filters s.tags then add_stored (group_key q s.tags) s.storage out else out

  unfoldable pub sum_series : Query → Groups ℕ → List (MetricSeries Hist) → Groups ℕ
  sum_series q out [] = out
  sum_series q out (s ∷ series) = sum_series q (sum_one q out s) series

  unfoldable pub sum_counter : Query → Registry Hist → Groups ℕ
  sum_counter q r = sum_series q [] (visit_series q.metric r)

  unfoldable pub sum_counter_total : Query → Registry Hist → ℕ
  sum_counter_total q r = sum_values 0 (sum_counter q r)

module _ (lib : Histograms) where
  -- `acc.entry(k).or_insert_with(new_default_histogram)`, and `entry.add(h)`.
  unfoldable pub merge_group : TagSet → lib.Hist → Groups lib.Hist → Groups lib.Hist
  merge_group k h [] = (k, lib.add lib.empty h) ∷ []
  merge_group k h ((j, g) ∷ acc) =
      let rest = merge_group k h acc in
      if tags_eq j k then (j, lib.add g h) ∷ acc else (j, g) ∷ rest

  unfoldable pub merge_stored : TagSet → MetricStorage lib.Hist → Groups lib.Hist → Groups lib.Hist
  merge_stored k (counter v) acc = acc
  merge_stored k (gauge z) acc = acc
  merge_stored k (rate t h) acc = acc
  merge_stored k (histogram h) acc = merge_group k h acc

  unfoldable pub merge_series :
      Query → Groups lib.Hist → List (MetricSeries lib.Hist) → Groups lib.Hist
  merge_series q acc [] = acc
  merge_series q acc (s ∷ series) =
      merge_series q
        (if all_match q.filters s.tags
          then merge_stored (group_key q s.tags) s.storage acc
          else acc)
        series

  unfoldable pub summarize_groups : Groups lib.Hist → Groups (HistogramSummary lib.Float)
  summarize_groups [] = []
  summarize_groups ((k, h) ∷ acc) = (k, summarize_histogram lib h) ∷ summarize_groups acc

  unfoldable pub merge_histogram_summary :
      Query → Registry lib.Hist → Groups (HistogramSummary lib.Float)
  merge_histogram_summary q r = summarize_groups (merge_series q [] (visit_series q.metric r))

  unfoldable pub merge_histogram_summary_single :
      Query → Registry lib.Hist → Option (HistogramSummary lib.Float)
  merge_histogram_summary_single q r = single (merge_histogram_summary q r)
