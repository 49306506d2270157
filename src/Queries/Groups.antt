-- ===== src/Queries/Groups.antt =====
-- What `sum_counter` gives: the sum of each group is the sum over the series that are in it, and no
-- grouping loses a count.
use wrkr.Prelude.{
  ℕ, ◌+◌, ◌≤◌, ◌≡◌, refl, ap, ◌∙◌, min, Bool, ◌&&◌, List, [], ◌∷◌, arith, if◌then◌else◌, u64_max,
  saturating_add,
}
use wrkr.Metrics.{TagSet, tags_eq}
use wrkr.Metrics.Tags.{tags_eq_iff}
use wrkr.Registry.{
  MetricStorage, counter, gauge, rate, histogram, MetricSeries, Registry, visit_series, add_series,
  sum_counters, fold_counter_sum,
}
use wrkr.Registry.Series.{AreU64, counter_value}
use wrkr.Queries.{
  Query, Groups, all_match, group_key, add_group, add_stored, sum_one, sum_series, sum_counter,
}

-- The sum of a group, 0 if it is not there.
unfoldable pub group_total : TagSet → Groups ℕ → ℕ
group_total k [] = 0
group_total k ((j, v) ∷ out) = let rest = group_total k out in if tags_eq j k then v else rest

-- The plain sum of all groups.
unfoldable pub plain_total : Groups ℕ → ℕ
plain_total [] = 0
plain_total ((k, v) ∷ out) = v + plain_total out

group_total-add_group :
    (g k : TagSet) (v : ℕ) (out : Groups ℕ)
    → v ≤ u64_max
    → group_total g (add_group k v out)
      ≡ (if tags_eq k g then saturating_add (group_total g out) v else group_total g out)
unfolding group_total add_group
group_total-add_group g k v [] fits = ground arith
group_total-add_group g k v ((j, w) ∷ out) fits =
    ground (
      arith,
      tags_eq_iff j k,
      tags_eq_iff j g,
      tags_eq_iff k g,
      group_total-add_group g k v out fits,
    )

plain_total-add_group :
    (k : TagSet) (v : ℕ) (out : Groups ℕ)
    → min (plain_total (add_group k v out)) u64_max ≡ min (plain_total out + v) u64_max
unfolding plain_total add_group
plain_total-add_group k v [] = omega arith
plain_total-add_group k v ((j, w) ∷ out) = ground (arith, plain_total-add_group k v out)

-- The series of a query that are in a group.
abbrev pub in_group : Query → TagSet → TagSet → Bool
in_group q g tags = all_match q.filters tags && tags_eq (group_key q tags) g

module _ {Hist : Type 0} where
  group_total-add_stored :
      (g k : TagSet) (s : MetricStorage Hist) (out : Groups ℕ)
      → counter_value s ≤ u64_max
      → group_total g out ≤ u64_max
      → group_total g (add_stored k s out) ≡ (
          if tags_eq k g
          then saturating_add (group_total g out) (counter_value s)
          else group_total g out)
  unfolding add_stored
  group_total-add_stored g k (counter v) out fits below =
      ground (arith, group_total-add_group g k v out fits)
  group_total-add_stored g k (gauge z) out fits below = ground arith
  group_total-add_stored g k (rate t h) out fits below = ground arith
  group_total-add_stored g k (histogram h) out fits below = ground arith

  add_series-counter_value :
      (predicate : TagSet → Bool) (total : ℕ) (s : MetricSeries Hist)
      → total ≤ u64_max
      → add_series predicate total s
        ≡ (if predicate s.tags then saturating_add total (counter_value s.storage) else total)
  unfolding add_series
  add_series-counter_value predicate total s below = ground arith

  group_total-sum_one :
      (q : Query) (g : TagSet) (s : MetricSeries Hist) (out : Groups ℕ)
      → counter_value s.storage ≤ u64_max
      → group_total g out ≤ u64_max
      → group_total g (sum_one q out s) ≡ add_series (in_group q g) (group_total g out) s
  unfolding sum_one
  group_total-sum_one q g s out fits below = ground (
    arith,
    add_series-counter_value (in_group q g) (group_total g out) s below,
    group_total-add_stored g (group_key q s.tags) s.storage out fits below,
  )

  add_series-le :
      (predicate : TagSet → Bool) (total : ℕ) (s : MetricSeries Hist)
      → total ≤ u64_max
      → add_series predicate total s ≤ u64_max
  add_series-le predicate total s below =
      ground (arith, add_series-counter_value predicate total s below)

  group_total-sum_series :
      (q : Query) (g : TagSet) (series : List (MetricSeries Hist)) (out : Groups ℕ)
      → AreU64 series
      → group_total g out ≤ u64_max
      → group_total g (sum_series q out series)
        ≡ sum_counters (in_group q g) (group_total g out) series
  unfolding sum_series sum_counters
  group_total-sum_series q g [] out fits below = refl
  group_total-sum_series q g (s ∷ series) out fits below =
      let one = group_total-sum_one q g s out fits.0 below in
      let bound = add_series-le (in_group q g) (group_total g out) s below in
      group_total-sum_series q g series (sum_one q out s) fits.1 (omega (arith, one, bound))
      ∙ ap (λ (t : ℕ). sum_counters (in_group q g) t series) one

  -- For a metric whose counters are u64: the sum that `sum_counter` gives a group, 0 if it gives none,
  -- is the sum that `fold_counter_sum` gives for the series that pass the filters and whose tags
  -- project to the group.
  pub group_total-sum_counter :
      (q : Query) (g : TagSet) (r : Registry Hist)
      → AreU64 (visit_series q.metric r)
      → group_total g (sum_counter q r) ≡ fold_counter_sum q.metric (in_group q g) r
  unfolding sum_counter fold_counter_sum group_total
  group_total-sum_counter q g r fits =
      group_total-sum_series q g (visit_series q.metric r) [] fits (omega arith)

  plain_total-add_stored :
      (k : TagSet) (s : MetricStorage Hist) (out : Groups ℕ)
      → min (plain_total (add_stored k s out)) u64_max
        ≡ min (plain_total out + counter_value s) u64_max
  unfolding add_stored
  plain_total-add_stored k (counter v) out = ground (arith, plain_total-add_group k v out)
  plain_total-add_stored k (gauge z) out = omega arith
  plain_total-add_stored k (rate t h) out = omega arith
  plain_total-add_stored k (histogram h) out = omega arith

  plain_total-sum_one :
      (q : Query) (s : MetricSeries Hist) (out : Groups ℕ) (total : ℕ)
      → min (plain_total out) u64_max ≡ total
      → min (plain_total (sum_one q out s)) u64_max ≡ add_series (all_match q.filters) total s
  unfolding sum_one
  plain_total-sum_one q s out total e = ground (
    arith,
    e,
    add_series-counter_value (all_match q.filters) total s (omega (arith, e)),
    plain_total-add_stored (group_key q s.tags) s.storage out,
  )

  plain_total-sum_series :
      (q : Query) (series : List (MetricSeries Hist)) (out : Groups ℕ) (total : ℕ)
      → min (plain_total out) u64_max ≡ total
      → min (plain_total (sum_series q out series)) u64_max
        ≡ sum_counters (all_match q.filters) total series
  unfolding sum_series sum_counters
  plain_total-sum_series q [] out total e = e
  plain_total-sum_series q (s ∷ series) out total e =
      plain_total-sum_series q series (sum_one q out s) (add_series (all_match q.filters) total s)
        (plain_total-sum_one q s out total e)

  -- Grouping neither loses nor adds a count: cut at the largest u64, the sum of all the groups of a
  -- query is the sum that `fold_counter_sum` gives for the series that pass its filters, whatever
  -- the keys of the groups are.
  pub plain_total-sum_counter :
      (q : Query) (r : Registry Hist)
      → min (plain_total (sum_counter q r)) u64_max
        ≡ fold_counter_sum q.metric (all_match q.filters) r
  unfolding sum_counter fold_counter_sum plain_total
  plain_total-sum_counter q r =
      plain_total-sum_series q (visit_series q.metric r) [] 0 (omega arith)
