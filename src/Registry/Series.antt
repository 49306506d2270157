-- ===== src/Registry/Series.antt =====
-- The series of one metric as a list: what a sum over them is after an insertion and after a write.
use wrkr.Prelude.{
  ℕ, ◌+◌, ◌≤◌, ◌≡◌, refl, ap, ◌∙◌, min, Bool, true, none, some, Bool-cases, inl, inr, List, [], ◌∷◌,
  All, arith, if◌then◌else◌, u64_max,
}
use wrkr.Metrics.{TagSet, tags_eq}
use wrkr.Metrics.Tags.{tags_eq_iff}
use wrkr.Registry.{
  MetricStorage, counter, MetricSeries, find_series, insert_series, write_series, add_counter,
  add_series, sum_counters,
}

abbrev pub every : TagSet → Bool
every tags = true

module _ {Hist : Type 0} where
  abbrev pub counter_value : MetricStorage Hist → ℕ
  counter_value (counter n) = n
  counter_value _ = 0

  -- Every counter holds a u64.
  abbrev pub AreU64 : List (MetricSeries Hist) → Type 0
  AreU64 = All (λ (s : MetricSeries Hist). counter_value s.storage ≤ u64_max)

  -- The plain sum of the counters of the series that a predicate takes.
  pub counted : (TagSet → Bool) → List (MetricSeries Hist) → ℕ
  counted predicate [] = 0
  counted predicate (s ∷ series) =
      (if predicate s.tags then counter_value s.storage else 0) + counted predicate series

  add_series-counter :
      (predicate : TagSet → Bool) (total : ℕ) (s : MetricSeries Hist)
      → total ≤ u64_max
      → add_series predicate total s
        ≡ min (total + (if predicate s.tags then counter_value s.storage else 0)) u64_max
  unfolding add_series
  add_series-counter predicate total s h = ground arith

  -- The fold saturates; it is the plain sum cut at the largest u64.
  pub sum_counters-counted :
      (predicate : TagSet → Bool) (series : List (MetricSeries Hist)) (total : ℕ)
      → total ≤ u64_max
      → sum_counters predicate total series ≡ min (total + counted predicate series) u64_max
  unfolding sum_counters counted
  sum_counters-counted predicate [] total h = omega arith
  sum_counters-counted predicate (s ∷ series) total h =
      let rest = sum_counters-counted predicate series (add_series predicate total s) in
      omega (arith, add_series-counter predicate total s h, rest)

  pub counted-le :
      (predicate : TagSet → Bool) (series : List (MetricSeries Hist))
      → counted predicate series ≤ counted every series
  unfolding counted
  counted-le predicate [] = omega arith
  counted-le predicate (s ∷ series) = ground (arith, counted-le predicate series)

  pub find-insert_series :
      (s : MetricSeries Hist) (series : List (MetricSeries Hist))
      → find_series s.tags (insert_series s series) ≡ some s
  unfolding find_series insert_series
  find-insert_series s [] = ground (arith, (tags_eq_iff s.tags s.tags).1 refl)
  find-insert_series s (t ∷ series) =
      ground (arith, (tags_eq_iff s.tags s.tags).1 refl, find-insert_series s series)

  -- New tags add their own storage to a sum and touch nothing else.
  pub counted-insert_series :
      (predicate : TagSet → Bool) (s : MetricSeries Hist) (series : List (MetricSeries Hist))
      → find_series s.tags series ≡ none
      → counted predicate (insert_series s series)
        ≡ counted predicate series + (if predicate s.tags then counter_value s.storage else 0)
  unfolding find_series insert_series counted
  counted-insert_series predicate s [] h = omega arith
  counted-insert_series predicate s (t ∷ series) h =
      ground (arith, counted-insert_series predicate s series)

  -- A write to a counter through a live handle adds to the sums that take its tags.
  pub counted-write_series :
      (predicate : TagSet → Bool) (s : MetricSeries Hist) (v n : ℕ) (tags : TagSet)
      (series : List (MetricSeries Hist))
      → find_series tags series ≡ some s
      → s.storage ≡ counter n
      → counted every series + v ≤ u64_max
      → counted predicate (write_series tags s.cell (add_counter v) series)
        ≡ counted predicate series + (if predicate tags then v else 0)
  unfolding find_series write_series counted add_counter
  counted-write_series predicate s v n tags [] h k fits = cc
  counted-write_series predicate s v n tags (t ∷ series) h k fits =
      elim (Bool-cases (tags_eq t.tags tags)) [
        | inl same ↦
            let here : t ≡ s = cc in
            let name : t.tags ≡ tags = (tags_eq_iff t.tags tags).0 same in
            let cells : t.cell ≡ s.cell = ap (λ (x : MetricSeries Hist). x.cell) here in
            let stored : t.storage ≡ counter n =
              ap (λ (x : MetricSeries Hist). x.storage) here ∙ k in
            let taken : predicate t.tags ≡ predicate tags = ap predicate name in
            ground (arith, same)
        | inr other ↦ rw other (ground (arith, counted-write_series predicate s v n tags series))
      ]
