-- ===== src/Requests/Steps.antt =====
-- The steps of a request and of an iteration: one addition to a counter among steps that pass it by.
use wrkr.Prelude.{
  ℕ, suc, ◌+◌, ◌<◌, ◌≡◌, ◌≢◌, sym, ap, ◌∙◌, Bool, true, false, Option, none, some, List, [], ◌∷◌,
  All, get_elem?, arith, if◌then◌else◌, u64_max,
}
use wrkr.Metrics.{TagSet}
use wrkr.Registry.HdrHistogram.{Histograms}
use wrkr.Registry.{
  MetricKind, MetricDef, MetricSeries, Registry, add_to_counter, visit_series, fold_counter_sum,
  sum_counters,
}
use wrkr.Registry.Series.{every}
use wrkr.Registry.Invariant.{IsRegistry}
use wrkr.Registry.Recording.{fold_counter_sum-add_to_counter}
use wrkr.Tagging.{TagList}
use wrkr.Queries.Summary.{RequestMetricIds}
use wrkr.Requests.{RequestSample, record_error_kind, record_failure, record_latency}
use wrkr.Requests.Passing.{
  Passes, Passes-refl, Passes-trans, with_interner-Passes, add_to_counter-Passes,
  add_to_histogram-Passes,
}

abbrev pub AreDistinct : List ℕ → Type 0
AreDistinct [] = Unit
AreDistinct (x ∷ xs) = All (λ (y : ℕ). x ≢ y) xs × AreDistinct xs

-- A metric that is registered as a counter.
abbrev pub IsCounter : {Hist : Type 0} → Registry Hist → ℕ → Type 0
IsCounter r metric =
    (d : MetricDef) × (get_elem? r.defs metric ≡ some d) × (d.kind ≡ MetricKind.counter)

-- A counter with room: what is added keeps the sum over all its series below the largest u64.
abbrev pub HasRoom : {Hist : Type 0} → Registry Hist → ℕ → ℕ → Type 0
HasRoom r metric v = IsCounter r metric × (fold_counter_sum metric every r + v < u64_max)

-- The metrics of requests are six, the counters are counters, and one more request fits.
abbrev pub IsReady : {Hist : Type 0} → RequestMetricIds → RequestSample → Registry Hist → Type 0
IsReady ids sample r =
    AreDistinct (
      ids.requests_total ∷ ids.bytes_received_total ∷ ids.bytes_sent_total ∷ ids.errors_total
      ∷ ids.errors_by_kind_total ∷ ids.latency ∷ [])
    × HasRoom r ids.requests_total 1
    × HasRoom r ids.bytes_received_total sample.bytes_received
    × HasRoom r ids.bytes_sent_total sample.bytes_sent
    × HasRoom r ids.errors_total 1

pub apart_sym : {a b : ℕ} → a ≢ b → b ≢ a
apart_sym apart same = apart (sym same)

module _ (lib : Histograms) where
  pub fold_counter_sum-Passes :
      (j : ℕ) (predicate : TagSet → Bool) (r r' : Registry lib.Hist)
      → visit_series j r' ≡ visit_series j r
      → fold_counter_sum j predicate r' ≡ fold_counter_sum j predicate r
  unfolding fold_counter_sum
  fold_counter_sum-Passes j predicate r r' same =
      ap (λ (series : List (MetricSeries lib.Hist)). sum_counters predicate 0 series) same

  -- One addition to a metric, with steps before and after it that pass the metric by.
  pub between :
      (j v : ℕ) (predicate : TagSet → Bool) (tags : TagSet) (r before after : Registry lib.Hist)
      → IsRegistry r
      → HasRoom r j v
      → Passes j r before
      → Passes j (add_to_counter lib j tags v before) after
      → fold_counter_sum j predicate after
        ≡ fold_counter_sum j predicate r + (if predicate tags then v else 0)
  between j v predicate tags r before after wf ((d, hd, kind), room) first last =
      let (wf₁, defs, series) = first wf in
      let added = add_to_counter lib j tags v before in
      let (wf₂, defs₂, series₂) =
        add_to_counter-Passes lib j (suc j) v tags before (λ e. omega (arith, e)) wf₁ in
      let (wf₃, defs₃, series₃) = last wf₂ in
      let hd' : get_elem? before.defs j ≡ some d =
        ap (λ (ds : List MetricDef). get_elem? ds j) defs ∙ hd in
      let same = fold_counter_sum-Passes j predicate r before series in
      let all = fold_counter_sum-Passes j every r before series in
      let sum =
        fold_counter_sum-add_to_counter lib j j v predicate tags d before wf₁ hd' kind
          (omega (arith, all, room)) in
      let end = fold_counter_sum-Passes j predicate added after series₃ in
      ground (arith, same, sum, end)

  module _ (ids : RequestMetricIds) (sample : RequestSample) (extra : TagList) (j : ℕ) where
    pub record_error_kind-Passes :
        (kind : Option _) (r : Registry lib.Hist)
        → ids.errors_by_kind_total ≢ j
        → Passes j r (record_error_kind lib ids sample extra kind r)
    unfolding record_error_kind
    record_error_kind-Passes none r apart = Passes-refl j r
    record_error_kind-Passes (some kind) r apart =
        Passes-trans j r _ _ (with_interner-Passes j r _)
          (add_to_counter-Passes lib ids.errors_by_kind_total j 1 _ _ apart)

    pub record_failure-Passes :
        (tags : TagSet) (done : Bool) (r : Registry lib.Hist)
        → ids.errors_total ≢ j
        → ids.errors_by_kind_total ≢ j
        → Passes j r (record_failure lib ids sample extra tags done r)
    unfolding record_failure
    record_failure-Passes tags true r apart apart' = Passes-refl j r
    record_failure-Passes tags false r apart apart' =
        Passes-trans j r _ _ (add_to_counter-Passes lib ids.errors_total j 1 tags r apart)
          (record_error_kind-Passes sample.error_kind _ apart')

    pub record_latency-Passes :
        (tags : TagSet) (r : Registry lib.Hist)
        → ids.latency ≢ j
        → Passes j r (record_latency lib ids sample extra tags r)
    unfolding record_latency
    record_latency-Passes tags r apart = Passes-trans j r _ _ (with_interner-Passes j r _) (
        Passes-trans j _ _ _ (add_to_histogram-Passes lib ids.latency j _ _ _ apart)
          (add_to_histogram-Passes lib ids.latency j _ tags _ apart))
