-- ===== src/Requests/Passing.antt =====
-- What a write to one metric leaves alone: the series of every other metric, the metrics, and the
-- well-formedness of the registry.
use wrkr.Prelude.{ℕ, ◌≡◌, ◌≢◌, refl, sym, ◌∙◌, some, Option-cases, inl, inr, get_elem?, arith}
use wrkr.Metrics.{Interner, TagSet}
use wrkr.Registry.HdrHistogram.{Histograms}
use wrkr.Registry.{
  MetricKind, MetricStorage, counter, gauge, rate, histogram, MetricHandle, Registry, write_series,
  kind_of, write, increment, add_counter, get_handle, add_to_counter, visit_series,
}
use wrkr.Registry.Invariant.{IsRegistry, add_counter-kind}
use wrkr.Registry.Handles.{visit_series-set_at, storage-write}
use wrkr.Registry.Preserved.{write-IsRegistry, get_handle-IsHandled}
use wrkr.Requests.{with_interner, record_stored, record_handle, add_to_histogram}

-- From one registry to another, the series of a metric stay, and so do the metrics if the first is
-- well-formed.
abbrev pub Passes : {Hist : Type 0} → ℕ → Registry Hist → Registry Hist → Type 0
Passes j r r' =
    IsRegistry r → IsRegistry r' × (r'.defs ≡ r.defs) × (visit_series j r' ≡ visit_series j r)

module _ {Hist : Type 0} where
  pub Passes-refl : (j : ℕ) (r : Registry Hist) → Passes j r r
  Passes-refl j r wf = (wf, refl, refl)

  pub Passes-trans :
      (j : ℕ) (r₁ r₂ r₃ : Registry Hist) → Passes j r₁ r₂ → Passes j r₂ r₃ → Passes j r₁ r₃
  Passes-trans j r₁ r₂ r₃ first second wf =
      let (wf', defs, series) = first wf in
      let (wf'', defs', series') = second wf' in (wf'', defs' ∙ defs, series' ∙ series)

  pub with_interner-Passes :
      (j : ℕ) (r : Registry Hist) (i : Interner) → Passes j r (with_interner r i)
  unfolding visit_series
  with_interner-Passes j r i wf =
      (record { same_length = wf.same_length; typed = wf.typed }, refl, refl)

  defs-write :
      (f : MetricStorage Hist → MetricStorage Hist) (h : MetricHandle) (r : Registry Hist)
      → (write f h r).defs ≡ r.defs
  unfolding write
  defs-write f h r = elim (Option-cases (get_elem? r.storage h.metric)) [
    | inl missing ↦ rw (missing, write) refl
    | inr (series, hs) ↦ rw (hs, write) refl
  ]

  visit_series-write :
      (f : MetricStorage Hist → MetricStorage Hist) (h : MetricHandle) (j : ℕ) (r : Registry Hist)
      → h.metric ≢ j
      → visit_series j (write f h r) ≡ visit_series j r
  unfolding write
  visit_series-write f h j r apart = elim (Option-cases (get_elem? r.storage h.metric)) [
    | inl missing ↦ rw (missing, write) refl
    | inr (series, hs) ↦
        visit_series-set_at h.metric j r (write f h r) series (write_series h.tags h.cell f series)
          hs (storage-write f h series r hs)
        ∙ ground (arith, apart)
  ]

  pub write-Passes :
      (f : MetricStorage Hist → MetricStorage Hist) (h : MetricHandle) (j : ℕ) (r : Registry Hist)
      → ((s : MetricStorage Hist) → kind_of (f s) ≡ kind_of s)
      → h.metric ≢ j
      → Passes j r (write f h r)
  write-Passes f h j r keeps apart wf =
      (write-IsRegistry f h r keeps wf, defs-write f h r, visit_series-write f h j r apart)

module _ (lib : Histograms) where
  -- A write through the handle that `get_handle` gave, of another metric.
  handled-Passes :
      (metric j : ℕ) (tags : TagSet) (r r' : Registry lib.Hist) (h : MetricHandle)
      (write_to : MetricHandle → Registry lib.Hist → Registry lib.Hist)
      → metric ≢ j
      → ((k : MetricHandle) (s : Registry lib.Hist) → k.metric ≢ j → Passes j s (write_to k s))
      → get_handle lib metric tags r ≡ some (r', h)
      → Passes j r (write_to h r')
  handled-Passes metric j tags r r' h write_to apart passes e wf =
      let (wf', defs, of_metric, series) = get_handle-IsHandled lib metric tags r (r', h) wf e in
      let (wf'', defs', series') = passes h r' (λ same. apart (sym of_metric ∙ same)) wf' in
      (wf'', defs' ∙ defs, series' ∙ series j apart)

  increment-Passes :
      (v j : ℕ) (h : MetricHandle) (r : Registry lib.Hist)
      → h.metric ≢ j
      → Passes j r (increment v h r)
  unfolding increment
  increment-Passes v j h r apart = by_kind h.kind refl
    where
      by_kind : (k : MetricKind) → h.kind ≡ k → Passes j r (increment v h r)
      by_kind MetricKind.counter e =
          rw (e, increment) (write-Passes (add_counter v) h j r (add_counter-kind v) apart)
      by_kind MetricKind.gauge e = rw (e, increment) (Passes-refl j r)
      by_kind MetricKind.rate e = rw (e, increment) (Passes-refl j r)
      by_kind MetricKind.histogram e = rw (e, increment) (Passes-refl j r)

  record_stored-kind :
      (v : ℕ) (s : MetricStorage lib.Hist) → kind_of (record_stored lib v s) ≡ kind_of s
  unfolding record_stored kind_of
  record_stored-kind v (counter n) = refl
  record_stored-kind v (gauge z) = refl
  record_stored-kind v (rate t h) = refl
  record_stored-kind v (histogram h) = refl

  record_handle-Passes :
      (v j : ℕ) (h : MetricHandle) (r : Registry lib.Hist)
      → h.metric ≢ j
      → Passes j r (record_handle lib v h r)
  unfolding record_handle
  record_handle-Passes v j h r apart = by_kind h.kind refl
    where
      by_kind : (k : MetricKind) → h.kind ≡ k → Passes j r (record_handle lib v h r)
      by_kind MetricKind.histogram e =
          rw (e, record_handle)
            (write-Passes (record_stored lib v) h j r (record_stored-kind v) apart)
      by_kind MetricKind.gauge e = rw (e, record_handle) (Passes-refl j r)
      by_kind MetricKind.rate e = rw (e, record_handle) (Passes-refl j r)
      by_kind MetricKind.counter e = rw (e, record_handle) (Passes-refl j r)

  pub add_to_counter-Passes :
      (metric j v : ℕ) (tags : TagSet) (r : Registry lib.Hist)
      → metric ≢ j
      → Passes j r (add_to_counter lib metric tags v r)
  unfolding add_to_counter
  add_to_counter-Passes metric j v tags r apart =
      elim (Option-cases (get_handle lib metric tags r)) [
        | inl nothing ↦ rw (nothing, add_to_counter) (Passes-refl j r)
        | inr ((r', h), e) ↦
            rw (e, add_to_counter)
              (handled-Passes metric j tags r r' h (increment v) apart
                (λ k s. increment-Passes v j k s) e)
      ]

  pub add_to_histogram-Passes :
      (metric j v : ℕ) (tags : TagSet) (r : Registry lib.Hist)
      → metric ≢ j
      → Passes j r (add_to_histogram lib metric tags v r)
  unfolding add_to_histogram
  add_to_histogram-Passes metric j v tags r apart =
      elim (Option-cases (get_handle lib metric tags r)) [
        | inl nothing ↦ rw (nothing, add_to_histogram) (Passes-refl j r)
        | inr ((r', h), e) ↦
            rw (e, add_to_histogram)
              (handled-Passes metric j tags r r' h (record_handle lib v) apart
                (λ k s. record_handle-Passes v j k s) e)
      ]
