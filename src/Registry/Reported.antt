-- ===== src/Registry/Reported.antt =====
-- What `summarize` reports of each metric.
use wrkr.Prelude.{
  ℕ, ◌+◌, ◌^◌, ◌<◌, ◌≡◌, refl, sym, ◌∙◌, subst, some, Option-cases, Bool-cases, inl, inr, List, [],
  ◌∷◌, String, length, lt_of_get_elem?, arith, ◌==◌, ==_iff, if◌then◌else◌,
}
use mathlib.Core.List.{append-nil}
use wrkr.Metrics.{get_or_intern}
use wrkr.Thresholds.Folds.{Doubles}
use wrkr.Registry.HdrHistogram.{Histograms}
use wrkr.Registry.{MetricKind, Registry, lookup_metric}
use wrkr.Registry.Invariant.{IsRegistry}
use wrkr.Registry.Sorting.{with_name, AreAscending, sort_by-AreAscending, with_name-sort_by}
use wrkr.Registry.Cells.{find_def-get}
use wrkr.Registry.Named.{IsNamed, Reach-IsNamed}
use wrkr.Registry.Reached.{Reach, Reach-IsRegistry}
use wrkr.Registry.Summaries.{MetricSeriesSummary, metric_summaries, collect, summarize}
use wrkr.Registry.Entries.{key, reported, with_name-append, block-own, block-other}

-- How often an order visits a metric.
abbrev pub visits : ℕ → List ℕ → ℕ
visits id [] = 0
visits id (m ∷ order) = (if m == id then 1 else 0) + visits id order

module _ (lib : Histograms) (nums : Doubles lib) where
  module _ (name : String) (r : Registry lib.Hist) (typed : IsRegistry r) (wf : IsNamed r)
      (room : length r.interner.names < 2 ^ 32) where
    collect-other :
        (order : List ℕ)
        → ((m : ℕ) (k : MetricKind) → (lookup_metric name r).1 ≡ some (m, k) → visits m order ≡ 0)
        → with_name (key lib nums) name (collect lib nums order r) ≡ []
    unfolding collect with_name
    collect-other [] h = refl
    collect-other (m ∷ order) h =
        let apart : (k : MetricKind) → (lookup_metric name r).1 ≡ some (m, k) → ⊥ =
          λ k e. ground (arith, h m k e, (==_iff m m).1 refl) in
        let later : (j : ℕ) (k : MetricKind)
            → (lookup_metric name r).1 ≡ some (j, k)
            → visits j order ≡ 0 =
          λ j k e. omega (arith, h j k e) in
        with_name-append lib nums name (metric_summaries lib nums m r) (collect lib nums order r)
        ∙ rw (block-other lib nums name r typed wf room m apart) (collect-other order later)

    collect-own :
        (id : ℕ) (kind : MetricKind) (order : List ℕ)
        → (lookup_metric name r).1 ≡ some (id, kind)
        → visits id order ≡ 1
        → with_name (key lib nums) name (collect lib nums order r)
          ≡ reported lib nums name r (some (id, kind))
    unfolding collect
    collect-own id kind [] e once = absurd (omega (arith, once))
    collect-own id kind (m ∷ order) e once =
        let split =
          with_name-append lib nums name (metric_summaries lib nums m r)
            (collect lib nums order r) in
        elim (Bool-cases (m == id)) [
          | inl here ↦
              let place : m ≡ id = (==_iff m id).0 here in
              let block : with_name (key lib nums) name (metric_summaries lib nums m r)
                  ≡ reported lib nums name r (some (id, kind)) =
                subst
                  (λ (j : ℕ).
                    with_name (key lib nums) name (metric_summaries lib nums j r)
                    ≡ reported lib nums name r (some (id, kind)))
                  (sym place) (block-own lib nums name r typed wf room id kind e) in
              let later : (j : ℕ) (k : MetricKind)
                  → (lookup_metric name r).1 ≡ some (j, k)
                  → visits j order ≡ 0 =
                λ j k f. let same : id ≡ j = cc in ground (arith, same, once, here) in
              split ∙ rw (block, collect-other order later) (append-nil _)
          | inr other ↦
              let apart : (k : MetricKind) → (lookup_metric name r).1 ≡ some (m, k) → ⊥ = λ k f.
                let same : id ≡ m = cc in ground (arith, (==_iff m id).1 (sym same), other) in
              split
              ∙ rw (block-other lib nums name r typed wf room m apart)
                  (collect-own id kind order e (ground (arith, once, other)))
        ]

  -- `summarize` lists the metrics in the order of their names, and under each name the series of the
  -- metric with that name, each once and in the order of its map, with the kind of the metric, the
  -- names of the tags and what the series stores; under a name with no metric it lists nothing. This
  -- holds in every registry that the operations of any threads lead to, whatever the order in which
  -- the map yields the metrics, as long as it yields each once and the interner has room.
  pub summarize-reported :
      (name : String) (order : List ℕ) (r : Registry lib.Hist)
      → Reach lib r
      → length r.interner.names < 2 ^ 32
      → ((m : ℕ) → m < length r.storage → visits m order ≡ 1)
      → AreAscending (λ (s : MetricSeriesSummary lib.Float). s.name) (summarize lib nums order r)
        × (with_name
              (λ (s : MetricSeriesSummary lib.Float). s.name)
              name
              (summarize lib nums order r)
            ≡ reported lib nums name r (lookup_metric name r).1)
  unfolding summarize lookup_metric
  summarize-reported name order r reach room once = (
    sort_by-AreAscending (key lib nums) (collect lib nums order r),
    with_name-sort_by (key lib nums) name (collect lib nums order r) ∙ named,
  )
    where
      typed : IsRegistry r
      typed = Reach-IsRegistry lib r reach

      wf : IsNamed r
      wf = Reach-IsNamed lib r reach room

      within :
          (id : ℕ) (kind : MetricKind)
          → (lookup_metric name r).1 ≡ some (id, kind)
          → id < length r.storage
      within id kind e =
          let (d, hd, of, own) = find_def-get (get_or_intern name r.interner).1 id kind r.defs e in
          omega (arith, typed.same_length, lt_of_get_elem? r.defs id d hd)

      named :
          with_name (key lib nums) name (collect lib nums order r)
          ≡ reported lib nums name r (lookup_metric name r).1
      named = elim (Option-cases (lookup_metric name r).1) [
        | inl absent ↦
            rw absent (
              collect-other name r typed wf room order
                (λ m k e. absurd (ground (arith, absent, e))))
        | inr ((id, kind), e) ↦
            rw e (collect-own name r typed wf room id kind order e (once id (within id kind e)))
      ]
