-- ===== src/Registry/Entries.antt =====
-- The entries that `summarize` makes of one metric.
use wrkr.Prelude.{
  ℕ, ◌^◌, ◌<◌, ◌≡◌, refl, sym, ap, ◌∙◌, Option, none, some, true, Option-cases, Bool-cases, inl,
  inr, List, [], ◌∷◌, ◌++◌, map, String, str_eq, eq_iff, length, get_elem?, get_elem?_in_range,
  lt_of_get_elem?, All-get_elem?, arith, if◌then◌else◌,
}
use wrkr.Metrics.{get_or_intern, resolve}
use wrkr.Metrics.Interning.{get_or_intern-cases, get_or_intern-known}
use wrkr.Thresholds.Folds.{Doubles}
use wrkr.Registry.HdrHistogram.{Histograms}
use wrkr.Registry.{MetricKind, MetricSeries, MetricDef, Registry, lookup_metric, visit_series}
use wrkr.Registry.Invariant.{IsRegistry}
use wrkr.Registry.Sorting.{with_name}
use wrkr.Registry.Cells.{find_def-get}
use wrkr.Registry.Named.{IsNamed}
use wrkr.Registry.Summaries.{
  MetricSeriesSummary, resolved_name, tag_names, reported_value, series_summary, metric_summaries,
}

module _ (lib : Histograms) (nums : Doubles lib) where
  abbrev pub Summary : Type 0
  Summary = MetricSeriesSummary lib.Float

  abbrev pub key : Summary → String
  key s = s.name

  -- The entries of a metric with its name.
  abbrev pub reported :
      String → Registry lib.Hist → Option (ℕ × MetricKind) → List (MetricSeriesSummary lib.Float)
  reported name r none = []
  reported name r (some (id, kind)) =
      map
        (λ (s : MetricSeries lib.Hist). record {
          name = name;
          kind = kind;
          tags = tag_names r.interner s.tags;
          values = reported_value lib nums s.storage;
        })
        (visit_series id r)

  pub with_name-append :
      (name : String) (xs ys : List Summary)
      → with_name key name (xs ++ ys) ≡ with_name key name xs ++ with_name key name ys
  unfolding with_name
  with_name-append name [] ys = refl
  with_name-append name (x ∷ xs) ys = ground (arith, with_name-append name xs ys)

  with_name-map :
      (name : String) (r : Registry lib.Hist) (d : MetricDef)
      (series : List (MetricSeries lib.Hist))
      → with_name key name (map (series_summary lib nums r.interner d) series) ≡ (
          if str_eq (resolved_name r.interner d.name) name
          then map (series_summary lib nums r.interner d) series
          else [])
  unfolding with_name series_summary
  with_name-map name r d [] = ground arith
  with_name-map name r d (s ∷ series) = ground (arith, with_name-map name r d series)

  -- A metric that a name finds has that name in the reports, and no other has.
  resolved_name-found :
      (name : String) (m : ℕ) (d : MetricDef) (r : Registry lib.Hist)
      → IsNamed r
      → length r.interner.names < 2 ^ 32
      → get_elem? r.defs m ≡ some d
      → (resolved_name r.interner d.name ≡ name → (lookup_metric name r).1 ≡ some (m, d.kind))
        × ((k : MetricKind)
            → (lookup_metric name r).1 ≡ some (m, k)
            → (resolved_name r.interner d.name ≡ name) × (d.kind ≡ k))
  unfolding lookup_metric resolved_name resolve
  resolved_name-found name m d r wf room hd =
      let (n, at) = get_elem?_in_range r.interner.names d.name (
        All-get_elem? (λ (e : MetricDef). e.name < length r.interner.names) r.defs m d wf.below
          hd) in
      (
        λ same.
            let is : n ≡ name = ground (arith, at) in
            let known = wf.interned.numbered name d.name (at ∙ ap some is) in
            let id = get_or_intern-known name r.interner d.name known in
            ground (arith, id, wf.own m d hd),
        λ k e.
            let (x, hx, of, own) = find_def-get (get_or_intern name r.interner).1 m k r.defs e in
            let this : x ≡ d = cc in
            let kind : d.kind ≡ k = ap (λ (y : MetricDef). y.kind) (sym this) ∙ of in
            let number : d.name ≡ (get_or_intern name r.interner).1 =
              ap (λ (y : MetricDef). y.name) (sym this) ∙ own in
            let below = lt_of_get_elem? r.interner.names d.name n at in
            elim (get_or_intern-cases name r.interner room) [
              | inl (id, (known, f)) ↦
                  let there = wf.interned.named name id known in
                  (ground (arith, f, number, there, at), kind)
              | inr (fresh, f) ↦ absurd (ground (arith, f, number, below))
            ],
      )

  entries-own :
      (name : String) (kind : MetricKind) (r : Registry lib.Hist) (d : MetricDef)
      (series : List (MetricSeries lib.Hist))
      → resolved_name r.interner d.name ≡ name
      → d.kind ≡ kind
      → map (series_summary lib nums r.interner d) series
        ≡ map
            (λ (s : MetricSeries lib.Hist). record {
              name = name;
              kind = kind;
              tags = tag_names r.interner s.tags;
              values = reported_value lib nums s.storage;
            })
            series
  unfolding series_summary
  entries-own name kind r d series named of = λ i.
      map
        (λ (s : MetricSeries lib.Hist). record {
          name = named i;
          kind = of i;
          tags = tag_names r.interner s.tags;
          values = reported_value lib nums s.storage;
        })
        series

  module _ (name : String) (r : Registry lib.Hist) (typed : IsRegistry r) (wf : IsNamed r)
      (room : length r.interner.names < 2 ^ 32) where
    pub block-own :
        (m : ℕ) (kind : MetricKind)
        → (lookup_metric name r).1 ≡ some (m, kind)
        → with_name key name (metric_summaries lib nums m r) ≡ reported name r (some (m, kind))
    unfolding lookup_metric visit_series metric_summaries
    block-own m kind e =
        let (d, hd, of, own) = find_def-get (get_or_intern name r.interner).1 m kind r.defs e in
        let (series, hs) =
          get_elem?_in_range r.storage m
            (omega (arith, typed.same_length, lt_of_get_elem? r.defs m d hd)) in
        let (named, same) = (resolved_name-found name m d r wf room hd).1 kind e in
        let takes : str_eq (resolved_name r.interner d.name) name ≡ true = (eq_iff _ _).1 named in
        rw (hs, metric_summaries, visit_series)
          (rw hd (
            with_name-map name r d series ∙ rw takes (entries-own name kind r d series named same)))

    pub block-other :
        (m : ℕ)
        → ((k : MetricKind) → (lookup_metric name r).1 ≡ some (m, k) → ⊥)
        → with_name key name (metric_summaries lib nums m r) ≡ []
    unfolding metric_summaries with_name
    block-other m apart = elim (Option-cases (get_elem? r.storage m)) [
      | inl missing ↦ rw (missing, metric_summaries) refl
      | inr (series, hs) ↦
          let (d, hd) =
            get_elem?_in_range r.defs m
              (omega (arith, typed.same_length, lt_of_get_elem? r.storage m series hs)) in
          elim (Bool-cases (str_eq (resolved_name r.interner d.name) name)) [
            | inl takes ↦ absurd (
                apart d.kind ((resolved_name-found name m d r wf room hd).0 ((eq_iff _ _).0 takes)))
            | inr leaves ↦
                rw (hs, metric_summaries) (rw hd (with_name-map name r d series ∙ rw leaves refl))
          ]
    ]
