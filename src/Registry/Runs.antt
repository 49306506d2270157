-- ===== src/Registry/Runs.antt =====
-- The registry on concrete metrics: a counter and a gauge, with a histogram that keeps what it was
-- given.
use wrkr.Prelude.{
  ℕ, zero, suc, ◌+◌, ◌≡◌, refl, ap, subst, none, some, List, [], ◌∷◌, str_eq, if◌then◌else◌, ◌<◌,
  ◌^◌, length, get_elem?, arith,
}
use wrkr.Metrics.{new, tags_eq, get_or_intern}
use wrkr.Prelude.Dict.{lookup}
use wrkr.Metrics.Interning.{new-IsInterner, get_or_intern_keeps-IsInterner}
use wrkr.Registry.Defs.{registered}
use wrkr.Registry.HdrHistogram.{Histograms}
use wrkr.Registry.{
  MetricKind, counter, MetricDef, MetricSeries, Registry, lookup_metric, register, find_handle,
  MetricHandle, get_handle, add_to_counter, both_record, fold_counter_sum, kind_of,
}
use wrkr.Registry.Series.{every}
use wrkr.Registry.Invariant.{OfKind, IsRegistry}
use wrkr.Registry.Recording.{fold_counter_sum-add_to_counter}
use wrkr.Registry.Race.{both_record_loses}
use wrkr.Registry.Names.{lookup_metric-register}

abbrev pub kept : Histograms
kept = record {
  Hist = List ℕ;
  Float = ℕ;
  empty = [];
  record_value = λ v h. v ∷ h;
  add = λ g h. h;
  len = length;
  value_at_percentile = λ p h. 0;
  min_value = λ h. 0;
  max_value = λ h. 0;
  mean = λ h. 0;
  stdev = λ h. 0;
  float_of = λ n. n;
}

abbrev two_metrics : Registry (List ℕ)
two_metrics = record {
  interner = new;
  defs =
      record { name = 0; kind = MetricKind.counter }
      ∷ record { name = 1; kind = MetricKind.gauge }
      ∷ [];
  storage = (record { tags = (0, 5) ∷ []; cell = 0; storage = counter 7 } ∷ []) ∷ [] ∷ [];
  next_cell = 1;
}

two_metrics-IsRegistry : IsRegistry two_metrics
unfolding kind_of
two_metrics-IsRegistry = record { same_length = refl; typed = typed }
  where
    typed :
        (m : ℕ) (d : MetricDef) (series : List (MetricSeries (List ℕ)))
        → get_elem? two_metrics.defs m ≡ some d
        → get_elem? two_metrics.storage m ≡ some series
        → OfKind d.kind series
    typed zero d series hd hs =
        let same : record { name = 0; kind = MetricKind.counter } ≡ d = cc in
        let kind : MetricKind.counter ≡ d.kind = ap (λ (x : MetricDef). x.kind) same in
        let one : (record { tags = (0, 5) ∷ []; cell = 0; storage = counter 7 } ∷ []) ≡ series =
          cc in
        subst (OfKind d.kind) one (kind, tt)
    typed (suc zero) d series hd hs =
        let none_yet : [] ≡ series = cc in subst (OfKind d.kind) none_yet tt
    typed (suc (suc m)) d series hd hs = absurd cc

-- Recording under tags that have a series, and under new ones.
fold_known : fold_counter_sum 0 every (add_to_counter kept 0 ((0, 5) ∷ []) 3 two_metrics) ≡ 10
unfolding fold_counter_sum add_to_counter tags_eq
fold_known = refl

fold_new : fold_counter_sum 0 every (add_to_counter kept 0 [] 3 two_metrics) ≡ 10
unfolding fold_counter_sum add_to_counter tags_eq
fold_new = refl

find_handle-new : find_handle 0 [] two_metrics ≡ some none
unfolding find_handle tags_eq
find_handle-new = refl

fold_two_metrics : fold_counter_sum 0 every two_metrics ≡ 7
unfolding fold_counter_sum
fold_two_metrics = refl

fold_counter_sum-add_to_counter_example :
    fold_counter_sum 0 every (add_to_counter kept 0 ((0, 5) ∷ []) 3 two_metrics)
    ≡ fold_counter_sum 0 every two_metrics + 3
fold_counter_sum-add_to_counter_example =
    fold_counter_sum-add_to_counter kept 0 0 3 every ((0, 5) ∷ [])
      (record { name = 0; kind = MetricKind.counter }) two_metrics two_metrics-IsRegistry refl refl
      (omega (arith, fold_two_metrics))

both_record_loses_example :
    (r' : Registry (List ℕ)) × (both_record kept 0 [] 3 4 two_metrics ≡ some r')
    × (fold_counter_sum 0 every r' ≡ fold_counter_sum 0 every two_metrics + 4)
both_record_loses_example =
    both_record_loses kept 0 3 4 [] (record { name = 0; kind = MetricKind.counter }) two_metrics
      two_metrics-IsRegistry refl refl find_handle-new (omega (arith, fold_two_metrics))

one_name : length (get_or_intern "vus" new).0.names ≡ 1
unfolding get_or_intern lookup
one_name = refl

abbrev interned_vus : Registry (List ℕ)
interned_vus = record {
  interner = (get_or_intern "vus" new).0;
  defs = [];
  storage = [];
  next_cell = 0;
}

-- Registering one name, and looking another one up.
lookup_metric-register_example :
    ((lookup_metric "http_reqs" (register "vus" MetricKind.gauge interned_vus).0).1 ≡ (
      if str_eq "vus" "http_reqs"
      then some (registered (lookup_metric "vus" interned_vus).1 0 MetricKind.gauge)
      else (lookup_metric "http_reqs" interned_vus).1))
    × ((register "vus" MetricKind.gauge interned_vus).1
        ≡ (registered (lookup_metric "vus" interned_vus).1 0 MetricKind.gauge).0)
lookup_metric-register_example =
    let room : length interned_vus.interner.names + 1 < 2 ^ 32 = omega (arith, one_name) in
    let empty : length new.names < 2 ^ 32 = omega arith in
    let wf = get_or_intern_keeps-IsInterner "vus" new new-IsInterner empty in
    lookup_metric-register "vus" "http_reqs" MetricKind.gauge interned_vus wf tt room (omega arith)

-- A handle for new tags, of the counter.
abbrev handled_new : Registry (List ℕ) × MetricHandle
handled_new = (
  record two_metrics {
    storage =
        (record { tags = (0, 5) ∷ []; cell = 0; storage = counter 7 }
          ∷ record { tags = []; cell = 1; storage = counter 0 }
          ∷ [])
        ∷ []
        ∷ [];
    next_cell = 2;
  },
  record { metric = 0; tags = []; cell = 1; kind = MetricKind.counter },
)

get_handle-new : get_handle kept 0 [] two_metrics ≡ some handled_new
unfolding get_handle tags_eq
get_handle-new = refl
