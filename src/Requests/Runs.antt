-- ===== src/Requests/Runs.antt =====
-- A request and an iteration, recorded in a registry with their metrics.
use wrkr.Prelude.{
  ℕ, zero, suc, ◌+◌, ◌≡◌, refl, subst, true, false, some, List, [], ◌∷◌, length, get_elem?, arith,
}
use wrkr.Metrics.{new}
use wrkr.Registry.HdrHistogram.{Histograms}
use wrkr.Registry.{MetricKind, MetricDef, MetricSeries, Registry, fold_counter_sum}
use wrkr.Registry.Series.{every}
use wrkr.Registry.Invariant.{IsRegistry, OfKind}
use wrkr.Queries.Summary.{RequestMetricIds}
use wrkr.Requests.{RequestSample, IterationSample, http, record_request}
use wrkr.Requests.Counts.{record_request-fold_counter_sum}

abbrev plain : Histograms
plain = record {
  Hist = List ℕ;
  Float = ℕ;
  empty = [];
  record_value = λ v h. v ∷ h;
  add = λ g h. h;
  len = length;
  value_at_percentile = λ p h. 0;
  min_value = λ h. 0;
  max_value = λ h. 0;
  mean = λ h. 0;
  stdev = λ h. 0;
  float_of = λ n. n;
}

abbrev def_of : ℕ → MetricKind → MetricDef
def_of name kind = record { name = name; kind = kind }

abbrev six : Registry (List ℕ)
six = record {
  interner = new;
  defs =
      def_of 0 MetricKind.counter
      ∷ def_of 1 MetricKind.counter
      ∷ def_of 2 MetricKind.counter
      ∷ def_of 3 MetricKind.counter
      ∷ def_of 4 MetricKind.counter
      ∷ def_of 5 MetricKind.histogram
      ∷ [];
  storage = [] ∷ [] ∷ [] ∷ [] ∷ [] ∷ [] ∷ [];
  next_cell = 0;
}

no_series :
    (m : ℕ) (series : List (MetricSeries (List ℕ)))
    → get_elem? six.storage m ≡ some series
    → [] ≡ series
no_series zero series e = cc
no_series (suc zero) series e = cc
no_series (suc (suc zero)) series e = cc
no_series (suc (suc (suc zero))) series e = cc
no_series (suc (suc (suc (suc zero)))) series e = cc
no_series (suc (suc (suc (suc (suc zero))))) series e = cc
no_series (suc (suc (suc (suc (suc (suc m)))))) series e = absurd cc

six-IsRegistry : IsRegistry six
six-IsRegistry = record {
  same_length = refl;
  typed = λ m d series hd hs. subst (OfKind d.kind) (no_series m series hs) tt;
}

abbrev ids : RequestMetricIds
ids = record {
  requests_total = 0;
  bytes_received_total = 1;
  bytes_sent_total = 2;
  errors_total = 3;
  errors_by_kind_total = 4;
  latency = 5;
}

abbrev failed_request : RequestSample
failed_request = record {
  scenario = "main";
  protocol = http;
  ok = false;
  latency = 1500;
  bytes_received = 10;
  bytes_sent = 20;
  error_kind = some "timeout";
}

no_sum :
    (fold_counter_sum 0 every six ≡ 0)
    × (fold_counter_sum 1 every six ≡ 0)
    × (fold_counter_sum 2 every six ≡ 0)
    × (fold_counter_sum 3 every six ≡ 0)
unfolding fold_counter_sum
no_sum = (refl, refl, refl, refl)

record_request-fold_counter_sum_example :
    let r' = record_request plain ids failed_request (("env", "test") ∷ []) six in
    (fold_counter_sum 0 every r' ≡ fold_counter_sum 0 every six + 1)
    × (fold_counter_sum 1 every r' ≡ fold_counter_sum 1 every six + 10)
    × (fold_counter_sum 2 every r' ≡ fold_counter_sum 2 every six + 20)
    × (fold_counter_sum 3 every r' ≡ fold_counter_sum 3 every six + 1)
record_request-fold_counter_sum_example =
    record_request-fold_counter_sum plain ids failed_request (("env", "test") ∷ []) six every
      six-IsRegistry
      (
        (ground arith),
        ((def_of 0 MetricKind.counter, refl, refl), omega (arith, no_sum.0)),
        ((def_of 1 MetricKind.counter, refl, refl), omega (arith, no_sum.1)),
        ((def_of 2 MetricKind.counter, refl, refl), omega (arith, no_sum.2)),
        ((def_of 3 MetricKind.counter, refl, refl), omega (arith, no_sum.3)),
      )

abbrev done_iteration : IterationSample
done_iteration = record { scenario = "main"; success = true; duration = 900 }
