-- ===== src/Queries/Summary.antt =====
-- The summary of a scenario, wrkr-core/src/metrics_agg.rs: which sums it is made of.
use wrkr.Prelude.{
  ℕ, ◌+◌, ◌≤◌, ◌≡◌, refl, ◌∙◌, min, Option, none, some, [], ◌∷◌, String, arith, u64_max,
  saturating_add, ◌>>=◌,
}
use wrkr.Prelude.Dict.{Dict, lookup, insert}
use wrkr.Metrics.{Interner, get_or_intern, resolve, get}
use wrkr.Registry.{Registry, visit_series, fold_counter_sum}
use wrkr.Registry.HdrHistogram.{Histograms}
use wrkr.Thresholds.Folds.{HistogramSummary, fold_histogram_summary}
use wrkr.Queries.{
  eq, missing, Query, query, where_filter, group_by, all_match, Groups, sum_counter,
  sum_counter_total, merge_histogram_summary_single,
}
use wrkr.Registry.Series.{AreU64}
use wrkr.Queries.Groups.{plain_total, plain_total-sum_counter}
use wrkr.Queries.Single.{sum_counter_total-fold_counter_sum, merge_histogram_summary_single-fold}

pub record TagKeys : Type 0 where
  pub scenario : ℕ
  pub protocol : ℕ
  pub status : ℕ
  pub name : ℕ
  pub fail : ℕ

-- `TagKeys::new`
unfoldable pub new_keys : Interner → Interner × TagKeys
new_keys i =
    let (i₁, scenario) = get_or_intern "scenario" i in
    let (i₂, protocol) = get_or_intern "protocol" i₁ in
    let (i₃, status) = get_or_intern "status" i₂ in
    let (i₄, name) = get_or_intern "name" i₃ in
    let (i₅, fail) = get_or_intern "fail" i₄ in
    (
      i₅,
      record {
        scenario = scenario;
        protocol = protocol;
        status = status;
        name = name;
        fail = fail;
      },
    )

-- `by_name.entry(name).and_modify(…).or_insert(v)`, for a name that may be missing.
unfoldable pub add_named : Option String → ℕ → Dict ℕ → Dict ℕ
add_named none v by_name = by_name
add_named (some name) v by_name = elim (lookup name by_name) [
  | none ↦ insert name v by_name
  | some cur ↦ insert name (saturating_add cur v) by_name
]

-- The loop over the groups.
unfoldable pub failed_loop : Interner → ℕ → Groups ℕ → ℕ × Dict ℕ → ℕ × Dict ℕ
failed_loop i key [] (total, by_name) = (total, by_name)
failed_loop i key ((tags, v) ∷ grouped) (total, by_name) =
    failed_loop i key grouped
      (saturating_add total v, add_named (get key tags >>= λ id. resolve id i) v by_name)

abbrev pub checks_query : ℕ → TagKeys → ℕ → Query
checks_query metric keys value =
    where_filter (eq keys.status keys.fail) (where_filter (eq keys.scenario value) (query metric))

abbrev pub scenario_query : ℕ → TagKeys → ℕ → Query
scenario_query metric keys value = where_filter (eq keys.scenario value) (query metric)

abbrev pub latency_query : ℕ → TagKeys → ℕ → Query
latency_query metric keys value =
    where_filter (missing keys.protocol) (scenario_query metric keys value)

pub record RequestMetricIds : Type 0 where
  pub requests_total : ℕ
  pub bytes_received_total : ℕ
  pub bytes_sent_total : ℕ
  pub errors_total : ℕ
  pub errors_by_kind_total : ℕ
  pub latency : ℕ

pub record IterationMetricIds : Type 0 where
  pub iterations_total : ℕ
  pub iteration_duration : ℕ

pub record MetricComputer : Type 0 where
  pub request_ids : RequestMetricIds
  pub iteration_ids : IterationMetricIds
  pub checks_metric : ℕ
  pub keys : TagKeys

pub record ScenarioSummary (Float : Type 0) : Type 0 where
  pub scenario : String
  pub requests_total : ℕ
  pub failed_requests_total : ℕ
  pub bytes_received_total : ℕ
  pub bytes_sent_total : ℕ
  pub iterations_total : ℕ
  pub checks_failed_total : ℕ
  pub checks_failed : Dict ℕ
  pub latency : Option (HistogramSummary Float)

module _ {Hist : Type 0} where
  unfoldable pub compute_checks_failed : ℕ → TagKeys → ℕ → Registry Hist → ℕ × Dict ℕ
  compute_checks_failed metric keys value r =
      failed_loop r.interner keys.name
        (sum_counter (group_by (keys.name ∷ []) (checks_query metric keys value)) r) (0, [])

module _ (lib : Histograms) where
  -- What is asked of the registry once the name of the scenario is resolved.
  unfoldable pub summary_of :
      MetricComputer → String → ℕ → Registry lib.Hist → ScenarioSummary lib.Float
  summary_of c scenario value r =
      let total = λ (metric : ℕ). sum_counter_total (scenario_query metric c.keys value) r in
      let failed = compute_checks_failed c.checks_metric c.keys value r in
      record {
        scenario = scenario;
        requests_total = total c.request_ids.requests_total;
        failed_requests_total = total c.request_ids.errors_total;
        bytes_received_total = total c.request_ids.bytes_received_total;
        bytes_sent_total = total c.request_ids.bytes_sent_total;
        iterations_total = total c.iteration_ids.iterations_total;
        checks_failed_total = failed.0;
        checks_failed = failed.1;
        latency =
            merge_histogram_summary_single lib (latency_query c.request_ids.latency c.keys value) r;
      }

  unfoldable pub compute_scenario_summary :
      MetricComputer → String → Registry lib.Hist → Registry lib.Hist × ScenarioSummary lib.Float
  compute_scenario_summary c scenario r =
      let (interner, value) = get_or_intern scenario r.interner in
      let r' = record r { interner = interner } in (r', summary_of c scenario value r')

failed_loop-total :
    (i : Interner) (key : ℕ) (grouped : Groups ℕ) (total : ℕ) (by_name : Dict ℕ)
    → total ≤ u64_max
    → (failed_loop i key grouped (total, by_name)).0 ≡ min (total + plain_total grouped) u64_max
unfolding failed_loop plain_total
failed_loop-total i key [] total by_name below = omega arith
failed_loop-total i key ((tags, v) ∷ grouped) total by_name below =
    failed_loop-total i key grouped (saturating_add total v) _ (omega arith) ∙ omega arith

module _ {Hist : Type 0} where
  compute_checks_failed-total :
      (metric value : ℕ) (keys : TagKeys) (r : Registry Hist)
      → (compute_checks_failed metric keys value r).0
        ≡ fold_counter_sum metric
            (all_match (eq keys.scenario value ∷ eq keys.status keys.fail ∷ []))
            r
  unfolding compute_checks_failed group_by
  compute_checks_failed-total metric value keys r =
      let q = group_by (keys.name ∷ []) (checks_query metric keys value) in
      omega (
        arith,
        failed_loop-total r.interner keys.name (sum_counter q r) 0 [] (omega arith),
        plain_total-sum_counter q r,
      )

module _ (lib : Histograms) where
  -- For a registry whose counters are u64, the summary of a scenario is made of what the folds give
  -- for the series of the scenario: the sums of requests, of failed requests, of bytes and of
  -- iterations, of the checks with the status `fail`, and the merged latencies without a protocol.
  pub summary_of-fold_counter_sum :
      (c : MetricComputer) (scenario : String) (value : ℕ) (r : Registry lib.Hist)
      → ((metric : ℕ) → AreU64 (visit_series metric r))
      → let s = summary_of lib c scenario value r in
        let of_scenario = all_match (eq c.keys.scenario value ∷ []) in
        (s.requests_total ≡ fold_counter_sum c.request_ids.requests_total of_scenario r)
        × (s.failed_requests_total ≡ fold_counter_sum c.request_ids.errors_total of_scenario r)
        × (s.bytes_received_total
            ≡ fold_counter_sum c.request_ids.bytes_received_total of_scenario r)
        × (s.bytes_sent_total ≡ fold_counter_sum c.request_ids.bytes_sent_total of_scenario r)
        × (s.iterations_total ≡ fold_counter_sum c.iteration_ids.iterations_total of_scenario r)
        × (s.checks_failed_total
            ≡ fold_counter_sum c.checks_metric
                (all_match (eq c.keys.scenario value ∷ eq c.keys.status c.keys.fail ∷ []))
                r)
        × (s.latency
            ≡ fold_histogram_summary lib c.request_ids.latency
                (all_match (eq c.keys.scenario value ∷ missing c.keys.protocol ∷ []))
                r)
  unfolding summary_of
  summary_of-fold_counter_sum c scenario value r fits =
      let total = λ (metric : ℕ).
        sum_counter_total-fold_counter_sum (scenario_query metric c.keys value) r refl
          (fits metric) in
      (
        total c.request_ids.requests_total,
        total c.request_ids.errors_total,
        total c.request_ids.bytes_received_total,
        total c.request_ids.bytes_sent_total,
        total c.iteration_ids.iterations_total,
        compute_checks_failed-total c.checks_metric value c.keys r,
        merge_histogram_summary_single-fold lib (latency_query c.request_ids.latency c.keys value) r
            refl,
      )
