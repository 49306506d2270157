-- ===== src/Queries/Reached.antt =====
-- The summary of a scenario in every registry that the program can come to.
use wrkr.Prelude.{◌≡◌, refl, [], ◌∷◌, String}
use wrkr.Metrics.{get_or_intern}
use wrkr.Registry.HdrHistogram.{Histograms}
use wrkr.Registry.{Registry, visit_series, fold_counter_sum}
use wrkr.Registry.Reached.{Reach}
use wrkr.Thresholds.Folds.{fold_histogram_summary}
use wrkr.Queries.{eq, missing, all_match}
use wrkr.Queries.Summary.{MetricComputer, compute_scenario_summary, summary_of-fold_counter_sum}
use wrkr.Registry.Bounded.{visit_series-AreU64, Reach-HasU64}

module _ (lib : Histograms) where
  -- In every registry that the operations of any threads lead to, the summary of a scenario is made
  -- of what the folds give for the series of the scenario: the saturating sums of requests, of failed
  -- requests, of bytes and of iterations, of the checks with the status `fail`, and the merged
  -- latencies without a protocol. Making it changes no series.
  pub compute_scenario_summary-fold_counter_sum :
      (c : MetricComputer) (scenario : String) (r : Registry lib.Hist)
      → Reach lib r
      → let (r', s) = compute_scenario_summary lib c scenario r in
        let value = (get_or_intern scenario r.interner).1 in
        let of_scenario = all_match (eq c.keys.scenario value ∷ []) in
        (r'.storage ≡ r.storage)
        × (s.requests_total ≡ fold_counter_sum c.request_ids.requests_total of_scenario r)
        × (s.failed_requests_total ≡ fold_counter_sum c.request_ids.errors_total of_scenario r)
        × (s.bytes_received_total
            ≡ fold_counter_sum c.request_ids.bytes_received_total of_scenario r)
        × (s.bytes_sent_total ≡ fold_counter_sum c.request_ids.bytes_sent_total of_scenario r)
        × (s.iterations_total ≡ fold_counter_sum c.iteration_ids.iterations_total of_scenario r)
        × (s.checks_failed_total
            ≡ fold_counter_sum c.checks_metric
                (all_match (eq c.keys.scenario value ∷ eq c.keys.status c.keys.fail ∷ []))
                r)
        × (s.latency
            ≡ fold_histogram_summary lib c.request_ids.latency
                (all_match (eq c.keys.scenario value ∷ missing c.keys.protocol ∷ []))
                r)
  unfolding compute_scenario_summary fold_counter_sum fold_histogram_summary visit_series
  compute_scenario_summary-fold_counter_sum c scenario r reach =
      let (i, value) = get_or_intern scenario r.interner in
      let r' : Registry lib.Hist = record r { interner = i } in
      let sums =
        summary_of-fold_counter_sum lib c scenario value r'
          (λ metric. visit_series-AreU64 metric r' (Reach-HasU64 lib r reach)) in
      (refl, sums.0, sums.1, sums.2, sums.3, sums.4, sums.5, sums.6)
