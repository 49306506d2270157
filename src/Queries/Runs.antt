-- ===== src/Queries/Runs.antt =====
-- Queries on concrete series: two scenarios, two protocols.
use wrkr.Prelude.{ℕ, zero, suc, ◌≡◌, refl, min, List, [], ◌∷◌, length, arith, u64_max}
use wrkr.Metrics.{new, tags_eq, get, partition_point, project, get_or_intern}
use wrkr.Registry.HdrHistogram.{Histograms}
use wrkr.Registry.{MetricKind, counter, MetricSeries, Registry, visit_series, fold_counter_sum}
use wrkr.Registry.Runs.{kept}
use wrkr.Registry.CounterRuns.{raised, raised-Reach}
use wrkr.Queries.Reached.{compute_scenario_summary-fold_counter_sum}
use wrkr.Thresholds.Folds.{fold_histogram_summary}
use wrkr.Queries.{
  Query, eq, missing, query, where_filter, all_match, filter_matches, is_value, add_group,
  add_stored, sum_one, sum_series, sum_counter, group_key,
}
use wrkr.Registry.Series.{AreU64}
use wrkr.Queries.Groups.{
  in_group, group_total, plain_total, group_total-sum_counter, plain_total-sum_counter,
}
use wrkr.Queries.Summary.{MetricComputer, compute_scenario_summary}

abbrev sums : Histograms
sums = record {
  Hist = List ℕ;
  Float = ℕ;
  empty = [];
  record_value = λ v h. v ∷ h;
  add = λ g h. h;
  len = length;
  value_at_percentile = λ p h. 0;
  min_value = λ h. 0;
  max_value = λ h. 0;
  mean = λ h. 0;
  stdev = λ h. 0;
  float_of = λ n. n;
}

-- The key 1 is the scenario, the key 2 the protocol; the counters are 10, 3 and 5.
abbrev requests : List (MetricSeries (List ℕ))
requests =
    record { tags = (1, 7) ∷ (2, 8) ∷ []; cell = 0; storage = counter 10 }
    ∷ record { tags = (1, 7) ∷ (2, 9) ∷ []; cell = 1; storage = counter 3 }
    ∷ record { tags = (1, 6) ∷ (2, 8) ∷ []; cell = 2; storage = counter 5 }
    ∷ []

abbrev one_metric : Registry (List ℕ)
one_metric = record {
  interner = new;
  defs = record { name = 0; kind = MetricKind.counter } ∷ [];
  storage = requests ∷ [];
  next_cell = 3;
}

abbrev scenario_7 : Query
scenario_7 = where_filter (eq 1 7) (query 0)

abbrev by_protocol : Query
by_protocol = record { metric = 0; filters = eq 1 7 ∷ []; group_keys = 2 ∷ [] }

requests-AreU64 : (metric : ℕ) → AreU64 (visit_series metric one_metric)
unfolding visit_series
requests-AreU64 zero = (omega arith, (omega arith, (omega arith, tt)))
requests-AreU64 (suc metric) = tt

grouped_by_protocol :
    sum_counter by_protocol one_metric ≡ (((2, 8) ∷ []), 10) ∷ (((2, 9) ∷ []), 3) ∷ []
unfolding sum_counter sum_series sum_one add_stored add_group all_match filter_matches is_value get
    partition_point group_key project visit_series tags_eq
grouped_by_protocol = refl

group_total-sum_counter_example :
    group_total ((2, 9) ∷ []) (sum_counter by_protocol one_metric)
    ≡ fold_counter_sum 0 (in_group by_protocol ((2, 9) ∷ [])) one_metric
group_total-sum_counter_example =
    group_total-sum_counter by_protocol ((2, 9) ∷ []) one_metric (requests-AreU64 0)

plain_total-sum_counter_example :
    min (plain_total (sum_counter by_protocol one_metric)) u64_max
    ≡ fold_counter_sum 0 (all_match (eq 1 7 ∷ [])) one_metric
plain_total-sum_counter_example = plain_total-sum_counter by_protocol one_metric

abbrev computer : MetricComputer
computer = record {
  request_ids = record {
    requests_total = 0;
    bytes_received_total = 1;
    bytes_sent_total = 2;
    errors_total = 3;
    errors_by_kind_total = 4;
    latency = 5;
  };
  iteration_ids = record { iterations_total = 6; iteration_duration = 7 };
  checks_metric = 8;
  keys = record { scenario = 1; protocol = 2; status = 3; name = 4; fail = 5 };
}

compute_scenario_summary-fold_counter_sum_example :
    let s = (compute_scenario_summary kept computer "main" raised).1 in
    let value = (get_or_intern "main" raised.interner).1 in
    let of_scenario = all_match (eq 1 value ∷ []) in
    ((compute_scenario_summary kept computer "main" raised).0.storage ≡ raised.storage)
    × (s.requests_total ≡ fold_counter_sum 0 of_scenario raised)
    × (s.failed_requests_total ≡ fold_counter_sum 3 of_scenario raised)
    × (s.bytes_received_total ≡ fold_counter_sum 1 of_scenario raised)
    × (s.bytes_sent_total ≡ fold_counter_sum 2 of_scenario raised)
    × (s.iterations_total ≡ fold_counter_sum 6 of_scenario raised)
    × (s.checks_failed_total ≡ fold_counter_sum 8 (all_match (eq 1 value ∷ eq 3 5 ∷ [])) raised)
    × (s.latency ≡ fold_histogram_summary kept 5 (all_match (eq 1 value ∷ missing 2 ∷ [])) raised)
compute_scenario_summary-fold_counter_sum_example =
    compute_scenario_summary-fold_counter_sum kept computer "main" raised raised-Reach
