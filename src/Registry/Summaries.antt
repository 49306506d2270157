-- ===== src/Registry/Summaries.antt =====
-- `Registry::summarize` of wrkr-metrics/src/registry.rs.
-- The order in which the map yields the metrics is an argument; the order in which the map of a
-- metric yields its series is that of the list. No other thread comes in between.
use wrkr.Prelude.{
  ℕ, none, some, List, [], ◌∷◌, ◌++◌, map, String, ltb, get_elem?, if◌then◌else◌, Option,
}
use wrkr.Prelude.Int.{ℤ}
use wrkr.Metrics.{Interner, resolve, TagSet}
use wrkr.Thresholds.Folds.{Doubles, HistogramSummary, summarize_histogram}
use wrkr.Registry.HdrHistogram.{Histograms}
use wrkr.Registry.{MetricKind, MetricStorage, MetricSeries, MetricDef, Registry}
use wrkr.Registry.Sorting.{sort_by}

pub data MetricValue (Float : Type 0) : Type 0 where
  counter : ℕ → MetricValue Float
  gauge : ℤ → MetricValue Float
  rate : (total hits : ℕ) → Option Float → MetricValue Float
  histogram : HistogramSummary Float → MetricValue Float

pub record MetricSeriesSummary (Float : Type 0) : Type 0 where
  pub name : String
  pub kind : MetricKind
  pub tags : List (String × String)
  pub values : MetricValue Float

-- `resolve(id).map(|s| s.to_string()).unwrap_or_default()`
unfoldable pub resolved_name : Interner → ℕ → String
resolved_name i id = elim (resolve id i) [ none ↦ "" | some s ↦ s ]

unfoldable pub tag_names : Interner → TagSet → List (String × String)
tag_names i [] = []
tag_names i ((k, v) ∷ tags) = (resolved_name i k, resolved_name i v) ∷ tag_names i tags

module _ (lib : Histograms) (nums : Doubles lib) where
  unfoldable pub reported_value : MetricStorage lib.Hist → MetricValue lib.Float
  reported_value (MetricStorage.counter n) = MetricValue.counter n
  reported_value (MetricStorage.gauge z) = MetricValue.gauge z
  reported_value (MetricStorage.rate total hits) =
      MetricValue.rate total hits (if ltb 0 total then some (nums.ratio hits total) else none)
  reported_value (MetricStorage.histogram h) = MetricValue.histogram (summarize_histogram lib h)

  -- A turn of the inner loop.
  unfoldable pub series_summary :
      Interner → MetricDef → MetricSeries lib.Hist → MetricSeriesSummary lib.Float
  series_summary i d s = record {
    name = resolved_name i d.name;
    kind = d.kind;
    tags = tag_names i s.tags;
    values = reported_value s.storage;
  }

  -- A turn of the outer loop, which skips a metric with no definition.
  unfoldable pub metric_summaries : ℕ → Registry lib.Hist → List (MetricSeriesSummary lib.Float)
  metric_summaries m r = elim (get_elem? r.storage m) [
    | none ↦ []
    | some series ↦ elim (get_elem? r.defs m) [
      | none ↦ []
      | some d ↦ map (series_summary r.interner d) series
    ]
  ]

  unfoldable pub collect : List ℕ → Registry lib.Hist → List (MetricSeriesSummary lib.Float)
  collect [] r = []
  collect (m ∷ order) r = metric_summaries m r ++ collect order r

  unfoldable pub summarize : List ℕ → Registry lib.Hist → List (MetricSeriesSummary lib.Float)
  summarize order r = sort_by (λ (s : MetricSeriesSummary lib.Float). s.name) (collect order r)
