-- ===== src/Registry/ReachedRuns.antt =====
-- A gauge that is registered, gets a series and is written, and what is reported of it.
use wrkr.Prelude.{ℕ, zero, suc, false, ◌<◌, ◌≡◌, refl, none, some, List, [], ◌∷◌, length, arith}
use wrkr.Prelude.Int.{pos, ◌+ℤ◌, ◌-ℤ◌}
use wrkr.Registry.Gauges.{up, down, perform_all, load-perform_all}
use wrkr.Prelude.Dict.{lookup, insert}
use wrkr.Metrics.{get_or_intern, tags_eq, resolve}
use wrkr.Thresholds.Folds.{Doubles}
use wrkr.Registry.{
  MetricKind, gauge, MetricHandle, Registry, lookup_metric, register, find_def, get_handle,
  create_handle, write,
}
use wrkr.Registry.Runs.{kept}
use wrkr.Registry.Writes.{
  increment_gauge, stored, perform, on_gauge, wrapping_add_i64, load, find_cell,
}
use wrkr.Registry.Reached.{empty, Reach, registers, creates, performs, begin}
use wrkr.Registry.Working.{Works, get_handle-Works}
use wrkr.Registry.Sorting.{with_name, AreAscending, sort_by, insert_by}
use wrkr.Registry.Summaries.{
  MetricSeriesSummary, MetricValue, summarize, collect, metric_summaries, series_summary,
  resolved_name, tag_names, reported_value,
}
use wrkr.Registry.Entries.{reported}
use wrkr.Registry.Reported.{visits, summarize-reported}
use wrkr.Registry.Rates.{SharedRate}
use wrkr.Registry.Rates

abbrev numbers : Doubles kept
numbers = record {
  ratio = λ a b. a;
  less = λ a b. false;
  less_or_equal = λ a b. false;
  equal = λ a b. false;
  parse = λ s. none;
}

abbrev one_gauge : Registry (List ℕ)
one_gauge = record {
  interner = record { ids = insert "vus" 0 []; names = "vus" ∷ [] };
  defs = record { name = 0; kind = MetricKind.gauge } ∷ [];
  storage = [] ∷ [];
  next_cell = 0;
}

register_gauge : (register "vus" MetricKind.gauge (empty kept)).0 ≡ one_gauge
unfolding register get_or_intern lookup find_def
register_gauge = refl

one_gauge-Reach : Reach kept one_gauge
one_gauge-Reach =
    let made : Reach kept (register "vus" MetricKind.gauge (empty kept)).0 =
      registers "vus" MetricKind.gauge begin in
    rw register_gauge at made

lookup_gauge : (lookup_metric "vus" one_gauge).1 ≡ some (0, MetricKind.gauge)
unfolding lookup_metric get_or_intern lookup insert
lookup_gauge = refl

get_handle-Works_example :
    (q : Registry (List ℕ) × MetricHandle) × (get_handle kept 0 [] one_gauge ≡ some q)
    × Works kept MetricKind.gauge q
get_handle-Works_example =
    get_handle-Works kept "vus" [] 0 MetricKind.gauge one_gauge one_gauge-Reach lookup_gauge

-- Its series with no tags, made and then written.
abbrev gauge_made : Registry (List ℕ) × MetricHandle
gauge_made = (
  record one_gauge {
    storage = (record { tags = []; cell = 0; storage = gauge (pos 0) } ∷ []) ∷ [];
    next_cell = 1;
  },
  record { metric = 0; tags = []; cell = 0; kind = MetricKind.gauge },
)

gauge_is_made : create_handle kept 0 [] one_gauge ≡ some gauge_made
unfolding create_handle
gauge_is_made = refl

abbrev written : Registry (List ℕ)
written = record one_gauge {
  storage = (record { tags = []; cell = 0; storage = gauge (pos 3) } ∷ []) ∷ [];
  next_cell = 1;
}

gauge_is_written : perform kept (increment_gauge (pos 3)) gauge_made.1 gauge_made.0 ≡ written
unfolding perform write stored on_gauge wrapping_add_i64 tags_eq
gauge_is_written = refl

written-Reach : Reach kept written
written-Reach =
    let made : Reach kept gauge_made.0 = creates 0 [] gauge_made gauge_is_made one_gauge-Reach in
    let after : Reach kept (perform kept (increment_gauge (pos 3)) gauge_made.1 gauge_made.0) =
      performs (increment_gauge (pos 3)) gauge_made.1 made in
    rw gauge_is_written at after

gauge_value : load gauge_made.1 written ≡ some (gauge (pos 3))
unfolding load find_cell tags_eq
gauge_value = refl

every_metric : (m : ℕ) → m < length written.storage → visits m (0 ∷ []) ≡ 1
every_metric zero h = ground arith
every_metric (suc m) h = absurd (omega (arith, h))

summarize-reported_example :
    AreAscending (λ (s : MetricSeriesSummary ℕ). s.name) (summarize kept numbers (0 ∷ []) written)
    × (with_name
          (λ (s : MetricSeriesSummary ℕ). s.name)
          "vus"
          (summarize kept numbers (0 ∷ []) written)
        ≡ reported kept numbers "vus" written (lookup_metric "vus" written).1)
summarize-reported_example =
    summarize-reported kept numbers "vus" (0 ∷ []) written written-Reach (omega arith) every_metric

gauge_reported :
    summarize kept numbers (0 ∷ []) written
    ≡ record {
      name = "vus";
      kind = MetricKind.gauge;
      tags = [];
      values = MetricValue.gauge (pos 3);
    }
      ∷ []
unfolding summarize collect metric_summaries series_summary resolved_name resolve tag_names
    reported_value sort_by insert_by
gauge_reported = refl

abbrev one_hit : SharedRate
one_hit = record { total = 1; hits = 1; owed = [] }

-- Through the largest i64 and back.
load-perform_all_example :
    load gauge_made.1 (
      perform_all kept
        (up (pos 9223372036854775807) ∷ down (pos 9223372036854775808) ∷ [])
        gauge_made.1
        written)
    ≡ some (gauge (pos 2))
unfolding ◌+ℤ◌ ◌-ℤ◌
load-perform_all_example =
    load-perform_all kept (up (pos 9223372036854775807) ∷ down (pos 9223372036854775808) ∷ [])
      (pos 3) gauge_made.1 written refl gauge_value (omega arith) (omega arith)
