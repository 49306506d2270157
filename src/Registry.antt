-- ===== src/Registry.antt =====
-- wrkr-metrics/src/registry.rs and metrics.rs: the metrics, their series, and the handles that write
-- them.
-- A series' storage sits behind an `Arc`, which a handle shares. Here each `Arc` has a number, its
-- cell: a handle writes the series that still has its cell, and a storage that another has replaced
-- in the map is seen by nobody but its handles, so it is left out. The HDR histogram is the
-- parameter `Histograms`.
pub mod HdrHistogram
pub mod Series
pub mod Invariant
pub mod Handles
pub mod Recording
pub mod Defs
pub mod Names
pub mod Race
pub mod Preserved
pub mod Writes
pub mod Cells
pub mod Reached
pub mod Bounded
pub mod Working
pub mod Sorting
pub mod Summaries
pub mod Named
pub mod Entries
pub mod Reported
pub mod Rates
pub mod Gauges
pub mod Runs
pub mod CounterRuns
mod ReachedRuns
use wrkr.Prelude.{
  ℕ, zero, suc, ◌+◌, ◌%◌, ◌^◌, Bool, true, false, ◌&&◌, Option, none, some, List, [], ◌∷◌, ◌++◌,
  String, length, get_elem?, ◌==◌, if◌then◌else◌, wrapping_add, saturating_add, ltb,
}
use wrkr.Prelude.Int.{ℤ, pos, negsuc, ◌+ℤ◌, ◌-ℤ◌}
use wrkr.Metrics.{Interner, get_or_intern, TagSet, tags_eq}
use HdrHistogram.{Histograms}

pub data MetricKind : Type 0 where
  counter gauge rate histogram : MetricKind

pub data MetricStorage (Hist : Type 0) : Type 0 where
  counter : ℕ → MetricStorage Hist
  gauge : ℤ → MetricStorage Hist
  rate : (total hits : ℕ) → MetricStorage Hist
  histogram : Hist → MetricStorage Hist

pub record MetricDef : Type 0 where
  pub name : ℕ
  pub kind : MetricKind

pub record MetricSeries (Hist : Type 0) : Type 0 where
  pub tags : TagSet
  pub cell : ℕ
  pub storage : MetricStorage Hist

-- The series of a metric stand at its id. `next_cell` numbers the `Arc`s.
pub record Registry (Hist : Type 0) : Type 0 where
  pub interner : Interner
  pub defs : List MetricDef
  pub storage : List (List (MetricSeries Hist))
  pub next_cell : ℕ

-- A `MetricHandle`: what it shares, and its variant.
pub record MetricHandle : Type 0 where
  pub metric : ℕ
  pub tags : TagSet
  pub cell : ℕ
  pub kind : MetricKind

-- The same place one further on.
abbrev pub shift : Option (ℕ × MetricKind) → Option (ℕ × MetricKind)
shift none = none
shift (some (idx, kind)) = some (suc idx, kind)

-- `defs.iter().enumerate().find(|(_, d)| d.name == name_id)`
pub find_def : ℕ → List MetricDef → Option (ℕ × MetricKind)
find_def name [] = none
find_def name (d ∷ defs) = if d.name == name then some (0, d.kind) else shift (find_def name defs)

abbrev pub set_at : {A : Type 0} → ℕ → A → List A → List A
set_at i a [] = []
set_at zero a (x ∷ xs) = a ∷ xs
set_at (suc i) a (x ∷ xs) = x ∷ set_at i a xs

module _ {Hist : Type 0} where
  unfoldable pub lookup_metric : String → Registry Hist → Registry Hist × Option (ℕ × MetricKind)
  unfolding find_def
  lookup_metric name r =
      let (interner, name_id) = get_or_intern name r.interner in
      (record r { interner = interner }, find_def name_id r.defs)

  pub register : String → MetricKind → Registry Hist → Registry Hist × ℕ
  unfolding find_def
  register name kind r =
      let (interner, name_id) = get_or_intern name r.interner in
      elim (find_def name_id r.defs) [
        | some (idx, old) ↦ (record r { interner = interner }, idx % 2 ^ 32)
        | none ↦ (
          record r {
            interner = interner;
            defs = r.defs ++ (record { name = name_id; kind = kind } ∷ []);
            storage = r.storage ++ ([] ∷ []);
          },
          length r.defs % 2 ^ 32,
        )
      ]

  pub find_series : TagSet → List (MetricSeries Hist) → Option (MetricSeries Hist)
  find_series tags [] = none
  find_series tags (s ∷ series) = if tags_eq s.tags tags then some s else find_series tags series

  -- `series_map.insert`, which replaces the storage of tags that are there.
  pub insert_series : MetricSeries Hist → List (MetricSeries Hist) → List (MetricSeries Hist)
  insert_series s [] = s ∷ []
  insert_series s (t ∷ series) =
      let rest = insert_series s series in if tags_eq t.tags s.tags then s ∷ series else t ∷ rest

  -- A write through a handle.
  pub write_series :
      TagSet
      → ℕ
      → (MetricStorage Hist → MetricStorage Hist)
      → List (MetricSeries Hist)
      → List (MetricSeries Hist)
  write_series tags cell f [] = []
  write_series tags cell f (s ∷ series) =
      let rest = write_series tags cell f series in
      if tags_eq s.tags tags && s.cell == cell
      then record s { storage = f s.storage } ∷ series
      else s ∷ rest

  unfoldable pub kind_of : MetricStorage Hist → MetricKind
  kind_of (counter n) = MetricKind.counter
  kind_of (gauge z) = MetricKind.gauge
  kind_of (rate total hits) = MetricKind.rate
  kind_of (histogram h) = MetricKind.histogram

  pub storage_to_handle : ℕ → MetricSeries Hist → MetricHandle
  unfolding kind_of
  storage_to_handle metric s = record {
    metric = metric;
    tags = s.tags;
    cell = s.cell;
    kind = kind_of s.storage;
  }

  -- The first half of `get_handle`: the lookup in the map of the metric, if it has one.
  unfoldable pub find_handle : ℕ → TagSet → Registry Hist → Option (Option MetricHandle)
  unfolding find_series storage_to_handle
  find_handle metric tags r = elim (get_elem? r.storage metric) [
    | none ↦ none
    | some series ↦ elim (find_series tags series) [
      | some s ↦ some (some (storage_to_handle metric s))
      | none ↦ some none
    ]
  ]

  -- The writes of a handle, each an atomic operation on the storage of its variant.
  unfoldable pub write :
      (MetricStorage Hist → MetricStorage Hist) → MetricHandle → Registry Hist → Registry Hist
  unfolding write_series
  write f h r = elim (get_elem? r.storage h.metric) [
    | none ↦ r
    | some series ↦ record r {
      storage = set_at h.metric (write_series h.tags h.cell f series) r.storage;
    }
  ]

  pub add_counter : ℕ → MetricStorage Hist → MetricStorage Hist
  add_counter v (counter n) = counter (wrapping_add n v)
  add_counter v s = s

  unfoldable pub increment : ℕ → MetricHandle → Registry Hist → Registry Hist
  unfolding add_counter write
  increment v h r = elim h.kind [ MetricKind.counter ↦ write (add_counter v) h r | _ ↦ r ]

  unfoldable pub visit_series : ℕ → Registry Hist → List (MetricSeries Hist)
  visit_series metric r = elim (get_elem? r.storage metric) [ none ↦ [] | some series ↦ series ]

  -- The closure of `fold_counter_sum`, on one series.
  unfoldable pub add_series : (TagSet → Bool) → ℕ → MetricSeries Hist → ℕ
  add_series predicate total s =
      if predicate s.tags
      then (elim s.storage [ counter c ↦ saturating_add total c | _ ↦ total ])
      else total

  unfoldable pub sum_counters : (TagSet → Bool) → ℕ → List (MetricSeries Hist) → ℕ
  unfolding add_series
  sum_counters predicate total [] = total
  sum_counters predicate total (s ∷ series) =
      sum_counters predicate (add_series predicate total s) series

  unfoldable pub fold_counter_sum : ℕ → (TagSet → Bool) → Registry Hist → ℕ
  unfolding sum_counters visit_series
  fold_counter_sum metric predicate r = sum_counters predicate 0 (visit_series metric r)

module _ (lib : Histograms) where
  pub new_storage : MetricKind → MetricStorage lib.Hist
  new_storage MetricKind.counter = counter 0
  new_storage MetricKind.gauge = gauge (pos 0)
  new_storage MetricKind.rate = rate 0 0
  new_storage MetricKind.histogram = histogram lib.empty

  -- The second half of `get_handle`, when the lookup found nothing.
  pub create_handle : ℕ → TagSet → Registry lib.Hist → Option (Registry lib.Hist × MetricHandle)
  unfolding new_storage insert_series storage_to_handle
  create_handle metric tags r = elim (get_elem? r.defs metric) [
    | none ↦ none
    | some d ↦ elim (get_elem? r.storage metric) [
      | none ↦ none
      | some series ↦
          let s : MetricSeries lib.Hist = record {
            tags = tags;
            cell = r.next_cell;
            storage = new_storage d.kind;
          } in
          some (
            record r {
              storage = set_at metric (insert_series s series) r.storage;
              next_cell = r.next_cell + 1;
            },
            storage_to_handle metric s,
          )
    ]
  ]

  -- `get_handle` when no other thread comes between its halves.
  unfoldable pub get_handle :
      ℕ → TagSet → Registry lib.Hist → Option (Registry lib.Hist × MetricHandle)
  unfolding find_handle create_handle
  get_handle metric tags r = elim (find_handle metric tags r) [
    | none ↦ none
    | some (some h) ↦ some (r, h)
    | some none ↦ create_handle metric tags r
  ]

  -- `if let Some(MetricHandle::Counter(c)) = metrics.get_handle(metric, tags) { c.fetch_add(v) }`
  unfoldable pub add_to_counter : ℕ → TagSet → ℕ → Registry lib.Hist → Registry lib.Hist
  unfolding get_handle increment
  add_to_counter metric tags v r = elim (get_handle metric tags r) [
    | none ↦ r
    | some (r', h) ↦ increment v h r'
  ]

  -- What two threads do that both found no series for the tags: each makes one, and each adds to the
  -- counter behind its own handle.
  pub both_record : ℕ → TagSet → ℕ → ℕ → Registry lib.Hist → Option (Registry lib.Hist)
  unfolding create_handle increment
  both_record metric tags v w r = elim (create_handle metric tags r) [
    | none ↦ none
    | some (r₁, first) ↦ elim (create_handle metric tags r₁) [
      | none ↦ none
      | some (r₂, second) ↦ some (increment w second (increment v first r₂))
    ]
  ]
