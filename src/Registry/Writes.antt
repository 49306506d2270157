-- ===== src/Registry/Writes.antt =====
-- wrkr-metrics/src/metrics.rs: every method of `MetricHandle`.
-- A handle whose storage another one has replaced in the map reads none here.
use wrkr.Prelude.{
  ℕ, ◌+◌, ◌-◌, ◌%◌, ◌^◌, Bool, ◌&&◌, Option, none, some, List, [], ◌∷◌, get_elem?, ◌==◌,
  if◌then◌else◌, wrapping_add,
}
use wrkr.Prelude.Int.{ℤ, pos}
use wrkr.Wire.{as_u64, as_i64}
use wrkr.Metrics.{TagSet, tags_eq}
use wrkr.Registry.HdrHistogram.{Histograms}
use wrkr.Registry.{
  MetricKind, MetricStorage, counter, gauge, rate, histogram, MetricSeries, MetricHandle, Registry,
  write, add_counter,
}

-- What `AtomicI64::fetch_add` and `fetch_sub` store.
unfoldable pub wrapping_add_i64 : ℤ → ℤ → ℤ
wrapping_add_i64 a b = as_i64 (wrapping_add (as_u64 a) (as_u64 b))

unfoldable pub wrapping_sub_i64 : ℤ → ℤ → ℤ
wrapping_sub_i64 a b = as_i64 ((as_u64 a + 2 ^ 64 - as_u64 b) % 2 ^ 64)

-- The writes of a handle, by the methods' names.
pub data Write : Type 0 where
  increment : ℕ → Write
  set_gauge : ℤ → Write
  increment_gauge : ℤ → Write
  decrement_gauge : ℤ → Write
  add_rate : (hits total : ℕ) → Write
  observe_histogram : ℕ → Write

-- The variant of a handle that a write is for.
abbrev pub target : Write → MetricKind
target (increment v) = MetricKind.counter
target (set_gauge v) = MetricKind.gauge
target (increment_gauge v) = MetricKind.gauge
target (decrement_gauge v) = MetricKind.gauge
target (add_rate hits total) = MetricKind.rate
target (observe_histogram v) = MetricKind.histogram

abbrev pub kind_eq : MetricKind → MetricKind → Bool
kind_eq MetricKind.counter MetricKind.counter = Bool.true
kind_eq MetricKind.gauge MetricKind.gauge = Bool.true
kind_eq MetricKind.rate MetricKind.rate = Bool.true
kind_eq MetricKind.histogram MetricKind.histogram = Bool.true
kind_eq _ _ = Bool.false

module _ {Hist : Type 0} where
  unfoldable pub on_gauge : (ℤ → ℤ) → MetricStorage Hist → MetricStorage Hist
  on_gauge f (gauge z) = gauge (f z)
  on_gauge f (counter n) = counter n
  on_gauge f (rate t h) = rate t h
  on_gauge f (histogram h) = histogram h

  unfoldable pub add_to_rate : ℕ → ℕ → MetricStorage Hist → MetricStorage Hist
  add_to_rate hits total (rate t h) = rate (wrapping_add t total) (wrapping_add h hits)
  add_to_rate hits total (counter n) = counter n
  add_to_rate hits total (gauge z) = gauge z
  add_to_rate hits total (histogram h) = histogram h

  -- The storage behind the `Arc` of a handle.
  unfoldable pub find_cell : TagSet → ℕ → List (MetricSeries Hist) → Option (MetricStorage Hist)
  find_cell tags cell [] = none
  find_cell tags cell (s ∷ series) =
      let rest = find_cell tags cell series in
      if tags_eq s.tags tags && s.cell == cell then some s.storage else rest

  unfoldable pub load : MetricHandle → Registry Hist → Option (MetricStorage Hist)
  load h r = elim (get_elem? r.storage h.metric) [
    | none ↦ none
    | some series ↦ find_cell h.tags h.cell series
  ]

  -- What `get_counter`, `get_gauge` and `get_rate` return for a storage; 0 for another variant.
  unfoldable pub get_counter : MetricStorage Hist → ℕ
  get_counter (counter n) = n
  get_counter _ = 0

  unfoldable pub get_gauge : MetricStorage Hist → ℤ
  get_gauge (gauge z) = z
  get_gauge _ = pos 0

  unfoldable pub get_rate : MetricStorage Hist → ℕ × ℕ
  get_rate (rate total hits) = (total, hits)
  get_rate _ = (0, 0)

module _ (lib : Histograms) where
  unfoldable pub on_histogram : ℕ → MetricStorage lib.Hist → MetricStorage lib.Hist
  on_histogram v (histogram h) = histogram (lib.record_value v h)
  on_histogram v (counter n) = counter n
  on_histogram v (gauge z) = gauge z
  on_histogram v (rate t h) = rate t h

  -- What a write stores.
  unfoldable pub stored : Write → MetricStorage lib.Hist → MetricStorage lib.Hist
  stored (increment v) = add_counter v
  stored (set_gauge v) = on_gauge (λ (z : ℤ). v)
  stored (increment_gauge v) = on_gauge (λ (z : ℤ). wrapping_add_i64 z v)
  stored (decrement_gauge v) = on_gauge (λ (z : ℤ). wrapping_sub_i64 z v)
  stored (add_rate hits total) = add_to_rate hits total
  stored (observe_histogram v) = on_histogram v

  -- A method of a handle: `if let` on the variant, then the write.
  unfoldable pub perform : Write → MetricHandle → Registry lib.Hist → Registry lib.Hist
  perform w h r = if kind_eq h.kind (target w) then write (stored w) h r else r
