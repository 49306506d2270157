-- ===== src/Requests.antt =====
-- wrkr-core/src/request_metrics.rs and iteration_metrics.rs: what a request and an iteration write to
-- the registry. No other thread comes between the steps.
pub mod Passing
pub mod Steps
pub mod Counts
mod Runs
use wrkr.Prelude.{
  ℕ, Bool, true, false, min, max, Option, none, some, List, [], ◌∷◌, ◌++◌, String, if◌then◌else◌,
  u64_max, get_elem?,
}
use wrkr.Metrics.{Interner, TagSet, resolve_tags}
use wrkr.Registry.{
  MetricKind, MetricStorage, counter, gauge, rate, histogram, MetricHandle, Registry, register,
  write, get_handle, add_to_counter,
}
use wrkr.Registry.HdrHistogram.{Histograms}
use wrkr.Tagging.{TagList, contains}
use wrkr.Queries.Summary.{RequestMetricIds, IterationMetricIds}

pub data Protocol : Type 0 where
  http grpc : Protocol

abbrev pub as_str : Protocol → String
as_str http = "http"
as_str grpc = "grpc"

-- Durations are in microseconds.
pub record RequestSample : Type 0 where
  pub scenario : String
  pub protocol : Protocol
  pub ok : Bool
  pub latency : ℕ
  pub bytes_received : ℕ
  pub bytes_sent : ℕ
  pub error_kind : Option String

pub record IterationSample : Type 0 where
  pub scenario : String
  pub success : Bool
  pub duration : ℕ

-- `extra_tags.iter().copied().filter(filter_extra)`
unfoldable pub filter_extra : List String → TagList → TagList
filter_extra reserved [] = []
filter_extra reserved ((k, v) ∷ extra) =
    let rest = filter_extra reserved extra in if contains k reserved then rest else (k, v) ∷ rest

-- The closure `resolve`.
unfoldable pub resolve_base : List String → TagList → TagList → Interner → Interner × TagSet
resolve_base reserved base [] i = resolve_tags base i
resolve_base reserved base (t ∷ extra) i =
    resolve_tags (base ++ filter_extra reserved (t ∷ extra)) i

abbrev pub request_reserved : List String
request_reserved = "scenario" ∷ "protocol" ∷ "error_kind" ∷ []

abbrev pub iteration_reserved : List String
iteration_reserved = "scenario" ∷ "status" ∷ []

-- `try_into().unwrap_or(u64::MAX)`, then `max(1)`.
abbrev pub clamp_micros : ℕ → ℕ
clamp_micros n = max (min n u64_max) 1

-- The tags of a request's counters.
unfoldable pub protocol_tags : RequestSample → TagList → Interner → Interner × TagSet
protocol_tags sample extra i =
    resolve_base request_reserved
      (("scenario", sample.scenario) ∷ ("protocol", as_str sample.protocol) ∷ []) extra i

-- The tags of an iteration.
unfoldable pub iteration_tags : IterationSample → TagList → Interner → Interner × TagSet
iteration_tags sample extra i =
    let status = if sample.success then "success" else "failure" in
    resolve_base iteration_reserved (("scenario", sample.scenario) ∷ ("status", status) ∷ []) extra
      i

module _ {Hist : Type 0} where
  abbrev pub with_interner : Registry Hist → Interner → Registry Hist
  with_interner r i = record r { interner = i }

  -- `RequestMetricIds::register`
  unfoldable pub register_requests : Registry Hist → Registry Hist × RequestMetricIds
  register_requests r =
      let (r₁, requests) = register "requests_total" MetricKind.counter r in
      let (r₂, received) = register "bytes_received_total" MetricKind.counter r₁ in
      let (r₃, sent) = register "bytes_sent_total" MetricKind.counter r₂ in
      let (r₄, errors) = register "request_errors_total" MetricKind.counter r₃ in
      let (r₅, by_kind) = register "request_errors_by_kind_total" MetricKind.counter r₄ in
      let (r₆, latency) = register "request_latency" MetricKind.histogram r₅ in
      (
        r₆,
        record {
          requests_total = requests;
          bytes_received_total = received;
          bytes_sent_total = sent;
          errors_total = errors;
          errors_by_kind_total = by_kind;
          latency = latency;
        },
      )

  -- `IterationMetricIds::register`
  unfoldable pub register_iterations : Registry Hist → Registry Hist × IterationMetricIds
  register_iterations r =
      let (r₁, iterations) = register "iterations_total" MetricKind.counter r in
      let (r₂, duration) = register "iteration_duration" MetricKind.histogram r₁ in
      (r₂, record { iterations_total = iterations; iteration_duration = duration })

module _ (lib : Histograms) where
  unfoldable pub record_stored : ℕ → MetricStorage lib.Hist → MetricStorage lib.Hist
  record_stored v (histogram h) = histogram (lib.record_value v h)
  record_stored v (counter n) = counter n
  record_stored v (gauge z) = gauge z
  record_stored v (rate t h) = rate t h

  unfoldable pub record_handle : ℕ → MetricHandle → Registry lib.Hist → Registry lib.Hist
  record_handle v h r = elim h.kind [ MetricKind.histogram ↦ write (record_stored v) h r | _ ↦ r ]

  -- `if let Some(MetricHandle::Histogram(h)) = metrics.get_handle(metric, tags) { h.record(v) }`
  unfoldable pub add_to_histogram : ℕ → TagSet → ℕ → Registry lib.Hist → Registry lib.Hist
  add_to_histogram metric tags v r = elim (get_handle lib metric tags r) [
    | none ↦ r
    | some (r', h) ↦ record_handle v h r'
  ]

  unfoldable pub record_error_kind :
      RequestMetricIds
      → RequestSample
      → TagList
      → Option String
      → Registry lib.Hist
      → Registry lib.Hist
  record_error_kind ids sample extra none r = r
  record_error_kind ids sample extra (some kind) r =
      let (i, tags) =
        resolve_base request_reserved
          (("scenario", sample.scenario)
            ∷ ("protocol", as_str sample.protocol)
            ∷ ("error_kind", kind)
            ∷ [])
          extra r.interner in
      add_to_counter lib ids.errors_by_kind_total tags 1 (with_interner r i)

  -- The counters of a failed request.
  unfoldable pub record_failure :
      RequestMetricIds
      → RequestSample
      → TagList
      → TagSet
      → Bool
      → Registry lib.Hist
      → Registry lib.Hist
  record_failure ids sample extra tags true r = r
  record_failure ids sample extra tags false r =
      record_error_kind ids sample extra sample.error_kind
        (add_to_counter lib ids.errors_total tags 1 r)

  unfoldable pub record_latency :
      RequestMetricIds → RequestSample → TagList → TagSet → Registry lib.Hist → Registry lib.Hist
  record_latency ids sample extra tags_protocol r =
      let (i, overall_tags) =
        resolve_base request_reserved (("scenario", sample.scenario) ∷ []) extra r.interner in
      add_to_histogram ids.latency tags_protocol (clamp_micros sample.latency) (
        add_to_histogram ids.latency overall_tags (clamp_micros sample.latency) (with_interner r i))

  unfoldable pub record_request :
      RequestMetricIds → RequestSample → TagList → Registry lib.Hist → Registry lib.Hist
  record_request ids sample extra r =
      let (i, tags) = protocol_tags sample extra r.interner in
      let r₁ = add_to_counter lib ids.requests_total tags 1 (with_interner r i) in
      let r₂ = add_to_counter lib ids.bytes_received_total tags sample.bytes_received r₁ in
      let r₃ = add_to_counter lib ids.bytes_sent_total tags sample.bytes_sent r₂ in
      record_latency ids sample extra tags (record_failure ids sample extra tags sample.ok r₃)

  unfoldable pub record_iteration :
      IterationMetricIds → IterationSample → TagList → Registry lib.Hist → Registry lib.Hist
  record_iteration ids sample extra r =
      let (i, tags) = iteration_tags sample extra r.interner in
      add_to_histogram ids.iteration_duration tags (clamp_micros sample.duration)
        (add_to_counter lib ids.iterations_total tags 1 (with_interner r i))
