-- ===== src/Lib.antt =====
-- A verification library for wrkr, a load generator that runs Lua scripts as virtual users.
--
-- The program's parts and the files that model them (paths from the repository's root):
--
-- * Run configuration (wrkr-core/src/config.rs, metrics_context.rs, error.rs, and
--   `scenarios_from_options` of run.rs): Config.antt has the types, Scenarios.antt the way from the
--   script's options and the command line to the scenarios to run, with every refusal;
--   Scenarios/Valid, Overrides and Peak hold what is known of the accepted ones.
-- * Ramping schedule (wrkr-core/src/schedule.rs): Schedule.antt. `new`, `target_at`,
--   `stage_snapshot_at` and `next_recheck_in`, each under its name. Durations are nanoseconds. The
--   i128 arithmetic keeps its saturation and its rounding towards zero (Prelude/Int). The binary
--   search of the standard library is a parameter with its documented contract (Schedule/Search).
-- * Arrival pacer (wrkr-core/src/pacer.rs): Pacer.antt has each operation as one function;
--   Pacer/System splits `update_due` and `claim_next` at their atomic loads and stores, for any
--   interleaving of the pacing task and the users. tokio's `Notify` is modelled by what its
--   documentation says: `notify_waiters` wakes those that wait and stores nothing.
-- * Iteration gate (wrkr-core/src/gate.rs): Gate.antt. The time of a call is an argument.
-- * Shared store (wrkr-shared/src/store.rs): Store.antt, over the values of wrkr-value/src/lib.rs
--   (Value.antt). Each operation is a step of some user, and `run` is any interleaving. The watch
--   channel is the parameter `Watch`.
-- * Metric names, tags and selectors (wrkr-metrics/src/key.rs, tags.rs, `resolve_tags` of
--   registry.rs, and `TagSelector` of wrkr-core/src/thresholds_eval.rs): Metrics.antt.
-- * Tag merging (the methods of wrkr-core/src/metrics_context.rs): Tagging.antt.
-- * Protobuf wire format (wrkr-grpc/src/wire/primitives.rs, and the tag of a field in decode.rs):
--   Wire.antt. A reader returns what it read and the rest of the buffer.
-- * gRPC messages (wrkr-grpc/src/wire.rs, the rest of wire/, and the message types of proto.rs):
--   Messages/Kinds (the schema), Coerce, Scalar, Packed, Entries (map.rs), Encode and Decode, each
--   function under its name. The other files of Messages are proofs: Fitting says which objects a
--   message type has, ScalarTrip to RoundTrip follow an object out and back, Readers to Termination
--   follow the loops to their ends. Floating point is the parameter `Floats` on bit patterns.
-- * gRPC schema (wrkr-grpc/src/proto.rs, `ProtoSchema::method`): Schema.antt builds the message
--   types, with the cache and the set of messages in progress as a state that is passed on;
--   Schema/Method is the lookup around it, and Schema/Pool the parameter, a pool of descriptors.
--   Schema/Tree is the description that the tables are compared with.
-- * Metrics registry (wrkr-metrics/src/registry.rs and metrics.rs): Registry.antt. Each `Arc` that a
--   handle shares has a number. `get_handle` is split at the point where another thread may come
--   between its halves. Registry/Writes has the methods of `MetricHandle`, Registry/Summaries has
--   `summarize` over the sort of Registry/Sorting, Registry/Rates splits `add_rate` at its two
--   additions, and Registry/Reached says to which registries the operations of any threads lead. The
--   HDR histogram is the parameter `Histograms`.
-- * Request and iteration metrics (wrkr-core/src/request_metrics.rs, iteration_metrics.rs):
--   Requests.antt, each recording as a sequence of steps on the registry.
-- * Metric queries and summaries (wrkr-metrics/src/agg.rs, and `compute_checks_failed` and
--   `compute_scenario_summary` of wrkr-core/src/metrics_agg.rs): Queries.antt and Queries/Summary.
-- * Thresholds (wrkr-core/src/thresholds.rs and thresholds_eval.rs): Thresholds.antt evaluates, Parse
--   has `parse_threshold_expr`, Key has `parse_threshold_metric_key` and the `render_metric_key` of
--   wrkr/src/scenario_yaml.rs, Folds the sums over rates and histograms in registry.rs. The
--   floating-point comparisons are the parameter `Doubles`.
-- * Virtual users (wrkr-core/src/vu.rs): Vus.antt has the start signal and the gauges of the active
--   users, split at their atomic operations and at the lookups and insertions of `get_handle`.
--   Vus/Counted is the plain counting that the gauges are compared with, Vus/Highest is about the
--   counting alone, and Vus/Holding, Followed and Peak relate the two. The metrics are registered as gauges.
--
-- How they interact: `scenarios_from_options` decides the scenarios; `run_scenarios` builds a gate
-- for a constant one, a schedule for one that ramps its users, and a schedule and a pacer for one
-- that ramps the arrival rate. Users ask the schedule, the gate or the pacer whether to run, and
-- share the store and the metrics. Scenarios/Peak relates the configuration to the schedule.
--
-- Bounds and fuel: a u64 or an i64 is a number with its wrap-around or saturation written out where
-- the code has one; where a theorem needs the range, a hypothesis states it. `write_variant` has fuel
-- for ten bytes, which is enough since 128 ^ 10 exceeds 2 ^ 64, and a printed u64 for twenty digits.
-- The loops of the message decoder have as much fuel as the buffer has bytes, and so has the nesting
-- of messages; Messages/Termination shows that it is enough. The building of message types has one
-- unit of fuel more than the pool has messages (Schema/Ends). The encoder has the depth of the
-- message type, which is finite since the schema refuses recursive types. All other loops recurse on
-- their list.
--
-- Not modelled: the threads, timers and sockets of `run_scenarios`, the HTTP and gRPC clients, the
-- running of protoc, the Lua interpreter and its modules, the command line and its output, the test
-- server and the tools, which are I/O or glue around libraries; the running statistics and the rates
-- per second of the progress lines, which are floating-point arithmetic.
--
-- Each component has a module Runs with runs on concrete inputs. Prelude holds the names, lists,
-- integers and dictionaries that the components share.
pub mod Prelude
pub mod Schedule
pub mod Pacer
pub mod Gate
pub mod Scenarios
pub mod Schema
pub mod Value
pub mod Store
pub mod Wire
pub mod Metrics
pub mod Config
pub mod Tagging
pub mod Messages
pub mod Registry
pub mod Queries
pub mod Requests
pub mod Vus
pub mod Thresholds
