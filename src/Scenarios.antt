-- ===== src/Scenarios.antt =====
-- wrkr-core/src/error.rs and `scenarios_from_options` of wrkr-core/src/run.rs: from the script's
-- options and the command line to the scenarios to run.
pub mod Valid
pub mod Overrides
pub mod Peak
mod Runs
use wrkr.Prelude.{
  ℕ, zero, ◌+◌, max, Bool, true, false, Option, none, some, List, [], ◌∷◌, ◌++◌, String, ◌||◌, ◌&&◌,
  ltb, ◌==◌, if◌then◌else◌, str_eq, length,
}
use wrkr.Prelude.Results.{ResultOf, ok, err, ◌>>=◌, ◌>>◌, refuse_if}
use wrkr.Config.{
  or, is_some, is_some_zero, MetricsContext, RunConfig, ScenarioExecutor, constant_vus, ramping_vus,
  ramping_arrival_rate, ScenarioExecutorKind, constant, ramping_users, ramping_rate, parse_kind,
  is_ramping, ScenarioConfig, ScenarioOptions, ScriptOptions,
}
use wrkr.Schedule.{Stage, add_duration, is_empty, or_else}

-- The errors of error.rs that `scenarios_from_options` returns.
pub data Error : Type 0 where
  invalid_vus invalid_iterations invalid_executor invalid_stages invalid_time_unit : Error
  invalid_pre_allocated_vus invalid_max_vus : Error

-- `Result<T>` of error.rs.
abbrev pub Result {ℓ} : Type ℓ → Type ℓ
Result A = ResultOf Error A

-- The fold of the stage durations, and the largest stage target.
pub sum_durations : ℕ → List Stage → ℕ
sum_durations acc [] = acc
sum_durations acc (st ∷ rest) = sum_durations (add_duration acc st.duration) rest

pub max_stage : List Stage → ℕ
max_stage [] = 0
max_stage (st ∷ rest) = max st.target (max_stage rest)

abbrev metrics_ctx_of : ScenarioOptions → MetricsContext
metrics_ctx_of s = record { scenario = s.name; scenario_tags = s.tags }

abbrev exec_of : ScenarioOptions → String
exec_of s = or_else "Default" s.exec

-- The constant scenario, which a ramping one becomes under a command-line override.
pub constant_scenario : ScriptOptions → RunConfig → ScenarioOptions → Result ScenarioConfig
constant_scenario opts cfg s = do
  let vus = or_else 1 (or (or cfg.vus s.vus) opts.vus)
  refuse_if (vus == 0) invalid_vus
  let iterations = or (or cfg.iterations s.iterations) opts.iterations
  refuse_if (is_some_zero iterations) invalid_iterations
  ok (record {
    exec = exec_of s;
    metrics_ctx = metrics_ctx_of s;
    executor = constant_vus vus;
    iterations = iterations;
    duration = or (or cfg.duration s.duration) opts.duration;
  })

pub ramping_vus_scenario : ScriptOptions → ScenarioOptions → Result ScenarioConfig
unfolding sum_durations max_stage
ramping_vus_scenario opts s = do
  refuse_if (is_some s.iterations || is_some opts.iterations) invalid_iterations
  refuse_if (is_empty s.stages) invalid_stages
  let start_vus = or_else 0 s.start_vus
  refuse_if (max (max_stage s.stages) start_vus == 0) invalid_vus
  let total_duration = sum_durations 0 s.stages
  refuse_if (total_duration == 0) invalid_stages
  ok (record {
    exec = exec_of s;
    metrics_ctx = metrics_ctx_of s;
    executor = ramping_vus start_vus s.stages;
    iterations = none;
    duration = some total_duration;
  })

pub arrival_rate_scenario : ScriptOptions → ScenarioOptions → Result ScenarioConfig
unfolding sum_durations
arrival_rate_scenario opts s = do
  refuse_if (is_some s.iterations || is_some opts.iterations) invalid_iterations
  refuse_if (is_empty s.stages) invalid_stages
  let start_rate = or_else 0 s.start_rate
  let time_unit = or_else 1000000000 s.time_unit
  refuse_if (time_unit == 0) invalid_time_unit
  let pre_allocated_vus = or_else 1 s.pre_allocated_vus
  refuse_if (pre_allocated_vus == 0) invalid_pre_allocated_vus
  let max_vus = or_else pre_allocated_vus s.max_vus
  refuse_if (ltb max_vus pre_allocated_vus) invalid_max_vus
  let total_duration = sum_durations 0 s.stages
  refuse_if (total_duration == 0) invalid_stages
  ok (record {
    exec = exec_of s;
    metrics_ctx = metrics_ctx_of s;
    executor = ramping_arrival_rate start_rate time_unit pre_allocated_vus max_vus s.stages;
    iterations = none;
    duration = some total_duration;
  })

abbrev cli_overrides_set : RunConfig → Bool
cli_overrides_set cfg = is_some cfg.vus || (is_some cfg.iterations || is_some cfg.duration)

abbrev by_kind :
    ScenarioExecutorKind → ScriptOptions → RunConfig → ScenarioOptions → Result ScenarioConfig
by_kind constant opts cfg s = constant_scenario opts cfg s
by_kind ramping_users opts cfg s = ramping_vus_scenario opts s
by_kind ramping_rate opts cfg s = arrival_rate_scenario opts s

abbrev kind_or_error : Option ScenarioExecutorKind → Result ScenarioExecutorKind
kind_or_error (some kind) = ok kind
kind_or_error none = err invalid_executor

-- The body of the loop over `opts.scenarios`.
pub scenario : ScriptOptions → RunConfig → ScenarioOptions → Result ScenarioConfig
scenario opts cfg s = do
  kind ← kind_or_error (parse_kind (or_else "constant-vus" s.executor))
  (if cli_overrides_set cfg && is_ramping kind
      then constant_scenario opts cfg s
      else by_kind kind opts cfg s)

pub scenarios_loop : ScriptOptions → RunConfig → List ScenarioOptions → Result (List ScenarioConfig)
scenarios_loop opts cfg [] = ok []
scenarios_loop opts cfg (s ∷ rest) = do
  c ← scenario opts cfg s
  cs ← scenarios_loop opts cfg rest
  ok (c ∷ cs)

-- The scenario of a script that lists none.
pub default_scenario : ScriptOptions → RunConfig → Result (List ScenarioConfig)
default_scenario opts cfg = do
  let vus = or_else 1 (or cfg.vus opts.vus)
  refuse_if (vus == 0) invalid_vus
  let iterations =
      or (or cfg.iterations opts.iterations)
        (if is_some (or cfg.duration opts.duration) then none else some 1)
  refuse_if (is_some_zero iterations) invalid_iterations
  ok (
      record {
        exec = "Default";
        metrics_ctx = record { scenario = "Default"; scenario_tags = [] };
        executor = constant_vus vus;
        iterations = iterations;
        duration = or cfg.duration opts.duration;
      }
      ∷ [])

pub scenarios_from_options : ScriptOptions → RunConfig → Result (List ScenarioConfig)
scenarios_from_options opts cfg =
    if is_empty opts.scenarios
    then default_scenario opts cfg
    else scenarios_loop opts cfg opts.scenarios

-- How many users `run_scenarios` starts for a scenario.
abbrev pub scenario_max_vus_of : ScenarioExecutor → ℕ
scenario_max_vus_of (constant_vus vus) = vus
scenario_max_vus_of (ramping_vus start_vus stages) = max (max_stage stages) start_vus
scenario_max_vus_of (ramping_arrival_rate _ _ _ max_vus _) = max_vus

abbrev pub scenario_max_vus : ScenarioConfig → ℕ
scenario_max_vus s = scenario_max_vus_of s.executor
