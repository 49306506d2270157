-- ===== src/Config.antt =====
-- wrkr-core/src/config.rs and the record of metrics_context.rs: what the script and the command line
-- ask for, and the scenarios that run.
use wrkr.Prelude.{
  ℕ, Bool, true, false, Option, none, some, List, String, ◌||◌, if◌then◌else◌, str_eq, ◌==◌,
}
use wrkr.Schedule.{Stage}

-- `Option::or`, `unwrap_or` and `is_some`
abbrev pub or {ℓ} : {A : Type ℓ} → Option A → Option A → Option A
or (some a) b = some a
or none b = b

abbrev pub is_some {ℓ} : {A : Type ℓ} → Option A → Bool
is_some (some a) = true
is_some none = false

abbrev pub is_some_zero : Option ℕ → Bool
is_some_zero (some n) = n == 0
is_some_zero none = false

pub record MetricsContext : Type 0 where
  pub scenario : String
  pub scenario_tags : List (String × String)

pub record RunConfig : Type 0 where
  pub iterations : Option ℕ
  pub vus : Option ℕ
  pub duration : Option ℕ

pub data ScenarioExecutor : Type 0 where
  constant_vus : (vus : ℕ) → ScenarioExecutor
  ramping_vus : (start_vus : ℕ) (stages : List Stage) → ScenarioExecutor
  ramping_arrival_rate :
      (start_rate time_unit pre_allocated_vus max_vus : ℕ) (stages : List Stage) → ScenarioExecutor

pub data ScenarioExecutorKind : Type 0 where
  constant ramping_users ramping_rate : ScenarioExecutorKind

-- The names that the `strum` attributes give to the kinds.
unfoldable pub parse_kind : String → Option ScenarioExecutorKind
parse_kind name =
    if str_eq name "constant-vus" || (str_eq name "constant" || str_eq name "per-vu-iterations")
    then some constant
    else if str_eq name "ramping-vus"
    then some ramping_users
    else if str_eq name "ramping-arrival-rate" || str_eq name "ramping-rps"
    then some ramping_rate
    else none

unfoldable pub is_ramping : ScenarioExecutorKind → Bool
is_ramping constant = false
is_ramping ramping_users = true
is_ramping ramping_rate = true

pub record ScenarioConfig : Type 0 where
  pub exec : String
  pub metrics_ctx : MetricsContext
  pub executor : ScenarioExecutor
  pub iterations : Option ℕ
  pub duration : Option ℕ

pub record ScenarioOptions : Type 0 where
  pub name : String
  pub exec : Option String
  pub tags : List (String × String)
  pub executor : Option String
  pub vus : Option ℕ
  pub iterations : Option ℕ
  pub duration : Option ℕ
  pub start_vus : Option ℕ
  pub stages : List Stage
  pub start_rate : Option ℕ
  pub time_unit : Option ℕ
  pub pre_allocated_vus : Option ℕ
  pub max_vus : Option ℕ

-- The thresholds of the script are not read here.
pub record ScriptOptions : Type 0 where
  pub vus : Option ℕ
  pub iterations : Option ℕ
  pub duration : Option ℕ
  pub scenarios : List ScenarioOptions
