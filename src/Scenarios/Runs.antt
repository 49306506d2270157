-- ===== src/Scenarios/Runs.antt =====
-- Concrete options, and the theorems at concrete inputs.
use wrkr.Prelude.{ℕ, ◌≤◌, ◌≡◌, refl, none, some, List, [], ◌∷◌, arith, All}
use wrkr.Schedule.{Stage, target_at}
use wrkr.Schedule
use wrkr.Schedule.Linear.{linear}
use wrkr.Config.{
  ScenarioOptions, ScriptOptions, RunConfig, ScenarioConfig, constant_vus, ramping_vus,
  ramping_arrival_rate, parse_kind, is_ramping,
}
use wrkr.Scenarios.{
  invalid_max_vus, scenarios_from_options, scenarios_loop, scenario, constant_scenario,
  arrival_rate_scenario, sum_durations, scenario_max_vus_of,
}
use wrkr.Prelude.Results.{ok, err, refuse_if}
use wrkr.Scenarios.Valid.{IsRunnable, scenarios_from_options-IsRunnable}
use wrkr.Scenarios.Overrides.{Honours, scenarios_from_options-Honours}
use wrkr.Scenarios.Peak.{target_at-le-scenario_max_vus}

abbrev stages : List Stage
stages = record { duration = 10000000000; target = 10 } ∷ []

abbrev plain : ScenarioOptions
plain = record {
  name = "plain";
  exec = none;
  tags = [];
  executor = none;
  vus = some 3;
  iterations = some 5;
  duration = none;
  start_vus = none;
  stages = [];
  start_rate = none;
  time_unit = none;
  pre_allocated_vus = none;
  max_vus = none;
}

abbrev rate : ScenarioOptions
rate = record plain {
  name = "rate";
  executor = some "ramping-rps";
  iterations = none;
  stages = stages;
  pre_allocated_vus = some 2;
  max_vus = some 8;
}

abbrev script : ScriptOptions
script = record { vus = none; iterations = none; duration = none; scenarios = plain ∷ rate ∷ [] }

abbrev no_flags : RunConfig
no_flags = record { iterations = none; vus = none; duration = none }

abbrev two_users : RunConfig
two_users = record { iterations = none; vus = some 2; duration = none }

abbrev expected : List ScenarioConfig
expected =
    record {
      exec = "Default";
      metrics_ctx = record { scenario = "plain"; scenario_tags = [] };
      executor = constant_vus 3;
      iterations = some 5;
      duration = none;
    }
    ∷ record {
      exec = "Default";
      metrics_ctx = record { scenario = "rate"; scenario_tags = [] };
      executor = ramping_arrival_rate 0 1000000000 2 8 stages;
      iterations = none;
      duration = some 10000000000;
    }
    ∷ []

accepted : scenarios_from_options script no_flags ≡ ok expected
unfolding scenarios_from_options scenarios_loop scenario parse_kind is_ramping refuse_if
    constant_scenario arrival_rate_scenario sum_durations
accepted = refl

abbrev overridden : List ScenarioConfig
overridden =
    record {
      exec = "Default";
      metrics_ctx = record { scenario = "plain"; scenario_tags = [] };
      executor = constant_vus 2;
      iterations = some 5;
      duration = none;
    }
    ∷ record {
      exec = "Default";
      metrics_ctx = record { scenario = "rate"; scenario_tags = [] };
      executor = constant_vus 2;
      iterations = none;
      duration = none;
    }
    ∷ []

accepted_overridden : scenarios_from_options script two_users ≡ ok overridden
unfolding scenarios_from_options scenarios_loop scenario parse_kind is_ramping refuse_if
    constant_scenario
accepted_overridden = refl

refused :
    scenarios_from_options
      (record script { scenarios = record rate { max_vus = some 1 } ∷ [] })
      no_flags
    ≡ err invalid_max_vus
unfolding scenarios_from_options scenarios_loop scenario parse_kind is_ramping refuse_if
    arrival_rate_scenario sum_durations
refused = refl

scenarios_from_options-IsRunnable_example : All IsRunnable expected
scenarios_from_options-IsRunnable_example =
    scenarios_from_options-IsRunnable script no_flags expected accepted

scenarios_from_options-Honours_example : All (Honours two_users) overridden
scenarios_from_options-Honours_example =
    scenarios_from_options-Honours script two_users overridden accepted_overridden

target_at-le-scenario_max_vus_example :
    (v : ℕ) × (target_at linear (Schedule.new 4 stages) 5000000000 ≡ some v)
    × (v ≤ scenario_max_vus_of (ramping_vus 4 stages))
target_at-le-scenario_max_vus_example =
    target_at-le-scenario_max_vus linear 4 stages 5000000000 (omega arith) (omega arith)
