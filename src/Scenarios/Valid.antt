-- ===== src/Scenarios/Valid.antt =====
-- Every scenario that is accepted can be run: the parts of the engine that it configures are
-- within the ranges that they rely on.
use wrkr.Prelude.{
  ℕ, ◌≤◌, ◌<◌, ◌≡◌, ◌≢◌, refl, max, Bool, true, false, Option, none, some, List, [], ◌∷◌, arith,
  All, last?, Bool-cases, inl, inr, ap, sym, subst, if◌then◌else◌, ◌&&◌,
}
use wrkr.Schedule.{Stage, push_ends, total_duration, add_duration, is_empty, or_else, duration_max}
use wrkr.Schedule
use wrkr.Prelude.Results.{ok, ok_inj, refuse-eq-ok, step-eq-ok}
use wrkr.Config.{
  ScenarioOptions, ScriptOptions, RunConfig, ScenarioConfig, ScenarioExecutor, constant_vus,
  ramping_vus, ramping_arrival_rate, ScenarioExecutorKind, constant, ramping_users, ramping_rate,
  is_ramping, is_some_zero, parse_kind,
}
use wrkr.Scenarios.{
  Result, sum_durations, max_stage, constant_scenario, ramping_vus_scenario, arrival_rate_scenario,
  by_kind, kind_or_error, scenario, scenarios_loop, default_scenario, scenarios_from_options,
  cli_overrides_set,
}

-- The fold of the durations is the end of the schedule that `new` builds.
sum_durations-last :
    (acc : ℕ) (s : Stage) (rest : List Stage)
    → last? (push_ends acc (s ∷ rest)) ≡ some (sum_durations acc (s ∷ rest))
unfolding sum_durations push_ends
sum_durations-last acc s [] = refl
sum_durations-last acc s (t ∷ rest) = sum_durations-last (add_duration acc s.duration) t rest

total_duration-new :
    (start : ℕ) (stages : List Stage)
    → is_empty stages ≡ false
    → total_duration (Schedule.new start stages) ≡ sum_durations 0 stages
total_duration-new start [] h = cc
total_duration-new start (s ∷ rest) h = rw (sum_durations-last 0 s rest)

-- What a scenario of each executor promises to the engine.
abbrev pub Runnable : ScenarioExecutor → Option ℕ → Option ℕ → Type 0
Runnable (constant_vus vus) iterations duration = (1 ≤ vus) × (iterations ≢ some 0)
Runnable (ramping_vus start_vus stages) iterations duration =
    (1 ≤ max (max_stage stages) start_vus)
    × (iterations ≡ none)
    × (duration ≡ some (total_duration (Schedule.new start_vus stages)))
    × (0 < total_duration (Schedule.new start_vus stages))
Runnable (ramping_arrival_rate start_rate time_unit pre max_vus stages) iterations duration =
    (0 < time_unit)
    × (1 ≤ pre)
    × (pre ≤ max_vus)
    × (iterations ≡ none)
    × (duration ≡ some (total_duration (Schedule.new start_rate stages)))
    × (0 < total_duration (Schedule.new start_rate stages))

abbrev pub IsRunnable : ScenarioConfig → Type 0
IsRunnable c = Runnable c.executor c.iterations c.duration

not_some_zero : (o : Option ℕ) → is_some_zero o ≡ false → o ≢ some 0
not_some_zero o h e = ground arith

module _ (opts : ScriptOptions) where
  constant_scenario-IsRunnable :
      (cfg : RunConfig) (s : ScenarioOptions) (c : ScenarioConfig)
      → constant_scenario opts cfg s ≡ ok c
      → IsRunnable c
  unfolding constant_scenario
  constant_scenario-IsRunnable cfg s c e =
      let (p, e1) = refuse-eq-ok _ _ _ e in
      let (q, e2) = refuse-eq-ok _ _ _ e1 in
      subst IsRunnable (ok_inj e2) (ground arith, not_some_zero _ q)

  ramping_vus_scenario-IsRunnable :
      (s : ScenarioOptions) (c : ScenarioConfig) → ramping_vus_scenario opts s ≡ ok c → IsRunnable c
  unfolding ramping_vus_scenario
  ramping_vus_scenario-IsRunnable s c e =
      let (p1, e1) = refuse-eq-ok _ _ _ e in
      let (p2, e2) = refuse-eq-ok _ _ _ e1 in
      let (p3, e3) = refuse-eq-ok _ _ _ e2 in
      let (p4, e4) = refuse-eq-ok _ _ _ e3 in
      let total = total_duration-new (or_else 0 s.start_vus) s.stages p2 in
      subst IsRunnable (ok_inj e4)
        (ground arith, refl, ap some (sym total), rw total (ground arith))

  arrival_rate_scenario-IsRunnable :
      (s : ScenarioOptions) (c : ScenarioConfig)
      → arrival_rate_scenario opts s ≡ ok c
      → IsRunnable c
  unfolding arrival_rate_scenario
  arrival_rate_scenario-IsRunnable s c e =
      let (p1, e1) = refuse-eq-ok _ _ _ e in
      let (p2, e2) = refuse-eq-ok _ _ _ e1 in
      let (p3, e3) = refuse-eq-ok _ _ _ e2 in
      let (p4, e4) = refuse-eq-ok _ _ _ e3 in
      let (p5, e5) = refuse-eq-ok _ _ _ e4 in
      let (p6, e6) = refuse-eq-ok _ _ _ e5 in
      let total = total_duration-new (or_else 0 s.start_rate) s.stages p2 in
      subst IsRunnable (ok_inj e6) (
        ground arith,
        ground arith,
        ground arith,
        refl,
        ap some (sym total),
        rw total (ground arith),
      )

module _ (opts : ScriptOptions) (cfg : RunConfig) where
  -- What each kind, taken with no override, promises of its scenario holds of every scenario.
  pub scenario_cases :
      (P : ScenarioConfig → Type 0) (s : ScenarioOptions) (c : ScenarioConfig)
      → (constant_scenario opts cfg s ≡ ok c → P c)
      → (cli_overrides_set cfg ≡ false → ramping_vus_scenario opts s ≡ ok c → P c)
      → (cli_overrides_set cfg ≡ false → arrival_rate_scenario opts s ≡ ok c → P c)
      → scenario opts cfg s ≡ ok c
      → P c
  unfolding scenario is_ramping
  scenario_cases P s c on_constant on_users on_rate e =
      let (kind, parsed, body) =
        step-eq-ok (kind_or_error (parse_kind (or_else "constant-vus" s.executor)))
          (λ k. chosen (cli_overrides_set cfg) k) e in
      go (cli_overrides_set cfg) refl kind body
    where
      chosen : Bool → ScenarioExecutorKind → Result ScenarioConfig
      chosen b kind =
          if b && is_ramping kind then constant_scenario opts cfg s else by_kind kind opts cfg s

      go :
          (b : Bool)
          → cli_overrides_set cfg ≡ b
          → (kind : ScenarioExecutorKind) → chosen b kind ≡ ok c
          → P c
      go true q constant h = on_constant h
      go true q ramping_users h = on_constant h
      go true q ramping_rate h = on_constant h
      go false q constant h = on_constant h
      go false q ramping_users h = on_users q h
      go false q ramping_rate h = on_rate q h

  pub scenarios_loop-All :
      (P : ScenarioConfig → Type 0)
      → ((s : ScenarioOptions) (c : ScenarioConfig) → scenario opts cfg s ≡ ok c → P c)
      → (ss : List ScenarioOptions) (out : List ScenarioConfig)
      → scenarios_loop opts cfg ss ≡ ok out
      → All P out
  unfolding scenarios_loop
  scenarios_loop-All P each [] out e = subst (All P) (ok_inj e) tt
  scenarios_loop-All P each (s ∷ rest) out e =
      let (c, one, e1) = step-eq-ok (scenario opts cfg s) _ e in
      let (cs, others, e2) = step-eq-ok (scenarios_loop opts cfg rest) _ e1 in
      subst (All P) (ok_inj e2) (each s c one, scenarios_loop-All P each rest cs others)

  default_scenario-IsRunnable :
      (out : List ScenarioConfig) → default_scenario opts cfg ≡ ok out → All IsRunnable out
  unfolding default_scenario
  default_scenario-IsRunnable out e =
      let (p, e1) = refuse-eq-ok _ _ _ e in
      let (q, e2) = refuse-eq-ok _ _ _ e1 in
      subst (All IsRunnable) (ok_inj e2) ((ground arith, not_some_zero _ q), tt)

  -- Every scenario that `scenarios_from_options` accepts can be run. A constant one has at least one
  -- user and not zero iterations. A ramping one has no number of iterations, and for its duration
  -- the total duration of the schedule that `new` builds of it, which is positive. One that ramps
  -- users has a positive peak; one that ramps the arrival rate has a positive time unit and
  -- 1 ≤ pre_allocated_vus ≤ max_vus.
  pub scenarios_from_options-IsRunnable :
      (out : List ScenarioConfig) → scenarios_from_options opts cfg ≡ ok out → All IsRunnable out
  unfolding scenarios_from_options
  scenarios_from_options-IsRunnable out e = elim (Bool-cases (is_empty opts.scenarios)) [
    | inl p ↦ default_scenario-IsRunnable out (rw p at e)
    | inr p ↦
        scenarios_loop-All IsRunnable
          (λ s c.
            scenario_cases IsRunnable s c (constant_scenario-IsRunnable opts cfg s c)
              (λ q. ramping_vus_scenario-IsRunnable opts s c)
              (λ q. arrival_rate_scenario-IsRunnable opts s c))
          opts.scenarios out (rw p at e)
  ]
