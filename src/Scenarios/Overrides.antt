-- ===== src/Scenarios/Overrides.antt =====
-- The command line wins over the script, and the scenarios keep their order and names.
use wrkr.Prelude.{
  ℕ, ◌≡◌, refl, false, Option, none, some, List, [], ◌∷◌, All, map, Bool-cases, inl, inr, subst, ap,
  sym, ◌||◌,
}
use wrkr.Schedule.{is_empty, or_else}
use wrkr.Config.{
  ScenarioOptions, ScriptOptions, RunConfig, ScenarioConfig, ScenarioExecutor, constant_vus,
  is_some, or,
}
use wrkr.Scenarios.{
  constant_scenario, ramping_vus_scenario, arrival_rate_scenario, scenario, scenarios_loop,
  default_scenario, scenarios_from_options,
}
use wrkr.Prelude.Results.{ok, ok_inj, refuse-eq-ok, step-eq-ok}
use wrkr.Scenarios.Valid.{scenario_cases, scenarios_loop-All}

-- A number of users, of iterations or a duration that the command line sets is the scenario's.
abbrev pub HonoursVus : Option ℕ → ScenarioExecutor → Type 0
HonoursVus (some vus) executor = executor ≡ constant_vus vus
HonoursVus none executor = Unit {0}

abbrev pub HonoursBound : Option ℕ → Option ℕ → Type 0
HonoursBound (some bound) actual = actual ≡ some bound
HonoursBound none actual = Unit {0}

abbrev pub Honours : RunConfig → ScenarioConfig → Type 0
Honours cfg c =
    HonoursVus cfg.vus c.executor
    × HonoursBound cfg.iterations c.iterations
    × HonoursBound cfg.duration c.duration

-- With nothing set there is nothing to honour.
unset-Honours :
    (vus iterations duration : Option ℕ) (c : ScenarioConfig)
    → (is_some vus || (is_some iterations || is_some duration)) ≡ false
    → HonoursVus vus c.executor
      × HonoursBound iterations c.iterations
      × HonoursBound duration c.duration
unset-Honours none none none c e = (tt, tt, tt)
unset-Honours (some v) i d c e = cc
unset-Honours none (some i) d c e = cc
unset-Honours none none (some d) c e = cc

or_honoured : (o a b : Option ℕ) → HonoursBound o (or (or o a) b)
or_honoured none a b = tt
or_honoured (some n) a b = refl

or_honoured₂ : (o a : Option ℕ) → HonoursBound o (or o a)
or_honoured₂ none a = tt
or_honoured₂ (some n) a = refl

vus_honoured : (o a b : Option ℕ) → HonoursVus o (constant_vus (or_else 1 (or (or o a) b)))
vus_honoured none a b = tt
vus_honoured (some n) a b = refl

vus_honoured₂ : (o a : Option ℕ) → HonoursVus o (constant_vus (or_else 1 (or o a)))
vus_honoured₂ none a = tt
vus_honoured₂ (some n) a = refl

module _ (opts : ScriptOptions) (cfg : RunConfig) where
  constant_scenario-Honours :
      (s : ScenarioOptions) (c : ScenarioConfig)
      → constant_scenario opts cfg s ≡ ok c
      → Honours cfg c
  unfolding constant_scenario
  constant_scenario-Honours s c e =
      let (p, e1) = refuse-eq-ok _ _ _ e in
      let (q, e2) = refuse-eq-ok _ _ _ e1 in
      subst (Honours cfg) (ok_inj e2) (
        vus_honoured cfg.vus s.vus opts.vus,
        or_honoured cfg.iterations s.iterations opts.iterations,
        or_honoured cfg.duration s.duration opts.duration,
      )

  default_scenario-Honours :
      (out : List ScenarioConfig) → default_scenario opts cfg ≡ ok out → All (Honours cfg) out
  unfolding default_scenario
  default_scenario-Honours out e =
      let (p, e1) = refuse-eq-ok _ _ _ e in
      let (q, e2) = refuse-eq-ok _ _ _ e1 in
      subst (All (Honours cfg)) (ok_inj e2) (
        (
          vus_honoured₂ cfg.vus opts.vus,
          or_honoured cfg.iterations opts.iterations _,
          or_honoured₂ cfg.duration opts.duration,
        ),
        tt,
      )

  -- Every accepted scenario honours the command line, whatever executor the script names: a number
  -- of users set there makes it a constant scenario with that number, and iterations or a duration
  -- set there are the scenario's.
  pub scenarios_from_options-Honours :
      (out : List ScenarioConfig) → scenarios_from_options opts cfg ≡ ok out → All (Honours cfg) out
  unfolding scenarios_from_options
  scenarios_from_options-Honours out e = elim (Bool-cases (is_empty opts.scenarios)) [
    | inl p ↦ default_scenario-Honours out (rw p at e)
    | inr p ↦
        scenarios_loop-All opts cfg (Honours cfg)
          (λ s c.
            scenario_cases opts cfg (Honours cfg) s c (constant_scenario-Honours s c)
              (λ q h. unset-Honours cfg.vus cfg.iterations cfg.duration c q)
              (λ q h. unset-Honours cfg.vus cfg.iterations cfg.duration c q))
          opts.scenarios out (rw p at e)
  ]

  constant_scenario-name :
      (s : ScenarioOptions) (c : ScenarioConfig)
      → constant_scenario opts cfg s ≡ ok c
      → c.metrics_ctx.scenario ≡ s.name
  unfolding constant_scenario
  constant_scenario-name s c e =
      let (p, e1) = refuse-eq-ok _ _ _ e in
      let (q, e2) = refuse-eq-ok _ _ _ e1 in
      ap (λ (x : ScenarioConfig). x.metrics_ctx.scenario) (sym (ok_inj e2))

  ramping_vus_scenario-name :
      (s : ScenarioOptions) (c : ScenarioConfig)
      → ramping_vus_scenario opts s ≡ ok c
      → c.metrics_ctx.scenario ≡ s.name
  unfolding ramping_vus_scenario
  ramping_vus_scenario-name s c e =
      let (p1, e1) = refuse-eq-ok _ _ _ e in
      let (p2, e2) = refuse-eq-ok _ _ _ e1 in
      let (p3, e3) = refuse-eq-ok _ _ _ e2 in
      let (p4, e4) = refuse-eq-ok _ _ _ e3 in
      ap (λ (x : ScenarioConfig). x.metrics_ctx.scenario) (sym (ok_inj e4))

  arrival_rate_scenario-name :
      (s : ScenarioOptions) (c : ScenarioConfig)
      → arrival_rate_scenario opts s ≡ ok c
      → c.metrics_ctx.scenario ≡ s.name
  unfolding arrival_rate_scenario
  arrival_rate_scenario-name s c e =
      let (p1, e1) = refuse-eq-ok _ _ _ e in
      let (p2, e2) = refuse-eq-ok _ _ _ e1 in
      let (p3, e3) = refuse-eq-ok _ _ _ e2 in
      let (p4, e4) = refuse-eq-ok _ _ _ e3 in
      let (p5, e5) = refuse-eq-ok _ _ _ e4 in
      let (p6, e6) = refuse-eq-ok _ _ _ e5 in
      ap (λ (x : ScenarioConfig). x.metrics_ctx.scenario) (sym (ok_inj e6))

  scenarios_loop-names :
      (ss : List ScenarioOptions) (out : List ScenarioConfig)
      → scenarios_loop opts cfg ss ≡ ok out
      → map (λ (c : ScenarioConfig). c.metrics_ctx.scenario) out
        ≡ map (λ (s : ScenarioOptions). s.name) ss
  unfolding scenarios_loop
  scenarios_loop-names [] out e = rw (← ok_inj e)
  scenarios_loop-names (s ∷ rest) out e =
      let (c, one, e1) = step-eq-ok (scenario opts cfg s) _ e in
      let (cs, others, e2) = step-eq-ok (scenarios_loop opts cfg rest) _ e1 in
      let name =
        scenario_cases opts cfg (λ (x : ScenarioConfig). x.metrics_ctx.scenario ≡ s.name) s c
          (constant_scenario-name s c) (λ q. ramping_vus_scenario-name s c)
          (λ q. arrival_rate_scenario-name s c) one in
      rw (← ok_inj e2) (cc (name, scenarios_loop-names rest cs others))

  -- Where the script lists scenarios, the accepted ones are as many, in the order of the list, and
  -- carry its names.
  pub scenarios_from_options-names :
      (out : List ScenarioConfig)
      → is_empty opts.scenarios ≡ false
      → scenarios_from_options opts cfg ≡ ok out
      → map (λ (c : ScenarioConfig). c.metrics_ctx.scenario) out
        ≡ map (λ (s : ScenarioOptions). s.name) opts.scenarios
  unfolding scenarios_from_options
  scenarios_from_options-names out listed e =
      scenarios_loop-names opts.scenarios out (rw listed at e)
