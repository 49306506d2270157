-- ===== src/Scenarios/Peak.antt =====
-- `run_scenarios` starts as many users for a ramping scenario as its schedule ever asks for.
use wrkr.Prelude.{ℕ, ◌≤◌, ◌≡◌, max, some, List, [], ◌∷◌, arith, All, IsU64}
use wrkr.Schedule.{Stage, target_at}
use wrkr.Schedule
use wrkr.Schedule.Search.{BinarySearch}
use wrkr.Schedule.Bounds.{Between, target_at_bounds}
use wrkr.Config.{ramping_vus}
use wrkr.Scenarios.{max_stage, scenario_max_vus_of}

Between-max_stage :
    (hi : ℕ) (stages : List Stage)
    → max_stage stages ≤ hi
    → All (λ (st : Stage). Between 0 hi st.target) stages
unfolding max_stage
Between-max_stage hi [] h = tt
Between-max_stage hi (st ∷ rest) h =
    ((omega arith, omega arith), Between-max_stage hi rest (omega arith))

max_stage-le :
    (hi : ℕ) (stages : List Stage)
    → All (λ (st : Stage). st.target ≤ hi) stages
    → max_stage stages ≤ hi
unfolding max_stage
max_stage-le hi [] h = omega arith
max_stage-le hi (st ∷ rest) h = omega (arith, max_stage-le hi rest h.1, h.0)

-- At every elapsed time a scenario that ramps its users asks for at most as many users as
-- `run_scenarios` starts for it, whatever the binary search returns among equal ends. The start and
-- the stage targets are u64 values.
pub target_at-le-scenario_max_vus :
    (search : BinarySearch) (start_vus : ℕ) (stages : List Stage) (elapsed : ℕ)
    → IsU64 start_vus
    → All (λ (st : Stage). IsU64 st.target) stages
    → (v : ℕ) × (target_at search (Schedule.new start_vus stages) elapsed ≡ some v)
      × (v ≤ scenario_max_vus_of (ramping_vus start_vus stages))
target_at-le-scenario_max_vus search start_vus stages elapsed first all =
    let peak = max (max_stage stages) start_vus in
    let (v, e, range) =
      target_at_bounds search start_vus stages 0 peak elapsed (omega arith, omega arith)
        (Between-max_stage peak stages (omega arith)) (omega (arith, max_stage-le _ stages all)) in
    (v, e, range.1)
