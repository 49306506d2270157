-- ===== src/Schedule/Runs.antt =====
-- Concrete schedules: tests of the definitions, and the theorems at concrete inputs.
use wrkr.Prelude.{ℕ, ◌<◌, ◌≡◌, refl, arith, some, List, [], ◌∷◌}
use wrkr.Prelude.Int.{saturating_mul_i128, div_i128, ◌+ℤ◌, ◌-ℤ◌, saturating_sub_i128}
use wrkr.Schedule.{
  Stage, StageSnapshot, new, push_ends, frame, interpolate, clamp_u64, recheck, stage_index,
  target_at, stage_snapshot_at, next_recheck_in,
}
use wrkr.Schedule.Linear.{linear, position, shift}
use wrkr.Schedule.Bounds.{Between, target_at_bounds}
use wrkr.Schedule.Oversleep.{no_oversleep}
use wrkr.Schedule.Snapshot.{IsFaithful, stage_snapshot_at-IsFaithful}

-- Up from 0 to 10 users in ten seconds, down to 4 in the next five.
abbrev ramp : List Stage
ramp =
    record { duration = 10000000000; target = 10 }
    ∷ record { duration = 5000000000; target = 4 }
    ∷ []

target_half_way : target_at linear (new 0 ramp) 5000000000 ≡ some 5
unfolding target_at stage_index frame interpolate push_ends position shift clamp_u64
    saturating_mul_i128 div_i128 ◌+ℤ◌ ◌-ℤ◌
target_half_way = refl

target_falling : target_at linear (new 0 ramp) 12500000000 ≡ some 7
unfolding target_at stage_index frame interpolate push_ends position shift clamp_u64
    saturating_mul_i128 div_i128 ◌+ℤ◌ ◌-ℤ◌
target_falling = refl

recheck_half_way : next_recheck_in linear (new 0 ramp) 5980000000 6 ≡ some 20000000
unfolding next_recheck_in recheck target_at stage_index frame interpolate push_ends position shift
    clamp_u64 saturating_mul_i128 saturating_sub_i128 div_i128 ◌+ℤ◌ ◌-ℤ◌
recheck_half_way = refl

target_before : target_at linear (new 0 ramp) 5980000000 ≡ some 5
unfolding target_at stage_index frame interpolate push_ends position shift clamp_u64
    saturating_mul_i128 div_i128 ◌+ℤ◌ ◌-ℤ◌
target_before = refl

target_at_bounds_example :
    (v : ℕ) × (target_at linear (new 0 ramp) 12500000000 ≡ some v) × Between 0 10 v
target_at_bounds_example =
    target_at_bounds linear 0 ramp 0 10 12500000000 (omega arith) (omega arith) (omega arith)

no_oversleep_example : (v : ℕ) × (target_at linear (new 0 ramp) 5999999999 ≡ some v) × (v < 6)
no_oversleep_example =
    no_oversleep linear 0 ramp 5980000000 6 5 20000000 5999999999 (omega arith) (omega arith)
      target_before (omega arith) recheck_half_way (omega arith) (omega arith)

stage_snapshot_at-IsFaithful_example :
    (n : StageSnapshot) × (stage_snapshot_at linear (new 0 ramp) 20000000000 ≡ some (some n))
    × IsFaithful linear 0 ramp 20000000000 n
unfolding push_ends
stage_snapshot_at-IsFaithful_example =
    stage_snapshot_at-IsFaithful linear 0 ramp 20000000000 (omega arith) (omega arith) refl
      (omega arith) (omega arith)
