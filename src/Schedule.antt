-- ===== src/Schedule.antt =====
-- wrkr-core/src/schedule.rs: the ramping schedule of virtual users or of arrival rates.
-- A `Duration` is its number of nanoseconds. `none` is a panic (an index out of range).
-- `slice::binary_search_by` is the parameter `BinarySearch`, by its documented contract: where
-- several elements match, any of them may be returned.
pub mod Search
pub mod Stages
pub mod Location
pub mod Ramp
pub mod Bounds
pub mod Recheck
pub mod Oversleep
pub mod Linear
pub mod Snapshot
mod Runs
use wrkr.Prelude.{
  ℕ, zero, ◌+◌, ◌-◌, ◌*◌, ◌^◌, ◌≤◌, min, max, Bool, Option, none, some, List, [], ◌∷◌, ltb, leb,
  ◌==◌, if◌then◌else◌, ◌>>=◌, length, get_elem?, last?, u64_max,
}
use wrkr.Prelude.Int.{
  ℤ, pos, ◌+ℤ◌, ◌-ℤ◌, pos_part, leb_ℤ, max_ℤ, min_ℤ, saturating_mul_i128, saturating_sub_i128,
  div_i128,
}
use Search.{BinarySearch, index}

-- The largest `Duration`, 2 ^ 64 - 1 seconds and 999999999 nanoseconds.
abbrev pub duration_max : ℕ
duration_max = 2 ^ 64 * 1000000000 - 1

-- `Duration::saturating_add`
abbrev pub add_duration : ℕ → ℕ → ℕ
add_duration a b = min (a + b) duration_max

abbrev pub millis : ℕ → ℕ
millis n = n * 1000000

pub record Stage : Type 0 where
  pub duration : ℕ
  pub target : ℕ

pub record StageSnapshot : Type 0 where
  pub index : ℕ
  pub count : ℕ
  pub stage_elapsed : ℕ
  pub stage_remaining : ℕ
  pub start_target : ℕ
  pub end_target : ℕ
  pub current_target : ℕ

pub record RampingU64Schedule : Type 0 where
  pub start : ℕ
  pub stages : List Stage
  pub cumulative_ends : List ℕ

-- The loop of `new`.
unfoldable pub push_ends : ℕ → List Stage → List ℕ
push_ends acc [] = []
push_ends acc (s ∷ rest) = let acc' = add_duration acc s.duration in acc' ∷ push_ends acc' rest

abbrev pub new : ℕ → List Stage → RampingU64Schedule
new start stages = record { start = start; stages = stages; cumulative_ends = push_ends 0 stages }

abbrev pub or_else {ℓ} : {A : Type ℓ} → A → Option A → A
or_else d none = d
or_else d (some a) = a

abbrev pub total_duration : RampingU64Schedule → ℕ
total_duration s = or_else 0 (last? s.cumulative_ends)

pub is_done : RampingU64Schedule → ℕ → Bool
is_done s elapsed = leb (total_duration s) elapsed

abbrev pub is_empty {ℓ} : {A : Type ℓ} → List A → Bool
is_empty xs = length xs == 0

-- What `target_at`, `stage_snapshot_at` and `next_recheck_in` read of the stage at an index.
pub record Frame : Type 0 where
  pub stage_start : ℕ
  pub stage_end : ℕ
  pub start_target : ℕ
  pub end_target : ℕ

pub frame : RampingU64Schedule → ℕ → Option Frame
frame s idx = do
  stage_end ← get_elem? s.cumulative_ends idx
  stage_start ← if idx == 0 then some 0 else get_elem? s.cumulative_ends (idx - 1)
  stage ← get_elem? s.stages idx
  start_target ←
      if idx == 0
      then some s.start
      else (do before ← get_elem? s.stages (idx - 1); some before.target)
  some (record {
    stage_start = stage_start;
    stage_end = stage_end;
    start_target = start_target;
    end_target = stage.target;
  })

-- `cur.clamp(0, u64::MAX as i128) as u64`
pub clamp_u64 : ℤ → ℕ
clamp_u64 z = pos_part (min_ℤ (max_ℤ z (pos 0)) (pos u64_max))

-- The linear interpolation of `target_at` across a stage.
pub interpolate : Frame → ℕ → ℕ
interpolate f elapsed =
    let stage_duration = f.stage_end - f.stage_start in
    let stage_elapsed = elapsed - f.stage_start in
    let delta = pos f.end_target -ℤ pos f.start_target in
    let scaled = saturating_mul_i128 delta (pos stage_elapsed) in
    if stage_duration == 0
    then f.end_target
    else clamp_u64 (pos f.start_target +ℤ div_i128 scaled (pos (max stage_duration 1)))

abbrev pub last_target : RampingU64Schedule → ℕ
last_target s = elim (last? s.stages) [ some stage ↦ stage.target | none ↦ s.start ]

abbrev pub default_sleep : ℕ
default_sleep = millis 50

-- `next_recheck_in` once the stage and the current target are known.
pub recheck : Frame → ℕ → ℕ → ℕ → ℕ
recheck f elapsed vu_index cur_target =
    let delta = pos f.end_target -ℤ pos f.start_target in
    let stage_ns = pos (f.stage_end - f.stage_start) in
    let elapsed_ns = pos (elapsed - f.stage_start) in
    let ahead = pos vu_index -ℤ pos f.start_target in
    let needed_ns = max_ℤ (div_i128 (saturating_mul_i128 ahead stage_ns) delta) (pos 0) in
    let wait_ns = max_ℤ (saturating_sub_i128 needed_ns elapsed_ns) (pos 0) in
    if leb vu_index cur_target
    then millis 1
    else if leb f.end_target f.start_target
    then min (f.stage_end - elapsed) default_sleep
    else if leb_ℤ delta (pos 0)
    then default_sleep
    else if leb vu_index f.start_target
    then 0
    else if ltb f.end_target vu_index
    then min (f.stage_end - elapsed) default_sleep
    else min (pos_part (min_ℤ wait_ns (pos u64_max))) default_sleep

module _ (search : BinarySearch) where
  pub stage_index : RampingU64Schedule → ℕ → ℕ
  stage_index s elapsed = index (search.run s.cumulative_ends elapsed)

  pub target_at : RampingU64Schedule → ℕ → Option ℕ
  unfolding stage_index
  target_at s elapsed =
      if is_empty s.stages
      then some s.start
      else if elapsed == 0
      then some s.start
      else if leb (total_duration s) elapsed
      then some (last_target s)
      else (do f ← frame s (stage_index s elapsed); some (interpolate f elapsed))

  pub stage_snapshot_at : RampingU64Schedule → ℕ → Option (Option StageSnapshot)
  unfolding stage_index
  stage_snapshot_at s elapsed =
      let clamped = min elapsed (total_duration s) in
      let idx =
        if leb (total_duration s) clamped then length s.stages - 1 else stage_index s clamped in
      let snapshot = (do
        f ← frame s idx
        current_target ← target_at s clamped
        let stage_duration = f.stage_end - f.stage_start
        let stage_elapsed = clamped - f.stage_start
        some (
            some (record {
              index = idx;
              count = length s.stages;
              stage_elapsed = stage_elapsed;
              stage_remaining = stage_duration - stage_elapsed;
              start_target = f.start_target;
              end_target = f.end_target;
              current_target = current_target;
            }))) in
      if is_empty s.stages then some none else snapshot

  pub next_recheck_in : RampingU64Schedule → ℕ → ℕ → Option ℕ
  unfolding stage_index
  next_recheck_in s elapsed vu_index =
      if is_empty s.stages
      then some default_sleep
      else if leb (total_duration s) elapsed
      then some 0
      else (do
        f ← frame s (stage_index s elapsed)
        cur_target ← target_at s elapsed
        some (recheck f elapsed vu_index cur_target))
