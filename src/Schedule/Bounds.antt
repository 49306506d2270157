-- ===== src/Schedule/Bounds.antt =====
-- `target_at` stays within the targets of the schedule.
use wrkr.Prelude.{
  ℕ, ◌-◌, ◌*◌, ◌/◌, ◌^◌, ◌≤◌, ◌<◌, min, max, ◌≡◌, refl, arith, IsU64, dec_lt, Option, some, none,
  List, All, All-get_elem?, All-last?, inl, inr, Bool-cases, leb, ◌==◌, dec_lt, last?,
}
use wrkr.Schedule.{
  Stage, RampingU64Schedule, Frame, new, interpolate, target_at, total_duration, last_target,
  is_empty,
}
use wrkr.Schedule.Search.{BinarySearch}
use wrkr.Schedule.Stages.{IsWellFormed, new-IsWellFormed, FrameAt}
use wrkr.Schedule.Location.{Located, located}
use wrkr.Schedule.Ramp.{interpolate_up, interpolate_down, interpolate_empty, capped_div_le}

-- Within a stage the interpolation stays between the stage's two targets.
pub interpolate_between :
    (f : Frame) (e : ℕ)
    → IsU64 f.start_target
    → IsU64 f.end_target
    → f.stage_start ≤ e
    → e ≤ f.stage_end
    → (min f.start_target f.end_target ≤ interpolate f e)
      × (interpolate f e ≤ max f.start_target f.end_target)
interpolate_between f e fs fe lo hi = elim (dec_lt f.stage_start f.stage_end) [
  | no p ↦ rw (interpolate_empty f e (omega arith)) (omega arith, omega arith)
  | yes long ↦ elim (dec_lt f.end_target f.start_target) [
    | yes fall ↦
        let part =
          capped_div_le (f.start_target - f.end_target) (e - f.stage_start)
            (f.stage_end - f.stage_start) (2 ^ 127) (omega arith) in
        rw (interpolate_down f e fall fs lo hi long) (omega arith, omega arith)
    | no level ↦
        let part =
          capped_div_le (f.end_target - f.start_target) (e - f.stage_start)
            (f.stage_end - f.stage_start) (2 ^ 127 - 1) (omega arith) in
        rw (interpolate_up f e (omega arith) fe lo hi long) (omega arith, omega arith)
  ]
]

zero_part : (k a d cap : ℕ) → a ≡ 0 → min (k * a) cap / d ≡ 0
zero_part k a d cap h = rw h (let z = capped_div_le 0 0 d cap (omega arith) in grind arith)

-- At its start a stage has its start target.
pub interpolate_start :
    (f : Frame) (e : ℕ)
    → IsU64 f.start_target
    → IsU64 f.end_target
    → e ≡ f.stage_start
    → e < f.stage_end
    → interpolate f e ≡ f.start_target
interpolate_start f e fs fe at_start open_ = elim (dec_lt f.end_target f.start_target) [
  | yes fall ↦
      let part =
        zero_part (f.start_target - f.end_target) (e - f.stage_start) (f.stage_end - f.stage_start)
          (2 ^ 127) (omega arith) in
      omega (arith, interpolate_down f e fall fs (omega arith) (omega arith) (omega arith), part)
  | no level ↦
      let part =
        zero_part (f.end_target - f.start_target) (e - f.stage_start) (f.stage_end - f.stage_start)
          (2 ^ 127 - 1) (omega arith) in
      omega
        (arith, interpolate_up f e (omega arith) fe (omega arith) (omega arith) (omega arith), part)
]

abbrev pub Between : ℕ → ℕ → ℕ → Type 0
Between lo hi v = (lo ≤ v) × (v ≤ hi)

module _ (search : BinarySearch) (s : RampingU64Schedule) (w : IsWellFormed s) (lo hi : ℕ)
    (first : Between lo hi s.start) (all : All (λ (st : Stage). Between lo hi st.target) s.stages)
    (fits : IsU64 hi) where
  pub frame_targets :
      (i : ℕ) (f : Frame)
      → FrameAt s i f
      → Between lo hi f.start_target × Between lo hi f.end_target
  frame_targets i f at = (
    elim (at.start_at) [
      | inl p ↦ rw (p.2) first
      | inr (j, st, p, q, r, u) ↦ rw u (All-get_elem? _ s.stages j st all r)
    ],
    rw (at.end_target) (All-get_elem? _ s.stages i at.stage all at.stage_at),
  )

  interpolate_in_range : (e : ℕ) (l : Located search s e) → Between lo hi (interpolate l.frame_of e)
  interpolate_in_range e l =
      let ((a, b), (c, d)) = frame_targets _ l.frame_of l.at in
      let between =
        interpolate_between l.frame_of e (omega arith) (omega arith) l.started l.not_ended in
      omega arith

  last_target_in_range : Between lo hi (last_target s)
  last_target_in_range = go (last? s.stages) refl
    where
      go :
          (o : Option Stage)
          → last? s.stages ≡ o
          → Between lo hi (elim o [ some st ↦ st.target | none ↦ s.start ])
      go none e = first
      go (some st) e = All-last? _ s.stages st all e

  pub target_at_in_range :
      (elapsed : ℕ) → (v : ℕ) × (target_at search s elapsed ≡ some v) × Between lo hi v
  unfolding target_at
  target_at_in_range elapsed = elim (Bool-cases (is_empty s.stages)) [
    | inl e ↦ (s.start, rw e, first)
    | inr e ↦ elim (Bool-cases (elapsed == 0)) [
      | inl z ↦ (s.start, rw (e, z), first)
      | inr z ↦ elim (Bool-cases (leb (total_duration s) elapsed)) [
        | inl d ↦ (last_target s, rw (e, z, d), last_target_in_range)
        | inr d ↦
            let l = located search s w elapsed (ground arith) in
            (
              interpolate l.frame_of elapsed,
              rw (e, z, d, l.at.read),
              interpolate_in_range elapsed l,
            )
      ]
    ]
  ]

-- Where the start and every stage target lie between `lo` and `hi`, a u64, `target_at` returns a
-- target between `lo` and `hi` at every elapsed time: it never panics, and the interpolation
-- neither overflows nor leaves the range, whatever the binary search returns among equal ends.
pub target_at_bounds :
    (search : BinarySearch) (start : ℕ) (stages : List Stage) (lo hi elapsed : ℕ)
    → Between lo hi start
    → All (λ (st : Stage). Between lo hi st.target) stages
    → IsU64 hi
    → (v : ℕ) × (target_at search (new start stages) elapsed ≡ some v) × Between lo hi v
target_at_bounds search start stages lo hi elapsed first all fits =
    target_at_in_range search (new start stages) (new-IsWellFormed start stages) lo hi first all
      fits elapsed
