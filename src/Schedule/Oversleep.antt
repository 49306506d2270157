-- ===== src/Schedule/Oversleep.antt =====
-- `next_recheck_in` and `target_at` together, as the loop of a ramping virtual user calls them
-- (wrkr-lua/src/vu.rs).
use wrkr.Prelude.{
  ℕ, ◌+◌, ◌≤◌, ◌<◌, ◌≡◌, refl, arith, IsU64, u64_max, dec_lt, some, List, [], ◌∷◌, All, inl, inr,
  Bool-cases, leb, ◌==◌, dec_lt, true, false, ◌∙◌, subst, ap, sym,
}
use wrkr.Schedule.{
  Stage, RampingU64Schedule, Frame, new, interpolate, recheck, target_at, next_recheck_in,
  total_duration, last_target, stage_index, frame, is_empty, default_sleep,
}
use wrkr.Schedule.Search.{BinarySearch}
use wrkr.Schedule.Stages.{IsWellFormed, new-IsWellFormed}
use wrkr.Schedule.Location.{Located, located, stage_index_inside, stage_end-le-total}
use wrkr.Schedule.Bounds.{Between, interpolate_start, frame_targets}
use wrkr.Schedule.Recheck.{recheck_ends, stays_below}

module _ (search : BinarySearch) (s : RampingU64Schedule) (e : ℕ) where
  -- The three cases of `target_at` with no stages, at the start and within a stage.
  target_at-empty : is_empty s.stages ≡ true → target_at search s e ≡ some s.start
  unfolding target_at
  target_at-empty h = rw h

  target_at-zero : e ≡ 0 → target_at search s e ≡ some s.start
  unfolding target_at
  target_at-zero h = ground arith

  pub target_at-frame :
      (i : ℕ) (f : Frame)
      → is_empty s.stages ≡ false
      → 0 < e
      → e < total_duration s
      → stage_index search s e ≡ i
      → frame s i ≡ some f
      → target_at search s e ≡ some (interpolate f e)
  unfolding target_at
  target_at-frame i f n p q r u =
      let z : (e == 0) ≡ false = ground arith in
      let d : leb (total_duration s) e ≡ false = ground arith in rw (n, z, d, r, u)

  pub target_at-done :
      is_empty s.stages ≡ false
      → 0 < e
      → total_duration s ≤ e
      → target_at search s e ≡ some (last_target s)
  unfolding target_at
  target_at-done n p q =
      let z : (e == 0) ≡ false = ground arith in
      let d : leb (total_duration s) e ≡ true = ground arith in rw (n, z, d)

  next_recheck_in-empty :
      (vu : ℕ) → is_empty s.stages ≡ true → next_recheck_in search s e vu ≡ some default_sleep
  unfolding next_recheck_in
  next_recheck_in-empty vu h = rw h

  next_recheck_in-done :
      (vu : ℕ)
      → is_empty s.stages ≡ false
      → total_duration s ≤ e
      → next_recheck_in search s e vu ≡ some 0
  unfolding next_recheck_in
  next_recheck_in-done vu n h = let d : leb (total_duration s) e ≡ true = ground arith in rw (n, d)

  next_recheck_in-frame :
      (vu cur : ℕ) (f : Frame)
      → is_empty s.stages ≡ false
      → e < total_duration s
      → frame s (stage_index search s e) ≡ some f
      → target_at search s e ≡ some cur
      → next_recheck_in search s e vu ≡ some (recheck f e vu cur)
  unfolding next_recheck_in
  next_recheck_in-frame vu cur f n h u c =
      let d : leb (total_duration s) e ≡ false = ground arith in rw (n, d, u, c)

pub All-from_zero :
    (ss : List Stage)
    → All (λ (st : Stage). IsU64 st.target) ss
    → All (λ (st : Stage). Between 0 u64_max st.target) ss
All-from_zero [] h = tt
All-from_zero (s ∷ ss) h = ((omega arith, h.0), All-from_zero ss h.1)

le_lt : {a b c : ℕ} → a ≤ b → b < c → a < c
le_lt p q = omega arith

module _ (search : BinarySearch) (s : RampingU64Schedule) (w : IsWellFormed s)
    (first : IsU64 s.start) (all : All (λ (st : Stage). IsU64 st.target) s.stages) (e vu cur t : ℕ)
    (nonempty : is_empty s.stages ≡ false) (now : target_at search s e ≡ some cur) (late : cur < vu)
    (running : e < total_duration s) where
  here : Located search s e
  here = located search s w e running

  fits : IsU64 here.frame_of.start_target × IsU64 here.frame_of.end_target
  fits =
      let ((a, b), (c, d)) =
        frame_targets search s w 0 u64_max (omega arith, first) (All-from_zero s.stages all)
          (omega arith) _ here.frame_of here.at in
      (b, d)

  -- The target now is the interpolation at its stage, unless the stage ends now.
  cur-interpolate : e < here.frame_of.stage_end → cur ≡ interpolate here.frame_of e
  cur-interpolate open_ = elim (dec_lt 0 e) [
    | yes p ↦
        let same =
          target_at-frame search s e _ here.frame_of nonempty p running refl here.at.read in
        cc (now, same)
    | no p ↦
        let z : e ≡ 0 = omega arith in
        let at_zero = target_at-zero search s e z in
        let is_start : cur ≡ s.start = cc (now, at_zero) in
        elim (here.inside) [
          | inl (a, b) ↦
              is_start
              ∙ sym b
              ∙ sym (interpolate_start here.frame_of e fits.0 fits.1 (omega arith) open_)
          | inr (inl a) ↦ absurd (omega arith)
          | inr (inr a) ↦ absurd (omega arith)
        ]
  ]

  sleeps_inside :
      e ≤ t
      → t < e + recheck here.frame_of e vu cur
      → (v : ℕ) × (target_at search s t ≡ some v) × (v < vu)
  sleeps_inside later soon =
      let f = here.frame_of in
      let ends = recheck_ends f e vu cur late here.started in
      let c = cur-interpolate (omega arith) in
      let total = stage_end-le-total s _ f w here.at in
      elim (dec_lt e t) [
        | no p ↦ let same : t ≡ e = omega arith in (cur, ap (target_at search s) same ∙ now, late)
        | yes p ↦
            let index =
              stage_index_inside search s w (stage_index search s e) t f here.at
                (le_lt here.started p) (omega arith) in
            (
              interpolate f t,
              target_at-frame search s t _ f nonempty (omega arith) (omega arith) index
                  here.at.read,
              stays_below f e t vu fits.0 fits.1 here.started later (omega arith)
                  (subst (λ (x : ℕ). x < vu) c late) cur c soon,
            )
      ]

-- Whatever the binary search returns among equal ends: if a user with number `vu` is above the
-- target at `e`, and `next_recheck_in` tells it to sleep for `wait`, then at every moment of the
-- sleep the target is defined and still below the user's number. The sleep skips no moment at
-- which the user should run. Start and stage targets are u64 values.
pub no_oversleep :
    (search : BinarySearch) (start : ℕ) (stages : List Stage) (e vu cur wait t : ℕ)
    → IsU64 start
    → All (λ (st : Stage). IsU64 st.target) stages
    → target_at search (new start stages) e ≡ some cur
    → cur < vu
    → next_recheck_in search (new start stages) e vu ≡ some wait
    → e ≤ t
    → t < e + wait
    → (v : ℕ) × (target_at search (new start stages) t ≡ some v) × (v < vu)
no_oversleep search start stages e vu cur wait t first all now late sleep later soon =
    let s = new start stages in
    let w = new-IsWellFormed start stages in
    elim (Bool-cases (is_empty stages)) [
      | inl empty ↦
          let is_start : cur ≡ start = cc (now, target_at-empty search s e empty) in
          (start, target_at-empty search s t empty, subst (λ (x : ℕ). x < vu) is_start late)
      | inr nonempty ↦ elim (dec_lt e (total_duration s)) [
        | no done ↦
            let awake : wait ≡ 0 =
              cc (sleep, next_recheck_in-done search s e vu nonempty (omega arith)) in
            absurd (omega arith)
        | yes running ↦
            let l = here search s w first all e vu cur t nonempty now late running in
            let length_of_sleep : wait ≡ recheck l.frame_of e vu cur = cc (
              sleep,
              next_recheck_in-frame search s e vu cur l.frame_of nonempty running l.at.read now,
            ) in
            sleeps_inside search s w first all e vu cur t nonempty now late running later
              (omega arith)
      ]
    ]
