-- ===== src/Schedule/Recheck.antt =====
-- A virtual user that sleeps for `next_recheck_in` misses no moment at which it should run.
use wrkr.Prelude.{
  ℕ, zero, suc, ◌+◌, ◌-◌, ◌*◌, ◌/◌, ◌^◌, ◌≤◌, ◌<◌, min, ◌≡◌, arith, IsU64, u64_max, dec_lt, inl,
  inr, leb, ltb, dec_lt, false, ◌⊎◌,
}
use wrkr.Prelude.Int.{pos_part, min_ℤ, max_ℤ, leb_ℤ, pos, ◌-ℤ◌, saturating_sub_i128}
use native.Mathlib.Nat.{
  div-le_of_le-mul, mul-le-mul_left, mul-le-mul_right, div-lt_iff_lt-mul, mul-div-le,
  le-div_iff_mul-le,
}
use wrkr.Schedule.{Frame, interpolate, recheck}
use wrkr.Schedule.Bounds.{interpolate_between}
use wrkr.Schedule.Ramp.{
  interpolate_up, interpolate_down, difference_up, saturating_mul-pos, div_i128-pos,
}

-- The time at which a rising stage reaches `vu_index`.
abbrev needed : Frame → ℕ → ℕ
needed f vu =
    min ((vu - f.start_target) * (f.stage_end - f.stage_start)) (2 ^ 127 - 1)
    / (f.end_target - f.start_target)

div_mono : (a b d : ℕ) → a ≤ b → a / d ≤ b / d
div_mono a b zero h = omega arith
div_mono a b (suc d) h = (le-div_iff_mul-le (omega arith)).1 (omega (arith, mul-div-le a (suc d)))

wait_le :
    (q el : ℕ)
    → pos_part
        (min_ℤ (max_ℤ (saturating_sub_i128 (max_ℤ (pos q) (pos 0)) (pos el)) (pos 0)) (pos u64_max))
      ≤ q - el
unfolding saturating_sub_i128
wait_le q el = ground arith

min_left : (a b c : ℕ) → a ≤ c → min a b ≤ c
min_left a b c h = omega arith

-- On a rising stage that will reach the user: no longer than until the ramp is there.
recheck_rising :
    (f : Frame) (e vu cur : ℕ)
    → cur < vu
    → f.start_target < vu
    → vu ≤ f.end_target
    → recheck f e vu cur ≤ needed f vu - (e - f.stage_start)
unfolding recheck
recheck_rising f e vu cur late above below =
    let t1 : leb vu cur ≡ false = ground arith in
    let t2 : leb f.end_target f.start_target ≡ false = ground arith in
    let t3 : leb_ℤ (pos (f.end_target - f.start_target)) (pos 0) ≡ false = ground arith in
    let t4 : leb vu f.start_target ≡ false = ground arith in
    let t5 : ltb f.end_target vu ≡ false = ground arith in
    simp
      (
        t1,
        t2,
        t4,
        t5,
        difference_up f.start_target f.end_target (omega arith),
        difference_up f.start_target vu (omega arith),
        t3,
        saturating_mul-pos,
        div_i128-pos,
      )
      (min_left _ _ _ (wait_le (needed f vu) (e - f.stage_start)))

-- On every other stage: no longer than until the stage ends.
recheck_other :
    (f : Frame) (e vu cur : ℕ)
    → cur < vu
    → (f.end_target ≤ f.start_target) ⊎ ((vu ≤ f.start_target) ⊎ (f.end_target < vu))
    → recheck f e vu cur ≤ f.stage_end - e
unfolding recheck ◌-ℤ◌
recheck_other f e vu cur late h = ground arith

-- The target of a later moment of the stage, reached before the sleep is over.
module _ (f : Frame) (e t vu : ℕ) (fs : IsU64 f.start_target) (fe : IsU64 f.end_target)
    (started : f.stage_start ≤ e) (later : e ≤ t) (inside : t < f.stage_end)
    (late : interpolate f e < vu) where
  falling_stays : f.end_target < f.start_target → interpolate f t < vu
  falling_stays fall =
      let k = f.start_target - f.end_target in
      let d = f.stage_end - f.stage_start in
      let more : k * (e - f.stage_start) ≤ k * (t - f.stage_start) =
        mul-le-mul_left k (omega arith) in
      let less =
        div_mono (min (k * (e - f.stage_start)) (2 ^ 127)) (min (k * (t - f.stage_start)) (2 ^ 127))
          d (omega arith) in
      omega (
        arith,
        interpolate_down f t fall fs (omega arith) (omega arith) (omega arith),
        interpolate_down f e fall fs started (omega arith) (omega arith),
      )

  rising_stays :
      f.start_target < vu
      → vu ≤ f.end_target
      → t < e + (needed f vu - (e - f.stage_start))
      → interpolate f t < vu
  rising_stays above below soon =
      let k = f.end_target - f.start_target in
      let d = f.stage_end - f.stage_start in
      let w = vu - f.start_target in
      let x = min (w * d) (2 ^ 127 - 1) in
      let whole : k * (x / k) ≤ x = mul-div-le x k in
      let part : k * suc (t - f.stage_start) ≤ k * (x / k) = mul-le-mul_left k (omega arith) in
      let scaled : min (k * (t - f.stage_start)) (2 ^ 127 - 1) < w * d = omega arith in
      let reached : min (k * (t - f.stage_start)) (2 ^ 127 - 1) / d < w =
        (div-lt_iff_lt-mul (omega arith)).1 scaled in
      omega (arith, interpolate_up f t (omega arith) fe (omega arith) (omega arith) (omega arith))

  -- The target stays below the user until the sleep is over.
  pub stays_below :
      (cur : ℕ) → cur ≡ interpolate f e → t < e + recheck f e vu cur → interpolate f t < vu
  stays_below cur c soon = elim (dec_lt f.end_target f.start_target) [
    | yes fall ↦ falling_stays fall
    | no level ↦
        let now = interpolate_between f e fs fe started (omega arith) in
        let then_ = interpolate_between f t fs fe (omega arith) (omega arith) in
        elim (dec_lt f.end_target vu) [
          | yes beyond ↦ omega arith
          | no within ↦
              rising_stays (omega arith) (omega arith)
                (omega (arith, recheck_rising f e vu cur (omega arith) (omega arith) (omega arith)))
        ]
  ]

span :
    (f : Frame) (vu : ℕ)
    → ¬ (f.end_target < vu)
    → vu - f.start_target ≤ f.end_target - f.start_target
span f vu h = omega arith

-- No sleep goes past the end of the stage.
pub recheck_ends :
    (f : Frame) (e vu cur : ℕ) → cur < vu → f.stage_start ≤ e → recheck f e vu cur ≤ f.stage_end - e
recheck_ends f e vu cur late started = elim (dec_lt f.start_target vu) [
  | no p ↦ recheck_other f e vu cur late (inr (inl (omega arith)))
  | yes above ↦ elim (dec_lt f.end_target vu) [
    | yes q ↦ recheck_other f e vu cur late (inr (inr q))
    | no below ↦
        let part : needed f vu ≤ f.stage_end - f.stage_start =
          div-le_of_le-mul (f.end_target - f.start_target)
            (omega (arith, mul-le-mul_right (f.stage_end - f.stage_start) (span f vu below))) in
        omega (arith, recheck_rising f e vu cur late above (omega arith))
  ]
]
