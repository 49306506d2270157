-- ===== src/Schedule/Ramp.antt =====
-- The arithmetic of one stage: `interpolate` and `recheck` on the natural numbers.
use wrkr.Prelude.{
  ℕ, zero, suc, ◌+◌, ◌-◌, ◌*◌, ◌/◌, ◌^◌, ◌≤◌, ◌<◌, min, max, ◌≡◌, refl, arith, u64_max, IsU64, ◌==◌,
  true, false,
}
use wrkr.Prelude.Int.{pos, negsuc, neg, ◌+ℤ◌, ◌-ℤ◌, saturating_mul_i128, div_i128}
use native.Mathlib.Nat.{div-le_of_le-mul, mul-le-mul_left, mul_comm}
use wrkr.Schedule.{Frame, interpolate, clamp_u64}

-- A part of a whole, capped and rounded down.
pub capped_div_le : (k a d cap : ℕ) → a ≤ d → min (k * a) cap / d ≤ k
capped_div_le k a d cap h = div-le_of_le-mul d (omega (arith, mul-le-mul_left k h, mul_comm k d))

pub difference_up : (a b : ℕ) → a ≤ b → pos b -ℤ pos a ≡ pos (b - a)
unfolding ◌-ℤ◌
difference_up a b h = ground arith

difference_down : (a b : ℕ) → b < a → pos b -ℤ pos a ≡ negsuc (a - b - 1)
unfolding ◌-ℤ◌
difference_down a b h = ground arith

add_pos : (a b : ℕ) → pos a +ℤ pos b ≡ pos (a + b)
unfolding ◌+ℤ◌
add_pos a b = ground arith

add_neg : (a b : ℕ) → b ≤ a → pos a +ℤ neg b ≡ pos (a - b)
unfolding ◌+ℤ◌
add_neg a zero h = ground arith
add_neg a (suc b) h = ground arith

clamp_u64_pos : (n : ℕ) → n ≤ u64_max → clamp_u64 (pos n) ≡ n
unfolding clamp_u64
clamp_u64_pos n h = ground arith

pub div_i128-pos : (a d : ℕ) → div_i128 (pos a) (pos d) ≡ pos (a / d)
unfolding div_i128
div_i128-pos a d = refl

div_i128-neg : (a d : ℕ) → 0 < d → div_i128 (neg a) (pos d) ≡ neg (a / d)
unfolding div_i128
div_i128-neg zero d h = ground arith
div_i128-neg (suc a) d h = refl

pub saturating_mul-pos :
    (a b : ℕ) → saturating_mul_i128 (pos a) (pos b) ≡ pos (min (a * b) (2 ^ 127 - 1))
unfolding saturating_mul_i128
saturating_mul-pos a b = refl

saturating_mul-neg :
    (a b : ℕ) → saturating_mul_i128 (negsuc a) (pos b) ≡ neg (min (suc a * b) (2 ^ 127))
unfolding saturating_mul_i128
saturating_mul-neg a b = refl

-- On a rising or level stage.
pub interpolate_up :
    (f : Frame) (e : ℕ)
    → f.start_target ≤ f.end_target
    → IsU64 f.end_target
    → f.stage_start ≤ e
    → e ≤ f.stage_end
    → f.stage_start < f.stage_end
    → interpolate f e
      ≡ f.start_target
        + min ((f.end_target - f.start_target) * (e - f.stage_start)) (2 ^ 127 - 1)
          / (f.stage_end - f.stage_start)
unfolding interpolate
interpolate_up f e rise fits lo hi long =
    let d = f.stage_end - f.stage_start in
    let q = min ((f.end_target - f.start_target) * (e - f.stage_start)) (2 ^ 127 - 1) / d in
    let d_pos : max d 1 ≡ d = omega arith in
    let not_zero : (d == 0) ≡ false = ground arith in
    let small : q ≤ f.end_target - f.start_target = capped_div_le _ _ d _ (omega arith) in
    simp (difference_up _ _ rise, saturating_mul-pos, d_pos, not_zero, div_i128-pos, add_pos)
      (clamp_u64_pos (f.start_target + q) (omega arith))

-- On a falling stage.
pub interpolate_down :
    (f : Frame) (e : ℕ)
    → f.end_target < f.start_target
    → IsU64 f.start_target
    → f.stage_start ≤ e
    → e ≤ f.stage_end
    → f.stage_start < f.stage_end
    → interpolate f e
      ≡ f.start_target
        - min ((f.start_target - f.end_target) * (e - f.stage_start)) (2 ^ 127)
          / (f.stage_end - f.stage_start)
unfolding interpolate
interpolate_down f e fall fits lo hi long =
    let d = f.stage_end - f.stage_start in
    let k = f.start_target - f.end_target in
    let q = min (k * (e - f.stage_start)) (2 ^ 127) / d in
    let d_pos : max d 1 ≡ d = omega arith in
    let not_zero : (d == 0) ≡ false = ground arith in
    let k_pos : suc (k - 1) ≡ k = omega arith in
    let small : q ≤ k = capped_div_le k _ d _ (omega arith) in
    simp
      (
        difference_down _ _ fall,
        saturating_mul-neg,
        k_pos,
        d_pos,
        not_zero,
        div_i128-neg _ d (omega arith),
        add_neg f.start_target q (omega arith),
      )
      (clamp_u64_pos (f.start_target - q) (omega arith))

pub interpolate_empty :
    (f : Frame) (e : ℕ) → f.stage_end ≤ f.stage_start → interpolate f e ≡ f.end_target
unfolding interpolate
interpolate_empty f e h =
    let zero_long : ((f.stage_end - f.stage_start) == 0) ≡ true = ground arith in rw zero_long
