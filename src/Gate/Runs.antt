-- ===== src/Gate/Runs.antt =====
-- Concrete gates, and the theorems at concrete inputs.
use wrkr.Prelude.{◌≡◌, refl, min, none, some, [], ◌∷◌, arith}
use wrkr.Gate.{new, next, calls, start_at, lazy_start, expired, take_index}
use wrkr.Gate.Count.{calls-new}

two_of_three : (calls (1 ∷ 2 ∷ 3 ∷ []) (new (some 2) none)).1 ≡ 2
unfolding calls next lazy_start expired take_index
two_of_three = refl

-- A gate that nobody started takes its first call for the start.
lazy_deadline : (calls (100 ∷ 109 ∷ 110 ∷ []) (new none (some 10))).1 ≡ 2
unfolding calls next lazy_start start_at expired take_index
lazy_deadline = refl

calls-new_example : (calls (1 ∷ 2 ∷ 3 ∷ []) (new (some 2) none)).1 ≡ min 2 3
calls-new_example = calls-new (some 2) (1 ∷ 2 ∷ 3 ∷ []) (omega arith)
