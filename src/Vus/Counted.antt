-- ===== src/Vus/Counted.antt =====
-- The description that the gauges of wrkr-core/src/vu.rs are compared with: two plain numbers, with no
-- handles and no machine words.
use wrkr.Prelude.{ℕ, ◌+◌, ◌-◌, ◌≤◌, Bool, ◌&&◌, max, ltb, ◌==◌, if◌then◌else◌}
use wrkr.Pacer.System.{update}

-- Where a user stands: it has added itself and has the new number, it has loaded the peak, or it
-- is done with the peak.
pub data Position : Type 0 where
  away : Position
  added : (new_active : ℕ) → Position
  compared : (new_active cur : ℕ) → Position
  joined : Position

-- `highest` only watches: the largest number that `active` has had.
pub record Counted : Type 0 where
  pub active : ℕ
  pub peak : ℕ
  pub vus : ℕ → Position
  pub highest : ℕ

-- A user adds itself, loads the peak, makes a turn of the loop, or takes itself away.
unfoldable pub count_step : Bool → ℕ → ℕ → Position → ℕ × ℕ × Position
count_step lucky active peak away = (active + 1, peak, added (active + 1))
count_step lucky active peak (added new_active) = (active, peak, compared new_active peak)
count_step lucky active peak (compared new_active cur) =
    if ltb cur new_active
    then (if peak == cur && lucky
        then (active, new_active, joined)
        else (active, peak, compared new_active peak))
    else (active, peak, joined)
count_step lucky active peak joined = (active - 1, peak, away)

unfoldable pub counted_step : Bool → ℕ → Counted → Counted
counted_step lucky i g =
    let (active, peak, vu) = count_step lucky g.active g.peak (g.vus i) in
    record { active = active; peak = peak; vus = update g.vus i vu; highest = max g.highest active }

-- The user brings no number to the peak.
abbrev pub IsDone : Position → Type 0
IsDone away = Unit
IsDone (added a) = ⊥
IsDone (compared a cur) = ⊥
IsDone joined = Unit

-- The states that some order of the users' operations leads to.
pub data CountedReach : Counted → Type 0 where
  begin :
      (active peak : ℕ) (vus : ℕ → Position)
      → active ≤ peak
      → ((i : ℕ) → IsDone (vus i))
      → CountedReach (record { active = active; peak = peak; vus = vus; highest = peak })
  step :
      (lucky : Bool) (i : ℕ) {g : Counted} → CountedReach g → CountedReach (counted_step lucky i g)
