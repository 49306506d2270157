-- ===== src/Vus/Runs.antt =====
-- A missed start, users that come in and go, and two that both make the series of the gauge.
use wrkr.Prelude.{
  ℕ, ◌<◌, ◌≡◌, refl, Bool, true, false, none, some, List, [], ◌∷◌, All, sym, ap, inl, inr, arith,
  ℕ_discrete,
}
use wrkr.Prelude.Int.{ℤ, pos}
use mathlib.Core.Logic.{if_pos, if_neg}
use wrkr.Pacer.System.{Notify, update}
use wrkr.Vus.{
  StartSignal, top, waiting, released, notifying, finished, init, Reach, here, next, store, load,
  outside, inside, Gauges, vu_step, gauge_step, GaugeReach, begin, step, active_users,
}
use wrkr.Vus.Start.{update_cases, lost_start, released_after_start}
use wrkr.Vus.Peak.{IsReady, IsSettled, peak_highest}

-- Which users wait, as a test.
abbrev waiters : Notify
waiters = record {
  State = ℕ → Bool;
  idle = λ i. false;
  register = λ s i. update s i true;
  notify_waiters = λ s i. false;
  is_waiting = λ s i. s i;
  register_waits = λ s i. if_pos (ℕ_discrete i i) refl true (s i);
  register_other = λ s i j h. if_neg (ℕ_discrete i j) h true (s j);
  wakes_all = λ s i. refl;
}

lost_start_example :
    (s : StartSignal (ℕ → Bool)) × Reach waiters (init waiters) s
    × (s.started ≡ true)
    × (s.starter ≡ finished)
    × ((t : StartSignal (ℕ → Bool)) → Reach waiters s t → t.waiters 3 ≡ waiting)
lost_start_example = lost_start waiters 3

-- The start comes first, and the user finds it.
abbrev prompt : StartSignal (ℕ → Bool)
prompt = record {
  started = true;
  starter = notifying;
  waiters = update (λ i. top) 3 released;
  notify = waiters.idle;
}

released_after_start_example : prompt.started ≡ true
unfolding ℕ_discrete
released_after_start_example =
    released_after_start waiters prompt 3 (next (next here (store refl refl)) (load 3 refl refl))
      refl

-- User 0 is active and has made the series of the gauges, at the cells 0 and 1.
abbrev ready : Gauges
ready = record {
  cells = record { active = some 0; peak = some 1; next_cell = 2; values = λ k. pos 1 };
  vus = update (λ i. outside) 0 inside;
  highest = 1;
}

one_active : active_users 2 ready.vus ≡ 1
unfolding active_users ℕ_discrete
one_active = refl

ready-IsReady : IsReady 2 0 1 ready
ready-IsReady = record {
  holding = record {
    apart = λ e. omega (arith, e);
    active_at = refl;
    peak_at = refl;
    active_is = ap pos (sym one_active);
    peak_is = refl;
  };
  settled = λ i. elim (update_cases (λ i. outside) 0 i inside (ready.vus i) refl) [
    | inl (same, value) ↦ inr (sym value)
    | inr (other, value) ↦ inl (sym value)
  ];
  peak_above = omega (arith, one_active);
}

-- Operations of the users, in this order.
abbrev turns : List ℕ → Gauges → Gauges
turns [] g = g
turns (i ∷ order) g = turns order (gauge_step 2 true i g)

-- User 1 comes in while user 0 goes.
abbrev order : List ℕ
order = 1 ∷ 0 ∷ 1 ∷ 1 ∷ 1 ∷ 0 ∷ 1 ∷ []

turns-GaugeReach :
    (is : List ℕ) (g : Gauges)
    → All (λ (i : ℕ). i < 2) is
    → GaugeReach 2 ready g
    → GaugeReach 2 ready (turns is g)
turns-GaugeReach [] g h r = r
turns-GaugeReach (i ∷ is) g (h, hs) r =
    turns-GaugeReach is (gauge_step 2 true i g) hs (step true i h r)

peak_highest_example :
    ((turns order ready).cells.values 0 ≡ pos (active_users 2 (turns order ready).vus))
    × (((i : ℕ) → IsSettled ((turns order ready).vus i))
        → (turns order ready).cells.values 1 ≡ pos (turns order ready).highest)
peak_highest_example =
    peak_highest 2 0 1 (omega arith) ready ready-IsReady (turns order ready)
      (turns-GaugeReach order ready (omega arith) begin)

one_left :
    (◌≡◌ {A = ℤ} ((turns order ready).cells.values 0) (pos 1))
    × (◌≡◌ {A = ℤ} ((turns order ready).cells.values 1) (pos 2))
    × ((turns order ready).highest ≡ 2)
unfolding gauge_step vu_step active_users ℕ_discrete
one_left = (refl, refl, refl)

-- No gauge has a series yet.
abbrev fresh : Gauges
fresh = record {
  cells = record { active = none; peak = none; next_cell = 0; values = λ k. pos 0 };
  vus = λ i. outside;
  highest = 0;
}

-- A user that comes in alone makes both series.
abbrev first_in : Gauges
first_in = turns (0 ∷ 0 ∷ 0 ∷ 0 ∷ 0 ∷ 0 ∷ 0 ∷ []) fresh

alone :
    (first_in.cells.active ≡ some 0)
    × (◌≡◌ {A = ℤ} (first_in.cells.values 0) (pos 1))
    × (first_in.cells.peak ≡ some 1)
    × (◌≡◌ {A = ℤ} (first_in.cells.values 1) (pos 1))
    × (first_in.vus 0 ≡ inside)
unfolding gauge_step vu_step active_users ℕ_discrete
alone = (refl, refl, refl, refl, refl)

-- Both users find no series of the active users, and each makes one: the second replaces the first,
-- so with two active users both gauges stay at 1.
abbrev raced : Gauges
raced = turns (0 ∷ 1 ∷ 0 ∷ 1 ∷ 0 ∷ 1 ∷ 0 ∷ 0 ∷ 0 ∷ 0 ∷ 1 ∷ 1 ∷ 1 ∷ []) fresh

both_enter :
    (raced.cells.active ≡ some 1)
    × (◌≡◌ {A = ℤ} (raced.cells.values 1) (pos 1))
    × (raced.cells.peak ≡ some 2)
    × (◌≡◌ {A = ℤ} (raced.cells.values 2) (pos 1))
    × (raced.highest ≡ 2)
    × (raced.vus 0 ≡ inside)
    × (raced.vus 1 ≡ inside)
unfolding gauge_step vu_step active_users ℕ_discrete
both_enter = (refl, refl, refl, refl, refl, refl, refl)
