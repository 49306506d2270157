-- ===== src/Pacer/Runs.antt =====
-- A concrete notifier, tests, and the theorems at concrete inputs.
use wrkr.Prelude.{ℕ, ◌+◌, ◌≤◌, ◌≡◌, refl, Bool, true, false, none, some, arith, ℕ_discrete}
use mathlib.Core.Logic.{if_pos, if_neg}
use wrkr.Pacer.{
  new, update_due, update_active_vus, add_tokens, to_add, store_active_vus, clamp_desired,
  desired_vus,
}
use wrkr.Pacer.System.{Notify, idle, start, waiting, update, System, init, Reach, here, next, offer}
use wrkr.Pacer.Invariant.{IsPaced, Reach-IsPaced}
use wrkr.Pacer.Wakeup.{lost_wakeup}
use wrkr.Pacer.Sequential.{IsSteady, IsUpdated, update_due-IsUpdated}

-- The set of the tasks that wait.
abbrev waiters : Notify
waiters = record {
  State = ℕ → Bool;
  idle = λ i. false;
  register = λ s i. update s i true;
  notify_waiters = λ s i. false;
  is_waiting = λ s i. s i;
  register_waits = λ s i. if_pos (ℕ_discrete i i) refl true (s i);
  register_other = λ s i j h. if_neg (ℕ_discrete i j) h true (s j);
  wakes_all = λ s i. refl;
}

-- Five tokens for at most three users: three are scheduled, two dropped, and all users are active.
burst :
    update_due 5 (new 1 3)
    ≡ some (record {
      scheduled_total = 3;
      claimed_total = 0;
      dropped_total = 2;
      active_vus = 3;
      pre_allocated_vus = 1;
      max_vus = 3;
      done = false;
    })
unfolding update_due update_active_vus add_tokens to_add store_active_vus clamp_desired desired_vus
burst = refl

no_users : update_due 0 (new 0 0) ≡ none
unfolding update_due update_active_vus store_active_vus clamp_desired
no_users = refl

abbrev offered_five : System waiters.State
offered_five = record (init waiters 1 3) { updater = start 5; offered = 5 }

Reach-IsPaced_example : IsPaced (new 1 3) 5 5 × (◌≡◌ {A = ℕ} 0 0) × (0 + 0 ≤ 5)
Reach-IsPaced_example =
    Reach-IsPaced waiters 1 3 offered_five (omega arith) (omega arith)
      (next here (offer 5 refl (omega arith) refl))

lost_wakeup_example :
    (s : System waiters.State) × Reach waiters (init waiters 2 4) s
    × (s.pacer.done ≡ true)
    × (s.pacer.scheduled_total ≡ s.pacer.claimed_total)
    × ((t : System waiters.State) → Reach waiters s t → t.users 0 ≡ waiting)
lost_wakeup_example = lost_wakeup waiters 2 4

init-IsSteady : IsSteady (init waiters 1 3).pacer
init-IsSteady = record {
  claimed_scheduled = omega arith;
  bounded = omega arith;
  users = (omega arith, omega arith, omega arith);
}

update_due-IsUpdated_example :
    (t : System waiters.State) × Reach waiters (init waiters 1 3) t
    × (update_due 5 (init waiters 1 3).pacer ≡ some t.pacer)
    × (t.updater ≡ idle)
    × (t.users ≡ (init waiters 1 3).users)
    × IsUpdated 5 (init waiters 1 3).pacer t.pacer
update_due-IsUpdated_example =
    update_due-IsUpdated waiters (init waiters 1 3) 5 refl (omega arith) init-IsSteady (omega arith)
      (omega arith)
