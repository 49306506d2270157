-- ===== src/Pacer.antt =====
-- wrkr-core/src/pacer.rs: the tokens of an open arrival-rate scenario. One task adds due tokens
-- (`update_due`), the virtual users claim them (`claim_next`). The counters are 64-bit atomics,
-- `fetch_add` wraps.
pub mod System
pub mod Invariant
pub mod Wakeup
pub mod Sequential
mod Runs
use wrkr.Prelude.{
  ℕ, ◌+◌, ◌-◌, min, max, Bool, true, false, Option, none, some, ltb, leb, ◌==◌, if◌then◌else◌,
  ◌>>=◌, saturating_add, wrapping_add,
}

pub record ArrivalPacer : Type 0 where
  pub scheduled_total : ℕ
  pub claimed_total : ℕ
  pub dropped_total : ℕ
  pub active_vus : ℕ
  pub pre_allocated_vus : ℕ
  pub max_vus : ℕ
  pub done : Bool

abbrev pub new : ℕ → ℕ → ArrivalPacer
new pre_allocated_vus max_vus = record {
  scheduled_total = 0;
  claimed_total = 0;
  dropped_total = 0;
  active_vus = pre_allocated_vus;
  pre_allocated_vus = pre_allocated_vus;
  max_vus = max_vus;
  done = false;
}

abbrev pub mark_done : ArrivalPacer → ArrivalPacer
mark_done p = record p { done = true }

-- `desired.clamp(1, self.max_vus)` panics, which is `none`, where `max_vus` is 0.
pub clamp_desired : ℕ → ℕ → Option ℕ
clamp_desired desired max_vus = if ltb max_vus 1 then none else some (min (max desired 1) max_vus)

pub desired_vus : ℕ → ℕ → ℕ
desired_vus pre_allocated_vus backlog =
    if backlog == 0 then pre_allocated_vus else max pre_allocated_vus (saturating_add backlog 1)

-- `claimed` and `scheduled` are the values that the two loads saw.
pub store_active_vus : ℕ → ℕ → ArrivalPacer → Option ArrivalPacer
unfolding clamp_desired desired_vus
store_active_vus claimed scheduled p = do
  desired ← clamp_desired (desired_vus p.pre_allocated_vus (scheduled - claimed)) p.max_vus
  some (record p { active_vus = desired })

-- What `update_due` adds to the schedule, and what it drops, for the loads that it made.
pub to_add : ArrivalPacer → ℕ → ℕ → ℕ → ℕ
to_add p claimed scheduled add_due =
    let backlog = scheduled - claimed in
    let max_backlog = max p.max_vus 1 in min add_due (max_backlog - backlog)

pub add_tokens : ℕ → ℕ → ℕ → ArrivalPacer → ArrivalPacer
unfolding to_add
add_tokens claimed scheduled add_due p =
    let added = to_add p claimed scheduled add_due in
    let dropped = add_due - added in
    record p {
      scheduled_total =
          if added == 0 then p.scheduled_total else wrapping_add p.scheduled_total added;
      dropped_total =
          if dropped == 0 then p.dropped_total else wrapping_add p.dropped_total dropped;
    }

-- `update_due` when no user claims a token during the call. `Pacer/System` splits it at its loads.
pub update_active_vus : ArrivalPacer → Option ArrivalPacer
update_active_vus p = store_active_vus p.claimed_total p.scheduled_total p

pub update_due : ℕ → ArrivalPacer → Option ArrivalPacer
unfolding update_active_vus
update_due add_due p =
    if add_due == 0
    then update_active_vus p
    else update_active_vus (add_tokens p.claimed_total p.scheduled_total add_due p)
