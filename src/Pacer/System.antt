-- ===== src/Pacer/System.antt =====
-- The pacer under every interleaving of its atomic operations: the task of wrkr-core/src/run.rs
-- that calls `update_due` and `mark_done`, and any number of virtual users in `claim_next`.
-- A transition is one atomic load, store, addition or compare-and-exchange.
-- `tokio::sync::Notify` is the parameter `Notify`, by what its documentation says of
-- `notify_waiters`: it wakes the tasks that wait, and stores no permit for a later one.
use wrkr.Prelude.{
  ℕ, ◌+◌, ◌-◌, ◌≤◌, ◌≡◌, ◌≢◌, Bool, true, false, Option, some, ltb, leb, ◌&&◌, none, ◌>>=◌, ◌==◌,
  if◌then◌else◌, saturating_add, wrapping_add, u64_max, ℕ_discrete,
}
use mathlib.Core.Logic.{ite}
use wrkr.Pacer.{ArrivalPacer, new, to_add, store_active_vus, mark_done}

pub record Notify : Type 1 where
  pub State : Type 0
  pub idle : State
  pub register : State → ℕ → State
  pub notify_waiters : State → State
  pub is_waiting : State → ℕ → Bool
  pub register_waits : (s : State) (i : ℕ) → is_waiting (register s i) i ≡ true
  pub register_other : (s : State) (i j : ℕ) → i ≢ j → is_waiting (register s i) j ≡ is_waiting s j
  pub wakes_all : (s : State) (i : ℕ) → is_waiting (notify_waiters s) i ≡ false

-- Where the pacing task stands: in `update_due`, in `update_active_vus`, or in `mark_done`.
-- `then_notify` tells whether `update_due` notifies after it has refreshed the active users.
pub data Updater : Type 0 where
  idle : Updater
  start : (add_due : ℕ) → Updater
  saw_claimed : (add_due claimed : ℕ) → Updater
  saw_both : (add_due claimed scheduled : ℕ) → Updater
  dropping : (dropped : ℕ) → Updater
  refreshing : (then_notify : Bool) → Updater
  refresh_claimed : (then_notify : Bool) (claimed : ℕ) → Updater
  refresh_both : (then_notify : Bool) (claimed scheduled : ℕ) → Updater
  notifying : Updater
  finishing : Updater
  finished : Updater

-- Where a virtual user stands in `claim_next`; `running` and `stopped` are its two results.
pub data User : Type 0 where
  top : User
  draining : User
  draining_claimed : (claimed : ℕ) → User
  loading : User
  loaded_claimed : (claimed : ℕ) → User
  loaded_both : (claimed scheduled : ℕ) → User
  parking : User
  waiting : User
  running : User
  stopped : User

-- What the two `fetch_add` of `update_due` store.
abbrev pub set_scheduled : ArrivalPacer → ℕ → ArrivalPacer
set_scheduled p added = record p {
  scheduled_total = if added == 0 then p.scheduled_total else wrapping_add p.scheduled_total added;
}

abbrev pub set_dropped : ArrivalPacer → ℕ → ArrivalPacer
set_dropped p dropped = record p {
  dropped_total = if dropped == 0 then p.dropped_total else wrapping_add p.dropped_total dropped;
}

abbrev pub after_refresh : Bool → Updater
after_refresh true = notifying
after_refresh false = idle

-- One operation of the pacing task inside `update_due`; `none` is a panic, or no operation.
unfoldable pub pace_step : ArrivalPacer → Updater → Option (ArrivalPacer × Updater)
pace_step p (start add_due) =
    if add_due == 0
    then some (p, refreshing false)
    else some (p, saw_claimed add_due p.claimed_total)
pace_step p (saw_claimed add_due claimed) = some (p, saw_both add_due claimed p.scheduled_total)
pace_step p (saw_both add_due claimed scheduled) =
    let added = to_add p claimed scheduled add_due in
    some (set_scheduled p added, dropping (add_due - added))
pace_step p (dropping dropped) = some (set_dropped p dropped, refreshing true)
pace_step p (refreshing b) = some (p, refresh_claimed b p.claimed_total)
pace_step p (refresh_claimed b claimed) = some (p, refresh_both b claimed p.scheduled_total)
pace_step p (refresh_both b claimed scheduled) = do
  p' ← store_active_vus claimed scheduled p
  some (p', after_refresh b)
pace_step p _ = none

-- One operation of a user inside `claim_next`. `lucky` is false where `compare_exchange_weak`
-- fails spuriously.
unfoldable pub claim_step : Bool → ArrivalPacer → User → Option (ArrivalPacer × User)
claim_step lucky p top = some (p, if p.done then draining else loading)
claim_step lucky p draining = some (p, draining_claimed p.claimed_total)
claim_step lucky p (draining_claimed claimed) =
    some (p, if leb p.scheduled_total claimed then stopped else loading)
claim_step lucky p loading = some (p, loaded_claimed p.claimed_total)
claim_step lucky p (loaded_claimed claimed) = some (p, loaded_both claimed p.scheduled_total)
claim_step lucky p (loaded_both claimed scheduled) =
    if ltb claimed scheduled
    then (if p.claimed_total == claimed && lucky
        then some (record p { claimed_total = saturating_add claimed 1 }, running)
        else some (p, top))
    else some (p, parking)
claim_step lucky p running = some (p, top)
claim_step lucky p _ = none

abbrev pub update {ℓ} : {A : Type ℓ} → (ℕ → A) → ℕ → A → ℕ → A
update f i a j = ite (ℕ_discrete i j) a (f j)

abbrev pub claims : User → ℕ
claims running = 1
claims _ = 0

-- `offered` and `iterations` only count: the tokens that `update_due` was given, and the claims.
pub record System (S : Type 0) : Type 0 where
  pub pacer : ArrivalPacer
  pub updater : Updater
  pub users : ℕ → User
  pub notify : S
  pub offered : ℕ
  pub iterations : ℕ

module _ (n : Notify) where
  open n use {State, register, notify_waiters, is_waiting}

  abbrev pub init : ℕ → ℕ → System State
  init pre_allocated_vus max_vus = record {
    pacer = new pre_allocated_vus max_vus;
    updater = idle;
    users = λ i. top;
    notify = n.idle;
    offered = 0;
    iterations = 0;
  }

  -- The pacing task is given due tokens that keep the total a u64, or marks the pacer done.
  pub data Step (s t : System State) : Type 0 where
    offer :
        (add_due : ℕ)
        → s.updater ≡ idle
        → s.offered + add_due ≤ u64_max
        → t ≡ record s { updater = start add_due; offered = s.offered + add_due }
        → Step s t
    pace :
        (p : ArrivalPacer) (u : Updater)
        → pace_step s.pacer s.updater ≡ some (p, u)
        → t ≡ record s { pacer = p; updater = u }
        → Step s t
    wake_all :
        s.updater ≡ notifying
        → t ≡ record s { updater = idle; notify = notify_waiters s.notify }
        → Step s t
    finish :
        s.updater ≡ idle
        → t ≡ record s { pacer = mark_done s.pacer; updater = finishing }
        → Step s t
    wake_last :
        s.updater ≡ finishing
        → t ≡ record s { updater = finished; notify = notify_waiters s.notify }
        → Step s t
    claim :
        (i : ℕ) (lucky : Bool) (p : ArrivalPacer) (u : User)
        → claim_step lucky s.pacer (s.users i) ≡ some (p, u)
        → t
          ≡ record s { pacer = p; users = update s.users i u; iterations = s.iterations + claims u }
        → Step s t
    park :
        (i : ℕ)
        → s.users i ≡ parking
        → t ≡ record s { users = update s.users i waiting; notify = register s.notify i }
        → Step s t
    resume :
        (i : ℕ)
        → s.users i ≡ waiting
        → is_waiting s.notify i ≡ false
        → t ≡ record s { users = update s.users i top }
        → Step s t

  pub data Reach (s : System State) : System State → Type 0 where
    here : Reach s s
    next : {t u : System State} → Reach s t → Step t u → Reach s u
