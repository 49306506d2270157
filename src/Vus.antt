-- ===== src/Vus.antt =====
-- wrkr-core/src/vu.rs: the start signal that the virtual users wait for, and the gauges of the active
-- users and of their peak, under every interleaving of their atomic operations.
pub mod Start
pub mod Counted
pub mod Highest
pub mod Holding
pub mod Followed
pub mod ActiveUsers
pub mod Peak
mod Runs
use wrkr.Prelude.{
  ℕ, zero, suc, ◌+◌, ◌-◌, ◌^◌, ◌<◌, ◌≡◌, Bool, true, false, ◌&&◌, Option, none, some, max, ◌==◌,
  if◌then◌else◌,
}
use wrkr.Prelude.Int.{ℤ, pos, pos_part, neg_part, ◌+ℤ◌, min_ℤ, ltb_ℤ}
use wrkr.Registry.Writes.{wrapping_add_i64, wrapping_sub_i64}
use wrkr.Pacer.System.{Notify, update}

-- Where a user stands in `StartSignal::wait`: it loads `started`, creates the future `notified()`,
-- and awaits it; and where the task stands that calls `start`.
pub data Waiter : Type 0 where
  top parking waiting released : Waiter

pub data Starter : Type 0 where
  storing notifying finished : Starter

pub record StartSignal (S : Type 0) : Type 0 where
  pub started : Bool
  pub starter : Starter
  pub waiters : ℕ → Waiter
  pub notify : S

module _ (n : Notify) where
  abbrev pub init : StartSignal n.State
  init = record { started = false; starter = storing; waiters = λ i. top; notify = n.idle }

  pub data Step (s t : StartSignal n.State) : Type 0 where
    store : s.starter ≡ storing → t ≡ record s { started = true; starter = notifying } → Step s t
    wake_all :
        s.starter ≡ notifying
        → t ≡ record s { starter = finished; notify = n.notify_waiters s.notify }
        → Step s t
    load :
        (i : ℕ)
        → s.waiters i ≡ top
        → t ≡ record s { waiters = update s.waiters i (if s.started then released else parking) }
        → Step s t
    park :
        (i : ℕ)
        → s.waiters i ≡ parking
        → t ≡ record s { waiters = update s.waiters i waiting; notify = n.register s.notify i }
        → Step s t
    resume :
        (i : ℕ)
        → s.waiters i ≡ waiting
        → n.is_waiting s.notify i ≡ false
        → t ≡ record s { waiters = update s.waiters i top }
        → Step s t

  pub data Reach (s : StartSignal n.State) : StartSignal n.State → Type 0 where
    here : Reach s s
    next : {t u : StartSignal n.State} → Reach s t → Step t u → Reach s u

-- Where a user stands in `enter_active_vu` and in the drop of its `ActiveVuGuard`: looking up the
-- gauge of the active users or that of the peak, with what `get_handle` has found or is about to
-- insert, and in the loop on the peak. `cell` is the `Arc` behind a handle.
pub data Entering : Type 0 where
  outside : Entering
  making_active : Entering
  counting : (cell : ℕ) → Entering
  entered : (new_active : ℤ) → Entering
  making_peak : (new_active : ℤ) → Entering
  raising : (new_active : ℤ) (cell : ℕ) → Entering
  comparing : (new_active : ℤ) (cell : ℕ) (cur : ℤ) → Entering
  inside : Entering
  making_again : Entering
  leaving : (cell : ℕ) → Entering

-- What the users of a scenario share: the cells that the maps of `vu_active` and `vu_active_max` have
-- under the tags of the scenario, the next new `Arc`, and what each `Arc` holds. That `register` gave
-- both metrics as gauges is taken for granted.
pub record GaugeCells : Type 0 where
  pub active : Option ℕ
  pub peak : Option ℕ
  pub next_cell : ℕ
  pub values : ℕ → ℤ

abbrev pub eq_ℤ : ℤ → ℤ → Bool
eq_ℤ a b = pos_part a + neg_part b == pos_part b + neg_part a

-- `i64::saturating_add` of 1
abbrev pub saturating_inc_i64 : ℤ → ℤ
saturating_inc_i64 z = min_ℤ (z +ℤ pos 1) (pos (2 ^ 63 - 1))

abbrev pub set_value : ℕ → ℤ → GaugeCells → GaugeCells
set_value cell z g = record g { values = update g.values cell z }

-- A new gauge behind a new `Arc`.
abbrev pub new_gauge : GaugeCells → GaugeCells
new_gauge g = record g { values = update g.values g.next_cell (pos 0); next_cell = g.next_cell + 1 }

-- What follows the lookup of a series: with its handle, or about to insert one.
abbrev pub found_or : Entering → (ℕ → Entering) → Option ℕ → Entering
found_or missing found none = missing
found_or missing found (some cell) = found cell

-- One operation of a user: the lookup of `get_handle`, its insertion, `fetch_add`, the load, a turn
-- of the loop, and `fetch_sub`. `lucky` is false where `compare_exchange_weak` fails spuriously.
unfoldable pub vu_step : Bool → GaugeCells → Entering → GaugeCells × Entering
unfolding ◌+ℤ◌ wrapping_add_i64 wrapping_sub_i64
vu_step lucky g outside = (g, found_or making_active counting g.active)
vu_step lucky g making_active =
    (record (new_gauge g) { active = some g.next_cell }, counting g.next_cell)
vu_step lucky g (counting cell) = (
  set_value cell (wrapping_add_i64 (g.values cell) (pos 1)) g,
  entered (saturating_inc_i64 (g.values cell)),
)
vu_step lucky g (entered new_active) =
    (g, found_or (making_peak new_active) (raising new_active) g.peak)
vu_step lucky g (making_peak new_active) =
    (record (new_gauge g) { peak = some g.next_cell }, raising new_active g.next_cell)
vu_step lucky g (raising new_active cell) = (g, comparing new_active cell (g.values cell))
vu_step lucky g (comparing new_active cell cur) =
    if ltb_ℤ cur new_active
    then (if eq_ℤ (g.values cell) cur && lucky
        then (set_value cell new_active g, inside)
        else (g, comparing new_active cell (g.values cell)))
    else (g, inside)
vu_step lucky g inside = (g, found_or making_again leaving g.active)
vu_step lucky g making_again =
    (record (new_gauge g) { active = some g.next_cell }, leaving g.next_cell)
vu_step lucky g (leaving cell) =
    (set_value cell (wrapping_sub_i64 (g.values cell) (pos 1)) g, outside)

-- The user has added itself and has not taken itself away.
abbrev pub is_active : Entering → ℕ
is_active outside = 0
is_active making_active = 0
is_active (counting cell) = 0
is_active (entered new_active) = 1
is_active (making_peak new_active) = 1
is_active (raising new_active cell) = 1
is_active (comparing new_active cell cur) = 1
is_active inside = 1
is_active making_again = 1
is_active (leaving cell) = 1

-- How many of the first `n` users are active.
unfoldable pub active_users : ℕ → (ℕ → Entering) → ℕ
active_users zero vus = 0
active_users (suc n) vus = is_active (vus n) + active_users n vus

-- `highest` only watches: the largest number of active users so far.
pub record Gauges : Type 0 where
  pub cells : GaugeCells
  pub vus : ℕ → Entering
  pub highest : ℕ

unfoldable pub gauge_step : ℕ → Bool → ℕ → Gauges → Gauges
gauge_step n lucky i g =
    let (cells, vu) = vu_step lucky g.cells (g.vus i) in
    let vus = update g.vus i vu in
    record { cells = cells; vus = vus; highest = max g.highest (active_users n vus) }

-- The states that some order of the operations of `n` users leads to.
pub data GaugeReach (n : ℕ) (start : Gauges) : Gauges → Type 0 where
  begin : GaugeReach n start start
  step :
      (lucky : Bool) (i : ℕ) {g : Gauges}
      → i < n
      → GaugeReach n start g
      → GaugeReach n start (gauge_step n lucky i g)
