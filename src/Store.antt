-- ===== src/Store.antt =====
-- wrkr-shared/src/store.rs: the store that all users share. A mutex guards it, so the part of a
-- function that holds the lock is one transition. The notifier that `set` and `incr` bump after
-- they gave up the lock is bumped in the same step here; `incr` also reads the counter again after
-- that, for its result. `tokio::sync::watch` is the parameter `Watch`; of a barrier the number of
-- its parties is kept.
pub mod Counter
pub mod Barriers
mod Runs
use wrkr.Prelude.{
  ℕ, ◌^◌, ◌-◌, Bool, true, false, Option, none, some, String, ◌==◌, if◌then◌else◌, wrapping_add,
  List, [], ◌∷◌,
}
use wrkr.Prelude.Int.{ℤ, pos, neg, ◌+ℤ◌, min_ℤ, max_ℤ}
use wrkr.Prelude.Dict.{Dict, lookup, insert, remove}
use wrkr.Value.{Value, as_i64}

-- A sending end of a watch channel over u64.
pub record Watch : Type 1 where
  pub Sender : Type 0
  pub channel : Sender
  pub borrow : Sender → ℕ
  pub send : ℕ → Sender → Sender

pub record SharedStore (S : Type 0) : Type 0 where
  pub values : Dict Value
  pub notifies : Dict S
  pub barriers : Dict ℕ

pub data SharedBarrierError : Type 0 where
  invalid_parties : SharedBarrierError
  parties_mismatch : (expected got : ℕ) → SharedBarrierError

pub data BarrierResult : Type 0 where
  ok : BarrierResult
  err : SharedBarrierError → BarrierResult

-- `i64::saturating_add`
pub saturating_add_i64 : ℤ → ℤ → ℤ
unfolding ◌+ℤ◌
saturating_add_i64 a b = min_ℤ (max_ℤ (a +ℤ b) (neg (2 ^ 63))) (pos (2 ^ 63 - 1))

abbrev pub counter_of : Option Value → ℤ
counter_of none = pos 0
counter_of (some v) = elim (as_i64 v) [ some n ↦ n | none ↦ pos 0 ]

module _ (w : Watch) where
  abbrev pub default : SharedStore w.Sender
  default = record { values = []; notifies = []; barriers = [] }

  -- `if let Some(notify) = notify { … notify.send(next) }`
  pub bump : String → Dict w.Sender → Dict w.Sender
  bump key notifies = elim (lookup key notifies) [
    | none ↦ notifies
    | some sender ↦
        let next = wrapping_add (w.borrow sender) 1 in insert key (w.send next sender) notifies
  ]

  pub set : String → Value → SharedStore w.Sender → SharedStore w.Sender
  unfolding bump
  set key value s = record s { values = insert key value s.values; notifies = bump key s.notifies }

  pub get : String → SharedStore w.Sender → Option Value
  get key s = lookup key s.values

  pub delete : String → SharedStore w.Sender → SharedStore w.Sender
  delete key s = record s { values = remove key s.values }

  pub get_counter : String → SharedStore w.Sender → ℤ
  unfolding get
  get_counter key s = counter_of (get key s)

  -- `incr` up to its last line, under the lock and after it.
  pub incr_update : String → ℤ → SharedStore w.Sender → SharedStore w.Sender
  unfolding bump
  incr_update key delta s =
      let cur = counter_of (lookup key s.values) in
      let next = saturating_add_i64 cur delta in
      record s { values = insert key (Value.i64 next) s.values; notifies = bump key s.notifies }

  -- `incr` when no other user comes between its update and its final read.
  pub incr : String → ℤ → SharedStore w.Sender → SharedStore w.Sender × ℤ
  unfolding incr_update get_counter
  incr key delta s = let s' = incr_update key delta s in (s', get_counter key s')

  -- `wait_for_key` up to its loop: `none` where the key is there, else the store with a sender.
  pub wait_register : String → SharedStore w.Sender → Option (SharedStore w.Sender)
  wait_register key s = elim (lookup key s.values) [
    | some v ↦ none
    | none ↦ elim (lookup key s.notifies) [
      | some sender ↦ some s
      | none ↦ some (record s { notifies = insert key w.channel s.notifies })
    ]
  ]

  -- `barrier_wait` up to the wait on the barrier.
  pub barrier_enter : String → ℕ → SharedStore w.Sender → SharedStore w.Sender × BarrierResult
  barrier_enter name parties s =
      let entered : SharedStore w.Sender × BarrierResult = elim (lookup name s.barriers) [
        | none ↦ (record s { barriers = insert name parties s.barriers }, ok)
        | some expected ↦
            (s, if expected == parties then ok else err (parties_mismatch expected parties))
      ] in
      if parties == 0 then (s, err invalid_parties) else entered

  -- A step of some user: any operation up to the point where it gives up the lock.
  pub data Op : Type 0 where
    set_op : String → Value → Op
    delete_op : String → Op
    incr_op : String → ℤ → Op
    wait_op : String → Op
    barrier_op : String → ℕ → Op

  abbrev pub registered :
      Option (SharedStore w.Sender) → SharedStore w.Sender → SharedStore w.Sender
  registered (some s') s = s'
  registered none s = s

  pub apply : SharedStore w.Sender → Op → SharedStore w.Sender
  unfolding set delete incr_update wait_register barrier_enter
  apply s (set_op key value) = set key value s
  apply s (delete_op key) = delete key s
  apply s (incr_op key delta) = incr_update key delta s
  apply s (wait_op key) = registered (wait_register key s) s
  apply s (barrier_op name parties) = (barrier_enter name parties s).0

  -- Any interleaving of the users' steps.
  pub run : SharedStore w.Sender → List Op → SharedStore w.Sender
  run s [] = s
  run s (op ∷ ops) = run (apply s op) ops
