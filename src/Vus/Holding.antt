-- ===== src/Vus/Holding.antt =====
-- What relates the gauges of wrkr-core/src/vu.rs to the plain counting of Vus/Counted, and their
-- machine arithmetic to that of the numbers.
use wrkr.Prelude.{ℕ, ◌+◌, ◌-◌, ◌^◌, ◌<◌, ◌≡◌, ◌≢◌, ◌⊎◌, Bool, some, ltb, ◌==◌, arith, ℕ_discrete}
use mathlib.Core.Logic.{if_neg}
use wrkr.Prelude.Int.{ℤ, pos, negsuc, pos_part, ◌+ℤ◌, ltb_ℤ}
use wrkr.Registry.Writes.{wrapping_add_i64, wrapping_sub_i64}
use wrkr.Pacer.System.{update}
use wrkr.Vus.{
  Entering, outside, making_active, counting, entered, making_peak, raising, comparing, inside,
  making_again, leaving, GaugeCells, eq_ℤ, saturating_inc_i64, is_active,
}
use wrkr.Vus.Counted.{Position, away, added, compared, joined, count_step}

-- Where the user stands in the plain counting.
abbrev pub position : Entering → Position
position outside = away
position making_active = away
position (counting cell) = away
position (entered a) = added (pos_part a)
position (making_peak a) = added (pos_part a)
position (raising a cell) = added (pos_part a)
position (comparing a cell cur) = compared (pos_part a) (pos_part cur)
position inside = joined
position making_again = joined
position (leaving cell) = joined

abbrev pub IsNat : ℤ → Type 0
IsNat (pos n) = Unit
IsNat (negsuc n) = ⊥

-- The user has no gauge but the two, and makes none.
abbrev pub IsProper : ℕ → ℕ → Entering → Type 0
IsProper c d outside = Unit
IsProper c d making_active = ⊥
IsProper c d (counting cell) = cell ≡ c
IsProper c d (entered a) = IsNat a
IsProper c d (making_peak a) = ⊥
IsProper c d (raising a cell) = IsNat a × (cell ≡ d)
IsProper c d (comparing a cell cur) = IsNat a × IsNat cur × (cell ≡ d)
IsProper c d inside = Unit
IsProper c d making_again = ⊥
IsProper c d (leaving cell) = cell ≡ c

-- The two series exist, at different cells, and hold these numbers.
pub record IsHolding (c d x y : ℕ) (g : GaugeCells) : Type 0 where
  pub apart : c ≢ d
  pub active_at : g.active ≡ some c
  pub peak_at : g.peak ≡ some d
  pub active_is : g.values c ≡ pos x
  pub peak_is : g.values d ≡ pos y

pub record IsFollowed (lucky : Bool) (c d x y : ℕ) (v : Entering) (s : GaugeCells × Entering)
    : Type 0 where
  pub x' : ℕ
  pub y' : ℕ
  pub holding : IsHolding c d x' y' s.0
  pub proper : IsProper c d s.1
  pub counts : x' + is_active v ≡ x + is_active s.1
  pub moves :
      (count_step lucky x y (position v) ≡ (x', y', position s.1))
      ⊎ ((x' ≡ x) × (y' ≡ y) × (position s.1 ≡ position v))

pub update_other : (f : ℕ → ℤ) (i j : ℕ) (z : ℤ) → i ≢ j → update f i z j ≡ f j
update_other f i j z apart = if_neg (ℕ_discrete i j) apart z (f j)

pub wrapping_add_i64-one : (x : ℕ) → x + 1 < 2 ^ 63 → wrapping_add_i64 (pos x) (pos 1) ≡ pos (x + 1)
unfolding wrapping_add_i64
wrapping_add_i64-one x h = ground arith

pub wrapping_sub_i64-one :
    (x : ℕ) → 0 < x → x < 2 ^ 63 → wrapping_sub_i64 (pos x) (pos 1) ≡ pos (x - 1)
unfolding wrapping_sub_i64
wrapping_sub_i64-one x p h = ground arith

pub saturating_inc_i64-pos : (x : ℕ) → x + 1 < 2 ^ 63 → saturating_inc_i64 (pos x) ≡ pos (x + 1)
unfolding ◌+ℤ◌
saturating_inc_i64-pos x h = ground arith

pub ltb_ℤ-pos : (a b : ℕ) → ltb_ℤ (pos a) (pos b) ≡ ltb a b
ltb_ℤ-pos a b = ground arith

pub eq_ℤ-pos : (a b : ℕ) → eq_ℤ (pos a) (pos b) ≡ (a == b)
eq_ℤ-pos a b = ground arith
