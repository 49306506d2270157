-- ===== src/Vus/ActiveUsers.antt =====
-- How many users are active: what one user's operation makes of the number.
use wrkr.Prelude.{ℕ, zero, suc, ◌+◌, ◌≤◌, ◌<◌, ◌≡◌, ◌≢◌, refl, ap, arith, ℕ_discrete}
use mathlib.Core.Logic.{if_pos, if_neg}
use wrkr.Pacer.System.{update}
use wrkr.Vus.{
  Entering, outside, making_active, counting, entered, making_peak, raising, comparing, inside,
  making_again, leaving, is_active, active_users,
}

is_active-le : (v : Entering) → is_active v ≤ 1
is_active-le outside = omega arith
is_active-le making_active = omega arith
is_active-le (counting cell) = omega arith
is_active-le (entered a) = omega arith
is_active-le (making_peak a) = omega arith
is_active-le (raising a cell) = omega arith
is_active-le (comparing a cell cur) = omega arith
is_active-le inside = omega arith
is_active-le making_again = omega arith
is_active-le (leaving cell) = omega arith

pub active_users-le : (n : ℕ) (vus : ℕ → Entering) → active_users n vus ≤ n
unfolding active_users
active_users-le zero vus = omega arith
active_users-le (suc n) vus = omega (arith, active_users-le n vus, is_active-le (vus n))

active_users-beyond :
    (n i : ℕ) (vus : ℕ → Entering) (v : Entering)
    → n ≤ i
    → active_users n (update vus i v) ≡ active_users n vus
unfolding active_users
active_users-beyond zero i vus v h = refl
active_users-beyond (suc n) i vus v h =
    let apart : i ≢ n = λ e. omega (arith, e) in
    let same = ap is_active (if_neg (ℕ_discrete i n) apart v (vus n)) in
    omega (arith, same, active_users-beyond n i vus v (omega arith))

pub active_users-update :
    (n i : ℕ) (vus : ℕ → Entering) (v : Entering)
    → i < n
    → active_users n (update vus i v) + is_active (vus i) ≡ active_users n vus + is_active v
unfolding active_users
active_users-update zero i vus v h = absurd (omega arith)
active_users-update (suc n) i vus v h = elim (ℕ_discrete i n) [
  | yes e ↦
      let here = ap is_active (if_pos (ℕ_discrete i n) e v (vus n)) in
      let there : is_active (vus i) ≡ is_active (vus n) = ap (λ (k : ℕ). is_active (vus k)) e in
      omega (arith, here, there, active_users-beyond n i vus v (omega (arith, e)))
  | no apart ↦
      let same = ap is_active (if_neg (ℕ_discrete i n) apart v (vus n)) in
      let below : i < n = omega (arith, apart) in
      omega (arith, same, active_users-update n i vus v below)
]
