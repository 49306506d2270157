-- ===== src/Vus/Peak.antt =====
-- The gauges of the active users and of their peak, under every interleaving of the users' operations.
use wrkr.Prelude.{
  ℕ, ◌^◌, ◌≤◌, ◌<◌, ◌≡◌, refl, sym, ap, ◌∙◌, subst, ◌⊎◌, Bool, inl, inr, arith, ℕ_discrete,
}
use mathlib.Core.Logic.{if_pos, if_neg}
use wrkr.Prelude.Int.{pos}
use wrkr.Pacer.System.{update}
use wrkr.Vus.{
  Entering, outside, making_active, counting, entered, making_peak, raising, comparing, inside,
  making_again, leaving, GaugeCells, Gauges, vu_step, gauge_step, GaugeReach, begin, step,
  active_users,
}
use wrkr.Vus.Counted
use wrkr.Vus.Counted.{Position, Counted, IsDone, count_step, counted_step, CountedReach}
use wrkr.Vus.Highest.{peak-eq-highest, active-le-highest}
use wrkr.Vus.Holding.{position, IsProper, IsHolding, IsFollowed}
use wrkr.Vus.Followed.{vu_step-IsFollowed}
use wrkr.Vus.ActiveUsers.{active_users-le, active_users-update}
use wrkr.Vus.Start.{update_cases}

-- Both gauges have their series under the tags of the scenario, the first holds how many users are
-- active, no user is under way, and the peak is no lower.
pub record IsReady (n c d : ℕ) (g : Gauges) : Type 0 where
  pub holding : IsHolding c d (active_users n g.vus) g.highest g.cells
  pub settled : (i : ℕ) → (g.vus i ≡ outside) ⊎ (g.vus i ≡ inside)
  pub peak_above : active_users n g.vus ≤ g.highest

-- The user is not between its `fetch_add` and the end of its loop.
abbrev pub IsSettled : Entering → Type 0
IsSettled (entered a) = ⊥
IsSettled (making_peak a) = ⊥
IsSettled (raising a cell) = ⊥
IsSettled (comparing a cell cur) = ⊥
IsSettled outside = Unit
IsSettled making_active = Unit
IsSettled (counting cell) = Unit
IsSettled inside = Unit
IsSettled making_again = Unit
IsSettled (leaving cell) = Unit

settled-IsDone : (v : Entering) → IsSettled v → IsDone (position v)
settled-IsDone outside h = tt
settled-IsDone making_active h = tt
settled-IsDone (counting cell) h = tt
settled-IsDone (entered a) h = h
settled-IsDone (making_peak a) h = h
settled-IsDone (raising a cell) h = h
settled-IsDone (comparing a cell cur) h = h
settled-IsDone inside h = tt
settled-IsDone making_again h = tt
settled-IsDone (leaving cell) h = tt

settled-IsProper : (c d : ℕ) (v : Entering) → (v ≡ outside) ⊎ (v ≡ inside) → IsProper c d v
settled-IsProper c d v (inl e) = subst (IsProper c d) (sym e) tt
settled-IsProper c d v (inr e) = subst (IsProper c d) (sym e) tt

position-IsDone : (v : Entering) → (v ≡ outside) ⊎ (v ≡ inside) → IsDone (position v)
position-IsDone v (inl e) = subst (λ (w : Entering). IsDone (position w)) (sym e) tt
position-IsDone v (inr e) = subst (λ (w : Entering). IsDone (position w)) (sym e) tt

-- The gauges, and the plain counting that they follow.
record IsCounted (n c d : ℕ) (g : Gauges) (a : Counted) : Type 0 where
  reached : CountedReach a
  holding : IsHolding c d a.active a.peak g.cells
  stands : (i : ℕ) → a.vus i ≡ position (g.vus i)
  proper : (i : ℕ) → IsProper c d (g.vus i)
  counts : a.active ≡ active_users n g.vus
  same_highest : g.highest ≡ a.highest

module _ (n c d : ℕ) (few : n < 2 ^ 63) (lucky : Bool) (i : ℕ) (present : i < n) (g : Gauges)
    (a : Counted) (s : IsCounted n c d g a) where
  followed : IsFollowed lucky c d a.active a.peak (g.vus i) (vu_step lucky g.cells (g.vus i))
  followed =
      let none_out = active_users-update n i g.vus outside present in
      let one_in = active_users-update n i g.vus inside present in
      let most = active_users-le n (update g.vus i inside) in
      vu_step-IsFollowed lucky c d a.active a.peak g.cells s.holding (g.vus i) (s.proper i)
        (omega (arith, one_in, most, few, s.counts)) (omega (arith, none_out, s.counts))

  abbrev after : GaugeCells × Entering
  after = vu_step lucky g.cells (g.vus i)

  counts_after : followed.x' ≡ active_users n (update g.vus i after.1)
  counts_after =
      omega (arith, followed.counts, s.counts, active_users-update n i g.vus after.1 present)

  IsProper-step : (j : ℕ) → IsProper c d (update g.vus i after.1 j)
  IsProper-step j = elim (update_cases g.vus i j after.1 (update g.vus i after.1 j) refl) [
    | inl (same, value) ↦ subst (IsProper c d) value followed.proper
    | inr (other, value) ↦ subst (IsProper c d) value (s.proper j)
  ]

  -- A lookup: the plain counting stays where it is.
  stayed :
      followed.x' ≡ a.active
      → followed.y' ≡ a.peak
      → position after.1 ≡ position (g.vus i)
      → IsCounted n c d (gauge_step n lucky i g) a
  unfolding gauge_step
  stayed ex ey same = record {
    reached = s.reached;
    holding =
        subst (λ (x : ℕ). IsHolding c d x a.peak after.0) ex
          (subst (λ (y : ℕ). IsHolding c d followed.x' y after.0) ey followed.holding);
    stands = λ j. elim (update_cases g.vus i j after.1 (update g.vus i after.1 j) refl) [
      | inl (here, value) ↦ ap a.vus (sym here) ∙ s.stands i ∙ sym same ∙ ap position value
      | inr (other, value) ↦ s.stands j ∙ ap position value
    ];
    proper = IsProper-step;
    counts = sym ex ∙ counts_after;
    same_highest = omega (arith, counts_after, ex, active-le-highest a s.reached, s.same_highest);
  }

  -- Any other operation is one of the plain counting.
  moved :
      count_step lucky a.active a.peak (position (g.vus i))
        ≡ (followed.x', followed.y', position after.1)
      → IsCounted n c d (gauge_step n lucky i g) (counted_step lucky i a)
  unfolding gauge_step counted_step
  moved e =
      let r = count_step lucky a.active a.peak (a.vus i) in
      let all : r ≡ (followed.x', followed.y', position after.1) =
        ap (count_step lucky a.active a.peak) (s.stands i) ∙ e in
      let ex : followed.x' ≡ r.0 = sym (ap (λ (t : ℕ × ℕ × Position). t.0) all) in
      let ey : followed.y' ≡ r.1 = sym (ap (λ (t : ℕ × ℕ × Position). t.1) all) in
      let ep : r.2 ≡ position after.1 = ap (λ (t : ℕ × ℕ × Position). t.2) all in
      record {
        reached = unfold counted_step in Counted.step lucky i s.reached;
        holding =
            subst (λ (x : ℕ). IsHolding c d x r.1 after.0) ex
              (subst (λ (y : ℕ). IsHolding c d followed.x' y after.0) ey followed.holding);
        stands = λ j. elim (ℕ_discrete i j) [
          | yes here ↦
              if_pos (ℕ_discrete i j) here r.2 (a.vus j)
              ∙ ep
              ∙ ap position (sym (if_pos (ℕ_discrete i j) here after.1 (g.vus j)))
          | no other ↦
              if_neg (ℕ_discrete i j) other r.2 (a.vus j)
              ∙ s.stands j
              ∙ ap position (sym (if_neg (ℕ_discrete i j) other after.1 (g.vus j)))
        ];
        proper = IsProper-step;
        counts = sym ex ∙ counts_after;
        same_highest = omega (arith, counts_after, ex, s.same_highest);
      }

  step-IsCounted : (b : Counted) × IsCounted n c d (gauge_step n lucky i g) b
  step-IsCounted = elim (followed.moves) [
    | inl e ↦ (counted_step lucky i a, moved e)
    | inr (ex, ey, same) ↦ (a, stayed ex ey same)
  ]

module _ (n c d : ℕ) (few : n < 2 ^ 63) (start : Gauges) (ready : IsReady n c d start) where
  abbrev at_start : Counted
  at_start = record {
    active = active_users n start.vus;
    peak = start.highest;
    vus = λ i. position (start.vus i);
    highest = start.highest;
  }

  start-IsCounted : IsCounted n c d start at_start
  start-IsCounted = record {
    reached =
        Counted.begin (active_users n start.vus) start.highest (λ i. position (start.vus i))
          ready.peak_above (λ i. position-IsDone (start.vus i) (ready.settled i));
    holding = ready.holding;
    stands = λ i. refl;
    proper = λ i. settled-IsProper c d (start.vus i) (ready.settled i);
    counts = refl;
    same_highest = refl;
  }

  GaugeReach-IsCounted : {g : Gauges} → GaugeReach n start g → (a : Counted) × IsCounted n c d g a
  GaugeReach-IsCounted begin = (at_start, start-IsCounted)
  GaugeReach-IsCounted (step lucky i {g = g} present r) =
      let (a, s) = GaugeReach-IsCounted r in step-IsCounted n c d few lucky i present g a s

  -- From a state in which both gauges have their series under the tags of the scenario, at different
  -- cells, the first holds how many of n < 2 ^ 63 users are active, no user is under way, and the
  -- peak is no lower, under every interleaving of the operations of these users: the gauge of the
  -- active users holds the number of users that have added themselves and not taken themselves away,
  -- and when no user is between its addition and the end of its loop, the peak holds the largest such
  -- number there has been, or what it held before, if that is more.
  pub peak_highest :
      (g : Gauges)
      → GaugeReach n start g
      → (g.cells.values c ≡ pos (active_users n g.vus))
        × (((i : ℕ) → IsSettled (g.vus i)) → g.cells.values d ≡ pos g.highest)
  peak_highest g r =
      let (a, s) = GaugeReach-IsCounted r in
      (
        s.holding.active_is ∙ ap pos s.counts,
        λ settled.
            let done =
              λ (i : ℕ). subst IsDone (sym (s.stands i)) (settled-IsDone (g.vus i) (settled i)) in
            s.holding.peak_is ∙ ap pos (peak-eq-highest a s.reached done ∙ sym s.same_highest),
      )
