-- ===== src/Vus/Highest.antt =====
-- The plain counting of Vus/Counted: what its compare-and-exchange loops leave in the peak.
use wrkr.Prelude.{
  ℕ, ◌+◌, ◌≤◌, ◌≡◌, ◌⊎◌, refl, sym, subst, Bool, ◌&&◌, max, Bool-cases, inl, inr, ltb, ◌==◌, arith,
  ℕ_discrete,
}
use mathlib.Core.Logic.{if_neg}
use wrkr.Pacer.System.{update}
use wrkr.Vus.Counted.{
  Position, away, added, compared, joined, Counted, count_step, counted_step, CountedReach, begin,
  step, IsDone,
}
use wrkr.Vus.Start.{update_same, update_cases}

-- What a user still has to bring to the peak is at most the highest number, and what it has seen of
-- the peak is at most the peak.
abbrev IsFair : ℕ → ℕ → Position → Type 0
IsFair peak highest away = Unit
IsFair peak highest (added a) = a ≤ highest
IsFair peak highest (compared a cur) = (a ≤ highest) × (cur ≤ peak)
IsFair peak highest joined = Unit

-- The user still has to bring this number to the peak.
abbrev Brings : ℕ → Position → Type 0
Brings highest away = ⊥
Brings highest (added a) = a ≡ highest
Brings highest (compared a cur) = a ≡ highest
Brings highest joined = ⊥

record IsGauged (g : Counted) : Type 0 where
  below : g.peak ≤ g.highest
  active_below : g.active ≤ g.highest
  fair : (i : ℕ) → IsFair g.peak g.highest (g.vus i)
  brought : (g.peak ≡ g.highest) ⊎ ((i : ℕ) × Brings g.highest (g.vus i))

IsFair-mono :
    (peak peak' highest highest' : ℕ) (v : Position)
    → peak ≤ peak'
    → highest ≤ highest'
    → IsFair peak highest v
    → IsFair peak' highest' v
IsFair-mono peak peak' highest highest' away p q h = tt
IsFair-mono peak peak' highest highest' (added a) p q h = omega (arith, h)
IsFair-mono peak peak' highest highest' (compared a cur) p q h =
    (omega (arith, h.0), omega (arith, h.1))
IsFair-mono peak peak' highest highest' joined p q h = tt

-- What one operation of a user gives, on the gauges alone.
record IsMoved (peak highest : ℕ) (v : Position) (r : ℕ × ℕ × Position) : Type 0 where
  rises : peak ≤ r.1
  bounded : r.1 ≤ max highest r.0
  fair_now : IsFair r.1 (max highest r.0) r.2
  keeps : Brings highest v → (r.1 ≡ max highest r.0) ⊎ Brings (max highest r.0) r.2
  grows : (max highest r.0 ≡ highest) ⊎ Brings (max highest r.0) r.2

compared-IsMoved :
    (lucky : Bool) (active peak highest a cur : ℕ)
    → peak ≤ highest
    → active ≤ highest
    → IsFair peak highest (compared a cur)
    → IsMoved peak highest (compared a cur) (count_step lucky active peak (compared a cur))
unfolding count_step
compared-IsMoved lucky active peak highest a cur below act h = elim (Bool-cases (ltb cur a)) [
  | inr settled ↦
      let at_least : a ≤ cur = ground (arith, settled) in
      rw settled (record {
        rises = omega arith;
        bounded = omega arith;
        fair_now = tt;
        keeps = λ e. inl (omega (arith, e, h.1, at_least));
        grows = inl (omega arith);
      })
  | inl above ↦ elim (Bool-cases (peak == cur && lucky)) [
    | inl won ↦
        let over : peak ≤ a = ground (arith, above, won) in
        rw above (
          rw won (record {
            rises = over;
            bounded = omega (arith, h.0);
            fair_now = tt;
            keeps = λ e. inl (omega (arith, e));
            grows = inl (omega arith);
          }))
    | inr lost ↦ rw above (
        rw lost (record {
          rises = omega arith;
          bounded = omega arith;
          fair_now = (omega (arith, h.0), omega arith);
          keeps = λ e. inr (omega (arith, e));
          grows = inl (omega arith);
        }))
  ]
]

count_step-IsMoved :
    (lucky : Bool) (active peak highest : ℕ) (v : Position)
    → peak ≤ highest
    → active ≤ highest
    → IsFair peak highest v
    → IsMoved peak highest v (count_step lucky active peak v)
unfolding count_step
count_step-IsMoved lucky active peak highest away below act h = record {
  rises = omega arith;
  bounded = omega arith;
  fair_now = omega arith;
  keeps = λ e. absurd e;
  grows = elim (Bool-cases (ltb highest (active + 1))) [
    | inl higher ↦ inr (ground (arith, higher))
    | inr lower ↦ inl (ground (arith, lower))
  ];
}
count_step-IsMoved lucky active peak highest (added a) below act h = record {
  rises = omega arith;
  bounded = omega arith;
  fair_now = (omega (arith, h), omega arith);
  keeps = λ e. inr (omega (arith, e));
  grows = inl (omega arith);
}
count_step-IsMoved lucky active peak highest (compared a cur) below act h =
    compared-IsMoved lucky active peak highest a cur below act h
count_step-IsMoved lucky active peak highest joined below act h = record {
  rises = omega arith;
  bounded = omega arith;
  fair_now = tt;
  keeps = λ e. absurd e;
  grows = inl (omega arith);
}

-- Who still brings the highest number, after an operation of a user.
brought_step :
    (lucky : Bool) (i : ℕ) (g : Counted)
    → IsGauged g
    → IsMoved g.peak g.highest (g.vus i) (count_step lucky g.active g.peak (g.vus i))
    → let r = count_step lucky g.active g.peak (g.vus i) in
      (r.1 ≡ max g.highest r.0) ⊎ ((j : ℕ) × Brings (max g.highest r.0) (update g.vus i r.2 j))
brought_step lucky i g v m =
    let r = count_step lucky g.active g.peak (g.vus i) in
    let by_user = λ (b : Brings (max g.highest r.0) r.2).
      subst (Brings (max g.highest r.0)) (sym (update_same g.vus i r.2)) b in
    elim m.grows [
      | inr b ↦ inr (i, by_user b)
      | inl same ↦ elim v.brought [
        | inl at_peak ↦ inl (omega (arith, m.rises, m.bounded, same, at_peak))
        | inr (j, brings) ↦ elim (ℕ_discrete i j) [
          | yes here ↦ elim (m.keeps (subst (λ k. Brings g.highest (g.vus k)) (sym here) brings)) [
            | inl e ↦ inl e
            | inr b ↦ inr (i, by_user b)
          ]
          | no other ↦ inr (
            j,
            subst (λ h. Brings h (update g.vus i r.2 j)) (sym same)
                (subst (Brings g.highest) (sym (if_neg (ℕ_discrete i j) other r.2 (g.vus j)))
                  brings),
          )
        ]
      ]
    ]

counted_step-IsGauged :
    (lucky : Bool) (i : ℕ) (g : Counted) → IsGauged g → IsGauged (counted_step lucky i g)
unfolding counted_step
counted_step-IsGauged lucky i g v =
    let r = count_step lucky g.active g.peak (g.vus i) in
    let m =
      count_step-IsMoved lucky g.active g.peak g.highest (g.vus i) v.below v.active_below
        (v.fair i) in
    record {
      below = m.bounded;
      active_below = omega arith;
      fair = λ j. elim (update_cases g.vus i j r.2 (update g.vus i r.2 j) refl) [
        | inl (same, value) ↦ subst (IsFair r.1 (max g.highest r.0)) value m.fair_now
        | inr (other, value) ↦ subst (IsFair r.1 (max g.highest r.0)) value (
            IsFair-mono g.peak r.1 g.highest (max g.highest r.0) (g.vus j) m.rises (omega arith)
              (v.fair j))
      ];
      brought = brought_step lucky i g v m;
    }

done-IsFair : (peak highest : ℕ) (v : Position) → IsDone v → IsFair peak highest v
done-IsFair peak highest away h = tt
done-IsFair peak highest (added a) h = absurd h
done-IsFair peak highest (compared a cur) h = absurd h
done-IsFair peak highest joined h = tt

CountedReach-IsGauged : {g : Counted} → CountedReach g → IsGauged g
CountedReach-IsGauged (begin active peak vus below done) = record {
  below = omega arith;
  active_below = below;
  fair = λ i. done-IsFair peak peak (vus i) (done i);
  brought = inl refl;
}
CountedReach-IsGauged (step lucky i {g = g} r) =
    counted_step-IsGauged lucky i g (CountedReach-IsGauged r)

settled_brings : (highest : ℕ) (v : Position) → IsDone v → Brings highest v → ⊥
settled_brings highest away h b = b
settled_brings highest (added a) h b = h
settled_brings highest (compared a cur) h b = h
settled_brings highest joined h b = b

-- Where no user brings a number, the peak is the largest number so far.
pub peak-eq-highest :
    (g : Counted) → CountedReach g → ((i : ℕ) → IsDone (g.vus i)) → g.peak ≡ g.highest
peak-eq-highest g r done = elim ((CountedReach-IsGauged r).brought) [
  | inl same ↦ same
  | inr (i, brings) ↦ absurd (settled_brings g.highest (g.vus i) (done i) brings)
]

pub active-le-highest : (g : Counted) → CountedReach g → g.active ≤ g.highest
active-le-highest g r = (CountedReach-IsGauged r).active_below
