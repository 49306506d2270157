-- ===== src/Vus/Start.antt =====
-- The start signal: no user is released before the start, and a user can miss it.
use wrkr.Prelude.{
  ℕ, ◌≡◌, ◌≢◌, ◌⊎◌, refl, sym, ap, ◌∙◌, Bool, true, false, inl, inr, if◌then◌else◌, ℕ_discrete,
}
use mathlib.Core.Logic.{if_neg, if_pos}
use wrkr.Pacer.System.{Notify, update}
use wrkr.Vus.{
  top, parking, waiting, released, finished, StartSignal, init, Step, store, wake_all, load, park,
  resume, Reach, here, next,
}

pub update_same : {A : Type 0} (f : ℕ → A) (i : ℕ) (a : A) → update f i a i ≡ a
update_same f i a = if_pos (ℕ_discrete i i) refl a (f i)

-- What an updated function gives is the new value at its place, or the old one elsewhere.
pub update_cases :
    {A : Type 0} (f : ℕ → A) (i j : ℕ) (a b : A)
    → update f i a j ≡ b
    → ((i ≡ j) × (a ≡ b)) ⊎ ((i ≢ j) × (f j ≡ b))
update_cases f i j a b e = elim (ℕ_discrete i j) [
  | yes same ↦ inl (same, sym (if_pos (ℕ_discrete i j) same a (f j)) ∙ e)
  | no other ↦ inr (other, sym (if_neg (ℕ_discrete i j) other a (f j)) ∙ e)
]

top-ne-released : top ≢ released
top-ne-released e = cc

started_of : (b : Bool) → (if b then released else parking) ≡ released → b ≡ true
started_of true e = refl
started_of false e = cc

module _ (n : Notify) where
  -- A user that awaits a notification after the last one.
  record IsStranded (i : ℕ) (s : StartSignal n.State) : Type 0 where
    over : s.starter ≡ finished
    asleep : s.waiters i ≡ waiting
    unnotified : n.is_waiting s.notify i ≡ true

  Step-IsStranded :
      (i : ℕ) (s t : StartSignal n.State) → Step n s t → IsStranded i s → IsStranded i t
  Step-IsStranded i s t (store e q) v = cc (v.over, e)
  Step-IsStranded i s t (wake_all e q) v = cc (v.over, e)
  Step-IsStranded i s t (load j e q) v = elim (ℕ_discrete j i) [
    | yes same ↦ cc (v.asleep, e, ap s.waiters same)
    | no other ↦ rw q (record {
      over = v.over;
      asleep = rw (if_neg _ other) (v.asleep);
      unnotified = v.unnotified;
    })
  ]
  Step-IsStranded i s t (park j e q) v = elim (ℕ_discrete j i) [
    | yes same ↦ cc (v.asleep, e, ap s.waiters same)
    | no other ↦ rw q (record {
      over = v.over;
      asleep = rw (if_neg _ other) (v.asleep);
      unnotified = n.register_other s.notify j i other ∙ v.unnotified;
    })
  ]
  Step-IsStranded i s t (resume j e w q) v = elim (ℕ_discrete j i) [
    | yes same ↦ cc (v.unnotified, w, ap (n.is_waiting s.notify) same)
    | no other ↦ rw q (record {
      over = v.over;
      asleep = rw (if_neg _ other) (v.asleep);
      unnotified = v.unnotified;
    })
  ]

  Reach-IsStranded :
      (i : ℕ) {s t : StartSignal n.State} → IsStranded i s → Reach n s t → IsStranded i t
  Reach-IsStranded i v here = v
  Reach-IsStranded i v (next {t = t} {u = u} r st) =
      Step-IsStranded i t u st (Reach-IsStranded i v r)

  -- The user has seen that nothing has started and is about to wait; the start is signalled; then
  -- the user waits.
  abbrev late : ℕ → StartSignal n.State
  late i = record {
    started = true;
    starter = finished;
    waiters = update (update (λ j. top) i parking) i waiting;
    notify = n.register (n.notify_waiters n.idle) i;
  }

  reach_late : (i : ℕ) → Reach n (init n) (late i)
  reach_late i =
      let s1 = next here (load i refl refl) in
      let s2 = next s1 (store refl refl) in
      let s3 = next s2 (wake_all refl refl) in
      next s3 (park i (update_same (λ j. top) i parking) refl)

  late-IsStranded : (i : ℕ) → IsStranded i (late i)
  late-IsStranded i = record {
    over = refl;
    asleep = update_same (update (λ j. top) i parking) i waiting;
    unnotified = n.register_waits (n.notify_waiters n.idle) i;
  }

  -- For every user there is an interleaving after which the run has started and the start is
  -- signalled, and the user waits for the start for ever: in every state that can still be reached it
  -- waits. The notification came after the user's load of `started` and before its `notified()`.
  pub lost_start :
      (i : ℕ)
      → (s : StartSignal n.State) × Reach n (init n) s
        × (s.started ≡ true)
        × (s.starter ≡ finished)
        × ((t : StartSignal n.State) → Reach n s t → t.waiters i ≡ waiting)
  lost_start i =
      (late i, reach_late i, refl, refl, λ t r. (Reach-IsStranded i (late-IsStranded i) r).asleep)

  abbrev IsHeld : StartSignal n.State → Type 0
  IsHeld s = (i : ℕ) → s.waiters i ≡ released → s.started ≡ true

  Step-IsHeld : (s t : StartSignal n.State) → Step n s t → IsHeld s → IsHeld t
  Step-IsHeld s t (store e q) h i r = rw q refl
  Step-IsHeld s t (wake_all e q) h i r = rw q (h i (rw q at r))
  Step-IsHeld s t (load j e q) h i r =
      elim (update_cases s.waiters j i (if s.started then released else parking) released
        (rw q at r)) [
          | inl (same, gone) ↦ rw q (started_of s.started gone)
          | inr (other, before) ↦ rw q (h i before)
        ]
  Step-IsHeld s t (park j e q) h i r =
      elim (update_cases s.waiters j i waiting released (rw q at r)) [
        | inl (same, gone) ↦ absurd cc
        | inr (other, before) ↦ rw q (h i before)
      ]
  Step-IsHeld s t (resume j e w q) h i r =
      elim (update_cases s.waiters j i top released (rw q at r)) [
        | inl (same, gone) ↦ absurd cc
        | inr (other, before) ↦ rw q (h i before)
      ]

  Reach-IsHeld : {s t : StartSignal n.State} → IsHeld s → Reach n s t → IsHeld t
  Reach-IsHeld h here = h
  Reach-IsHeld h (next {t = t} {u = u} r st) = Step-IsHeld t u st (Reach-IsHeld h r)

  -- No user goes on before the start: in every state that can be reached, a user that `wait` has
  -- let go has the run started.
  pub released_after_start :
      (t : StartSignal n.State) (i : ℕ)
      → Reach n (init n) t
      → t.waiters i ≡ released
      → t.started ≡ true
  released_after_start t i r e = Reach-IsHeld (λ j gone. absurd (top-ne-released gone)) r i e
