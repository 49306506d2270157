-- ===== src/Pacer/Wakeup.antt =====
-- `claim_next` looks at `done` and at the counters, and waits for a notification afterwards.
use wrkr.Prelude.{ℕ, ◌≡◌, refl, ◌≢◌, Bool, true, some, ◌∙◌, ap, ℕ_discrete}
use mathlib.Core.Logic.{if_neg}
use wrkr.Pacer.{ArrivalPacer, mark_done, new}
use wrkr.Pacer.System.{
  Notify, Updater, finished, User, top, loading, loaded_claimed, loaded_both, parking, waiting,
  pace_step, claim_step, update, System, init, Step, offer, pace, wake_all, finish, wake_last,
  claim, park, resume, Reach, here, next,
}

-- A user that waits after the last notification.
record IsStranded (n : Notify) (i : ℕ) (s : System n.State) : Type 0 where
  over : s.updater ≡ finished
  asleep : s.users i ≡ waiting
  unnotified : n.is_waiting s.notify i ≡ true

waiting_no_step :
    (lucky : Bool) (p p' : ArrivalPacer) (u' : User) → claim_step lucky p waiting ≢ some (p', u')
unfolding claim_step
waiting_no_step l p p' u' e = cc

finished_no_step : (p p' : ArrivalPacer) (u' : Updater) → pace_step p finished ≢ some (p', u')
unfolding pace_step
finished_no_step p p' u' e = cc

module _ (n : Notify) (i : ℕ) where
  Step-IsStranded : (s t : System n.State) → Step n s t → IsStranded n i s → IsStranded n i t
  Step-IsStranded s t (offer a e h q) v = cc (v.over, e)
  Step-IsStranded s t (pace p u e q) v = absurd (finished_no_step s.pacer p u (rw v.over at e))
  Step-IsStranded s t (wake_all e q) v = cc (v.over, e)
  Step-IsStranded s t (finish e q) v = cc (v.over, e)
  Step-IsStranded s t (wake_last e q) v = cc (v.over, e)
  Step-IsStranded s t (claim j l p u e q) v = elim (ℕ_discrete j i) [
    | yes same ↦ absurd (waiting_no_step l s.pacer p u (rw (same, v.asleep) at e))
    | no other ↦ rw q (record {
      over = v.over;
      asleep = rw (if_neg _ other) (v.asleep);
      unnotified = v.unnotified;
    })
  ]
  Step-IsStranded s t (park j e q) v = elim (ℕ_discrete j i) [
    | yes same ↦ cc (v.asleep, e, ap s.users same)
    | no other ↦ rw q (record {
      over = v.over;
      asleep = rw (if_neg _ other) (v.asleep);
      unnotified = n.register_other s.notify j i other ∙ v.unnotified;
    })
  ]
  Step-IsStranded s t (resume j e w q) v = elim (ℕ_discrete j i) [
    | yes same ↦ cc (v.unnotified, w, ap (n.is_waiting s.notify) same)
    | no other ↦ rw q (record {
      over = v.over;
      asleep = rw (if_neg _ other) (v.asleep);
      unnotified = v.unnotified;
    })
  ]

  Reach-IsStranded : {s t : System n.State} → IsStranded n i s → Reach n s t → IsStranded n i t
  Reach-IsStranded v here = v
  Reach-IsStranded v (next {t = t} {u = u} r st) = Step-IsStranded t u st (Reach-IsStranded v r)

-- The user has looked at the flag and at the counters and is about to wait; then the pacer is
-- marked done and notifies; then the user waits.
abbrev late : (n : Notify) → ℕ → ℕ → System n.State
late n pre max = record {
  pacer = mark_done (new pre max);
  updater = finished;
  users =
      update
        (update
          (update (update (update (λ j. top) 0 loading) 0 (loaded_claimed 0)) 0 (loaded_both 0 0)) 0
          parking)
        0 waiting;
  notify = n.register (n.notify_waiters n.idle) 0;
  offered = 0;
  iterations = 0;
}

reach_late : (n : Notify) (pre max : ℕ) → Reach n (init n pre max) (late n pre max)
unfolding claim_step ℕ_discrete
reach_late n pre max =
    let p = new pre max in
    let s1 = next here (claim 0 true p loading refl refl) in
    let s2 = next s1 (claim 0 true p (loaded_claimed 0) refl refl) in
    let s3 = next s2 (claim 0 true p (loaded_both 0 0) refl refl) in
    let s4 = next s3 (claim 0 true p parking refl refl) in
    let s5 = next s4 (finish refl refl) in
    let s6 = next s5 (wake_last refl refl) in next s6 (park 0 refl refl)

late-IsStranded : (n : Notify) (pre max : ℕ) → IsStranded n 0 (late n pre max)
unfolding ℕ_discrete
late-IsStranded n pre max = record {
  over = refl;
  asleep = refl;
  unnotified = n.register_waits (n.notify_waiters n.idle) 0;
}

-- For every number of users there is an interleaving after which the pacer is done, no token is
-- left, and user 0 waits in `claim_next` for ever: in every state that can still be reached it
-- waits. The wake-up of `mark_done` came after the user's checks and before its wait.
pub lost_wakeup :
    (n : Notify) (pre max : ℕ)
    → (s : System n.State) × Reach n (init n pre max) s
      × (s.pacer.done ≡ true)
      × (s.pacer.scheduled_total ≡ s.pacer.claimed_total)
      × ((t : System n.State) → Reach n s t → t.users 0 ≡ waiting)
lost_wakeup n pre max = (
  late n pre max,
  reach_late n pre max,
  refl,
  refl,
  λ t r. (Reach-IsStranded n 0 (late-IsStranded n pre max) r).asleep,
)
