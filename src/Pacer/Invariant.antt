-- ===== src/Pacer/Invariant.antt =====
-- What holds of the pacer in every reachable state, whatever the interleaving.
use wrkr.Prelude.{
  ℕ, ◌+◌, ◌-◌, ◌≤◌, ◌≡◌, ◌∙◌, sym, subst, refl, Bool, some, max, arith, u64_max, ℕ_discrete,
}
use mathlib.Core.Logic.{if_pos, if_neg}
use wrkr.Pacer.{ArrivalPacer, to_add, store_active_vus, clamp_desired, desired_vus, mark_done}
use wrkr.Pacer.System.{
  Notify, Updater, idle, start, saw_claimed, saw_both, dropping, refreshing, refresh_claimed,
  refresh_both, User, top, draining, draining_claimed, loading, loaded_claimed, loaded_both,
  waiting, running, pace_step, claim_step, update, claims, System, init, Step, offer, pace,
  wake_all, finish, wake_last, claim, park, resume, Reach, here, next,
}

-- The tokens that the running call of `update_due` has neither scheduled nor dropped yet.
abbrev pub pending : Updater → ℕ
pending (start add_due) = add_due
pending (saw_claimed add_due _) = add_due
pending (saw_both add_due _ _) = add_due
pending (dropping dropped) = dropped
pending _ = 0

pub record IsPaced (p : ArrivalPacer) (offered in_flight : ℕ) : Type 0 where
  -- No token is claimed that was not scheduled, and the backlog is bounded.
  pub claimed_le : p.claimed_total ≤ p.scheduled_total
  pub backlog_le : p.scheduled_total - p.claimed_total ≤ max p.max_vus 1
  -- Every token that came due is scheduled, dropped or in flight.
  pub conserved : p.scheduled_total + p.dropped_total + in_flight ≡ offered
  pub fits : offered ≤ u64_max
  pub some_user : 1 ≤ p.max_vus
  pub active_pos : 1 ≤ p.active_vus
  pub active_le : p.active_vus ≤ p.max_vus

abbrev pub UpdaterOk : ArrivalPacer → Updater → Type 0
UpdaterOk p (saw_claimed _ claimed) = claimed ≤ p.claimed_total
UpdaterOk p (saw_both _ claimed scheduled) =
    (claimed ≤ p.claimed_total) × (scheduled ≡ p.scheduled_total)
UpdaterOk p _ = Unit {0}

abbrev pub UserOk : ArrivalPacer → User → Type 0
UserOk p (loaded_both _ scheduled) = scheduled ≤ p.scheduled_total
UserOk p _ = Unit {0}

abbrev pub Paced : ArrivalPacer → Updater → ℕ → Type 0
Paced p u offered = IsPaced p offered (pending u) × UpdaterOk p u

pace_keeps :
    (p : ArrivalPacer) (u : Updater) (p' : ArrivalPacer) (u' : Updater) (offered : ℕ)
    → pace_step p u ≡ some (p', u')
    → Paced p u offered
    → Paced p' u' offered
      × (p.scheduled_total ≤ p'.scheduled_total)
      × (p'.claimed_total ≡ p.claimed_total)
unfolding pace_step to_add store_active_vus clamp_desired desired_vus
pace_keeps p (start a) p' u' offered e h = ground arith
pace_keeps p (saw_claimed a c) p' u' offered e h = ground arith
pace_keeps p (saw_both a c s) p' u' offered e h = ground arith
pace_keeps p (dropping d) p' u' offered e h = ground arith
pace_keeps p (refreshing b) p' u' offered e h = ground arith
pace_keeps p (refresh_claimed b c) p' u' offered e h = ground arith
pace_keeps p (refresh_both b c s) p' u' offered e h = ground arith
pace_keeps p _ p' u' offered e h = cc

claim_keeps :
    (lucky : Bool) (p : ArrivalPacer) (u : User) (p' : ArrivalPacer) (u' : User)
    (offered in_flight : ℕ)
    → claim_step lucky p u ≡ some (p', u')
    → IsPaced p offered in_flight
    → UserOk p u
    → IsPaced p' offered in_flight
      × UserOk p' u'
      × (p'.claimed_total ≡ p.claimed_total + claims u')
      × (p'.scheduled_total ≡ p.scheduled_total)
unfolding claim_step
claim_keeps l p top p' u' offered f e h k = ground arith
claim_keeps l p draining p' u' offered f e h k = ground arith
claim_keeps l p (draining_claimed c) p' u' offered f e h k = ground arith
claim_keeps l p loading p' u' offered f e h k = ground arith
claim_keeps l p (loaded_claimed c) p' u' offered f e h k = ground arith
claim_keeps l p (loaded_both c s) p' u' offered f e h k = ground arith
claim_keeps l p running p' u' offered f e h k = ground arith
claim_keeps l p _ p' u' offered f e h k = cc

UserOk-mono :
    (p p' : ArrivalPacer) (u : User)
    → p.scheduled_total ≤ p'.scheduled_total
    → UserOk p u
    → UserOk p' u
UserOk-mono p p' (loaded_both c s) h k = omega arith
UserOk-mono p p' top h k = tt
UserOk-mono p p' _ h k = tt

UpdaterOk-mono :
    (p p' : ArrivalPacer) (u : Updater)
    → p'.scheduled_total ≡ p.scheduled_total
    → p.claimed_total ≤ p'.claimed_total
    → UpdaterOk p u
    → UpdaterOk p' u
UpdaterOk-mono p p' (saw_claimed a c) h g k = omega arith
UpdaterOk-mono p p' (saw_both a c s) h g k = omega arith
UpdaterOk-mono p p' idle h g k = tt
UpdaterOk-mono p p' _ h g k = tt

UserOk-update :
    (p : ArrivalPacer) (users : ℕ → User) (i : ℕ) (u : User)
    → UserOk p u
    → ((j : ℕ) → UserOk p (users j))
    → (j : ℕ) → UserOk p (update users i u j)
UserOk-update p users i u h k j = elim (ℕ_discrete i j) [
  | yes e ↦ rw (if_pos _ e) h
  | no e ↦ rw (if_neg _ e) (k j)
]

pub record Inv {S : Type 0} (s : System S) : Type 0 where
  pub paced : Paced s.pacer s.updater s.offered
  pub users_ok : (i : ℕ) → UserOk s.pacer (s.users i)
  pub counted : s.iterations ≡ s.pacer.claimed_total

module _ (n : Notify) where
  init-Inv : (pre max : ℕ) → 1 ≤ pre → pre ≤ max → Inv (init n pre max)
  init-Inv pre max h k = record { paced = omega arith; users_ok = λ i. tt; counted = refl }

  at_rest :
      (s : System n.State)
      → Inv s
      → {u : Updater} → s.updater ≡ u
      → IsPaced s.pacer s.offered (pending u)
  at_rest s v e = subst (λ (w : Updater). IsPaced s.pacer s.offered (pending w)) e v.paced.0

  -- Each transition at the state it starts from; the states are rewritten away.
  Step-Inv : (s t : System n.State) → Step n s t → Inv s → Inv t
  Step-Inv s t (offer a e h q) v =
      let still = at_rest s v e in
      rw q (record { paced = (omega arith, tt); users_ok = v.users_ok; counted = v.counted })
  Step-Inv s t (pace p u e q) v =
      let (k, le, same) = pace_keeps s.pacer s.updater p u s.offered e v.paced in
      rw q (record {
        paced = k;
        users_ok = λ i. UserOk-mono s.pacer p (s.users i) le (v.users_ok i);
        counted = v.counted ∙ sym same;
      })
  Step-Inv s t (wake_all e q) v =
      let still = at_rest s v e in
      rw q (record { paced = (still, tt); users_ok = v.users_ok; counted = v.counted })
  Step-Inv s t (finish e q) v =
      let still = at_rest s v e in
      rw q (record {
        paced = (omega arith, tt);
        users_ok =
            λ i. UserOk-mono s.pacer (mark_done s.pacer) (s.users i) (omega arith) (v.users_ok i);
        counted = v.counted;
      })
  Step-Inv s t (wake_last e q) v =
      let still = at_rest s v e in
      rw q (record { paced = (still, tt); users_ok = v.users_ok; counted = v.counted })
  Step-Inv s t (claim i l p u e q) v =
      let (k, ok, more, same) =
        claim_keeps l s.pacer (s.users i) p u s.offered (pending s.updater) e v.paced.0
          (v.users_ok i) in
      rw q (record {
        paced = (k, UpdaterOk-mono s.pacer p s.updater same (omega arith) v.paced.1);
        users_ok =
            UserOk-update p s.users i u ok
              (λ j. UserOk-mono s.pacer p (s.users j) (omega arith) (v.users_ok j));
        counted = let c = v.counted in omega arith;
      })
  Step-Inv s t (park i e q) v = rw q (record {
    paced = v.paced;
    users_ok = UserOk-update s.pacer s.users i waiting tt v.users_ok;
    counted = v.counted;
  })
  Step-Inv s t (resume i e w q) v = rw q (record {
    paced = v.paced;
    users_ok = UserOk-update s.pacer s.users i top tt v.users_ok;
    counted = v.counted;
  })

  Reach-Inv : {s t : System n.State} → Inv s → Reach n s t → Inv t
  Reach-Inv v here = v
  Reach-Inv v (next {t = t} {u = u} r st) = Step-Inv t u st (Reach-Inv v r)

-- In every state that the pacing task and any number of users can reach from a pacer with
-- 1 ≤ pre_allocated_vus ≤ max_vus, under every interleaving: no token is claimed that was not
-- scheduled; the backlog is at most max(max_vus, 1); every token that came due is scheduled,
-- dropped or still in the hands of `update_due`; the active users are between 1 and max_vus; and
-- exactly one iteration was started for each claimed token, so never more than came due less those
-- dropped.
pub Reach-IsPaced :
    (n : Notify) (pre max : ℕ) (s : System n.State)
    → 1 ≤ pre
    → pre ≤ max
    → Reach n (init n pre max) s
    → IsPaced s.pacer s.offered (pending s.updater)
      × (s.iterations ≡ s.pacer.claimed_total)
      × (s.iterations + s.pacer.dropped_total ≤ s.offered)
Reach-IsPaced n pre max s h k r =
    let v = Reach-Inv n (init-Inv n pre max h k) r in
    let c = v.counted in let paced = v.paced.0 in (paced, c, omega arith)
