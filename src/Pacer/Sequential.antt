-- ===== src/Pacer/Sequential.antt =====
-- A call of `update_due` that no user interrupts: what it makes of the pacer, in plain numbers, and
-- that it is one of the interleavings.
use wrkr.Prelude.{
  ℕ, ◌+◌, ◌-◌, ◌≤◌, ◌<◌, min, max, ◌≡◌, refl, sym, ap, ◌∙◌, subst, Bool, true, false, some, u64_max,
  ltb, ◌==◌, ==_iff, Bool-cases, inl, inr, arith,
}
use wrkr.Pacer.{
  ArrivalPacer, to_add, add_tokens, clamp_desired, desired_vus, store_active_vus, update_active_vus,
  update_due,
}
use wrkr.Pacer.System.{
  Notify, idle, saw_claimed, saw_both, dropping, refreshing, refresh_claimed, refresh_both,
  pace_step, after_refresh, set_scheduled, set_dropped, System, offer, pace, wake_all, Reach, here,
  next,
}

module _ (n : Notify) (s : System n.State) where
  -- The two loads and the store of `update_active_vus`.
  refresh_Reach :
      (b : Bool) (o : ℕ) (q p : ArrivalPacer)
      → store_active_vus q.claimed_total q.scheduled_total q ≡ some p
      → Reach n s (record s { pacer = q; updater = refreshing b; offered = o })
      → Reach n s (record s { pacer = p; updater = after_refresh b; offered = o })
  unfolding pace_step
  refresh_Reach b o q p e r =
      let r1 = next r (pace q (refresh_claimed b q.claimed_total) refl refl) in
      let r2 = next r1 (pace q (refresh_both b q.claimed_total q.scheduled_total) refl refl) in
      next r2 (pace p (after_refresh b) (rw e) refl)

  nothing_due :
      (add_due : ℕ) (p : ArrivalPacer)
      → s.updater ≡ idle
      → s.offered + add_due ≤ u64_max
      → (add_due == 0) ≡ true
      → update_active_vus s.pacer ≡ some p
      → Reach n s (record s { pacer = p; updater = idle; offered = s.offered + add_due })
  unfolding pace_step update_active_vus
  nothing_due add_due p e fits z u =
      let r1 = next here (offer add_due e fits refl) in
      let r2 = next r1 (pace s.pacer (refreshing false) (rw z) refl) in
      refresh_Reach false (s.offered + add_due) s.pacer p u r2

  some_due :
      (add_due : ℕ) (p : ArrivalPacer)
      → s.updater ≡ idle
      → s.offered + add_due ≤ u64_max
      → (add_due == 0) ≡ false
      → update_active_vus (add_tokens s.pacer.claimed_total s.pacer.scheduled_total add_due s.pacer)
        ≡ some p
      → Reach n s (record s {
        pacer = p;
        updater = idle;
        notify = n.notify_waiters s.notify;
        offered = s.offered + add_due;
      })
  unfolding pace_step update_active_vus add_tokens
  some_due add_due p e fits z u =
      let c = s.pacer.claimed_total in
      let t = s.pacer.scheduled_total in
      let added = to_add s.pacer c t add_due in
      let q1 = set_scheduled s.pacer added in
      let q2 = set_dropped q1 (add_due - added) in
      let r1 = next here (offer add_due e fits refl) in
      let r2 = next r1 (pace s.pacer (saw_claimed add_due c) (rw z) refl) in
      let r3 = next r2 (pace s.pacer (saw_both add_due c t) refl refl) in
      let r4 = next r3 (pace q1 (dropping (add_due - added)) refl refl) in
      let r5 = next r4 (pace q2 (refreshing true) refl refl) in
      let r6 = refresh_Reach true (s.offered + add_due) q2 p u r5 in next r6 (wake_all refl refl)

  -- The call as one function, as an interleaving.
  call_Reach :
      (add_due : ℕ) (p : ArrivalPacer)
      → s.updater ≡ idle
      → s.offered + add_due ≤ u64_max
      → update_due add_due s.pacer ≡ some p
      → (t : System n.State) × Reach n s t
        × (t.pacer ≡ p)
        × (t.updater ≡ idle)
        × (t.users ≡ s.users)
        × (t.offered ≡ s.offered + add_due)
  unfolding update_due
  call_Reach add_due p e fits u = elim (Bool-cases (add_due == 0)) [
    | inl z ↦ (_, nothing_due add_due p e fits z (rw z at u), refl, refl, refl, refl)
    | inr z ↦ (_, some_due add_due p e fits z (rw z at u), refl, refl, refl, refl)
  ]

-- What a call promises, in numbers of its own. Every due token is scheduled or dropped; the backlog
-- takes what is due up to the largest number of users, and what goes beyond is dropped. With an
-- empty backlog the pre-allocated users are active, otherwise one more than the backlog if that is
-- more than they are, and never more than the largest number. Nothing else changes.
pub record IsUpdated (add_due : ℕ) (p q : ArrivalPacer) : Type 0 where
  pub conserved :
      q.scheduled_total + q.dropped_total ≡ p.scheduled_total + p.dropped_total + add_due
  pub backlog_filled :
      q.scheduled_total
      ≡ p.claimed_total + min (p.scheduled_total - p.claimed_total + add_due) p.max_vus
  pub active_empty : q.scheduled_total ≡ q.claimed_total → q.active_vus ≡ p.pre_allocated_vus
  pub active_behind :
      q.claimed_total < q.scheduled_total
      → q.active_vus
        ≡ min (max p.pre_allocated_vus (q.scheduled_total - q.claimed_total + 1)) p.max_vus
  pub claimed_kept : q.claimed_total ≡ p.claimed_total
  pub bounds_kept :
      (q.pre_allocated_vus ≡ p.pre_allocated_vus) × (q.max_vus ≡ p.max_vus) × (q.done ≡ p.done)

-- The state of a pacer between two calls, as `Reach-IsPaced` has it.
pub record IsSteady (p : ArrivalPacer) : Type 0 where
  pub claimed_scheduled : p.claimed_total ≤ p.scheduled_total
  pub bounded : p.scheduled_total ≤ p.claimed_total + p.max_vus
  pub users : (1 ≤ p.pre_allocated_vus) × (p.pre_allocated_vus ≤ p.max_vus) × (p.max_vus ≤ u64_max)

refreshed :
    (p : ArrivalPacer)
    → IsSteady p
    → (q : ArrivalPacer) × (update_active_vus p ≡ some q) × IsUpdated 0 p q
unfolding update_active_vus store_active_vus clamp_desired desired_vus
refreshed p h =
    let backlog = p.scheduled_total - p.claimed_total in
    let enough : ltb p.max_vus 1 ≡ false = ground (arith, h.users) in
    let desired = min (max (desired_vus p.pre_allocated_vus backlog) 1) p.max_vus in
    (
      record p { active_vus = desired },
      rw enough refl,
      record {
        conserved = omega arith;
        backlog_filled = omega (arith, h.claimed_scheduled, h.bounded);
        active_empty = λ e. ground (arith, e, h.users);
        active_behind = λ b. ground (arith, b, h.users);
        claimed_kept = refl;
        bounds_kept = (refl, refl, refl);
      },
    )

added :
    (add_due : ℕ) (p : ArrivalPacer)
    → IsSteady p
    → p.scheduled_total + add_due ≤ u64_max
    → p.dropped_total + add_due ≤ u64_max
    → let q = add_tokens p.claimed_total p.scheduled_total add_due p in
      IsSteady q
      × (q.scheduled_total + q.dropped_total ≡ p.scheduled_total + p.dropped_total + add_due)
      × (q.scheduled_total
          ≡ p.claimed_total + min (p.scheduled_total - p.claimed_total + add_due) p.max_vus)
unfolding add_tokens to_add
added add_due p h fits drops = (
  record {
    claimed_scheduled = ground (arith, h.claimed_scheduled, h.bounded, h.users);
    bounded = ground (arith, h.claimed_scheduled, h.bounded, h.users);
    users = h.users;
  },
  ground (arith, h.claimed_scheduled, h.bounded, h.users),
  ground (arith, h.claimed_scheduled, h.bounded, h.users),
)

after_tokens :
    (add_due : ℕ) (p q : ArrivalPacer)
    → IsSteady p
    → (let m = add_tokens p.claimed_total p.scheduled_total add_due p in
        (m.scheduled_total + m.dropped_total ≡ p.scheduled_total + p.dropped_total + add_due)
        × (m.scheduled_total
            ≡ p.claimed_total + min (p.scheduled_total - p.claimed_total + add_due) p.max_vus)
        × IsUpdated 0 m q)
    → IsUpdated add_due p q
unfolding add_tokens to_add
after_tokens add_due p q h (kept, filled, v) = record {
  conserved = omega (arith, kept, v.conserved);
  backlog_filled = omega (arith, filled, v.backlog_filled, h.claimed_scheduled);
  active_empty = λ e. v.active_empty e;
  active_behind = λ b. v.active_behind b;
  claimed_kept = v.claimed_kept;
  bounds_kept = v.bounds_kept;
}

call_updates :
    (add_due : ℕ) (p : ArrivalPacer)
    → IsSteady p
    → p.scheduled_total + add_due ≤ u64_max
    → p.dropped_total + add_due ≤ u64_max
    → (q : ArrivalPacer) × (update_due add_due p ≡ some q) × IsUpdated add_due p q
unfolding update_due
call_updates add_due p h fits drops = elim (Bool-cases (add_due == 0)) [
  | inl z ↦
      let (q, e, v) = refreshed p h in
      let none_due : add_due ≡ 0 = (==_iff add_due 0).0 z in
      (q, rw z e, subst (λ (k : ℕ). IsUpdated k p q) (sym none_due) v)
  | inr z ↦
      let (steady, kept, filled) = added add_due p h fits drops in
      let (q, e, v) = refreshed (add_tokens p.claimed_total p.scheduled_total add_due p) steady in
      (q, rw z e, after_tokens add_due p q h (kept, filled, v))
]

-- From a state whose pacing task is at rest, whose pacer has a backlog of at most `max_vus` tokens
-- and 1 ≤ pre_allocated_vus ≤ max_vus, and whose totals do not overflow: a call `update_due add_due`
-- returns, transitions of the interleaved system in which no user moves lead to its result, with the
-- task at rest again and the users where they were, and in that result the due tokens are scheduled
-- up to a backlog of `max_vus` and dropped beyond, and the active users are the pre-allocated ones
-- for an empty backlog, and otherwise one more than the backlog if that is more than they are, cut
-- at `max_vus`. Nothing else of the pacer changes.
pub update_due-IsUpdated :
    (n : Notify) (s : System n.State) (add_due : ℕ)
    → s.updater ≡ idle
    → s.offered + add_due ≤ u64_max
    → IsSteady s.pacer
    → s.pacer.scheduled_total + add_due ≤ u64_max
    → s.pacer.dropped_total + add_due ≤ u64_max
    → (t : System n.State) × Reach n s t
      × (update_due add_due s.pacer ≡ some t.pacer)
      × (t.updater ≡ idle)
      × (t.users ≡ s.users)
      × IsUpdated add_due s.pacer t.pacer
update_due-IsUpdated n s add_due rest fits steady scheduled drops =
    let (p, u, v) = call_updates add_due s.pacer steady scheduled drops in
    let (t, r, same, idle_again, users, offered) = call_Reach n s add_due p rest fits u in
    (
      t,
      r,
      u ∙ ap some (sym same),
      idle_again,
      users,
      subst (IsUpdated add_due s.pacer) (sym same) v,
    )
