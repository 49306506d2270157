-- ===== src/Schedule/Snapshot.antt =====
-- What `stage_snapshot_at` reports to the progress output.
use wrkr.Prelude.{
  ℕ, zero, suc, ◌+◌, ◌-◌, ◌≤◌, ◌<◌, min, max, ◌≡◌, refl, arith, IsU64, u64_max, some, List, [], ◌∷◌,
  All, leb, dec_lt, length, true, false, ◌∙◌, ap, sym, lt_of_get_elem?, get_elem?, inl, inr,
}
use wrkr.Schedule.{
  Stage, StageSnapshot, push_ends, duration_max, add_duration, stage_snapshot_at,
  RampingU64Schedule, Frame, new, interpolate, target_at, total_duration, last_target, stage_index,
  is_empty,
}
use wrkr.Schedule.Search.{BinarySearch}
use wrkr.Schedule.Stages.{new-IsWellFormed, FrameAt, frame_in_range, last?-at, last_is_largest}
use wrkr.Schedule.Location.{located}
use wrkr.Schedule.Bounds.{Between, interpolate_between, frame_targets}
use wrkr.Schedule.Oversleep.{target_at-frame, target_at-done, All-from_zero}

abbrev snapshot_of : RampingU64Schedule → ℕ → ℕ → Frame → ℕ → StageSnapshot
snapshot_of s idx clamped f current = record {
  index = idx;
  count = length s.stages;
  stage_elapsed = clamped - f.stage_start;
  stage_remaining = f.stage_end - f.stage_start - (clamped - f.stage_start);
  start_target = f.start_target;
  end_target = f.end_target;
  current_target = current;
}

-- When the stage at an index starts: the durations of the stages before it, up to the largest
-- `Duration`.
abbrev total_before : ℕ → List Stage → ℕ
total_before zero stages = 0
total_before (suc i) [] = 0
total_before (suc i) (st ∷ stages) = st.duration + total_before i stages

abbrev pub starts_at : List Stage → ℕ → ℕ
starts_at stages i = min (total_before i stages) duration_max

-- The target that the stage at an index starts from.
abbrev pub StartsFrom : ℕ → List Stage → ℕ → ℕ → Type 0
StartsFrom start stages zero target = target ≡ start
StartsFrom start stages (suc i) target =
    (before : Stage) × (get_elem? stages i ≡ some before) × (target ≡ before.target)

-- The snapshot is about the stage at its index: its two targets are those of that stage, its times
-- place the elapsed time, or the end of the schedule if that comes first, in that stage, and its
-- current target is the schedule's and lies between the two.
pub record IsFaithful (search : BinarySearch) (start : ℕ) (stages : List Stage) (e : ℕ)
    (n : StageSnapshot) : Type 0 where
  pub index_in_range : n.index < n.count
  pub counts : n.count ≡ length stages
  pub stage : Stage
  pub stage_at : get_elem? stages n.index ≡ some stage
  pub ends_at_target : n.end_target ≡ stage.target
  pub starts_from : StartsFrom start stages n.index n.start_target
  pub elapsed_since :
      starts_at stages n.index + n.stage_elapsed ≡ min e (total_duration (new start stages))
  pub remaining_until :
      min e (total_duration (new start stages)) + n.stage_remaining ≡ starts_at stages (suc n.index)
  pub same_target : target_at search (new start stages) e ≡ some n.current_target
  pub between :
      Between (min n.start_target n.end_target) (max n.start_target n.end_target) n.current_target

push_ends-total :
    (acc : ℕ) (stages : List Stage) (i a : ℕ)
    → acc ≤ duration_max
    → get_elem? (push_ends acc stages) i ≡ some a
    → a ≡ min (acc + total_before (suc i) stages) duration_max
unfolding push_ends
push_ends-total acc [] i a h e = ground arith
push_ends-total acc (st ∷ stages) zero a h e = ground arith
push_ends-total acc (st ∷ stages) (suc i) a h e =
    omega (arith, push_ends-total (add_duration acc st.duration) stages i a (omega arith) e)

not_empty {ℓ} : {A : Type ℓ} (xs : List A) → is_empty xs ≡ false → length xs ≡ suc (length xs - 1)
not_empty [] h = cc
not_empty (x ∷ xs) h = omega arith

module _ (start : ℕ) (stages : List Stage) where
  frame_end :
      (i : ℕ) (f : Frame) → FrameAt (new start stages) i f → f.stage_end ≡ starts_at stages (suc i)
  frame_end i f at = omega (arith, push_ends-total 0 stages i f.stage_end (omega arith) at.end_at)

  frame_start :
      (i : ℕ) (f : Frame)
      → FrameAt (new start stages) i f
      → (f.stage_start ≡ starts_at stages i) × StartsFrom start stages i f.start_target
  frame_start zero f at = elim (at.start_at) [
    | inl (p, q, r) ↦ (omega (arith, q), r)
    | inr (j, st, p, q, r, u) ↦ absurd (omega (arith, p))
  ]
  frame_start (suc i) f at = elim (at.start_at) [
    | inl (p, q, r) ↦ absurd (omega (arith, p))
    | inr (j, st, p, q, r, u) ↦
        let same : j ≡ i = omega (arith, p) in
        let ends = rw same at q in
        let exact = push_ends-total 0 stages i f.stage_start (omega arith) ends in
        (omega (arith, exact), (st, rw same at r, u))
  ]

  -- The last stage ends with the schedule.
  last_end :
      (k : ℕ) (f : Frame)
      → length stages ≡ suc k
      → FrameAt (new start stages) k f
      → f.stage_end ≡ total_duration (new start stages)
  last_end k f size at =
      let w = new-IsWellFormed start stages in
      let (t, last, at_last) =
        last?-at (push_ends 0 stages) k (omega (arith, w.same_length, size)) in
      let same : f.stage_end ≡ t = cc (at.end_at, at_last) in
      let total : total_duration (new start stages) ≡ t = rw last in same ∙ sym total

  total_at_start :
      (i : ℕ) (f : Frame)
      → FrameAt (new start stages) i f
      → f.stage_start ≤ total_duration (new start stages)
  total_at_start i f at =
      let w = new-IsWellFormed start stages in
      elim (at.start_at) [
        | inl (p, q, r) ↦ omega (arith, q)
        | inr (j, st, p, q, r, u) ↦ last_is_largest (push_ends 0 stages) j f.stage_start w.sorted q
      ]

module _ (search : BinarySearch) (start : ℕ) (stages : List Stage) (first : IsU64 start)
    (all : All (λ (st : Stage). IsU64 st.target) stages) (e : ℕ)
    (nonempty : is_empty stages ≡ false) (positive : 0 < e) where
  running_snapshot :
      e < total_duration (new start stages)
      → (n : StageSnapshot) × (stage_snapshot_at search (new start stages) e ≡ some (some n))
        × IsFaithful search start stages e n
  unfolding stage_snapshot_at
  running_snapshot running =
      let s = new start stages in
      let w = new-IsWellFormed start stages in
      let l = located search s w e running in
      let clamped : min e (total_duration s) ≡ e = omega arith in
      let d : leb (total_duration s) e ≡ false = ground arith in
      let now = target_at-frame search s e _ l.frame_of nonempty positive running refl l.at.read in
      let ((a, b), (c, d')) =
        frame_targets search s w 0 u64_max (omega arith, first) (All-from_zero stages all)
          (omega arith) _ l.frame_of l.at in
      let (starts, from) = frame_start start stages _ l.frame_of l.at in
      (
        snapshot_of s (stage_index search s e) e l.frame_of (interpolate l.frame_of e),
        rw (nonempty, clamped, d, l.at.read, now),
        record {
          index_in_range = lt_of_get_elem? stages _ l.at.stage l.at.stage_at;
          counts = refl;
          stage = l.at.stage;
          stage_at = l.at.stage_at;
          ends_at_target = l.at.end_target;
          starts_from = from;
          elapsed_since = omega (arith, starts, l.started);
          remaining_until =
              omega (arith, frame_end start stages _ l.frame_of l.at, l.started, l.not_ended);
          same_target = now;
          between = interpolate_between l.frame_of e b d' l.started l.not_ended;
        },
      )

  done_snapshot :
      0 < total_duration (new start stages)
      → total_duration (new start stages) ≤ e
      → (n : StageSnapshot) × (stage_snapshot_at search (new start stages) e ≡ some (some n))
        × IsFaithful search start stages e n
  unfolding stage_snapshot_at
  done_snapshot long over =
      let s = new start stages in
      let w = new-IsWellFormed start stages in
      let total = total_duration s in
      let clamped : min e total ≡ total = omega arith in
      let d : leb total total ≡ true = ground arith in
      let size : length stages ≡ suc (length stages - 1) = not_empty stages nonempty in
      let (st, last, at_last) = last?-at stages (length stages - 1) size in
      let (f, at) = frame_in_range s (length stages - 1) w (omega arith) in
      let same : at.stage ≡ st = cc (at.stage_at, at_last) in
      let ends : f.end_target ≡ st.target = at.end_target ∙ ap (λ (o : Stage). o.target) same in
      let is_last : last_target s ≡ f.end_target = rw (last, last_target) (sym ends) in
      let at_total = target_at-done search s total nonempty long (omega arith) in
      let now = target_at-done search s e nonempty positive over in
      let (starts, from) = frame_start start stages _ f at in
      let begun = total_at_start start stages _ f at in
      let ended = last_end start stages _ f size at in
      (
        snapshot_of s (length stages - 1) total f (last_target s),
        rw (nonempty, clamped, d, at.read, at_total),
        record {
          index_in_range = omega arith;
          counts = refl;
          stage = at.stage;
          stage_at = at.stage_at;
          ends_at_target = at.end_target;
          starts_from = from;
          elapsed_since = omega (arith, starts, begun, clamped);
          remaining_until = omega (arith, frame_end start stages _ f at, begun, ended, clamped);
          same_target = now;
          between = rw is_last (omega arith, omega arith);
        },
      )

-- With a start and targets that are u64 values, at least one stage and a positive total duration,
-- after the start `stage_snapshot_at` returns a snapshot and panics nowhere. Its index is that of a
-- stage, its end target is that stage's, and its start target is that of the stage before, or the
-- start of the schedule for the first. The elapsed time, cut at the end of the schedule, is the
-- start of that stage plus the snapshot's elapsed part, and the end of that stage less its remaining
-- part, where a stage starts after the durations of those before it. Its current target is what
-- `target_at` returns at the elapsed time (past the end of the schedule too) and lies between its
-- start and end targets.
pub stage_snapshot_at-IsFaithful :
    (search : BinarySearch) (start : ℕ) (stages : List Stage) (e : ℕ)
    → IsU64 start
    → All (λ (st : Stage). IsU64 st.target) stages
    → is_empty stages ≡ false
    → 0 < e
    → 0 < total_duration (new start stages)
    → (n : StageSnapshot) × (stage_snapshot_at search (new start stages) e ≡ some (some n))
      × IsFaithful search start stages e n
stage_snapshot_at-IsFaithful search start stages e first all nonempty positive long =
    elim (dec_lt e (total_duration (new start stages))) [
      | yes running ↦ running_snapshot search start stages first all e nonempty positive running
      | no over ↦ done_snapshot search start stages first all e nonempty positive long (omega arith)
    ]
