-- ===== src/Schedule/Location.antt =====
-- Which stage the search of the code finds, and that the elapsed time lies in it.
use wrkr.Prelude.{
  ℕ, zero, suc, ◌≤◌, ◌<◌, ◌≡◌, refl, some, some, List, [], ◌∷◌, arith, length, get_elem?,
  lt_of_get_elem?, last?, ◌⊎◌, inl, inr, sym, dec_lt,
}
use wrkr.Schedule.{RampingU64Schedule, Frame, total_duration, or_else, stage_index}
use wrkr.Schedule.Search.{SearchResult, ok, err, InsertsAt, BinarySearch, index}
use wrkr.Schedule.Stages.{IsWellFormed, last?-at, last_is_largest, FrameAt, frame_in_range}

-- The elapsed time lies in the stage that the search names.
pub record Located (search : BinarySearch) (s : RampingU64Schedule) (elapsed : ℕ) : Type 0 where
  pub frame_of : Frame
  pub at : FrameAt s (stage_index search s elapsed) frame_of
  pub started : frame_of.stage_start ≤ elapsed
  pub not_ended : elapsed ≤ frame_of.stage_end
  pub inside :
      ((frame_of.stage_start ≡ 0) × (frame_of.start_target ≡ s.start))
      ⊎ ((frame_of.stage_start < elapsed) ⊎ (frame_of.stage_end ≡ elapsed))

total_of_empty : (xs : List ℕ) → length xs ≡ 0 → or_else 0 (last? xs) ≡ 0
total_of_empty [] h = refl
total_of_empty (x ∷ xs) h = absurd (omega arith)

-- An insertion point of a time before the total duration is the index of a stage.
inserts_in_range :
    (s : RampingU64Schedule) (elapsed i k : ℕ)
    → elapsed < total_duration s
    → length s.cumulative_ends ≡ k
    → InsertsAt s.cumulative_ends elapsed i
    → i < k
inserts_in_range s elapsed i zero h l ins =
    absurd (omega (arith, total_of_empty s.cumulative_ends l))
inserts_in_range s elapsed i (suc k) h l ins = elim (dec_lt i (suc k)) [
  | yes p ↦ p
  | no p ↦
      let (t, q, r) = last?-at s.cumulative_ends k l in
      let before = ins.before k t (omega arith) r in
      let total : total_duration s ≡ t = rw q in absurd (omega arith)
]

module _ (search : BinarySearch) (s : RampingU64Schedule) (w : IsWellFormed s) (elapsed : ℕ) where
  abbrev AroundIndex : ℕ → Type 0
  AroundIndex i =
      (i < length s.cumulative_ends)
      × ((j a : ℕ) → suc j ≡ i → get_elem? s.cumulative_ends j ≡ some a → a ≤ elapsed)
      × ((a : ℕ) → get_elem? s.cumulative_ends i ≡ some a → elapsed ≤ a)
      × ((j a b : ℕ)
          → suc j ≡ i
          → get_elem? s.cumulative_ends j ≡ some a
          → get_elem? s.cumulative_ends i ≡ some b
          → (a < elapsed) ⊎ (b ≡ elapsed))

  around_result :
      (r : SearchResult)
      → search.run s.cumulative_ends elapsed ≡ r
      → elapsed < total_duration s
      → AroundIndex (index r)
  around_result (ok i) e h =
      let found = search.finds s.cumulative_ends elapsed i w.sorted e in
      (
        lt_of_get_elem? s.cumulative_ends i elapsed found,
        λ j a p q. w.sorted.le j i a elapsed (omega arith) q found,
        λ a p. w.sorted.le i i elapsed a (omega arith) found p,
        λ j a b p q r. inr (cc (found, r)),
      )
  around_result (err i) e h =
      let ins = search.inserts s.cumulative_ends elapsed i w.sorted e in
      (
        inserts_in_range s elapsed i _ h refl ins,
        λ j a p q. let lt = ins.before j a (omega arith) q in omega arith,
        λ a p. let lt = ins.after i a (omega arith) p in omega arith,
        λ j a b p q r. inl (ins.before j a (omega arith) q),
      )

  -- Before the end of the schedule the search names a stage around the elapsed time.
  pub located : elapsed < total_duration s → Located search s elapsed
  unfolding stage_index
  located h =
      let (in_range, above, below, strict) =
        around_result (search.run s.cumulative_ends elapsed) refl h in
      let (f, at) =
        frame_in_range s (stage_index search s elapsed) w (omega (arith, w.same_length)) in
      record {
        frame_of = f;
        at = at;
        started = elim (at.start_at) [
          | inl p ↦ omega (arith, p.1)
          | inr (j, st, p, q, r, u) ↦ above j f.stage_start (sym p) q
        ];
        not_ended = below f.stage_end at.end_at;
        inside = elim (at.start_at) [
          | inl p ↦ inl (p.1, p.2)
          | inr (j, st, p, q, r, u) ↦ inr (strict j f.stage_start f.stage_end (sym p) q at.end_at)
        ];
      }

-- The end before the stage's index, where the stage is not the first.
start_before :
    (s : RampingU64Schedule) (i : ℕ) (f : Frame) (j : ℕ)
    → FrameAt s i f
    → j < i
    → (k : ℕ) × (i ≡ suc k) × (get_elem? s.cumulative_ends k ≡ some f.stage_start)
start_before s i f j at h = elim (at.start_at) [
  | inl p ↦ absurd (omega (arith, p.0))
  | inr (k, st, p, q, r, u) ↦ (k, p, q)
]

module _ (search : BinarySearch) (s : RampingU64Schedule) (w : IsWellFormed s) (i t : ℕ) (f : Frame)
    (at : FrameAt s i f) (after_start : f.stage_start < t) (before_end : t < f.stage_end) where
  not_before : (r : SearchResult) → search.run s.cumulative_ends t ≡ r → ¬ (index r < i)
  not_before (ok j) e h =
      let (k, p, q) = start_before s i f j at h in
      let found = search.finds s.cumulative_ends t j w.sorted e in
      let le = w.sorted.le j k t f.stage_start (omega arith) found q in omega arith
  not_before (err j) e h =
      let (k, p, q) = start_before s i f j at h in
      let ins = search.inserts s.cumulative_ends t j w.sorted e in
      let le = ins.after k f.stage_start (omega arith) q in omega arith

  not_after : (r : SearchResult) → search.run s.cumulative_ends t ≡ r → ¬ (i < index r)
  not_after (ok j) e h =
      let found = search.finds s.cumulative_ends t j w.sorted e in
      let le = w.sorted.le i j f.stage_end t (omega arith) at.end_at found in omega arith
  not_after (err j) e h =
      let ins = search.inserts s.cumulative_ends t j w.sorted e in
      let le = ins.before i f.stage_end h at.end_at in omega arith

  -- Strictly inside a stage every search names that stage.
  pub stage_index_inside : stage_index search s t ≡ i
  unfolding stage_index
  stage_index_inside =
      let r = search.run s.cumulative_ends t in omega (arith, not_before r refl, not_after r refl)

-- A stage ends no later than the schedule.
pub stage_end-le-total :
    (s : RampingU64Schedule) (i : ℕ) (f : Frame)
    → IsWellFormed s
    → FrameAt s i f
    → f.stage_end ≤ total_duration s
stage_end-le-total s i f w at = last_is_largest s.cumulative_ends i f.stage_end w.sorted at.end_at
