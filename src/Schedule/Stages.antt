-- ===== src/Schedule/Stages.antt =====
-- The cumulative ends of `new` are sorted, and each stage in range has its frame.
use wrkr.Prelude.{
  ℕ, zero, suc, ◌-◌, ◌≤◌, ◌<◌, ◌≡◌, refl, some, some, List, [], ◌∷◌, arith, length, get_elem?,
  get_elem?_in_range, lt_of_get_elem?, last?, ◌⊎◌, inl, inr,
}
use wrkr.Schedule.{
  Stage, RampingU64Schedule, Frame, push_ends, new, duration_max, add_duration, or_else, frame,
}
use wrkr.Schedule.Search.{IsSorted}

length-push_ends : (acc : ℕ) (ss : List Stage) → length (push_ends acc ss) ≡ length ss
unfolding push_ends
length-push_ends acc [] = refl
length-push_ends acc (s ∷ ss) = omega (arith, length-push_ends (add_duration acc s.duration) ss)

push_ends-ge :
    (acc : ℕ) (ss : List Stage) (i a : ℕ)
    → acc ≤ duration_max
    → get_elem? (push_ends acc ss) i ≡ some a
    → acc ≤ a
unfolding push_ends
push_ends-ge acc [] i a h e = ground arith
push_ends-ge acc (s ∷ ss) zero a h e = ground arith
push_ends-ge acc (s ∷ ss) (suc i) a h e =
    omega (arith, push_ends-ge (add_duration acc s.duration) ss i a (omega arith) e)

push_ends-le :
    (acc : ℕ) (ss : List Stage) (i j a b : ℕ)
    → acc ≤ duration_max
    → i ≤ j
    → get_elem? (push_ends acc ss) i ≡ some a
    → get_elem? (push_ends acc ss) j ≡ some b
    → a ≤ b
unfolding push_ends
push_ends-le acc [] i j a b h ij p q = ground arith
push_ends-le acc (s ∷ ss) zero zero a b h ij p q = ground arith
push_ends-le acc (s ∷ ss) zero (suc j) a b h ij p q =
    ground (arith, push_ends-ge (add_duration acc s.duration) ss j b (omega arith) q)
push_ends-le acc (s ∷ ss) (suc i) zero a b h ij p q = absurd (omega arith)
push_ends-le acc (s ∷ ss) (suc i) (suc j) a b h ij p q =
    push_ends-le (add_duration acc s.duration) ss i j a b (omega arith) (omega arith) p q

-- What `new` establishes and no operation changes.
pub record IsWellFormed (s : RampingU64Schedule) : Type 0 where
  pub same_length : length s.cumulative_ends ≡ length s.stages
  pub sorted : IsSorted s.cumulative_ends

pub new-IsWellFormed : (start : ℕ) (stages : List Stage) → IsWellFormed (new start stages)
new-IsWellFormed start stages = record {
  same_length = length-push_ends 0 stages;
  sorted = record { le = λ i j a b ij p q. push_ends-le 0 stages i j a b (omega arith) ij p q };
}

-- The last element stands at the last index.
pub last?-at {ℓ} :
    {A : Type ℓ} (xs : List A) (k : ℕ)
    → length xs ≡ suc k
    → (t : A) × (last? xs ≡ some t) × (get_elem? xs k ≡ some t)
last?-at [] k h = absurd (omega arith)
last?-at (x ∷ []) zero h = (x, refl, refl)
last?-at (x ∷ []) (suc k) h = absurd (omega arith)
last?-at (x ∷ y ∷ ys) zero h = absurd (omega arith)
last?-at (x ∷ y ∷ ys) (suc k) h = last?-at (y ∷ ys) k (omega arith)

pub last_is_largest :
    (xs : List ℕ) (i a : ℕ) → IsSorted xs → get_elem? xs i ≡ some a → a ≤ or_else 0 (last? xs)
last_is_largest [] i a s h = ground arith
last_is_largest (x ∷ xs) i a s h =
    let (t, p, q) = last?-at (x ∷ xs) (length xs) refl in
    let inside = lt_of_get_elem? (x ∷ xs) i a h in rw p (s.le i (length xs) a t (omega arith) h q)

-- What the frame at an index holds.
pub record FrameAt (s : RampingU64Schedule) (i : ℕ) (f : Frame) : Type 0 where
  pub read : frame s i ≡ some f
  pub end_at : get_elem? s.cumulative_ends i ≡ some f.stage_end
  pub stage : Stage
  pub stage_at : get_elem? s.stages i ≡ some stage
  pub end_target : f.end_target ≡ stage.target
  pub start_at :
      ((i ≡ 0) × (f.stage_start ≡ 0) × (f.start_target ≡ s.start))
      ⊎ ((j : ℕ) × (st : Stage) × (i ≡ suc j)
          × (get_elem? s.cumulative_ends j ≡ some f.stage_start)
          × (get_elem? s.stages j ≡ some st)
          × (f.start_target ≡ st.target))

suc_sub_one : (n : ℕ) → suc n - 1 ≡ n
suc_sub_one n = omega arith

-- The frame of every index in range exists: no access of the three operations panics there.
pub frame_in_range :
    (s : RampingU64Schedule) (i : ℕ)
    → IsWellFormed s
    → i < length s.stages
    → (f : Frame) × FrameAt s i f
unfolding frame
frame_in_range s zero w h =
    let (e, pe) = get_elem?_in_range s.cumulative_ends 0 (omega (arith, w.same_length)) in
    let (st, ps) = get_elem?_in_range s.stages 0 h in
    (
      record { stage_start = 0; stage_end = e; start_target = s.start; end_target = st.target },
      record {
        read = rw (pe, ps) refl;
        end_at = pe;
        stage = st;
        stage_at = ps;
        end_target = refl;
        start_at = inl (refl, refl, refl);
      },
    )
frame_in_range s (suc i) w h =
    let (e, pe) = get_elem?_in_range s.cumulative_ends (suc i) (omega (arith, w.same_length)) in
    let (b, pb) = get_elem?_in_range s.cumulative_ends i (omega (arith, w.same_length)) in
    let (st, ps) = get_elem?_in_range s.stages (suc i) h in
    let (sb, pt) = get_elem?_in_range s.stages i (omega arith) in
    (
      record { stage_start = b; stage_end = e; start_target = sb.target; end_target = st.target },
      record {
        read = simp (suc_sub_one, pe, pb, ps, pt) (ground arith);
        end_at = pe;
        stage = st;
        stage_at = ps;
        end_target = refl;
        start_at = inr (i, sb, refl, pb, pt, refl);
      },
    )
