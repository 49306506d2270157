-- ===== src/Gate/Count.antt =====
-- How many calls of `next` start an iteration, and until when.
use wrkr.Prelude.{
  ℕ, suc, ◌+◌, ◌-◌, ◌≤◌, ◌<◌, ◌≡◌, refl, ◌∙◌, ap, min, Bool, false, Option, none, some, List, [],
  ◌∷◌, ltb, if◌then◌else◌, length, arith, u64_max,
}
use wrkr.Gate.{IterationGate, new, start_at, next, calls}

-- The bound of a gate: `iterations`, or 1 when it has neither bound.
abbrev pub allowed : Option ℕ → ℕ
allowed (some total) = total
allowed none = 1

count_one :
    (bound counter n : ℕ) (b : Bool) (k : ℕ)
    → b ≡ ltb counter bound
    → k ≡ min (bound - (counter + 1)) n
    → (if b then k + 1 else k) ≡ min (bound - counter) (suc n)
count_one bound counter n b k e h = ground arith

sub_zero : (n : ℕ) → n - 0 ≡ n
sub_zero n = omega arith

-- One call on a gate with no duration.
next_counts :
    (now : ℕ) (g : IterationGate)
    → g.duration ≡ none
    → g.counter < u64_max
    → ((next now g).0.duration ≡ none)
      × ((next now g).0.iterations ≡ g.iterations)
      × ((next now g).0.counter ≡ g.counter + 1)
      × ((next now g).1 ≡ ltb g.counter (allowed g.iterations))
unfolding next start_at
next_counts now g d fits = ground arith

calls-from :
    (nows : List ℕ) (g : IterationGate)
    → g.duration ≡ none
    → g.counter + length nows ≤ u64_max
    → (calls nows g).1 ≡ min (allowed g.iterations - g.counter) (length nows)
unfolding calls
calls-from [] g d fits = omega arith
calls-from (now ∷ later) g d fits =
    let (d', i, c, r) = next_counts now g d (omega arith) in
    let rest = calls-from later (next now g).0 d' (omega arith) in
    count_one (allowed g.iterations) g.counter (length later) (next now g).1 _ r
      (rest ∙ same_bound (next now g).0 i c)
  where
    same_bound :
        (h : IterationGate)
        → h.iterations ≡ g.iterations
        → h.counter ≡ g.counter + 1
        → min (allowed h.iterations - h.counter) (length later)
          ≡ min (allowed g.iterations - (g.counter + 1)) (length later)
    same_bound h p q = cc

-- A gate with no duration, called any number of times up to 2 ^ 64 - 1 by any users: exactly
-- min(iterations, calls) calls return true, and where no number of iterations is set, one.
pub calls-new :
    (iterations : Option ℕ) (nows : List ℕ)
    → length nows ≤ u64_max
    → (calls nows (new iterations none)).1 ≡ min (allowed iterations) (length nows)
calls-new iterations nows fits =
    calls-from nows (new iterations none) refl (omega arith)
    ∙ ap (λ (k : ℕ). min k (length nows)) (sub_zero (allowed iterations))

-- A gate with a duration that was started keeps its deadline.
record IsTimed (g : IterationGate) (iterations : Option ℕ) (duration deadline : ℕ) : Type 0 where
  duration_is : g.duration ≡ some duration
  deadline_is : g.deadline ≡ some deadline
  iterations_is : g.iterations ≡ iterations

next-IsTimed :
    (now : ℕ) (g : IterationGate) (it : Option ℕ) (d e : ℕ)
    → IsTimed g it d e
    → IsTimed (next now g).0 it d e
unfolding next start_at
next-IsTimed now g it d e v = ground arith

calls-IsTimed :
    (nows : List ℕ) (g : IterationGate) (it : Option ℕ) (d e : ℕ)
    → IsTimed g it d e
    → IsTimed (calls nows g).0 it d e
unfolding calls
calls-IsTimed [] g it d e v = v
calls-IsTimed (now ∷ later) g it d e v =
    calls-IsTimed later (next now g).0 it d e (next-IsTimed now g it d e v)

next_late :
    (now : ℕ) (g : IterationGate) (it : Option ℕ) (d e : ℕ)
    → IsTimed g it d e
    → ((e ≤ now → (next now g).1 ≡ false) × (it ≡ none → (next now g).1 ≡ ltb now e))
unfolding next start_at
next_late now g it d e v = (λ h. ground arith, λ h. ground arith)

start_at-IsTimed :
    (iterations : Option ℕ) (duration started : ℕ) (nows : List ℕ)
    → IsTimed
        (calls nows (start_at started (new iterations (some duration)))).0
        iterations
        duration
        (started + duration)
unfolding start_at
start_at-IsTimed iterations duration started nows =
    let g = start_at started (new iterations (some duration)) in
    calls-IsTimed nows g iterations duration (started + duration)
      (record { duration_is = refl; deadline_is = refl; iterations_is = refl })

-- A gate with a duration that the runner starts at `started`, after any calls and whatever its
-- number of iterations: from `started + duration` on `next` returns false.
pub next_after_deadline :
    (iterations : Option ℕ) (duration started now : ℕ) (nows : List ℕ)
    → started + duration ≤ now
    → (next now (calls nows (start_at started (new iterations (some duration)))).0).1 ≡ false
next_after_deadline iterations duration started now nows h =
    (next_late now _ iterations duration _ (start_at-IsTimed iterations duration started nows)).0 h

-- With a duration and no number of iterations, after any calls, `next` returns true exactly before
-- `started + duration`.
pub next_until_deadline :
    (duration started now : ℕ) (nows : List ℕ)
    → (next now (calls nows (start_at started (new none (some duration)))).0).1
      ≡ ltb now (started + duration)
next_until_deadline duration started now nows =
    (next_late now _ none duration _ (start_at-IsTimed none duration started nows)).1 refl
