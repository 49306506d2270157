-- ===== src/Gate.antt =====
-- wrkr-core/src/gate.rs: how many iterations the users of a constant scenario start. Every call
-- of `next` makes one atomic `fetch_add`, so a sequence of calls is any interleaving of the users.
-- An `Instant` is a number of nanoseconds, and adding a duration to it does not overflow.
pub mod Count
mod Runs
use wrkr.Prelude.{
  ℕ, ◌+◌, Bool, true, false, Option, none, some, List, [], ◌∷◌, ltb, leb, if◌then◌else◌,
  wrapping_add,
}

pub record IterationGate : Type 0 where
  pub counter : ℕ
  pub iterations : Option ℕ
  pub duration : Option ℕ
  pub deadline : Option ℕ

abbrev pub new : Option ℕ → Option ℕ → IterationGate
new iterations duration = record {
  counter = 0;
  iterations = iterations;
  duration = duration;
  deadline = none;
}

-- `OnceLock::set`: the first deadline stays.
abbrev set_deadline : Option ℕ → Option ℕ → ℕ → Option ℕ
set_deadline (some deadline) duration started = some deadline
set_deadline none (some duration) started = some (started + duration)
set_deadline none none started = none

pub start_at : ℕ → IterationGate → IterationGate
start_at started g = record g { deadline = set_deadline g.deadline g.duration started }

-- `start_at` when the gate has a duration, as `next` calls it.
pub lazy_start : Option ℕ → ℕ → IterationGate → IterationGate
unfolding start_at
lazy_start (some duration) now g = start_at now g
lazy_start none now g = g

-- Whether the deadline of a gate with a duration has passed.
pub expired : Option ℕ → Option ℕ → ℕ → Bool
expired (some duration) (some deadline) now = leb deadline now
expired (some duration) none now = false
expired none deadline now = false

-- The counting half of `next`.
pub take_index : Option ℕ → Option ℕ → IterationGate → IterationGate × Bool
take_index (some total) duration g =
    (record g { counter = wrapping_add g.counter 1 }, if leb total g.counter then false else true)
take_index none none g =
    (record g { counter = wrapping_add g.counter 1 }, if ltb 0 g.counter then false else true)
take_index none (some duration) g = (g, true)

pub next : ℕ → IterationGate → IterationGate × Bool
unfolding lazy_start expired take_index
next now g =
    let started = lazy_start g.duration now g in
    if expired g.duration started.deadline now
    then (started, false)
    else take_index started.iterations started.duration started

-- A sequence of calls, each at its time: the gate at the end, and how many returned true.
pub calls : List ℕ → IterationGate → IterationGate × ℕ
calls [] g = (g, 0)
calls (now ∷ later) g =
    let (g1, started) = next now g in
    let (g2, n) = calls later g1 in (g2, if started then n + 1 else n)
