-- ===== src/Registry/Defs.antt =====
-- The list of metric definitions: finding a name in it, and pushing one.
use wrkr.Prelude.{
  ℕ, ◌<◌, ◌≤◌, ◌≡◌, refl, Option, none, some, Option-cases, inl, inr, List, [], ◌∷◌, ◌++◌, All,
  length, arith, ◌==◌, if◌then◌else◌,
}
use wrkr.Metrics.{Interner}
use wrkr.Registry.{MetricKind, MetricDef, find_def}

-- The names of the metrics are numbers that the interner gave.
abbrev pub AreInterned : List MetricDef → Interner → Type 0
AreInterned defs i = All (λ (d : MetricDef). d.name < length i.names) defs

pub find_def-none :
    (n : ℕ) (defs : List MetricDef)
    → All (λ (d : MetricDef). d.name < n) defs
    → find_def n defs ≡ none
unfolding find_def
find_def-none n [] h = refl
find_def-none n (d ∷ defs) h = ground (arith, find_def-none n defs h.1)

pub find_def-push :
    (n : ℕ) (defs : List MetricDef) (e : MetricDef)
    → find_def n (defs ++ (e ∷ [])) ≡ elim (find_def n defs) [
      | some found ↦ some found
      | none ↦ if e.name == n then some (length defs, e.kind) else none
    ]
unfolding find_def
find_def-push n [] e = ground arith
find_def-push n (d ∷ defs) e = ground (arith, find_def-push n defs e)

pub find_def-lt :
    (n i : ℕ) (k : MetricKind) (defs : List MetricDef)
    → find_def n defs ≡ some (i, k)
    → i < length defs
unfolding find_def
find_def-lt n i k [] h = cc
find_def-lt n i k (d ∷ defs) h = elim (Option-cases (find_def n defs)) [
  | inl missing ↦ ground (arith, missing)
  | inr ((j, l), found) ↦ ground (arith, found, find_def-lt n j l defs found)
]

-- The metric of a name that may never have been interned.
abbrev pub metric_of : Option ℕ → List MetricDef → Option (ℕ × MetricKind)
metric_of none defs = none
metric_of (some id) defs = find_def id defs

-- The metric that a registration gives: the one that has the name, or a new one.
abbrev pub registered : Option (ℕ × MetricKind) → ℕ → MetricKind → ℕ × MetricKind
registered (some found) next kind = found
registered none next kind = (next, kind)

pub All-below :
    (n m : ℕ) (defs : List MetricDef)
    → n ≤ m
    → All (λ (d : MetricDef). d.name < n) defs
    → All (λ (d : MetricDef). d.name < m) defs
All-below n m [] le h = tt
All-below n m (d ∷ defs) le h = (omega (arith, h.0), All-below n m defs le h.1)

pub All-push :
    (n : ℕ) (e : MetricDef) (defs : List MetricDef)
    → e.name < n
    → All (λ (d : MetricDef). d.name < n) defs
    → All (λ (d : MetricDef). d.name < n) (defs ++ (e ∷ []))
All-push n e [] lt h = (lt, tt)
All-push n e (d ∷ defs) lt h = (h.0, All-push n e defs lt h.1)
