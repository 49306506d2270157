-- ===== src/Registry/Rates.antt =====
-- `MetricHandle::add_rate` of wrkr-metrics/src/metrics.rs at its two atomic additions, with any number
-- of threads, and what `summarize` reads in between.
use wrkr.Prelude.{ℕ, ◌+◌, ◌≤◌, ◌≡◌, List, [], ◌∷◌, ◌++◌, wrapping_add, u64_max}
use wrkr.Thresholds.Folds.{Doubles}
use wrkr.Registry.HdrHistogram.{Histograms}
use wrkr.Registry.{rate}
use wrkr.Registry.Summaries.{MetricValue, reported_value}

-- The storage of a rate, and what the threads between their two additions still have to add.
pub record SharedRate : Type 0 where
  pub total : ℕ
  pub hits : ℕ
  pub owed : List ℕ

abbrev pub owing : List ℕ → ℕ
owing [] = 0
owing (n ∷ owed) = n + owing owed

-- A thread adds the hits, and later the total. The hits of a call are not more than its total, as in
-- the script's `add`, and the totals fit a u64.
pub data Step (s t : SharedRate) : Type 0 where
  add_hits :
      (hits total : ℕ)
      → hits ≤ total
      → s.total + owing s.owed + total ≤ u64_max
      → t ≡ record s { hits = wrapping_add s.hits hits; owed = total ∷ s.owed }
      → Step s t
  add_total :
      (before after : List ℕ) (total : ℕ)
      → s.owed ≡ before ++ (total ∷ after)
      → t ≡ record s { total = wrapping_add s.total total; owed = before ++ after }
      → Step s t

abbrev pub new_rate : SharedRate
new_rate = record { total = 0; hits = 0; owed = [] }

pub data Reach : SharedRate → Type 0 where
  begin : Reach new_rate
  step : (s t : SharedRate) → Reach s → Step s t → Reach t

abbrev IsRated : SharedRate → Type 0
IsRated s = (s.hits ≤ s.total + owing s.owed) × (s.total + owing s.owed ≤ u64_max)

module _ (lib : Histograms) (nums : Doubles lib) where
  -- What `summarize` reports of a rate as it stands.
  abbrev pub seen : SharedRate → MetricValue lib.Float
  seen s = reported_value lib nums (rate s.total s.hits)
