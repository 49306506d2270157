-- ===== src/Registry/HdrHistogram.antt =====
-- What the program uses of the hdrhistogram crate, and of 64-bit floating-point numbers for what a
-- histogram reports.
use wrkr.Prelude.{ℕ}

pub record Histograms : Type 1 where
  pub Hist : Type 0
  pub Float : Type 0
  pub empty : Hist
  pub record_value : ℕ → Hist → Hist
  pub add : Hist → Hist → Hist
  pub len : Hist → ℕ
  pub value_at_percentile : ℕ → Hist → ℕ
  pub min_value : Hist → ℕ
  pub max_value : Hist → ℕ
  pub mean : Hist → Float
  pub stdev : Hist → Float
  pub float_of : ℕ → Float
