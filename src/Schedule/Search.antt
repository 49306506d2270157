-- ===== src/Schedule/Search.antt =====
-- The contract of `slice::binary_search_by` on sorted keys, and a search that meets it.
use wrkr.Prelude.{ℕ, ◌≤◌, ◌<◌, ◌≡◌, some, List, length, get_elem?}

-- `Ok(i)` and `Err(i)`
pub data SearchResult : Type 0 where
  ok err : ℕ → SearchResult

-- `match … { Ok(i) => i, Err(i) => i }`
abbrev pub index : SearchResult → ℕ
index (ok i) = i
index (err i) = i

pub record IsSorted (xs : List ℕ) : Type 0 where
  pub le : (i j a b : ℕ) → i ≤ j → get_elem? xs i ≡ some a → get_elem? xs j ≡ some b → a ≤ b

-- `i` is where `x` belongs: what stands before is less, what stands from `i` on is greater.
pub record InsertsAt (xs : List ℕ) (x i : ℕ) : Type 0 where
  pub in_range : i ≤ length xs
  pub before : (j a : ℕ) → j < i → get_elem? xs j ≡ some a → a < x
  pub after : (j a : ℕ) → i ≤ j → get_elem? xs j ≡ some a → x < a

pub record BinarySearch : Type 0 where
  pub run : List ℕ → ℕ → SearchResult
  pub finds : (xs : List ℕ) (x i : ℕ) → IsSorted xs → run xs x ≡ ok i → get_elem? xs i ≡ some x
  pub inserts : (xs : List ℕ) (x i : ℕ) → IsSorted xs → run xs x ≡ err i → InsertsAt xs x i
