-- ===== src/Schedule/Linear.antt =====
-- A search that meets the contract of `BinarySearch`: from the front to the first match.
use wrkr.Prelude.{
  ℕ, zero, suc, ◌≤◌, ◌<◌, ◌≡◌, refl, some, List, [], ◌∷◌, arith, ltb, ◌==◌, if◌then◌else◌,
  get_elem?,
}
use wrkr.Schedule.Search.{SearchResult, ok, err, IsSorted, InsertsAt, BinarySearch}

unfoldable pub shift : SearchResult → SearchResult
shift (ok i) = ok (suc i)
shift (err i) = err (suc i)

unfoldable pub position : List ℕ → ℕ → SearchResult
position [] x = err 0
position (y ∷ ys) x = if y == x then ok 0 else if ltb x y then err 0 else shift (position ys x)

IsSorted-tail : (y : ℕ) (ys : List ℕ) → IsSorted (y ∷ ys) → IsSorted ys
IsSorted-tail y ys s = record { le = λ i j a b h. s.le (suc i) (suc j) a b (omega arith) }

pub position-ok : (xs : List ℕ) (x i : ℕ) → position xs x ≡ ok i → get_elem? xs i ≡ some x
unfolding position shift
position-ok [] x i e = cc
position-ok (y ∷ ys) x zero e = ground arith
position-ok (y ∷ ys) x (suc i) e = ground (arith, position-ok ys x i)

InsertsAt-here : (y x : ℕ) (ys : List ℕ) → IsSorted (y ∷ ys) → x < y → InsertsAt (y ∷ ys) x 0
InsertsAt-here y x ys s h = record {
  in_range = omega arith;
  before = λ j a p q. absurd (omega arith);
  after = λ j a p q. let le = s.le 0 j y a p refl q in omega arith;
}

before_suc :
    (y x i : ℕ) (ys : List ℕ)
    → y < x
    → InsertsAt ys x i
    → (j a : ℕ) → j < suc i
    → get_elem? (y ∷ ys) j ≡ some a
    → a < x
before_suc y x i ys h ins zero a p q = ground arith
before_suc y x i ys h ins (suc j) a p q = ins.before j a (omega arith) q

after_suc :
    (y x i : ℕ) (ys : List ℕ)
    → InsertsAt ys x i
    → (j a : ℕ) → suc i ≤ j
    → get_elem? (y ∷ ys) j ≡ some a
    → x < a
after_suc y x i ys ins zero a p q = absurd (omega arith)
after_suc y x i ys ins (suc j) a p q = ins.after j a (omega arith) q

InsertsAt-suc : (y x i : ℕ) (ys : List ℕ) → y < x → InsertsAt ys x i → InsertsAt (y ∷ ys) x (suc i)
InsertsAt-suc y x i ys h ins = record {
  in_range = let r = ins.in_range in omega arith;
  before = before_suc y x i ys h ins;
  after = after_suc y x i ys ins;
}

pub position-err : (xs : List ℕ) (x i : ℕ) → IsSorted xs → position xs x ≡ err i → InsertsAt xs x i
unfolding position shift
position-err [] x zero s e = record {
  in_range = omega arith;
  before = λ j a p q. absurd (omega arith);
  after = λ j a p q. cc;
}
position-err [] x (suc i) s e = cc
position-err (y ∷ ys) x zero s e = InsertsAt-here y x ys s (ground arith)
position-err (y ∷ ys) x (suc i) s e =
    InsertsAt-suc y x i ys (ground arith)
      (position-err ys x i (IsSorted-tail y ys s) (ground arith))

abbrev pub linear : BinarySearch
linear = record {
  run = position;
  finds = λ xs x i s e. position-ok xs x i e;
  inserts = position-err;
}
