-- ===== src/Messages/Fixed.antt =====
-- Little-endian numbers of a fixed number of bytes.
use wrkr.Prelude.{
  ℕ, zero, suc, ◌*◌, ◌/◌, ◌<◌, ◌≡◌, refl, ◌++◌, length, length-append, take, drop, take-append,
  drop-append, subst, false, ltb, arith,
}
use wrkr.Prelude.Results.{ok}
use wrkr.Wire.{Bytes, WireError}
use wrkr.Messages.Scalar.{put_le, get_le, read_le}

-- The number of values of `n` bytes.
abbrev pub values : ℕ → ℕ
values zero = 1
values (suc n) = 256 * values n

pub length-put_le : (n v : ℕ) → length (put_le n v) ≡ n
unfolding put_le
length-put_le zero v = refl
length-put_le (suc n) v = omega (arith, length-put_le n (v / 256))

get_le-put_le : (n v : ℕ) → v < values n → get_le (put_le n v) ≡ v
unfolding put_le get_le
get_le-put_le zero v h = omega arith
get_le-put_le (suc n) v h = omega (arith, get_le-put_le n (v / 256) (omega arith))

-- A number that fits is read back from the bytes that `put_le` wrote for it.
pub read_le-put_le :
    (n v : ℕ) (e : WireError) (rest : Bytes)
    → v < values n
    → read_le n e (put_le n v ++ rest) ≡ ok (v, rest)
unfolding read_le
read_le-put_le n v e rest fits =
    let exact = length-put_le n v in
    let s = put_le n v ++ rest in
    let enough : ltb (length s) n ≡ false =
      ground (arith, length-append (put_le n v) rest, exact) in
    let taken = subst (λ (k : ℕ). take k s ≡ put_le n v) exact (take-append (put_le n v) rest) in
    let dropped = subst (λ (k : ℕ). drop k s ≡ rest) exact (drop-append (put_le n v) rest) in
    rw enough (rw taken (rw dropped (rw (get_le-put_le n v fits) refl)))
