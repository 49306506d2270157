-- ===== src/Messages/Readers.antt =====
-- Readers: what they take from the buffer, and that none of them stops a loop early.
use wrkr.Prelude.{
  ℕ, zero, suc, ◌+◌, ◌<◌, ◌≤◌, ◌≡◌, ◌≢◌, refl, ap, subst, inl, inr, Bool-cases, [], ◌∷◌, length,
  take, drop, ltb, ◌==◌, if◌then◌else◌, ◌%◌, arith,
}
use wrkr.Prelude.Results.{ok, err, ◌>>=◌, ResultOf-cases}
use wrkr.Wire.{
  Bytes, Result, WireError, WireType, varint, sixty_four_bit, len, thirty_two_bit, out_of_fuel,
  invalid_length_delimited, try_from, read_variant, read_variant_loop, group_at, read_len_delimited,
  read_tag, skip_value, advance,
}
use wrkr.Wire.Varint.{read_variant_takes}
use wrkr.Wire.Fields.{skip_value_takes, length-drop}
use wrkr.Messages.Scalar.{read_le}

-- The result is a value or one of the code's errors.
abbrev pub Ends {ℓ} : {A : Type ℓ} → Result A → Type 0
Ends (ok x) = Unit
Ends (err e) = e ≢ out_of_fuel

-- And the value leaves less of the buffer.
abbrev pub IsReader {ℓ} : {A : Type ℓ} → Bytes → Result (A × Bytes) → Type 0
IsReader s (ok (x, s')) = length s' < length s
IsReader s (err e) = e ≢ out_of_fuel

pub Ends-of {ℓ} : {A : Type ℓ} (r : Result A) → r ≢ err out_of_fuel → Ends r
Ends-of (ok x) h = tt
Ends-of (err e) h = λ same. h (ap err same)

pub Ends-ne {ℓ} : {A : Type ℓ} (r : Result A) → Ends r → r ≢ err out_of_fuel
Ends-ne (ok x) h = λ e. cc
Ends-ne (err e) h = λ same. let inner : e ≡ out_of_fuel = cc in h inner

pub IsReader-of {ℓ} :
    {A : Type ℓ} (s : Bytes) (r : Result (A × Bytes))
    → ((x : A) (s' : Bytes) → r ≡ ok (x, s') → length s' < length s)
    → r ≢ err out_of_fuel
    → IsReader s r
IsReader-of s (ok (x, s')) shorter h = shorter x s' refl
IsReader-of s (err e) shorter h = λ same. h (ap err same)

-- A reader, and then a step that reads on or ends.
pub IsReader-bind {ℓ κ} :
    {A : Type ℓ} {B : Type κ} (s : Bytes) (r : Result (A × Bytes))
    (next : A × Bytes → Result (B × Bytes))
    → IsReader s r
    → ((x : A) (s' : Bytes) → r ≡ ok (x, s') → length s' < length s → IsReader s (next (x, s')))
    → IsReader s (r >>= next)
IsReader-bind s (ok (x, s')) next h then_ok = then_ok x s' refl h
IsReader-bind s (err e) next h then_ok = h

pub Ends-bind {ℓ κ} :
    {A : Type ℓ} {B : Type κ} (s : Bytes) (r : Result (A × Bytes)) (next : A × Bytes → Result B)
    → IsReader s r
    → ((x : A) (s' : Bytes) → length s' < length s → Ends (next (x, s')))
    → Ends (r >>= next)
Ends-bind s (ok (x, s')) next h then_ok = then_ok x s' h
Ends-bind s (err e) next h then_ok = h

-- A step that reads nothing, and then a reader.
pub IsReader-after {ℓ κ} :
    {A : Type ℓ} {B : Type κ} (s : Bytes) (r : Result A) (next : A → Result (B × Bytes))
    → Ends r
    → ((x : A) → IsReader s (next x))
    → IsReader s (r >>= next)
IsReader-after s (ok x) next h then_ok = then_ok x
IsReader-after s (err e) next h then_ok = h

pub Ends-after {ℓ κ} :
    {A : Type ℓ} {B : Type κ} (r : Result A) (next : A → Result B)
    → Ends r
    → ((x : A) → Ends (next x))
    → Ends (r >>= next)
Ends-after (ok x) next h then_ok = then_ok x
Ends-after (err e) next h then_ok = h

variant_loop_ends :
    (src : Bytes) (shift out : ℕ) → read_variant_loop shift out src ≢ err out_of_fuel
unfolding read_variant_loop
variant_loop_ends [] shift out = λ h. cc
variant_loop_ends (b ∷ src) shift out =
    λ h. ground (arith, h, variant_loop_ends src (shift + 7) (out + group_at b shift))

pub read_variant-IsReader : (s : Bytes) → IsReader s (read_variant s)
unfolding read_variant
read_variant-IsReader s =
    IsReader-of s (read_variant s) (λ x s' e. (read_variant_takes s x s' e).1)
      (variant_loop_ends s 0 0)

length-take : (n : ℕ) (xs : Bytes) → length (take n xs) ≤ length xs
length-take zero xs = omega arith
length-take (suc n) [] = omega arith
length-take (suc n) (x ∷ xs) = omega (arith, length-take n xs)

-- A body is shorter than what it was in.
pub read_len_delimited_body :
    (s body s' : Bytes) → read_len_delimited s ≡ ok (body, s') → length body < length s
unfolding read_len_delimited
read_len_delimited_body s body s' h = elim (ResultOf-cases (read_variant s)) [
  | inl ((n, rest), e) ↦ ground (arith, e, read_variant_takes s n rest e, length-take n rest)
  | inr (x, e) ↦ cc
]

refuses {ℓ} :
    {A : Type ℓ} (e : WireError) → e ≢ out_of_fuel → ◌≢◌ {A = Result A} (err e) (err out_of_fuel)
refuses e h = λ same. let inner : e ≡ out_of_fuel = cc in h inner

pub read_len_delimited-IsReader : (s : Bytes) → IsReader s (read_len_delimited s)
unfolding read_len_delimited
read_len_delimited-IsReader s =
    let next = λ (x : ℕ × Bytes).
      if ltb (length x.1) x.0
      then err invalid_length_delimited
      else ok (take x.0 x.1, drop x.0 x.1) in
    IsReader-bind s (read_variant s) next (read_variant-IsReader s) (λ n s' e shorter.
      elim (Bool-cases (ltb (length s') n)) [
        | inl short ↦ rw short (λ h. cc)
        | inr enough ↦ rw enough (omega (arith, length-drop n s', shorter))
      ])

pub read_le-IsReader :
    (n : ℕ) (e : WireError) (s : Bytes) → 0 < n → e ≢ out_of_fuel → IsReader s (read_le n e s)
unfolding read_le
read_le-IsReader n e s some_bytes h = elim (Bool-cases (ltb (length s) n)) [
  | inl short ↦ rw short h
  | inr enough ↦ rw enough (ground (arith, length-drop n s))
]

try_from-Ends : (v : ℕ) → Ends (try_from v)
unfolding try_from
try_from-Ends v = Ends-of (try_from v) (λ h. ground (arith, h))

pub read_tag-IsReader : (s : Bytes) → IsReader s (read_tag s)
unfolding read_tag
read_tag-IsReader s =
    IsReader-bind s (read_variant s) _ (read_variant-IsReader s) (λ tag s' e shorter.
      elim (Bool-cases (tag == 0)) [
        | inl zeroed ↦ rw zeroed (λ h. cc)
        | inr some_tag ↦
            rw some_tag
              (IsReader-after s (try_from (tag % 8)) _ (try_from-Ends (tag % 8)) (λ t. shorter))
      ])

-- Skipping gives no value; it leaves less of the buffer too.
pub skip_value-Ends : (t : WireType) (s : Bytes) → Ends (skip_value t s)
unfolding skip_value advance
skip_value-Ends varint s = Ends-bind s (read_variant s) _ (read_variant-IsReader s) (λ x s' e. tt)
skip_value-Ends sixty_four_bit s = Ends-of (skip_value sixty_four_bit s) (λ h. ground (arith, h))
skip_value-Ends len s =
    Ends-bind s (read_len_delimited s) _ (read_len_delimited-IsReader s) (λ x s' e. tt)
skip_value-Ends thirty_two_bit s = Ends-of (skip_value thirty_two_bit s) (λ h. ground (arith, h))

pub skip-IsReader {ℓ} :
    {A : Type ℓ} (x : A) (t : WireType) (s : Bytes)
    → IsReader s (skip_value t s >>= (λ (s' : Bytes). ok (x, s')))
skip-IsReader x t s = elim (ResultOf-cases (skip_value t s)) [
  | inl (s', e) ↦ rw e (skip_value_takes t s s' e)
  | inr (x', e) ↦ rw e (subst Ends e (skip_value-Ends t s))
]
