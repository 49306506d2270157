-- ===== src/Wire/Fields.antt =====
-- Tags, length-delimited fields, and the skipping of a field.
use wrkr.Prelude.{
  ℕ, zero, suc, [], ◌∷◌, inl, inr, subst, ◌+◌, ◌-◌, ◌*◌, ◌/◌, ◌%◌, ◌^◌, ◌<◌, ◌≡◌, ◌≢◌, refl, false,
  ◌++◌, length, length-append, drop, take-append, drop-append, ltb, ◌==◌, arith, IsU64,
}
use wrkr.Wire.{
  Bytes, WireError, invalid_fixed32, invalid_fixed64, WireType, varint, sixty_four_bit, len,
  thirty_two_bit, try_from, wire_type_number, write_tag, read_tag, write_variant, read_variant,
  write_len_delimited, read_len_delimited, skip_value, advance,
}
use wrkr.Prelude.Results.{ok, ResultOf-cases}
use wrkr.Wire.Varint.{read_variant-write_variant, read_variant_takes}
use mathlib.Core.List.{append_assoc}

try_from-wire_type_number : (t : WireType) → try_from (wire_type_number t) ≡ ok t
unfolding try_from wire_type_number
try_from-wire_type_number varint = refl
try_from-wire_type_number sixty_four_bit = refl
try_from-wire_type_number len = refl
try_from-wire_type_number thirty_two_bit = refl

wire_type_number_below : (t : WireType) → wire_type_number t < 8
unfolding wire_type_number
wire_type_number_below varint = omega arith
wire_type_number_below sixty_four_bit = omega arith
wire_type_number_below len = omega arith
wire_type_number_below thirty_two_bit = omega arith

-- The decoding loop reads back the number and the wire type of every tag that `write_tag` wrote,
-- for a field number of 32 bits that is not 0, and leaves what comes after the tag.
pub read_tag-write_tag :
    (n : ℕ) (t : WireType) (rest : Bytes)
    → n ≢ 0
    → n < 2 ^ 32
    → read_tag (write_tag n t ++ rest) ≡ ok ((n, t), rest)
unfolding read_tag write_tag
read_tag-write_tag n t rest nonzero small =
    let below = wire_type_number_below t in
    let tag = n * 8 + wire_type_number t in
    let number : tag / 8 % 2 ^ 32 ≡ n = omega arith in
    let kind : tag % 8 ≡ wire_type_number t = omega arith in
    let some_tag : (tag == 0) ≡ false = ground arith in
    rw (read_variant-write_variant tag rest (omega arith))
      (rw some_tag (rw kind (rw (try_from-wire_type_number t) (rw number refl))))

-- `read_len_delimited` reads back what `write_len_delimited` wrote, whatever the bytes are.
pub read_len_delimited-write_len_delimited :
    (bytes rest : Bytes)
    → IsU64 (length bytes)
    → read_len_delimited (write_len_delimited bytes ++ rest) ≡ ok (bytes, rest)
unfolding read_len_delimited write_len_delimited
read_len_delimited-write_len_delimited bytes rest fits =
    let enough : ltb (length (bytes ++ rest)) (length bytes) ≡ false =
      ground (arith, length-append bytes rest) in
    rw (append_assoc (write_variant (length bytes)) bytes rest) (
      rw (read_variant-write_variant (length bytes) (bytes ++ rest) fits)
        (rw enough (rw (take-append bytes rest) (rw (drop-append bytes rest) refl))))

-- The bytes of a value of a wire type, as an encoder writes it.
unfoldable pub IsWritten : WireType → Bytes → Type 0
IsWritten varint bytes = (v : ℕ) × (IsU64 v × (bytes ≡ write_variant v))
IsWritten sixty_four_bit bytes = length bytes ≡ 8
IsWritten len bytes = (body : Bytes) × (IsU64 (length body) × (bytes ≡ write_len_delimited body))
IsWritten thirty_two_bit bytes = length bytes ≡ 4

advance-append :
    (n : ℕ) (e : WireError) (bytes rest : Bytes)
    → length bytes ≡ n
    → advance n e (bytes ++ rest) ≡ ok rest
unfolding advance
advance-append n e bytes rest exact =
    let enough : ltb (length (bytes ++ rest)) n ≡ false =
      ground (arith, length-append bytes rest) in
    let dropped : drop n (bytes ++ rest) ≡ rest =
      subst (λ (k : ℕ). drop k (bytes ++ rest) ≡ rest) exact (drop-append bytes rest) in
    rw enough (rw dropped refl)

-- Skipping the value of a field takes the bytes that an encoder wrote for it, all of them and no
-- other, for each wire type.
pub skip_value-IsWritten :
    (t : WireType) (bytes rest : Bytes) → IsWritten t bytes → skip_value t (bytes ++ rest) ≡ ok rest
unfolding skip_value IsWritten
skip_value-IsWritten varint bytes rest (v, (fits, e)) =
    rw e (rw (read_variant-write_variant v rest fits) refl)
skip_value-IsWritten sixty_four_bit bytes rest exact =
    advance-append 8 invalid_fixed64 bytes rest exact
skip_value-IsWritten len bytes rest (body, (fits, e)) =
    rw e (rw (read_len_delimited-write_len_delimited body rest fits) refl)
skip_value-IsWritten thirty_two_bit bytes rest exact =
    advance-append 4 invalid_fixed32 bytes rest exact

pub length-drop : (n : ℕ) (xs : Bytes) → length (drop n xs) ≡ length xs - n
length-drop zero xs = omega arith
length-drop (suc n) [] = omega arith
length-drop (suc n) (x ∷ xs) = omega (arith, length-drop n xs)

advance_takes :
    (n : ℕ) (e : WireError) (src rest : Bytes)
    → advance n e src ≡ ok rest
    → length rest + n ≡ length src
unfolding advance
advance_takes n e src rest h = ground (arith, length-drop n src)

pub read_len_delimited_takes :
    (src body rest : Bytes) → read_len_delimited src ≡ ok (body, rest) → length rest < length src
unfolding read_len_delimited
read_len_delimited_takes src body rest h = elim (ResultOf-cases (read_variant src)) [
  | inl ((n, src'), e) ↦ ground (arith, e, read_variant_takes src n src' e, length-drop n src')
  | inr (x, e) ↦ cc
]

-- Whatever the buffer holds, a value that is skipped takes at least one byte, so that the decoding
-- loop ends.
pub skip_value_takes :
    (t : WireType) (src rest : Bytes) → skip_value t src ≡ ok rest → length rest < length src
unfolding skip_value
skip_value_takes varint src rest h = elim (ResultOf-cases (read_variant src)) [
  | inl ((v, src'), e) ↦ ground (arith, e, read_variant_takes src v src' e)
  | inr (x, e) ↦ cc
]
skip_value_takes sixty_four_bit src rest h =
    omega (arith, advance_takes 8 invalid_fixed64 src rest h)
skip_value_takes len src rest h = elim (ResultOf-cases (read_len_delimited src)) [
  | inl ((v, src'), e) ↦ ground (arith, e, read_len_delimited_takes src v src' e)
  | inr (x, e) ↦ cc
]
skip_value_takes thirty_two_bit src rest h =
    omega (arith, advance_takes 4 invalid_fixed32 src rest h)
