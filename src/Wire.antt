-- ===== src/Wire.antt =====
-- wrkr-grpc/src/wire/primitives.rs, and the reading of a field's tag in wire/decode.rs: the pieces
-- of the protobuf wire format.
-- A buffer is the list of its bytes. A reader returns what it read with what is left of the buffer;
-- a writer returns the bytes that it appends. On a byte `& 0x7f` is `% 128`, `| 0x80` is
-- `% 128 + 128`, and `|=` of bits that the accumulator does not have yet is `+`.
pub mod Varint
pub mod Fields
pub mod Zigzag
mod Runs
use wrkr.Prelude.{
  ℕ, zero, suc, ◌+◌, ◌-◌, ◌*◌, ◌/◌, ◌%◌, ◌^◌, ◌<◌, Bool, true, false, List, [], ◌∷◌, ◌++◌, All,
  length, take, drop, ltb, leb, ◌==◌, if◌then◌else◌,
}
use wrkr.Prelude.Results.{ResultOf, ok, err, ◌>>=◌}
use wrkr.Prelude.Int.{ℤ, pos, negsuc}

abbrev pub Bytes : Type 0
Bytes = List ℕ

-- The error texts; one that names a kind of field or key has the kind's protobuf type number. The
-- last is no text of the code: it marks a loop that stopped early, which no decoding does.
pub data WireError : Type 0 where
  unsupported_wire_type : (other : ℕ) → WireError
  invalid_variant : WireError
  invalid_length_delimited : WireError
  invalid_fixed64 : WireError
  invalid_fixed32 : WireError
  invalid_tag : WireError
  unexpected_wire_type unexpected_key_wire_type : (kind : ℕ) → WireError
  unexpected_eof unexpected_packed_eof : (kind : ℕ) → WireError
  map_not_len : WireError
  invalid_int64_string invalid_uint64_string invalid_float_string : WireError
  invalid_integer invalid_float : WireError
  invalid_integer_key invalid_unsigned_key invalid_utf8_key : WireError
  key_must_be_string key_must_be_bool unsupported_key : WireError
  missing_key missing_value : WireError
  not_packable map_via_entry_path not_a_map : WireError
  not_an_object non_string_field_name : WireError
  unknown_field invalid_field_number : (name : Bytes) → WireError
  must_be_array must_be_map : (name : Bytes) → WireError
  out_of_fuel : WireError

abbrev pub Result {ℓ} : Type ℓ → Type ℓ
Result A = ResultOf WireError A

pub data WireType : Type 0 where
  varint : WireType
  sixty_four_bit : WireType
  len : WireType
  thirty_two_bit : WireType

unfoldable pub try_from : ℕ → Result WireType
try_from v =
    if v == 0
    then ok varint
    else if v == 1
    then ok sixty_four_bit
    else if v == 2
    then ok len
    else if v == 5
    then ok thirty_two_bit
    else err (unsupported_wire_type v)

unfoldable pub wire_type_number : WireType → ℕ
wire_type_number varint = 0
wire_type_number sixty_four_bit = 1
wire_type_number len = 2
wire_type_number thirty_two_bit = 5

-- The loop of `write_variant` and its last byte, in at most `fuel` bytes.
unfoldable pub write_variant_loop : ℕ → ℕ → Bytes
write_variant_loop zero v = []
write_variant_loop (suc fuel) v =
    let rest = write_variant_loop fuel (v / 128) in
    if leb 0x80 v then (v % 128 + 128) ∷ rest else v % 256 ∷ []

-- A u64 has ten groups of seven bits at most.
unfoldable pub write_variant : ℕ → Bytes
unfolding write_variant_loop
write_variant v = write_variant_loop 10 v

-- `field_number` is a u32, so the shift as a u64 loses nothing.
unfoldable pub write_tag : ℕ → WireType → Bytes
unfolding wire_type_number write_variant
write_tag field_number wire_type = write_variant (field_number * 8 + wire_type_number wire_type)

-- `((b & 0x7f) as u64) << shift`
abbrev pub group_at : ℕ → ℕ → ℕ
group_at b shift = b % 128 * 2 ^ shift % 2 ^ 64

unfoldable pub read_variant_loop : ℕ → ℕ → Bytes → Result (ℕ × Bytes)
read_variant_loop shift out [] = err invalid_variant
read_variant_loop shift out (b ∷ src) =
    let out' = out + group_at b shift in
    let rest = read_variant_loop (shift + 7) out' src in
    if b / 128 % 2 == 0
    then ok (out', src)
    else if leb 64 (shift + 7)
    then err invalid_variant
    else rest

unfoldable pub read_variant : Bytes → Result (ℕ × Bytes)
unfolding read_variant_loop
read_variant src = read_variant_loop 0 0 src

unfoldable pub write_len_delimited : Bytes → Bytes
unfolding write_variant
write_len_delimited bytes = write_variant (length bytes) ++ bytes

-- `split_to(len)`
unfoldable pub read_len_delimited : Bytes → Result (Bytes × Bytes)
unfolding read_variant
read_len_delimited src = do
  (n, src') ← read_variant src
  if ltb (length src') n then err invalid_length_delimited else ok (take n src', drop n src')

-- `if src.remaining() < n { return Err(e) } src.advance(n)`
unfoldable pub advance : ℕ → WireError → Bytes → Result Bytes
advance n e src = if ltb (length src) n then err e else ok (drop n src)

unfoldable pub skip_value : WireType → Bytes → Result Bytes
unfolding read_variant read_len_delimited advance
skip_value varint src = do (_, src') ← read_variant src; ok src'
skip_value sixty_four_bit src = advance 8 invalid_fixed64 src
skip_value len src = do (_, src') ← read_len_delimited src; ok src'
skip_value thirty_two_bit src = advance 4 invalid_fixed32 src

-- The start of a turn of the decoding loop: the field's number and wire type.
unfoldable pub read_tag : Bytes → Result ((ℕ × WireType) × Bytes)
unfolding read_variant try_from
read_tag src = do
  (tag, src') ← read_variant src
  if tag == 0
      then err invalid_tag
      else do wire_type ← try_from (tag % 8); ok ((tag / 8 % 2 ^ 32, wire_type), src')

-- The bit pattern of an i64 as a u64, and back.
abbrev pub as_u64 : ℤ → ℕ
as_u64 (pos n) = n % 2 ^ 64
as_u64 (negsuc n) = 2 ^ 64 - 1 - n % 2 ^ 64

abbrev pub as_i64 : ℕ → ℤ
as_i64 n = if ltb n (2 ^ 63) then pos n else negsuc (2 ^ 64 - 1 - n)

-- `x ^ s` where all bits of `s` are the sign bit: `!x` or `x`.
abbrev pub xor_sign : Bool → ℕ → ℕ
xor_sign true x = 2 ^ 64 - 1 - x
xor_sign false x = x

abbrev pub is_negative : ℤ → Bool
is_negative (pos n) = false
is_negative (negsuc n) = true

-- On bit patterns: `v << 1`, and `v >> 63` keeps the sign only.
unfoldable pub encode_zigzag64 : ℤ → ℕ
encode_zigzag64 v = xor_sign (is_negative v) (as_u64 v * 2 % 2 ^ 64)

-- `-((v & 1) as i64)` is all ones or zero.
unfoldable pub decode_zigzag64 : ℕ → ℤ
decode_zigzag64 v = as_i64 (xor_sign (v % 2 == 1) (v / 2))
