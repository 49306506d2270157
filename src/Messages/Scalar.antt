-- ===== src/Messages/Scalar.antt =====
-- wrkr-grpc/src/wire/scalar.rs: one occurrence of a field, written and read.
-- A message inside a message goes to the encoder and the decoder of messages, which the functions
-- here take as an argument.
use wrkr.Prelude.{
  ℕ, zero, suc, ◌+◌, ◌-◌, ◌*◌, ◌/◌, ◌%◌, ◌^◌, not, none, some, [], ◌∷◌, ◌++◌, length, take, drop,
  ltb, ◌==◌, if◌then◌else◌,
}
use wrkr.Prelude.Int.{ℤ, pos, negsuc}
use wrkr.Prelude.Results.{ok, err, ◌>>=◌}
use wrkr.Wire.{
  Bytes, Result, WireError, WireType, unexpected_wire_type, unexpected_eof, as_u64, as_i64,
  write_tag, write_variant, read_variant, write_len_delimited, read_len_delimited, wire_type_number,
  encode_zigzag64, decode_zigzag64,
}
use wrkr.Value.{Value}
use wrkr.Messages.Kinds.{
  EnumDescriptor, GrpcValueKind, GrpcMessageMeta, bool, string, bytes, int32, sint32, sfixed32,
  int64, sint64, sfixed64, uint32, fixed32, uint64, fixed64, float, double, enum_of, message,
  wire_type_for_kind,
}
use wrkr.Messages.Decimal.{Floats, is_utf8}
use wrkr.Messages.Coerce.{to_bool, to_string_lossy, to_bytes_lossy, to_i64, to_u64, to_f64}

-- `put_u32_le` and `put_u64_le`, with 4 and 8 bytes.
unfoldable pub put_le : ℕ → ℕ → Bytes
put_le zero v = []
put_le (suc n) v = v % 256 ∷ put_le n (v / 256)

unfoldable pub get_le : Bytes → ℕ
get_le [] = 0
get_le (b ∷ s) = b + 256 * get_le s

-- `if src.remaining() < n { return Err(e) }`, and `get_u32_le` or `get_u64_le`.
unfoldable pub read_le : ℕ → WireError → Bytes → Result (ℕ × Bytes)
unfolding get_le
read_le n e src = if ltb (length src) n then err e else ok (get_le (take n src), drop n src)

-- `u as i32`, and `get_i32_le`.
abbrev pub as_i32 : ℕ → ℤ
as_i32 u = if ltb (u % 2 ^ 32) (2 ^ 31) then pos (u % 2 ^ 32) else negsuc (2 ^ 32 - 1 - u % 2 ^ 32)

-- `if wire_type != expected { return Err(e) }`
unfoldable pub check_wire_type {ℓ} : {A : Type ℓ} → WireType → WireType → ℕ → Result A → Result A
unfolding wire_type_number
check_wire_type expected wire_type kind rest =
    if wire_type_number wire_type == wire_type_number expected
    then rest
    else err (unexpected_wire_type kind)

-- The value of an enum's number: its name, or the number where it has none.
unfoldable pub enum_value : EnumDescriptor → ℤ → Value
enum_value e n = elim (e.get_value n) [ some name ↦ Value.string name | none ↦ Value.i64 n ]

abbrev text_or_empty : Bytes → Bytes
text_or_empty b = if is_utf8 b then b else []

module _ (lib : Floats) (decode_message_for_meta : GrpcMessageMeta → Bytes → Result Value) where
  unfoldable pub decode_scalar_value : GrpcValueKind → WireType → Bytes → Result (Value × Bytes)
  unfolding check_wire_type read_le enum_value
  decode_scalar_value bool t src =
      check_wire_type WireType.varint t 8
        (do (n, src') ← read_variant src; ok (Value.bool (not (n == 0)), src'))
  decode_scalar_value string t src =
      check_wire_type WireType.len t 9
        (do (b, src') ← read_len_delimited src; ok (Value.string (text_or_empty b), src'))
  decode_scalar_value bytes t src =
      check_wire_type WireType.len t 12
        (do (b, src') ← read_len_delimited src; ok (Value.bytes b, src'))
  decode_scalar_value int32 t src =
      check_wire_type WireType.varint t 3
        (do (n, src') ← read_variant src; ok (Value.i64 (as_i64 n), src'))
  decode_scalar_value int64 t src =
      check_wire_type WireType.varint t 3
        (do (n, src') ← read_variant src; ok (Value.i64 (as_i64 n), src'))
  decode_scalar_value uint32 t src =
      check_wire_type WireType.varint t 4 (do (n, src') ← read_variant src; ok (Value.u64 n, src'))
  decode_scalar_value uint64 t src =
      check_wire_type WireType.varint t 4 (do (n, src') ← read_variant src; ok (Value.u64 n, src'))
  decode_scalar_value sint32 t src =
      check_wire_type WireType.varint t 18
        (do (n, src') ← read_variant src; ok (Value.i64 (decode_zigzag64 n), src'))
  decode_scalar_value sint64 t src =
      check_wire_type WireType.varint t 18
        (do (n, src') ← read_variant src; ok (Value.i64 (decode_zigzag64 n), src'))
  decode_scalar_value fixed32 t src =
      check_wire_type WireType.thirty_two_bit t 7
        (do (n, src') ← read_le 4 (unexpected_eof 7) src; ok (Value.u64 n, src'))
  decode_scalar_value sfixed32 t src =
      check_wire_type WireType.thirty_two_bit t 15
        (do (n, src') ← read_le 4 (unexpected_eof 15) src; ok (Value.i64 (as_i32 n), src'))
  decode_scalar_value float t src =
      check_wire_type WireType.thirty_two_bit t 2
        (do (n, src') ← read_le 4 (unexpected_eof 2) src; ok (Value.f64 (lib.f64_from_f32 n), src'))
  decode_scalar_value fixed64 t src =
      check_wire_type WireType.sixty_four_bit t 6
        (do (n, src') ← read_le 8 (unexpected_eof 6) src; ok (Value.u64 n, src'))
  decode_scalar_value sfixed64 t src =
      check_wire_type WireType.sixty_four_bit t 16
        (do (n, src') ← read_le 8 (unexpected_eof 16) src; ok (Value.i64 (as_i64 n), src'))
  decode_scalar_value double t src =
      check_wire_type WireType.sixty_four_bit t 1
        (do (n, src') ← read_le 8 (unexpected_eof 1) src; ok (Value.f64 n, src'))
  decode_scalar_value (enum_of e) t src =
      check_wire_type WireType.varint t 14
        (do (n, src') ← read_variant src; ok (enum_value e (as_i32 n), src'))
  decode_scalar_value (message meta) t src =
      check_wire_type WireType.len t 11
        (do (b, src') ← read_len_delimited src; v ← decode_message_for_meta meta b; ok (v, src'))

-- The number that an enum's value has: 0 for an unknown name and for any other value.
unfoldable pub enum_number : EnumDescriptor → Value → ℤ
enum_number e (Value.string s) = elim (e.get_value_by_name s) [ some n ↦ n | none ↦ pos 0 ]
enum_number e (Value.i64 i) = i
enum_number e (Value.u64 u) = as_i64 u
enum_number e _ = pos 0

module _ (lib : Floats) (encode_message : GrpcMessageMeta → Value → Result Bytes) where
  -- What `encode_scalar_field` writes after the tag.
  unfoldable pub encode_scalar_value : GrpcValueKind → Value → Result Bytes
  unfolding to_bool to_i64 to_u64 to_f64 to_string_lossy to_bytes_lossy put_le enum_number
  encode_scalar_value bool v = ok (write_variant (if to_bool v then 1 else 0))
  encode_scalar_value string v = ok (write_len_delimited (to_string_lossy lib v))
  encode_scalar_value bytes v = ok (write_len_delimited (to_bytes_lossy v))
  encode_scalar_value int32 v = do n ← to_i64 lib v; ok (write_variant (as_u64 n))
  encode_scalar_value int64 v = do n ← to_i64 lib v; ok (write_variant (as_u64 n))
  encode_scalar_value uint32 v = do n ← to_u64 lib v; ok (write_variant n)
  encode_scalar_value uint64 v = do n ← to_u64 lib v; ok (write_variant n)
  encode_scalar_value sint32 v = do n ← to_i64 lib v; ok (write_variant (encode_zigzag64 n))
  encode_scalar_value sint64 v = do n ← to_i64 lib v; ok (write_variant (encode_zigzag64 n))
  encode_scalar_value fixed32 v = do n ← to_u64 lib v; ok (put_le 4 (n % 2 ^ 32))
  encode_scalar_value sfixed32 v = do n ← to_i64 lib v; ok (put_le 4 (as_u64 n % 2 ^ 32))
  encode_scalar_value float v = do f ← to_f64 lib v; ok (put_le 4 (lib.f64_as_f32 f))
  encode_scalar_value fixed64 v = do n ← to_u64 lib v; ok (put_le 8 n)
  encode_scalar_value sfixed64 v = do n ← to_i64 lib v; ok (put_le 8 (as_u64 n))
  encode_scalar_value double v = do f ← to_f64 lib v; ok (put_le 8 f)
  encode_scalar_value (enum_of e) v = ok (write_variant (as_u64 (enum_number e v)))
  encode_scalar_value (message meta) v = do b ← encode_message meta v; ok (write_len_delimited b)

  -- Where this is an error the code has written the tag already, into a buffer that it drops.
  unfoldable pub encode_scalar_field : ℕ → GrpcValueKind → Value → Result Bytes
  unfolding encode_scalar_value wire_type_for_kind
  encode_scalar_field n kind v = do
    payload ← encode_scalar_value kind v
    ok (write_tag n (wire_type_for_kind kind) ++ payload)
