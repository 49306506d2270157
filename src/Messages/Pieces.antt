-- ===== src/Messages/Pieces.antt =====
-- The readers of packed lists and of map keys, and the merging of a field.
use wrkr.Prelude.{ℕ, ◌≢◌, not, Option, none, some, inl, inr, Bool-cases, length, ◌==◌, arith}
use wrkr.Prelude.Results.{ok, ◌>>=◌}
use wrkr.Wire.{
  Bytes, Result, WireError, WireType, out_of_fuel, unexpected_key_wire_type, wire_type_number,
  as_i64, read_variant, read_len_delimited,
}
use wrkr.Value.{MapKey, Value, ObjectMap}
use wrkr.Messages.Kinds.{
  KeyKind, GrpcValueKind, GrpcFieldShape, scalar, list, map_of, bool, string, bytes, int32, sint32,
  sfixed32, int64, sint64, sfixed64, uint32, fixed32, uint64, fixed64, float, double, enum_of,
  message, other,
}
use wrkr.Messages.Decimal.{Floats, is_utf8}
use wrkr.Messages.Coerce.{or_err}
use wrkr.Messages.Packed.{read_packed_value, decode_packed_values}
use wrkr.Messages.Entries.{expect_wire_type, decode_map_key}
use wrkr.Messages.Decode.{merge_decoded_field}
use wrkr.Messages.Readers.{
  Ends, IsReader, IsReader-bind, read_variant-IsReader, read_len_delimited-IsReader,
}
use wrkr.Messages.Fuel.{packed_variant-IsReader, packed_le-IsReader, read_all-Ends}

module _ (lib : Floats) where
  pub decode_packed_values-Ends :
      (kind : GrpcValueKind) (s : Bytes) → Ends (decode_packed_values lib kind s)
  unfolding decode_packed_values read_packed_value
  decode_packed_values-Ends bool s =
      read_all-Ends _ (length s) s (packed_variant-IsReader _) (omega arith)
  decode_packed_values-Ends int32 s =
      read_all-Ends _ (length s) s (packed_variant-IsReader _) (omega arith)
  decode_packed_values-Ends int64 s =
      read_all-Ends _ (length s) s (packed_variant-IsReader _) (omega arith)
  decode_packed_values-Ends (enum_of e) s =
      read_all-Ends _ (length s) s (packed_variant-IsReader _) (omega arith)
  decode_packed_values-Ends sint32 s =
      read_all-Ends _ (length s) s (packed_variant-IsReader _) (omega arith)
  decode_packed_values-Ends sint64 s =
      read_all-Ends _ (length s) s (packed_variant-IsReader _) (omega arith)
  decode_packed_values-Ends uint32 s =
      read_all-Ends _ (length s) s (packed_variant-IsReader _) (omega arith)
  decode_packed_values-Ends uint64 s =
      read_all-Ends _ (length s) s (packed_variant-IsReader _) (omega arith)
  decode_packed_values-Ends fixed32 s =
      read_all-Ends _ (length s) s (packed_le-IsReader 4 7 _ (omega arith)) (omega arith)
  decode_packed_values-Ends sfixed32 s =
      read_all-Ends _ (length s) s (packed_le-IsReader 4 15 _ (omega arith)) (omega arith)
  decode_packed_values-Ends float s =
      read_all-Ends _ (length s) s (packed_le-IsReader 4 2 _ (omega arith)) (omega arith)
  decode_packed_values-Ends fixed64 s =
      read_all-Ends _ (length s) s (packed_le-IsReader 8 6 _ (omega arith)) (omega arith)
  decode_packed_values-Ends sfixed64 s =
      read_all-Ends _ (length s) s (packed_le-IsReader 8 16 _ (omega arith)) (omega arith)
  decode_packed_values-Ends double s =
      read_all-Ends _ (length s) s (packed_le-IsReader 8 1 _ (omega arith)) (omega arith)
  decode_packed_values-Ends string s = λ h. cc
  decode_packed_values-Ends bytes s = λ h. cc
  decode_packed_values-Ends (message m) s = λ h. cc

pub expect-IsReader {ℓ} :
    {A : Type ℓ} (expected t : WireType) (e : WireError) (s : Bytes) (rest : Result (A × Bytes))
    → e ≢ out_of_fuel
    → IsReader s rest
    → IsReader s (expect_wire_type expected t e rest)
unfolding expect_wire_type
expect-IsReader expected t e s rest known h =
    elim (Bool-cases (wire_type_number t == wire_type_number expected)) [
      | inl same ↦ rw same h
      | inr differs ↦ rw differs known
    ]

key-IsReader :
    (key : ℕ → MapKey) (kind : ℕ) (t : WireType) (s : Bytes)
    → IsReader s (
        expect_wire_type WireType.varint t
          (unexpected_key_wire_type kind)
          (read_variant s >>= (λ (x : ℕ × Bytes). ok (key x.0, x.1))))
key-IsReader key kind t s =
    expect-IsReader WireType.varint t (unexpected_key_wire_type kind) s _ (λ h. cc)
      (IsReader-bind s (read_variant s) _ (read_variant-IsReader s) (λ n s' e shorter. shorter))

pub decode_map_key-IsReader :
    (kind : KeyKind) (t : WireType) (s : Bytes) → IsReader s (decode_map_key kind t s)
unfolding decode_map_key
decode_map_key-IsReader string t s =
    expect-IsReader WireType.len t (unexpected_key_wire_type 9) s _ (λ h. cc)
      (IsReader-bind s (read_len_delimited s) _ (read_len_delimited-IsReader s) (λ b s' e shorter.
        elim (Bool-cases (is_utf8 b)) [
          | inl text ↦ rw text shorter
          | inr broken ↦ rw broken (λ h. cc)
        ]))
decode_map_key-IsReader bool t s = key-IsReader (λ n. MapKey.bool (not (n == 0))) 8 t s
decode_map_key-IsReader int32 t s = key-IsReader (λ n. MapKey.i64 (as_i64 n)) 5 t s
decode_map_key-IsReader sint32 t s = key-IsReader (λ n. MapKey.i64 (as_i64 n)) 5 t s
decode_map_key-IsReader sfixed32 t s = key-IsReader (λ n. MapKey.i64 (as_i64 n)) 5 t s
decode_map_key-IsReader int64 t s = key-IsReader (λ n. MapKey.i64 (as_i64 n)) 3 t s
decode_map_key-IsReader sint64 t s = key-IsReader (λ n. MapKey.i64 (as_i64 n)) 3 t s
decode_map_key-IsReader sfixed64 t s = key-IsReader (λ n. MapKey.i64 (as_i64 n)) 3 t s
decode_map_key-IsReader uint32 t s = key-IsReader (λ n. MapKey.u64 n) 13 t s
decode_map_key-IsReader fixed32 t s = key-IsReader (λ n. MapKey.u64 n) 13 t s
decode_map_key-IsReader uint64 t s = key-IsReader (λ n. MapKey.u64 n) 4 t s
decode_map_key-IsReader fixed64 t s = key-IsReader (λ n. MapKey.u64 n) 4 t s
decode_map_key-IsReader other t s = λ h. cc

pub or_err-Ends : {A : Type 0} (e : WireError) (o : Option A) → e ≢ out_of_fuel → Ends (or_err e o)
or_err-Ends e none h = h
or_err-Ends e (some a) h = tt

pub merge_decoded_field-Ends :
    (out : ObjectMap) (name : Bytes) (shape : GrpcFieldShape) (v : Value)
    → Ends (merge_decoded_field out name shape v)
unfolding merge_decoded_field
merge_decoded_field-Ends out name (scalar kind) v = tt
merge_decoded_field-Ends out name (list kind) v = tt
merge_decoded_field-Ends out name (map_of key_kind kind) (Value.map m) = tt
merge_decoded_field-Ends out name (map_of key_kind kind) _ = λ h. cc
