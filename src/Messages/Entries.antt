-- ===== src/Messages/Entries.antt =====
-- wrkr-grpc/src/wire/map.rs: the entries of map fields, each a message with a key and a value.
use wrkr.Prelude.{ℕ, zero, suc, ◌++◌, not, Option, none, some, [], ◌∷◌, length, ◌==◌, if◌then◌else◌}
use wrkr.Prelude.Results.{ok, err, ◌>>=◌}
use wrkr.Wire.{
  Bytes, Result, WireError, WireType, unexpected_key_wire_type, map_not_len, invalid_utf8_key,
  key_must_be_string, key_must_be_bool, unsupported_key, missing_key, missing_value, out_of_fuel,
  wire_type_number, as_u64, as_i64, read_tag, write_tag, read_variant, write_variant,
  read_len_delimited, write_len_delimited, skip_value,
}
use wrkr.Value.{MapKey, Value, ObjectMap, MapMap}
use wrkr.Messages.Kinds.{
  KeyKind, bool, string, int32, sint32, sfixed32, int64, sint64, sfixed64, uint32, fixed32, uint64,
  fixed64, other, GrpcValueKind, GrpcMessageMeta, get_field, insert_field, insert_entry,
}
use wrkr.Messages.Decimal.{Floats, is_utf8}
use wrkr.Messages.Coerce.{or_err, map_key_to_i64, map_key_to_u64}
use wrkr.Messages.Scalar.{decode_scalar_value, encode_scalar_field}

-- `if wire_type != expected { return Err(e) }` on a map or on one of its keys.
unfoldable pub expect_wire_type {ℓ} :
    {A : Type ℓ} → WireType → WireType → WireError → Result A → Result A
unfolding wire_type_number
expect_wire_type expected t e rest =
    if wire_type_number t == wire_type_number expected then rest else err e

abbrev read_key : (ℕ → MapKey) → ℕ → WireType → Bytes → Result (MapKey × Bytes)
read_key key kind t s =
    expect_wire_type WireType.varint t (unexpected_key_wire_type kind)
      (do (n, s') ← read_variant s; ok (key n, s'))

unfoldable pub decode_map_key : KeyKind → WireType → Bytes → Result (MapKey × Bytes)
unfolding expect_wire_type
decode_map_key string t s = expect_wire_type WireType.len t (unexpected_key_wire_type 9) (do
  (b, s') ← read_len_delimited s
  if is_utf8 b then ok (MapKey.string b, s') else err invalid_utf8_key)
decode_map_key bool t s = read_key (λ n. MapKey.bool (not (n == 0))) 8 t s
decode_map_key int32 t s = read_key (λ n. MapKey.i64 (as_i64 n)) 5 t s
decode_map_key sint32 t s = read_key (λ n. MapKey.i64 (as_i64 n)) 5 t s
decode_map_key sfixed32 t s = read_key (λ n. MapKey.i64 (as_i64 n)) 5 t s
decode_map_key int64 t s = read_key (λ n. MapKey.i64 (as_i64 n)) 3 t s
decode_map_key sint64 t s = read_key (λ n. MapKey.i64 (as_i64 n)) 3 t s
decode_map_key sfixed64 t s = read_key (λ n. MapKey.i64 (as_i64 n)) 3 t s
decode_map_key uint32 t s = read_key (λ n. MapKey.u64 n) 13 t s
decode_map_key fixed32 t s = read_key (λ n. MapKey.u64 n) 13 t s
decode_map_key uint64 t s = read_key (λ n. MapKey.u64 n) 4 t s
decode_map_key fixed64 t s = read_key (λ n. MapKey.u64 n) 4 t s
decode_map_key other t s = err unsupported_key

abbrev write_key : ℕ → Bytes
write_key n = write_tag 1 WireType.varint ++ write_variant n

abbrev write_signed_key : MapKey → Result Bytes
write_signed_key key = do n ← map_key_to_i64 key; ok (write_key (as_u64 n))

abbrev write_unsigned_key : MapKey → Result Bytes
write_unsigned_key key = do n ← map_key_to_u64 key; ok (write_key n)

abbrev write_text_key : MapKey → Result Bytes
write_text_key (MapKey.string s) = ok (write_tag 1 WireType.len ++ write_len_delimited s)
write_text_key _ = err key_must_be_string

abbrev write_bool_key : MapKey → Result Bytes
write_bool_key (MapKey.bool b) = ok (write_key (if b then 1 else 0))
write_bool_key _ = err key_must_be_bool

unfoldable pub encode_map_key : KeyKind → MapKey → Result Bytes
unfolding map_key_to_i64 map_key_to_u64
encode_map_key string key = write_text_key key
encode_map_key bool key = write_bool_key key
encode_map_key int32 key = write_signed_key key
encode_map_key sint32 key = write_signed_key key
encode_map_key sfixed32 key = write_signed_key key
encode_map_key int64 key = write_signed_key key
encode_map_key sint64 key = write_signed_key key
encode_map_key sfixed64 key = write_signed_key key
encode_map_key uint32 key = write_unsigned_key key
encode_map_key fixed32 key = write_unsigned_key key
encode_map_key uint64 key = write_unsigned_key key
encode_map_key fixed64 key = write_unsigned_key key
encode_map_key other key = err unsupported_key

module _ (lib : Floats) (encode_message : GrpcMessageMeta → Value → Result Bytes) where
  unfoldable pub encode_map_entry : ℕ → KeyKind → GrpcValueKind → MapKey → Value → Result Bytes
  unfolding encode_map_key encode_scalar_field
  encode_map_entry n key_kind value_kind key v = do
    k ← encode_map_key key_kind key
    e ← encode_scalar_field lib encode_message 2 value_kind v
    ok (write_tag n WireType.len ++ write_len_delimited (k ++ e))

-- `existing` under a name that has a map, and a new map under any other.
unfoldable pub insert_into_map : Bytes → MapKey → Value → ObjectMap → ObjectMap
unfolding get_field insert_field insert_entry
insert_into_map name k v out = elim (get_field name out) [
  | some (Value.map existing) ↦ insert_field name (Value.map (insert_entry k v existing)) out
  | _ ↦ insert_field name (Value.map (MapMap.entry k v MapMap.empty)) out
]

module _ (lib : Floats) (decode_message_for_meta : GrpcMessageMeta → Bytes → Result Value)
    (key_kind : KeyKind) (value_kind : GrpcValueKind) where
  -- One turn of the loop, after the tag.
  unfoldable pub decode_entry_field :
      ℕ
      → WireType
      → Option MapKey
      → Option Value
      → Bytes
      → Result ((Option MapKey × Option Value) × Bytes)
  unfolding decode_map_key decode_scalar_value
  decode_entry_field number t key value s =
      if number == 1
      then (do (k, s') ← decode_map_key key_kind t s; ok ((some k, value), s'))
      else if number == 2
      then (do
        (v, s') ← decode_scalar_value lib decode_message_for_meta value_kind t s
        ok ((key, some v), s'))
      else (do s' ← skip_value t s; ok ((key, value), s'))

  unfoldable pub decode_entry_loop :
      ℕ → Option MapKey → Option Value → Bytes → Result (MapKey × Value)
  unfolding decode_entry_field
  decode_entry_loop fuel key value [] = do
    k ← or_err missing_key key
    v ← or_err missing_value value
    ok (k, v)
  decode_entry_loop zero key value (b ∷ s) = err out_of_fuel
  decode_entry_loop (suc fuel) key value (b ∷ s) = do
    ((number, t), s') ← read_tag (b ∷ s)
    ((key', value'), s'') ← decode_entry_field number t key value s'
    decode_entry_loop fuel key' value' s''

  unfoldable pub decode_map_entry : Bytes → Result (MapKey × Value)
  unfolding decode_entry_loop
  decode_map_entry s = decode_entry_loop (length s) none none s

  unfoldable pub decode_map_entry_into_object :
      Bytes → WireType → ObjectMap → Bytes → Result (ObjectMap × Bytes)
  unfolding expect_wire_type decode_map_entry insert_into_map
  decode_map_entry_into_object name t out s = expect_wire_type WireType.len t map_not_len (do
    (b, s') ← read_len_delimited s
    (k, v) ← decode_map_entry b
    ok (insert_into_map name k v out, s'))
