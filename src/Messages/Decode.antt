-- ===== src/Messages/Decode.antt =====
-- wrkr-grpc/src/wire/decode.rs: a message's fields, one after the other, into an object.
use wrkr.Prelude.{
  ℕ, zero, suc, Bool, ◌&&◌, Option, none, some, [], ◌∷◌, length, ◌==◌, if◌then◌else◌,
}
use wrkr.Prelude.Results.{ok, err, ◌>>=◌}
use wrkr.Wire.{
  Bytes, Result, WireType, map_via_entry_path, not_a_map, out_of_fuel, wire_type_number, read_tag,
  read_len_delimited, skip_value,
}
use wrkr.Value.{Value, Items, ObjectMap, MapMap}
use wrkr.Messages.Kinds.{
  GrpcValueKind, GrpcFieldShape, scalar, list, map_of, GrpcMessageMeta, GrpcMethod, get_by_number,
  kind_is_packable, get_field, insert_field, extend, append_items,
}
use wrkr.Messages.Decimal.{Floats}
use wrkr.Messages.Scalar.{decode_scalar_value}
use wrkr.Messages.Packed.{decode_packed_values}
use wrkr.Messages.Entries.{decode_map_entry_into_object}

-- What a decoded value adds to a list: its items, if it is an array, or itself.
abbrev pub items_of : Value → Items
items_of (Value.array items) = items
items_of v = Items.cons v Items.nil

-- A list field after one more decoded value.
abbrev pub merge_list : Option Value → Value → Items
merge_list none v = items_of v
merge_list (some (Value.array existing)) v = append_items existing (items_of v)
merge_list (some prev) v = Items.cons prev (items_of v)

-- A map field after one more decoded map.
abbrev pub merge_map : Option Value → MapMap → MapMap
merge_map (some (Value.map existing)) new_map = extend existing new_map
merge_map _ new_map = new_map

unfoldable pub merge_decoded_field : ObjectMap → Bytes → GrpcFieldShape → Value → Result ObjectMap
unfolding get_field insert_field extend append_items
merge_decoded_field out name (scalar kind) v = ok (insert_field name v out)
merge_decoded_field out name (list kind) v =
    ok (insert_field name (Value.array (merge_list (get_field name out) v)) out)
merge_decoded_field out name (map_of key_kind value_kind) (Value.map new_map) =
    ok (insert_field name (Value.map (merge_map (get_field name out) new_map)) out)
merge_decoded_field out name (map_of key_kind value_kind) v = err not_a_map

abbrev is_len : WireType → Bool
is_len t = wire_type_number t == 2

module _ (lib : Floats) (nested : GrpcMessageMeta → Bytes → Result Value) where
  unfoldable pub decode_list : GrpcValueKind → WireType → Bytes → Result (Value × Bytes)
  unfolding decode_packed_values decode_scalar_value kind_is_packable wire_type_number
  decode_list kind t s =
      if is_len t && kind_is_packable kind
      then (do
        (b, s') ← read_len_delimited s
        items ← decode_packed_values lib kind b
        ok (Value.array items, s'))
      else (do
        (v, s') ← decode_scalar_value lib nested kind t s
        ok (Value.array (Items.cons v Items.nil), s'))

  unfoldable pub decode_field_value : GrpcFieldShape → WireType → Bytes → Result (Value × Bytes)
  unfolding decode_scalar_value decode_list
  decode_field_value (scalar kind) t s = decode_scalar_value lib nested kind t s
  decode_field_value (list kind) t s = decode_list kind t s
  decode_field_value (map_of key_kind value_kind) t s = err map_via_entry_path

  -- One turn of the loop, after the tag: a field of a known number or another.
  unfoldable pub decode_field :
      Option (Bytes × GrpcFieldShape) → WireType → ObjectMap → Bytes → Result (ObjectMap × Bytes)
  unfolding decode_map_entry_into_object decode_field_value merge_decoded_field
  decode_field none t out s = do s' ← skip_value t s; ok (out, s')
  decode_field (some (name, map_of key_kind value_kind)) t out s =
      decode_map_entry_into_object lib nested key_kind value_kind name t out s
  decode_field (some (name, shape)) t out s = do
    (v, s') ← decode_field_value shape t s
    out' ← merge_decoded_field out name shape v
    ok (out', s')

  unfoldable pub decode_fields :
      (ℕ → Option (Bytes × GrpcFieldShape)) → ℕ → ObjectMap → Bytes → Result Value
  unfolding decode_field
  decode_fields by_number fuel out [] = ok (Value.object out)
  decode_fields by_number zero out (b ∷ s) = err out_of_fuel
  decode_fields by_number (suc fuel) out (b ∷ s) = do
    ((number, t), s') ← read_tag (b ∷ s)
    (out', s'') ← decode_field (by_number number) t out s'
    decode_fields by_number fuel out' s''

module _ (lib : Floats) where
  -- A turn reads at least one byte, and a message inside is shorter than the message, so both the
  -- turns and the nesting are bounded by the length.
  unfoldable pub decode_message : ℕ → GrpcMessageMeta → Bytes → Result Value
  unfolding decode_fields get_by_number
  decode_message zero meta s = err out_of_fuel
  decode_message (suc fuel) meta s =
      decode_fields lib (decode_message fuel) (λ n. get_by_number n meta) (length s) ObjectMap.end s

  unfoldable pub decode_message_for_meta : GrpcMessageMeta → Bytes → Result Value
  unfolding decode_message
  decode_message_for_meta meta s = decode_message (suc (length s)) meta s

  -- The same loop over the method's own table of fields.
  unfoldable pub decode_message_for_method : GrpcMethod → Bytes → Result Value
  unfolding decode_fields decode_message_for_meta get_by_number
  decode_message_for_method method s =
      decode_fields lib decode_message_for_meta (λ n. get_by_number n method.output_fields)
        (length s) ObjectMap.end s
