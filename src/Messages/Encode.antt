-- ===== src/Messages/Encode.antt =====
-- wrkr-grpc/src/wire/encode.rs: a value as a message.
use wrkr.Prelude.{ℕ, zero, suc, max, [], ◌++◌, ◌==◌, if◌then◌else◌}
use wrkr.Prelude.Results.{ok, err, ◌>>=◌}
use wrkr.Wire.{
  Bytes, Result, not_an_object, non_string_field_name, unknown_field, invalid_field_number,
  must_be_array, must_be_map, out_of_fuel,
}
use wrkr.Value.{MapKey, Value, Items, ObjectMap, MapMap}
use wrkr.Messages.Kinds.{
  KeyKind, GrpcValueKind, GrpcFieldShape, scalar, list, map_of, GrpcMessageMeta, GrpcMethod,
  get_by_name, message, no_fields, field,
}
use wrkr.Messages.Decimal.{Floats}
use wrkr.Messages.Coerce.{or_err}
use wrkr.Messages.Scalar.{encode_scalar_field}
use wrkr.Messages.Entries.{encode_map_entry}

module _ (lib : Floats) (nested : GrpcMessageMeta → Value → Result Bytes) where
  -- The loops of `encode_field` over the items of a list and the entries of a map.
  unfoldable pub encode_items : ℕ → GrpcValueKind → Items → Result Bytes
  unfolding encode_scalar_field
  encode_items n kind Items.nil = ok []
  encode_items n kind (Items.cons v vs) = do
    first ← encode_scalar_field lib nested n kind v
    rest ← encode_items n kind vs
    ok (first ++ rest)

  unfoldable pub encode_object_entries : ℕ → KeyKind → GrpcValueKind → ObjectMap → Result Bytes
  unfolding encode_map_entry
  encode_object_entries n key_kind value_kind ObjectMap.end = ok []
  encode_object_entries n key_kind value_kind (ObjectMap.field k v m) = do
    first ← encode_map_entry lib nested n key_kind value_kind (MapKey.string k) v
    rest ← encode_object_entries n key_kind value_kind m
    ok (first ++ rest)

  unfoldable pub encode_map_entries : ℕ → KeyKind → GrpcValueKind → MapMap → Result Bytes
  unfolding encode_map_entry
  encode_map_entries n key_kind value_kind MapMap.empty = ok []
  encode_map_entries n key_kind value_kind (MapMap.entry k v m) = do
    first ← encode_map_entry lib nested n key_kind value_kind k v
    rest ← encode_map_entries n key_kind value_kind m
    ok (first ++ rest)

  abbrev encode_array : Bytes → ℕ → GrpcValueKind → Value → Result Bytes
  encode_array name n kind (Value.array items) = encode_items n kind items
  encode_array name n kind v = err (must_be_array name)

  abbrev encode_map : Bytes → ℕ → KeyKind → GrpcValueKind → Value → Result Bytes
  encode_map name n key_kind value_kind (Value.object m) =
      encode_object_entries n key_kind value_kind m
  encode_map name n key_kind value_kind (Value.map m) = encode_map_entries n key_kind value_kind m
  encode_map name n key_kind value_kind v = err (must_be_map name)

  abbrev encode_shape : Bytes → ℕ → GrpcFieldShape → Value → Result Bytes
  encode_shape name n (scalar kind) v = encode_scalar_field lib nested n kind v
  encode_shape name n (list kind) v = encode_array name n kind v
  encode_shape name n (map_of key_kind value_kind) v = encode_map name n key_kind value_kind v

  unfoldable pub encode_field : Bytes → ℕ → GrpcFieldShape → Value → Result Bytes
  unfolding encode_scalar_field encode_items encode_object_entries encode_map_entries
  encode_field name n shape v =
      if n == 0 then err (invalid_field_number name) else encode_shape name n shape v

  -- `fields_by_name.get(field_name)`, and the field.
  abbrev encode_named : GrpcMessageMeta → Bytes → Value → Result Bytes
  encode_named meta name v = do
    (n, shape) ← or_err (unknown_field name) (get_by_name name meta)
    encode_field name n shape v

  unfoldable pub encode_object : GrpcMessageMeta → ObjectMap → Result Bytes
  unfolding encode_field get_by_name
  encode_object meta ObjectMap.end = ok []
  encode_object meta (ObjectMap.field name v m) = do
    first ← encode_named meta name v
    rest ← encode_object meta m
    ok (first ++ rest)

  abbrev encode_keyed : GrpcMessageMeta → MapKey → Value → Result Bytes
  encode_keyed meta (MapKey.string name) v = encode_named meta name v
  encode_keyed meta k v = err non_string_field_name

  unfoldable pub encode_keyed_map : GrpcMessageMeta → MapMap → Result Bytes
  unfolding encode_field get_by_name
  encode_keyed_map meta MapMap.empty = ok []
  encode_keyed_map meta (MapMap.entry k v m) = do
    first ← encode_keyed meta k v
    rest ← encode_keyed_map meta m
    ok (first ++ rest)

  unfoldable pub encode_fields : GrpcMessageMeta → Value → Result Bytes
  unfolding encode_object encode_keyed_map
  encode_fields meta (Value.object m) = encode_object meta m
  encode_fields meta (Value.map m) = encode_keyed_map meta m
  encode_fields meta v = err not_an_object

-- How deep the messages of a type are nested.
abbrev mutual
  pub depth : GrpcMessageMeta → ℕ
  depth no_fields = 1
  depth (field name n shape rest) = max (shape_depth shape) (depth rest)

  pub shape_depth : GrpcFieldShape → ℕ
  shape_depth (scalar kind) = kind_depth kind
  shape_depth (list kind) = kind_depth kind
  shape_depth (map_of key_kind value_kind) = kind_depth value_kind

  pub kind_depth : GrpcValueKind → ℕ
  kind_depth (message meta) = suc (depth meta)
  kind_depth _ = 0

module _ (lib : Floats) where
  unfoldable pub encode_nested : ℕ → GrpcMessageMeta → Value → Result Bytes
  unfolding encode_fields
  encode_nested zero meta v = err out_of_fuel
  encode_nested (suc fuel) meta v = encode_fields lib (encode_nested fuel) meta v

  -- The types of the messages inside are less deep, so the depth of the type is enough.
  unfoldable pub encode_message : GrpcMessageMeta → Value → Result Bytes
  unfolding encode_nested
  encode_message meta v = encode_nested (depth meta) meta v

  unfoldable pub encode_value_for_method : GrpcMethod → Value → Result Bytes
  unfolding encode_message
  encode_value_for_method method v = encode_message method.input_fields v
