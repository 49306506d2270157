-- ===== src/Messages/Encodable.antt =====
-- The objects that fit a message type are encoded.
use wrkr.Prelude.{
  ℕ, zero, suc, ◌≤◌, ◌<◌, ◌≡◌, ◌≢◌, refl, ap, false, Option, some, inl, inr, Bool-cases, [], ◌++◌,
  ◌==◌, if◌then◌else◌, arith,
}
use wrkr.Prelude.Results.{ok, err, ◌>>=◌}
use wrkr.Wire.{
  Bytes, WireType, Result, unknown_field, invalid_field_number, write_tag, write_len_delimited,
}
use wrkr.Value.{MapKey, Value, Items, ObjectMap, MapMap}
use wrkr.Messages.Kinds.{
  KeyKind, GrpcValueKind, GrpcFieldShape, GrpcMessageMeta, no_fields, field, GrpcMethod,
  wire_type_for_kind, get_by_name, bytes_eq,
}
use wrkr.Messages.Decimal.{Floats}
use wrkr.Messages.Coerce.{or_err}
use wrkr.Messages.Scalar.{encode_scalar_value, encode_scalar_field}
use wrkr.Messages.Entries.{encode_map_key, encode_map_entry}
use wrkr.Messages.Encode.{
  encode_map_entries, encode_items, encode_field, encode_object, encode_fields, encode_nested,
  encode_message, encode_value_for_method, depth, shape_depth, kind_depth,
}
use wrkr.Messages.Fitting.{
  IsValueOf, bools, texts, blobs, int32s, int64s, sint32s, sint64s, uint32s, uint64s, fixed32s,
  sfixed32s, floats, fixed64s, sfixed64s, doubles, names, numbers, messages, AreValuesOf, no_items,
  item, IsFieldOf, one, many, keyed, IsKeyOf, text_keys, bool_keys, int32_keys, sint32_keys,
  sfixed32_keys, int64_keys, sint64_keys, sfixed64_keys, uint32_keys, fixed32_keys, uint64_keys,
  fixed64_keys, AreEntriesOf, no_entries, entries, IsObjectOf, ends, fields,
}
use wrkr.Messages.FieldTrip.{get_by_number_nonzero}

-- The field of a name is no deeper than the message type.
get_by_name-depth :
    (name : Bytes) (meta : GrpcMessageMeta) (n : ℕ) (shape : GrpcFieldShape)
    → get_by_name name meta ≡ some (n, shape)
    → shape_depth shape ≤ depth meta
unfolding get_by_name
get_by_name-depth name no_fields n shape h = cc
get_by_name-depth name (field other k s meta) n shape h = elim (Bool-cases (bytes_eq other name)) [
  | inl here ↦
      let both : ◌≡◌ {A = Option (ℕ × GrpcFieldShape)} (some (k, s)) (some (n, shape)) =
        ground (arith, h, here) in
      let same : s ≡ shape = cc in omega (arith, ap shape_depth same)
  | inr later ↦
      let h' : get_by_name name meta ≡ some (n, shape) = ground (arith, h, later) in
      omega (arith, get_by_name-depth name meta n shape h')
]

-- Some bytes are written.
abbrev Written : Result Bytes → Type 0
Written r = (b : Bytes) × (r ≡ ok b)

both_succeed :
    (r : Result Bytes) (next : Result Bytes)
    → Written r
    → Written next
    → Written (r >>= (λ (a : Bytes). next >>= (λ (b : Bytes). ok (a ++ b))))
both_succeed r next (a, ea) (b, eb) = (a ++ b, rw ea (rw eb refl))

numbered :
    (name : Bytes) (n : ℕ) (r : Result Bytes)
    → n ≢ 0
    → Written r
    → Written (if n == 0 then err (invalid_field_number name) else r)
numbered name n r nonzero (b, e) = let given : (n == 0) ≡ false = ground arith in (b, rw given e)

depth_positive : (meta : GrpcMessageMeta) → 0 < depth meta
depth_positive no_fields = omega arith
depth_positive (field name n shape meta) = omega (arith, depth_positive meta)

key_succeeds : (kk : KeyKind) (k : MapKey) → IsKeyOf kk k → Written (encode_map_key kk k)
unfolding encode_map_key
key_succeeds _ _ (text_keys s utf) = (_, refl)
key_succeeds _ _ (bool_keys b) = (_, refl)
key_succeeds _ _ (int32_keys i h) = (_, refl)
key_succeeds _ _ (sint32_keys i h) = (_, refl)
key_succeeds _ _ (sfixed32_keys i h) = (_, refl)
key_succeeds _ _ (int64_keys i h) = (_, refl)
key_succeeds _ _ (sint64_keys i h) = (_, refl)
key_succeeds _ _ (sfixed64_keys i h) = (_, refl)
key_succeeds _ _ (uint32_keys i h) = (_, refl)
key_succeeds _ _ (fixed32_keys i h) = (_, refl)
key_succeeds _ _ (uint64_keys i h) = (_, refl)
key_succeeds _ _ (fixed64_keys i h) = (_, refl)

module _ (lib : Floats) where
  field_succeeds :
      (levels n : ℕ) (kind : GrpcValueKind) (v : Value)
      → Written (encode_scalar_value lib (encode_nested lib levels) kind v)
      → Written (encode_scalar_field lib (encode_nested lib levels) n kind v)
  unfolding encode_scalar_field
  field_succeeds levels n kind v (p, e) = (write_tag n (wire_type_for_kind kind) ++ p, rw e refl)

  entry_succeeds :
      (levels n : ℕ) (kk : KeyKind) (vk : GrpcValueKind) (k : MapKey) (v : Value)
      → IsKeyOf kk k
      → Written (encode_scalar_value lib (encode_nested lib levels) vk v)
      → Written (encode_map_entry lib (encode_nested lib levels) n kk vk k v)
  unfolding encode_map_entry
  entry_succeeds levels n kk vk k v of_key value_ok =
      let (a, ea) = key_succeeds kk k of_key in
      let (b, eb) = field_succeeds levels 2 vk v value_ok in
      (write_tag n WireType.len ++ write_len_delimited (a ++ b), rw ea (rw eb refl))

  mutual
    unfolding encode_scalar_value encode_items encode_map_entries encode_object encode_nested
        encode_fields encode_field

    value_succeeds :
        (levels : ℕ) (kind : GrpcValueKind) (v : Value)
        → IsValueOf lib kind v
        → kind_depth kind ≤ suc levels
        → Written (encode_scalar_value lib (encode_nested lib levels) kind v)
    value_succeeds levels _ _ (bools b) deep = (_, refl)
    value_succeeds levels _ _ (texts s utf) deep = (_, refl)
    value_succeeds levels _ _ (blobs s) deep = (_, refl)
    value_succeeds levels _ _ (int32s i h) deep = (_, refl)
    value_succeeds levels _ _ (int64s i h) deep = (_, refl)
    value_succeeds levels _ _ (sint32s i h) deep = (_, refl)
    value_succeeds levels _ _ (sint64s i h) deep = (_, refl)
    value_succeeds levels _ _ (uint32s n h) deep = (_, refl)
    value_succeeds levels _ _ (uint64s n h) deep = (_, refl)
    value_succeeds levels _ _ (fixed32s n h) deep = (_, refl)
    value_succeeds levels _ _ (sfixed32s i h) deep = (_, refl)
    value_succeeds levels _ _ (floats n h same) deep = (_, refl)
    value_succeeds levels _ _ (fixed64s n h) deep = (_, refl)
    value_succeeds levels _ _ (sfixed64s i h) deep = (_, refl)
    value_succeeds levels _ _ (doubles n h) deep = (_, refl)
    value_succeeds levels _ _ (names e name n by_name named h) deep = (_, refl)
    value_succeeds levels _ _ (numbers e n unnamed h) deep = (_, refl)
    value_succeeds zero _ _ (messages meta m h) deep =
        absurd (omega (arith, deep, depth_positive meta))
    value_succeeds (suc levels) _ _ (messages meta m h) deep =
        let (b, e) = object_succeeds levels meta m h (omega (arith, deep)) in
        (write_len_delimited b, rw e refl)

    items_succeed :
        (levels n : ℕ) (kind : GrpcValueKind) (vs : Items)
        → AreValuesOf lib kind vs
        → kind_depth kind ≤ suc levels
        → Written (encode_items lib (encode_nested lib levels) n kind vs)
    items_succeed levels n kind vs (no_items _) deep = ([], refl)
    items_succeed levels n kind _ (item _ v vs head tail) deep =
        both_succeed _ _ (field_succeeds levels n kind v (value_succeeds levels kind v head deep))
          (items_succeed levels n kind vs tail deep)

    object_succeeds :
        (levels : ℕ) (meta : GrpcMessageMeta) (m : ObjectMap)
        → IsObjectOf lib meta m
        → depth meta ≤ suc levels
        → Written (encode_object lib (encode_nested lib levels) meta m)
    object_succeeds levels meta _ (ends _) deep = ([], refl)
    object_succeeds levels meta _
          (fields _ name n shape v m by_name found small absent of_shape of_rest) deep =
        let (a, ea) =
          shape_succeeds levels name n shape v of_shape
            (get_by_number_nonzero n meta name shape found)
            (omega (arith, get_by_name-depth name meta n shape by_name, deep)) in
        let first : (or_err (unknown_field name) (get_by_name name meta)
              >>= (λ (f : ℕ × GrpcFieldShape).
                  encode_field lib (encode_nested lib levels) name f.0 f.1 v))
            ≡ ok a =
          rw by_name ea in
        both_succeed _ _ (a, first) (object_succeeds levels meta m of_rest deep)

    shape_succeeds :
        (levels : ℕ) (name : Bytes) (n : ℕ) (shape : GrpcFieldShape) (v : Value)
        → IsFieldOf lib shape v
        → n ≢ 0
        → shape_depth shape ≤ suc levels
        → Written (encode_field lib (encode_nested lib levels) name n shape v)
    shape_succeeds levels name n _ _ (one kind v h) nonzero deep =
        numbered name n _ nonzero
          (field_succeeds levels n kind v (value_succeeds levels kind v h deep))
    shape_succeeds levels name n _ _ (many kind v vs head tail) nonzero deep =
        numbered name n _ nonzero (
          both_succeed _ _ (field_succeeds levels n kind v (value_succeeds levels kind v head deep))
            (items_succeed levels n kind vs tail deep))
    shape_succeeds levels name n _ _ (keyed kk vk k v m of_key of_value apart tail) nonzero deep =
        numbered name n _ nonzero (
          both_succeed _ _
            (entry_succeeds levels n kk vk k v of_key (value_succeeds levels vk v of_value deep))
            (entries_succeed levels n kk vk m tail deep))

    entries_succeed :
        (levels n : ℕ) (kk : KeyKind) (vk : GrpcValueKind) (m : MapMap)
        → AreEntriesOf lib kk vk m
        → kind_depth vk ≤ suc levels
        → Written (encode_map_entries lib (encode_nested lib levels) n kk vk m)
    entries_succeed levels n kk vk _ (no_entries _ _) deep = ([], refl)
    entries_succeed levels n kk vk _ (entries _ _ k v m of_key of_value apart tail) deep =
        both_succeed _ _
          (entry_succeeds levels n kk vk k v of_key (value_succeeds levels vk v of_value deep))
          (entries_succeed levels n kk vk m tail deep)

  nested_succeeds :
      (levels : ℕ) (meta : GrpcMessageMeta) (m : ObjectMap)
      → IsObjectOf lib meta m
      → depth meta ≤ levels
      → Written (encode_nested lib levels meta (Value.object m))
  unfolding encode_nested encode_fields
  nested_succeeds zero meta m h deep = absurd (omega (arith, deep, depth_positive meta))
  nested_succeeds (suc levels) meta m h deep = object_succeeds levels meta m h deep

  -- An object whose fields are fields of the method's input type, each once, with values of their
  -- kinds in their ranges and with no empty list or map, is encoded without an error, however deep the
  -- messages in it are nested.
  pub encode_value_for_method-IsObjectOf :
      (method : GrpcMethod) (m : ObjectMap)
      → IsObjectOf lib method.input_fields m
      → (b : Bytes) × (encode_value_for_method lib method (Value.object m) ≡ ok b)
  unfolding encode_value_for_method encode_message
  encode_value_for_method-IsObjectOf method m h =
      nested_succeeds (depth method.input_fields) method.input_fields m h (omega arith)
