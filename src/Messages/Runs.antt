-- ===== src/Messages/Runs.antt =====
-- Concrete messages: a schema with a text, a list, a map and a message inside, and the theorems on it.
use wrkr.Prelude.{◌≡◌, ◌≢◌, refl, true, false, none, some, [], ◌∷◌, arith}
use wrkr.Prelude.Int.{pos, negsuc}
use wrkr.Prelude.Results.{ok, err}
use wrkr.Wire.{
  Bytes, out_of_fuel, write_variant, write_variant_loop, write_tag, write_len_delimited,
  encode_zigzag64,
}
use wrkr.Value.{MapKey, Value, Items, ObjectMap, MapMap}
use wrkr.Messages.Kinds.{
  KeyKind, scalar, list, map_of, GrpcMessageMeta, no_fields, field, GrpcMethod, string, sint64,
  bool, message, get_by_name, get_by_number, bytes_eq, get_field, wire_type_for_kind,
  kind_is_packable,
}
use wrkr.Messages.Decimal.{Floats, parse_u64, parse_i64, is_utf8, u64_to_string, i64_to_string}
use wrkr.Messages.Scalar.{decode_scalar_value}
use wrkr.Messages.Packed.{read_all, decode_packed_values}
use wrkr.Messages.Entries.{encode_map_key}
use wrkr.Messages.Decode.{decode_message_for_meta, decode_message_for_method}
use wrkr.Messages.Encode.{encode_value_for_method}
use wrkr.Messages.Fitting.{
  text_keys, get_entry, texts, sint64s, bools, messages, item, no_items, one, many, keyed,
  no_entries, IsObjectOf, ends, fields,
}
use wrkr.Messages.RoundTrip.{decode_message_for_method-encode_value_for_method}
use wrkr.Messages.Termination.{decode_message_for_method_ends}
use wrkr.Messages.Encodable.{encode_value_for_method-IsObjectOf}
use wrkr.Messages.Packing.{ok_of, decode_packed_values_one_by_one}

abbrev no_floats : Floats
no_floats = record {
  f64_as_i64 = λ f. pos 0;
  f64_as_u64 = λ f. 0;
  f64_as_f32 = λ f. 0;
  f64_from_f32 = λ f. 0;
  i64_as_f64 = λ i. 0;
  u64_as_f64 = λ u. 0;
  parse_f64 = λ s. none;
  f64_to_string = λ f. [];
}

abbrev inner_meta : GrpcMessageMeta
inner_meta = field (b'o' ∷ b'n' ∷ []) 1 (scalar bool) no_fields

-- `message Outer { string id = 1; repeated sint64 xs = 2; map<string, bool> m = 3; Inner in = 4; }`
abbrev outer_meta : GrpcMessageMeta
outer_meta = field (b'i' ∷ []) 1 (scalar string) (
    field (b'x' ∷ []) 2 (list sint64) (
      field (b'm' ∷ []) 3 (map_of KeyKind.string bool)
        (field (b'n' ∷ []) 4 (scalar (message inner_meta)) no_fields)))

abbrev echo : GrpcMethod
echo = record { input_fields = outer_meta; output_fields = outer_meta }

abbrev inner : ObjectMap
inner = ObjectMap.field (b'o' ∷ b'n' ∷ []) (Value.bool true) ObjectMap.end

abbrev outer : ObjectMap
outer = ObjectMap.field (b'i' ∷ []) (Value.string (b'a' ∷ [])) (
    ObjectMap.field (b'x' ∷ [])
      (Value.array (Items.cons (Value.i64 (negsuc 0)) (Items.cons (Value.i64 (pos 300)) Items.nil)))
      (ObjectMap.field (b'm' ∷ [])
        (Value.map (MapMap.entry (MapKey.string (b'k' ∷ [])) (Value.bool true) MapMap.empty))
        (ObjectMap.field (b'n' ∷ []) (Value.object inner) ObjectMap.end)))

outer-IsObjectOf : IsObjectOf no_floats outer_meta outer
unfolding get_by_name get_by_number get_field is_utf8 get_entry bytes_eq
outer-IsObjectOf = fields _ _ 1 _ _ _ refl refl (omega arith) refl (one _ _ (texts _ refl)) (
    fields _ _ 2 _ _ _ refl refl (omega arith) refl
      (many _ _ _ (sint64s (negsuc 0) (omega arith))
        (item _ _ _ (sint64s (pos 300) (omega arith)) (no_items _)))
      (fields _ _ 3 _ _ _ refl refl (omega arith) refl
        (keyed _ _ _ _ _ (text_keys _ refl) (bools true) refl (no_entries _ _))
        (fields _ _ 4 _ _ _ refl refl (omega arith) refl
          (one _ _ (
            messages _ _
              (fields _ _ 1 _ _ _ refl refl (omega arith) refl (one _ _ (bools true)) (ends _))))
          (ends _))))

abbrev outer_bytes : Bytes
outer_bytes =
    10 ∷ 1 ∷ 97 ∷ 16 ∷ 1 ∷ 16 ∷ 216 ∷ 4 ∷ 26 ∷ 5 ∷ 10 ∷ 1 ∷ 107 ∷ 16 ∷ 1 ∷ 34 ∷ 2 ∷ 8 ∷ 1 ∷ []

outer_encoded : encode_value_for_method no_floats echo (Value.object outer) ≡ ok outer_bytes
unfolding encode_value_for_method get_by_name bytes_eq write_variant write_variant_loop write_tag
    write_len_delimited encode_zigzag64
outer_encoded = refl

decode_message_for_method-encode_value_for_method_example :
    decode_message_for_method no_floats echo outer_bytes ≡ ok (Value.object outer)
decode_message_for_method-encode_value_for_method_example =
    decode_message_for_method-encode_value_for_method no_floats echo echo outer outer_bytes refl
      outer-IsObjectOf outer_encoded (omega arith)

decode_message_for_method_ends_example :
    decode_message_for_method no_floats echo (10 ∷ 200 ∷ []) ≢ err out_of_fuel
decode_message_for_method_ends_example =
    decode_message_for_method_ends no_floats echo (10 ∷ 200 ∷ [])

encode_value_for_method-IsObjectOf_example :
    (b : Bytes) × (encode_value_for_method no_floats echo (Value.object outer) ≡ ok b)
encode_value_for_method-IsObjectOf_example =
    encode_value_for_method-IsObjectOf no_floats echo outer outer-IsObjectOf

packs_sint64 : kind_is_packable sint64 ≡ true
unfolding kind_is_packable
packs_sint64 = refl

decode_packed_values_one_by_one_example :
    ok_of (decode_packed_values no_floats sint64 (1 ∷ 216 ∷ 4 ∷ []))
    ≡ ok_of (
        read_all
          (decode_scalar_value no_floats
            (decode_message_for_meta no_floats)
            sint64
            (wire_type_for_kind sint64))
          3
          (1 ∷ 216 ∷ 4 ∷ []))
decode_packed_values_one_by_one_example =
    decode_packed_values_one_by_one no_floats (decode_message_for_meta no_floats) sint64
      (1 ∷ 216 ∷ 4 ∷ []) packs_sint64 (λ h. h)

-- A key of kind sint32 is written without zigzag: -1 takes ten bytes.
minus_one_written :
    encode_map_key KeyKind.sint32 (MapKey.i64 (negsuc 0))
    ≡ ok (8 ∷ 255 ∷ 255 ∷ 255 ∷ 255 ∷ 255 ∷ 255 ∷ 255 ∷ 255 ∷ 255 ∷ 1 ∷ [])
unfolding encode_map_key write_tag write_variant write_variant_loop
minus_one_written = refl

texts_parsed :
    (parse_u64 (b'4' ∷ b'2' ∷ []) ≡ some 42) × (parse_i64 (b'-' ∷ b'7' ∷ []) ≡ some (negsuc 6))
unfolding parse_u64 parse_i64
texts_parsed = (refl, refl)

numbers_printed :
    (u64_to_string 305 ≡ b'3' ∷ b'0' ∷ b'5' ∷ [])
    × (i64_to_string (negsuc 11) ≡ b'-' ∷ b'1' ∷ b'2' ∷ [])
unfolding u64_to_string i64_to_string
numbers_printed = (refl, refl)

-- An overlong form and a surrogate are no UTF-8; the euro sign is.
utf8_checked :
    (is_utf8 (0xc0 ∷ 0x80 ∷ []) ≡ false)
    × (is_utf8 (0xed ∷ 0xa0 ∷ 0x80 ∷ []) ≡ false)
    × (is_utf8 (0xe2 ∷ 0x82 ∷ 0xac ∷ []) ≡ true)
unfolding is_utf8
utf8_checked = (refl, refl, refl)
