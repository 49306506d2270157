-- ===== src/Messages/Termination.antt =====
-- Decoding ends, for every buffer and every schema.
use wrkr.Prelude.{
  ℕ, zero, suc, ◌<◌, ◌≤◌, ◌≢◌, ◌&&◌, Option, none, some, inl, inr, Bool-cases, [], ◌∷◌, length,
  ◌==◌, arith,
}
use wrkr.Prelude.Results.{ok, err, ◌>>=◌}
use wrkr.Wire.{
  Bytes, Result, WireType, out_of_fuel, map_not_len, missing_key, missing_value, wire_type_number,
  read_len_delimited, read_tag,
}
use wrkr.Value.{MapKey, Value, ObjectMap}
use wrkr.Messages.Kinds.{
  KeyKind, GrpcValueKind, GrpcFieldShape, scalar, list, map_of, GrpcMessageMeta, GrpcMethod,
  kind_is_packable, get_by_number,
}
use wrkr.Messages.Decimal.{Floats}
use wrkr.Messages.Coerce.{or_err}
use wrkr.Messages.Scalar.{decode_scalar_value}
use wrkr.Messages.Packed.{decode_packed_values}
use wrkr.Messages.Entries.{
  decode_map_key, decode_entry_field, decode_entry_loop, decode_map_entry,
  decode_map_entry_into_object,
}
use wrkr.Messages.Decode.{
  merge_decoded_field, decode_list, decode_field_value, decode_field, decode_fields, decode_message,
  decode_message_for_meta, decode_message_for_method,
}
use wrkr.Messages.Readers.{
  Ends, IsReader, Ends-ne, IsReader-bind, Ends-bind, IsReader-after, Ends-after,
  read_len_delimited-IsReader, read_len_delimited_body, read_tag-IsReader, skip-IsReader,
}
use wrkr.Messages.Fuel.{decode_scalar_value-IsReader}
use wrkr.Messages.Pieces.{
  expect-IsReader, decode_packed_values-Ends, decode_map_key-IsReader, or_err-Ends,
  merge_decoded_field-Ends,
}

module _ (lib : Floats) (decode : GrpcMessageMeta → Bytes → Result Value) (limit : ℕ)
    (nested : (meta : GrpcMessageMeta) (b : Bytes) → length b < limit → Ends (decode meta b)) where
  module _ (key_kind : KeyKind) (value_kind : GrpcValueKind) where
    decode_entry_field-IsReader :
        (number : ℕ) (t : WireType) (key : Option MapKey) (value : Option Value) (s : Bytes)
        → length s ≤ limit
        → IsReader s (decode_entry_field lib decode key_kind value_kind number t key value s)
    unfolding decode_entry_field
    decode_entry_field-IsReader number t key value s fits = elim (Bool-cases (number == 1)) [
      | inl is_key ↦ rw is_key (
          IsReader-bind s (decode_map_key key_kind t s) _ (decode_map_key-IsReader key_kind t s)
            (λ k s' e shorter. shorter))
      | inr no_key ↦ elim (Bool-cases (number == 2)) [
        | inl is_value ↦ rw no_key (
            rw is_value (
              IsReader-bind s (decode_scalar_value lib decode value_kind t s) _
                (decode_scalar_value-IsReader lib decode limit nested value_kind t s fits)
                (λ v s' e shorter. shorter)))
        | inr neither ↦ rw no_key (rw neither (skip-IsReader (key, value) t s))
      ]
    ]

    decode_entry_loop-Ends :
        (fuel : ℕ) (key : Option MapKey) (value : Option Value) (s : Bytes)
        → length s ≤ fuel
        → length s ≤ limit
        → Ends (decode_entry_loop lib decode key_kind value_kind fuel key value s)
    unfolding decode_entry_loop
    decode_entry_loop-Ends fuel key value [] enough fits =
        Ends-after (or_err missing_key key) _ (or_err-Ends missing_key key (λ h. cc)) (λ k.
          Ends-after (or_err missing_value value) _ (or_err-Ends missing_value value (λ h. cc))
            (λ v. tt))
    decode_entry_loop-Ends zero key value (b ∷ s) enough fits = absurd (omega (arith, enough))
    decode_entry_loop-Ends (suc fuel) key value (b ∷ s) enough fits =
        Ends-bind (b ∷ s) (read_tag (b ∷ s)) _ (read_tag-IsReader (b ∷ s)) (λ tag s' shorter.
          Ends-bind s' (decode_entry_field lib decode key_kind value_kind tag.0 tag.1 key value s')
            _ (decode_entry_field-IsReader tag.0 tag.1 key value s' (omega (arith, shorter, fits)))
            (λ pair s'' less.
              decode_entry_loop-Ends fuel pair.0 pair.1 s'' (omega (arith, shorter, less, enough))
                (omega (arith, shorter, less, fits))))

    decode_map_entry_into_object-IsReader :
        (name : Bytes) (t : WireType) (out : ObjectMap) (s : Bytes)
        → length s ≤ limit
        → IsReader s (decode_map_entry_into_object lib decode key_kind value_kind name t out s)
    unfolding decode_map_entry_into_object decode_map_entry
    decode_map_entry_into_object-IsReader name t out s fits =
        expect-IsReader WireType.len t map_not_len s _ (λ h. cc)
          (IsReader-bind s (read_len_delimited s) _ (read_len_delimited-IsReader s)
            (λ b s' e shorter.
              IsReader-after s (decode_map_entry lib decode key_kind value_kind b) _
                (decode_entry_loop-Ends (length b) none none b (omega arith)
                  (omega (arith, read_len_delimited_body s b s' e, fits)))
                (λ entry. shorter)))

  decode_list-IsReader :
      (kind : GrpcValueKind) (t : WireType) (s : Bytes)
      → length s ≤ limit
      → IsReader s (decode_list lib decode kind t s)
  unfolding decode_list
  decode_list-IsReader kind t s fits =
      elim (Bool-cases ((wire_type_number t == 2) && kind_is_packable kind)) [
        | inl packed ↦ rw packed (
            IsReader-bind s (read_len_delimited s) _ (read_len_delimited-IsReader s)
              (λ b s' e shorter.
                IsReader-after s (decode_packed_values lib kind b) _
                  (decode_packed_values-Ends lib kind b) (λ items. shorter)))
        | inr single ↦ rw single (
            IsReader-bind s (decode_scalar_value lib decode kind t s) _
              (decode_scalar_value-IsReader lib decode limit nested kind t s fits)
              (λ v s' e shorter. shorter))
      ]

  merged-IsReader :
      (name : Bytes) (shape : GrpcFieldShape) (out : ObjectMap) (s : Bytes)
      (read : Result (Value × Bytes))
      → IsReader s read
      → IsReader s (
          read >>= (λ (x : Value × Bytes).
            merge_decoded_field out name shape x.0 >>= (λ (o : ObjectMap). ok (o, x.1))))
  merged-IsReader name shape out s read h = IsReader-bind s read _ h (λ v s' e shorter.
      IsReader-after s (merge_decoded_field out name shape v) _
        (merge_decoded_field-Ends out name shape v) (λ o. shorter))

  decode_field-IsReader :
      (known : Option (Bytes × GrpcFieldShape)) (t : WireType) (out : ObjectMap) (s : Bytes)
      → length s ≤ limit
      → IsReader s (decode_field lib decode known t out s)
  unfolding decode_field decode_field_value
  decode_field-IsReader none t out s fits = skip-IsReader out t s
  decode_field-IsReader (some (name, map_of key_kind kind)) t out s fits =
      decode_map_entry_into_object-IsReader key_kind kind name t out s fits
  decode_field-IsReader (some (name, scalar kind)) t out s fits =
      merged-IsReader name (scalar kind) out s _
        (decode_scalar_value-IsReader lib decode limit nested kind t s fits)
  decode_field-IsReader (some (name, list kind)) t out s fits =
      merged-IsReader name (list kind) out s _ (decode_list-IsReader kind t s fits)

  decode_fields-Ends :
      (by_number : ℕ → Option (Bytes × GrpcFieldShape)) (fuel : ℕ) (out : ObjectMap) (s : Bytes)
      → length s ≤ fuel
      → length s ≤ limit
      → Ends (decode_fields lib decode by_number fuel out s)
  unfolding decode_fields
  decode_fields-Ends by_number fuel out [] enough fits = tt
  decode_fields-Ends by_number zero out (b ∷ s) enough fits = absurd (omega (arith, enough))
  decode_fields-Ends by_number (suc fuel) out (b ∷ s) enough fits =
      Ends-bind (b ∷ s) (read_tag (b ∷ s)) _ (read_tag-IsReader (b ∷ s)) (λ tag s' shorter.
        Ends-bind s' (decode_field lib decode (by_number tag.0) tag.1 out s') _
          (decode_field-IsReader (by_number tag.0) tag.1 out s' (omega (arith, shorter, fits)))
          (λ out' s'' less.
            decode_fields-Ends by_number fuel out' s'' (omega (arith, shorter, less, enough))
              (omega (arith, shorter, less, fits))))

module _ (lib : Floats) where
  decode_message-Ends :
      (fuel : ℕ) (meta : GrpcMessageMeta) (s : Bytes)
      → length s < fuel
      → Ends (decode_message lib fuel meta s)
  unfolding decode_message
  decode_message-Ends zero meta s enough = absurd (omega (arith, enough))
  decode_message-Ends (suc fuel) meta s enough =
      decode_fields-Ends lib (decode_message lib fuel) (length s)
        (λ inner b shorter. decode_message-Ends fuel inner b (omega (arith, shorter, enough)))
        (λ n. get_by_number n meta) (length s) ObjectMap.end s (omega arith) (omega arith)

  -- Every buffer, well formed or not, is decoded to a message or refused with one of the code's
  -- errors, whatever the schema is: the loops over the fields, over the entries of maps and over
  -- packed lists all end by themselves, and so does the nesting of messages.
  pub decode_message_for_method_ends :
      (method : GrpcMethod) (s : Bytes) → decode_message_for_method lib method s ≢ err out_of_fuel
  unfolding decode_message_for_method decode_message_for_meta
  decode_message_for_method_ends method s = Ends-ne (decode_message_for_method lib method s) (
      decode_fields-Ends lib (decode_message_for_meta lib) (length s)
        (λ inner b shorter. decode_message-Ends (suc (length b)) inner b (omega arith))
        (λ n. get_by_number n method.output_fields) (length s) ObjectMap.end s (omega arith)
        (omega arith))
