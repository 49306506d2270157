-- ===== src/Messages/FieldTrip.antt =====
-- The fields of a message, written and read back into the object that is being decoded.
use wrkr.Prelude.{
  ℕ, suc, ◌^◌, ◌<◌, ◌≤◌, ◌≡◌, ◌≢◌, refl, sym, ap, ◌∙◌, false, ◌&&◌, not, Option, some, inl, inr,
  Bool-cases, [], ◌∷◌, ◌++◌, length, length-append, ◌==◌, arith, IsU64,
}
use wrkr.Prelude.Results.{ok, ok_inj, step-eq-ok}
use wrkr.Wire.{Bytes, Result, WireType, wire_type_number, write_tag, read_tag}
use wrkr.Wire.Fields.{read_tag-write_tag}
use wrkr.Value.{Value, Items, ObjectMap}
use wrkr.Messages.Kinds.{
  GrpcValueKind, GrpcMessageMeta, no_fields, field, GrpcFieldShape, scalar, list, bool, string,
  bytes, int32, sint32, sfixed32, int64, sint64, sfixed64, uint32, fixed32, uint64, fixed64, float,
  double, enum_of, message, wire_type_for_kind, kind_is_packable, get_by_number, get_field,
  insert_field,
}
use wrkr.Messages.Decimal.{Floats}
use wrkr.Messages.Scalar.{encode_scalar_value, encode_scalar_field}
use wrkr.Messages.Decode.{
  merge_list, merge_decoded_field, decode_list, decode_field_value, decode_field, decode_fields,
}
use wrkr.Messages.Fitting.{IsValueOf, IsObjectOf}
use wrkr.Messages.ScalarTrip.{decode_scalar_value-encode_scalar_value}
use mathlib.Core.List.{append_assoc}

-- What has the wire type of a packed list is no list of a packable kind.
unpacked :
    (kind : GrpcValueKind)
    → ((wire_type_number (wire_type_for_kind kind) == 2) && kind_is_packable kind) ≡ false
unfolding wire_type_number wire_type_for_kind kind_is_packable
unpacked bool = refl
unpacked string = refl
unpacked bytes = refl
unpacked int32 = refl
unpacked sint32 = refl
unpacked sfixed32 = refl
unpacked int64 = refl
unpacked sint64 = refl
unpacked sfixed64 = refl
unpacked uint32 = refl
unpacked fixed32 = refl
unpacked uint64 = refl
unpacked fixed64 = refl
unpacked float = refl
unpacked double = refl
unpacked (enum_of e) = refl
unpacked (message m) = refl

pub get_by_number_nonzero :
    (n : ℕ) (meta : GrpcMessageMeta) (name : Bytes) (shape : GrpcFieldShape)
    → get_by_number n meta ≡ some (name, shape)
    → n ≢ 0
unfolding get_by_number
get_by_number_nonzero n no_fields name shape h = cc
get_by_number_nonzero n (field other k s meta) name shape h =
    elim (Bool-cases (not (k == 0) && k == n)) [
      | inl here ↦ ground (arith, here)
      | inr later ↦
          let h' : get_by_number n meta ≡ some (name, shape) = ground (arith, h, later) in
          get_by_number_nonzero n meta name shape h'
    ]

pub read_tag_takes : (s : Bytes) (r : (ℕ × WireType) × Bytes) → read_tag s ≡ ok r → 0 < length s
unfolding read_tag
read_tag_takes [] r h = cc
read_tag_takes (b ∷ s) r h = omega arith

module _ (lib : Floats) (decode : GrpcMessageMeta → Bytes → Result Value)
    (by_number : ℕ → Option (Bytes × GrpcFieldShape)) where
  -- One turn of the loop.
  pub decode_fields-step :
      (fuel n : ℕ) (t : WireType) (out out' : ObjectMap) (s s' s'' : Bytes)
      → read_tag s ≡ ok ((n, t), s')
      → decode_field lib decode (by_number n) t out s' ≡ ok (out', s'')
      → decode_fields lib decode by_number (suc fuel) out s
        ≡ decode_fields lib decode by_number fuel out' s''
  unfolding decode_fields read_tag
  decode_fields-step fuel n t out out' [] s' s'' tag turn = cc
  decode_fields-step fuel n t out out' (b ∷ s) s' s'' tag turn = rw (tag, read_tag) (rw turn refl)

  module _ (encode : GrpcMessageMeta → Value → Result Bytes) (limit : ℕ) (bounded : IsU64 limit)
      (nested : (meta : GrpcMessageMeta) (m : ObjectMap) (b : Bytes)
        → IsObjectOf lib meta m
        → encode meta (Value.object m) ≡ ok b
        → length b < limit
        → decode meta b ≡ ok (Value.object m)) where
    -- What an occurrence of a field consists of.
    pub occurrence :
        (n : ℕ) (kind : GrpcValueKind) (v : Value) (first : Bytes)
        → encode_scalar_field lib encode n kind v ≡ ok first
        → length first ≤ limit
        → (payload : Bytes) × (encode_scalar_value lib encode kind v ≡ ok payload)
          × (first ≡ write_tag n (wire_type_for_kind kind) ++ payload)
          × (length payload ≤ limit)
    unfolding encode_scalar_field
    occurrence n kind v first e fits =
        let tag = write_tag n (wire_type_for_kind kind) in
        let (payload, encoded, e') =
          step-eq-ok (encode_scalar_value lib encode kind v) (λ (p : Bytes). ok (tag ++ p)) e in
        (
          payload,
          encoded,
          sym (ok_inj e'),
          omega (arith, fits, ap length (ok_inj e'), length-append tag payload),
        )

    module _ (name : Bytes) (n : ℕ) (kind : GrpcValueKind) (nonzero : n ≢ 0)
        (small : n < 2 ^ 32) where
      pub tag_first :
          (first payload rest : Bytes)
          → first ≡ write_tag n (wire_type_for_kind kind) ++ payload
          → read_tag (first ++ rest) ≡ ok ((n, wire_type_for_kind kind), payload ++ rest)
      tag_first first payload rest e =
          let tag = write_tag n (wire_type_for_kind kind) in
          ap (λ (s : Bytes). read_tag (s ++ rest)) e
          ∙ ap read_tag (append_assoc tag payload rest)
          ∙ read_tag-write_tag n (wire_type_for_kind kind) (payload ++ rest) nonzero small

      pub occurrence_takes :
          (v : Value) (first : Bytes)
          → encode_scalar_field lib encode n kind v ≡ ok first
          → length first ≤ limit
          → 0 < length first
      occurrence_takes v first e fits =
          let (payload, encoded, shape, fits') = occurrence n kind v first e fits in
          let tag = tag_first first payload [] shape in
          omega (
            arith,
            read_tag_takes (first ++ []) ((n, wire_type_for_kind kind), payload ++ []) tag,
            length-append first [],
          )

      pub turn_scalar :
          (v : Value) (fuel : ℕ) (out : ObjectMap) (first rest : Bytes)
          → by_number n ≡ some (name, scalar kind)
          → IsValueOf lib kind v
          → encode_scalar_field lib encode n kind v ≡ ok first
          → length first ≤ limit
          → decode_fields lib decode by_number (suc fuel) out (first ++ rest)
            ≡ decode_fields lib decode by_number fuel (insert_field name v out) rest
      unfolding decode_field decode_field_value merge_decoded_field
      turn_scalar v fuel out first rest known of_kind e fits =
          let (payload, encoded, shape, fits') = occurrence n kind v first e fits in
          let t = wire_type_for_kind kind in
          let back =
            decode_scalar_value-encode_scalar_value lib decode encode limit bounded nested kind v
              payload rest of_kind encoded fits' in
          let turn : decode_field lib decode (by_number n) t out (payload ++ rest)
              ≡ ok (insert_field name v out, rest) =
            rw known (rw back refl) in
          decode_fields-step fuel n t out (insert_field name v out) (first ++ rest)
            (payload ++ rest) rest (tag_first first payload rest shape) turn

      pub turn_list :
          (v : Value) (fuel : ℕ) (out : ObjectMap) (first rest : Bytes)
          → by_number n ≡ some (name, list kind)
          → IsValueOf lib kind v
          → encode_scalar_field lib encode n kind v ≡ ok first
          → length first ≤ limit
          → decode_fields lib decode by_number (suc fuel) out (first ++ rest)
            ≡ decode_fields lib decode by_number fuel
                (insert_field name
                  (Value.array
                    (merge_list (get_field name out) (Value.array (Items.cons v Items.nil))))
                  out)
                rest
      unfolding decode_field decode_field_value decode_list merge_decoded_field
      turn_list v fuel out first rest known of_kind e fits =
          let (payload, encoded, shape, fits') = occurrence n kind v first e fits in
          let t = wire_type_for_kind kind in
          let back =
            decode_scalar_value-encode_scalar_value lib decode encode limit bounded nested kind v
              payload rest of_kind encoded fits' in
          let merged =
            Value.array (merge_list (get_field name out) (Value.array (Items.cons v Items.nil))) in
          let turn : decode_field lib decode (by_number n) t out (payload ++ rest)
              ≡ ok (insert_field name merged out, rest) =
            rw known (rw (unpacked kind) (rw back refl)) in
          decode_fields-step fuel n t out (insert_field name merged out) (first ++ rest)
            (payload ++ rest) rest (tag_first first payload rest shape) turn
