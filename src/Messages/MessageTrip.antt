-- ===== src/Messages/MessageTrip.antt =====
-- Whole messages, written and read back.
use wrkr.Prelude.{
  ℕ, zero, suc, ◌+◌, ◌-◌, ◌^◌, ◌<◌, ◌≤◌, ◌≡◌, ◌≢◌, refl, sym, ap, ◌∙◌, Bool, false, Option, none,
  some, [], ◌++◌, length, length-append, ◌==◌, if◌then◌else◌, arith, IsU64,
}
use wrkr.Prelude.Results.{ok, err, ◌>>=◌, ok_inj, step-eq-ok}
use wrkr.Wire.{Bytes, Result, unknown_field, invalid_field_number}
use wrkr.Value.{Value, Items, ObjectMap, MapMap}
use wrkr.Messages.Kinds.{
  GrpcMessageMeta, GrpcFieldShape, get_by_name, get_by_number, get_field, insert_field,
  append_items,
}
use wrkr.Messages.Decimal.{Floats}
use wrkr.Messages.Coerce.{or_err}
use wrkr.Messages.Scalar.{encode_scalar_field}
use wrkr.Messages.Decode.{decode_fields}
use wrkr.Messages.Encode.{encode_items, encode_map_entries, encode_field, encode_object}
use wrkr.Messages.Objects.{
  append_object, append_object-end, Fresh, Fresh-insert_field, append_object-insert_field,
}
use wrkr.Messages.Fitting.{IsFieldOf, one, many, keyed, IsObjectOf, ends, fields}
use wrkr.Messages.FieldTrip.{get_by_number_nonzero, occurrence_takes, turn_scalar}
use wrkr.Messages.ListTrip.{turn_array}
use wrkr.Messages.MapTrip.{turn_map}

module _ (lib : Floats) (decode : GrpcMessageMeta → Bytes → Result Value)
    (by_number : ℕ → Option (Bytes × GrpcFieldShape))
    (encode : GrpcMessageMeta → Value → Result Bytes) (limit : ℕ) (bounded : IsU64 limit)
    (nested : (meta : GrpcMessageMeta) (m : ObjectMap) (b : Bytes)
      → IsObjectOf lib meta m
      → encode meta (Value.object m) ≡ ok b
      → length b < limit
      → decode meta b ≡ ok (Value.object m)) where
  -- One field of the object, whatever its shape.
  turn_field :
      (name : Bytes) (n : ℕ) (shape : GrpcFieldShape) (v : Value) (fuel : ℕ) (out : ObjectMap)
      (first rest : Bytes)
      → n ≢ 0
      → n < 2 ^ 32
      → by_number n ≡ some (name, shape)
      → get_field name out ≡ none
      → IsFieldOf lib shape v
      → encode_field lib encode name n shape v ≡ ok first
      → length first ≤ limit
      → length first + length rest ≤ fuel
      → (fuel' : ℕ) × (length rest ≤ fuel')
        × (decode_fields lib decode by_number fuel out (first ++ rest)
            ≡ decode_fields lib decode by_number fuel' (insert_field name v out) rest)
  unfolding encode_field encode_items append_items
  turn_field name n shape v fuel out first rest nonzero small known absent (one kind _ of_kind) e
        fits enough =
      let given : (n == 0) ≡ false = ground arith in
      let e' : encode_scalar_field lib encode n kind v ≡ ok first =
        ap
          (λ (test : Bool).
            if test
            then err (invalid_field_number name)
            else encode_scalar_field lib encode n kind v)
          (sym given)
        ∙ e in
      let taken =
        occurrence_takes lib decode by_number encode limit bounded nested name n kind nonzero small
          v first e' fits in
      let more : suc (fuel - 1) ≡ fuel = omega (arith, taken, enough) in
      (
        fuel - 1,
        omega (arith, taken, enough),
        ap (λ (k : ℕ). decode_fields lib decode by_number k out (first ++ rest)) (sym more)
            ∙ turn_scalar lib decode by_number encode limit bounded nested name n kind nonzero small
                v (fuel - 1) out first rest known of_kind e' fits,
      )
  turn_field name n shape v fuel out first rest nonzero small known absent
        (many kind w vs head tail) e fits enough =
      let given : (n == 0) ≡ false = ground arith in
      let e' : encode_items lib encode n kind (Items.cons w vs) ≡ ok first =
        ap
          (λ (test : Bool).
            if test
            then err (invalid_field_number name)
            else encode_items lib encode n kind (Items.cons w vs))
          (sym given)
        ∙ e in
      turn_array lib decode by_number encode limit bounded nested name n kind w vs fuel out first
        rest nonzero small known absent head tail e' fits enough
  turn_field name n _ _ fuel out first rest nonzero small known absent
        (keyed kk vk k v m of_key of_value apart tail) e fits enough =
      let given : (n == 0) ≡ false = ground arith in
      let e' : encode_map_entries lib encode n kk vk (MapMap.entry k v m) ≡ ok first =
        ap
          (λ (test : Bool).
            if test
            then err (invalid_field_number name)
            else encode_map_entries lib encode n kk vk (MapMap.entry k v m))
          (sym given)
        ∙ e in
      turn_map lib decode by_number encode limit bounded nested kk vk name n nonzero small known k v
        m fuel out first rest absent of_key of_value apart tail e' fits enough

  decode_fields-end :
      (fuel : ℕ) (out : ObjectMap)
      → decode_fields lib decode by_number fuel out [] ≡ ok (Value.object out)
  unfolding decode_fields
  decode_fields-end zero out = refl
  decode_fields-end (suc fuel) out = refl

  pub object_trip :
      (meta : GrpcMessageMeta) (m out : ObjectMap) (b : Bytes) (fuel : ℕ)
      → ((n : ℕ) → by_number n ≡ get_by_number n meta)
      → IsObjectOf lib meta m
      → Fresh out m
      → encode_object lib encode meta m ≡ ok b
      → length b ≤ limit
      → length b ≤ fuel
      → decode_fields lib decode by_number fuel out b ≡ ok (Value.object (append_object out m))
  unfolding encode_object
  object_trip meta m out b fuel table (ends _) fresh e fits enough =
      let nothing = ok_inj e in
      ap (λ (s : Bytes). decode_fields lib decode by_number fuel out s) (sym nothing)
      ∙ decode_fields-end fuel out
      ∙ ap (λ (o : ObjectMap). ok (Value.object o)) (sym (append_object-end out))
  object_trip meta _ out b fuel table
        (fields _ name n shape v m by_name found small absent of_shape of_rest) fresh e fits
        enough =
      let (first, first_ok, e₁) =
        step-eq-ok
          (or_err (unknown_field name) (get_by_name name meta)
            >>= (λ (f : ℕ × GrpcFieldShape). encode_field lib encode name f.0 f.1 v))
          (λ (a : Bytes). encode_object lib encode meta m >>= (λ (c : Bytes). ok (a ++ c))) e in
      let (later, later_ok, e₂) =
        step-eq-ok (encode_object lib encode meta m) (λ (c : Bytes). ok (first ++ c)) e₁ in
      let whole = ok_inj e₂ in
      let sizes : length first + length later ≡ length b =
        sym (length-append first later) ∙ ap length whole in
      let field_ok : encode_field lib encode name n shape v ≡ ok first =
        ap
          (λ (o : Option (ℕ × GrpcFieldShape)).
            or_err (unknown_field name) o
            >>= (λ (f : ℕ × GrpcFieldShape). encode_field lib encode name f.0 f.1 v))
          (sym by_name)
        ∙ first_ok in
      let (fuel', left, turn) =
        turn_field name n shape v fuel out first later
          (get_by_number_nonzero n meta name shape found) small (table n ∙ found) fresh.0 of_shape
          field_ok (omega (arith, sizes, fits)) (omega (arith, sizes, enough)) in
      ap (λ (s : Bytes). decode_fields lib decode by_number fuel out s) (sym whole)
      ∙ turn
      ∙ object_trip meta m (insert_field name v out) later fuel' table of_rest
          (Fresh-insert_field name v out m absent fresh.1) later_ok (omega (arith, sizes, fits))
          left
      ∙ ap (λ (o : ObjectMap). ok (Value.object o))
          (append_object-insert_field name v out m fresh.0)
