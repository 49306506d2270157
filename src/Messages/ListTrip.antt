-- ===== src/Messages/ListTrip.antt =====
-- The items of a list field, written one by one and read back.
use wrkr.Prelude.{
  ℕ, suc, ◌+◌, ◌-◌, ◌^◌, ◌<◌, ◌≤◌, ◌≡◌, ◌≢◌, refl, sym, ap, ◌∙◌, Option, none, some, ◌++◌, length,
  length-append, arith, IsU64,
}
use wrkr.Prelude.Results.{ok, ◌>>=◌, ok_inj, step-eq-ok}
use wrkr.Wire.{Bytes, Result}
use wrkr.Value.{Value, Items, ObjectMap}
use wrkr.Messages.Kinds.{
  GrpcValueKind, GrpcMessageMeta, GrpcFieldShape, list, get_field, insert_field, append_items,
}
use wrkr.Messages.Decimal.{Floats}
use wrkr.Messages.Scalar.{encode_scalar_field}
use wrkr.Messages.Decode.{merge_list, decode_fields}
use wrkr.Messages.Encode.{encode_items}
use wrkr.Messages.Objects.{
  bytes_eq_iff, get_field-insert_field, insert_field_same, insert_field-insert_field,
  append_items-nil, append_items-append_items,
}
use wrkr.Messages.Fitting.{IsValueOf, AreValuesOf, no_items, item, IsObjectOf}
use mathlib.Core.List.{append_assoc}
use wrkr.Messages.FieldTrip.{occurrence_takes, turn_list}

module _ (lib : Floats) (decode : GrpcMessageMeta → Bytes → Result Value)
    (by_number : ℕ → Option (Bytes × GrpcFieldShape))
    (encode : GrpcMessageMeta → Value → Result Bytes) (limit : ℕ) (bounded : IsU64 limit)
    (nested : (meta : GrpcMessageMeta) (m : ObjectMap) (b : Bytes)
      → IsObjectOf lib meta m
      → encode meta (Value.object m) ≡ ok b
      → length b < limit
      → decode meta b ≡ ok (Value.object m)) where
  module _ (name : Bytes) (n : ℕ) (kind : GrpcValueKind) (nonzero : n ≢ 0)
      (small : n < 2 ^ 32) where
    -- The items after the first ones, which are in the object already.
    turn_items :
        (vs have : Items) (fuel : ℕ) (out : ObjectMap) (encoded rest : Bytes)
        → by_number n ≡ some (name, list kind)
        → AreValuesOf lib kind vs
        → get_field name out ≡ some (Value.array have)
        → encode_items lib encode n kind vs ≡ ok encoded
        → length encoded ≤ limit
        → length encoded + length rest ≤ fuel
        → (fuel' : ℕ) × (length rest ≤ fuel')
          × (decode_fields lib decode by_number fuel out (encoded ++ rest)
              ≡ decode_fields lib decode by_number fuel'
                  (insert_field name (Value.array (append_items have vs)) out)
                  rest)
    unfolding encode_items append_items
    turn_items vs have fuel out encoded rest known (no_items _) present e fits enough =
        let none_left = ap length (ok_inj e) in
        let same = insert_field_same name (Value.array have) out present in
        let kept : insert_field name (Value.array (append_items have Items.nil)) out ≡ out =
          rw (append_items-nil have) same in
        (
          fuel,
          omega (arith, enough),
          ap (λ (s : Bytes). decode_fields lib decode by_number fuel out (s ++ rest))
                (sym (ok_inj e))
              ∙ ap (λ (o : ObjectMap). decode_fields lib decode by_number fuel o rest) (sym kept),
        )
    turn_items (Items.cons v vs) have fuel out encoded rest known (item _ _ _ head tail) present e
          fits enough =
        let (first, first_ok, e₁) =
          step-eq-ok (encode_scalar_field lib encode n kind v)
            (λ (a : Bytes). encode_items lib encode n kind vs >>= (λ (b : Bytes). ok (a ++ b))) e in
        let (later, later_ok, e₂) =
          step-eq-ok (encode_items lib encode n kind vs) (λ (b : Bytes). ok (first ++ b)) e₁ in
        let whole = ok_inj e₂ in
        let sizes : length first + length later ≡ length encoded =
          sym (length-append first later) ∙ ap length whole in
        let taken =
          occurrence_takes lib decode by_number encode limit bounded nested name n kind nonzero
            small v first first_ok (omega (arith, sizes, fits)) in
        let merged = append_items have (Items.cons v Items.nil) in
        let out' = insert_field name (Value.array merged) out in
        let value =
          ap
            (λ (o : Option Value).
              insert_field name (Value.array (merge_list o (Value.array (Items.cons v Items.nil))))
                out)
            present in
        let turn =
          turn_list lib decode by_number encode limit bounded nested name n kind nonzero small v
            (fuel - 1) out first (later ++ rest) known head first_ok (omega (arith, sizes, fits)) in
        let now : get_field name out' ≡ some (Value.array merged) =
          get_field-insert_field name name (Value.array merged) out
          ∙ rw ((bytes_eq_iff name name).1 refl) refl in
        let (fuel', left, after) =
          turn_items vs merged (fuel - 1) out' later rest known tail now later_ok
            (omega (arith, sizes, fits)) (omega (arith, sizes, enough, taken)) in
        let more : suc (fuel - 1) ≡ fuel = omega (arith, sizes, enough, taken) in
        (
          fuel',
          left,
          ap (λ (s : Bytes). decode_fields lib decode by_number fuel out (s ++ rest)) (sym whole)
              ∙ ap (λ (s : Bytes). decode_fields lib decode by_number fuel out s)
                  (append_assoc first later rest)
              ∙ ap (λ (k : ℕ). decode_fields lib decode by_number k out (first ++ (later ++ rest)))
                  (sym more)
              ∙ turn
              ∙ ap
                  (λ (o : ObjectMap).
                    decode_fields lib decode by_number (fuel - 1) o (later ++ rest))
                  value
              ∙ after
              ∙ ap (λ (o : ObjectMap). decode_fields lib decode by_number fuel' o rest)
                  (insert_field-insert_field name (Value.array (append_items merged vs))
                    (Value.array merged) out)
              ∙ ap
                  (λ (l : Items).
                    decode_fields lib decode by_number fuel' (insert_field name (Value.array l) out)
                      rest)
                  (append_items-append_items have (Items.cons v Items.nil) vs),
        )

  -- A list field that is not in the object yet.
  pub turn_array :
      (name : Bytes) (n : ℕ) (kind : GrpcValueKind) (v : Value) (vs : Items) (fuel : ℕ)
      (out : ObjectMap) (encoded rest : Bytes)
      → n ≢ 0
      → n < 2 ^ 32
      → by_number n ≡ some (name, list kind)
      → get_field name out ≡ none
      → IsValueOf lib kind v
      → AreValuesOf lib kind vs
      → encode_items lib encode n kind (Items.cons v vs) ≡ ok encoded
      → length encoded ≤ limit
      → length encoded + length rest ≤ fuel
      → (fuel' : ℕ) × (length rest ≤ fuel')
        × (decode_fields lib decode by_number fuel out (encoded ++ rest)
            ≡ decode_fields lib decode by_number fuel'
                (insert_field name (Value.array (Items.cons v vs)) out)
                rest)
  unfolding encode_items append_items
  turn_array name n kind v vs fuel out encoded rest nonzero small known absent head tail e fits
        enough =
      let (first, first_ok, e₁) =
        step-eq-ok (encode_scalar_field lib encode n kind v)
          (λ (a : Bytes). encode_items lib encode n kind vs >>= (λ (b : Bytes). ok (a ++ b))) e in
      let (later, later_ok, e₂) =
        step-eq-ok (encode_items lib encode n kind vs) (λ (b : Bytes). ok (first ++ b)) e₁ in
      let whole = ok_inj e₂ in
      let sizes : length first + length later ≡ length encoded =
        sym (length-append first later) ∙ ap length whole in
      let taken =
        occurrence_takes lib decode by_number encode limit bounded nested name n kind nonzero small
          v first first_ok (omega (arith, sizes, fits)) in
      let one_item = Value.array (Items.cons v Items.nil) in
      let out' = insert_field name one_item out in
      let value =
        ap (λ (o : Option Value). insert_field name (Value.array (merge_list o one_item)) out)
          absent in
      let turn =
        turn_list lib decode by_number encode limit bounded nested name n kind nonzero small v
          (fuel - 1) out first (later ++ rest) known head first_ok (omega (arith, sizes, fits)) in
      let now : get_field name out' ≡ some one_item =
        get_field-insert_field name name one_item out ∙ rw ((bytes_eq_iff name name).1 refl) refl in
      let (fuel', left, after) =
        turn_items name n kind nonzero small vs (Items.cons v Items.nil) (fuel - 1) out' later rest
          known tail now later_ok (omega (arith, sizes, fits))
          (omega (arith, sizes, enough, taken)) in
      let more : suc (fuel - 1) ≡ fuel = omega (arith, sizes, enough, taken) in
      (
        fuel',
        left,
        ap (λ (s : Bytes). decode_fields lib decode by_number fuel out (s ++ rest)) (sym whole)
            ∙ ap (λ (s : Bytes). decode_fields lib decode by_number fuel out s)
                (append_assoc first later rest)
            ∙ ap (λ (k : ℕ). decode_fields lib decode by_number k out (first ++ (later ++ rest)))
                (sym more)
            ∙ turn
            ∙ ap
                (λ (o : ObjectMap). decode_fields lib decode by_number (fuel - 1) o (later ++ rest))
                value
            ∙ after
            ∙ ap (λ (o : ObjectMap). decode_fields lib decode by_number fuel' o rest)
                (insert_field-insert_field name (Value.array (Items.cons v vs)) one_item out),
      )
