-- ===== src/Messages/MapTrip.antt =====
-- The entries of a map field, one after the other.
use wrkr.Prelude.{
  ℕ, suc, ◌+◌, ◌-◌, ◌^◌, ◌<◌, ◌≤◌, ◌≡◌, ◌≢◌, refl, sym, ap, ◌∙◌, Option, none, some, ◌++◌, length,
  length-append, arith, IsU64,
}
use wrkr.Prelude.Results.{ok, ◌>>=◌, ok_inj, step-eq-ok}
use wrkr.Wire.{Bytes, Result}
use wrkr.Value.{MapKey, Value, ObjectMap, MapMap}
use wrkr.Messages.Kinds.{KeyKind, GrpcValueKind, GrpcMessageMeta}
use wrkr.Messages.Decimal.{Floats}
use wrkr.Messages.Entries.{encode_map_entry}
use wrkr.Messages.Fitting.{IsKeyOf, IsValueOf, IsObjectOf}
use mathlib.Core.List.{append_assoc}
use wrkr.Messages.Kinds.{GrpcFieldShape, map_of, get_field, insert_field, insert_entry}
use wrkr.Messages.Entries.{insert_into_map}
use wrkr.Messages.Decode.{decode_fields}
use wrkr.Messages.Encode.{encode_map_entries}
use wrkr.Messages.Fitting.{get_entry, AreEntriesOf, no_entries, entries}
use wrkr.Messages.Objects.{
  bytes_eq_iff, get_field-insert_field, insert_field_same, insert_field-insert_field,
}
use wrkr.Messages.Maps.{
  append_map, append_map-empty, append_map-insert_entry, FreshKeys, FreshKeys-insert_entry,
  FreshKeys-empty,
}
use wrkr.Messages.EntryTrip.{turn_entry}

insert_into_map-present :
    (name : Bytes) (k : MapKey) (v : Value) (have : MapMap) (out : ObjectMap)
    → get_field name out ≡ some (Value.map have)
    → insert_into_map name k v out ≡ insert_field name (Value.map (insert_entry k v have)) out
unfolding insert_into_map
insert_into_map-present name k v have out h = rw (h, insert_into_map) refl

insert_into_map-absent :
    (name : Bytes) (k : MapKey) (v : Value) (out : ObjectMap)
    → get_field name out ≡ none
    → insert_into_map name k v out
      ≡ insert_field name (Value.map (MapMap.entry k v MapMap.empty)) out
unfolding insert_into_map
insert_into_map-absent name k v out h = rw (h, insert_into_map) refl

now_there :
    (name : Bytes) (v : Value) (out : ObjectMap) → get_field name (insert_field name v out) ≡ some v
now_there name v out =
    get_field-insert_field name name v out ∙ rw ((bytes_eq_iff name name).1 refl) refl

module _ (lib : Floats) (decode : GrpcMessageMeta → Bytes → Result Value)
    (by_number : ℕ → Option (Bytes × GrpcFieldShape))
    (encode : GrpcMessageMeta → Value → Result Bytes) (limit : ℕ) (bounded : IsU64 limit)
    (nested : (meta : GrpcMessageMeta) (m : ObjectMap) (b : Bytes)
      → IsObjectOf lib meta m
      → encode meta (Value.object m) ≡ ok b
      → length b < limit
      → decode meta b ≡ ok (Value.object m)) where
  module _ (kk : KeyKind) (vk : GrpcValueKind) (name : Bytes) (n : ℕ) (nonzero : n ≢ 0)
      (small : n < 2 ^ 32) (known : by_number n ≡ some (name, map_of kk vk)) where
    -- The entries after the first ones, which are in the object already.
    turn_entries :
        (m have : MapMap) (fuel : ℕ) (out : ObjectMap) (encoded rest : Bytes)
        → AreEntriesOf lib kk vk m
        → FreshKeys have m
        → get_field name out ≡ some (Value.map have)
        → encode_map_entries lib encode n kk vk m ≡ ok encoded
        → length encoded ≤ limit
        → length encoded + length rest ≤ fuel
        → (fuel' : ℕ) × (length rest ≤ fuel')
          × (decode_fields lib decode by_number fuel out (encoded ++ rest)
              ≡ decode_fields lib decode by_number fuel'
                  (insert_field name (Value.map (append_map have m)) out)
                  rest)
    unfolding encode_map_entries
    turn_entries m have fuel out encoded rest (no_entries _ _) fresh present e fits enough =
        let kept : insert_field name (Value.map (append_map have MapMap.empty)) out ≡ out =
          rw (append_map-empty have) (insert_field_same name (Value.map have) out present) in
        (
          fuel,
          omega (arith, enough),
          ap (λ (s : Bytes). decode_fields lib decode by_number fuel out (s ++ rest))
                (sym (ok_inj e))
              ∙ ap (λ (o : ObjectMap). decode_fields lib decode by_number fuel o rest) (sym kept),
        )
    turn_entries _ have fuel out encoded rest (entries _ _ k v m of_key of_value apart tail) fresh
          present e fits enough =
        let (first, first_ok, e₁) =
          step-eq-ok (encode_map_entry lib encode n kk vk k v)
            (λ (a : Bytes).
              encode_map_entries lib encode n kk vk m >>= (λ (b : Bytes). ok (a ++ b)))
            e in
        let (later, later_ok, e₂) =
          step-eq-ok (encode_map_entries lib encode n kk vk m) (λ (b : Bytes). ok (first ++ b))
            e₁ in
        let whole = ok_inj e₂ in
        let sizes : length first + length later ≡ length encoded =
          sym (length-append first later) ∙ ap length whole in
        let (taken, turn) =
          turn_entry lib decode by_number encode limit bounded nested kk vk name n k v (fuel - 1)
            out first (later ++ rest) nonzero small known of_key of_value first_ok
            (omega (arith, sizes, fits)) in
        let merged = insert_entry k v have in
        let out' = insert_field name (Value.map merged) out in
        let value = insert_into_map-present name k v have out present in
        let (fuel', left, after) =
          turn_entries m merged (fuel - 1) out' later rest tail
            (FreshKeys-insert_entry k v have m apart fresh.1)
            (now_there name (Value.map merged) out) later_ok (omega (arith, sizes, fits))
            (omega (arith, sizes, enough, taken)) in
        let more : suc (fuel - 1) ≡ fuel = omega (arith, sizes, enough, taken) in
        (
          fuel',
          left,
          ap (λ (s : Bytes). decode_fields lib decode by_number fuel out (s ++ rest)) (sym whole)
              ∙ ap (λ (s : Bytes). decode_fields lib decode by_number fuel out s)
                  (append_assoc first later rest)
              ∙ ap (λ (f : ℕ). decode_fields lib decode by_number f out (first ++ (later ++ rest)))
                  (sym more)
              ∙ turn
              ∙ ap
                  (λ (o : ObjectMap).
                    decode_fields lib decode by_number (fuel - 1) o (later ++ rest))
                  value
              ∙ after
              ∙ ap (λ (o : ObjectMap). decode_fields lib decode by_number fuel' o rest)
                  (insert_field-insert_field name (Value.map (append_map merged m))
                    (Value.map merged) out)
              ∙ ap
                  (λ (l : MapMap).
                    decode_fields lib decode by_number fuel' (insert_field name (Value.map l) out)
                      rest)
                  (append_map-insert_entry k v have m fresh.0),
        )

    -- A map field that is not in the object yet.
    pub turn_map :
        (k : MapKey) (v : Value) (m : MapMap) (fuel : ℕ) (out : ObjectMap) (encoded rest : Bytes)
        → get_field name out ≡ none
        → IsKeyOf kk k
        → IsValueOf lib vk v
        → get_entry k m ≡ none
        → AreEntriesOf lib kk vk m
        → encode_map_entries lib encode n kk vk (MapMap.entry k v m) ≡ ok encoded
        → length encoded ≤ limit
        → length encoded + length rest ≤ fuel
        → (fuel' : ℕ) × (length rest ≤ fuel')
          × (decode_fields lib decode by_number fuel out (encoded ++ rest)
              ≡ decode_fields lib decode by_number fuel'
                  (insert_field name (Value.map (MapMap.entry k v m)) out)
                  rest)
    unfolding encode_map_entries insert_entry
    turn_map k v m fuel out encoded rest absent of_key of_value apart tail e fits enough =
        let (first, first_ok, e₁) =
          step-eq-ok (encode_map_entry lib encode n kk vk k v)
            (λ (a : Bytes).
              encode_map_entries lib encode n kk vk m >>= (λ (b : Bytes). ok (a ++ b)))
            e in
        let (later, later_ok, e₂) =
          step-eq-ok (encode_map_entries lib encode n kk vk m) (λ (b : Bytes). ok (first ++ b))
            e₁ in
        let whole = ok_inj e₂ in
        let sizes : length first + length later ≡ length encoded =
          sym (length-append first later) ∙ ap length whole in
        let (taken, turn) =
          turn_entry lib decode by_number encode limit bounded nested kk vk name n k v (fuel - 1)
            out first (later ++ rest) nonzero small known of_key of_value first_ok
            (omega (arith, sizes, fits)) in
        let lone = MapMap.entry k v MapMap.empty in
        let out' = insert_field name (Value.map lone) out in
        let value = insert_into_map-absent name k v out absent in
        let (fuel', left, after) =
          turn_entries m lone (fuel - 1) out' later rest tail
            (FreshKeys-insert_entry k v MapMap.empty m apart (FreshKeys-empty m))
            (now_there name (Value.map lone) out) later_ok (omega (arith, sizes, fits))
            (omega (arith, sizes, enough, taken)) in
        let more : suc (fuel - 1) ≡ fuel = omega (arith, sizes, enough, taken) in
        (
          fuel',
          left,
          ap (λ (s : Bytes). decode_fields lib decode by_number fuel out (s ++ rest)) (sym whole)
              ∙ ap (λ (s : Bytes). decode_fields lib decode by_number fuel out s)
                  (append_assoc first later rest)
              ∙ ap (λ (f : ℕ). decode_fields lib decode by_number f out (first ++ (later ++ rest)))
                  (sym more)
              ∙ turn
              ∙ ap
                  (λ (o : ObjectMap).
                    decode_fields lib decode by_number (fuel - 1) o (later ++ rest))
                  value
              ∙ after
              ∙ ap (λ (o : ObjectMap). decode_fields lib decode by_number fuel' o rest)
                  (insert_field-insert_field name (Value.map (MapMap.entry k v m)) (Value.map lone)
                    out),
        )
