-- ===== src/Messages/EntryTrip.antt =====
-- One entry of a map field, written and read back.
use wrkr.Prelude.{
  ℕ, zero, suc, ◌+◌, ◌-◌, ◌^◌, ◌<◌, ◌≤◌, ◌≡◌, ◌≢◌, refl, sym, ap, ◌∙◌, Option, none, some, [], ◌∷◌,
  ◌++◌, length, length-append, arith, IsU64,
}
use wrkr.Prelude.Results.{ok, ◌>>=◌, ok_inj, step-eq-ok}
use wrkr.Wire.{Bytes, Result, WireType, write_tag, read_tag, write_len_delimited}
use wrkr.Wire.Fields.{read_tag-write_tag, read_len_delimited-write_len_delimited}
use wrkr.Value.{MapKey, Value, ObjectMap}
use wrkr.Messages.Kinds.{KeyKind, GrpcValueKind, GrpcMessageMeta, wire_type_for_kind}
use wrkr.Messages.Decimal.{Floats}
use wrkr.Messages.Scalar.{encode_scalar_field}
use wrkr.Messages.Entries.{
  expect_wire_type, encode_map_key, encode_map_entry, decode_entry_field, decode_entry_loop,
  decode_map_entry,
}
use wrkr.Messages.Fitting.{IsKeyOf, IsValueOf, IsObjectOf}
use wrkr.Messages.ScalarTrip.{decode_scalar_value-encode_scalar_value}
use wrkr.Messages.FieldTrip.{occurrence, read_tag_takes}
use mathlib.Core.List.{append_assoc, append-nil}
use wrkr.Messages.Kinds.{GrpcFieldShape, map_of}
use wrkr.Messages.Entries.{insert_into_map, decode_map_entry_into_object}
use wrkr.Messages.Decode.{decode_field, decode_fields}
use wrkr.Messages.FieldTrip.{decode_fields-step, occurrence_takes, tag_first}
use wrkr.Messages.ScalarTrip.{length-write_len_delimited}
use wrkr.Messages.KeyTrip.{key_wire_type, decode_map_key-encode_map_key}

module _ (lib : Floats) (decode : GrpcMessageMeta → Bytes → Result Value)
    (by_number : ℕ → Option (Bytes × GrpcFieldShape))
    (encode : GrpcMessageMeta → Value → Result Bytes) (limit : ℕ) (bounded : IsU64 limit)
    (nested : (meta : GrpcMessageMeta) (m : ObjectMap) (b : Bytes)
      → IsObjectOf lib meta m
      → encode meta (Value.object m) ≡ ok b
      → length b < limit
      → decode meta b ≡ ok (Value.object m)) where
  module _ (kk : KeyKind) (vk : GrpcValueKind) where
    entry_step :
        (fuel n : ℕ) (t : WireType) (key key' : Option MapKey) (value value' : Option Value)
        (s s' s'' : Bytes)
        → read_tag s ≡ ok ((n, t), s')
        → decode_entry_field lib decode kk vk n t key value s' ≡ ok ((key', value'), s'')
        → decode_entry_loop lib decode kk vk (suc fuel) key value s
          ≡ decode_entry_loop lib decode kk vk fuel key' value' s''
    unfolding decode_entry_loop read_tag
    entry_step fuel n t key key' value value' [] s' s'' tag turn = cc
    entry_step fuel n t key key' value value' (b ∷ s) s' s'' tag turn =
        rw (tag, read_tag) (rw turn refl)

    entry_end :
        (fuel : ℕ) (k : MapKey) (v : Value)
        → decode_entry_loop lib decode kk vk fuel (some k) (some v) [] ≡ ok (k, v)
    unfolding decode_entry_loop
    entry_end zero k v = refl
    entry_end (suc fuel) k v = refl

    -- The message of an entry.
    decode_map_entry-written :
        (k : MapKey) (v : Value) (kb eb : Bytes)
        → IsKeyOf kk k
        → IsValueOf lib vk v
        → encode_map_key kk k ≡ ok kb
        → encode_scalar_field lib encode 2 vk v ≡ ok eb
        → IsU64 (length kb)
        → length eb ≤ limit
        → decode_map_entry lib decode kk vk (kb ++ eb) ≡ ok (k, v)
    unfolding decode_map_entry decode_entry_field
    decode_map_entry-written k v kb eb of_key of_value key_ok value_ok key_fits fits =
        let (s, key_tag, key_read) =
          decode_map_key-encode_map_key kk k kb eb of_key key_ok key_fits in
        let (_, lone_tag, _) = decode_map_key-encode_map_key kk k kb [] of_key key_ok key_fits in
        let (payload, encoded, shape, fits') =
          occurrence lib decode by_number encode limit bounded nested 2 vk v eb value_ok fits in
        let t = wire_type_for_kind vk in
        let back =
          decode_scalar_value-encode_scalar_value lib decode encode limit bounded nested vk v
            payload [] of_value encoded fits' in
        let value_taken =
          occurrence_takes lib decode by_number encode limit bounded nested [] 2 vk (omega arith)
            (omega arith) v eb value_ok fits in
        let key_taken : 0 < length kb =
          omega (arith, read_tag_takes (kb ++ []) _ lone_tag, length-append kb []) in
        let size = length-append kb eb in
        let fuel = length (kb ++ eb) - 2 in
        let enough : length (kb ++ eb) ≡ suc (suc fuel) =
          omega (arith, size, key_taken, value_taken) in
        let value_tag =
          ap read_tag (sym (append-nil eb))
          ∙ tag_first lib decode by_number encode limit bounded nested [] 2 vk (omega arith)
              (omega arith) eb payload [] shape in
        ap (λ (f : ℕ). decode_entry_loop lib decode kk vk f none none (kb ++ eb)) enough
        ∙ entry_step (suc fuel) 1 (key_wire_type k) none (some k) none none (kb ++ eb) s eb key_tag
            (rw key_read refl)
        ∙ entry_step fuel 2 t (some k) (some k) none (some v) eb (payload ++ []) [] value_tag
            (rw back refl)
        ∙ entry_end fuel k v

    pub turn_entry :
        (name : Bytes) (n : ℕ) (k : MapKey) (v : Value) (fuel : ℕ) (out : ObjectMap)
        (first rest : Bytes)
        → n ≢ 0
        → n < 2 ^ 32
        → by_number n ≡ some (name, map_of kk vk)
        → IsKeyOf kk k
        → IsValueOf lib vk v
        → encode_map_entry lib encode n kk vk k v ≡ ok first
        → length first ≤ limit
        → (0 < length first)
          × (decode_fields lib decode by_number (suc fuel) out (first ++ rest)
              ≡ decode_fields lib decode by_number fuel (insert_into_map name k v out) rest)
    unfolding encode_map_entry decode_field decode_map_entry_into_object expect_wire_type
    turn_entry name n k v fuel out first rest nonzero small known of_key of_value e fits =
        let (kb, key_ok, e₁) =
          step-eq-ok (encode_map_key kk k)
            (λ (a : Bytes).
              encode_scalar_field lib encode 2 vk v
              >>= (λ (b : Bytes). ok (write_tag n WireType.len ++ write_len_delimited (a ++ b))))
            e in
        let (eb, value_ok, e₂) =
          step-eq-ok (encode_scalar_field lib encode 2 vk v)
            (λ (b : Bytes). ok (write_tag n WireType.len ++ write_len_delimited (kb ++ b))) e₁ in
        let entry = kb ++ eb in
        let tag = write_tag n WireType.len in
        let whole = ok_inj e₂ in
        let sizes : length tag + length (write_len_delimited entry) ≡ length first =
          sym (length-append tag (write_len_delimited entry)) ∙ ap length whole in
        let body = length-write_len_delimited entry in
        let parts = length-append kb eb in
        let inside =
          decode_map_entry-written k v kb eb of_key of_value key_ok value_ok
            (omega (arith, sizes, body, parts, fits, bounded))
            (omega (arith, sizes, body, parts, fits)) in
        let tagged : read_tag (first ++ rest)
            ≡ ok ((n, WireType.len), write_len_delimited entry ++ rest) =
          ap (λ (x : Bytes). read_tag (x ++ rest)) (sym whole)
          ∙ ap read_tag (append_assoc tag (write_len_delimited entry) rest)
          ∙ read_tag-write_tag n WireType.len (write_len_delimited entry ++ rest) nonzero small in
        let delimited =
          read_len_delimited-write_len_delimited entry rest
            (omega (arith, sizes, body, fits, bounded)) in
        let turn : decode_field lib decode (by_number n) WireType.len out
              (write_len_delimited entry ++ rest)
            ≡ ok (insert_into_map name k v out, rest) =
          rw known (rw delimited (rw inside refl)) in
        (
          omega (arith, sizes, body),
          decode_fields-step lib decode by_number fuel n WireType.len out
              (insert_into_map name k v out) (first ++ rest) (write_len_delimited entry ++ rest)
              rest tagged turn,
        )
