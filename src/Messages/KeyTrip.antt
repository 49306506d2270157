-- ===== src/Messages/KeyTrip.antt =====
-- The entries of a map field, written and read back.
use wrkr.Prelude.{
  ℕ, ◌≡◌, refl, sym, ap, ◌∙◌, true, false, not, ◌++◌, length, length-append, ◌==◌, arith, IsU64,
}
use wrkr.Prelude.Int.{ℤ}
use wrkr.Prelude.Results.{ok, ◌>>=◌, ok_inj}
use wrkr.Wire.{
  Bytes, Result, WireType, as_u64, as_i64, write_tag, read_tag, write_variant, read_variant,
  write_len_delimited,
}
use wrkr.Wire.Fields.{read_tag-write_tag}
use wrkr.Value.{MapKey}
use wrkr.Messages.Kinds.{KeyKind}
use wrkr.Messages.Entries.{decode_map_key, encode_map_key}
use wrkr.Messages.Fitting.{
  IsKeyOf, text_keys, bool_keys, int32_keys, sint32_keys, sfixed32_keys, int64_keys, sint64_keys,
  sfixed64_keys, uint32_keys, fixed32_keys, uint64_keys, fixed64_keys,
}
use wrkr.Messages.ScalarTrip.{reads_variant, reads_body, as_i64-as_u64, as_u64_fits}
use mathlib.Core.List.{append_assoc}

-- The wire type of a key, and the body of its field.
abbrev pub key_wire_type : MapKey → WireType
key_wire_type (MapKey.string s) = WireType.len
key_wire_type _ = WireType.varint

tagged :
    (t : WireType) (payload b rest : Bytes)
    → ◌≡◌ {A = Result Bytes} (ok (write_tag 1 t ++ payload)) (ok b)
    → read_tag (b ++ rest) ≡ ok ((1, t), payload ++ rest)
tagged t payload b rest e =
    ap (λ (s : Bytes). read_tag (s ++ rest)) (sym (ok_inj e))
    ∙ ap read_tag (append_assoc (write_tag 1 t) payload rest)
    ∙ read_tag-write_tag 1 t (payload ++ rest) (omega arith) (omega arith)

-- A key that is a number.
varint_key :
    (x : ℕ) (b rest : Bytes) (key : ℕ → MapKey) (original : MapKey)
    → IsU64 x
    → ◌≡◌ {A = Result Bytes} (ok (write_tag 1 WireType.varint ++ write_variant x)) (ok b)
    → key x ≡ original
    → (s : Bytes) × (read_tag (b ++ rest) ≡ ok ((1, WireType.varint), s))
      × (◌>>=◌ {B = MapKey × Bytes} (read_variant s) (λ (y : ℕ × Bytes). ok (key y.0, y.1))
          ≡ ok (original, rest))
varint_key x b rest key original fits e same = (
  write_variant x ++ rest,
  tagged WireType.varint (write_variant x) b rest e,
  rw (reads_variant x (write_variant x) rest fits refl) (ap (λ (k : MapKey). ok (k, rest)) same),
)

-- A key is written as a field of number 1, whose value `decode_map_key` reads back.
pub decode_map_key-encode_map_key :
    (kind : KeyKind) (key : MapKey) (b rest : Bytes)
    → IsKeyOf kind key
    → encode_map_key kind key ≡ ok b
    → IsU64 (length b)
    → (s : Bytes) × (read_tag (b ++ rest) ≡ ok ((1, key_wire_type key), s))
      × (decode_map_key kind (key_wire_type key) s ≡ ok (key, rest))
unfolding decode_map_key encode_map_key
decode_map_key-encode_map_key _ _ b rest (text_keys s utf) e fits =
    let shorter = length-append (write_tag 1 WireType.len) (write_len_delimited s) in
    let body_fits : IsU64 (length (write_len_delimited s)) =
      omega (arith, fits, ap length (ok_inj e), shorter) in
    (
      write_len_delimited s ++ rest,
      tagged WireType.len (write_len_delimited s) b rest e,
      rw (reads_body s (write_len_delimited s) rest body_fits refl) (rw utf refl),
    )
decode_map_key-encode_map_key _ _ b rest (bool_keys true) e fits =
    varint_key 1 b rest (λ n. MapKey.bool (not (n == 0))) _ (omega arith) e refl
decode_map_key-encode_map_key _ _ b rest (bool_keys false) e fits =
    varint_key 0 b rest (λ n. MapKey.bool (not (n == 0))) _ (omega arith) e refl
decode_map_key-encode_map_key _ _ b rest (int32_keys i h) e fits =
    varint_key (as_u64 i) b rest (λ n. MapKey.i64 (as_i64 n)) _ (as_u64_fits i) e
      (ap (λ (z : ℤ). MapKey.i64 z) (as_i64-as_u64 i h))
decode_map_key-encode_map_key _ _ b rest (sint32_keys i h) e fits =
    varint_key (as_u64 i) b rest (λ n. MapKey.i64 (as_i64 n)) _ (as_u64_fits i) e
      (ap (λ (z : ℤ). MapKey.i64 z) (as_i64-as_u64 i h))
decode_map_key-encode_map_key _ _ b rest (sfixed32_keys i h) e fits =
    varint_key (as_u64 i) b rest (λ n. MapKey.i64 (as_i64 n)) _ (as_u64_fits i) e
      (ap (λ (z : ℤ). MapKey.i64 z) (as_i64-as_u64 i h))
decode_map_key-encode_map_key _ _ b rest (int64_keys i h) e fits =
    varint_key (as_u64 i) b rest (λ n. MapKey.i64 (as_i64 n)) _ (as_u64_fits i) e
      (ap (λ (z : ℤ). MapKey.i64 z) (as_i64-as_u64 i h))
decode_map_key-encode_map_key _ _ b rest (sint64_keys i h) e fits =
    varint_key (as_u64 i) b rest (λ n. MapKey.i64 (as_i64 n)) _ (as_u64_fits i) e
      (ap (λ (z : ℤ). MapKey.i64 z) (as_i64-as_u64 i h))
decode_map_key-encode_map_key _ _ b rest (sfixed64_keys i h) e fits =
    varint_key (as_u64 i) b rest (λ n. MapKey.i64 (as_i64 n)) _ (as_u64_fits i) e
      (ap (λ (z : ℤ). MapKey.i64 z) (as_i64-as_u64 i h))
decode_map_key-encode_map_key _ _ b rest (uint32_keys n h) e fits =
    varint_key n b rest (λ n. MapKey.u64 n) _ h e (refl)
decode_map_key-encode_map_key _ _ b rest (fixed32_keys n h) e fits =
    varint_key n b rest (λ n. MapKey.u64 n) _ h e (refl)
decode_map_key-encode_map_key _ _ b rest (uint64_keys n h) e fits =
    varint_key n b rest (λ n. MapKey.u64 n) _ h e (refl)
decode_map_key-encode_map_key _ _ b rest (fixed64_keys n h) e fits =
    varint_key n b rest (λ n. MapKey.u64 n) _ h e (refl)
