-- ===== src/Messages/ScalarTrip.antt =====
-- One occurrence of a field, written and read back.
use wrkr.Prelude.{
  ℕ, ◌%◌, ◌^◌, ◌<◌, ◌≤◌, ◌≡◌, refl, sym, ap, ◌∙◌, true, false, Option, none, some, ◌++◌, length,
  length-append, arith, IsU64,
}
use wrkr.Prelude.Int.{ℤ, pos, negsuc}
use wrkr.Prelude.Results.{ok, ok_inj, step-eq-ok}
use wrkr.Wire.{
  Bytes, Result, WireError, unexpected_eof, as_u64, as_i64, write_variant, write_variant_loop,
  read_variant, write_len_delimited, read_len_delimited, encode_zigzag64,
}
use wrkr.Wire.Varint.{read_variant-write_variant}
use wrkr.Wire.Fields.{read_len_delimited-write_len_delimited}
use wrkr.Wire.Zigzag.{IsI64, decode_zigzag64-encode_zigzag64}
use wrkr.Value.{Value, ObjectMap}
use wrkr.Messages.Kinds.{EnumDescriptor, GrpcValueKind, GrpcMessageMeta, wire_type_for_kind}
use wrkr.Messages.Decimal.{Floats}
use wrkr.Messages.Scalar.{
  put_le, read_le, as_i32, decode_scalar_value, encode_scalar_value, enum_value, enum_number,
}
use wrkr.Messages.Fixed.{values, read_le-put_le}
use wrkr.Messages.Fitting.{
  IsI32, IsValueOf, bools, texts, blobs, int32s, int64s, sint32s, sint64s, uint32s, uint64s,
  fixed32s, sfixed32s, floats, fixed64s, sfixed64s, doubles, names, numbers, messages, IsObjectOf,
}

pub as_i64-as_u64 : (i : ℤ) → IsI64 i → as_i64 (as_u64 i) ≡ i
as_i64-as_u64 (pos n) h = ground arith
as_i64-as_u64 (negsuc n) h = ground arith

as_i32-as_u64 : (i : ℤ) → IsI32 i → as_i32 (as_u64 i) ≡ i
as_i32-as_u64 (pos n) h = ground arith
as_i32-as_u64 (negsuc n) h = ground arith

as_i32-low : (i : ℤ) → IsI32 i → as_i32 (as_u64 i % 2 ^ 32) ≡ i
as_i32-low (pos n) h = ground arith
as_i32-low (negsuc n) h = ground arith

pub as_u64_fits : (i : ℤ) → IsU64 (as_u64 i)
as_u64_fits (pos n) = omega arith
as_u64_fits (negsuc n) = omega arith

encode_zigzag64_fits : (i : ℤ) → IsI64 i → IsU64 (encode_zigzag64 i)
unfolding encode_zigzag64
encode_zigzag64_fits (pos n) h = omega arith
encode_zigzag64_fits (negsuc n) h = omega arith

write_variant_takes : (n : ℕ) → 0 < length (write_variant n)
unfolding write_variant write_variant_loop
write_variant_takes n = ground arith

-- The length in front of a body takes a byte or more.
pub length-write_len_delimited : (body : Bytes) → length body < length (write_len_delimited body)
unfolding write_len_delimited
length-write_len_delimited body =
    omega
      (arith, length-append (write_variant (length body)) body, write_variant_takes (length body))

enum_value-eq :
    (e : EnumDescriptor) (n : ℤ) (found : Option Bytes)
    → e.get_value n ≡ found
    → enum_value e n ≡ elim found [ some name ↦ Value.string name | none ↦ Value.i64 n ]
unfolding enum_value
enum_value-eq e n found h =
    ap (λ (o : Option Bytes). elim o [ some name ↦ Value.string name | none ↦ Value.i64 n ]) h

-- The three readers on what was written.
pub reads_variant :
    (x : ℕ) (payload rest : Bytes)
    → IsU64 x
    → ◌≡◌ {A = Result Bytes} (ok (write_variant x)) (ok payload)
    → read_variant (payload ++ rest) ≡ ok (x, rest)
reads_variant x payload rest fits e = rw (sym (ok_inj e)) (read_variant-write_variant x rest fits)

pub reads_body :
    (body payload rest : Bytes)
    → IsU64 (length payload)
    → ◌≡◌ {A = Result Bytes} (ok (write_len_delimited body)) (ok payload)
    → read_len_delimited (payload ++ rest) ≡ ok (body, rest)
reads_body body payload rest fits e =
    let shorter = length-write_len_delimited body in
    let whole = ap length (ok_inj e) in
    rw (sym (ok_inj e))
      (read_len_delimited-write_len_delimited body rest (omega (arith, shorter, whole)))

reads_le :
    (n x : ℕ) (error : WireError) (payload rest : Bytes)
    → x < values n
    → ◌≡◌ {A = Result Bytes} (ok (put_le n x)) (ok payload)
    → read_le n error (payload ++ rest) ≡ ok (x, rest)
reads_le n x error payload rest fits e = rw (sym (ok_inj e)) (read_le-put_le n x error rest fits)

module _ (lib : Floats) (decode : GrpcMessageMeta → Bytes → Result Value)
    (encode : GrpcMessageMeta → Value → Result Bytes) (limit : ℕ) (bounded : IsU64 limit)
    (nested : (meta : GrpcMessageMeta) (m : ObjectMap) (b : Bytes)
      → IsObjectOf lib meta m
      → encode meta (Value.object m) ≡ ok b
      → length b < limit
      → decode meta b ≡ ok (Value.object m)) where
  pub decode_scalar_value-encode_scalar_value :
      (kind : GrpcValueKind) (v : Value) (payload rest : Bytes)
      → IsValueOf lib kind v
      → encode_scalar_value lib encode kind v ≡ ok payload
      → length payload ≤ limit
      → decode_scalar_value lib decode kind (wire_type_for_kind kind) (payload ++ rest)
        ≡ ok (v, rest)
  unfolding decode_scalar_value encode_scalar_value wire_type_for_kind enum_number
  decode_scalar_value-encode_scalar_value kind v payload rest (bools true) e fits =
      rw (reads_variant 1 payload rest (omega arith) e) refl
  decode_scalar_value-encode_scalar_value kind v payload rest (bools false) e fits =
      rw (reads_variant 0 payload rest (omega arith) e) refl
  decode_scalar_value-encode_scalar_value kind v payload rest (texts s utf) e fits =
      rw (reads_body s payload rest (omega (arith, fits, bounded)) e) (rw utf refl)
  decode_scalar_value-encode_scalar_value kind v payload rest (blobs s) e fits =
      rw (reads_body s payload rest (omega (arith, fits, bounded)) e) refl
  decode_scalar_value-encode_scalar_value kind v payload rest (int32s i h) e fits =
      rw (reads_variant (as_u64 i) payload rest (as_u64_fits i) e) (rw (as_i64-as_u64 i h) refl)
  decode_scalar_value-encode_scalar_value kind v payload rest (int64s i h) e fits =
      rw (reads_variant (as_u64 i) payload rest (as_u64_fits i) e) (rw (as_i64-as_u64 i h) refl)
  decode_scalar_value-encode_scalar_value kind v payload rest (sint32s i h) e fits =
      rw (reads_variant (encode_zigzag64 i) payload rest (encode_zigzag64_fits i h) e)
        (rw (decode_zigzag64-encode_zigzag64 i h) refl)
  decode_scalar_value-encode_scalar_value kind v payload rest (sint64s i h) e fits =
      rw (reads_variant (encode_zigzag64 i) payload rest (encode_zigzag64_fits i h) e)
        (rw (decode_zigzag64-encode_zigzag64 i h) refl)
  decode_scalar_value-encode_scalar_value kind v payload rest (uint32s n h) e fits =
      rw (reads_variant (n) payload rest (h) e) (refl)
  decode_scalar_value-encode_scalar_value kind v payload rest (uint64s n h) e fits =
      rw (reads_variant (n) payload rest (h) e) (refl)
  decode_scalar_value-encode_scalar_value kind v payload rest (fixed32s n h) e fits =
      rw (reads_le 4 (n % 2 ^ 32) (unexpected_eof 7) payload rest (omega arith) e)
        (let same : n % 2 ^ 32 ≡ n = omega arith in rw same refl)
  decode_scalar_value-encode_scalar_value kind v payload rest (sfixed32s i h) e fits =
      rw (reads_le 4 (as_u64 i % 2 ^ 32) (unexpected_eof 15) payload rest (omega arith) e)
        (rw (as_i32-low i h) refl)
  decode_scalar_value-encode_scalar_value kind v payload rest (floats n h same) e fits =
      rw
        (reads_le 4 (lib.f64_as_f32 (lib.f64_from_f32 n)) (unexpected_eof 2) payload rest
          (omega (arith, same)) e)
        (rw same refl)
  decode_scalar_value-encode_scalar_value kind v payload rest (fixed64s n h) e fits =
      rw (reads_le 8 (n) (unexpected_eof 6) payload rest (omega arith) e) (refl)
  decode_scalar_value-encode_scalar_value kind v payload rest (sfixed64s i h) e fits =
      rw (reads_le 8 (as_u64 i) (unexpected_eof 16) payload rest (omega (arith, as_u64_fits i)) e)
        (rw (as_i64-as_u64 i h) refl)
  decode_scalar_value-encode_scalar_value kind v payload rest (doubles n h) e fits =
      rw (reads_le 8 (n) (unexpected_eof 1) payload rest (omega arith) e) (refl)
  decode_scalar_value-encode_scalar_value kind v payload rest (names en name n by_name named h) e
        fits =
      let number : enum_number en (Value.string name) ≡ n = rw (by_name, enum_number) refl in
      let written : ◌≡◌ {A = Result Bytes} (ok (write_variant (as_u64 n))) (ok payload) =
        ap (λ (k : ℤ). ok (write_variant (as_u64 k))) (sym number) ∙ e in
      rw (reads_variant (as_u64 n) payload rest (as_u64_fits n) written) (
        rw (as_i32-as_u64 n h)
          (ap (λ (x : Value). ok (x, rest)) (enum_value-eq en n (some name) named)))
  decode_scalar_value-encode_scalar_value kind v payload rest (numbers en n unnamed h) e fits =
      rw (reads_variant (as_u64 n) payload rest (as_u64_fits n) e) (
        rw (as_i32-as_u64 n h) (ap (λ (x : Value). ok (x, rest)) (enum_value-eq en n none unnamed)))
  decode_scalar_value-encode_scalar_value kind v payload rest (messages meta m whole) e fits =
      let (body, encoded, e') =
        step-eq-ok (encode meta (Value.object m)) (λ (b : Bytes). ok (write_len_delimited b)) e in
      let shorter = length-write_len_delimited body in
      let inside =
        nested meta m body whole encoded (omega (arith, shorter, ap length (ok_inj e'), fits)) in
      rw (reads_body body payload rest (omega (arith, fits, bounded)) e') (rw inside refl)
