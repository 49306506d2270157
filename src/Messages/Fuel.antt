-- ===== src/Messages/Fuel.antt =====
-- The loops of the decoder run to their end: no buffer stops one early.
use wrkr.Prelude.{
  ℕ, zero, suc, ◌<◌, ◌≤◌, not, inl, inr, Bool-cases, [], ◌∷◌, length, ◌==◌, if◌then◌else◌, arith,
}
use wrkr.Prelude.Results.{ok, ◌>>=◌}
use wrkr.Wire.{
  Bytes, Result, WireType, unexpected_eof, unexpected_packed_eof, wire_type_number, as_i64,
  read_variant, read_len_delimited, decode_zigzag64,
}
use wrkr.Value.{Value}
use wrkr.Messages.Kinds.{
  GrpcValueKind, GrpcMessageMeta, bool, string, bytes, int32, sint32, sfixed32, int64, sint64,
  sfixed64, uint32, fixed32, uint64, fixed64, float, double, enum_of, message,
}
use wrkr.Messages.Decimal.{Floats, is_utf8}
use wrkr.Messages.Scalar.{read_le, as_i32, enum_value, check_wire_type, decode_scalar_value}
use wrkr.Messages.Packed.{read_all, read_variant_as, read_le_as}
use wrkr.Messages.Readers.{
  Ends, IsReader, IsReader-bind, Ends-bind, IsReader-after, Ends-after, read_variant-IsReader,
  read_len_delimited-IsReader, read_len_delimited_body, read_le-IsReader,
}

check-IsReader {ℓ} :
    {A : Type ℓ} (expected t : WireType) (kind : ℕ) (s : Bytes) (rest : Result (A × Bytes))
    → IsReader s rest
    → IsReader s (check_wire_type expected t kind rest)
unfolding check_wire_type
check-IsReader expected t kind s rest h =
    elim (Bool-cases (wire_type_number t == wire_type_number expected)) [
      | inl same ↦ rw same h
      | inr differs ↦ rw differs (λ e. cc)
    ]

-- A number that is read becomes a value.
pub variant-IsReader :
    (value : ℕ → Value) (s : Bytes)
    → IsReader s (read_variant s >>= (λ (x : ℕ × Bytes). ok (value x.0, x.1)))
variant-IsReader value s =
    IsReader-bind s (read_variant s) _ (read_variant-IsReader s) (λ n s' e shorter. shorter)

le-IsReader :
    (n kind : ℕ) (value : ℕ → Value) (s : Bytes)
    → 0 < n
    → IsReader s (read_le n (unexpected_eof kind) s >>= (λ (x : ℕ × Bytes). ok (value x.0, x.1)))
le-IsReader n kind value s some_bytes =
    IsReader-bind s (read_le n (unexpected_eof kind) s) _
      (read_le-IsReader n (unexpected_eof kind) s some_bytes (λ h. cc)) (λ v s' e shorter. shorter)

body-IsReader :
    (value : Bytes → Value) (s : Bytes)
    → IsReader s (read_len_delimited s >>= (λ (x : Bytes × Bytes). ok (value x.0, x.1)))
body-IsReader value s =
    IsReader-bind s (read_len_delimited s) _ (read_len_delimited-IsReader s)
      (λ b s' e shorter. shorter)

module _ (lib : Floats) (decode : GrpcMessageMeta → Bytes → Result Value) (limit : ℕ)
    (nested : (meta : GrpcMessageMeta) (b : Bytes) → length b < limit → Ends (decode meta b)) where
  pub decode_scalar_value-IsReader :
      (kind : GrpcValueKind) (t : WireType) (s : Bytes)
      → length s ≤ limit
      → IsReader s (decode_scalar_value lib decode kind t s)
  unfolding decode_scalar_value
  decode_scalar_value-IsReader bool t s fits =
      check-IsReader WireType.varint t 8 s _ (variant-IsReader (λ n. Value.bool (not (n == 0))) s)
  decode_scalar_value-IsReader string t s fits =
      check-IsReader WireType.len t 9 s _
        (body-IsReader (λ b. Value.string (if is_utf8 b then b else [])) s)
  decode_scalar_value-IsReader bytes t s fits =
      check-IsReader WireType.len t 12 s _ (body-IsReader (λ b. Value.bytes b) s)
  decode_scalar_value-IsReader int32 t s fits =
      check-IsReader WireType.varint t 3 s _ (variant-IsReader (λ n. Value.i64 (as_i64 n)) s)
  decode_scalar_value-IsReader int64 t s fits =
      check-IsReader WireType.varint t 3 s _ (variant-IsReader (λ n. Value.i64 (as_i64 n)) s)
  decode_scalar_value-IsReader uint32 t s fits =
      check-IsReader WireType.varint t 4 s _ (variant-IsReader (λ n. Value.u64 n) s)
  decode_scalar_value-IsReader uint64 t s fits =
      check-IsReader WireType.varint t 4 s _ (variant-IsReader (λ n. Value.u64 n) s)
  decode_scalar_value-IsReader sint32 t s fits =
      check-IsReader WireType.varint t 18 s _
        (variant-IsReader (λ n. Value.i64 (decode_zigzag64 n)) s)
  decode_scalar_value-IsReader sint64 t s fits =
      check-IsReader WireType.varint t 18 s _
        (variant-IsReader (λ n. Value.i64 (decode_zigzag64 n)) s)
  decode_scalar_value-IsReader fixed32 t s fits =
      check-IsReader WireType.thirty_two_bit t 7 s _
        (le-IsReader 4 7 (λ n. Value.u64 n) s (omega arith))
  decode_scalar_value-IsReader sfixed32 t s fits =
      check-IsReader WireType.thirty_two_bit t 15 s _
        (le-IsReader 4 15 (λ n. Value.i64 (as_i32 n)) s (omega arith))
  decode_scalar_value-IsReader float t s fits =
      check-IsReader WireType.thirty_two_bit t 2 s _
        (le-IsReader 4 2 (λ n. Value.f64 (lib.f64_from_f32 n)) s (omega arith))
  decode_scalar_value-IsReader fixed64 t s fits =
      check-IsReader WireType.sixty_four_bit t 6 s _
        (le-IsReader 8 6 (λ n. Value.u64 n) s (omega arith))
  decode_scalar_value-IsReader sfixed64 t s fits =
      check-IsReader WireType.sixty_four_bit t 16 s _
        (le-IsReader 8 16 (λ n. Value.i64 (as_i64 n)) s (omega arith))
  decode_scalar_value-IsReader double t s fits =
      check-IsReader WireType.sixty_four_bit t 1 s _
        (le-IsReader 8 1 (λ n. Value.f64 n) s (omega arith))
  decode_scalar_value-IsReader (enum_of en) t s fits =
      check-IsReader WireType.varint t 14 s _ (variant-IsReader (λ n. enum_value en (as_i32 n)) s)
  decode_scalar_value-IsReader (message meta) t s fits = check-IsReader WireType.len t 11 s _ (
      IsReader-bind s (read_len_delimited s) _ (read_len_delimited-IsReader s) (λ b s' e shorter.
        IsReader-after s (decode meta b) _
          (nested meta b (omega (arith, read_len_delimited_body s b s' e, fits))) (λ v. shorter)))

pub packed_variant-IsReader : (value : ℕ → Value) (s : Bytes) → IsReader s (read_variant_as value s)
unfolding read_variant_as
packed_variant-IsReader value s = variant-IsReader value s

pub packed_le-IsReader :
    (n kind : ℕ) (value : ℕ → Value) → 0 < n → (s : Bytes) → IsReader s (read_le_as n kind value s)
unfolding read_le_as
packed_le-IsReader n kind value some_bytes s =
    IsReader-bind s (read_le n (unexpected_packed_eof kind) s) _
      (read_le-IsReader n (unexpected_packed_eof kind) s some_bytes (λ h. cc))
      (λ v s' e shorter. shorter)

pub read_all-Ends :
    (read : Bytes → Result (Value × Bytes)) (fuel : ℕ) (s : Bytes)
    → ((s' : Bytes) → IsReader s' (read s'))
    → length s ≤ fuel
    → Ends (read_all read fuel s)
unfolding read_all
read_all-Ends read fuel [] reads enough = tt
read_all-Ends read zero (b ∷ s) reads enough = absurd (omega (arith, enough))
read_all-Ends read (suc fuel) (b ∷ s) reads enough =
    Ends-bind (b ∷ s) (read (b ∷ s)) _ (reads (b ∷ s)) (λ v s' shorter.
      Ends-after (read_all read fuel s') _
        (read_all-Ends read fuel s' reads (omega (arith, shorter, enough))) (λ vs. tt))
