-- ===== src/Messages/Packed.antt =====
-- wrkr-grpc/src/wire/packed.rs: the values of a packed list.
use wrkr.Prelude.{ℕ, zero, suc, not, [], ◌∷◌, length, ◌==◌}
use wrkr.Prelude.Results.{ok, err, ◌>>=◌}
use wrkr.Wire.{
  Bytes, Result, unexpected_packed_eof, not_packable, out_of_fuel, as_i64, read_variant,
  decode_zigzag64,
}
use wrkr.Value.{Value, Items}
use wrkr.Messages.Kinds.{
  GrpcValueKind, bool, string, bytes, int32, sint32, sfixed32, int64, sint64, sfixed64, uint32,
  fixed32, uint64, fixed64, float, double, enum_of, message,
}
use wrkr.Messages.Decimal.{Floats}
use wrkr.Messages.Scalar.{read_le, as_i32}

-- `while bytes.has_remaining() { out.push(…) }`, where each turn reads at least one byte: as many
-- turns as there are bytes are enough.
unfoldable pub read_all : (Bytes → Result (Value × Bytes)) → ℕ → Bytes → Result Items
read_all read fuel [] = ok Items.nil
read_all read zero (b ∷ s) = err out_of_fuel
read_all read (suc fuel) (b ∷ s) = do
  (v, s') ← read (b ∷ s)
  vs ← read_all read fuel s'
  ok (Items.cons v vs)

unfoldable pub read_variant_as : (ℕ → Value) → Bytes → Result (Value × Bytes)
read_variant_as value s = do (n, s') ← read_variant s; ok (value n, s')

unfoldable pub read_le_as : ℕ → ℕ → (ℕ → Value) → Bytes → Result (Value × Bytes)
unfolding read_le
read_le_as n kind value s = do (v, s') ← read_le n (unexpected_packed_eof kind) s; ok (value v, s')

module _ (lib : Floats) where
  -- The body of the loop of each kind.
  unfoldable pub read_packed_value : GrpcValueKind → Bytes → Result (Value × Bytes)
  unfolding read_variant_as read_le_as
  read_packed_value bool = read_variant_as (λ n. Value.bool (not (n == 0)))
  read_packed_value int32 = read_variant_as (λ n. Value.i64 (as_i64 n))
  read_packed_value int64 = read_variant_as (λ n. Value.i64 (as_i64 n))
  read_packed_value (enum_of e) = read_variant_as (λ n. Value.i64 (as_i64 n))
  read_packed_value sint32 = read_variant_as (λ n. Value.i64 (decode_zigzag64 n))
  read_packed_value sint64 = read_variant_as (λ n. Value.i64 (decode_zigzag64 n))
  read_packed_value uint32 = read_variant_as (λ n. Value.u64 n)
  read_packed_value uint64 = read_variant_as (λ n. Value.u64 n)
  read_packed_value fixed32 = read_le_as 4 7 (λ n. Value.u64 n)
  read_packed_value sfixed32 = read_le_as 4 15 (λ n. Value.i64 (as_i32 n))
  read_packed_value float = read_le_as 4 2 (λ n. Value.f64 (lib.f64_from_f32 n))
  read_packed_value fixed64 = read_le_as 8 6 (λ n. Value.u64 n)
  read_packed_value sfixed64 = read_le_as 8 16 (λ n. Value.i64 (as_i64 n))
  read_packed_value double = read_le_as 8 1 (λ n. Value.f64 n)
  read_packed_value string = λ s. err not_packable
  read_packed_value bytes = λ s. err not_packable
  read_packed_value (message m) = λ s. err not_packable

  unfoldable pub decode_packed_values : GrpcValueKind → Bytes → Result Items
  unfolding read_all read_packed_value
  decode_packed_values string s = err not_packable
  decode_packed_values bytes s = err not_packable
  decode_packed_values (message m) s = err not_packable
  decode_packed_values kind s = read_all (read_packed_value kind) (length s) s
