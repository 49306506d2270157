-- ===== src/Messages/Packing.antt =====
-- Packed and unpacked lists.
use wrkr.Prelude.{
  ℕ, zero, suc, ◌≡◌, refl, ap, ◌∙◌, true, Option, none, some, Bool-cases, ltb, inl, inr, [], ◌∷◌,
  length,
}
use wrkr.Prelude.Results.{ok, err, ◌>>=◌}
use wrkr.Wire.{Bytes, Result, WireError}
use wrkr.Value.{Value}
use wrkr.Messages.Kinds.{
  GrpcValueKind, bool, string, bytes, int32, sint32, sfixed32, int64, sint64, sfixed64, uint32,
  fixed32, uint64, fixed64, float, double, enum_of, message, GrpcMessageMeta, wire_type_for_kind,
  kind_is_packable,
}
use wrkr.Messages.Decimal.{Floats}
use wrkr.Messages.Scalar.{read_le, decode_scalar_value, check_wire_type}
use wrkr.Messages.Packed.{read_all, read_packed_value, decode_packed_values}

-- `Result::ok`, which forgets the error.
abbrev pub ok_of {ℓ} : {A : Type ℓ} → Result A → Option A
ok_of (ok x) = some x
ok_of (err e) = none

abbrev pub IsEnum : GrpcValueKind → Type 0
IsEnum (enum_of e) = Unit
IsEnum _ = ⊥

read_le_alike :
    (n : ℕ) (e f : WireError) (value : ℕ → Value) (s : Bytes)
    → ok_of {A = Value × Bytes} (read_le n e s >>= (λ (x : ℕ × Bytes). ok (value x.0, x.1)))
      ≡ ok_of {A = Value × Bytes} (read_le n f s >>= (λ (x : ℕ × Bytes). ok (value x.0, x.1)))
unfolding read_le
read_le_alike n e f value s = elim (Bool-cases (ltb (length s) n)) [
  | inl short ↦ rw short refl
  | inr enough ↦ rw enough refl
]

alike_bind {ℓ κ} :
    {A : Type ℓ} {B : Type κ} (r t : Result A) (f g : A → Result B)
    → ok_of r ≡ ok_of t
    → ((x : A) → ok_of (f x) ≡ ok_of (g x))
    → ok_of (r >>= f) ≡ ok_of (t >>= g)
alike_bind (ok x) (ok y) f g same next =
    let equal : x ≡ y = cc in ap (λ z. ok_of (f z)) equal ∙ next y
alike_bind (ok x) (err e) f g same next = cc
alike_bind (err e) (ok y) f g same next = cc
alike_bind (err e) (err e') f g same next = refl

-- Loops whose turns succeed alike succeed alike.
read_all_alike :
    (read other : Bytes → Result (Value × Bytes)) (fuel : ℕ) (s : Bytes)
    → ((s' : Bytes) → ok_of (read s') ≡ ok_of (other s'))
    → ok_of (read_all read fuel s) ≡ ok_of (read_all other fuel s)
unfolding read_all
read_all_alike read other fuel [] alike = refl
read_all_alike read other zero (b ∷ s) alike = refl
read_all_alike read other (suc fuel) (b ∷ s) alike =
    alike_bind (read (b ∷ s)) (other (b ∷ s)) _ _ (alike (b ∷ s)) (λ x.
      alike_bind (read_all read fuel x.1) (read_all other fuel x.1) _ _
        (read_all_alike read other fuel x.1 alike) (λ vs. refl))

module _ (lib : Floats) (decode : GrpcMessageMeta → Bytes → Result Value) where
  value_alike :
      (kind : GrpcValueKind) (s : Bytes)
      → kind_is_packable kind ≡ true
      → (IsEnum kind → ⊥)
      → ok_of (read_packed_value lib kind s)
        ≡ ok_of (decode_scalar_value lib decode kind (wire_type_for_kind kind) s)
  unfolding kind_is_packable read_packed_value decode_scalar_value wire_type_for_kind
      check_wire_type
  value_alike bool s packable no_enum = refl
  value_alike int32 s packable no_enum = refl
  value_alike int64 s packable no_enum = refl
  value_alike sint32 s packable no_enum = refl
  value_alike sint64 s packable no_enum = refl
  value_alike uint32 s packable no_enum = refl
  value_alike uint64 s packable no_enum = refl
  value_alike fixed32 s packable no_enum = read_le_alike 4 _ _ _ s
  value_alike sfixed32 s packable no_enum = read_le_alike 4 _ _ _ s
  value_alike float s packable no_enum = read_le_alike 4 _ _ _ s
  value_alike fixed64 s packable no_enum = read_le_alike 8 _ _ _ s
  value_alike sfixed64 s packable no_enum = read_le_alike 8 _ _ _ s
  value_alike double s packable no_enum = read_le_alike 8 _ _ _ s
  value_alike (enum_of e) s packable no_enum = absurd (no_enum tt)
  value_alike string s packable no_enum = cc
  value_alike bytes s packable no_enum = cc
  value_alike (message m) s packable no_enum = cc

  packed_loop :
      (kind : GrpcValueKind) (s : Bytes)
      → kind_is_packable kind ≡ true
      → ok_of (decode_packed_values lib kind s)
        ≡ ok_of (read_all (read_packed_value lib kind) (length s) s)
  unfolding decode_packed_values kind_is_packable
  packed_loop bool s packable = refl
  packed_loop int32 s packable = refl
  packed_loop int64 s packable = refl
  packed_loop sint32 s packable = refl
  packed_loop sint64 s packable = refl
  packed_loop uint32 s packable = refl
  packed_loop uint64 s packable = refl
  packed_loop fixed32 s packable = refl
  packed_loop sfixed32 s packable = refl
  packed_loop float s packable = refl
  packed_loop fixed64 s packable = refl
  packed_loop sfixed64 s packable = refl
  packed_loop double s packable = refl
  packed_loop (enum_of e) s packable = refl
  packed_loop string s packable = cc
  packed_loop bytes s packable = cc
  packed_loop (message m) s packable = cc

  -- A packed list of any packable kind but an enum is what reading its values one by one gives, as
  -- `decode_scalar_value` reads a field that is not packed: the same items, or an error in both.
  pub decode_packed_values_one_by_one :
      (kind : GrpcValueKind) (s : Bytes)
      → kind_is_packable kind ≡ true
      → (IsEnum kind → ⊥)
      → ok_of (decode_packed_values lib kind s)
        ≡ ok_of
            (read_all (decode_scalar_value lib decode kind (wire_type_for_kind kind)) (length s) s)
  unfolding decode_packed_values
  decode_packed_values_one_by_one kind s packable no_enum =
      packed_loop kind s packable
      ∙ read_all_alike (read_packed_value lib kind) _ (length s) s
          (λ s'. value_alike kind s' packable no_enum)
