-- ===== src/Messages/Fitting.antt =====
-- The values that a message of a schema holds: those of a field's own kind, in its range.
use wrkr.Prelude.{ℕ, ◌^◌, ◌<◌, ◌≡◌, Bool, true, Option, none, some, IsU64, if◌then◌else◌}
use wrkr.Prelude.Int.{ℤ, pos, negsuc}
use wrkr.Wire.{Bytes}
use wrkr.Wire.Zigzag.{IsI64}
use wrkr.Value.{MapKey, Value, Items, ObjectMap, MapMap}
use wrkr.Messages.Kinds.{
  KeyKind, key_eq, map_of, EnumDescriptor, GrpcValueKind, bool, string, bytes, int32, sint32,
  sfixed32, int64, sint64, sfixed64, uint32, fixed32, uint64, fixed64, float, double, enum_of,
  message, GrpcFieldShape, scalar, list, GrpcMessageMeta, get_by_name, get_by_number, get_field,
}
use wrkr.Messages.Decimal.{Floats, is_utf8}

abbrev pub IsI32 : ℤ → Type 0
IsI32 (pos n) = n < 2 ^ 31
IsI32 (negsuc n) = n < 2 ^ 31

-- The keys that a map with keys of a kind holds.
pub data IsKeyOf : KeyKind → MapKey → Type 0 where
  text_keys : (s : Bytes) → is_utf8 s ≡ true → IsKeyOf KeyKind.string (MapKey.string s)
  bool_keys : (b : Bool) → IsKeyOf KeyKind.bool (MapKey.bool b)
  int32_keys : (i : ℤ) → IsI64 i → IsKeyOf KeyKind.int32 (MapKey.i64 i)
  sint32_keys : (i : ℤ) → IsI64 i → IsKeyOf KeyKind.sint32 (MapKey.i64 i)
  sfixed32_keys : (i : ℤ) → IsI64 i → IsKeyOf KeyKind.sfixed32 (MapKey.i64 i)
  int64_keys : (i : ℤ) → IsI64 i → IsKeyOf KeyKind.int64 (MapKey.i64 i)
  sint64_keys : (i : ℤ) → IsI64 i → IsKeyOf KeyKind.sint64 (MapKey.i64 i)
  sfixed64_keys : (i : ℤ) → IsI64 i → IsKeyOf KeyKind.sfixed64 (MapKey.i64 i)
  uint32_keys : (n : ℕ) → IsU64 n → IsKeyOf KeyKind.uint32 (MapKey.u64 n)
  fixed32_keys : (n : ℕ) → IsU64 n → IsKeyOf KeyKind.fixed32 (MapKey.u64 n)
  uint64_keys : (n : ℕ) → IsU64 n → IsKeyOf KeyKind.uint64 (MapKey.u64 n)
  fixed64_keys : (n : ℕ) → IsU64 n → IsKeyOf KeyKind.fixed64 (MapKey.u64 n)

-- The value under a key of a map.
unfoldable pub get_entry : MapKey → MapMap → Option Value
unfolding key_eq
get_entry k MapMap.empty = none
get_entry k (MapMap.entry j v m) = if key_eq j k then some v else get_entry k m

module _ (lib : Floats) where
  mutual
    -- An enum's value is a name that its number names again, or a number that has no name.
    pub data IsValueOf : GrpcValueKind → Value → Type 0 where
      bools : (b : Bool) → IsValueOf bool (Value.bool b)
      texts : (s : Bytes) → is_utf8 s ≡ true → IsValueOf string (Value.string s)
      blobs : (s : Bytes) → IsValueOf bytes (Value.bytes s)
      int32s : (i : ℤ) → IsI64 i → IsValueOf int32 (Value.i64 i)
      int64s : (i : ℤ) → IsI64 i → IsValueOf int64 (Value.i64 i)
      sint32s : (i : ℤ) → IsI64 i → IsValueOf sint32 (Value.i64 i)
      sint64s : (i : ℤ) → IsI64 i → IsValueOf sint64 (Value.i64 i)
      uint32s : (n : ℕ) → IsU64 n → IsValueOf uint32 (Value.u64 n)
      uint64s : (n : ℕ) → IsU64 n → IsValueOf uint64 (Value.u64 n)
      fixed32s : (n : ℕ) → n < 2 ^ 32 → IsValueOf fixed32 (Value.u64 n)
      sfixed32s : (i : ℤ) → IsI32 i → IsValueOf sfixed32 (Value.i64 i)
      floats :
          (n : ℕ)
          → n < 2 ^ 32
          → lib.f64_as_f32 (lib.f64_from_f32 n) ≡ n
          → IsValueOf float (Value.f64 (lib.f64_from_f32 n))
      fixed64s : (n : ℕ) → IsU64 n → IsValueOf fixed64 (Value.u64 n)
      sfixed64s : (i : ℤ) → IsI64 i → IsValueOf sfixed64 (Value.i64 i)
      doubles : (n : ℕ) → IsU64 n → IsValueOf double (Value.f64 n)
      names :
          (e : EnumDescriptor) (name : Bytes) (n : ℤ)
          → e.get_value_by_name name ≡ some n
          → e.get_value n ≡ some name
          → IsI32 n
          → IsValueOf (enum_of e) (Value.string name)
      numbers :
          (e : EnumDescriptor) (n : ℤ)
          → e.get_value n ≡ none
          → IsI32 n
          → IsValueOf (enum_of e) (Value.i64 n)
      messages :
          (meta : GrpcMessageMeta) (m : ObjectMap)
          → IsObjectOf meta m
          → IsValueOf (message meta) (Value.object m)

    pub data AreValuesOf : GrpcValueKind → Items → Type 0 where
      no_items : (kind : GrpcValueKind) → AreValuesOf kind Items.nil
      item :
          (kind : GrpcValueKind) (v : Value) (vs : Items)
          → IsValueOf kind v
          → AreValuesOf kind vs
          → AreValuesOf kind (Items.cons v vs)

    pub data AreEntriesOf : KeyKind → GrpcValueKind → MapMap → Type 0 where
      no_entries : (kk : KeyKind) (vk : GrpcValueKind) → AreEntriesOf kk vk MapMap.empty
      entries :
          (kk : KeyKind) (vk : GrpcValueKind) (k : MapKey) (v : Value) (m : MapMap)
          → IsKeyOf kk k
          → IsValueOf vk v
          → get_entry k m ≡ none
          → AreEntriesOf kk vk m
          → AreEntriesOf kk vk (MapMap.entry k v m)

    -- The value of a field that is there: a list or a map of nothing writes nothing.
    pub data IsFieldOf : GrpcFieldShape → Value → Type 0 where
      one : (kind : GrpcValueKind) (v : Value) → IsValueOf kind v → IsFieldOf (scalar kind) v
      many :
          (kind : GrpcValueKind) (v : Value) (vs : Items)
          → IsValueOf kind v
          → AreValuesOf kind vs
          → IsFieldOf (list kind) (Value.array (Items.cons v vs))
      keyed :
          (kk : KeyKind) (vk : GrpcValueKind) (k : MapKey) (v : Value) (m : MapMap)
          → IsKeyOf kk k
          → IsValueOf vk v
          → get_entry k m ≡ none
          → AreEntriesOf kk vk m
          → IsFieldOf (map_of kk vk) (Value.map (MapMap.entry k v m))

    -- An object whose names are fields of the message type, each once.
    pub data IsObjectOf : GrpcMessageMeta → ObjectMap → Type 0 where
      ends : (meta : GrpcMessageMeta) → IsObjectOf meta ObjectMap.end
      fields :
          (meta : GrpcMessageMeta) (name : Bytes) (n : ℕ) (shape : GrpcFieldShape) (v : Value)
          (m : ObjectMap)
          → get_by_name name meta ≡ some (n, shape)
          → get_by_number n meta ≡ some (name, shape)
          → n < 2 ^ 32
          → get_field name m ≡ none
          → IsFieldOf shape v
          → IsObjectOf meta m
          → IsObjectOf meta (ObjectMap.field name v m)
