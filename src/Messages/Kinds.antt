-- ===== src/Messages/Kinds.antt =====
-- wrkr-grpc/src/proto.rs: what a schema says of the fields of a message. And the operations on
-- objects and maps that the decoder uses.
use wrkr.Prelude.{ℕ, Bool, true, false, ◌&&◌, not, Option, none, some, [], ◌∷◌, ◌==◌, if◌then◌else◌}
use wrkr.Prelude.Int.{ℤ, pos, negsuc}
use wrkr.Wire.{Bytes, WireType}
use wrkr.Value.{MapKey, Value, Items, ObjectMap, MapMap}

-- What the code uses of prost_reflect's `EnumDescriptor`: the name of a number, the number of a name.
pub record EnumDescriptor : Type 0 where
  pub get_value : ℤ → Option Bytes
  pub get_value_by_name : Bytes → Option ℤ

-- `prost_reflect::Kind` as the kind of a map's keys; `other` stands for the kinds that are no keys.
pub data KeyKind : Type 0 where
  bool string int32 sint32 sfixed32 int64 sint64 sfixed64 uint32 fixed32 uint64 fixed64 : KeyKind
  other : KeyKind

-- A message type is the list of its fields, each with its name, its number and its shape. The
-- schema refuses recursive message types, so this is a finite tree.
mutual
  pub data GrpcValueKind : Type 0 where
    bool string bytes int32 sint32 sfixed32 int64 sint64 sfixed64 : GrpcValueKind
    uint32 fixed32 uint64 fixed64 float double : GrpcValueKind
    enum_of : EnumDescriptor → GrpcValueKind
    message : GrpcMessageMeta → GrpcValueKind

  pub data GrpcFieldShape : Type 0 where
    scalar list : GrpcValueKind → GrpcFieldShape
    map_of : KeyKind → GrpcValueKind → GrpcFieldShape

  pub data GrpcMessageMeta : Type 0 where
    no_fields : GrpcMessageMeta
    field : (name : Bytes) (number : ℕ) → GrpcFieldShape → GrpcMessageMeta → GrpcMessageMeta

pub record GrpcMethod : Type 0 where
  pub input_fields : GrpcMessageMeta
  pub output_fields : GrpcMessageMeta

unfoldable pub bytes_eq : Bytes → Bytes → Bool
bytes_eq [] [] = true
bytes_eq [] (c ∷ t) = false
bytes_eq (b ∷ s) [] = false
bytes_eq (b ∷ s) (c ∷ t) = b == c && bytes_eq s t

-- The tables `fields_by_name` and `fields_by_number`; the second leaves out a field of number 0. In
-- a schema no two fields of a message have one name or one number.
unfoldable pub get_by_name : Bytes → GrpcMessageMeta → Option (ℕ × GrpcFieldShape)
get_by_name name no_fields = none
get_by_name name (field n number shape rest) =
    if bytes_eq n name then some (number, shape) else get_by_name name rest

unfoldable pub get_by_number : ℕ → GrpcMessageMeta → Option (Bytes × GrpcFieldShape)
get_by_number number no_fields = none
get_by_number number (field name n shape rest) =
    if not (n == 0) && n == number then some (name, shape) else get_by_number number rest

unfoldable pub wire_type_for_kind : GrpcValueKind → WireType
wire_type_for_kind bool = WireType.varint
wire_type_for_kind int32 = WireType.varint
wire_type_for_kind sint32 = WireType.varint
wire_type_for_kind int64 = WireType.varint
wire_type_for_kind sint64 = WireType.varint
wire_type_for_kind uint32 = WireType.varint
wire_type_for_kind uint64 = WireType.varint
wire_type_for_kind (enum_of e) = WireType.varint
wire_type_for_kind fixed32 = WireType.thirty_two_bit
wire_type_for_kind sfixed32 = WireType.thirty_two_bit
wire_type_for_kind float = WireType.thirty_two_bit
wire_type_for_kind fixed64 = WireType.sixty_four_bit
wire_type_for_kind sfixed64 = WireType.sixty_four_bit
wire_type_for_kind double = WireType.sixty_four_bit
wire_type_for_kind string = WireType.len
wire_type_for_kind bytes = WireType.len
wire_type_for_kind (message m) = WireType.len

unfoldable pub kind_is_packable : GrpcValueKind → Bool
kind_is_packable string = false
kind_is_packable bytes = false
kind_is_packable (message m) = false
kind_is_packable _ = true

abbrev is_i64 : ℤ → ℤ → Bool
is_i64 (pos a) (pos b) = a == b
is_i64 (negsuc a) (negsuc b) = a == b
is_i64 _ _ = false

abbrev bool_eq : Bool → Bool → Bool
bool_eq true b = b
bool_eq false b = not b

-- `MapKey`'s equality.
unfoldable pub key_eq : MapKey → MapKey → Bool
unfolding bytes_eq
key_eq (MapKey.bool a) (MapKey.bool b) = bool_eq a b
key_eq (MapKey.i64 a) (MapKey.i64 b) = is_i64 a b
key_eq (MapKey.u64 a) (MapKey.u64 b) = a == b
key_eq (MapKey.string a) (MapKey.string b) = bytes_eq a b
key_eq _ _ = false

-- `out.get_mut(name)`, which reads, and `out.insert(name, v)`, which replaces what is there.
unfoldable pub get_field : Bytes → ObjectMap → Option Value
get_field name ObjectMap.end = none
get_field name (ObjectMap.field n v rest) = if bytes_eq n name then some v else get_field name rest

unfoldable pub insert_field : Bytes → Value → ObjectMap → ObjectMap
insert_field name v ObjectMap.end = ObjectMap.field name v ObjectMap.end
insert_field name v (ObjectMap.field n w rest) =
    if bytes_eq n name
    then ObjectMap.field n v rest
    else ObjectMap.field n w (insert_field name v rest)

unfoldable pub insert_entry : MapKey → Value → MapMap → MapMap
insert_entry k v MapMap.empty = MapMap.entry k v MapMap.empty
insert_entry k v (MapMap.entry j w rest) =
    if key_eq j k then MapMap.entry j v rest else MapMap.entry j w (insert_entry k v rest)

-- `existing.extend(new_map.drain())`
unfoldable pub extend : MapMap → MapMap → MapMap
unfolding insert_entry
extend existing MapMap.empty = existing
extend existing (MapMap.entry k v rest) = extend (insert_entry k v existing) rest

-- `existing.append(&mut items)`
unfoldable pub append_items : Items → Items → Items
append_items Items.nil ys = ys
append_items (Items.cons v xs) ys = Items.cons v (append_items xs ys)
