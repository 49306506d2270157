-- ===== src/Schema/Pool.antt =====
-- What wrkr-grpc/src/proto.rs reads of a pool of descriptors (prost_reflect): messages, their
-- fields, services and their methods. A message descriptor is a number below `messages`.
use wrkr.Prelude.{ℕ, ◌<◌, ◌≡◌, Bool, Option, some, List, All}
use wrkr.Wire.{Bytes}
use wrkr.Messages.Kinds.{EnumDescriptor, KeyKind, GrpcValueKind}

-- `prost_reflect::Kind`
pub data Kind : Type 0 where
  bool string bytes int32 sint32 sfixed32 int64 sint64 sfixed64 : Kind
  uint32 fixed32 uint64 fixed64 float double : Kind
  enum_of : EnumDescriptor → Kind
  message : ℕ → Kind

pub record FieldDescriptor : Type 0 where
  pub name : Bytes
  pub number : ℕ
  pub kind : Kind
  pub is_map : Bool
  pub is_list : Bool

pub record MethodDescriptor : Type 0 where
  pub name : Bytes
  pub input : ℕ
  pub output : ℕ

-- `path_and_query` is http's `PathAndQuery::from_maybe_shared`: the path, if the text is one.
pub record DescriptorPool : Type 0 where
  pub messages : ℕ
  pub full_name : ℕ → Bytes
  pub fields : ℕ → List FieldDescriptor
  pub get_field_by_name : ℕ → Bytes → Option FieldDescriptor
  pub get_service_by_name : Bytes → Option ℕ
  pub methods : ℕ → List MethodDescriptor
  pub path_and_query : Bytes → Option Bytes

-- The two sorts of kinds that the schema tells apart: those that are a shape of their own, and the
-- messages.
pub data KindCase : Type 0 where
  plain : GrpcValueKind → KindCase
  nested : ℕ → KindCase

unfoldable pub split_kind : Kind → KindCase
split_kind Kind.bool = plain GrpcValueKind.bool
split_kind Kind.string = plain GrpcValueKind.string
split_kind Kind.bytes = plain GrpcValueKind.bytes
split_kind Kind.int32 = plain GrpcValueKind.int32
split_kind Kind.sint32 = plain GrpcValueKind.sint32
split_kind Kind.sfixed32 = plain GrpcValueKind.sfixed32
split_kind Kind.int64 = plain GrpcValueKind.int64
split_kind Kind.sint64 = plain GrpcValueKind.sint64
split_kind Kind.sfixed64 = plain GrpcValueKind.sfixed64
split_kind Kind.uint32 = plain GrpcValueKind.uint32
split_kind Kind.fixed32 = plain GrpcValueKind.fixed32
split_kind Kind.uint64 = plain GrpcValueKind.uint64
split_kind Kind.fixed64 = plain GrpcValueKind.fixed64
split_kind Kind.float = plain GrpcValueKind.float
split_kind Kind.double = plain GrpcValueKind.double
split_kind (Kind.enum_of e) = plain (GrpcValueKind.enum_of e)
split_kind (Kind.message h) = nested h

-- The kind of a map's keys, as the encoder and the decoder tell them apart.
unfoldable pub key_kind : Kind → KeyKind
key_kind Kind.bool = KeyKind.bool
key_kind Kind.string = KeyKind.string
key_kind Kind.int32 = KeyKind.int32
key_kind Kind.sint32 = KeyKind.sint32
key_kind Kind.sfixed32 = KeyKind.sfixed32
key_kind Kind.int64 = KeyKind.int64
key_kind Kind.sint64 = KeyKind.sint64
key_kind Kind.sfixed64 = KeyKind.sfixed64
key_kind Kind.uint32 = KeyKind.uint32
key_kind Kind.fixed32 = KeyKind.fixed32
key_kind Kind.uint64 = KeyKind.uint64
key_kind Kind.fixed64 = KeyKind.fixed64
key_kind _ = KeyKind.other

-- A kind that is a message of the pool, or no message.
abbrev pub IsKindIn : ℕ → KindCase → Type 0
IsKindIn messages (plain k) = Unit
IsKindIn messages (nested h) = h < messages

-- What prost_reflect documents of a pool: a full name is one message's, and the kinds of the fields
-- are messages of the same pool.
pub record IsPool (pool : DescriptorPool) : Type 0 where
  pub one_name : (g h : ℕ) → pool.full_name g ≡ pool.full_name h → g ≡ h
  pub inside :
      (h : ℕ)
      → All (λ (f : FieldDescriptor). IsKindIn pool.messages (split_kind f.kind)) (pool.fields h)
  pub entry_inside :
      (h : ℕ) (name : Bytes) (f : FieldDescriptor)
      → pool.get_field_by_name h name ≡ some f
      → IsKindIn pool.messages (split_kind f.kind)
  pub methods_inside :
      (s : ℕ)
      → All
          (λ (m : MethodDescriptor). (m.input < pool.messages) × (m.output < pool.messages))
          (pool.methods s)
