-- ===== src/Schema.antt =====
-- wrkr-grpc/src/proto.rs, `ProtoSchema::method`: the shapes of a method's fields, built from the
-- descriptors of its messages.
pub mod Pool
pub mod Method
pub mod Tree
pub mod Fuel
pub mod Sound
pub mod Message
pub mod Complete
pub mod Exact
pub mod Refusal
mod Runs
pub mod Ends
pub mod Tables
use mathlib.Core.Option
use wrkr.Prelude.{
  ℕ, zero, suc, Bool, true, false, not, ◌||◌, Option, none, some, List, [], ◌∷◌, ◌++◌, ◌==◌,
  if◌then◌else◌,
}
use wrkr.Prelude.Results.{ResultOf, ok, err, ◌>>=◌}
use wrkr.Wire.{Bytes}
use wrkr.Messages.Kinds.{
  GrpcValueKind, GrpcFieldShape, scalar, list, map_of, GrpcMessageMeta, no_fields, field, bytes_eq,
}
use Pool.{FieldDescriptor, DescriptorPool, KindCase, plain, nested, split_kind, key_kind}

-- `Error::InvalidDescriptor`, with its message.
pub data DescriptorFault : Type 0 where
  map_without_message missing_key missing_value : DescriptorFault
  recursive : (full_name : Bytes) → DescriptorFault

pub data SchemaError : Type 0 where
  invalid_full_method service_not_found : Bytes → SchemaError
  method_not_found : (service method : Bytes) → SchemaError
  invalid_descriptor : DescriptorFault → SchemaError
  out_of_fuel : SchemaError

-- The cache of finished messages, and the messages that are being built.
pub record Building : Type 0 where
  pub message_cache : List (Bytes × GrpcMessageMeta)
  pub message_in_progress : List Bytes

abbrev pub Built : Type 0 → Type 0
Built A = ResultOf SchemaError (Building × A)

-- `message_cache.get`
unfoldable pub get_cached : Bytes → List (Bytes × GrpcMessageMeta) → Option GrpcMessageMeta
get_cached key [] = none
get_cached key ((name, meta) ∷ cache) =
    if bytes_eq name key then some meta else get_cached key cache

-- `message_in_progress.contains` and `remove`
unfoldable pub contains : Bytes → List Bytes → Bool
contains key [] = false
contains key (name ∷ names) = bytes_eq name key || contains key names

unfoldable pub remove : Bytes → List Bytes → List Bytes
remove key [] = []
remove key (name ∷ names) =
    let rest = remove key names in if bytes_eq name key then rest else name ∷ rest

-- `build_kind`, with what builds the message of a number.
unfoldable pub build_kind :
    (ℕ → Building → Built GrpcMessageMeta) → KindCase → Building → Built GrpcValueKind
build_kind build (plain k) st = ok (st, k)
build_kind build (nested h) st = build h st >>= λ p. ok (p.0, GrpcValueKind.message p.1)

abbrev key_name : Bytes
key_name = b'k' ∷ b'e' ∷ b'y' ∷ []

abbrev value_name : Bytes
value_name = b'v' ∷ b'a' ∷ b'l' ∷ b'u' ∷ b'e' ∷ []

unfoldable pub shape_of : Bool → GrpcValueKind → GrpcFieldShape
shape_of true kind = list kind
shape_of false kind = scalar kind

abbrev pub begin : Bytes → Building → Building
begin key st = record st { message_in_progress = key ∷ st.message_in_progress }

abbrev pub finish : Bytes → Building × GrpcMessageMeta → Building × GrpcMessageMeta
finish key (st, meta) = (
  record {
    message_cache = (key, meta) ∷ st.message_cache;
    message_in_progress = remove key st.message_in_progress;
  },
  meta,
)

-- The shape of a map, from the two fields of its entries.
unfoldable pub build_entry :
    (ℕ → Building → Built GrpcMessageMeta)
    → Option FieldDescriptor
    → Option FieldDescriptor
    → Building
    → Built GrpcFieldShape
build_entry build none v st = err (invalid_descriptor missing_key)
build_entry build (some k) none st = err (invalid_descriptor missing_value)
build_entry build (some k) (some v) st =
    build_kind build (split_kind v.kind) st >>= λ p. ok (p.0, map_of (key_kind k.kind) p.1)

module _ (pool : DescriptorPool) where
  unfoldable pub build_map :
      (ℕ → Building → Built GrpcMessageMeta) → KindCase → Building → Built GrpcFieldShape
  build_map build (plain k) st = err (invalid_descriptor map_without_message)
  build_map build (nested entry) st =
      build_entry build (pool.get_field_by_name entry key_name)
        (pool.get_field_by_name entry value_name) st

  unfoldable pub build_shape :
      (ℕ → Building → Built GrpcMessageMeta) → FieldDescriptor → Building → Built GrpcFieldShape
  build_shape build f st =
      if f.is_map
      then build_map build (split_kind f.kind) st
      else (build_kind build (split_kind f.kind) st >>= λ p. ok (p.0, shape_of f.is_list p.1))

  -- The loop over the fields. Both tables are the list of the fields, the last one first, so that a
  -- later field hides an earlier one of its name or number.
  unfoldable pub build_fields :
      (ℕ → Building → Built GrpcMessageMeta)
      → List FieldDescriptor
      → GrpcMessageMeta
      → Building
      → Built GrpcMessageMeta
  build_fields build [] acc st = ok (st, acc)
  build_fields build (f ∷ fs) acc st =
      build_shape build f st >>= λ p. build_fields build fs (field f.name f.number p.1 acc) p.0

  -- `build_message_meta` once the cache has no answer.
  unfoldable pub build_new :
      (ℕ → Building → Built GrpcMessageMeta) → ℕ → Bool → Building → Built GrpcMessageMeta
  build_new build h true st = err (invalid_descriptor (recursive (pool.full_name h)))
  build_new build h false st =
      build_fields build (pool.fields h) no_fields (begin (pool.full_name h) st) >>= λ p.
      ok (finish (pool.full_name h) p)

  unfoldable pub build_message :
      (ℕ → Building → Built GrpcMessageMeta)
      → ℕ
      → Option GrpcMessageMeta
      → Building
      → Built GrpcMessageMeta
  build_message build h (some existing) st = ok (st, existing)
  build_message build h none st =
      build_new build h (contains (pool.full_name h) st.message_in_progress) st

  unfoldable pub build_message_meta : ℕ → ℕ → Building → Built GrpcMessageMeta
  build_message_meta zero h st = err out_of_fuel
  build_message_meta (suc fuel) h st =
      build_message (build_message_meta fuel) h (get_cached (pool.full_name h) st.message_cache) st
