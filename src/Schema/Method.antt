-- ===== src/Schema/Method.antt =====
-- wrkr-grpc/src/proto.rs, the outer part of `ProtoSchema::method`: the method is looked up, and its
-- tables are built.
use wrkr.Prelude.{
  ℕ, suc, not, Option, none, some, List, [], ◌∷◌, ◌++◌, get_elem?, ◌==◌, if◌then◌else◌,
}
use wrkr.Prelude.Results.{ResultOf, ok, err, ◌>>=◌}
use wrkr.Prelude.Text.{split_once}
use wrkr.Wire.{Bytes}
use wrkr.Messages.Kinds.{GrpcFieldShape, GrpcMessageMeta, no_fields, bytes_eq}
use wrkr.Schema.Pool.{FieldDescriptor, MethodDescriptor, DescriptorPool}
use wrkr.Schema.{
  SchemaError, invalid_full_method, service_not_found, method_not_found, Building, Built,
  build_shape, build_fields, build_message_meta,
}

-- `service.methods().find(|m| m.name() == method_name)`
unfoldable pub find_method : Bytes → List MethodDescriptor → Option MethodDescriptor
find_method name [] = none
find_method name (m ∷ methods) =
    let rest = find_method name methods in if bytes_eq m.name name then some m else rest

-- An entry of `output_fields`, and the method that is built.
pub record OutputField : Type 0 where
  pub name : Bytes
  pub number : ℕ
  pub shape : GrpcFieldShape

pub record BuiltMethod : Type 0 where
  pub path : Bytes
  pub input_fields : GrpcMessageMeta
  pub output_fields : List OutputField
  pub output_field_index_by_number : List (ℕ × ℕ)

-- `ok_or_else`
unfoldable pub ok_or : {A : Type 0} → Option A → SchemaError → ResultOf SchemaError A
ok_or none e = err e
ok_or (some a) e = ok a

-- The entries of the index from a place on, the last one first.
unfoldable pub index_from : ℕ → List OutputField → List (ℕ × ℕ) → List (ℕ × ℕ)
index_from idx [] acc = acc
index_from idx (f ∷ fs) acc =
    index_from (suc idx) fs (if not (f.number == 0) then (f.number, idx) ∷ acc else acc)

unfoldable pub get_index : ℕ → List (ℕ × ℕ) → Option ℕ
get_index number [] = none
get_index number ((n, idx) ∷ index) = if n == number then some idx else get_index number index

-- The field of a number, as the decoder finds it: its index, and the field there.
unfoldable pub get_output : ℕ → BuiltMethod → Option OutputField
get_output number g = elim (get_index number g.output_field_index_by_number) [
  | none ↦ none
  | some idx ↦ get_elem? g.output_fields idx
]

abbrev pub nothing_built : Building
nothing_built = record { message_cache = []; message_in_progress = [] }

module _ (pool : DescriptorPool) where
  -- The loop over the fields of the output.
  unfoldable pub build_outputs :
      (ℕ → Building → Built GrpcMessageMeta)
      → List FieldDescriptor
      → Building
      → Built (List OutputField)
  build_outputs build [] st = ok (st, [])
  build_outputs build (f ∷ fs) st = build_shape pool build f st >>= λ p.
      build_outputs build fs p.0 >>= λ q.
      ok (q.0, record { name = f.name; number = f.number; shape = p.1 } ∷ q.1)

  -- Each message in progress is another one of the pool: no chain of them is longer.
  abbrev pub build : ℕ → Building → Built GrpcMessageMeta
  build = build_message_meta pool (suc pool.messages)

  unfoldable pub build_tables : Bytes → MethodDescriptor → ResultOf SchemaError BuiltMethod
  build_tables path m =
      build_fields pool build (pool.fields m.input) no_fields nothing_built >>= λ p.
      build_outputs build (pool.fields m.output) p.0 >>= λ q. ok (record {
        path = path;
        input_fields = p.1;
        output_fields = q.1;
        output_field_index_by_number = index_from 0 q.1 [];
      })

  unfoldable pub build_path :
      Bytes → Bytes → Bytes → MethodDescriptor → ResultOf SchemaError BuiltMethod
  build_path full_method service method m =
      ok_or (pool.path_and_query ((b'/' ∷ service) ++ (b'/' ∷ method)))
        (invalid_full_method full_method)
      >>= λ path. build_tables path m

  unfoldable pub method_by_name : Bytes → ResultOf SchemaError BuiltMethod
  method_by_name full_method =
      ok_or (split_once b'/' full_method) (invalid_full_method full_method) >>= λ names.
      ok_or (pool.get_service_by_name names.0) (service_not_found names.0) >>= λ service.
      ok_or (find_method names.1 (pool.methods service)) (method_not_found names.0 names.1) >>= λ m.
      build_path full_method names.0 names.1 m
