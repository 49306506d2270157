-- ===== src/Schema/Runs.antt =====
-- Concrete pools: a service with a message inside another and a map, and one with a recursive message.
use wrkr.Prelude.{
  ℕ, zero, suc, ◌≡◌, ◌≢◌, refl, true, false, Option, none, some, ◌↔◌, List, [], ◌∷◌, All, arith,
  subst, Bool-cases, inl, inr, ◌==◌, if◌then◌else◌,
}
use wrkr.Prelude.Results.{ok, err}
use wrkr.Prelude.Text.{split_once}
use wrkr.Wire.{Bytes}
use wrkr.Messages.Kinds.{
  GrpcMessageMeta, GrpcValueKind, no_fields, field, scalar, list, map_of, KeyKind, bytes_eq,
  get_by_number,
}
use wrkr.Schema.Pool.{
  Kind, FieldDescriptor, MethodDescriptor, DescriptorPool, IsPool, IsKindIn, split_kind, key_kind,
}
use wrkr.Schema.{
  invalid_descriptor, recursive, out_of_fuel, get_cached, contains, remove, build_kind, build_entry,
  build_map, build_shape, shape_of, build_fields, build_new, build_message, build_message_meta,
}
use wrkr.Schema.Method.{
  BuiltMethod, find_method, ok_or, index_from, get_output, build_outputs, build_tables, build_path,
  method_by_name,
}
use wrkr.Schema.Sound.{IsMetaOf}
use wrkr.Schema.Ends.{as_meta, IsNamed, method_by_name_ends}
use wrkr.Schema.Refusal.{method_by_name_iff}
use wrkr.Schema.Tables.{name_and_shape, method_by_name-get_output}

-- `message 0 { M 1 a = 1; repeated M 1 b = 2; map<string, bool> c = 3; }`, `message 1 { bool d = 1; }`,
-- and `message 2`, the entries of the map.
abbrev test_fields : ℕ → List FieldDescriptor
test_fields zero =
    record { name = b'a' ∷ []; number = 1; kind = Kind.message 1; is_map = false; is_list = false }
    ∷ record { name = b'b' ∷ []; number = 2; kind = Kind.message 1; is_map = false; is_list = true }
    ∷ record { name = b'c' ∷ []; number = 3; kind = Kind.message 2; is_map = true; is_list = true }
    ∷ []
test_fields (suc zero) =
    record { name = b'd' ∷ []; number = 1; kind = Kind.bool; is_map = false; is_list = false } ∷ []
test_fields (suc (suc h)) = []

abbrev key_field : FieldDescriptor
key_field = record {
  name = b'k' ∷ [];
  number = 1;
  kind = Kind.string;
  is_map = false;
  is_list = false;
}

abbrev value_field : FieldDescriptor
value_field = record {
  name = b'v' ∷ [];
  number = 2;
  kind = Kind.bool;
  is_map = false;
  is_list = false;
}

abbrev entry_field : Bytes → Option FieldDescriptor
entry_field [] = none
entry_field (c ∷ s) = if c == b'k' then some key_field else some value_field

abbrev test_methods : List MethodDescriptor
test_methods = record { name = b'm' ∷ []; input = 0; output = 1 } ∷ []

abbrev test_pool : DescriptorPool
test_pool = record {
  messages = 3;
  full_name = λ h. h ∷ [];
  fields = test_fields;
  get_field_by_name = λ h. entry_field;
  get_service_by_name = λ name. some 0;
  methods = λ s. test_methods;
  path_and_query = some;
}

-- `s/m`
abbrev s_m : Bytes
s_m = b's' ∷ b'/' ∷ b'm' ∷ []

abbrev inner_message : GrpcMessageMeta
inner_message = field (b'd' ∷ []) 1 (scalar GrpcValueKind.bool) no_fields

abbrev input_message : GrpcMessageMeta
input_message = field (b'c' ∷ []) 3 (map_of KeyKind.string GrpcValueKind.bool) (
    field (b'b' ∷ []) 2 (list (GrpcValueKind.message inner_message))
      (field (b'a' ∷ []) 1 (scalar (GrpcValueKind.message inner_message)) no_fields))

abbrev built : BuiltMethod
built = record {
  path = b'/' ∷ b's' ∷ b'/' ∷ b'm' ∷ [];
  input_fields = input_message;
  output_fields = record { name = b'd' ∷ []; number = 1; shape = scalar GrpcValueKind.bool } ∷ [];
  output_field_index_by_number = (1, 0) ∷ [];
}

test_fields_inside :
    (h : ℕ) → All (λ (f : FieldDescriptor). IsKindIn 3 (split_kind f.kind)) (test_fields h)
unfolding split_kind
test_fields_inside zero = (omega arith, (omega arith, (omega arith, tt)))
test_fields_inside (suc zero) = (tt, tt)
test_fields_inside (suc (suc h)) = tt

entry_field_inside :
    (name : Bytes) (f : FieldDescriptor)
    → entry_field name ≡ some f
    → IsKindIn 3 (split_kind f.kind)
unfolding split_kind
entry_field_inside [] f e = cc
entry_field_inside (c ∷ s) f e = elim (Bool-cases (c == b'k')) [
  | inl key ↦
      let here : key_field ≡ f = ground (arith, key) in
      subst (λ (g : FieldDescriptor). IsKindIn 3 (split_kind g.kind)) here tt
  | inr value ↦
      let here : value_field ≡ f = ground (arith, value) in
      subst (λ (g : FieldDescriptor). IsKindIn 3 (split_kind g.kind)) here tt
]

test_pool-IsPool : IsPool test_pool
test_pool-IsPool = record {
  one_name = λ g h e. cc;
  inside = test_fields_inside;
  entry_inside = λ h. entry_field_inside;
  methods_inside = λ s. ((omega arith, omega arith), tt);
}

s_m-built : method_by_name test_pool s_m ≡ ok built
unfolding method_by_name split_once find_method ok_or bytes_eq build_path build_tables build_fields
    build_shape build_map build_entry build_kind build_message_meta build_message build_new
    get_cached contains remove split_kind key_kind shape_of build_outputs index_from
s_m-built = refl

method_by_name_ends_example : method_by_name test_pool s_m ≢ err out_of_fuel
method_by_name_ends_example = method_by_name_ends test_pool test_pool-IsPool s_m

s_m_split : split_once b'/' s_m ≡ some (b's' ∷ [], b'm' ∷ [])
unfolding split_once
s_m_split = refl

m_found :
    find_method (b'm' ∷ []) test_methods ≡ some (record { name = b'm' ∷ []; input = 0; output = 1 })
unfolding find_method bytes_eq
m_found = refl

method_by_name_iff_example :
    ((g : BuiltMethod) × (method_by_name test_pool s_m ≡ ok g)
      × (g.input_fields ≡ input_message)
      × (as_meta g.output_fields no_fields ≡ inner_message))
    ↔ (IsMetaOf test_pool 0 input_message × IsMetaOf test_pool 1 inner_message)
method_by_name_iff_example =
    method_by_name_iff test_pool test_pool-IsPool s_m (b's' ∷ []) (b'm' ∷ [])
      (b'/' ∷ b's' ∷ b'/' ∷ b'm' ∷ []) 0 (record { name = b'm' ∷ []; input = 0; output = 1 })
      input_message inner_message s_m_split refl m_found refl

method_by_name-get_output_example :
    (m : MethodDescriptor) × (output : GrpcMessageMeta) × IsNamed test_pool test_pool-IsPool s_m m
    × IsMetaOf test_pool m.output output
    × (name_and_shape (get_output 1 built) ≡ get_by_number 1 output)
method_by_name-get_output_example =
    method_by_name-get_output test_pool test_pool-IsPool s_m 1 built s_m-built

-- `message 0 { M 0 a = 1; }` contains itself.
abbrev loop_pool : DescriptorPool
loop_pool = record test_pool {
  fields = λ h.
      record {
        name = b'a' ∷ [];
        number = 1;
        kind = Kind.message h;
        is_map = false;
        is_list = false;
      }
      ∷ [];
}

recursive_refused : method_by_name loop_pool s_m ≡ err (invalid_descriptor (recursive (0 ∷ [])))
unfolding method_by_name split_once find_method ok_or bytes_eq build_path build_tables build_fields
    build_shape build_map build_entry build_kind build_message_meta build_message build_new
    get_cached contains remove split_kind key_kind shape_of build_outputs index_from
recursive_refused = refl
