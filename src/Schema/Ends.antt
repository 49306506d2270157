-- ===== src/Schema/Ends.antt =====
-- What `ProtoSchema::method` gives: it never runs out of fuel, and the tables it gives are the trees
-- of the method's messages.
use wrkr.Prelude.{
  ℕ, suc, ◌<◌, ◌≡◌, ◌≢◌, refl, subst, Bool-cases, Option, none, some, inl, inr, List, [], ◌∷◌, ◌++◌,
  All, arith,
}
use wrkr.Prelude.Results.{ResultOf, ok, err, ◌>>=◌}
use wrkr.Prelude.Text.{split_once}
use wrkr.Wire.{Bytes}
use wrkr.Messages.Kinds.{GrpcMessageMeta, no_fields, field, bytes_eq}
use wrkr.Schema.Pool.{
  FieldDescriptor, MethodDescriptor, DescriptorPool, IsPool, IsKindIn, split_kind,
}
use wrkr.Schema.{
  SchemaError, invalid_full_method, service_not_found, method_not_found, invalid_descriptor,
  out_of_fuel, Building, Built, get_cached, build_shape,
}
use wrkr.Schema.Method.{
  OutputField, BuiltMethod, find_method, ok_or, index_from, build, nothing_built, build_outputs,
  build_tables, build_path, method_by_name,
}
use wrkr.Schema.Tree.{tree, tree_fields}
use wrkr.Schema.Fuel.{remaining_le_messages}
use wrkr.Schema.Sound.{
  IsMetaOf, IsShapeOf, AreFieldsOf, IsBuilding, IsGood, IsGood-bind, AreFieldsOf-cons,
  build_shape-IsGood, build_fields-IsGood,
}
use wrkr.Schema.Message.{build_message_meta-IsGood}

-- The fields of an output as a message type.
unfoldable pub as_meta : List OutputField → GrpcMessageMeta → GrpcMessageMeta
as_meta [] acc = acc
as_meta (o ∷ os) acc = as_meta os (field o.name o.number o.shape acc)

-- The tables of a method are the trees of its messages, and the index is the one of its outputs.
abbrev pub IsMethodOf : DescriptorPool → MethodDescriptor → BuiltMethod → Type 0
IsMethodOf pool m g =
    IsMetaOf pool m.input g.input_fields
    × IsMetaOf pool m.output (as_meta g.output_fields no_fields)
    × (g.output_field_index_by_number ≡ index_from 0 g.output_fields [])

-- No error of a build is the fuel's, and what is built has a property.
abbrev pub IsDone : (BuiltMethod → Type 0) → ResultOf SchemaError BuiltMethod → Type 0
IsDone P (ok g) = P g
IsDone P (err out_of_fuel) = ⊥
IsDone P (err (invalid_full_method s)) = Unit
IsDone P (err (service_not_found s)) = Unit
IsDone P (err (method_not_found s n)) = Unit
IsDone P (err (invalid_descriptor fault)) = Unit

IsDone-bind :
    {A : Type 0} (pool : DescriptorPool) (Q : A → Type 0) (P : BuiltMethod → Type 0) (r : Built A)
    (rest : Building × A → ResultOf SchemaError BuiltMethod)
    → IsGood pool [] Q r
    → ((st : Building) (a : A) → IsBuilding pool [] st → Q a → IsDone P (rest (st, a)))
    → IsDone P (r >>= rest)
IsDone-bind pool Q P (ok p) rest good next = next p.0 p.1 good.0 good.1
IsDone-bind pool Q P (err out_of_fuel) rest good next = good
IsDone-bind pool Q P (err (invalid_full_method s)) rest good next = tt
IsDone-bind pool Q P (err (service_not_found s)) rest good next = tt
IsDone-bind pool Q P (err (method_not_found s n)) rest good next = tt
IsDone-bind pool Q P (err (invalid_descriptor fault)) rest good next = tt

IsDone-mono :
    (P Q : BuiltMethod → Type 0) (r : ResultOf SchemaError BuiltMethod)
    → ((g : BuiltMethod) → P g → Q g)
    → IsDone P r
    → IsDone Q r
IsDone-mono P Q (ok g) more done = more g done
IsDone-mono P Q (err out_of_fuel) more done = done
IsDone-mono P Q (err (invalid_full_method s)) more done = tt
IsDone-mono P Q (err (service_not_found s)) more done = tt
IsDone-mono P Q (err (method_not_found s n)) more done = tt
IsDone-mono P Q (err (invalid_descriptor fault)) more done = tt

IsDone-ok_or :
    {A : Type 0} (P : BuiltMethod → Type 0) (o : Option A) (e : SchemaError)
    (rest : A → ResultOf SchemaError BuiltMethod)
    → IsDone P (err e)
    → ((a : A) → o ≡ some a → IsDone P (rest a))
    → IsDone P (ok_or o e >>= rest)
unfolding ok_or
IsDone-ok_or P none e rest failed next = failed
IsDone-ok_or P (some a) e rest failed next = next a refl

pub not_cached : (key : Bytes) (m : GrpcMessageMeta) → get_cached key [] ≡ some m → ⊥
unfolding get_cached
not_cached key m e = cc

module _ (pool : DescriptorPool) (is_pool : IsPool pool) where
  build-IsGood :
      (h : ℕ) (st : Building)
      → h < pool.messages
      → IsBuilding pool [] st
      → IsGood pool [] (IsMetaOf pool h) (build pool h st)
  build-IsGood h st inside is =
      build_message_meta-IsGood pool is_pool (suc pool.messages) [] h st inside
        (omega (arith, remaining_le_messages pool pool.messages [])) is

  build_outputs-IsGood :
      (fs : List FieldDescriptor) (st : Building)
      → All (λ (f : FieldDescriptor). IsKindIn pool.messages (split_kind f.kind)) fs
      → IsBuilding pool [] st
      → IsGood pool []
          (λ os. (acc : GrpcMessageMeta) → AreFieldsOf pool fs acc (as_meta os acc))
          (build_outputs pool (build pool) fs st)
  unfolding build_outputs as_meta tree_fields
  build_outputs-IsGood [] st inside is = (is, λ acc. (0, refl))
  build_outputs-IsGood (f ∷ fs) st inside is =
      IsGood-bind pool [] [] (IsShapeOf pool f) _ (build_shape pool (build pool) f st) _
        (build_shape-IsGood pool is_pool [] (build pool) build-IsGood f st inside.0 is)
        (λ st' shape is' found.
          IsGood-bind pool [] [] _ _ (build_outputs pool (build pool) fs st') _
            (build_outputs-IsGood fs st' inside.1 is')
            (λ st'' os is'' rest. (
              is'',
              λ acc.
                  AreFieldsOf-cons pool f fs acc _ shape found
                    (rest (field f.name f.number shape acc)),
            )))

  find_method_inside :
      (name : Bytes) (m : MethodDescriptor) (methods : List MethodDescriptor)
      → All
          (λ (n : MethodDescriptor). (n.input < pool.messages) × (n.output < pool.messages))
          methods
      → find_method name methods ≡ some m
      → (m.input < pool.messages) × (m.output < pool.messages)
  unfolding find_method
  find_method_inside name m [] inside e = cc
  find_method_inside name m (n ∷ methods) inside e = elim (Bool-cases (bytes_eq n.name name)) [
    | inl same ↦
        let here : n ≡ m = ground (arith, same) in
        subst (λ (k : MethodDescriptor). (k.input < pool.messages) × (k.output < pool.messages))
          here inside.0
    | inr other ↦ find_method_inside name m methods inside.1 (rw other at e)
  ]

  build_tables-IsDone :
      (path : Bytes) (m : MethodDescriptor)
      → m.input < pool.messages
      → m.output < pool.messages
      → IsDone (IsMethodOf pool m) (build_tables pool path m)
  unfolding build_tables tree
  build_tables-IsDone path m input_inside output_inside =
      IsDone-bind pool (AreFieldsOf pool (pool.fields m.input) no_fields) _ _ _
        (build_fields-IsGood pool is_pool [] (build pool) build-IsGood (pool.fields m.input)
          no_fields nothing_built (is_pool.inside m.input)
          (λ h n e. absurd (not_cached (pool.full_name h) n e), refl))
        (λ st input is found.
          IsDone-bind pool _ _ _ _
            (build_outputs-IsGood (pool.fields m.output) st (is_pool.inside m.output) is)
            (λ st' os is' outputs.
              ((suc found.0, found.1), (suc (outputs no_fields).0, (outputs no_fields).1), refl)))

  build_path-IsDone :
      (full service name : Bytes) (m : MethodDescriptor)
      → m.input < pool.messages
      → m.output < pool.messages
      → IsDone (IsMethodOf pool m) (build_path pool full service name m)
  unfolding build_path
  build_path-IsDone full service name m input_inside output_inside =
      IsDone-ok_or _ (pool.path_and_query ((b'/' ∷ service) ++ (b'/' ∷ name))) _ _ tt
        (λ path e. build_tables-IsDone path m input_inside output_inside)

  -- The method that a name finds.
  abbrev pub IsNamed : Bytes → MethodDescriptor → Type 0
  IsNamed full m =
      (names : Bytes × Bytes) × (s : ℕ) × (split_once b'/' full ≡ some names)
      × (pool.get_service_by_name names.0 ≡ some s)
      × (find_method names.1 (pool.methods s) ≡ some m)

  method_by_name-IsDone :
      (full : Bytes)
      → IsDone
          (λ g. (m : MethodDescriptor) × IsNamed full m × IsMethodOf pool m g)
          (method_by_name pool full)
  unfolding method_by_name
  method_by_name-IsDone full = IsDone-ok_or _ (split_once b'/' full) _ _ tt (λ names split.
      IsDone-ok_or _ (pool.get_service_by_name names.0) _ _ tt (λ s served.
        IsDone-ok_or _ (find_method names.1 (pool.methods s)) _ _ tt (λ m found.
          let inside =
            find_method_inside names.1 m (pool.methods s) (is_pool.methods_inside s) found in
          IsDone-mono _ _ (build_path pool full names.0 names.1 m)
            (λ g built. (m, (names, s, split, served, found), built))
            (build_path-IsDone full names.0 names.1 m inside.0 inside.1))))

  -- With a fuel of one more than the messages of the pool, the building of a method's tables never
  -- runs out of fuel, whatever name is asked for.
  pub method_by_name_ends : (full : Bytes) → method_by_name pool full ≢ err out_of_fuel
  method_by_name_ends full e =
      subst (IsDone (λ g. (m : MethodDescriptor) × IsNamed full m × IsMethodOf pool m g)) e
        (method_by_name-IsDone full)

  pub method_by_name-IsMethodOf :
      (full : Bytes) (g : BuiltMethod)
      → method_by_name pool full ≡ ok g
      → (m : MethodDescriptor) × IsNamed full m × IsMethodOf pool m g
  method_by_name-IsMethodOf full g e =
      subst (IsDone (λ g. (m : MethodDescriptor) × IsNamed full m × IsMethodOf pool m g)) e
        (method_by_name-IsDone full)
