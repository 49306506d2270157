-- ===== src/Schema/Refusal.antt =====
-- Which methods `ProtoSchema::method` refuses: those whose messages have no finite tree.
use mathlib.Core.Option
use wrkr.Prelude.{
  ℕ, zero, suc, true, ◌<◌, ◌≡◌, refl, sym, ◌∙◌, subst, some, ◌↔◌, List, [], ◌∷◌, ◌++◌, All, arith,
}
use wrkr.Prelude.Results.{ok}
use wrkr.Prelude.Text.{split_once}
use wrkr.Wire.{Bytes}
use wrkr.Messages.Kinds.{GrpcMessageMeta, no_fields, field}
use wrkr.Schema.Pool.{
  FieldDescriptor, MethodDescriptor, DescriptorPool, IsPool, IsKindIn, split_kind,
}
use wrkr.Schema.{Building, contains}
use wrkr.Schema.Method.{
  OutputField, BuiltMethod, find_method, ok_or, build, nothing_built, build_outputs, build_tables,
  build_path, method_by_name, index_from,
}
use wrkr.Schema.Tree.{tree, tree_shape, tree_fields, bind-eq-some}
use wrkr.Schema.Fuel.{remaining_le_messages}
use wrkr.Schema.Sound.{IsMetaOf, IsBuilding}
use wrkr.Schema.Complete.{Builds, build_shape-Builds, build_fields-Builds}
use wrkr.Schema.Exact.{build_message_meta-Builds}
use wrkr.Schema.Ends.{as_meta, IsNamed, method_by_name-IsMethodOf, not_cached}

module _ (pool : DescriptorPool) (is_pool : IsPool pool) where
  not_contained : (key : Bytes) → contains key [] ≡ true → ⊥
  unfolding contains
  not_contained key e = cc

  build-Builds :
      (d h : ℕ) (m : GrpcMessageMeta) (st : Building)
      → h < pool.messages
      → tree pool d h ≡ some m
      → IsBuilding pool [] st
      → Builds pool [] (build pool h st) m
  build-Builds d h m st inside found is =
      build_message_meta-Builds pool is_pool d (suc pool.messages) [] h m st inside
        (omega (arith, remaining_le_messages pool pool.messages []))
        (λ g e. absurd (not_contained (pool.full_name g) e)) found is

  build_outputs-Builds :
      (d : ℕ) (fs : List FieldDescriptor) (acc m : GrpcMessageMeta) (st : Building)
      → All (λ (f : FieldDescriptor). IsKindIn pool.messages (split_kind f.kind)) fs
      → tree_fields pool (tree pool d) fs acc ≡ some m
      → IsBuilding pool [] st
      → (os : List OutputField) × Builds pool [] (build_outputs pool (build pool) fs st) os
        × (as_meta os acc ≡ m)
  unfolding build_outputs tree_fields Option.bind as_meta
  build_outputs-Builds d [] acc m st inside e is =
      let same : acc ≡ m = cc in ([], (st, refl, is), same)
  build_outputs-Builds d (f ∷ fs) acc m st inside e is =
      let (s, found, later) = bind-eq-some _ (tree_shape pool (tree pool d) f) m e in
      let (st', built, is') =
        build_shape-Builds pool is_pool d [] (build pool) (build-Builds d) f s st inside.0 found
          is in
      let (os, (st'', rest, is''), same) =
        build_outputs-Builds d fs (field f.name f.number s acc) m st' inside.1 later is' in
      (
        record { name = f.name; number = f.number; shape = s } ∷ os,
        (st'', rw built (rw rest refl), is''),
        same,
      )

  IsMetaOf-fields :
      (h d : ℕ) (m : GrpcMessageMeta)
      → tree pool d h ≡ some m
      → (n : ℕ) × (tree_fields pool (tree pool n) (pool.fields h) no_fields ≡ some m)
  unfolding tree
  IsMetaOf-fields h zero m e = cc
  IsMetaOf-fields h (suc n) m e = (n, e)

  build_tables-IsMethodOf :
      (path : Bytes) (m : MethodDescriptor) (input output : GrpcMessageMeta)
      → IsMetaOf pool m.input input
      → IsMetaOf pool m.output output
      → (g : BuiltMethod) × (build_tables pool path m ≡ ok g)
        × (g.path ≡ path)
        × (g.input_fields ≡ input)
        × (as_meta g.output_fields no_fields ≡ output)
  unfolding build_tables
  build_tables-IsMethodOf path m input output (d, has) (n, has') =
      let (dᵢ, ins) = IsMetaOf-fields m.input d input has in
      let (dₒ, outs) = IsMetaOf-fields m.output n output has' in
      let (st, built, is) =
        build_fields-Builds pool is_pool dᵢ [] (build pool) (build-Builds dᵢ) (pool.fields m.input)
          no_fields input nothing_built (is_pool.inside m.input) ins
          (λ h n e. absurd (not_cached (pool.full_name h) n e), refl) in
      let (os, (st', built', is'), same) =
        build_outputs-Builds dₒ (pool.fields m.output) no_fields output st (is_pool.inside m.output)
          outs is in
      (
        record {
          path = path;
          input_fields = input;
          output_fields = os;
          output_field_index_by_number = index_from 0 os [];
        },
        rw built (rw built' refl),
        refl,
        refl,
        same,
      )

  -- A name that finds a method, and a path for it.
  method_by_name-build_tables :
      (full service name path : Bytes) (s : ℕ) (m : MethodDescriptor)
      → split_once b'/' full ≡ some (service, name)
      → pool.get_service_by_name service ≡ some s
      → find_method name (pool.methods s) ≡ some m
      → pool.path_and_query ((b'/' ∷ service) ++ (b'/' ∷ name)) ≡ some path
      → method_by_name pool full ≡ build_tables pool path m
  unfolding method_by_name build_path ok_or
  method_by_name-build_tables full service name path s m e₁ e₂ e₃ e₄ =
      rw e₁ (rw e₂ (rw e₃ (rw e₄ refl)))

  IsNamed-unique :
      (full service name : Bytes) (s : ℕ) (m n : MethodDescriptor)
      → split_once b'/' full ≡ some (service, name)
      → pool.get_service_by_name service ≡ some s
      → find_method name (pool.methods s) ≡ some m
      → IsNamed pool is_pool full n
      → n ≡ m
  IsNamed-unique full service name s m n e₁ e₂ e₃ (names, t, split, served, found) =
      let same : (service, name) ≡ names = cc in
      let served' : pool.get_service_by_name service ≡ some t =
        subst (λ (p : Bytes × Bytes). pool.get_service_by_name p.0 ≡ some t) (sym same) served in
      let one : t ≡ s = cc in
      let found' : find_method name (pool.methods t) ≡ some n =
        subst (λ (p : Bytes × Bytes). find_method p.1 (pool.methods t) ≡ some n) (sym same) found in
      let found'' : find_method name (pool.methods s) ≡ some n =
        subst (λ k. find_method name (pool.methods k) ≡ some n) one found' in
      cc

  -- For a name that finds a method and whose path is one: the method is built, with these tables,
  -- exactly when they are the trees of its input and its output.
  pub method_by_name_iff :
      (full service name path : Bytes) (s : ℕ) (m : MethodDescriptor)
      (input output : GrpcMessageMeta)
      → split_once b'/' full ≡ some (service, name)
      → pool.get_service_by_name service ≡ some s
      → find_method name (pool.methods s) ≡ some m
      → pool.path_and_query ((b'/' ∷ service) ++ (b'/' ∷ name)) ≡ some path
      → ((g : BuiltMethod) × (method_by_name pool full ≡ ok g)
          × (g.input_fields ≡ input)
          × (as_meta g.output_fields no_fields ≡ output))
        ↔ (IsMetaOf pool m.input input × IsMetaOf pool m.output output)
  method_by_name_iff full service name path s m input output e₁ e₂ e₃ e₄ = (
    λ (g, built, ins, outs).
        let (n, named, (input_of, output_of, indexed)) =
          method_by_name-IsMethodOf pool is_pool full g built in
        let same = IsNamed-unique full service name s m n e₁ e₂ e₃ named in
        (
          subst (IsMetaOf pool m.input) ins
              (subst (λ k. IsMetaOf pool k.input g.input_fields) same input_of),
          subst (IsMetaOf pool m.output) outs (
              subst (λ k. IsMetaOf pool k.output (as_meta g.output_fields no_fields)) same
                output_of),
        ),
    λ (has, has').
        let (g, built, paths, ins, outs) = build_tables-IsMethodOf path m input output has has' in
        (g, method_by_name-build_tables full service name path s m e₁ e₂ e₃ e₄ ∙ built, ins, outs),
  )
