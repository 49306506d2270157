-- ===== src/Schema/Sound.antt =====
-- What a build gives: with fuel for every message that is not in progress it never runs out, and the
-- tables it gives are the tree of the message.
use mathlib.Core.Option
use wrkr.Prelude.{
  ℕ, ◌+◌, ◌<◌, ◌≡◌, refl, ap, Option, none, some, Bool-cases, inl, inr, List, [], ◌∷◌, All, arith,
}
use wrkr.Prelude.Results.{ok, err, ◌>>=◌}
use wrkr.Wire.{Bytes}
use wrkr.Messages.Kinds.{GrpcValueKind, GrpcFieldShape, map_of, GrpcMessageMeta, field}
use wrkr.Schema.Pool.{
  FieldDescriptor, DescriptorPool, IsPool, IsKindIn, KindCase, plain, nested, split_kind, key_kind,
}
use wrkr.Schema.{
  invalid_full_method, service_not_found, method_not_found, invalid_descriptor, out_of_fuel,
  Building, Built, get_cached, build_kind, build_entry, build_map, build_shape, build_fields,
  key_name, value_name, shape_of,
}
use wrkr.Schema.Tree.{
  tree, tree_kind, tree_entry, tree_map, tree_shape, tree_fields, tree_fields_mono, tree_shape_mono,
  tree_mono,
}

module _ (pool : DescriptorPool) where
  -- Some depth gives the tree of the message.
  abbrev pub IsMetaOf : ℕ → GrpcMessageMeta → Type 0
  IsMetaOf h m = (d : ℕ) × (tree pool d h ≡ some m)

  abbrev pub IsShapeOf : FieldDescriptor → GrpcFieldShape → Type 0
  IsShapeOf f shape = (d : ℕ) × (tree_shape pool (tree pool d) f ≡ some shape)

  abbrev pub AreFieldsOf : List FieldDescriptor → GrpcMessageMeta → GrpcMessageMeta → Type 0
  AreFieldsOf fs acc m = (d : ℕ) × (tree_fields pool (tree pool d) fs acc ≡ some m)

  abbrev pub IsCache : List (Bytes × GrpcMessageMeta) → Type 0
  IsCache cache =
      (h : ℕ) (m : GrpcMessageMeta) → get_cached (pool.full_name h) cache ≡ some m → IsMetaOf h m

  -- The state between two messages: the cache is right, and these names are in progress.
  abbrev pub IsBuilding : List Bytes → Building → Type 0
  IsBuilding names st = IsCache st.message_cache × (st.message_in_progress ≡ names)

  abbrev pub IsGood : {A : Type 0} → List Bytes → (A → Type 0) → Built A → Type 0
  IsGood names Q (ok p) = IsBuilding names p.0 × Q p.1
  IsGood names Q (err out_of_fuel) = ⊥
  IsGood names Q (err (invalid_full_method m)) = Unit
  IsGood names Q (err (service_not_found s)) = Unit
  IsGood names Q (err (method_not_found s m)) = Unit
  IsGood names Q (err (invalid_descriptor fault)) = Unit

  pub IsGood-bind :
      {A B : Type 0} (names after : List Bytes) (Q : A → Type 0) (R : B → Type 0) (r : Built A)
      (rest : Building × A → Built B)
      → IsGood names Q r
      → ((st : Building) (a : A) → IsBuilding names st → Q a → IsGood after R (rest (st, a)))
      → IsGood after R (r >>= rest)
  IsGood-bind names after Q R (ok p) rest good next = next p.0 p.1 good.0 good.1
  IsGood-bind names after Q R (err out_of_fuel) rest good next = good
  IsGood-bind names after Q R (err (invalid_full_method m)) rest good next = tt
  IsGood-bind names after Q R (err (service_not_found s)) rest good next = tt
  IsGood-bind names after Q R (err (method_not_found s m)) rest good next = tt
  IsGood-bind names after Q R (err (invalid_descriptor fault)) rest good next = tt

  pub IsGood_mono :
      {A : Type 0} (names : List Bytes) (Q R : A → Type 0) (r : Built A)
      → ((a : A) → Q a → R a)
      → IsGood names Q r
      → IsGood names R r
  IsGood_mono names Q R (ok p) more good = (good.0, more p.1 good.1)
  IsGood_mono names Q R (err out_of_fuel) more good = good
  IsGood_mono names Q R (err (invalid_full_method m)) more good = tt
  IsGood_mono names Q R (err (service_not_found s)) more good = tt
  IsGood_mono names Q R (err (method_not_found s m)) more good = tt
  IsGood_mono names Q R (err (invalid_descriptor fault)) more good = tt

  -- The depths of a field and of the fields after it are one depth.
  pub AreFieldsOf-cons :
      (f : FieldDescriptor) (fs : List FieldDescriptor) (acc m : GrpcMessageMeta)
      (shape : GrpcFieldShape)
      → IsShapeOf f shape
      → AreFieldsOf fs (field f.name f.number shape acc) m
      → AreFieldsOf (f ∷ fs) acc m
  unfolding tree_fields Option.bind
  AreFieldsOf-cons f fs acc m shape (d, here) (n, later) =
      let more = tree_mono pool d (d + n) (omega arith) in
      let more' = tree_mono pool n (d + n) (omega arith) in
      (
        d + n,
        rw (tree_shape_mono pool (tree pool d) (tree pool (d + n)) f shape more here) (
            tree_fields_mono pool (tree pool n) (tree pool (d + n)) fs
              (field f.name f.number shape acc) m more' later),
      )

  module _ (is_pool : IsPool pool) (names : List Bytes)
      (build : ℕ → Building → Built GrpcMessageMeta)
      (good : (h : ℕ) (st : Building)
        → h < pool.messages
        → IsBuilding names st
        → IsGood names (IsMetaOf h) (build h st)) where
    build_kind-IsGood :
        (c : KindCase) (st : Building)
        → IsKindIn pool.messages c
        → IsBuilding names st
        → IsGood names (λ k. (d : ℕ) × (tree_kind (tree pool d) c ≡ some k)) (build_kind build c st)
    unfolding build_kind tree_kind
    build_kind-IsGood (plain k) st inside h = (h, (0, refl))
    build_kind-IsGood (nested g) st inside h =
        IsGood-bind names names _ _ (build g st) _ (good g st inside h)
          (λ st' m h' found. (h', (found.0, ap (Option.map GrpcValueKind.message) found.1)))

    build_entry-IsGood :
        (entry : ℕ) (k v : Option FieldDescriptor) (st : Building)
        → pool.get_field_by_name entry value_name ≡ v
        → IsBuilding names st
        → IsGood names
            (λ s. (d : ℕ) × (tree_entry (tree pool d) k v ≡ some s))
            (build_entry build k v st)
    unfolding build_entry tree_entry
    build_entry-IsGood entry none v st e h = tt
    build_entry-IsGood entry (some k) none st e h = tt
    build_entry-IsGood entry (some k) (some v) st e h =
        IsGood-bind names names _ _ (build_kind build (split_kind v.kind) st) _
          (build_kind-IsGood (split_kind v.kind) st (is_pool.entry_inside entry value_name v e) h)
          (λ st' m h' found. (h', (found.0, ap (Option.map (map_of (key_kind k.kind))) found.1)))

    build_map-IsGood :
        (c : KindCase) (st : Building)
        → IsBuilding names st
        → IsGood names
            (λ s. (d : ℕ) × (tree_map pool (tree pool d) c ≡ some s))
            (build_map pool build c st)
    unfolding build_map tree_map
    build_map-IsGood (plain k) st h = tt
    build_map-IsGood (nested entry) st h =
        build_entry-IsGood entry (pool.get_field_by_name entry key_name) _ st refl h

    pub build_shape-IsGood :
        (f : FieldDescriptor) (st : Building)
        → IsKindIn pool.messages (split_kind f.kind)
        → IsBuilding names st
        → IsGood names (IsShapeOf f) (build_shape pool build f st)
    unfolding build_shape tree_shape
    build_shape-IsGood f st inside h = elim (Bool-cases f.is_map) [
      | inl map_field ↦ rw map_field (build_map-IsGood (split_kind f.kind) st h)
      | inr other_field ↦ rw other_field (
          IsGood-bind names names _ _ (build_kind build (split_kind f.kind) st) _
            (build_kind-IsGood (split_kind f.kind) st inside h)
            (λ st' m h' found. (h', (found.0, ap (Option.map (shape_of f.is_list)) found.1))))
    ]

    pub build_fields-IsGood :
        (fs : List FieldDescriptor) (acc : GrpcMessageMeta) (st : Building)
        → All (λ (f : FieldDescriptor). IsKindIn pool.messages (split_kind f.kind)) fs
        → IsBuilding names st
        → IsGood names (AreFieldsOf fs acc) (build_fields pool build fs acc st)
    unfolding build_fields tree_fields Option.bind
    build_fields-IsGood [] acc st inside h = (h, (0, refl))
    build_fields-IsGood (f ∷ fs) acc st inside h =
        IsGood-bind names names (IsShapeOf f) _ (build_shape pool build f st) _
          (build_shape-IsGood f st inside.0 h)
          (λ st' shape h' found.
            IsGood_mono names (AreFieldsOf fs (field f.name f.number shape acc)) _
              (build_fields pool build fs (field f.name f.number shape acc) st')
              (λ m rest. AreFieldsOf-cons f fs acc m shape found rest)
              (build_fields-IsGood fs (field f.name f.number shape acc) st' inside.1 h'))
