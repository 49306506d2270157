-- ===== src/Schema/Complete.antt =====
-- A message that has a tree is built: what a build refuses has none.
use mathlib.Core.Option
use wrkr.Prelude.{
  ℕ, ◌<◌, ◌≡◌, refl, ap, Option, none, some, Bool-cases, inl, inr, List, [], ◌∷◌, All,
}
use wrkr.Prelude.Results.{ok, ◌>>=◌}
use wrkr.Wire.{Bytes}
use wrkr.Messages.Kinds.{GrpcValueKind, GrpcFieldShape, GrpcMessageMeta, field}
use wrkr.Schema.Pool.{
  FieldDescriptor, DescriptorPool, IsPool, IsKindIn, KindCase, plain, nested, split_kind,
}
use wrkr.Schema.{
  Building, Built, build_kind, build_entry, build_map, build_shape, build_fields, key_name,
  value_name,
}
use wrkr.Schema.Tree.{tree, tree_kind, tree_entry, tree_map, tree_shape, tree_fields, bind-eq-some}
use wrkr.Schema.Sound.{IsBuilding}

module _ (pool : DescriptorPool) where
  -- A build succeeds with this, and leaves the names in progress as they were.
  abbrev pub Builds : {A : Type 0} → List Bytes → Built A → A → Type 0
  Builds names r a = (st : Building) × (r ≡ ok (st, a)) × IsBuilding pool names st

  pub Builds-bind :
      {A B : Type 0} (names after : List Bytes) (r : Built A) (a : A) (b : B)
      (rest : Building × A → Built B)
      → Builds names r a
      → ((st : Building) → IsBuilding pool names st → Builds after (rest (st, a)) b)
      → Builds after (r >>= rest) b
  Builds-bind names after r a b rest (st, e, is) next = rw e (next st is)

  module _ (is_pool : IsPool pool) (d : ℕ) (names : List Bytes)
      (build : ℕ → Building → Built GrpcMessageMeta)
      (builds : (h : ℕ) (m : GrpcMessageMeta) (st : Building)
        → h < pool.messages
        → tree pool d h ≡ some m
        → IsBuilding pool names st
        → Builds names (build h st) m) where
    build_kind-Builds :
        (c : KindCase) (k : GrpcValueKind) (st : Building)
        → IsKindIn pool.messages c
        → tree_kind (tree pool d) c ≡ some k
        → IsBuilding pool names st
        → Builds names (build_kind build c st) k
    unfolding build_kind tree_kind
    build_kind-Builds (plain j) k st inside e is =
        let same : j ≡ k = cc in (st, ap (λ i. ok (st, i)) same, is)
    build_kind-Builds (nested h) k st inside e is =
        let (m, found, made) = (Option.map-eq-some_iff _ (tree pool d h)).0 e in
        Builds-bind names names (build h st) m k _ (builds h m st inside found is)
          (λ st' is'. (st', ap (λ i. ok (st', i)) made, is'))

    build_entry-Builds :
        (entry : ℕ) (k v : Option FieldDescriptor) (s : GrpcFieldShape) (st : Building)
        → pool.get_field_by_name entry value_name ≡ v
        → tree_entry (tree pool d) k v ≡ some s
        → IsBuilding pool names st
        → Builds names (build_entry build k v st) s
    unfolding build_entry tree_entry
    build_entry-Builds entry none v s st found e is = cc
    build_entry-Builds entry (some k) none s st found e is = cc
    build_entry-Builds entry (some k) (some v) s st found e is =
        let (kind, has, made) =
          (Option.map-eq-some_iff _ (tree_kind (tree pool d) (split_kind v.kind))).0 e in
        Builds-bind names names (build_kind build (split_kind v.kind) st) kind s _
          (build_kind-Builds (split_kind v.kind) kind st
            (is_pool.entry_inside entry value_name v found) has is)
          (λ st' is'. (st', ap (λ i. ok (st', i)) made, is'))

    build_map-Builds :
        (c : KindCase) (s : GrpcFieldShape) (st : Building)
        → tree_map pool (tree pool d) c ≡ some s
        → IsBuilding pool names st
        → Builds names (build_map pool build c st) s
    unfolding build_map tree_map
    build_map-Builds (plain k) s st e is = cc
    build_map-Builds (nested entry) s st e is =
        build_entry-Builds entry (pool.get_field_by_name entry key_name) _ s st refl e is

    pub build_shape-Builds :
        (f : FieldDescriptor) (s : GrpcFieldShape) (st : Building)
        → IsKindIn pool.messages (split_kind f.kind)
        → tree_shape pool (tree pool d) f ≡ some s
        → IsBuilding pool names st
        → Builds names (build_shape pool build f st) s
    unfolding build_shape tree_shape
    build_shape-Builds f s st inside e is = elim (Bool-cases f.is_map) [
      | inl map_field ↦
          rw map_field (build_map-Builds (split_kind f.kind) s st (rw map_field at e) is)
      | inr other_field ↦
          let (kind, has, made) =
            (Option.map-eq-some_iff _ (tree_kind (tree pool d) (split_kind f.kind))).0
              (rw other_field at e) in
          rw other_field (
            Builds-bind names names (build_kind build (split_kind f.kind) st) kind s _
              (build_kind-Builds (split_kind f.kind) kind st inside has is)
              (λ st' is'. (st', ap (λ i. ok (st', i)) made, is')))
    ]

    pub build_fields-Builds :
        (fs : List FieldDescriptor) (acc m : GrpcMessageMeta) (st : Building)
        → All (λ (f : FieldDescriptor). IsKindIn pool.messages (split_kind f.kind)) fs
        → tree_fields pool (tree pool d) fs acc ≡ some m
        → IsBuilding pool names st
        → Builds names (build_fields pool build fs acc st) m
    unfolding build_fields tree_fields Option.bind
    build_fields-Builds [] acc m st inside e is =
        let same : acc ≡ m = cc in (st, ap (λ i. ok (st, i)) same, is)
    build_fields-Builds (f ∷ fs) acc m st inside e is =
        let (s, found, later) = bind-eq-some _ (tree_shape pool (tree pool d) f) m e in
        Builds-bind names names (build_shape pool build f st) s m _
          (build_shape-Builds f s st inside.0 found is)
          (λ st' is'. build_fields-Builds fs (field f.name f.number s acc) m st' inside.1 later is')
