-- ===== src/Schema/Tree.antt =====
-- What the tables of a message should be: the tree of its fields down to a depth, without a cache
-- and without the set of messages in progress.
use mathlib.Core.Option
use wrkr.Prelude.{
  ℕ, zero, suc, ◌+◌, ◌-◌, ◌≤◌, ◌≡◌, refl, ap, subst, Option, none, some, Option-cases, inl, inr,
  List, [], ◌∷◌, arith, Bool-cases, if◌then◌else◌,
}
use wrkr.Messages.Kinds.{GrpcValueKind, GrpcFieldShape, map_of, GrpcMessageMeta, no_fields, field}
use wrkr.Schema.Pool.{
  FieldDescriptor, DescriptorPool, KindCase, plain, nested, split_kind, key_kind,
}
use wrkr.Schema.{shape_of, key_name, value_name}

abbrev pub Trees : Type 0
Trees = ℕ → Option GrpcMessageMeta

unfoldable pub tree_kind : Trees → KindCase → Option GrpcValueKind
tree_kind trees (plain k) = some k
tree_kind trees (nested h) = Option.map GrpcValueKind.message (trees h)

unfoldable pub tree_entry :
    Trees → Option FieldDescriptor → Option FieldDescriptor → Option GrpcFieldShape
tree_entry trees none v = none
tree_entry trees (some k) none = none
tree_entry trees (some k) (some v) =
    Option.map (map_of (key_kind k.kind)) (tree_kind trees (split_kind v.kind))

module _ (pool : DescriptorPool) where
  unfoldable pub tree_map : Trees → KindCase → Option GrpcFieldShape
  tree_map trees (plain k) = none
  tree_map trees (nested h) =
      tree_entry trees (pool.get_field_by_name h key_name) (pool.get_field_by_name h value_name)

  unfoldable pub tree_shape : Trees → FieldDescriptor → Option GrpcFieldShape
  tree_shape trees f =
      if f.is_map
      then tree_map trees (split_kind f.kind)
      else Option.map (shape_of f.is_list) (tree_kind trees (split_kind f.kind))

  unfoldable pub tree_fields :
      Trees → List FieldDescriptor → GrpcMessageMeta → Option GrpcMessageMeta
  unfolding Option.bind
  tree_fields trees [] acc = some acc
  tree_fields trees (f ∷ fs) acc =
      Option.bind (tree_shape trees f)
        (λ (shape : GrpcFieldShape). tree_fields trees fs (field f.name f.number shape acc))

  unfoldable pub tree : ℕ → Trees
  tree zero h = none
  tree (suc depth) h = tree_fields (tree depth) (pool.fields h) no_fields

abbrev pub Extends : Trees → Trees → Type 0
Extends s t = (h : ℕ) (m : GrpcMessageMeta) → s h ≡ some m → t h ≡ some m

tree_kind_mono :
    (s t : Trees) (c : KindCase) (k : GrpcValueKind)
    → Extends s t
    → tree_kind s c ≡ some k
    → tree_kind t c ≡ some k
unfolding tree_kind
tree_kind_mono s t (plain j) k more e = e
tree_kind_mono s t (nested h) k more e = elim (Option-cases (s h)) [
  | inl nothing ↦ ground (arith, nothing)
  | inr (m, found) ↦ ground (arith, found, more h m found)
]

pub bind-eq-some :
    {A B : Type 0} (f : A → Option B) (o : Option A) (b : B)
    → Option.bind o f ≡ some b
    → (a : A) × (o ≡ some a) × (f a ≡ some b)
unfolding Option.bind
bind-eq-some f none b e = cc
bind-eq-some f (some a) b e = (a, refl, e)

tree_entry_mono :
    (s t : Trees) (k v : Option FieldDescriptor) (shape : GrpcFieldShape)
    → Extends s t
    → tree_entry s k v ≡ some shape
    → tree_entry t k v ≡ some shape
unfolding tree_entry
tree_entry_mono s t none v shape more e = cc
tree_entry_mono s t (some k) none shape more e = cc
tree_entry_mono s t (some k) (some v) shape more e =
    let (kind, found, made) = (Option.map-eq-some_iff _ (tree_kind s (split_kind v.kind))).0 e in
    rw (tree_kind_mono s t (split_kind v.kind) kind more found) (ap some made)

module _ (pool : DescriptorPool) where
  tree_map_mono :
      (s t : Trees) (c : KindCase) (shape : GrpcFieldShape)
      → Extends s t
      → tree_map pool s c ≡ some shape
      → tree_map pool t c ≡ some shape
  unfolding tree_map
  tree_map_mono s t (plain k) shape more e = cc
  tree_map_mono s t (nested h) shape more e =
      tree_entry_mono s t (pool.get_field_by_name h key_name) (pool.get_field_by_name h value_name)
        shape more e

  pub tree_shape_mono :
      (s t : Trees) (f : FieldDescriptor) (shape : GrpcFieldShape)
      → Extends s t
      → tree_shape pool s f ≡ some shape
      → tree_shape pool t f ≡ some shape
  unfolding tree_shape
  tree_shape_mono s t f shape more e = elim (Bool-cases f.is_map) [
    | inl map_field ↦
        rw map_field (tree_map_mono s t (split_kind f.kind) shape more (rw map_field at e))
    | inr other_field ↦
        let (kind, found, made) =
          (Option.map-eq-some_iff _ (tree_kind s (split_kind f.kind))).0 (rw other_field at e) in
        rw other_field (rw (tree_kind_mono s t (split_kind f.kind) kind more found) (ap some made))
  ]

  pub tree_fields_mono :
      (s t : Trees) (fs : List FieldDescriptor) (acc m : GrpcMessageMeta)
      → Extends s t
      → tree_fields pool s fs acc ≡ some m
      → tree_fields pool t fs acc ≡ some m
  unfolding tree_fields Option.bind
  tree_fields_mono s t [] acc m more e = e
  tree_fields_mono s t (f ∷ fs) acc m more e =
      let (shape, found, later) = bind-eq-some _ (tree_shape pool s f) m e in
      rw (tree_shape_mono s t f shape more found)
        (tree_fields_mono s t fs (field f.name f.number shape acc) m more later)

  -- A tree that a depth is enough for is the same at every greater depth.
  pub tree-suc : (d : ℕ) → Extends (tree pool d) (tree pool (suc d))
  unfolding tree
  tree-suc zero h m e = cc
  tree-suc (suc d) h m e =
      tree_fields_mono (tree pool d) (tree pool (suc d)) (pool.fields h) no_fields m (tree-suc d) e

  pub tree-add : (d k : ℕ) → Extends (tree pool d) (tree pool (k + d))
  tree-add d zero h m e = subst (λ n. tree pool n h ≡ some m) (omega arith) e
  tree-add d (suc k) h m e =
      subst (λ n. tree pool n h ≡ some m) (omega arith) (tree-suc (k + d) h m (tree-add d k h m e))

  pub tree_mono : (d n : ℕ) → d ≤ n → Extends (tree pool d) (tree pool n)
  tree_mono d n le h m e =
      subst (λ k. tree pool k h ≡ some m) (omega arith) (tree-add d (n - d) h m e)
