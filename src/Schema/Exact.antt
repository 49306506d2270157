-- ===== src/Schema/Exact.antt =====
-- The tables of a method are built exactly when its messages have trees.
use wrkr.Prelude.{
  ℕ, zero, suc, ◌+◌, ◌<◌, ◌≡◌, refl, ap, ◌∙◌, subst, true, false, Option, none, some, Option-cases,
  Bool-cases, inl, inr, List, ◌∷◌, arith,
}
use wrkr.Prelude.Results.{ok}
use wrkr.Wire.{Bytes}
use wrkr.Messages.Kinds.{GrpcMessageMeta, no_fields, bytes_eq}
use wrkr.Messages.Objects.{bytes_eq_iff}
use wrkr.Schema.Pool.{DescriptorPool, IsPool}
use wrkr.Schema.{
  Building, get_cached, contains, begin, finish, build_fields, build_new, build_message,
  build_message_meta,
}
use wrkr.Schema.Tree.{tree, tree-suc, tree_mono}
use wrkr.Schema.Fuel.{remaining, remaining-lt}
use wrkr.Schema.Sound.{IsBuilding}
use wrkr.Schema.Message.{finish-IsBuilding}
use wrkr.Schema.Complete.{Builds, Builds-bind, build_fields-Builds}

module _ (pool : DescriptorPool) where
  tree-zero : (h : ℕ) (m : GrpcMessageMeta) → tree pool zero h ≡ some m → ⊥
  unfolding tree
  tree-zero h m e = cc

  pub tree_unique :
      (h d n : ℕ) (a b : GrpcMessageMeta) → tree pool d h ≡ some a → tree pool n h ≡ some b → a ≡ b
  tree_unique h d n a b ea eb =
      let one = tree_mono pool d (d + n) (omega arith) h a ea in
      let two = tree_mono pool n (d + n) (omega arith) h b eb in cc

  -- The messages in progress have no tree of this depth.
  abbrev pub Blocked : ℕ → List Bytes → Type 0
  Blocked d names = (h : ℕ) → contains (pool.full_name h) names ≡ true → tree pool d h ≡ none

  none-suc : (d h : ℕ) → tree pool (suc d) h ≡ none → tree pool d h ≡ none
  none-suc d h e = elim (Option-cases (tree pool d h)) [
    | inl nothing ↦ nothing
    | inr (m, found) ↦ let more = tree-suc pool d h m found in cc
  ]

  module _ (is_pool : IsPool pool) where
    Blocked-cons :
        (d h : ℕ) (names : List Bytes)
        → Blocked (suc d) names
        → tree pool d h ≡ none
        → Blocked d (pool.full_name h ∷ names)
    unfolding contains
    Blocked-cons d h names blocked nothing g e =
        elim (Bool-cases (bytes_eq (pool.full_name h) (pool.full_name g))) [
          | inl same ↦
              let here : h ≡ g =
                is_pool.one_name h g
                  ((bytes_eq_iff (pool.full_name h) (pool.full_name g)).0 same) in
              subst (λ i. tree pool d i ≡ none) here nothing
          | inr other ↦ none-suc d g (blocked g (rw other at e))
        ]

    module _ (d fuel : ℕ)
        (builds : (names : List Bytes) (h : ℕ) (m : GrpcMessageMeta) (st : Building)
          → h < pool.messages
          → remaining pool pool.messages names < fuel
          → Blocked d names
          → tree pool d h ≡ some m
          → IsBuilding pool names st
          → Builds pool names (build_message_meta pool fuel h st) m) where
      build_new-Builds :
          (names : List Bytes) (h : ℕ) (m : GrpcMessageMeta) (st : Building)
          → h < pool.messages
          → remaining pool pool.messages names < suc fuel
          → Blocked (suc d) names
          → tree pool d h ≡ none
          → tree pool (suc d) h ≡ some m
          → contains (pool.full_name h) names ≡ false
          → IsBuilding pool names st
          → Builds pool names (build_new pool (build_message_meta pool fuel) h false st) m
      unfolding build_new tree
      build_new-Builds names h m st inside enough blocked nothing found fresh is =
          let key = pool.full_name h in
          let fewer : remaining pool pool.messages (key ∷ names) < fuel =
            omega (arith, remaining-lt pool pool.messages h names inside fresh) in
          Builds-bind pool (key ∷ names) names
            (build_fields pool (build_message_meta pool fuel) (pool.fields h) no_fields
              (begin key st))
            m m _
            (build_fields-Builds pool is_pool d (key ∷ names) (build_message_meta pool fuel)
              (λ g n st' below has is'.
                builds (key ∷ names) g n st' below fewer (Blocked-cons d h names blocked nothing)
                  has is')
              (pool.fields h) no_fields m (begin key st) (is_pool.inside h) found
              (is.0, ap (◌∷◌ key) is.1))
            (λ st' is'. (
              (finish key (st', m)).0,
              refl,
              (finish-IsBuilding pool is_pool h m names st' fresh (d, found) is').0,
            ))

      build_message-Builds :
          (names : List Bytes) (h : ℕ) (m : GrpcMessageMeta) (st : Building)
          (cached : Option GrpcMessageMeta)
          → get_cached (pool.full_name h) st.message_cache ≡ cached
          → h < pool.messages
          → remaining pool pool.messages names < suc fuel
          → Blocked (suc d) names
          → tree pool d h ≡ none
          → tree pool (suc d) h ≡ some m
          → IsBuilding pool names st
          → Builds pool names (build_message pool (build_message_meta pool fuel) h cached st) m
      unfolding build_message
      build_message-Builds names h m st (some n) e inside enough blocked nothing found is =
          let (depth, other) = is.0 h n e in
          let same : n ≡ m = tree_unique h depth (suc d) n m other found in
          (st, ap (λ i. ok (st, i)) same, is)
      build_message-Builds names h m st none e inside enough blocked nothing found is =
          let started = ap (contains (pool.full_name h)) is.1 in
          elim (Bool-cases (contains (pool.full_name h) names)) [
            | inl yes_there ↦ let never = blocked h yes_there in absurd cc
            | inr fresh ↦
                rw (started ∙ fresh)
                  (build_new-Builds names h m st inside enough blocked nothing found fresh is)
          ]

    pub build_message_meta-Builds :
        (d fuel : ℕ) (names : List Bytes) (h : ℕ) (m : GrpcMessageMeta) (st : Building)
        → h < pool.messages
        → remaining pool pool.messages names < fuel
        → Blocked d names
        → tree pool d h ≡ some m
        → IsBuilding pool names st
        → Builds pool names (build_message_meta pool fuel h st) m
    unfolding build_message_meta
    build_message_meta-Builds zero fuel names h m st inside enough blocked found is =
        absurd (tree-zero h m found)
    build_message_meta-Builds (suc d) zero names h m st inside enough blocked found is =
        absurd (omega arith)
    build_message_meta-Builds (suc d) (suc fuel) names h m st inside enough blocked found is =
        elim (Option-cases (tree pool d h)) [
          | inl nothing ↦
              build_message-Builds d fuel (build_message_meta-Builds d fuel) names h m st
                (get_cached (pool.full_name h) st.message_cache) refl inside enough blocked nothing
                found is
          | inr (n, earlier) ↦
              let same : n ≡ m = tree_unique h d (suc d) n m earlier found in
              build_message_meta-Builds d (suc fuel) names h m st inside enough
                (λ g e. none-suc d g (blocked g e))
                (subst (λ i. tree pool d h ≡ some i) same earlier) is
        ]
