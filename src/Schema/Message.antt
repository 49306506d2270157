-- ===== src/Schema/Message.antt =====
-- The recursion on messages: with fuel for every message that is not in progress, the tables of a
-- message are its tree.
use wrkr.Prelude.{
  ℕ, zero, suc, ◌<◌, ◌≡◌, refl, sym, ap, subst, Bool, true, false, Option, none, some, Bool-cases,
  inl, inr, List, ◌∷◌, arith,
}
use wrkr.Wire.{Bytes}
use wrkr.Messages.Kinds.{GrpcMessageMeta, no_fields, bytes_eq}
use wrkr.Messages.Objects.{bytes_eq_iff}
use wrkr.Schema.Pool.{DescriptorPool, IsPool}
use wrkr.Prelude.Results.{ok, ◌>>=◌}
use wrkr.Schema.{
  Building, Built, get_cached, contains, begin, finish, build_fields, build_new, build_message,
  build_message_meta,
}
use wrkr.Schema.Tree.{tree}
use wrkr.Schema.Fuel.{remaining, remaining-lt, remove-cons}
use wrkr.Schema.Sound.{
  IsMetaOf, AreFieldsOf, IsCache, IsBuilding, IsGood, IsGood-bind, build_fields-IsGood,
}

module _ (pool : DescriptorPool) (is_pool : IsPool pool) where
  -- A finished message goes into the cache.
  IsCache-cons :
      (h : ℕ) (m : GrpcMessageMeta) (cache : List (Bytes × GrpcMessageMeta))
      → IsMetaOf pool h m
      → IsCache pool cache
      → IsCache pool ((pool.full_name h, m) ∷ cache)
  unfolding get_cached
  IsCache-cons h m cache found cached g n e =
      elim (Bool-cases (bytes_eq (pool.full_name h) (pool.full_name g))) [
        | inl same ↦
            let here : h ≡ g =
              is_pool.one_name h g ((bytes_eq_iff (pool.full_name h) (pool.full_name g)).0 same) in
            let value : m ≡ n = ground (arith, same) in
            subst (λ k. IsMetaOf pool k n) here (subst (IsMetaOf pool h) value found)
        | inr other ↦ cached g n (rw other at e)
      ]

  pub finish-IsBuilding :
      (h : ℕ) (m : GrpcMessageMeta) (names : List Bytes) (st : Building)
      → contains (pool.full_name h) names ≡ false
      → AreFieldsOf pool (pool.fields h) no_fields m
      → IsBuilding pool (pool.full_name h ∷ names) st
      → IsBuilding pool names (finish (pool.full_name h) (st, m)).0 × IsMetaOf pool h m
  unfolding tree
  finish-IsBuilding h m names st fresh (d, found) (cached, named) =
      let is_meta : IsMetaOf pool h m = (suc d, found) in
      (
        (
          IsCache-cons h m st.message_cache is_meta cached,
          rw named (remove-cons (pool.full_name h) names fresh),
        ),
        is_meta,
      )

  finished :
      (names : List Bytes) (r : Built GrpcMessageMeta) (h : ℕ)
      → contains (pool.full_name h) names ≡ false
      → IsGood pool (pool.full_name h ∷ names) (AreFieldsOf pool (pool.fields h) no_fields) r
      → IsGood pool names (IsMetaOf pool h) (r >>= λ p. ok (finish (pool.full_name h) p))
  finished names r h fresh good =
      IsGood-bind pool (pool.full_name h ∷ names) names (AreFieldsOf pool (pool.fields h) no_fields)
        (IsMetaOf pool h) r _ good (λ st m is found. finish-IsBuilding h m names st fresh found is)

  module _ (fuel : ℕ)
      (good : (names : List Bytes) (h : ℕ) (st : Building)
        → h < pool.messages
        → remaining pool pool.messages names < fuel
        → IsBuilding pool names st
        → IsGood pool names (IsMetaOf pool h) (build_message_meta pool fuel h st)) where
    build_new-IsGood :
        (names : List Bytes) (h : ℕ) (st : Building) (started : Bool)
        → contains (pool.full_name h) names ≡ started
        → h < pool.messages
        → remaining pool pool.messages names < suc fuel
        → IsBuilding pool names st
        → IsGood pool names
            (IsMetaOf pool h)
            (build_new pool (build_message_meta pool fuel) h started st)
    unfolding build_new
    build_new-IsGood names h st true e inside enough is = tt
    build_new-IsGood names h st false e inside enough is =
        let key = pool.full_name h in
        let fewer : remaining pool pool.messages (key ∷ names) < fuel =
          omega (arith, remaining-lt pool pool.messages h names inside e) in
        let fields_good =
          build_fields-IsGood pool is_pool (key ∷ names) (build_message_meta pool fuel)
            (λ g st' below is'. good (key ∷ names) g st' below fewer is') (pool.fields h) no_fields
            (begin key st) (is_pool.inside h) (is.0, ap (◌∷◌ key) is.1) in
        finished names
          (build_fields pool (build_message_meta pool fuel) (pool.fields h) no_fields
            (begin key st))
          h e fields_good

    build_message-IsGood :
        (names : List Bytes) (h : ℕ) (st : Building) (cached : Option GrpcMessageMeta)
        → get_cached (pool.full_name h) st.message_cache ≡ cached
        → h < pool.messages
        → remaining pool pool.messages names < suc fuel
        → IsBuilding pool names st
        → IsGood pool names
            (IsMetaOf pool h)
            (build_message pool (build_message_meta pool fuel) h cached st)
    unfolding build_message
    build_message-IsGood names h st (some m) e inside enough is = (is, is.0 h m e)
    build_message-IsGood names h st none e inside enough is =
        build_new-IsGood names h st (contains (pool.full_name h) st.message_in_progress)
          (sym (ap (contains (pool.full_name h)) is.1)) inside enough is

  pub build_message_meta-IsGood :
      (fuel : ℕ) (names : List Bytes) (h : ℕ) (st : Building)
      → h < pool.messages
      → remaining pool pool.messages names < fuel
      → IsBuilding pool names st
      → IsGood pool names (IsMetaOf pool h) (build_message_meta pool fuel h st)
  unfolding build_message_meta
  build_message_meta-IsGood zero names h st inside enough is = absurd (omega arith)
  build_message_meta-IsGood (suc fuel) names h st inside enough is =
      build_message-IsGood fuel (build_message_meta-IsGood fuel) names h st
        (get_cached (pool.full_name h) st.message_cache) refl inside enough is
