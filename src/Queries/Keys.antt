-- ===== src/Queries/Keys.antt =====
-- The keys of a query's groups: in strict order, and those that were given.
use wrkr.Prelude.{
  ℕ, ◌<◌, ◌≡◌, refl, ◌∙◌, Bool, false, ◌||◌, Bool-cases, inl, inr, List, [], ◌∷◌, arith, ◌==◌,
}
use wrkr.Metrics.Tags.{IsAscending, IsStrict}
use wrkr.Queries.{Query, insert_key, sort_keys, dedup, group_by}

abbrev pub has_key : ℕ → List ℕ → Bool
has_key k [] = false
has_key k (j ∷ keys) = j == k || has_key k keys

insert_key-IsAscending :
    (k : ℕ) (keys : List ℕ) → IsAscending keys → IsAscending (insert_key k keys)
unfolding insert_key IsAscending
insert_key-IsAscending k [] h = tt
insert_key-IsAscending k (j ∷ []) h = ground arith
insert_key-IsAscending k (j ∷ i ∷ keys) h = ground (arith, insert_key-IsAscending k (i ∷ keys) h.1)

sort_keys-IsAscending : (keys : List ℕ) → IsAscending (sort_keys keys)
unfolding sort_keys IsAscending
sort_keys-IsAscending [] = tt
sort_keys-IsAscending (k ∷ keys) =
    insert_key-IsAscending k (sort_keys keys) (sort_keys-IsAscending keys)

abbrev Above : ℕ → List ℕ → Type 0
Above k [] = Unit
Above k (j ∷ keys) = k < j

IsStrict-cons : (k : ℕ) (keys : List ℕ) → Above k keys → IsStrict keys → IsStrict (k ∷ keys)
unfolding IsStrict
IsStrict-cons k [] above strict = tt
IsStrict-cons k (j ∷ keys) above strict = (above, strict)

dedup-Above :
    (k j : ℕ) (keys : List ℕ) → k < j → IsAscending (j ∷ keys) → Above k (dedup (j ∷ keys))
unfolding dedup IsAscending
dedup-Above k j [] lt h = lt
dedup-Above k j (i ∷ keys) lt h = elim (Bool-cases (j == i)) [
  | inl same ↦ rw same (dedup-Above k i keys (omega (arith, h.0)) h.1)
  | inr other ↦ rw other lt
]

dedup-IsStrict : (keys : List ℕ) → IsAscending keys → IsStrict (dedup keys)
unfolding dedup IsAscending IsStrict
dedup-IsStrict [] h = tt
dedup-IsStrict (k ∷ []) h = tt
dedup-IsStrict (k ∷ j ∷ keys) h = elim (Bool-cases (k == j)) [
  | inl same ↦ rw same (dedup-IsStrict (j ∷ keys) h.1)
  | inr other ↦ rw other (
      IsStrict-cons k (dedup (j ∷ keys)) (dedup-Above k j keys (ground (arith, h.0, other)) h.1)
        (dedup-IsStrict (j ∷ keys) h.1))
]

has_key-insert_key :
    (i k : ℕ) (keys : List ℕ) → has_key i (insert_key k keys) ≡ has_key i (k ∷ keys)
unfolding insert_key
has_key-insert_key i k [] = refl
has_key-insert_key i k (j ∷ keys) = ground (arith, has_key-insert_key i k keys)

has_key-sort_keys : (i : ℕ) (keys : List ℕ) → has_key i (sort_keys keys) ≡ has_key i keys
unfolding sort_keys
has_key-sort_keys i [] = refl
has_key-sort_keys i (k ∷ keys) =
    ground (arith, has_key-insert_key i k (sort_keys keys), has_key-sort_keys i keys)

has_key-dedup : (i : ℕ) (keys : List ℕ) → has_key i (dedup keys) ≡ has_key i keys
unfolding dedup
has_key-dedup i [] = refl
has_key-dedup i (k ∷ []) = refl
has_key-dedup i (k ∷ j ∷ keys) = ground (arith, has_key-dedup i (j ∷ keys))

-- `group_by` keeps each of the keys it is given once, in strict order, and no other key.
pub group_by-IsStrict :
    (keys : List ℕ) (q : Query)
    → IsStrict (group_by keys q).group_keys
      × ((i : ℕ) → has_key i (group_by keys q).group_keys ≡ has_key i keys)
unfolding group_by
group_by-IsStrict keys q = (
  dedup-IsStrict (sort_keys keys) (sort_keys-IsAscending keys),
  λ i. has_key-dedup i (sort_keys keys) ∙ has_key-sort_keys i keys,
)
