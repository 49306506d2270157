-- ===== src/Metrics/Tags.antt =====
-- Tag sets: order, lookup, projection and equality.
use wrkr.Prelude.{
  ℕ, ◌+◌, ◌<◌, ◌≤◌, ◌≡◌, refl, true, some, Option-cases, Bool-cases, ◌⊎◌, inl, inr, List, [], ◌∷◌,
  map, length, ltb, arith, ◌↔◌,
}
use wrkr.Metrics.{TagSet, get, partition_point, project, insert_sorted, sort, tags_eq}

abbrev pub key_of : ℕ × ℕ → ℕ
key_of (k, v) = k

-- Ascending, equal neighbours allowed, and strictly ascending.
unfoldable pub IsAscending : List ℕ → Type 0
IsAscending [] = Unit {0}
IsAscending (a ∷ []) = Unit {0}
IsAscending (a ∷ b ∷ ks) = (a ≤ b) × IsAscending (b ∷ ks)

unfoldable pub IsStrict : List ℕ → Type 0
IsStrict [] = Unit {0}
IsStrict (a ∷ []) = Unit {0}
IsStrict (a ∷ b ∷ ks) = (a < b) × IsStrict (b ∷ ks)

insert_sorted-IsAscending :
    (p : ℕ × ℕ) (tags : TagSet)
    → IsAscending (map key_of tags)
    → IsAscending (map key_of (insert_sorted p tags))
unfolding insert_sorted IsAscending
insert_sorted-IsAscending p [] h = tt
insert_sorted-IsAscending (k, v) ((j, w) ∷ []) h = ground arith
insert_sorted-IsAscending (k, v) ((j, w) ∷ (l, x) ∷ tags) h =
    ground (arith, insert_sorted-IsAscending (k, v) ((l, x) ∷ tags) h.1)

pub sort-IsAscending : (tags : TagSet) → IsAscending (map key_of (sort tags))
unfolding sort IsAscending
sort-IsAscending [] = tt
sort-IsAscending (p ∷ tags) = insert_sorted-IsAscending p (sort tags) (sort-IsAscending tags)

length-insert_sorted : (p : ℕ × ℕ) (tags : TagSet) → length (insert_sorted p tags) ≡ length tags + 1
unfolding insert_sorted
length-insert_sorted p [] = omega arith
length-insert_sorted p (q ∷ tags) = ground (arith, length-insert_sorted p tags)

pub length-sort : (tags : TagSet) → length (sort tags) ≡ length tags
unfolding sort
length-sort [] = refl
length-sort (p ∷ tags) = omega (arith, length-insert_sorted p (sort tags), length-sort tags)

-- Tags in strict order of their keys are sorted.
pub sort-IsStrict : (tags : TagSet) → IsStrict (map key_of tags) → sort tags ≡ tags
unfolding sort insert_sorted IsStrict
sort-IsStrict [] h = refl
sort-IsStrict (p ∷ []) h = refl
sort-IsStrict ((k, v) ∷ (j, w) ∷ tags) h = rw (sort-IsStrict ((j, w) ∷ tags) h.1) (ground arith)

pub tags_eq_iff : (xs ys : TagSet) → (tags_eq xs ys ≡ true) ↔ (xs ≡ ys)
unfolding tags_eq
tags_eq_iff [] [] = (λ e. refl, λ e. refl)
tags_eq_iff [] (q ∷ ys) = (λ e. cc, λ e. cc)
tags_eq_iff (p ∷ xs) [] = (λ e. cc, λ e. cc)
tags_eq_iff ((k, v) ∷ xs) ((j, w) ∷ ys) = ground (arith, tags_eq_iff xs ys)

pub length-project : (keys : List ℕ) (tags : TagSet) → length (project keys tags) ≤ length keys
unfolding project
length-project [] tags = omega arith
length-project (key ∷ keys) tags = ground (arith, length-project keys tags)

-- A projection that is as long as its keys has found each of them.
pub project_full :
    (keys : List ℕ) (tags : TagSet)
    → length (project keys tags) ≡ length keys
    → map key_of (project keys tags) ≡ keys
unfolding project
project_full [] tags h = refl
project_full (key ∷ keys) tags h = elim (Option-cases (get key tags)) [
  | inl missing ↦ absurd (ground (arith, missing, length-project keys tags))
  | inr (v, found) ↦ ground (arith, found, project_full keys tags)
]

abbrev pub HasTag : ℕ → ℕ → TagSet → Type 0
HasTag k v [] = ⊥
HasTag k v ((j, w) ∷ tags) = ((j ≡ k) × (w ≡ v)) ⊎ HasTag k v tags

IsStrict-above :
    (k v j w : ℕ) (tags : TagSet) → IsStrict (map key_of ((j, w) ∷ tags)) → HasTag k v tags → j < k
unfolding IsStrict
IsStrict-above k v j w [] h m = absurd m
IsStrict-above k v j w ((l, x) ∷ tags) h (inl m) = omega (arith, m.0, h.0)
IsStrict-above k v j w ((l, x) ∷ tags) h (inr m) =
    omega (arith, h.0, IsStrict-above k v l x tags h.1 m)

IsStrict-tail :
    (p : ℕ × ℕ) (tags : TagSet) → IsStrict (map key_of (p ∷ tags)) → IsStrict (map key_of tags)
unfolding IsStrict
IsStrict-tail p [] h = tt
IsStrict-tail p (q ∷ tags) h = h.1

-- In a tag set with each key once, in order, the search of `get` finds a value exactly when the set
-- has that tag.
pub get_iff :
    (k v : ℕ) (tags : TagSet) → IsStrict (map key_of tags) → (get k tags ≡ some v) ↔ HasTag k v tags
unfolding get partition_point
get_iff k v [] strict = (λ e. cc, λ e. absurd e)
get_iff k v ((j, w) ∷ tags) strict =
    let rest = get_iff k v tags (IsStrict-tail (j, w) tags strict) in
    let above = IsStrict-above k v j w tags strict in
    elim (Bool-cases (ltb j k)) [
      | inl lower ↦
          rw lower
            (λ e. inr (rest.0 e), λ (e : HasTag k v ((j, w) ∷ tags)). ground (arith, rest, e))
      | inr not_lower ↦
          rw not_lower
            (λ e. ground arith, λ (e : HasTag k v ((j, w) ∷ tags)). ground (arith, above, e))
    ]
