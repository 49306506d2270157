-- ===== src/Metrics.antt =====
-- wrkr-metrics/src/key.rs and tags.rs, `Registry::resolve_tags` of registry.rs, and the selector of
-- wrkr-core/src/thresholds_eval.rs: names as numbers, the tags of a series, and which series a
-- threshold reads.
-- The interner's two maps stand under one state: `get_or_intern` looks again once it holds both
-- write locks, so it is one transition. A `KeyId` is its number.
pub mod Interning
pub mod Tags
pub mod Selection
mod Runs
use wrkr.Prelude.{
  ℕ, suc, ◌+◌, ◌%◌, ◌^◌, Bool, true, false, ◌&&◌, ◌||◌, Option, none, some, String, List, [], ◌∷◌,
  ◌++◌, map, length, get_elem?, ltb, leb, ◌==◌, if◌then◌else◌,
}
use wrkr.Prelude.Dict.{Dict, lookup, insert}

pub record Interner : Type 0 where
  pub ids : Dict ℕ
  pub names : List String

abbrev pub new : Interner
new = record { ids = []; names = [] }

-- The number of a new name is `vec.len() as u32`.
unfoldable pub get_or_intern : String → Interner → Interner × ℕ
get_or_intern s i = elim (lookup s i.ids) [
  | some id ↦ (i, id)
  | none ↦
      let id = length i.names % 2 ^ 32 in
      (record { ids = insert s id i.ids; names = i.names ++ (s ∷ []) }, id)
]

unfoldable pub resolve : ℕ → Interner → Option String
resolve id i = get_elem? i.names id

abbrev pub TagSet : Type 0
TagSet = List (ℕ × ℕ)

-- `slice.partition_point(|(k, _)| *k < key)` of a slice that is in the order of its keys.
unfoldable pub partition_point : ℕ → TagSet → ℕ
partition_point key [] = 0
partition_point key ((k, v) ∷ tags) =
    let rest = partition_point key tags in if ltb k key then suc rest else 0

abbrev pub value_of : ℕ → Option (ℕ × ℕ) → Option ℕ
value_of key none = none
value_of key (some (k, v)) = if k == key then some v else none

unfoldable pub get : ℕ → TagSet → Option ℕ
unfolding partition_point
get key tags = value_of key (get_elem? tags (partition_point key tags))

abbrev pub push_found : ℕ → Option ℕ → TagSet → TagSet
push_found key none out = out
push_found key (some value) out = (key, value) ∷ out

unfoldable pub project : List ℕ → TagSet → TagSet
unfolding get
project [] tags = []
project (key ∷ keys) tags = push_found key (get key tags) (project keys tags)

-- The derived order of pairs.
abbrev pub pair_leb : ℕ × ℕ → ℕ × ℕ → Bool
pair_leb (k, v) (j, w) = ltb k j || (k == j && leb v w)

pub insert_sorted : ℕ × ℕ → TagSet → TagSet
insert_sorted p [] = p ∷ []
insert_sorted p (q ∷ tags) =
    let rest = insert_sorted p tags in if pair_leb p q then p ∷ q ∷ tags else q ∷ rest

-- `sort_unstable`: pairs that compare as equal are the same, so every sort gives the same list.
pub sort : TagSet → TagSet
unfolding insert_sorted
sort [] = []
sort (p ∷ tags) = insert_sorted p (sort tags)

-- `resolve_key` of each name, in order.
pub resolve_keys : List String → Interner → Interner × List ℕ
unfolding get_or_intern
resolve_keys [] i = (i, [])
resolve_keys (k ∷ ks) i =
    let (i₁, id) = get_or_intern k i in let (i₂, ids) = resolve_keys ks i₁ in (i₂, id ∷ ids)

pub resolve_pairs : List (String × String) → Interner → Interner × TagSet
unfolding get_or_intern
resolve_pairs [] i = (i, [])
resolve_pairs ((k, v) ∷ tags) i =
    let (i₁, key) = get_or_intern k i in
    let (i₂, value) = get_or_intern v i₁ in
    let (i₃, resolved) = resolve_pairs tags i₂ in (i₃, (key, value) ∷ resolved)

pub resolve_tags : List (String × String) → Interner → Interner × TagSet
unfolding resolve_pairs sort
resolve_tags tags i = let (i', resolved) = resolve_pairs tags i in (i', sort resolved)

pub data TagSelector : Type 0 where
  all : TagSelector
  selector : (keys : List ℕ) (tags : TagSet) → TagSelector

abbrev pub name_of : String × String → String
name_of (k, v) = k

-- `TagSelector::new`
unfoldable pub new_selector : List (String × String) → Interner → Interner × TagSelector
unfolding resolve_keys resolve_tags
new_selector [] i = (i, all)
new_selector (t ∷ ts) i =
    let (i₁, keys) = resolve_keys (map name_of (t ∷ ts)) i in
    let (i₂, tags) = resolve_tags (t ∷ ts) i₁ in (i₂, selector keys tags)

-- `==` on tag sets.
unfoldable pub tags_eq : TagSet → TagSet → Bool
tags_eq [] [] = true
tags_eq [] (q ∷ ys) = false
tags_eq (p ∷ xs) [] = false
tags_eq ((k, v) ∷ xs) ((j, w) ∷ ys) = (k == j && v == w) && tags_eq xs ys

unfoldable pub matches : TagSelector → TagSet → Bool
unfolding project tags_eq
matches all series_tags = true
matches (selector keys tags) series_tags = tags_eq (project keys series_tags) tags
