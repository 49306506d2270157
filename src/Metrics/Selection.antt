-- ===== src/Metrics/Selection.antt =====
-- Which series the selector of a threshold takes.
use wrkr.Prelude.{
  ℕ, ◌+◌, ◌*◌, ◌^◌, ◌<◌, ◌≡◌, ◌↔◌, refl, sym, ap, ◌∙◌, subst, true, Option, none, some,
  Option-cases, inl, inr, String, List, [], ◌∷◌, map, length, All, arith,
}
use wrkr.Prelude.Dict.{lookup}
use wrkr.Metrics.{
  Interner, get_or_intern, TagSet, get, project, sort, resolve_keys, resolve_pairs, resolve_tags,
  name_of, new_selector, matches,
}
use wrkr.Metrics.Interning.{
  IsInterner, get_or_intern_keeps-IsInterner, get_or_intern-known, lookup-get_or_intern,
  lookup-get_or_intern_own, length-get_or_intern,
}
use wrkr.Metrics.Tags.{
  key_of, IsAscending, IsStrict, sort-IsAscending, length-sort, sort-IsStrict, tags_eq_iff,
  length-project, project_full,
}

-- A good interner with room for `n` more names.
abbrev IsRoomy : ℕ → Interner → Type 0
IsRoomy n i = IsInterner i × (length i.names + n < 2 ^ 32)

get_or_intern-IsRoomy :
    (s : String) (n : ℕ) (i : Interner) → IsRoomy (n + 1) i → IsRoomy n (get_or_intern s i).0
get_or_intern-IsRoomy s n i (wf, room) = (
  get_or_intern_keeps-IsInterner s i wf (omega arith),
  omega (arith, length-get_or_intern s i (omega arith)),
)

-- The names have these numbers.
abbrev Resolved : List String → List ℕ → Interner → Type 0
Resolved [] [] i = Unit {0}
Resolved [] (n ∷ ns) i = ⊥
Resolved (k ∷ ks) [] i = ⊥
Resolved (k ∷ ks) (n ∷ ns) i = (lookup k i.ids ≡ some n) × Resolved ks ns i

Resolved-get_or_intern :
    (s : String) (ks : List String) (ns : List ℕ) (i : Interner)
    → IsRoomy 1 i
    → Resolved ks ns i
    → Resolved ks ns (get_or_intern s i).0
Resolved-get_or_intern s [] [] i roomy h = tt
Resolved-get_or_intern s [] (n ∷ ns) i roomy h = h
Resolved-get_or_intern s (k ∷ ks) [] i roomy h = h
Resolved-get_or_intern s (k ∷ ks) (n ∷ ns) i roomy h = (
  lookup-get_or_intern s k n i roomy.0 (omega (arith, roomy.1)) h.0,
  Resolved-get_or_intern s ks ns i roomy h.1,
)

-- What `resolve_keys` does to a name that is already there.
lookup-resolve_keys :
    (ks : List String) (t : String) (n m : ℕ) (i : Interner)
    → IsRoomy (length ks + m) i
    → lookup t i.ids ≡ some n
    → lookup t (resolve_keys ks i).0.ids ≡ some n
unfolding resolve_keys
lookup-resolve_keys [] t n m i roomy h = h
lookup-resolve_keys (k ∷ ks) t n m i roomy h =
    let enough : IsRoomy (length ks + m + 1) i = (roomy.0, omega (arith, roomy.1)) in
    lookup-resolve_keys ks t n m (get_or_intern k i).0
      (get_or_intern-IsRoomy k (length ks + m) i enough)
      (lookup-get_or_intern k t n i roomy.0 (omega (arith, roomy.1)) h)

resolve_keys-Resolved :
    (ks : List String) (m : ℕ) (i : Interner)
    → IsRoomy (length ks + m) i
    → Resolved ks (resolve_keys ks i).1 (resolve_keys ks i).0 × IsRoomy m (resolve_keys ks i).0
unfolding resolve_keys
resolve_keys-Resolved [] m i roomy = (tt, (roomy.0, omega (arith, roomy.1)))
resolve_keys-Resolved (k ∷ ks) m i roomy =
    let enough : IsRoomy (length ks + m + 1) i = (roomy.0, omega (arith, roomy.1)) in
    let i' = (get_or_intern k i).0 in
    let roomy' = get_or_intern-IsRoomy k (length ks + m) i enough in
    let own = lookup-get_or_intern_own k i roomy.0 (omega (arith, roomy.1)) in
    let (rest, left) = resolve_keys-Resolved ks m i' roomy' in
    ((lookup-resolve_keys ks k (get_or_intern k i).1 m i' roomy' own, rest), left)

-- `resolve_pairs` gives keys that have numbers those numbers.
resolve_pairs_keys :
    (sel : List (String × String)) (ns : List ℕ) (i : Interner)
    → IsRoomy (2 * length sel) i
    → Resolved (map name_of sel) ns i
    → map key_of (resolve_pairs sel i).1 ≡ ns
unfolding resolve_pairs
resolve_pairs_keys [] [] i roomy h = refl
resolve_pairs_keys [] (n ∷ ns) i roomy h = absurd h
resolve_pairs_keys ((k, v) ∷ sel) [] i roomy h = absurd h
resolve_pairs_keys ((k, v) ∷ sel) (n ∷ ns) i roomy h =
    let enough : IsRoomy (2 * length sel + 1) i = (roomy.0, omega (arith, roomy.1)) in
    let i' = (get_or_intern v i).0 in
    let roomy' = get_or_intern-IsRoomy v (2 * length sel) i enough in
    let kept =
      Resolved-get_or_intern v (map name_of sel) ns i (roomy.0, omega (arith, roomy.1)) h.1 in
    rw (get_or_intern-known k i n h.0)
      (ap (λ (t : List ℕ). n ∷ t) (resolve_pairs_keys sel ns i' roomy' kept))

length_names : (sel : List (String × String)) → length (map name_of sel) ≡ length sel
length_names [] = refl
length_names (t ∷ sel) = omega (arith, length_names sel)

length_keys : (tags : TagSet) → length (map key_of tags) ≡ length tags
length_keys [] = refl
length_keys (t ∷ tags) = omega (arith, length_keys tags)

selector_keys :
    (sel : List (String × String)) (i : Interner)
    → IsRoomy (3 * length sel) i
    → map key_of (resolve_pairs sel (resolve_keys (map name_of sel) i).0).1
      ≡ (resolve_keys (map name_of sel) i).1
selector_keys sel i roomy =
    let enough : IsRoomy (length (map name_of sel) + 2 * length sel) i =
      (roomy.0, omega (arith, roomy.1, length_names sel)) in
    let (resolved, left) = resolve_keys-Resolved (map name_of sel) (2 * length sel) i enough in
    resolve_pairs_keys sel (resolve_keys (map name_of sel) i).1 (resolve_keys (map name_of sel) i).0
      left resolved

-- If the selector of a threshold takes a series, the interner numbered the selector's keys in the
-- order in which the selector lists them. So a selector of several tags whose keys were first seen
-- in another order takes no series at all, whatever the series' tags are. The interner is well
-- formed and has room for the selector's names.
pub matches-IsAscending :
    (sel : List (String × String)) (series : TagSet) (i : Interner)
    → IsInterner i
    → length i.names + 3 * length sel < 2 ^ 32
    → matches (new_selector sel i).1 series ≡ true
    → IsAscending (resolve_keys (map name_of sel) i).1
unfolding matches new_selector resolve_tags
matches-IsAscending [] series i wf room h = unfold resolve_keys IsAscending in tt
matches-IsAscending (t ∷ ts) series i wf room h =
    let keys = (resolve_keys (map name_of (t ∷ ts)) i).1 in
    let pairs = (resolve_pairs (t ∷ ts) (resolve_keys (map name_of (t ∷ ts)) i).0).1 in
    let same : project keys series ≡ sort pairs =
      (tags_eq_iff (project keys series) (sort pairs)).0 h in
    let key_list : map key_of pairs ≡ keys = selector_keys (t ∷ ts) i (wf, room) in
    let full : length (project keys series) ≡ length keys =
      ap length same ∙ length-sort pairs ∙ sym (length_keys pairs) ∙ ap length key_list in
    let ascending : IsAscending (map key_of (project keys series)) =
      rw same (sort-IsAscending pairs) in
    subst IsAscending (project_full keys series full) ascending

-- Every tag of the first set is in the second.
pub IsSelected : TagSet → TagSet → Type 0
IsSelected pairs series = All (λ (p : ℕ × ℕ). get p.0 series ≡ some p.1) pairs

missing_found : {v : ℕ} {o : Option ℕ} → o ≡ none → o ≡ some v → ⊥
missing_found missing found = cc

too_short :
    (k v : ℕ) (pairs series : TagSet)
    → get k series ≡ none
    → project (map key_of ((k, v) ∷ pairs)) series ≡ (k, v) ∷ pairs
    → ⊥
unfolding project
too_short k v pairs series missing e =
    let short : project (map key_of pairs) series ≡ (k, v) ∷ pairs = ground (arith, missing, e) in
    omega (arith, length-project (map key_of pairs) series, ap length short, length_keys pairs)

project_iff :
    (pairs series : TagSet) → (project (map key_of pairs) series ≡ pairs) ↔ IsSelected pairs series
unfolding project IsSelected
project_iff [] series = (λ e. tt, λ e. refl)
project_iff ((k, v) ∷ pairs) series = elim (Option-cases (get k series)) [
  | inl missing ↦
      (λ e. absurd (too_short k v pairs series missing e), λ e. absurd (missing_found missing e.0))
  | inr (w, found) ↦ ground (arith, found, project_iff pairs series)
]

-- If the interner numbered the selector's keys in the order in which the selector lists them, the
-- selector takes exactly the series that have every one of its tags, with its value. The interner is
-- well formed and has room for the selector's names.
pub matches_iff :
    (t : String × String) (sel : List (String × String)) (series : TagSet) (i : Interner)
    → IsInterner i
    → length i.names + 3 * length (t ∷ sel) < 2 ^ 32
    → IsStrict (resolve_keys (map name_of (t ∷ sel)) i).1
    → (matches (new_selector (t ∷ sel) i).1 series ≡ true)
      ↔ IsSelected (resolve_pairs (t ∷ sel) (resolve_keys (map name_of (t ∷ sel)) i).0).1 series
unfolding matches new_selector resolve_tags
matches_iff t sel series i wf room strict =
    let keys = (resolve_keys (map name_of (t ∷ sel)) i).1 in
    let pairs = (resolve_pairs (t ∷ sel) (resolve_keys (map name_of (t ∷ sel)) i).0).1 in
    let key_list : map key_of pairs ≡ keys = selector_keys (t ∷ sel) i (wf, room) in
    let in_order : sort pairs ≡ pairs =
      sort-IsStrict pairs (subst IsStrict (sym key_list) strict) in
    let eq = tags_eq_iff (project keys series) (sort pairs) in
    let found = project_iff pairs series in
    let project_same : project (map key_of pairs) series ≡ project keys series =
      ap (λ (ks : List ℕ). project ks series) key_list in
    (
      λ h. found.0 (project_same ∙ eq.0 h ∙ in_order),
      λ h. eq.1 (sym project_same ∙ found.1 h ∙ sym in_order),
    )
