-- ===== src/Metrics/Interning.antt =====
-- The interner: its numbers name what was interned, and stay.
use wrkr.Prelude.{
  ℕ, ◌+◌, ◌%◌, ◌^◌, ◌<◌, ◌≤◌, ◌≡◌, refl, ◌∙◌, none, some, Option-cases, ◌⊎◌, ◌↔◌, zero, suc, inl,
  inr, String, eq_refl, eq_iff, List, [], ◌∷◌, ◌++◌, length, length-append, get_elem?, arith,
}
use wrkr.Prelude.Dict.{lookup, insert, lookup-insert}
use wrkr.Metrics.{Interner, new, get_or_intern, resolve}

-- The two maps agree, in both directions, and every number fits a u32.
pub record IsInterner (i : Interner) : Type 0 where
  pub named : (s : String) (id : ℕ) → lookup s i.ids ≡ some id → get_elem? i.names id ≡ some s
  pub numbered : (s : String) (id : ℕ) → get_elem? i.names id ≡ some s → lookup s i.ids ≡ some id

pub new-IsInterner : IsInterner new
unfolding lookup
new-IsInterner = record { named = λ s id h. cc; numbered = λ s id h. cc }

-- Old elements of a list keep their place when one is pushed, and the new one has the last place.
get_elem?-push :
    (names : List String) (s t : String) (id : ℕ)
    → get_elem? (names ++ (s ∷ [])) id ≡ some t
    → (get_elem? names id ≡ some t) ⊎ ((id ≡ length names) × (s ≡ t))
get_elem?-push [] s t zero h = inr (refl, cc)
get_elem?-push [] s t (suc id) h = absurd cc
get_elem?-push (x ∷ names) s t zero h = inl h
get_elem?-push (x ∷ names) s t (suc id) h = elim (get_elem?-push names s t id h) [
  | inl old ↦ inl old
  | inr (e, q) ↦ inr (omega (arith, e), q)
]

push_keeps :
    (names : List String) (s t : String) (id : ℕ)
    → get_elem? names id ≡ some t
    → get_elem? (names ++ (s ∷ [])) id ≡ some t
push_keeps [] s t id h = absurd cc
push_keeps (x ∷ names) s t zero h = h
push_keeps (x ∷ names) s t (suc id) h = push_keeps names s t id h

push_last :
    (names : List String) (s : String) → get_elem? (names ++ (s ∷ [])) (length names) ≡ some s
push_last [] s = refl
push_last (x ∷ names) s = push_last names s

-- The interner after a new name.
unfoldable pub push_name : String → Interner → Interner
push_name s i = record { ids = insert s (length i.names) i.ids; names = i.names ++ (s ∷ []) }

push_name-IsInterner :
    (s : String) (i : Interner) → IsInterner i → lookup s i.ids ≡ none → IsInterner (push_name s i)
unfolding push_name
push_name-IsInterner s i wf fresh = record {
  named = λ t id h. ground (
    arith,
    eq_iff s t,
    lookup-insert s t (length i.names) i.ids,
    push_last i.names s,
    push_keeps i.names s t id,
    wf.named t id,
  );
  numbered = λ t id h. ground (
    arith,
    eq_iff s t,
    lookup-insert s t (length i.names) i.ids,
    get_elem?-push i.names s t id h,
    wf.numbered t id,
  );
}

pub get_or_intern-known :
    (s : String) (i : Interner) (id : ℕ) → lookup s i.ids ≡ some id → get_or_intern s i ≡ (i, id)
unfolding get_or_intern
get_or_intern-known s i id h = rw (h, get_or_intern) refl

get_or_intern-fresh :
    (s : String) (i : Interner)
    → length i.names < 2 ^ 32
    → lookup s i.ids ≡ none
    → get_or_intern s i ≡ (push_name s i, length i.names)
unfolding get_or_intern push_name
get_or_intern-fresh s i fits h =
    let id : length i.names % 2 ^ 32 ≡ length i.names = omega arith in
    rw (h, get_or_intern) (rw id refl)

-- What an interner with room for one more name does with a name, known or not.
pub get_or_intern-cases :
    (s : String) (i : Interner)
    → length i.names < 2 ^ 32
    → ((id : ℕ) × ((lookup s i.ids ≡ some id) × (get_or_intern s i ≡ (i, id))))
      ⊎ ((lookup s i.ids ≡ none) × (get_or_intern s i ≡ (push_name s i, length i.names)))
get_or_intern-cases s i fits = elim (Option-cases (lookup s i.ids)) [
  | inl fresh ↦ inr (fresh, get_or_intern-fresh s i fits fresh)
  | inr (id, known) ↦ inl (id, (known, get_or_intern-known s i id known))
]

-- While the interner has fewer than 2 ^ 32 names, `get_or_intern` keeps its two maps in agreement,
-- the number that it returns resolves to the name, and a number that resolved to a name before
-- still does.
pub get_or_intern-IsInterner :
    (s t : String) (n : ℕ) (i : Interner)
    → IsInterner i
    → length i.names < 2 ^ 32
    → resolve n i ≡ some t
    → IsInterner (get_or_intern s i).0
      × (resolve (get_or_intern s i).1 (get_or_intern s i).0 ≡ some s)
      × (resolve n (get_or_intern s i).0 ≡ some t)
unfolding resolve push_name
get_or_intern-IsInterner s t n i wf fits old = elim (get_or_intern-cases s i fits) [
  | inl (id, (known, e)) ↦ rw e (wf, wf.named s id known, old)
  | inr (fresh, e) ↦
      rw e (push_name-IsInterner s i wf fresh, push_last i.names s, push_keeps i.names s t n old)
]

-- A name that is interned keeps its number when any name is interned after it.
pub lookup-get_or_intern :
    (s t : String) (n : ℕ) (i : Interner)
    → IsInterner i
    → length i.names < 2 ^ 32
    → lookup t i.ids ≡ some n
    → lookup t (get_or_intern s i).0.ids ≡ some n
lookup-get_or_intern s t n i wf fits h =
    let (wf', _, kept) =
      get_or_intern-IsInterner s t n i wf fits (unfold resolve in wf.named t n h) in
    wf'.numbered t n (unfold resolve in kept)

pub lookup-get_or_intern_own :
    (s : String) (i : Interner)
    → IsInterner i
    → length i.names < 2 ^ 32
    → lookup s (get_or_intern s i).0.ids ≡ some (get_or_intern s i).1
unfolding push_name
lookup-get_or_intern_own s i wf fits = elim (get_or_intern-cases s i fits) [
  | inl (id, (known, e)) ↦ rw e known
  | inr (fresh, e) ↦ rw e (lookup-insert s s (length i.names) i.ids ∙ rw (eq_refl s) refl)
]

pub length-get_or_intern :
    (s : String) (i : Interner)
    → length i.names < 2 ^ 32
    → length (get_or_intern s i).0.names ≤ length i.names + 1
unfolding push_name
length-get_or_intern s i fits = elim (get_or_intern-cases s i fits) [
  | inl (id, (known, e)) ↦ rw e (omega arith)
  | inr (fresh, e) ↦ rw e (omega (arith, length-append i.names (s ∷ [])))
]

pub get_or_intern_keeps-IsInterner :
    (s : String) (i : Interner)
    → IsInterner i
    → length i.names < 2 ^ 32
    → IsInterner (get_or_intern s i).0
get_or_intern_keeps-IsInterner s i wf fits = elim (get_or_intern-cases s i fits) [
  | inl (id, (known, e)) ↦ rw e wf
  | inr (fresh, e) ↦ rw e (push_name-IsInterner s i wf fresh)
]

-- Two names have the same number only if they are the same name: interning one and then the other
-- gives one number exactly when the names are equal.
pub get_or_intern_injective :
    (s t : String) (i : Interner)
    → IsInterner i
    → length i.names + 1 < 2 ^ 32
    → ((get_or_intern t (get_or_intern s i).0).1 ≡ (get_or_intern s i).1) ↔ (s ≡ t)
get_or_intern_injective s t i wf fits =
    let room : length i.names < 2 ^ 32 = omega arith in
    let i' = (get_or_intern s i).0 in
    let wf' = get_or_intern_keeps-IsInterner s i wf room in
    let room' : length i'.names < 2 ^ 32 = omega (arith, length-get_or_intern s i room) in
    let own = lookup-get_or_intern_own s i wf room in
    let kept = lookup-get_or_intern t s (get_or_intern s i).1 i' wf' room' own in
    let wf'' = get_or_intern_keeps-IsInterner t i' wf' room' in
    let own' = lookup-get_or_intern_own t i' wf' room' in
    let s_named = wf''.named s (get_or_intern s i).1 kept in
    let t_named = wf''.named t (get_or_intern t i').1 own' in
    (λ e. cc, λ e. ground (arith, get_or_intern-known s i' (get_or_intern s i).1 own))
