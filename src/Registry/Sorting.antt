-- ===== src/Registry/Sorting.antt =====
-- `slice::sort_by` on a name: a stable sort.
use wrkr.Prelude.{
  ◌≡◌, refl, ◌∙◌, String, true, Bool-cases, inl, inr, List, [], ◌∷◌, str_eq, eq_iff, arith,
  if◌then◌else◌,
}
use wrkr.Prelude.TextOrder.{str_le, str_le_total, str_le_refl}

module _ {A : Type 0} (name : A → String) where
  unfoldable pub insert_by : A → List A → List A
  insert_by x [] = x ∷ []
  insert_by x (y ∷ ys) =
      let rest = insert_by x ys in if str_le (name x) (name y) then x ∷ y ∷ ys else y ∷ rest

  unfoldable pub sort_by : List A → List A
  sort_by [] = []
  sort_by (x ∷ xs) = insert_by x (sort_by xs)

  -- Neighbours are in the order of their names.
  abbrev pub AreAscending : List A → Type 0
  AreAscending [] = Unit
  AreAscending (x ∷ []) = Unit
  AreAscending (x ∷ y ∷ ys) = (str_le (name x) (name y) ≡ true) × AreAscending (y ∷ ys)

  -- The elements with a name, in their order.
  unfoldable pub with_name : String → List A → List A
  with_name s [] = []
  with_name s (x ∷ xs) = let rest = with_name s xs in if str_eq (name x) s then x ∷ rest else rest

  insert_by-AreAscending : (x : A) (xs : List A) → AreAscending xs → AreAscending (insert_by x xs)
  unfolding insert_by
  insert_by-AreAscending x [] h = tt
  insert_by-AreAscending x (y ∷ []) h = elim (Bool-cases (str_le (name x) (name y))) [
    | inl le ↦ rw le (le, tt)
    | inr gt ↦ rw gt (str_le_total (name x) (name y) gt, tt)
  ]
  insert_by-AreAscending x (y ∷ z ∷ ys) h = elim (Bool-cases (str_le (name x) (name y))) [
    | inl le ↦ rw le (le, h)
    | inr gt ↦
        let after = insert_by-AreAscending x (z ∷ ys) h.1 in
        elim (Bool-cases (str_le (name x) (name z))) [
          | inl le ↦ rw gt (rw le (str_le_total (name x) (name y) gt, (le, h.1)))
          | inr lt ↦ rw gt (rw lt (h.0, rw lt at after))
        ]
  ]

  pub sort_by-AreAscending : (xs : List A) → AreAscending (sort_by xs)
  unfolding sort_by
  sort_by-AreAscending [] = tt
  sort_by-AreAscending (x ∷ xs) = insert_by-AreAscending x (sort_by xs) (sort_by-AreAscending xs)

  with_name-insert_by :
      (s : String) (x : A) (xs : List A) → with_name s (insert_by x xs) ≡ with_name s (x ∷ xs)
  unfolding with_name insert_by
  with_name-insert_by s x [] = refl
  with_name-insert_by s x (y ∷ ys) = elim (Bool-cases (str_le (name x) (name y))) [
    | inl le ↦ rw le refl
    | inr gt ↦
        let same : name x ≡ s → name y ≡ s → str_le (name x) (name y) ≡ true =
          λ p q. rw (p, q) (str_le_refl s) in
        rw gt (elim (Bool-cases (str_eq (name x) s)) [
          | inl this ↦ elim (Bool-cases (str_eq (name y) s)) [
            | inl that ↦
                let clash = same ((eq_iff (name x) s).0 this) ((eq_iff (name y) s).0 that) in
                absurd cc
            | inr that ↦ ground (arith, this, that, with_name-insert_by s x ys)
          ]
          | inr this ↦ ground (arith, this, with_name-insert_by s x ys)
        ])
  ]

  -- The sort is stable: it keeps the order of the elements with one name.
  pub with_name-sort_by : (s : String) (xs : List A) → with_name s (sort_by xs) ≡ with_name s xs
  unfolding with_name sort_by
  with_name-sort_by s [] = refl
  with_name-sort_by s (x ∷ xs) =
      with_name-insert_by s x (sort_by xs) ∙ ground (arith, with_name-sort_by s xs)
