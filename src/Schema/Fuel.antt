-- ===== src/Schema/Fuel.antt =====
-- How many messages of a pool are not in progress: each one that is begun takes one away.
use wrkr.Prelude.{
  ℕ, zero, suc, ◌+◌, ◌≤◌, ◌<◌, ◌≡◌, refl, ap, sym, false, List, [], ◌∷◌, arith, if◌then◌else◌, ◌∙◌,
  dec_lt,
}
use wrkr.Wire.{Bytes}
use wrkr.Messages.Objects.{bytes_eq_iff}
use wrkr.Schema.Pool.{DescriptorPool}
use wrkr.Schema.{contains, remove}

unfoldable pub remaining : DescriptorPool → ℕ → List Bytes → ℕ
remaining pool zero names = 0
remaining pool (suc h) names =
    (if contains (pool.full_name h) names then 0 else 1) + remaining pool h names

module _ (pool : DescriptorPool) where
  remaining-le :
      (n : ℕ) (name : Bytes) (names : List Bytes)
      → remaining pool n (name ∷ names) ≤ remaining pool n names
  unfolding remaining contains
  remaining-le zero name names = omega arith
  remaining-le (suc h) name names = ground (arith, remaining-le h name names)

  pub remaining-lt :
      (n h : ℕ) (names : List Bytes)
      → h < n
      → contains (pool.full_name h) names ≡ false
      → remaining pool n (pool.full_name h ∷ names) < remaining pool n names
  unfolding remaining contains
  remaining-lt zero h names lt fresh = absurd (omega arith)
  remaining-lt (suc k) h names lt fresh = elim (dec_lt h k) [
    | yes below ↦ ground (arith, remaining-lt k h names below fresh)
    | no above ↦
        let here : h ≡ k = omega arith in
        let same =
          (bytes_eq_iff (pool.full_name h) (pool.full_name k)).1 (ap pool.full_name here) in
        let unseen : contains (pool.full_name k) names ≡ false =
          sym (ap (λ i. contains (pool.full_name i) names) here) ∙ fresh in
        let rest = remaining-le k (pool.full_name h) names in ground (arith, same, unseen, rest)
  ]

  pub remaining_le_messages : (n : ℕ) (names : List Bytes) → remaining pool n names ≤ n
  unfolding remaining
  remaining_le_messages zero names = omega arith
  remaining_le_messages (suc h) names = ground (arith, remaining_le_messages h names)

-- A name that is not there is removed without effect.
remove_absent :
    (name : Bytes) (names : List Bytes) → contains name names ≡ false → remove name names ≡ names
unfolding contains remove
remove_absent name [] fresh = refl
remove_absent name (other ∷ names) fresh = ground (arith, remove_absent name names)

pub remove-cons :
    (name : Bytes) (names : List Bytes)
    → contains name names ≡ false
    → remove name (name ∷ names) ≡ names
unfolding remove
remove-cons name names fresh = rw ((bytes_eq_iff name name).1 refl) (remove_absent name names fresh)
