-- ===== src/Prelude/Dict.antt =====
-- A hash map with string keys, as an association list: what it holds under each key is all that
-- the program reads of it, apart from iteration.
use Prim.Native.String.{String}
use mathlib.Core.Path.{◌≡◌}
use mathlib.Core.Option.{Option, none, some}
use mathlib.Core.List.{List, [], ◌∷◌}
use native.Mathlib.Omega.{arith}
use text.Mathlib.Text.{◌==◌}
use text.Mathlib.TextEquality.{eq_iff}
use wrkr.Prelude.Tests.{if◌then◌else◌}

abbrev pub Dict {ℓ} : Type ℓ → Type ℓ
Dict V = List (String × V)

module _ {ℓ} {V : Type ℓ} where
  -- `HashMap::remove`
  unfoldable pub remove : String → Dict V → Dict V
  remove key [] = []
  remove key ((other, value) ∷ entries) =
      let kept = remove key entries in if other == key then kept else (other, value) ∷ kept

  -- `HashMap::insert`, which replaces the value of a key that is there.
  unfoldable pub insert : String → V → Dict V → Dict V
  insert key value entries = (key, value) ∷ remove key entries

  -- `HashMap::get`
  unfoldable pub lookup : String → Dict V → Option V
  lookup key [] = none
  lookup key ((other, value) ∷ entries) =
      let later = lookup key entries in if other == key then some value else later

  pub lookup-remove :
      (gone key : String) (entries : Dict V)
      → lookup key (remove gone entries) ≡ (if gone == key then none else lookup key entries)
  unfolding lookup remove
  lookup-remove gone key [] = ground arith
  lookup-remove gone key ((other, value) ∷ entries) =
      ground (
        arith,
        lookup-remove gone key entries,
        eq_iff gone key,
        eq_iff other gone,
        eq_iff other key,
      )

  pub lookup-insert :
      (changed key : String) (value : V) (entries : Dict V)
      → lookup key (insert changed value entries)
        ≡ (if changed == key then some value else lookup key entries)
  unfolding lookup insert
  lookup-insert changed key value entries = ground (arith, lookup-remove changed key entries)
