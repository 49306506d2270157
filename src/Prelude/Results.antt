-- ===== src/Prelude/Results.antt =====
-- Rust's `Result`, its `?`, and an early return, for the error types of the components.
use mathlib.Core.Path.{◌≡◌, refl}
use mathlib.Core.Logic.{◌⊎◌, inl, inr}
use mathlib.Core.Bool.{Bool, true, false}

pub data ResultOf {ℓ} (E : Type 0) (A : Type ℓ) : Type ℓ where
  err : (error : E) → ResultOf E A
  ok : (value : A) → ResultOf E A

module _ {E : Type 0} where
  infixl 5 ◌>>=◌ ◌>>◌
  -- `?`, and what follows it.
  abbrev pub ◌>>=◌ {κ ℓ} :
      {A : Type κ} {B : Type ℓ} → ResultOf E A → (A → ResultOf E B) → ResultOf E B
  err error >>= rest = err error
  ok value >>= rest = rest value

  -- `return Err(e)` under a condition, in front of what the code goes on to do.
  unfoldable pub refuse_if : Bool → E → ResultOf E (Unit {0})
  refuse_if false error = ok tt
  refuse_if true error = err error

  abbrev pub ◌>>◌ {ℓ} : {B : Type ℓ} → ResultOf E (Unit {0}) → ResultOf E B → ResultOf E B
  err error >> rest = err error
  ok done >> rest = rest

  module _ {ℓ} {B : Type ℓ} where
    pub ok_inj : {x y : B} → ◌≡◌ {A = ResultOf E B} (ok x) (ok y) → x ≡ y
    ok_inj same = cc

    pub err_inj : {x y : E} → ◌≡◌ {A = ResultOf E B} (err x) (err y) → x ≡ y
    err_inj same = cc

    pub ResultOf-cases :
        (r : ResultOf E B) → ((x : B) × (r ≡ ok x)) ⊎ ((error : E) × (r ≡ err error))
    ResultOf-cases (err error) = inr (error, refl)
    ResultOf-cases (ok x) = inl (x, refl)

    -- A chain that succeeds passed its test and every step.
    pub refuse-eq-ok :
        (test : Bool) (error : E) (rest : ResultOf E B) {y : B}
        → (refuse_if test error >> rest) ≡ ok y
        → (test ≡ false) × (rest ≡ ok y)
    unfolding refuse_if
    refuse-eq-ok false error rest passed = (refl, passed)
    refuse-eq-ok true error rest passed = cc

    pub step-eq-ok {κ} :
        {A : Type κ} (step : ResultOf E A) (rest : A → ResultOf E B) {y : B}
        → (step >>= rest) ≡ ok y
        → (x : A) × (step ≡ ok x) × (rest x ≡ ok y)
    step-eq-ok (err error) rest passed = cc
    step-eq-ok (ok x) rest passed = (x, refl, passed)
