-- ===== src/Prelude/Results.antt =====
-- Chains of calls that may fail and change no state.
use mathlib.Core.Path.{◌≡◌, refl}
use mathlib.Core.Logic.{◌⊎◌, inl, inr}
use rs_camera.Prelude.Exec.{Result, ok, err}

module _ {E : Type 0} {A B : Type 0} where
  infixl 10 ◌>>=◌
  abbrev pub ◌>>=◌ : Result E A → (A → Result E B) → Result E B
  ◌>>=◌ (err e) next = err e
  ◌>>=◌ (ok value) next = next value

  -- A chain that succeeds has an intermediate value.
  pub >>=-eq-ok :
      (first : Result E A) (next : A → Result E B) (last : B)
      → (first >>= next) ≡ ok last
      → (between : A) × (first ≡ ok between) × (next between ≡ ok last)
  >>=-eq-ok (err e) next last chained = cc
  >>=-eq-ok (ok value) next last chained = (value, refl, chained)

pub Result-cases :
    {E A : Type 0} (r : Result E A) → ((a : A) × (r ≡ ok a)) ⊎ ((e : E) × (r ≡ err e))
Result-cases (ok a) = inl (a, refl)
Result-cases (err e) = inr (e, refl)
