-- ===== src/Prelude/Exec.antt =====
-- Methods that mutate a state and may raise. What was written before a raise stays written, so the
-- state comes back beside the error.
use mathlib.Core.Path.{◌≡◌}
use mathlib.Core.Bool.{Bool, true, false}

pub data Result {ℓ κ} (E : Type ℓ) (A : Type κ) : Type (ℓ ⊔ κ) where
  ok : A → Result E A
  err : E → Result E A

abbrev pub is_ok {ℓ κ} : {E : Type ℓ} {A : Type κ} → Result E A → Bool
is_ok (ok a) = true
is_ok (err e) = false

pub ok-injective : {E A : Type 0} {a b : A} → ◌≡◌ {A = Result E A} (ok a) (ok b) → a ≡ b
ok-injective h = cc

abbrev pub Exec : Type 0 → Type 0 → Type 0 → Type 0
Exec E S A = S → Result E A × S

module _ {E S A : Type 0} where
  abbrev pub pure : A → Exec E S A
  pure a s = (ok a, s)

  abbrev pub raise : E → Exec E S A
  raise e s = (err e, s)

  abbrev pub lift : Result E A → Exec E S A
  lift r s = (r, s)

  abbrev pub gets : (S → A) → Exec E S A
  gets f s = (ok (f s), s)

module _ {E S A : Type 0} where
  -- `try: m except ...: h e`, with what `m` wrote kept.
  abbrev pub rescue : (E → Exec E S A) → Result E A → Exec E S A
  rescue h (ok a) s = (ok a, s)
  rescue h (err e) s = h e s

  abbrev pub try_except : Exec E S A → (E → Exec E S A) → Exec E S A
  try_except m h s = let (r, s') = m s in rescue h r s'

module _ {E S : Type 0} where
  abbrev pub modify : (S → S) → Exec E S (Unit {0})
  modify f s = (ok tt, f s)

  abbrev pub raise_if : Bool → E → Exec E S (Unit {0})
  raise_if true e s = (err e, s)
  raise_if false e s = (ok tt, s)

  abbrev pub when : Bool → Exec E S (Unit {0}) → Exec E S (Unit {0})
  when true m s = m s
  when false m s = (ok tt, s)

module _ {E S A B : Type 0} where
  abbrev pub continue : Result E A → (A → Exec E S B) → Exec E S B
  continue (ok a) f s = f a s
  continue (err e) f s = (err e, s)

  infixl 10 ◌>>=◌ ◌>>◌
  abbrev pub ◌>>=◌ : Exec E S A → (A → Exec E S B) → Exec E S B
  ◌>>=◌ m f s = let (r, s') = m s in continue r f s'

  abbrev pub ◌>>◌ : Exec E S A → Exec E S B → Exec E S B
  m >> n = m >>= λ _. n

module _ {E S A : Type 0} where
  -- `try: m finally: cleanup`; an error of the cleanup takes the place of the first one.
  abbrev pub clean_up : Exec E S (Unit {0}) → Result E A → Exec E S A
  clean_up cleanup r = cleanup >>= λ _. lift r

  abbrev pub finally_do : Exec E S A → Exec E S (Unit {0}) → Exec E S A
  finally_do m cleanup s = let (r, s') = m s in clean_up cleanup r s'
