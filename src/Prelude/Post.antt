-- ===== src/Prelude/Post.antt =====
-- Rules for statements about what a method returns.
use mathlib.Core.Path.{◌≡◌, refl, subst}
use mathlib.Core.Bool.{Bool, true, false, false≢true}
use rs_camera.Prelude.Tests.{if◌then◌else◌}
use rs_camera.Prelude.Exec.{Result, ok, is_ok, err, Exec, ◌>>=◌, ◌>>◌, continue, raise_if}

module _ {E S A : Type 0} where
  -- If the call returned, `P` holds of its value and of the state after it.
  abbrev pub Returns : (A → S → Type 0) → Result E A × S → Type 0
  Returns P (ok a, s) = P a s
  Returns P (err e, s) = Unit

  -- The call returned, and `P` holds of its value and of the state after it.
  abbrev pub Succeeds : (A → S → Type 0) → Result E A × S → Type 0
  Succeeds P (ok a, s) = P a s
  Succeeds P (err e, s) = ⊥

  -- The call left a state of which `P` holds, whether it returned or raised.
  abbrev pub Leaves : (S → Type 0) → Result E A × S → Type 0
  Leaves P (r, s) = P s

  pub Returns-any :
      (P : A → S → Type 0) (r : Result E A × S) → ((a : A) (s : S) → P a s) → Returns P r
  Returns-any P (ok a, s) k = k a s
  Returns-any P (err e, s) k = tt

  pub Returns-map :
      (P Q : A → S → Type 0) (r : Result E A × S)
      → Returns P r
      → ((a : A) (s : S) → P a s → Q a s)
      → Returns Q r
  Returns-map P Q (ok a, s) h k = k a s h
  Returns-map P Q (err e, s) h k = tt

  pub Returns-pure :
      (P : A → S → Type 0) (r : Result E A) (s : S)
      → ((a : A) → r ≡ ok a → P a s)
      → Returns P (r, s)
  Returns-pure P (ok a) s k = k a refl
  Returns-pure P (err e) s k = tt

  pub Succeeds-and :
      (P Q : A → S → Type 0) (r : Result E A × S) → Succeeds P r → Returns Q r → Succeeds Q r
  Succeeds-and P Q (ok a, s) h k = k
  Succeeds-and P Q (err e, s) h k = absurd h

  pub Succeeds-map :
      (P Q : A → S → Type 0) (r : Result E A × S)
      → Succeeds P r
      → ((a : A) (s : S) → P a s → Q a s)
      → Succeeds Q r
  Succeeds-map P Q (ok a, s) h k = k a s h
  Succeeds-map P Q (err e, s) h k = absurd h

  pub Succeeds-ok :
      (P : A → S → Type 0) (r : Result E A) (s : S)
      → is_ok r ≡ true
      → ((a : A) → r ≡ ok a → P a s)
      → Succeeds P (r, s)
  Succeeds-ok P (ok a) s h k = k a refl
  Succeeds-ok P (err e) s h k = absurd (false≢true h)

  pub Returns-at :
      (P : A → S → Type 0) (r : Result E A × S) {a : A} {s : S}
      → r ≡ (ok a, s)
      → Returns P r
      → P a s
  Returns-at P r e h = subst (Returns P) e h

module _ {E S A B : Type 0} where
  pub Returns-bind :
      (Q : B → S → Type 0) (m : Exec E S A) (f : A → Exec E S B) (s : S)
      → Returns (λ a s'. Returns Q (f a s')) (m s)
      → Returns Q ((m >>= f) s)
  Returns-bind Q m f s = go (m s)
    where
      go :
          (r : Result E A × S)
          → Returns (λ a s'. Returns Q (f a s')) r
          → Returns Q (continue r.0 f r.1)
      go (ok a, t) h = h
      go (err e, t) h = tt

  -- After a step that does not touch the state the rest may use what the step returned.
  pub Returns-lift :
      (Q : B → S → Type 0) (r : Result E A) (f : A → Exec E S B) (s : S)
      → ((a : A) → r ≡ ok a → Returns Q (f a s))
      → Returns Q (continue r f s)
  Returns-lift Q (ok a) f s h = h a refl
  Returns-lift Q (err e) f s h = tt

  pub Succeeds-bind :
      (Q : B → S → Type 0) (m : Exec E S A) (f : A → Exec E S B) (s : S)
      → Succeeds (λ a s'. Succeeds Q (f a s')) (m s)
      → Succeeds Q ((m >>= f) s)
  Succeeds-bind Q m f s = go (m s)
    where
      go :
          (r : Result E A × S)
          → Succeeds (λ a s'. Succeeds Q (f a s')) r
          → Succeeds Q (continue r.0 f r.1)
      go (ok a, t) h = h
      go (err e, t) h = absurd h

  -- After a step that does not touch the state and does not raise.
  pub Succeeds-lift :
      (Q : B → S → Type 0) (r : Result E A) (f : A → Exec E S B) (s : S)
      → is_ok r ≡ true
      → ((a : A) → Succeeds Q (f a s))
      → Succeeds Q (continue r f s)
  Succeeds-lift Q (ok a) f s o h = h a
  Succeeds-lift Q (err e) f s o h = absurd (false≢true o)

-- A method that never raises.
abbrev pub Silent : {E S A : Type 0} → Exec E S A → Type 0
Silent {S = S} m = (s : S) → Succeeds (λ _ _. Unit {0}) (m s)

module _ {E S A B : Type 0} where
  pub Silent-bind :
      (m : Exec E S A) (f : A → Exec E S B) (s : S)
      → Silent m
      → ((a : A) → Silent (f a))
      → Succeeds (λ _ _. Unit {0}) ((m >>= f) s)
  Silent-bind m f s hm hf =
      Succeeds-bind (λ _ _. Unit) m f s
        (Succeeds-map (λ _ _. Unit) _ (m s) (hm s) (λ a s' _. hf a s'))

  pub Silent-lift :
      (r : Result E A) (f : A → Exec E S B) (s : S)
      → is_ok r ≡ true
      → ((a : A) → Silent (f a))
      → Succeeds (λ _ _. Unit {0}) (continue r f s)
  Silent-lift r f s o hf = Succeeds-lift (λ _ _. Unit) r f s o (λ a. hf a s)

module _ {E S A B : Type 0} where
  -- A call that returned, with the fact that it did.
  pub Returns-calling :
      (Q : B → S → Type 0) (m : Exec E S A) (f : A → Exec E S B) (s : S)
      → ((a : A) (t : S) → m s ≡ (ok a, t) → Returns Q (f a t))
      → Returns Q ((m >>= f) s)
  Returns-calling Q m f s k = go (m s) refl
    where
      go : (r : Result E A × S) → m s ≡ r → Returns Q (continue r.0 f r.1)
      go (ok a, t) e = k a t e
      go (err x, t) e = tt

module _ {E S A : Type 0} where
  pub Returns-unless :
      (Q : A → S → Type 0) (b : Bool) (e : E) (n : Exec E S A) (s : S)
      → (b ≡ false → Returns Q (n s))
      → Returns Q ((raise_if b e >> n) s)
  Returns-unless Q true e n s k = tt
  Returns-unless Q false e n s k = k refl

  pub Returns-if :
      (Q : A → S → Type 0) (b : Bool) (n o : Exec E S A) (s : S)
      → (b ≡ true → Returns Q (n s))
      → (b ≡ false → Returns Q (o s))
      → Returns Q ((if b then n else o) s)
  Returns-if Q true n o s k l = k refl
  Returns-if Q false n o s k l = l refl
