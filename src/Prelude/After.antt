-- ===== src/Prelude/After.antt =====
-- Rules for statements about a call that may return or raise, one part for each way.
use mathlib.Core.Path.{◌≡◌, refl}
use rs_camera.Prelude.{Bool, true, false, if◌then◌else◌}
use rs_camera.Prelude.Exec.{Result, ok, err, Exec, ◌>>=◌, continue, rescue, try_except, raise_if}

module _ {E S A : Type 0} where
  -- `P` holds of what the call returned and left, or `X` of what it raised and left.
  abbrev pub After : (A → S → Type 0) → (E → S → Type 0) → Result E A × S → Type 0
  After P X (ok a, s) = P a s
  After P X (err e, s) = X e s

  pub After-map :
      (P Q : A → S → Type 0) (X Y : E → S → Type 0) (r : Result E A × S)
      → After P X r
      → ((a : A) (s : S) → P a s → Q a s)
      → ((e : E) (s : S) → X e s → Y e s)
      → After Q Y r
  After-map P Q X Y (ok a, s) h k l = k a s h
  After-map P Q X Y (err e, s) h k l = l e s h

  pub After-any :
      (P : A → S → Type 0) (X : E → S → Type 0) (r : Result E A × S)
      → ((a : A) (s : S) → P a s)
      → ((e : E) (s : S) → X e s)
      → After P X r
  After-any P X (ok a, s) k l = k a s
  After-any P X (err e, s) k l = l e s

  -- Two statements on what is left by a return; nothing is said of an error.
  pub After-and :
      (P Q : S → Type 0) (X Y : E → S → Type 0) (r : Result E A × S)
      → After (λ _ s. P s) X r
      → After (λ _ s. Q s) Y r
      → After (λ _ s. P s × Q s) (λ _ _. Unit) r
  After-and P Q X Y (ok a, s) p q = (p, q)
  After-and P Q X Y (err e, s) p q = tt

  pub After-try :
      (P : A → S → Type 0) (X : E → S → Type 0) (m : Exec E S A) (h : E → Exec E S A) (s : S)
      → After P (λ e s'. After P X (h e s')) (m s)
      → After P X (try_except m h s)
  After-try P X m h s = go (m s)
    where
      go :
          (r : Result E A × S)
          → After P (λ e s'. After P X (h e s')) r
          → After P X (rescue h r.0 r.1)
      go (ok a, t) p = p
      go (err e, t) p = p

  pub After-if :
      (P : A → S → Type 0) (X : E → S → Type 0) (b : Bool) (x y : Exec E S A) (s : S)
      → (b ≡ true → After P X (x s))
      → (b ≡ false → After P X (y s))
      → After P X ((if b then x else y) s)
  After-if P X true x y s k l = k refl
  After-if P X false x y s k l = l refl

  pub After-else :
      (P : A → S → Type 0) (X : E → S → Type 0) (b : Bool) (x y : Exec E S A) (s : S)
      → b ≡ false
      → After P X (y s)
      → After P X ((if b then x else y) s)
  After-else P X true x y s e p = cc e
  After-else P X false x y s e p = p

module _ {E S : Type 0} where
  pub After-raise_if :
      (P : Unit {0} → S → Type 0) (X : E → S → Type 0) (b : Bool) (e : E) (s : S)
      → (b ≡ true → X e s)
      → (b ≡ false → P tt s)
      → After P X (raise_if b e s)
  After-raise_if P X true e s x p = x refl
  After-raise_if P X false e s x p = p refl

module _ {E S A B : Type 0} where
  pub After-bind :
      (P : B → S → Type 0) (X : E → S → Type 0) (m : Exec E S A) (f : A → Exec E S B) (s : S)
      → After (λ a s'. After P X (f a s')) X (m s)
      → After P X ((m >>= f) s)
  After-bind P X m f s = go (m s)
    where
      go :
          (r : Result E A × S)
          → After (λ a s'. After P X (f a s')) X r
          → After P X (continue r.0 f r.1)
      go (ok a, t) p = p
      go (err e, t) p = p

  pub After-lift :
      (P : B → S → Type 0) (X : E → S → Type 0) (r : Result E A) (f : A → Exec E S B) (s : S)
      → ((a : A) → r ≡ ok a → After P X (f a s))
      → ((e : E) → r ≡ err e → X e s)
      → After P X (continue r f s)
  After-lift P X (ok a) f s h k = h a refl
  After-lift P X (err e) f s h k = k e refl

  -- A call, with the fact how it ended.
  pub After-calling :
      (P : B → S → Type 0) (X : E → S → Type 0) (m : Exec E S A) (f : A → Exec E S B) (s : S)
      → ((a : A) (t : S) → m s ≡ (ok a, t) → After P X (f a t))
      → ((e : E) (t : S) → m s ≡ (err e, t) → X e t)
      → After P X ((m >>= f) s)
  After-calling P X m f s k l = go (m s) refl
    where
      go : (r : Result E A × S) → m s ≡ r → After P X (continue r.0 f r.1)
      go (ok a, t) e = k a t e
      go (err x, t) e = l x t e
