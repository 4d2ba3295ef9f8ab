-- ===== src/Prelude/Keeping.antt =====
-- Properties of a state that an action keeps, whether it returns or raises, with one rule for each
-- way in which actions are built.
use rs_camera.Prelude.Tests.{if◌then◌else◌}
use mathlib.Core.Path.{◌≡◌, refl}
use mathlib.Core.Bool.{Bool, true, false}
use rs_camera.Prelude.Exec.{
  Result, ok, err, Exec, pure, raise, raise_if, when, lift, gets, try_except, clean_up, continue,
  finally_do, ◌>>=◌,
}
use rs_camera.Prelude.Objects.{on_world, with_object, change, this}
use rs_camera.Prelude.After.{After, After-map, After-bind, After-try}

module _ {E S : Type 0} (P : S → Type 0) where
  pub record Keeps {A : Type 0} (action : Exec E S A) : Type 0 where
    pub at : (s : S) → P s → After (λ _ t. P t) (λ _ t. P t) (action s)

  pub Keeps-pure : {A : Type 0} (a : A) → Keeps (pure a)
  Keeps-pure a = record { at = λ s h. h }

  pub Keeps-raise : {A : Type 0} (e : E) → Keeps {A = A} (raise e)
  Keeps-raise e = record { at = λ s h. h }

  pub Keeps-raise_if : (b : Bool) (e : E) → Keeps (raise_if b e)
  Keeps-raise_if true e = record { at = λ s h. h }
  Keeps-raise_if false e = record { at = λ s h. h }

  pub Keeps-gets : {A : Type 0} (f : S → A) → Keeps (gets f)
  Keeps-gets f = record { at = λ s h. h }

  pub Keeps-lift : {A : Type 0} (r : Result E A) → Keeps (lift r)
  Keeps-lift (ok a) = record { at = λ s h. h }
  Keeps-lift (err e) = record { at = λ s h. h }

  -- What reads the state and may raise.
  pub Keeps-reads : {A : Type 0} (f : S → Result E A) → Keeps (λ s. (f s, s))
  Keeps-reads f = record { at = λ s h. (Keeps-lift (f s)).at s h }

  pub Keeps-when : (b : Bool) (action : Exec E S (Unit {0})) → Keeps action → Keeps (when b action)
  Keeps-when true action k = record { at = λ s h. k.at s h }
  Keeps-when false action k = record { at = λ s h. h }

  pub Keeps-if :
      {A : Type 0} (b : Bool) (x y : Exec E S A) → Keeps x → Keeps y → Keeps (if b then x else y)
  Keeps-if true x y kx ky = kx
  Keeps-if false x y kx ky = ky

  pub Keeps-bind :
      {A B : Type 0} (action : Exec E S A) (f : A → Exec E S B)
      → Keeps action
      → ((a : A) → Keeps (f a))
      → Keeps (action >>= f)
  Keeps-bind action f k l = record {
    at = λ s h.
        After-bind (λ _ t. P t) (λ _ t. P t) action f s
          (After-map (λ _ t. P t) _ (λ _ t. P t) _ (action s) (k.at s h) (λ a t p. (l a).at t p)
            (λ _ _ p. p));
  }

  pub Keeps-try :
      {A : Type 0} (action : Exec E S A) (handler : E → Exec E S A)
      → Keeps action
      → ((e : E) → Keeps (handler e))
      → Keeps (try_except action handler)
  Keeps-try action handler k l = record {
    at = λ s h.
        After-try (λ _ t. P t) (λ _ t. P t) action handler s
          (After-map (λ _ t. P t) _ (λ _ t. P t) _ (action s) (k.at s h) (λ _ _ p. p)
            (λ e t p. (l e).at t p));
  }

  -- A test, with what it says in each branch.
  pub Keeps-test :
      {A : Type 0} (b : Bool) (x y : Exec E S A)
      → (b ≡ true → Keeps x)
      → (b ≡ false → Keeps y)
      → Keeps (if b then x else y)
  Keeps-test true x y kx ky = kx refl
  Keeps-test false x y kx ky = ky refl

  -- What is read from the state, with the fact that it was read.
  pub Keeps-reading :
      {A B : Type 0} (f : S → Result E A) (g : A → Exec E S B)
      → ((s : S) (a : A) → f s ≡ ok a → Keeps (g a))
      → Keeps ((λ s. (f s, s)) >>= g)
  Keeps-reading {A = A} f g k = record { at = λ s h. go s (f s) refl h }
    where
      go :
          (s : S) (r : Result E A)
          → f s ≡ r
          → P s
          → After (λ _ t. P t) (λ _ t. P t) (continue r g s)
      go s (ok a) e h = (k s a e).at s h
      go s (err e) q h = h

  pub Keeps-finally :
      {A : Type 0} (action : Exec E S A) (cleanup : Exec E S (Unit {0}))
      → Keeps action
      → Keeps cleanup
      → Keeps (finally_do action cleanup)
  Keeps-finally {A = A} action cleanup k l = record { at = λ s h. go (action s) (k.at s h) }
    where
      go :
          (r : Result E A × S)
          → After (λ _ t. P t) (λ _ t. P t) r
          → After (λ _ t. P t) (λ _ t. P t) (clean_up cleanup r.0 r.1)
      go (ok a, t) p = (Keeps-bind cleanup _ l (λ _. Keeps-lift (ok a))).at t p
      go (err e, t) p = (Keeps-bind cleanup _ l (λ _. Keeps-lift (err e))).at t p

-- What acts on the world leaves the object as it is.
module _ {E S W A : Type 0} where
  pub on_world-After :
      (P : A → W → Type 0) (X : E → W → Type 0) (action : Exec E W A) (o : S) (w : W)
      → After P X (action w)
      → After {S = S × W} (λ a t. (t.0 ≡ o) × P a t.1) (λ e t. X e t.1) (on_world action (o, w))
  on_world-After P X action o w = go (action w)
    where
      go :
          (r : Result E A × W)
          → After P X r
          → After {S = S × W} (λ a t. (t.0 ≡ o) × P a t.1) (λ e t. X e t.1) (r.0, (o, r.1))
      go (ok a, u) p = (refl, p)
      go (err e, u) p = p

  pub on_world-same :
      (action : Exec E W A) (o : S) (w : W)
      → After {S = S × W} (λ _ t. t.0 ≡ o) (λ _ t. t.0 ≡ o) (on_world action (o, w))
  on_world-same action o w = go (action w)
    where
      go :
          (r : Result E A × W) → After {S = S × W} (λ _ t. t.0 ≡ o) (λ _ t. t.0 ≡ o) (r.0, (o, r.1))
      go (ok a, u) = refl
      go (err e, u) = refl

-- Properties of the world that a method on an object keeps.
module _ {S W : Type 0} (I : W → Type 0) where
  abbrev pub OnWorld : S × W → Type 0
  OnWorld s = I s.1

module _ {E S W : Type 0} (I : W → Type 0) where
  pub Keeps-on_world :
      {A : Type 0} (action : Exec E W A)
      → Keeps I action
      → Keeps {S = S × W} (OnWorld I) (on_world action)
  Keeps-on_world action k = record { at = λ (o, w) h. go o (action w) (k.at w h) }
    where
      go :
          {A : Type 0} (o : S) (r : Result E A × W)
          → After (λ _ t. I t) (λ _ t. I t) r
          → After (λ _ t. OnWorld I t) (λ _ t. OnWorld I t) (r.0, (o, r.1))
      go o (ok a, w) p = p
      go o (err e, w) p = p

  pub Keeps-with_object :
      {A : Type 0} (o : S) (action : Exec E (S × W) A)
      → Keeps (OnWorld I) action
      → Keeps I (with_object o action)
  Keeps-with_object o action k = record { at = λ w h. go (action (o, w)) (k.at (o, w) h) }
    where
      go :
          {A : Type 0} (r : Result E A × (S × W))
          → After (λ _ t. OnWorld I t) (λ _ t. OnWorld I t) r
          → After (λ _ t. I t) (λ _ t. I t) (r.0, r.1.1)
      go (ok a, t) p = p
      go (err e, t) p = p

  pub Keeps-change : (f : S → S) → Keeps (OnWorld I) (change {E = E} f)
  Keeps-change f = record { at = λ (o, w) h. h }

  pub Keeps-this : Keeps {S = S × W} (OnWorld I) (this {E = E})
  Keeps-this = record { at = λ (o, w) h. h }

pub ruleset keeping_rules = (
  Keeps-pure, Keeps-raise, Keeps-raise_if, Keeps-gets, Keeps-lift, Keeps-when, Keeps-if, Keeps-bind,
  Keeps-try, Keeps-finally, Keeps-on_world, Keeps-with_object, Keeps-change, Keeps-this,
)
