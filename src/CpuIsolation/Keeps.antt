-- ===== src/CpuIsolation/Keeps.antt =====
-- Properties of the object that a method keeps, whether it returns or raises: one rule for each way
-- in which the methods of `CpuIsolation` are built.
use rs_camera.Prelude.{Bool, true, false, if◌then◌else◌}
use rs_camera.Prelude.Exec.{Result, ok, err, Exec, pure, raise, raise_if, when, lift, ◌>>=◌}
use rs_camera.Prelude.Errors.{Error}
use rs_camera.Prelude.After.{After, After-map, After-bind}
use rs_camera.Text.{Str}
use rs_camera.Machine.{Machine}
use rs_camera.CpuIsolation.{CpuIsolationConfig, Isolation, Report, Method, on_host, update, self}
use rs_camera.CpuIsolation.Host.{on_host-After}

module _ {W : Type 0} (m : Machine W) (dumps : Report → Str) (config : CpuIsolationConfig)
    (P : Isolation → Type 0) where
  pub record Keeps {A : Type 0} (action : Method m dumps config A) : Type 0 where
    pub at : (s : Isolation × W) → P s.0 → After (λ _ t. P t.0) (λ _ t. P t.0) (action s)

  pub Keeps-host : {A : Type 0} (action : Exec Error W A) → Keeps (on_host m dumps config action)
  Keeps-host action = record {
    at = λ (o, w) h.
        on_host-After m dumps config (λ _ t. P t.0) (λ _ t. P t.0) action o w (λ _ _. h) (λ _ _. h);
  }

  pub Keeps-update :
      (f : Isolation → Isolation)
      → ((o : Isolation) → P o → P (f o))
      → Keeps (update m dumps config f)
  Keeps-update f k = record { at = λ s h. k s.0 h }

  pub Keeps-pure : {A : Type 0} (a : A) → Keeps (pure a)
  Keeps-pure a = record { at = λ s h. h }

  pub Keeps-raise : {A : Type 0} (e : Error) → Keeps {A = A} (raise e)
  Keeps-raise e = record { at = λ s h. h }

  pub Keeps-raise_if : (b : Bool) (e : Error) → Keeps (raise_if b e)
  Keeps-raise_if true e = record { at = λ s h. h }
  Keeps-raise_if false e = record { at = λ s h. h }

  pub Keeps-self : Keeps (self m dumps config)
  Keeps-self = record { at = λ s h. h }

  pub Keeps-lift : {A : Type 0} (r : Result Error A) → Keeps (lift r)
  Keeps-lift (ok a) = record { at = λ s h. h }
  Keeps-lift (err e) = record { at = λ s h. h }

  pub Keeps-when :
      (b : Bool) (action : Method m dumps config (Unit {0})) → Keeps action → Keeps (when b action)
  Keeps-when true action k = record { at = λ s h. k.at s h }
  Keeps-when false action k = record { at = λ s h. h }

  pub Keeps-if :
      {A : Type 0} (b : Bool) (x y : Method m dumps config A)
      → Keeps x
      → Keeps y
      → Keeps (if b then x else y)
  Keeps-if true x y kx ky = kx
  Keeps-if false x y kx ky = ky

  pub Keeps-bind :
      {A B : Type 0} (action : Method m dumps config A) (f : A → Method m dumps config B)
      → Keeps action
      → ((a : A) → Keeps (f a))
      → Keeps (action >>= f)
  Keeps-bind action f k l = record {
    at = λ s h.
        After-bind (λ _ t. P t.0) (λ _ t. P t.0) action f s
          (After-map (λ _ t. P t.0) _ (λ _ t. P t.0) _ (action s) (k.at s h) (λ a t p. (l a).at t p)
            (λ _ _ p. p));
  }

pub ruleset keeps_rules = (
  Keeps-host, Keeps-update, Keeps-pure, Keeps-raise, Keeps-raise_if, Keeps-self, Keeps-lift,
  Keeps-when, Keeps-if, Keeps-bind,
)
