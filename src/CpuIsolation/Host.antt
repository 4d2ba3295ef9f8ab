-- ===== src/CpuIsolation/Host.antt =====
-- An action on the host leaves the object alone, whether it returns or raises.
use rs_camera.Prelude.Exec.{Result, ok, err, Exec, continue, ◌>>=◌}
use rs_camera.Prelude.Errors.{Error}
use rs_camera.Prelude.After.{After}
use rs_camera.Text.{Str}
use rs_camera.Machine.{Machine}
use rs_camera.CpuIsolation.{CpuIsolationConfig, Isolation, Report, Method, on_host}

module _ {W : Type 0} (m : Machine W) (dumps : Report → Str) (config : CpuIsolationConfig) where
  pub on_host-After :
      {A : Type 0} (P : A → Isolation × W → Type 0) (X : Error → Isolation × W → Type 0)
      (action : Exec Error W A) (o : Isolation) (w : W)
      → ((a : A) (w' : W) → P a (o, w'))
      → ((e : Error) (w' : W) → X e (o, w'))
      → After P X (on_host m dumps config action (o, w))
  on_host-After {A = A} P X action o w h k = go (action w)
    where
      go : (r : Result Error A × W) → After P X (r.0, (o, r.1))
      go (ok a, w') = h a w'
      go (err e, w') = k e w'

  pub on_host-bind :
      {A B : Type 0} (P : B → Isolation × W → Type 0) (X : Error → Isolation × W → Type 0)
      (action : Exec Error W A) (f : A → Method m dumps config B) (o : Isolation) (w : W)
      → ((a : A) (w' : W) → After P X (f a (o, w')))
      → ((e : Error) (w' : W) → X e (o, w'))
      → After P X ((on_host m dumps config action >>= f) (o, w))
  on_host-bind {A = A} P X action f o w h k = go (action w)
    where
      go : (r : Result Error A × W) → After P X (continue r.0 f (o, r.1))
      go (ok a, w') = h a w'
      go (err e, w') = k e w'
