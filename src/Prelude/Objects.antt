-- ===== src/Prelude/Objects.antt =====
-- Methods on an object of type `S` beside a world `W`.
use rs_camera.Prelude.Exec.{ok, Exec}

module _ {E S W : Type 0} where
  -- What acts on the world only.
  abbrev pub on_world : {A : Type 0} → Exec E W A → Exec E (S × W) A
  on_world action (o, w) = let (r, w') = action w in (r, (o, w'))

  abbrev pub change : (S → S) → Exec E (S × W) (Unit {0})
  change f (o, w) = (ok tt, (f o, w))

  abbrev pub this : Exec E (S × W) S
  this (o, w) = (ok o, (o, w))

  -- A method runs on an object that is local to the caller.
  abbrev pub with_object : {A : Type 0} → S → Exec E (S × W) A → Exec E W A
  with_object o action w = let (r, (o', w')) = action (o, w) in (r, w')
