-- ===== src/Reproduce/Roles.antt =====
-- The two cameras of E4 are different cameras.
use rs_camera.Prelude.{
  ◌≤◌, Bool, true, false, not, ◌≡◌, refl, sym, ◌∙◌, ap, Option, none, some, List, [], ◌∷◌, all, any,
  length, ◌==◌, ==_iff, Bool-cases, inl, inr, arith, if◌then◌else◌, ◌||◌,
}
use mathlib.Core.Bool.{false≢true}
use mathlib.Core.Option.{some-injective}
use rs_camera.Prelude.Exec.{Result, ok, err, ok-injective}
use rs_camera.Prelude.Errors.{Error, value_error}
use rs_camera.Text.{Str, codes, str_eq, str_eq_iff}
use rs_camera.Text.Words.{distinct_texts}
use rs_camera.Reproduce.Check.{Cameras}
use rs_camera.Reproduce.Config.{
  Camera, RawConfig, find_camera, serials, is_number, is_label, is_d455, positive_irq, irq_error,
  label_error, check_irqs, is_pair, with_camera, if_d435, d435_role, d455_role, select_d455,
  select_startup, select_single, roles, select_roles, load_config,
}

abbrev Apart : List Str → Type 0
Apart [] = Unit
Apart (s ∷ ss) = (any (str_eq s) ss ≡ false) × Apart ss

distinct-le : (ss : List Str) → length (distinct_texts ss) ≤ length ss
unfolding distinct_texts
distinct-le [] = omega arith
distinct-le (s ∷ ss) = elim (Bool-cases (any (str_eq s) ss)) [
  | inl again ↦ rw again (omega (arith, distinct-le ss))
  | inr alone ↦ rw alone (omega (arith, distinct-le ss))
]

distinct-Apart : (ss : List Str) → length (distinct_texts ss) ≡ length ss → Apart ss
unfolding distinct_texts
distinct-Apart [] e = tt
distinct-Apart (s ∷ ss) e = elim (Bool-cases (any (str_eq s) ss)) [
  | inl again ↦ absurd (omega (arith, distinct-le ss, rw again at e))
  | inr alone ↦ (alone, distinct-Apart ss (omega (arith, rw alone at e)))
]

or-left : (a b : Bool) → a ≡ true → (a || b) ≡ true
or-left a b e = ground arith

or-right : (a b : Bool) → b ≡ true → (a || b) ≡ true
or-right a b e = ground arith

-- A camera that is found has its serial among the serials.
found-any :
    (name serial : Str) (cameras : List (Str × Camera)) (camera : Camera)
    → find_camera name cameras ≡ some camera
    → serial ≡ camera.serial
    → any (str_eq serial) (serials cameras) ≡ true
unfolding find_camera serials
found-any name serial [] camera e s = cc e
found-any name serial ((key, c) ∷ cameras) camera e s = elim (Bool-cases (str_eq name key)) [
  | inl here ↦ or-left (str_eq serial c.serial) (any (str_eq serial) (serials cameras)) (
      (str_eq_iff serial c.serial).1
        (s ∙ ap (λ (d : Camera). d.serial) (sym (some-injective c camera (rw here at e)))))
  | inr elsewhere ↦
      or-right (str_eq serial c.serial) (any (str_eq serial) (serials cameras))
        (found-any name serial cameras camera (rw elsewhere at e) s)
]

serials-Apart :
    (a b : Str) (cameras : List (Str × Camera)) (x y : Camera)
    → Apart (serials cameras)
    → ¬ (a ≡ b)
    → find_camera a cameras ≡ some x
    → find_camera b cameras ≡ some y
    → ¬ (x.serial ≡ y.serial)
unfolding find_camera serials
serials-Apart a b [] x y p k e f same = cc e
serials-Apart a b ((key, c) ∷ cameras) x y p k e f same = elim (Bool-cases (str_eq a key)) [
  | inl first ↦ elim (Bool-cases (str_eq b key)) [
    | inl second ↦ k ((str_eq_iff a key).0 first ∙ sym ((str_eq_iff b key).0 second))
    | inr other ↦
        let here = ap (λ (d : Camera). d.serial) (some-injective c x (rw first at e)) in
        false≢true (sym p.0 ∙ found-any b c.serial cameras y (rw other at f) (here ∙ same))
  ]
  | inr elsewhere ↦ elim (Bool-cases (str_eq b key)) [
    | inl second ↦
        let here = ap (λ (d : Camera). d.serial) (some-injective c y (rw second at f)) in
        false≢true (sym p.0 ∙ found-any a c.serial cameras x (rw elsewhere at e) (here ∙ sym same))
    | inr other ↦ serials-Apart a b cameras x y p.1 k (rw elsewhere at e) (rw other at f) same
  ]
]

-- The cameras that were given the roles of a pair.
pub record IsPair (c : RawConfig) (loaded : Cameras) : Type 0 where
  pub first : Str
  pub second : Str
  pub first_camera : Camera
  pub second_camera : Camera
  pub names : c.d435_pair ≡ first ∷ second ∷ []
  pub first_found : find_camera first c.cameras ≡ some first_camera
  pub second_found : find_camera second c.cameras ≡ some second_camera
  pub first_model : first_camera.model ≡ codes "D435"
  pub second_model : second_camera.model ≡ codes "D435"
  pub loaded_serials : loaded.d435_serials ≡ first_camera.serial ∷ second_camera.serial ∷ []
  pub different : ¬ (first_camera.serial ≡ second_camera.serial)

with_camera-ok :
    {A : Type 0} (name : Str) (r : Option Camera) (next : Camera → Result Error A) (a : A)
    → with_camera name r next ≡ ok a
    → (camera : Camera) × (r ≡ some camera) × (next camera ≡ ok a)
with_camera-ok name (some camera) next a e = (camera, refl, e)
with_camera-ok name none next a e = cc e

if_d435-ok :
    {A : Type 0} (name : Str) (camera : Camera) (rest : Result Error A) (a : A)
    → if_d435 name camera rest ≡ ok a
    → (camera.model ≡ codes "D435") × (rest ≡ ok a)
if_d435-ok name camera rest a e = elim (Bool-cases (str_eq camera.model (codes "D435"))) [
  | inl right ↦ ((str_eq_iff camera.model (codes "D435")).0 right, rw right at e)
  | inr wrong ↦ cc (rw wrong at e)
]

d435_role-ok :
    {A : Type 0} (c : RawConfig) (name : Str) (next : Camera → Result Error A) (a : A)
    → d435_role c name next ≡ ok a
    → (camera : Camera) × (find_camera name c.cameras ≡ some camera)
      × (camera.model ≡ codes "D435")
      × (next camera ≡ ok a)
d435_role-ok c name next a e =
    let (camera, found, e1) =
      with_camera-ok name (find_camera name c.cameras) (λ camera. if_d435 name camera (next camera))
        a e in
    let (right, e2) = if_d435-ok name camera (next camera) a e1 in (camera, found, right, e2)

passed :
    {A : Type 0} (b : Bool) (x : Error) (rest : Result Error A) (a : A)
    → (if not b then err x else rest) ≡ ok a
    → (b ≡ true) × (rest ≡ ok a)
passed true x rest a e = (refl, e)
passed false x rest a e = cc e

check_irqs-ok :
    {A : Type 0} (cameras : List (Str × Camera)) (rest : Result Error A) (a : A)
    → check_irqs cameras rest ≡ ok a
    → rest ≡ ok a
unfolding check_irqs
check_irqs-ok [] rest a e = e
check_irqs-ok ((key, c) ∷ cameras) rest a e =
    let (_, labelled) = passed (positive_irq c.xhci_irq) irq_error _ a e in
    let (_, others) =
      passed (is_label c.xhci_label) label_error (check_irqs cameras rest) a labelled in
    check_irqs-ok cameras rest a others

distinct_names : (a b : Str) → not (str_eq a b) ≡ true → ¬ (a ≡ b)
distinct_names a b p e = false≢true (sym (ap not ((str_eq_iff a b).1 e)) ∙ p)

selected-IsPair :
    (c : RawConfig) (names : List Str) (loaded : Cameras)
    → c.d435_pair ≡ names
    → is_pair names ≡ true
    → Apart (serials c.cameras)
    → select_roles c names ≡ ok loaded
    → IsPair c loaded
unfolding select_roles
selected-IsPair c [] loaded n p apart e = cc e
selected-IsPair c (a ∷ []) loaded n p apart e = cc e
selected-IsPair c (a ∷ b ∷ d ∷ names) loaded n p apart e = cc e
selected-IsPair c (a ∷ b ∷ []) loaded n p apart e =
    let (first, found, first_d435, e1) =
      d435_role-ok c a (λ first. d435_role c b (select_single c first)) loaded e in
    let (second, also, second_d435, e2) = d435_role-ok c b (select_single c first) loaded e1 in
    let (single, _, _, e3) =
      d435_role-ok c c.single_d435 (select_startup c first second) loaded e2 in
    let (startup, _, _, e4) =
      d435_role-ok c c.startup_d435 (select_d455 c first second single) loaded e3 in
    let (d455, _, e5) =
      with_camera-ok c.single_d455 (find_camera c.single_d455 c.cameras)
        (d455_role first second single startup) loaded e4 in
    let (_, e6) =
      passed (is_d455 d455) (value_error (codes "Select a D455/D455F"))
        (ok (roles first second single startup d455)) loaded e5 in
    record {
      first = a;
      second = b;
      first_camera = first;
      second_camera = second;
      names = n;
      first_found = found;
      second_found = also;
      first_model = first_d435;
      second_model = second_d435;
      loaded_serials =
          ap (λ (l : Cameras). l.d435_serials)
            (sym (ok-injective {a = roles first second single startup d455} {b = loaded} e6));
      different = serials-Apart a b c.cameras first second apart (distinct_names a b p) found also;
    }

-- If `load_config` returns, the pair for E4 is two names of cameras of model D435, whose serials it gives,
-- and these are different.
pub load_config-IsPair :
    (c : RawConfig) (loaded : Cameras) → load_config c ≡ ok loaded → IsPair c loaded
unfolding load_config
load_config-IsPair c loaded e =
    let (apart, e1) =
      passed (length (distinct_texts (serials c.cameras)) == length (serials c.cameras)) _ _ loaded
        e in
    let (_, e2) = passed (all is_number (serials c.cameras)) _ _ loaded e1 in
    let (pair, e3) =
      passed (is_pair c.d435_pair) _ _ loaded (check_irqs-ok c.cameras _ loaded e2) in
    selected-IsPair c c.d435_pair loaded refl pair
      (distinct-Apart (serials c.cameras) (
        (==_iff (length (distinct_texts (serials c.cameras))) (length (serials c.cameras))).0
          apart))
      e3
