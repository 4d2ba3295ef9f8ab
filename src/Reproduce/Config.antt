-- ===== src/Reproduce/Config.antt =====
-- `load_config`: the cameras and the roles that they were given. An `xhci_irq` that is no number, or a
-- negative one, is `none`.
use rs_camera.Prelude.{
  ℕ, Bool, false, not, ◌&&◌, ◌||◌, Option, none, some, List, [], ◌∷◌, ◌++◌, all, is_empty, length,
  ◌==◌, if◌then◌else◌,
}
use rs_camera.Prelude.Exec.{Result, ok, err}
use rs_camera.Prelude.Errors.{Error, value_error, key_error}
use rs_camera.Text.{Str, codes, str_eq, is_digit_char}
use rs_camera.Text.Words.{starts_with, drop_prefix, distinct_texts}
use rs_camera.Reproduce.Check.{Irq, Cameras}

pub record Camera : Type 0 where
  pub serial : Str
  pub model : Str
  pub xhci_irq : Option ℕ
  pub xhci_label : Str

-- The file: `cameras` by name, and `selection`.
pub record RawConfig : Type 0 where
  pub cameras : List (Str × Camera)
  pub d435_pair : List Str
  pub single_d435 : Str
  pub startup_d435 : Str
  pub single_d455 : Str

unfoldable pub find_camera : Str → List (Str × Camera) → Option Camera
find_camera name [] = none
find_camera name ((key, camera) ∷ cameras) =
    let rest = find_camera name cameras in if str_eq name key then some camera else rest

unfoldable pub serials : List (Str × Camera) → List Str
serials [] = []
serials ((key, camera) ∷ cameras) = camera.serial ∷ serials cameras

abbrev pub is_number : Str → Bool
is_number s = not (is_empty s) && all is_digit_char s

abbrev pub is_label : Str → Bool
is_label s =
    starts_with (codes "xhci-hcd:usb") s && is_number (drop_prefix (codes "xhci-hcd:usb") s)

abbrev pub positive_irq : Option ℕ → Bool
positive_irq none = false
positive_irq (some n) = not (n == 0)

abbrev pub irq_error : Error
irq_error = value_error (codes "Set the E3 IRQ numbers from this Pi, not from the paper")

abbrev pub label_error : Error
label_error = value_error (codes "Set the matching E3 xHCI IRQ labels")

-- The loop over the cameras, with what follows it.
unfoldable pub check_irqs : {A : Type 0} → List (Str × Camera) → Result Error A → Result Error A
check_irqs [] rest = rest
check_irqs ((key, camera) ∷ cameras) rest =
    let others = check_irqs cameras rest in
    if not (positive_irq camera.xhci_irq)
    then err irq_error
    else if not (is_label camera.xhci_label)
    then err label_error
    else others

abbrev pub is_pair : List Str → Bool
is_pair (a ∷ b ∷ []) = not (str_eq a b)
is_pair names = false

-- `cameras[name]`
abbrev pub with_camera :
    {A : Type 0} → Str → Option Camera → (Camera → Result Error A) → Result Error A
with_camera name none next = err (key_error name)
with_camera name (some camera) next = next camera

abbrev pub if_d435 : {A : Type 0} → Str → Camera → Result Error A → Result Error A
if_d435 name camera rest =
    if not (str_eq camera.model (codes "D435"))
    then err (value_error (name ++ codes " is not a D435"))
    else rest

abbrev pub is_d455 : Camera → Bool
is_d455 camera = str_eq camera.model (codes "D455") || str_eq camera.model (codes "D455F")

abbrev pub irq_number : Option ℕ → ℕ
irq_number none = 0
irq_number (some n) = n

abbrev pub irq_of : Camera → Irq
irq_of camera = record { number = irq_number camera.xhci_irq; label = camera.xhci_label }

-- The roles, from the cameras that have them.
abbrev pub roles : Camera → Camera → Camera → Camera → Camera → Cameras
roles first second single startup d455 = record {
  d435_serials = first.serial ∷ second.serial ∷ [];
  d455_serial = d455.serial;
  single_d435_serial = single.serial;
  startup_serial = startup.serial;
  e3_irqs = irq_of single ∷ irq_of d455 ∷ [];
}

-- A role of a D435, and what follows it.
abbrev pub d435_role : {A : Type 0} → RawConfig → Str → (Camera → Result Error A) → Result Error A
d435_role c name next =
    with_camera name (find_camera name c.cameras) (λ camera. if_d435 name camera (next camera))

abbrev pub d455_role : Camera → Camera → Camera → Camera → Camera → Result Error Cameras
d455_role first second single startup d455 =
    if not (is_d455 d455)
    then err (value_error (codes "Select a D455/D455F"))
    else ok (roles first second single startup d455)

abbrev pub select_d455 : RawConfig → Camera → Camera → Camera → Camera → Result Error Cameras
select_d455 c first second single startup =
    with_camera c.single_d455 (find_camera c.single_d455 c.cameras)
      (d455_role first second single startup)

abbrev pub select_startup : RawConfig → Camera → Camera → Camera → Result Error Cameras
select_startup c first second single =
    d435_role c c.startup_d435 (select_d455 c first second single)

abbrev pub select_single : RawConfig → Camera → Camera → Result Error Cameras
select_single c first second = d435_role c c.single_d435 (select_startup c first second)

unfoldable pub select_roles : RawConfig → List Str → Result Error Cameras
select_roles c (a ∷ b ∷ []) = d435_role c a (λ first. d435_role c b (select_single c first))
select_roles c names = err (value_error (codes "Select two different D435 cameras for E4"))

unfoldable pub load_config : RawConfig → Result Error Cameras
unfolding check_irqs select_roles
load_config c =
    if not (length (distinct_texts (serials c.cameras)) == length (serials c.cameras))
    then err (value_error (codes "Camera SDK serials must be distinct"))
    else if not (all is_number (serials c.cameras))
    then err (value_error (codes "Replace serial placeholders with the actual numeric serials"))
    else check_irqs c.cameras (
        if not (is_pair c.d435_pair)
        then err (value_error (codes "Select two different D435 cameras for E4"))
        else select_roles c c.d435_pair)
