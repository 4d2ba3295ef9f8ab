-- ===== src/CpuIsolation/Irqs.antt =====
-- The discovery half of cpu_isolation.py: the cgroup of the process, the cameras, the interrupts of
-- their xHCI controllers and the threads that serve them.
use rs_camera.Prelude.{
  ℕ, not, ◌&&◌, Option, none, some, List, [], ◌∷◌, ◌++◌, ◌==◌, if◌then◌else◌, is_empty,
}
use rs_camera.Prelude.Exec.{Result, ok, err}
use rs_camera.Prelude.Errors.{Error, runtime_error}
use rs_camera.Text.{Str, codes, str_eq, is_digit_char, lstrip, split_once, int_of}
use rs_camera.Text.Words.{starts_with, drop_prefix}
use rs_camera.Machine.{FilePath}

-- `fields[2].lstrip("/")`
unfoldable pub strip_slashes : Str → Str
strip_slashes [] = []
strip_slashes (c ∷ s) = let rest = strip_slashes s in if c == b'/' then rest else c ∷ s

-- The components of a relative path; empty ones are dropped.
unfoldable pub path_parts : Str → Str → FilePath
path_parts name [] = if is_empty name then [] else name ∷ []
path_parts name (c ∷ s) =
    let more = path_parts (name ++ c ∷ []) s in
    let rest = path_parts [] s in
    if c == b'/' then if is_empty name then rest else name ∷ rest else more

-- `line.split(":", 2)` with fields "0" and "": the path of a cgroup-v2 line.
unfoldable pub cgroup_line : Str → Option Str
cgroup_line line = elim (split_once b':' line) [
  | none ↦ none
  | some (hierarchy, rest) ↦ elim (split_once b':' rest) [
    | none ↦ none
    | some (controllers, path) ↦
        if str_eq hierarchy (codes "0") && is_empty controllers
        then some (strip_slashes path)
        else none
  ]
]

unfoldable pub first_cgroup : List Str → Option Str
first_cgroup [] = none
first_cgroup (line ∷ lines) = elim (cgroup_line line) [
  | some path ↦ some path
  | none ↦ first_cgroup lines
]

-- The digits at the head of a text, and what follows them.
unfoldable pub span_digits : Str → Str × Str
span_digits [] = ([], [])
span_digits (c ∷ s) =
    let (digits, rest) = span_digits s in
    if is_digit_char c then (c ∷ digits, rest) else ([], c ∷ s)

-- `re.match(r"^\s*(\d+):", line)`
unfoldable pub irq_of_line : Str → Option ℕ
irq_of_line line =
    let (digits, rest) = span_digits (lstrip line) in
    if not (is_empty digits) && starts_with (codes ":") rest then some (int_of digits) else none

abbrev bus_of : Str → Option Str
bus_of digits = if is_empty digits then none else some (codes "usb" ++ digits)

-- `re.findall(r"xhci-hcd:(usb\d+)", line)`: at every place, the bus that is named there.
unfoldable pub bus_here : Str → Option Str
bus_here s =
    if starts_with (codes "xhci-hcd:usb") s
    then bus_of (span_digits (drop_prefix (codes "xhci-hcd:usb") s)).0
    else none

unfoldable pub buses_of_line : Str → List Str
unfolding bus_here
buses_of_line [] = []
buses_of_line (c ∷ s) =
    let rest = buses_of_line s in elim (bus_here (c ∷ s)) [ none ↦ rest | some bus ↦ bus ∷ rest ]

-- The dict `actions`, from a bus to its interrupt.
abbrev pub Actions : Type 0
Actions = List (Str × ℕ)

unfoldable pub lookup_action : Str → Actions → Option ℕ
lookup_action bus [] = none
lookup_action bus ((b, irq) ∷ actions) =
    if str_eq b bus then some irq else lookup_action bus actions

-- The inner loop; a bus that is already there with the same interrupt is written again.
unfoldable pub add_actions : ℕ → List Str → Actions → Result Error Actions
add_actions irq [] actions = ok actions
add_actions irq (bus ∷ buses) actions = elim (lookup_action bus actions) [
  | none ↦ add_actions irq buses ((bus, irq) ∷ actions)
  | some known ↦
      let rest = add_actions irq buses actions in
      if known == irq
      then rest
      else err (runtime_error (codes "xHCI action " ++ (bus ++ codes " maps to multiple IRQs")))
]

unfoldable pub interrupt_lines : List Str → Actions → Result Error Actions
unfolding irq_of_line buses_of_line
interrupt_lines [] actions = ok actions
interrupt_lines (line ∷ lines) actions = elim (irq_of_line line) [
  | none ↦ interrupt_lines lines actions
  | some irq ↦ elim (add_actions irq (buses_of_line line) actions) [
    | ok actions' ↦ interrupt_lines lines actions'
    | err e ↦ err e
  ]
]
