-- ===== src/Reproduce/Check.antt =====
-- `check`: what stands in the way of a stage, as a list of messages.
use rs_camera.Prelude.{
  ℕ, Bool, true, false, not, ◌&&◌, ◌||◌, List, [], ◌∷◌, ◌++◌, any, if◌then◌else◌,
}
use rs_camera.Prelude.Exec.{Exec, pure, gets, raise, ◌>>=◌, try_except}
use rs_camera.Prelude.Errors.{Error, os_error, timeout_expired}
use rs_camera.Text.{Str, codes, str_eq, show, strip, lstrip, split}
use rs_camera.Text.Words.{
  is_zero, starts_with, drop_prefix, contains, words, sorted, distinct_texts,
}
use rs_camera.Machine.{Machine, FilePath, Completed, ◌/◌, path_text}
use rs_camera.Reproduce.Stages.{Mode, mode_name, kernel_of}

pub record Irq : Type 0 where
  pub number : ℕ
  pub label : Str

-- What `load_config` returns, as far as `check` reads it.
pub record Cameras : Type 0 where
  pub d435_serials : List Str
  pub d455_serial : Str
  pub single_d435_serial : Str
  pub startup_serial : Str
  pub e3_irqs : List Irq

-- The running host beside its files.
pub record Platform (W : Type 0) : Type 0 where
  pub machine : Str
  pub release : Str
  -- `shutil.which(name) is not None`
  pub has_command : Str → W → Bool
  -- `subprocess.run(command, timeout=15)`, with both outputs in one.
  pub run_probe : List Str → Exec Error W Completed
  -- `subprocess.check_output(command)`
  pub check_output : List Str → Exec Error W Str

abbrev pub problem : Bool → Str → List Str
problem true text = text ∷ []
problem false text = []

abbrev pub is_arm : Str → Bool
is_arm machine = str_eq machine (codes "aarch64") || str_eq machine (codes "arm64")

-- `mode.startswith("rt-")`, and the argument on the command line.
abbrev pub has_threadirqs : Str → Bool
has_threadirqs cmdline = any (str_eq (codes "threadirqs")) (words cmdline)

abbrev pub bool_name : Bool → Str
bool_name true = codes "True"
bool_name false = codes "False"

abbrev pub differs : Bool → Bool → Bool
differs true b = not b
differs false b = b

-- The messages on the running kernel.
unfoldable pub kernel_errors : Mode → Str → Str → List Str
kernel_errors mode release cmdline =
    let (kernel, threaded) = kernel_of mode in
    problem (not (str_eq release kernel))
      (codes "Boot kernel " ++ (kernel ++ (codes "; found " ++ release)))
    ++ problem
        (not (starts_with (codes "rt-") (mode_name mode))
          && differs (has_threadirqs cmdline) threaded)
        (mode_name mode ++ (codes ": threadirqs must be " ++ bool_name threaded))

unfoldable pub serials_of : Cameras → List Str
serials_of c =
    distinct_texts
      (sorted (c.d435_serials ++ c.d455_serial ∷ c.single_d435_serial ∷ c.startup_serial ∷ []))

-- A line of /proc/interrupts that begins with the number and has the label behind it.
abbrev pub names_irq : Irq → Str → Bool
names_irq item line =
    let start = show item.number ++ codes ":" in
    starts_with start (lstrip line) && contains item.label (drop_prefix start (lstrip line))

unfoldable pub has_irq : Str → Irq → Bool
has_irq interrupts item = any (names_irq item) (split 10 interrupts)

unfoldable pub missing_irqs : Str → List Irq → List Str
unfolding has_irq
missing_irqs interrupts [] = []
missing_irqs interrupts (item ∷ items) =
    problem (not (has_irq interrupts item))
      (codes "IRQ mapping does not exist: " ++ (show item.number ++ (codes " " ++ item.label)))
    ++ missing_irqs interrupts items

abbrev workloads : FilePath → List FilePath
workloads folder = folder / codes "representative.csv" ∷ folder / codes "stress.csv" ∷ []

unfoldable pub needed_profiles : FilePath → Str → List FilePath
needed_profiles root stage =
    if starts_with (codes "e2-urb") stage
    then workloads (root / codes "e2" / codes "profiles")
    else if starts_with (codes "e4-") stage && not (str_eq stage (codes "e4-calibrate"))
    then workloads (root / codes "e4-profiles")
    else if str_eq stage (codes "e3")
    then root / codes "e2" / codes "profiles" / codes "stress.csv"
      ∷ root / codes "e1" / codes "profiles" / codes "d455_stress60.csv"
      ∷ []
    else []

abbrev pub model_path : FilePath
model_path = codes "proc" ∷ codes "device-tree" ∷ codes "model" ∷ []

abbrev pub wifi_path : FilePath
wifi_path = codes "sys" ∷ codes "class" ∷ codes "net" ∷ codes "wlan0" ∷ codes "operstate" ∷ []

module _ {W : Type 0} (m : Machine W) (p : Platform W) (repo root : FilePath) where
  abbrev pub build : FilePath
  build = repo / codes "build-realsense-steady"

  abbrev pub needed : List FilePath
  needed =
      repo / codes ".venv" / codes "bin" / codes "python"
      ∷ repo / codes "deps" / codes "lime-rtw" / codes "target" / codes "release" / codes "lime-rtw"
      ∷ build / codes "realsense_steady_probe"
      ∷ []

  unfoldable pub missing_files : Str → List FilePath → W → List Str
  missing_files text [] w = []
  missing_files text (path ∷ paths) w =
      problem (not (m.is_file path w)) (text ++ path_text path) ++ missing_files text paths w

  abbrev pub read_file : FilePath → Exec Error W Str
  read_file path w = (m.read_text path w, w)

  abbrev pub read_if : Bool → FilePath → Exec Error W Str
  read_if true path = read_file path
  read_if false path = pure []

  -- Machine, model and Wi-Fi.
  unfoldable pub platform_errors : Exec Error W (List Str)
  platform_errors = do
    is_file ← gets (m.is_file model_path)
    model ← read_if is_file model_path
    wifi ← gets (m.exists wifi_path)
    state ← read_if wifi wifi_path
    pure (
        problem (not (is_arm p.machine))
          (codes "Acquisition requires the AArch64 Raspberry Pi 5, not this host")
        ++ (problem (not (is_file && contains (codes "Raspberry Pi 5") model))
              (codes "Paper platform is Raspberry Pi 5")
            ++ problem (wifi && str_eq (strip state) (codes "up")) (
                codes
                  "Paper runs disable Wi-Fi; use wired/local access and disable it before acquisition")))

  abbrev failed_probe : Str → Completed → List Str
  failed_probe serial result = problem (not (is_zero result.returncode)) (
      codes "SDK cannot find camera "
      ++ (serial
          ++ (codes "; use the librealsense serial, not the USB sysfs serial: "
              ++ strip result.stdout)))

  abbrev pub broken_probe : Str → Error → Exec Error W (List Str)
  broken_probe serial (os_error e) =
      pure ((codes "SDK device check failed for " ++ (serial ++ (codes ": " ++ e))) ∷ [])
  broken_probe serial (timeout_expired e) =
      pure ((codes "SDK device check failed for " ++ (serial ++ (codes ": " ++ e))) ∷ [])
  broken_probe serial e = raise e

  unfoldable pub probe_camera : Str → Exec Error W (List Str)
  probe_camera serial =
      try_except
        (p.run_probe (
            path_text (build / codes "d435_sensor_probe")
            ∷ codes "--serial"
            ∷ serial
            ∷ codes "--device-present"
            ∷ [])
          >>= λ result. pure (failed_probe serial result))
        (broken_probe serial)

  unfoldable pub camera_errors : List Str → Exec Error W (List Str)
  unfolding probe_camera
  camera_errors [] = pure []
  camera_errors (serial ∷ serials) = do
    first ← probe_camera serial
    rest ← camera_errors serials
    pure (first ++ rest)
