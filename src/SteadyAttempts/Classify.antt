-- ===== src/SteadyAttempts/Classify.antt =====
-- The summary of a steady attempt: `_classify_attempt`, `camera_descriptors` and the record of a failed
-- reset before a run.
use rs_camera.Prelude.{
  ℕ, Bool, true, false, not, ◌&&◌, ◌||◌, List, [], ◌∷◌, ◌++◌, map, ◌==◌, is_empty, if◌then◌else◌,
}
use rs_camera.Prelude.Errors.{Error}
use rs_camera.Text.{Str, codes, str_eq}
use rs_camera.Text.Words.{starts_with, or_else}
use rs_camera.Recovery.Data.{Camera, describe}
use rs_camera.Attempts.{AttemptDecision}

-- A camera of a summary; an absent key is the empty text or 0.
pub record SteadyCamera : Type 0 where
  pub serial : Str
  pub physical_port : Str
  pub warmup_deliveries : ℕ
  pub timeouts : ℕ

-- The keys of a summary that decide; `start_boottime_ns` is 0 where it is missing or null.
pub record SteadySummary : Type 0 where
  pub success : Bool
  pub error : Str
  pub start_boottime_ns : ℕ
  pub cameras : List SteadyCamera

-- `probe.get("serials", probe.get("serial", []))`
pub data Serials : Type 0 where
  one : Str → Serials
  many : List Str → Serials

-- `case["probe"]`
pub record Probe : Type 0 where
  pub serials : Serials
  pub rsusb_usb_devices : List Str

unfoldable pub measurement_started : SteadySummary → Bool
measurement_started s = not (s.start_boottime_ns == 0)

abbrev pub serial_list : Serials → List Str
serial_list (one serial) = if is_empty serial then [] else serial ∷ []
serial_list (many serials) = serials

-- `rsusb_ports`, in the order of its insertions.
unfoldable pub rsusb_ports : List Str → List Str → List (Str × Str)
rsusb_ports [] devices = []
rsusb_ports (serial ∷ serials) [] = []
rsusb_ports (serial ∷ serials) (device ∷ devices) =
    (serial, codes "/sys/bus/usb/devices/" ++ device) ∷ rsusb_ports serials devices

-- The port of a serial, empty where there is none; the last insertion counts.
unfoldable pub port_of : Str → List (Str × Str) → Str
port_of serial [] = []
port_of serial ((s, port) ∷ ports) =
    let later = port_of serial ports in if is_empty later && str_eq s serial then port else later

abbrev pub described : List (Str × Str) → SteadyCamera → Camera
described ports camera = record {
  serial = camera.serial;
  physical_port = or_else (port_of camera.serial ports) camera.physical_port;
}

abbrev pub selected_camera : List (Str × Str) → Str → Camera
selected_camera ports serial = record { serial = serial; physical_port = port_of serial ports }

unfoldable pub descriptors : List (Str × Str) → List Str → List SteadyCamera → List Camera
descriptors ports serials [] = map (selected_camera ports) serials
descriptors ports serials (camera ∷ cameras) = map (described ports) (camera ∷ cameras)

unfoldable pub camera_descriptors : Probe → SteadySummary → List Camera
unfolding descriptors rsusb_ports
camera_descriptors probe summary =
    let serials = serial_list probe.serials in
    descriptors (rsusb_ports serials probe.rsusb_usb_devices) serials summary.cameras

pub data FailurePhase : Type 0 where
  no_phase scheduler_setup noise_setup noise_transition measurement startup : FailurePhase

abbrev pub phase_name : FailurePhase → Str
phase_name no_phase = codes "none"
phase_name scheduler_setup = codes "scheduler_setup"
phase_name noise_setup = codes "noise_setup"
phase_name noise_transition = codes "noise_transition"
phase_name measurement = codes "measurement"
phase_name startup = codes "startup"

abbrev pub is_scheduler_error : Str → Bool
is_scheduler_error error =
    starts_with (codes "SCHED_DEADLINE setup failed:") error
    || starts_with (codes "Rate-monotonic setup failed:") error

unfoldable pub failure_phase_of : SteadySummary → FailurePhase
unfolding measurement_started
failure_phase_of s =
    if s.success
    then no_phase
    else if is_scheduler_error s.error
    then scheduler_setup
    else if starts_with (codes "Noise setup failed:") s.error
    then noise_setup
    else if starts_with (codes "Noise transition frame failure:") s.error
    then noise_transition
    else if measurement_started s
    then measurement
    else startup

-- `phase in retryable_phases`
abbrev pub is_retryable : FailurePhase → Bool
is_retryable startup = true
is_retryable noise_transition = true
is_retryable measurement = true
is_retryable _ = false

-- The metadata is `measurement_started`.
unfoldable pub classify_attempt : SteadySummary → AttemptDecision Bool
unfolding failure_phase_of
classify_attempt s =
    let phase = failure_phase_of s in
    record {
      success = s.success;
      failure_phase = phase_name phase;
      retry = not s.success && is_retryable phase;
      recover = not s.success && is_retryable phase;
      error = s.error;
      metadata = measurement_started s;
    }

abbrev pub no_summary : SteadySummary
no_summary = record { success = false; error = []; start_boottime_ns = 0; cameras = [] }

abbrev pub as_steady : Camera → SteadyCamera
as_steady camera = record {
  serial = camera.serial;
  physical_port = camera.physical_port;
  warmup_deliveries = 0;
  timeouts = 0;
}

-- The summary of `record_pre_run_reset_failure`.
unfoldable pub pre_run_reset_summary : Probe → Error → SteadySummary
pre_run_reset_summary probe error = record {
  success = false;
  error = codes "Pre-run reset failed: " ++ describe error;
  start_boottime_ns = 0;
  cameras = map as_steady (camera_descriptors probe no_summary);
}
