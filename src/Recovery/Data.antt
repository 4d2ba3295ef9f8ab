-- ===== src/Recovery/Data.antt =====
-- What `MultiCameraFullReset` is configured with, and what it reports.
use rs_camera.Prelude.{
  ℕ, Bool, true, false, Option, List, [], ◌∷◌, ◌++◌, ltb, is_empty, if◌then◌else◌,
}
use rs_camera.Prelude.Exec.{Exec}
use rs_camera.Prelude.Errors.{
  Error, value_error, runtime_error, os_error, timeout_expired, called_process_error, index_error,
  zero_division_error, key_error, message,
}
use rs_camera.Text.{Str, codes, show}
use rs_camera.Machine.{FilePath}

pub record CameraRecoveryConfig (W : Type 0) : Type 0 where
  pub reset_probe : FilePath
  pub use_sudo : Bool
  pub reset_timeout_ms : ℕ
  pub enumeration_timeout_ms : ℕ
  pub prepare_enumeration_probe : Option (Exec Error W (Unit {0}))

-- A camera descriptor; an absent key is the empty text.
pub record Camera : Type 0 where
  pub serial : Str
  pub physical_port : Str

-- `_firmware_reset`; an absent `error` is the empty text.
pub record FirmwareReset : Type 0 where
  pub success : Bool
  pub output : Str
  pub reported_physical_port : Str
  pub error : Str

-- `_usb_reset`
pub record UsbReset : Type 0 where
  pub physical_port : Str
  pub success : Bool
  pub output : Str
  pub enumeration_output : Str
  pub error : Str

-- `_recover_camera`
pub record CameraRecovery : Type 0 where
  pub serial : Str
  pub physical_port : Str
  pub success : Bool
  pub hardware_reset : Option FirmwareReset
  pub usb_reset : Option UsbReset
  pub error : Str

-- `recover`
pub record FullReset : Type 0 where
  pub success : Bool
  pub camera_count : ℕ
  pub cameras : List CameraRecovery
  pub error : Str

-- `f"{type(error).__name__}: {error}"`
unfoldable pub error_name : Error → Str
error_name (value_error m) = codes "ValueError"
error_name (runtime_error m) = codes "RuntimeError"
error_name (os_error m) = codes "OSError"
error_name (timeout_expired m) = codes "TimeoutExpired"
error_name (called_process_error m) = codes "CalledProcessError"
error_name (index_error m) = codes "IndexError"
error_name (zero_division_error m) = codes "ZeroDivisionError"
error_name (key_error m) = codes "KeyError"

unfoldable pub describe : Error → Str
unfolding error_name
describe e = error_name e ++ (codes ": " ++ message e)

-- `except subprocess.TimeoutExpired`
unfoldable pub is_timeout : Error → Bool
is_timeout (timeout_expired m) = true
is_timeout e = false

-- `except (OSError, subprocess.TimeoutExpired)`
unfoldable pub is_host_error : Error → Bool
is_host_error (os_error m) = true
is_host_error (timeout_expired m) = true
is_host_error e = false

-- `except (OSError, ValueError, subprocess.TimeoutExpired)`
unfoldable pub is_usb_error : Error → Bool
unfolding is_host_error
is_usb_error (value_error m) = true
is_usb_error e = is_host_error e

-- `f"{n:03d}"`
unfoldable pub padded : ℕ → Str
padded n =
    if ltb n 10 then codes "00" ++ show n else if ltb n 100 then codes "0" ++ show n else show n

-- The errors that are there.
unfoldable pub present : List Str → List Str
present [] = []
present (e ∷ es) = let rest = present es in if is_empty e then rest else e ∷ rest
