-- ===== src/Recovery/Reset.antt =====
-- `_recover_camera`, `recover` and `reset_before_run`.
use rs_camera.Prelude.{
  false, not, ◌&&◌, Option, none, some, List, [], ◌∷◌, ◌++◌, any, all, is_empty, length,
  if◌then◌else◌,
}
use rs_camera.Prelude.Exec.{Exec, pure, raise_if, ◌>>=◌, ◌>>◌}
use rs_camera.Prelude.Errors.{Error, runtime_error}
use rs_camera.Text.{Str, codes, str_eq, join}
use rs_camera.Text.Words.{or_else}
use rs_camera.Machine.{Machine, Clock, FilePath, ◌/◌}
use rs_camera.Recovery.Data.{
  CameraRecoveryConfig, Camera, FirmwareReset, UsbReset, CameraRecovery, FullReset, present,
}
use rs_camera.Recovery.Device.{firmware_reset, usb_reset}

-- The loop over `cameras`: a serial that was seen is skipped, a missing one never.
unfoldable pub distinct : List Str → List Camera → List Camera
distinct seen [] = []
distinct seen (camera ∷ cameras) =
    let skipped = distinct seen cameras in
    let unnamed = camera ∷ distinct seen cameras in
    let kept = camera ∷ distinct (camera.serial ∷ seen) cameras in
    if is_empty camera.serial
    then unnamed
    else if any (str_eq camera.serial) seen
    then skipped
    else kept

abbrev pub camera_failed : Camera → Str → CameraRecovery
camera_failed camera error = record {
  serial = camera.serial;
  physical_port = camera.physical_port;
  success = false;
  hardware_reset = none;
  usb_reset = none;
  error = error;
}

abbrev pub camera_result : Str → Str → FirmwareReset → UsbReset → CameraRecovery
camera_result serial port firmware usb = record {
  serial = serial;
  physical_port = port;
  success = firmware.success && usb.success;
  hardware_reset = some firmware;
  usb_reset = some usb;
  error = join (codes " | ") (present (firmware.error ∷ usb.error ∷ []));
}

-- `[f"{serial}: {error}" for camera in cameras if camera.get("error")]`
unfoldable pub camera_errors : List CameraRecovery → List Str
camera_errors [] = []
camera_errors (r ∷ rs) =
    let rest = camera_errors rs in
    if is_empty r.error then rest else (r.serial ++ (codes ": " ++ r.error)) ∷ rest

unfoldable pub reset_result : List CameraRecovery → FullReset
unfolding camera_errors
reset_result [] = record {
  success = false;
  camera_count = 0;
  cameras = [];
  error = codes "failed run did not report any camera descriptors";
}
reset_result (r ∷ rs) = record {
  success = all (λ x. x.success) (r ∷ rs);
  camera_count = length (r ∷ rs);
  cameras = r ∷ rs;
  error = join (codes " | ") (camera_errors (r ∷ rs));
}

module _ {W : Type 0} (m : Machine W) (clock : Clock W) (c : CameraRecoveryConfig W)
    (parse : Str → Option (Str × Str)) (dumps : FullReset → Str) where
  -- `_recover_camera`
  unfoldable pub recover_camera : Camera → Exec Error W CameraRecovery
  recover_camera camera =
      if is_empty camera.serial
      then pure (camera_failed camera (codes "camera serial is missing"))
      else (firmware_reset m clock c parse camera.serial >>= λ firmware.
          let port = or_else camera.physical_port firmware.reported_physical_port in
          usb_reset m clock c parse camera.serial port >>= λ usb.
          pure (camera_result camera.serial port firmware usb))

  unfoldable pub recover_cameras : List Camera → Exec Error W (List CameraRecovery)
  unfolding recover_camera
  recover_cameras [] = pure []
  recover_cameras (camera ∷ cameras) = do
    first ← recover_camera camera
    rest ← recover_cameras cameras
    pure (first ∷ rest)

  -- `recover`
  unfoldable pub recover : List Camera → FilePath → Exec Error W FullReset
  unfolding recover_cameras
  recover cameras record_dir = do
    recovered ← recover_cameras (distinct [] cameras)
    m.make_dir record_dir
    m.write_text (record_dir / codes "recovery.json") (dumps (reset_result recovered) ++ 10 ∷ [])
    pure (reset_result recovered)

  -- `reset_before_run`
  unfoldable pub reset_before_run : List Camera → FilePath → Exec Error W FullReset
  unfolding recover
  reset_before_run cameras record_dir = do
    result ← recover cameras (record_dir / codes "pre_run_reset")
    m.write_text (record_dir / codes "pre_run_reset.json") (dumps result ++ 10 ∷ [])
    raise_if (not result.success)
        (runtime_error (codes "pre-run RealSense full reset failed: " ++ result.error))
    pure result
