-- ===== src/SteadyAttempts/PreRunReset.antt =====
-- A reset that fails before an attempt is an attempt that failed at start-up.
use rs_camera.Prelude.{◌≡◌, refl, true, List, [], ◌∷◌, map, ap₂}
use rs_camera.Prelude.Errors.{Error}
use rs_camera.Text.{Str}
use rs_camera.Text.Words.{starts_with, or_else}
use rs_camera.SteadyAttempts.Classify.{
  Probe, rsusb_ports, port_of, serial_list, described, selected_camera, as_steady, descriptors,
  camera_descriptors, startup, failure_phase_of, classify_attempt, no_summary,
  pre_run_reset_summary, measurement_started,
}

or_else-same : (s : Str) → or_else s s ≡ s
or_else-same [] = refl
or_else-same (c ∷ s) = refl

described-selected :
    (ports : List (Str × Str)) (serial : Str)
    → described ports (as_steady (selected_camera ports serial)) ≡ selected_camera ports serial
described-selected ports serial =
    λ i. record { serial = serial; physical_port = or_else-same (port_of serial ports) i }

again :
    (ports : List (Str × Str)) (serials : List Str)
    → map (described ports) (map as_steady (map (selected_camera ports) serials))
      ≡ map (selected_camera ports) serials
again ports [] = refl
again ports (serial ∷ serials) =
    ap₂ (λ x xs. x ∷ xs) (described-selected ports serial) (again ports serials)

descriptors-again :
    (ports : List (Str × Str)) (serials : List Str)
    → descriptors ports serials (map as_steady (map (selected_camera ports) serials))
      ≡ map (selected_camera ports) serials
unfolding descriptors
descriptors-again ports [] = refl
descriptors-again ports (serial ∷ serials) = again ports (serial ∷ serials)

-- The summary that is recorded for a reset that failed is classified as a failure at start-up, which is
-- to be repeated behind a recovery, and that recovery is one of the cameras of the case.
pub pre_run_reset_lem :
    (probe : Probe) (error : Error)
    → (failure_phase_of (pre_run_reset_summary probe error) ≡ startup)
      × ((classify_attempt (pre_run_reset_summary probe error)).retry ≡ true)
      × ((classify_attempt (pre_run_reset_summary probe error)).recover ≡ true)
      × (camera_descriptors probe (pre_run_reset_summary probe error)
          ≡ camera_descriptors probe no_summary)
unfolding pre_run_reset_summary failure_phase_of classify_attempt starts_with measurement_started
    camera_descriptors descriptors
pre_run_reset_lem probe error =
    let serials = serial_list probe.serials in
    (refl, refl, refl, descriptors-again (rsusb_ports serials probe.rsusb_usb_devices) serials)
