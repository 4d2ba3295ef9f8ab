-- ===== src/SystemControls/Campaign.antt =====
-- What `SystemControls` does before a campaign, before an attempt, and at the end.
use rs_camera.Prelude.{
  ℕ, Bool, not, ◌&&◌, Option, none, some, List, [], ◌∷◌, ◌++◌, is_empty, if◌then◌else◌,
}
use rs_camera.Prelude.Exec.{Exec, pure, gets, raise_if, when, try_except, ◌>>=◌, ◌>>◌}
use rs_camera.Prelude.Objects.{on_world}
use rs_camera.Prelude.Errors.{Error, runtime_error, message}
use rs_camera.Text.{Str, codes, join}
use rs_camera.Machine.{Machine, Clock, FilePath, ◌/◌, path_text}
use rs_camera.CpuIsolation.{Isolation, Report, restore}
use rs_camera.CpuIsolation.Validate.{validate_environment as validate_isolation}
use rs_camera.CpuIsolation.Verify.{verify}
use rs_camera.CpuIsolation.Prepare.{prepare}
use rs_camera.SystemControls.State.{SystemControlConfig, CpuState}
use rs_camera.SystemControls.Frequency.{Method, lock_cpu_once, restore_cpu_frequency}
use rs_camera.SystemControls.Usb.{
  PowerState, prepare_rsusb_once, prepare_rsusb_access, restore_v4l2_binding, enforce_autosuspend,
}

abbrev rsusb_constants : Error
rsusb_constants =
    runtime_error (codes "RSUSB campaign constants require one USB device per connected camera")

module _ {W : Type 0} (m : Machine W) (clock : Clock W) (c : SystemControlConfig) where
  -- The list `helpers`.
  abbrev pub helpers : List FilePath
  helpers =
      (elim c.cpu_frequency_mhz [
        | none ↦ []
        | some mhz ↦ c.cpu_lock_script ∷ c.cpu_restore_script ∷ []
      ])
      ++ (if c.rsusb_backend then c.rsusb_helper ∷ [] else [])

  unfoldable pub check_helpers : List FilePath → Exec Error W (Unit {0})
  check_helpers [] = pure tt
  check_helpers (helper ∷ rest) = do
    there ← gets (m.is_file helper)
    raise_if (not there) (runtime_error (codes "Required helper is missing: " ++ path_text helper))
    check_helpers rest

  -- `validate_environment`
  unfoldable pub validate_controls : Exec Error W (Unit {0})
  unfolding check_helpers
  validate_controls = do
    raise_if (c.rsusb_backend && is_empty c.rsusb_usb_devices) rsusb_constants
    check_helpers helpers
    validate_isolation m c.isolation

  -- `snapshot_topology`; the status of the command is not looked at.
  unfoldable pub snapshot_topology : FilePath → Exec Error W (Unit {0})
  snapshot_topology output = do
    completed ←
        m.subprocess
          (c.python
            ∷ path_text (c.tool_dir / codes "snapshot_topology.py")
            ∷ codes "--output"
            ∷ path_text output
            ∷ [])
          none
    pure tt

  module _ (dumps : Report → Str) (power_dumps : Option ℕ → List PowerState → Str) where
    -- A method of `_cpu_isolation`.
    abbrev pub on_isolation : {A : Type 0} → Exec Error (Isolation × W) A → Method m clock c A
    on_isolation action (o, w) =
        let (r, (isolation, w')) = action (o.isolation, w) in
        (r, (record o { isolation = isolation }, w'))

    -- `prepare_campaign`
    unfoldable pub prepare_campaign : FilePath → Method m clock c CpuState
    prepare_campaign record_dir = do
      on_isolation (prepare m dumps c.isolation record_dir)
      cpu_state ← lock_cpu_once m clock c record_dir
      when (not c.rsusb_prepare_each_attempt) (prepare_rsusb_once m clock c)
      when c.disable_realsense_autosuspend (
          on_world (
            enforce_autosuspend m clock c power_dumps
              (some (record_dir / codes "realsense_autosuspend_campaign.json")) none)
          >> pure tt)
      pure cpu_state

    abbrev attempt_output : Bool → FilePath → Option FilePath
    attempt_output there attempt_dir =
        if there then some (attempt_dir / codes "realsense_autosuspend.json") else none

    -- `prepare_attempt`
    unfoldable pub prepare_attempt : ℕ → FilePath → Method m clock c (Unit {0})
    prepare_attempt attempt attempt_dir = do
      on_isolation
          (verify m dumps c.isolation (some (attempt_dir / codes "cpu_isolation_before.json")))
      when c.rsusb_backend (
          if c.rsusb_prepare_each_attempt
          then prepare_rsusb_access m clock c
          else prepare_rsusb_once m clock c)
      there ← on_world (gets (m.is_dir attempt_dir))
      when c.disable_realsense_autosuspend (
          on_world (
            enforce_autosuspend m clock c power_dumps (attempt_output there attempt_dir)
              (some attempt))
          >> pure tt)

    -- One round of `cleanup`: an error is collected under the description of the action.
    unfoldable pub attempt_cleanup : Str → Method m clock c (Unit {0}) → Method m clock c (List Str)
    attempt_cleanup description action =
        try_except (action >> pure []) (λ e. pure ((description ++ (codes ": " ++ message e)) ∷ []))

    -- `cleanup`
    unfoldable pub cleanup : Method m clock c (Unit {0})
    unfolding attempt_cleanup
    cleanup = do
      binding ← attempt_cleanup (codes "restore V4L2 binding") (restore_v4l2_binding m clock c)
      isolation ←
          attempt_cleanup (codes "restore CPU isolation")
            (on_isolation (restore m dumps c.isolation))
      frequency ← attempt_cleanup (codes "restore CPU frequency") (restore_cpu_frequency m clock c)
      let errors = binding ++ (isolation ++ frequency)
      raise_if (not (is_empty errors)) (runtime_error (join (codes " | ") errors))
