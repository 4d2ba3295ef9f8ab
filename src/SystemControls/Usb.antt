-- ===== src/SystemControls/Usb.antt =====
-- The USB side of `SystemControls`: the RSUSB helper, the power control of the cameras.
use rs_camera.Prelude.{
  ℕ, zero, suc, ◌+◌, ◌-◌, true, false, not, ◌||◌, Option, none, some, List, [], ◌∷◌, ◌++◌, leb, ltb,
  is_empty, if◌then◌else◌,
}
use rs_camera.Prelude.Exec.{Exec, pure, raise, gets, modify, raise_if, when, ◌>>=◌, ◌>>◌}
use rs_camera.Prelude.Objects.{on_world, change, this}
use rs_camera.Prelude.Errors.{Error, runtime_error}
use rs_camera.Text.{Str, codes, str_eq, join, strip}
use rs_camera.Text.Words.{is_zero, show_int, or_else}
use rs_camera.Machine.{Machine, Clock, FilePath, ◌/◌, path_text, privileged}
use rs_camera.RealsenseDevices.{DeviceRecord, read_optional_text, discover_realsense_devices}
use rs_camera.SystemControls.State.{SystemControlConfig}
use rs_camera.SystemControls.Frequency.{Method, write_sysfs_value}

-- The dicts of `realsense_usb_power_state`.
pub record PowerState : Type 0 where
  pub device : DeviceRecord
  pub power_control_path : FilePath
  pub power_control : Str

-- `min(0.25, remaining)`
abbrev pub pause : ℕ → ℕ
pause remaining = if leb remaining 250 then remaining else 250

module _ {W : Type 0} (m : Machine W) (clock : Clock W) (c : SystemControlConfig) where
  abbrev helper_failed : Str → Str → Str → Error
  helper_failed action device failure =
      runtime_error (
        codes "Failed to "
        ++ (action ++ (codes " UVC for " ++ (device ++ (codes ": " ++ failure)))))

  -- `while True` of `_run_rsusb_helper` for one device: the command is repeated until it succeeds, and
  -- fails with its last output once the deadline has passed. `polls` bounds the repetitions.
  unfoldable pub retry_helper : Str → Str → ℕ → ℕ → Exec Error W (Unit {0})
  retry_helper action device deadline zero =
      raise (helper_failed action device (codes "too many repetitions"))
  retry_helper action device deadline (suc polls) = do
    completed ←
        m.subprocess (privileged c.use_sudo (path_text c.rsusb_helper ∷ action ∷ device ∷ [])) none
    let failure =
        or_else (strip (completed.stdout ++ completed.stderr))
          (codes "exit status " ++ show_int completed.returncode)
    now ← gets clock.monotonic
    let again =
        modify (clock.sleep (pause (deadline - now))) >> retry_helper action device deadline polls
    if is_zero completed.returncode
        then pure tt
        else if leb deadline now
        then raise (helper_failed action device failure)
        else again

  -- The loop over the devices; every repetition but the last sleeps 250 ms, so that `timeout + 2`
  -- repetitions reach the deadline.
  unfoldable pub run_helper : Str → List Str → Exec Error W (Unit {0})
  unfolding retry_helper
  run_helper action [] = pure tt
  run_helper action (device ∷ devices) = do
    now ← gets clock.monotonic
    retry_helper action device (now + c.rsusb_prepare_timeout_ms) (c.rsusb_prepare_timeout_ms + 2)
    run_helper action devices

  -- `_run_rsusb_helper`
  unfoldable pub run_rsusb_helper : Str → Exec Error W (Unit {0})
  unfolding run_helper
  run_rsusb_helper action = run_helper action c.rsusb_usb_devices

  abbrev pub settle : Exec Error W (Unit {0})
  settle = when (ltb 0 c.rsusb_unbind_settle_ms) (modify (clock.sleep c.rsusb_unbind_settle_ms))

  -- What `_prepare_rsusb_once` and `prepare_rsusb_access` do behind their guards.
  unfoldable pub unbind : Method m clock c (Unit {0})
  unfolding run_rsusb_helper
  unbind = do
    on_world (run_rsusb_helper (codes "unbind"))
    change (λ o. record o { rsusb_unbound = true })
    on_world settle

  unfoldable pub prepare_rsusb_once : Method m clock c (Unit {0})
  unfolding unbind
  prepare_rsusb_once = do
    o ← this
    if not c.rsusb_backend || o.rsusb_unbound then pure tt else unbind

  unfoldable pub prepare_rsusb_access : Method m clock c (Unit {0})
  unfolding unbind
  prepare_rsusb_access = if not c.rsusb_backend then pure tt else unbind

  unfoldable pub restore_v4l2_binding : Method m clock c (Unit {0})
  unfolding run_rsusb_helper
  restore_v4l2_binding = do
    o ← this
    if not o.rsusb_unbound then pure tt else do
      on_world (run_rsusb_helper (codes "bind"))
      change (λ o. record o { rsusb_unbound = false })

  unfoldable pub power_states : List DeviceRecord → W → List PowerState
  power_states [] w = []
  power_states (d ∷ ds) w =
      let control = d.sysfs_path / codes "power" / codes "control" in
      record {
        device = d;
        power_control_path = control;
        power_control = read_optional_text m control w;
      }
      ∷ power_states ds w

  -- `realsense_usb_power_state`
  unfoldable pub realsense_usb_power_state : W → List PowerState
  unfolding power_states
  realsense_usb_power_state w = power_states (discover_realsense_devices m c.usb_sysfs_base w) w

  -- The first loop of `_enforce_realsense_autosuspend`.
  unfoldable pub force_on : List PowerState → Exec Error W (Unit {0})
  force_on [] = pure tt
  force_on (d ∷ ds) = do
    there ← gets (m.is_file d.power_control_path)
    raise_if (not there) (
        runtime_error
          (codes "RealSense power control is unavailable: " ++ path_text d.power_control_path))
    when (not (str_eq d.power_control (codes "on")))
        (write_sysfs_value m clock c d.power_control_path (codes "on"))
    force_on ds

  unfoldable pub not_on : List PowerState → List Str
  not_on [] = []
  not_on (d ∷ ds) =
      let rest = not_on ds in
      if str_eq d.power_control (codes "on")
      then rest
      else (d.device.usb_device ++ (codes "=" ++ or_else d.power_control (codes "unreadable")))
        ∷ rest

  -- `if output is not None: output.write_text(json.dumps(...))`
  abbrev save_power : Option FilePath → Str → Exec Error W (Unit {0})
  save_power none text = pure tt
  save_power (some path) text = m.write_text path (text ++ 10 ∷ [])

  module _ (dumps : Option ℕ → List PowerState → Str) where
    -- `_enforce_realsense_autosuspend`; `dumps` is the JSON of the report.
    unfoldable pub enforce_autosuspend : Option FilePath → Option ℕ → Exec Error W (List PowerState)
    unfolding realsense_usb_power_state force_on not_on
    enforce_autosuspend output attempt = do
      devices ← gets realsense_usb_power_state
      raise_if (is_empty devices)
          (runtime_error (codes "No connected Intel RealSense video camera was found"))
      force_on devices
      verified ← gets realsense_usb_power_state
      raise_if (not (is_empty (not_on verified))) (
          runtime_error (
            codes "RealSense USB autosuspend disable verification failed: "
            ++ join (codes ", ") (not_on verified)))
      save_power output (dumps attempt verified)
      pure verified
