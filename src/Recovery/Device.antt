-- ===== src/Recovery/Device.antt =====
-- The commands on one camera: `_firmware_reset`, `_usb_reset` and what they use.
use rs_camera.Prelude.{
  ℕ, zero, suc, ◌+◌, ◌-◌, Bool, true, false, not, ◌&&◌, Option, none, some, List, [], ◌∷◌, ◌++◌,
  map, leb, if◌then◌else◌,
}
use rs_camera.Prelude.Exec.{
  Result, ok, err, Exec, pure, raise, lift, gets, modify, try_except, ◌>>=◌, ◌>>◌,
}
use rs_camera.Prelude.Errors.{Error, value_error}
use rs_camera.Text.{Str, codes, show, str_eq, strip, is_digit, int_of}
use rs_camera.Text.Words.{is_zero, starts_with, drop_prefix, contains, split_lines}
use rs_camera.Machine.{Machine, Clock, FilePath, ◌/◌, path_text, Completed}
use rs_camera.CpuIsolation.Irqs.{path_parts}
use rs_camera.Recovery.Data.{
  CameraRecoveryConfig, FirmwareReset, UsbReset, describe, is_host_error, is_usb_error, is_timeout,
  padded,
}

-- `(path, *path.parents)`
unfoldable pub with_parents : FilePath → List FilePath
with_parents [] = [] ∷ []
with_parents (c ∷ cs) = map (λ p. c ∷ p) (with_parents cs) ++ [] ∷ []

-- `min(0.25, max(0.0, remaining))`
abbrev pub short_pause : ℕ → ℕ
short_pause remaining = if leb remaining 250 then remaining else 250

-- `int(text)` of a number in sysfs.
unfoldable pub read_number : Str → Result Error ℕ
read_number text =
    if is_digit (strip text)
    then ok (int_of (strip text))
    else err (value_error (codes "invalid literal for int() with base 10"))

abbrev pub failed_usb : Str → Str → Str → UsbReset
failed_usb port output error = record {
  physical_port = port;
  success = false;
  output = output;
  enumeration_output = [];
  error = error;
}

module _ {W : Type 0} (m : Machine W) (clock : Clock W) (c : CameraRecoveryConfig W)
    (parse : Str → Option (Str × Str)) where
  -- `_privileged`
  unfoldable pub privileged_reset : Bool → List Str → List Str
  privileged_reset preserve command =
      if not c.use_sudo
      then command
      else codes "sudo"
        ∷ codes "--non-interactive"
        ∷ (if preserve then codes "--preserve-env=LD_LIBRARY_PATH" ∷ command else command)

  unfoldable pub first_device : List FilePath → W → Option FilePath
  first_device [] w = none
  first_device (p ∷ ps) w =
      let rest = first_device ps w in
      if m.is_file (p / codes "busnum") w && m.is_file (p / codes "devnum") w then some p else rest

  -- `_usb_device_from_physical_port`
  unfoldable pub usb_device : Str → W → Option FilePath
  unfolding with_parents first_device
  usb_device physical_port w =
      if not (starts_with (codes "/sys/") physical_port)
      then none
      else first_device (with_parents (m.resolve (path_parts [] physical_port) w)) w

  abbrev reset_prefix : Str
  reset_prefix = codes "RS_HARDWARE_RESET "

  -- One line of the output: the port that a requested reset reports. `parse` gives the state and the
  -- port of a JSON object, or nothing for text that is no JSON.
  unfoldable pub port_of_line : Str → Option Str
  port_of_line line =
      if not (starts_with reset_prefix line)
      then none
      else elim (parse (drop_prefix reset_prefix line)) [
        | none ↦ none
        | some (state, port) ↦ if str_eq state (codes "requested") then some port else none
      ]

  unfoldable pub port_of_lines : List Str → Str
  unfolding port_of_line
  port_of_lines [] = []
  port_of_lines (line ∷ lines) = elim (port_of_line line) [
    | some port ↦ port
    | none ↦ port_of_lines lines
  ]

  abbrev pub presence_command : Str → List Str
  presence_command serial =
      privileged_reset true
        (path_text c.reset_probe ∷ codes "--device-present" ∷ codes "--serial" ∷ serial ∷ [])

  -- `_probe_can_find_serial`
  unfoldable pub probe_can_find : Str → Exec Error W (Bool × Str)
  probe_can_find serial =
      try_except
        (m.subprocess (presence_command serial) none >>= λ completed.
          pure (is_zero completed.returncode, strip (completed.stdout ++ completed.stderr)))
        (λ e.
          if is_timeout e
          then pure (false, codes "device enumeration probe timed out")
          else raise e)

  -- The result of a firmware reset that has run.
  unfoldable pub firmware_result : Completed → FirmwareReset
  unfolding port_of_lines
  firmware_result completed =
      let output = completed.stdout ++ completed.stderr in
      let success =
        is_zero completed.returncode && contains (codes "\"state\":\"complete\"") output in
      record {
        success = success;
        output = strip output;
        reported_physical_port = port_of_lines (split_lines output);
        error = if success then [] else codes "RealSense firmware hardware reset did not complete";
      }

  abbrev pub no_firmware : Error → FirmwareReset
  no_firmware e = record {
    success = false;
    output = [];
    reported_physical_port = [];
    error = describe e;
  }

  abbrev pub firmware_command : Str → List Str
  firmware_command serial = privileged_reset true (
      path_text c.reset_probe
      ∷ codes "--hardware-reset"
      ∷ codes "--reset-timeout-ms"
      ∷ show c.reset_timeout_ms
      ∷ codes "--serial"
      ∷ serial
      ∷ [])

  -- `_firmware_reset`
  unfoldable pub firmware_reset : Str → Exec Error W FirmwareReset
  unfolding firmware_result
  firmware_reset serial =
      try_except
        (m.subprocess (firmware_command serial) none >>= λ completed.
          pure (firmware_result completed))
        (λ e. if is_host_error e then pure (no_firmware e) else raise e)

  -- The loop that waits for the camera: whether it was seen, and the last output. A round that does
  -- not see it sleeps, so that `rounds` bounds it.
  unfoldable pub await_camera : Str → ℕ → ℕ → Str → Exec Error W (Bool × Str)
  unfolding probe_can_find
  await_camera serial deadline zero last_output = pure (false, last_output)
  await_camera serial deadline (suc rounds) last_output = do
    now ← gets clock.monotonic
    let probe = probe_can_find serial >>= λ (visible, output). gets clock.monotonic >>= λ later.
        let again =
          modify (clock.sleep (short_pause (deadline - later)))
          >> await_camera serial deadline rounds output in
        if visible then pure (true, output) else again
    if leb deadline now then pure (false, last_output) else probe

  abbrev pub prepare_probe : Option (Exec Error W (Unit {0})) → Exec Error W (Unit {0})
  prepare_probe none = pure tt
  prepare_probe (some action) = action

  abbrev pub usb_result : Str → Str → Bool × Str → UsbReset
  usb_result port output (visible, enumeration) = record {
    physical_port = port;
    success = visible;
    output = output;
    enumeration_output = enumeration;
    error = if visible then [] else codes "camera did not reappear before recovery timeout";
  }

  -- The part of `_usb_reset` behind a successful `usbreset`.
  unfoldable pub after_usbreset : Str → Str → Str → Exec Error W UsbReset
  unfolding await_camera
  after_usbreset serial port output = do
    prepare_probe c.prepare_enumeration_probe
    now ← gets clock.monotonic
    seen ← await_camera serial (now + c.enumeration_timeout_ms) (c.enumeration_timeout_ms + 2) []
    pure (usb_result port output seen)

  abbrev pub usbreset_command : ℕ → ℕ → List Str
  usbreset_command bus number =
      privileged_reset false (codes "usbreset" ∷ (padded bus ++ (codes "/" ++ padded number)) ∷ [])

  -- What the command has printed stays in the result of an error that follows.
  unfoldable pub reset_device : Str → Str → FilePath → Exec Error W UsbReset
  unfolding after_usbreset
  reset_device serial port device = do
    bus_text ← (λ w. (m.read_text (device / codes "busnum") w, w))
    bus ← lift (read_number bus_text)
    number_text ← (λ w. (m.read_text (device / codes "devnum") w, w))
    number ← lift (read_number number_text)
    completed ← m.subprocess (usbreset_command bus number) none
    let output = strip (completed.stdout ++ completed.stderr)
    if not (is_zero completed.returncode)
        then pure (failed_usb port output (codes "usbreset failed"))
        else try_except (after_usbreset serial port output)
            (λ e. if is_usb_error e then pure (failed_usb port output (describe e)) else raise e)

  -- `_usb_reset`
  unfoldable pub usb_reset : Str → Str → Exec Error W UsbReset
  unfolding usb_device reset_device
  usb_reset serial port w = elim (usb_device port w) [
    | none ↦ (
      ok (failed_usb port [] (codes "could not resolve the camera to a composite USB device")),
      w,
    )
    | some device ↦
        try_except (reset_device serial port device)
          (λ e. if is_usb_error e then pure (failed_usb port [] (describe e)) else raise e) w
  ]
