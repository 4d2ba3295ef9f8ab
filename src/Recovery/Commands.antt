-- ===== src/Recovery/Commands.antt =====
-- What has run on the host when the reset of a camera reports success.
use rs_camera.Prelude.{
  ℕ, zero, suc, ◌+◌, Bool, true, false, not, ◌≡◌, refl, Option, none, some, [], ◌++◌, leb, &&_split,
  if◌then◌else◌, Option-cases, inl, inr,
}
use rs_camera.Prelude.Exec.{ok, pure, raise, ◌>>=◌}
use rs_camera.Prelude.Errors.{Error}
use rs_camera.Prelude.After.{
  After, After-any, After-bind, After-if, After-calling, After-lift, After-try, After-map,
}
use rs_camera.Text.{Str, codes, strip}
use rs_camera.Text.Words.{is_zero, contains, starts_with}
use rs_camera.Machine.{Machine, Clock, FilePath, Completed, ◌/◌}
use rs_camera.Recovery.Data.{
  CameraRecoveryConfig, FirmwareReset, UsbReset, is_host_error, is_usb_error, is_timeout,
}
use rs_camera.Recovery.Device.{
  read_number, usb_device, presence_command, firmware_command, usbreset_command, firmware_result,
  no_firmware, probe_can_find, firmware_reset, await_camera, prepare_probe, after_usbreset,
  reset_device, usb_reset,
}

module _ {W : Type 0} (m : Machine W) (clock : Clock W) (c : CameraRecoveryConfig W)
    (parse : Str → Option (Str × Str)) where
  -- The firmware of the camera was reset between the two worlds: the command ended with status 0 and said that
  -- the reset is complete.
  pub record FirmwareRan (serial : Str) (w v : W) : Type 0 where
    pub completed : Completed
    pub run : m.subprocess (firmware_command m clock c parse serial) none w ≡ (ok completed, v)
    pub status : is_zero completed.returncode ≡ true
    pub complete :
        contains (codes "\"state\":\"complete\"") (completed.stdout ++ completed.stderr) ≡ true

  -- The camera was found again, and nothing was done since.
  pub record Seen (serial : Str) (t : W) : Type 0 where
    pub earlier : W
    pub answer : Completed
    pub run : m.subprocess (presence_command m clock c parse serial) none earlier ≡ (ok answer, t)
    pub status : is_zero answer.returncode ≡ true

  -- The USB device behind the port was reset, and then the camera was found again.
  pub record UsbRan (serial port : Str) (v t : W) : Type 0 where
    pub device : FilePath
    pub resolved : usb_device m clock c parse port v ≡ some device
    pub bus : ℕ
    pub number : ℕ
    pub completed : Completed
    pub later : W
    pub run :
        m.subprocess (usbreset_command m clock c parse bus number) none v ≡ (ok completed, later)
    pub status : is_zero completed.returncode ≡ true
    pub seen : Seen serial t

  abbrev pub FirmwareKnown : Str → W → FirmwareReset → W → Type 0
  FirmwareKnown serial w r v = r.success ≡ true → FirmwareRan serial w v

  abbrev SeenKnown : Str → Bool × Str → W → Type 0
  SeenKnown serial r t = r.0 ≡ true → Seen serial t

  pub firmware_reset-Ran :
      (serial : Str) (w : W)
      → After (FirmwareKnown serial w) (λ _ _. Unit) (firmware_reset m clock c parse serial w)
  unfolding firmware_reset firmware_result
  firmware_reset-Ran serial w =
      After-try {E = Error} (FirmwareKnown serial w) (λ _ _. Unit)
        (m.subprocess (firmware_command m clock c parse serial) none >>= λ completed.
          pure (firmware_result m clock c parse completed))
        (λ x. if is_host_error x then pure (no_firmware m clock c parse x) else raise x) w
        (After-calling (FirmwareKnown serial w)
          (λ x t.
            After (FirmwareKnown serial w) (λ _ _. Unit)
              ((if is_host_error x then pure (no_firmware m clock c parse x) else raise x) t))
          (m.subprocess (firmware_command m clock c parse serial) none)
          (λ completed. pure (firmware_result m clock c parse completed)) w
          (λ completed v run e.
            let (status, complete) = &&_split (is_zero completed.returncode) _ e in
            record { completed = completed; run = run; status = status; complete = complete })
          (λ e v _.
            After-if (FirmwareKnown serial w) (λ _ _. Unit) (is_host_error e) _ _ v (λ _ x. cc x)
              (λ _. tt)))

  probe-Seen :
      (serial : Str) (w : W)
      → After (SeenKnown serial) (λ _ _. Unit) (probe_can_find m clock c parse serial w)
  unfolding probe_can_find
  probe-Seen serial w =
      After-try {E = Error} (SeenKnown serial) (λ _ _. Unit)
        (m.subprocess (presence_command m clock c parse serial) none >>= λ answer.
          pure (is_zero answer.returncode, strip (answer.stdout ++ answer.stderr)))
        (λ x.
          if is_timeout x
          then pure (false, codes "device enumeration probe timed out")
          else raise x)
        w
        (After-calling (SeenKnown serial)
          (λ x t.
            After (SeenKnown serial) (λ _ _. Unit)
              ((if is_timeout x
                  then pure (false, codes "device enumeration probe timed out")
                  else raise x)
                t))
          (m.subprocess (presence_command m clock c parse serial) none)
          (λ answer. pure (is_zero answer.returncode, strip (answer.stdout ++ answer.stderr))) w
          (λ answer t run e. record { earlier = w; answer = answer; run = run; status = e })
          (λ e t _.
            After-if (SeenKnown serial) (λ _ _. Unit) (is_timeout e) _ _ t (λ _ x. cc x) (λ _. tt)))

  await-Seen :
      (serial : Str) (deadline rounds : ℕ) (last_output : Str) (w : W)
      → After
          (SeenKnown serial)
          (λ _ _. Unit)
          (await_camera m clock c parse serial deadline rounds last_output w)
  unfolding await_camera
  await-Seen serial deadline zero last_output w = λ e. cc e
  await-Seen serial deadline (suc rounds) last_output w =
      After-if (SeenKnown serial) (λ _ _. Unit) (leb deadline (clock.monotonic w)) _ _ w
        (λ _ e. cc e)
        (λ _.
          After-bind (SeenKnown serial) (λ _ _. Unit) (probe_can_find m clock c parse serial) _ w
            (After-map _ _ _ _ (probe_can_find m clock c parse serial w) (probe-Seen serial w)
              (λ (visible, output) t seen.
                After-if (SeenKnown serial) (λ _ _. Unit) visible _ _ t (λ found _. seen found)
                  (λ _. await-Seen serial deadline rounds output (clock.sleep _ t)))
              (λ _ _ _. tt)))

  after-Seen :
      (serial port output : Str) (w : W)
      → After
          (λ r t. r.success ≡ true → Seen serial t)
          (λ _ _. Unit)
          (after_usbreset m clock c parse serial port output w)
  unfolding after_usbreset
  after-Seen serial port output w =
      After-bind (λ r t. r.success ≡ true → Seen serial t) (λ _ _. Unit)
        (prepare_probe m clock c parse c.prepare_enumeration_probe) _ w
        (After-any _ _ (prepare_probe m clock c parse c.prepare_enumeration_probe w)
          (λ _ v.
            After-bind (λ r t. r.success ≡ true → Seen serial t) (λ _ _. Unit)
              (await_camera m clock c parse serial _ (c.enumeration_timeout_ms + 2) []) _ v
              (After-map _ _ _ _
                (await_camera m clock c parse serial _ (c.enumeration_timeout_ms + 2) [] v)
                (await-Seen serial _ (c.enumeration_timeout_ms + 2) [] v) (λ r t seen. seen)
                (λ _ _ _. tt)))
          (λ _ _. tt))

  reset_device-Ran :
      (serial port : Str) (device : FilePath) (v : W)
      → usb_device m clock c parse port v ≡ some device
      → After
          (λ r t. r.success ≡ true → UsbRan serial port v t)
          (λ _ _. Unit)
          (reset_device m clock c parse serial port device v)
  unfolding reset_device
  reset_device-Ran serial port device v resolved =
      After-lift P (λ _ _. Unit) (m.read_text (device / codes "busnum") v) _ v
        (λ bus_text _.
          After-lift P (λ _ _. Unit) (read_number bus_text) _ v
            (λ bus _.
              After-lift P (λ _ _. Unit) (m.read_text (device / codes "devnum") v) _ v
                (λ number_text _.
                  After-lift P (λ _ _. Unit) (read_number number_text) _ v
                    (λ number _.
                      After-calling P (λ _ _. Unit)
                        (m.subprocess (usbreset_command m clock c parse bus number) none) _ v
                        (λ completed u run.
                          After-if P (λ _ _. Unit) (not (is_zero completed.returncode)) _ _ u
                            (λ _ e. cc e)
                            (λ passed.
                              After-try {E = Error} P (λ _ _. Unit)
                                (after_usbreset m clock c parse serial port _) _ u
                                (After-map _ _ _ _ (after_usbreset m clock c parse serial port _ u)
                                  (after-Seen serial port _ u)
                                  (λ r t seen e. record {
                                    device = device;
                                    resolved = resolved;
                                    bus = bus;
                                    number = number;
                                    completed = completed;
                                    later = u;
                                    run = run;
                                    status = passed_status (is_zero completed.returncode) passed;
                                    seen = seen e;
                                  })
                                  (λ x t _.
                                    After-if P (λ _ _. Unit) (is_usb_error x) _ _ t (λ _ e. cc e)
                                      (λ _. tt)))))
                        (λ _ _ _. tt))
                    (λ _ _. tt))
                (λ _ _. tt))
            (λ _ _. tt))
        (λ _ _. tt)
    where
      P : UsbReset → W → Type 0
      P r t = r.success ≡ true → UsbRan serial port v t

      passed_status : (b : Bool) → not b ≡ false → b ≡ true
      passed_status true e = refl
      passed_status false e = cc e

  pub usb_reset-Ran :
      (serial port : Str) (v : W)
      → After
          (λ r t. r.success ≡ true → UsbRan serial port v t)
          (λ _ _. Unit)
          (usb_reset m clock c parse serial port v)
  unfolding usb_reset starts_with
  usb_reset-Ran serial port v = elim (Option-cases (usb_device m clock c parse port v)) [
    | inl missing ↦ rw missing (λ e. cc e)
    | inr (device, resolved) ↦ rw resolved (
        After-try {E = Error} P (λ _ _. Unit) (reset_device m clock c parse serial port device) _ v
          (After-map P _ (λ _ _. Unit) _ (reset_device m clock c parse serial port device v)
            (reset_device-Ran serial port device v resolved) (λ _ _ k. k)
            (λ x t _. After-if P (λ _ _. Unit) (is_usb_error x) _ _ t (λ _ e. cc e) (λ _. tt))))
  ]
    where
      P : UsbReset → W → Type 0
      P r t = r.success ≡ true → UsbRan serial port v t
