-- ===== src/Recovery/Tests.antt =====
-- The theorems on the full reset, on a small host where the command of every reset succeeds.
use rs_camera.Prelude.{true, ◌≡◌, refl, Option, none, List, [], ◌∷◌}
use rs_camera.Prelude.After.{After}
use rs_camera.Machine.{Machine, Clock}
use rs_camera.Prelude.Exec.{ok}
use rs_camera.Text.Words.{pos}
use rs_camera.Machine.Sample.{Files, sample}
use rs_camera.Text.{Str, codes, str_eq}
use rs_camera.Recovery.Data.{CameraRecoveryConfig, Camera, FullReset}
use rs_camera.Recovery.Reset.{distinct}

abbrev config : CameraRecoveryConfig Files
config = record {
  reset_probe = codes "probe" ∷ [];
  use_sudo = true;
  reset_timeout_ms = 5000;
  enumeration_timeout_ms = 10000;
  prepare_enumeration_probe = none;
}

abbrev clock : Clock Files
clock = record { monotonic = λ w. 0; sleep = λ ms w. w }

abbrev camera : Str → Camera
camera serial = record { serial = serial; physical_port = codes "/sys/bus/usb/devices/2-1" }

abbrev cameras : List Camera
cameras = camera (codes "11") ∷ camera [] ∷ camera (codes "11") ∷ camera (codes "12") ∷ []

abbrev files : Files
files =
    (codes "/sys/bus/usb/devices/2-1/busnum", codes "2\n")
    ∷ (codes "/sys/bus/usb/devices/2-1/devnum", codes "7\n")
    ∷ []

abbrev parse : Str → Option (Str × Str)
parse text = none

abbrev dumps : FullReset → Str
dumps result = codes "{}"

-- The second camera with serial 11 is dropped, the one without a serial is kept.
distinct-cameras : distinct [] cameras ≡ camera (codes "11") ∷ camera [] ∷ camera (codes "12") ∷ []
unfolding distinct str_eq
distinct-cameras = refl

abbrev two_cameras : List Camera
two_cameras = camera (codes "11") ∷ camera (codes "12") ∷ []

-- A host where every command succeeds, and says that the reset is complete.
abbrev host : Machine Files
host = record sample {
  subprocess = λ command input w. (
    ok (record { returncode = pos 0; stdout = codes "{\"state\":\"complete\"}"; stderr = [] }),
    w,
  );
}
