-- ===== src/Recovery/Outcome.antt =====
-- When a full reset counts as a success, and what has run on the host for every camera then.
use rs_camera.Prelude.{Bool, true, false, ◌||◌, ◌≡◌, Option, List, [], ◌∷◌, All, any, is_empty}
use rs_camera.Prelude.After.{After}
use rs_camera.Text.{Str, str_eq}
use rs_camera.Machine.{Machine, Clock}
use rs_camera.Recovery.Data.{CameraRecoveryConfig, Camera, CameraRecovery, FullReset}
use rs_camera.Recovery.Commands.{FirmwareRan, UsbRan}

-- A camera with the serial of this one is in the list.
abbrev pub Covers : List Camera → Camera → Type 0
Covers chosen camera = any (λ (d : Camera). str_eq camera.serial d.serial) chosen ≡ true

-- Seen before, or kept.
abbrev Accounted : List Str → List Camera → Camera → Type 0
Accounted seen kept camera =
    (any (str_eq camera.serial) seen || any (λ (d : Camera). str_eq camera.serial d.serial) kept)
    ≡ true

abbrev is_kept : Camera → List Camera → Bool
is_kept camera kept = any (λ (d : Camera). str_eq camera.serial d.serial) kept

module _ {W : Type 0} (m : Machine W) (clock : Clock W) (c : CameraRecoveryConfig W)
    (parse : Str → Option (Str × Str)) (dumps : FullReset → Str) where
  -- Between the two worlds the firmware and then the USB device of the camera were reset, and the camera was
  -- found again. The port is that of the camera where it has one.
  pub record IsReset (camera : Camera) (r : CameraRecovery) (w t : W) : Type 0 where
    pub serial : r.serial ≡ camera.serial
    pub port : Str
    pub own_port : is_empty camera.physical_port ≡ false → port ≡ camera.physical_port
    pub middle : W
    pub firmware : FirmwareRan m clock c parse camera.serial w middle
    pub usb : UsbRan m clock c parse camera.serial port middle t

  -- The results belong to the cameras, in their order; one that succeeded was reset.
  abbrev Match : List Camera → List CameraRecovery → W → W → Type 0
  Match [] [] w t = w ≡ t
  Match [] (r ∷ rs) w t = ⊥
  Match (camera ∷ cameras) [] w t = ⊥
  Match (camera ∷ cameras) (r ∷ rs) w t =
      (v : W) × (r.success ≡ true → IsReset camera r w v) × Match cameras rs v t

  -- Every camera was reset, one after the other.
  abbrev pub AllReset : List Camera → List CameraRecovery → W → W → Type 0
  AllReset [] [] w t = w ≡ t
  AllReset [] (r ∷ rs) w t = ⊥
  AllReset (camera ∷ cameras) [] w t = ⊥
  AllReset (camera ∷ cameras) (r ∷ rs) w t =
      (v : W) × IsReset camera r w v × AllReset cameras rs v t

  -- Each of the cameras was reset under its serial, and there was one.
  abbrev pub CamerasReset : List Camera → FullReset → W → Type 0
  CamerasReset cameras result w =
      (is_empty result.cameras ≡ false)
      × ((chosen : List Camera) × (t : W) × All (Covers chosen) cameras
          × AllReset chosen result.cameras w t)

  abbrev pub Sound : List Camera → FullReset → W → Type 0
  Sound cameras result w = result.success ≡ true → CamerasReset cameras result w
