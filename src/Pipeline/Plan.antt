-- ===== src/Pipeline/Plan.antt =====
-- Phases, completion markers and boots: the part of reproduction/pipeline.py that decides what runs
-- next, with the kernels of reproduction/setup/kernel.py.
use rs_camera.Prelude.{
  Bool, true, false, not, ◌&&◌, ◌||◌, Option, none, some, List, [], ◌∷◌, ◌++◌, any, if◌then◌else◌,
}
use rs_camera.Prelude.Exec.{Result, ok, err}
use rs_camera.Prelude.Errors.{Error, value_error}
use rs_camera.Text.{Str, codes, str_eq}
use rs_camera.Text.Words.{starts_with, words}
use rs_camera.Machine.{Machine, FilePath, ◌/◌, path_text}

-- The keys of `VARIANTS`.
pub data Variant : Type 0 where
  standard_urb5 standard_urb16 rt_urb16 : Variant

unfoldable pub variant_name : Variant → Str
variant_name standard_urb5 = codes "standard-urb5"
variant_name standard_urb16 = codes "standard-urb16"
variant_name rt_urb16 = codes "rt-urb16"

-- `VARIANTS[variant][0]`
unfoldable pub release_of : Variant → Str
release_of standard_urb5 = codes "6.12.96-rpi5-standard-btf+"
release_of standard_urb16 = codes "6.12.96-rpi5-standard-btf-uvc16+"
release_of rt_urb16 = codes "6.12.96-rpi5-rt-btf-uvc16+"

pub record Phase : Type 0 where
  pub variant : Variant
  pub threaded : Bool
  pub stages : List Str

-- `PHASES`
unfoldable pub all_phases : List Phase
all_phases =
    record { variant = rt_urb16; threaded = false; stages = codes "e1" ∷ codes "e2-calibrate" ∷ [] }
    ∷ record {
      variant = standard_urb16;
      threaded = true;
      stages =
          codes "ablation" ∷ codes "e3" ∷ codes "e4-calibrate" ∷ codes "e4-standard-threaded" ∷ [];
    }
    ∷ record { variant = standard_urb5; threaded = false; stages = codes "e2-urb5" ∷ [] }
    ∷ record {
      variant = standard_urb16;
      threaded = false;
      stages =
          codes "startup"
          ∷ codes "e2-urb16"
          ∷ codes "e4-standard-hardirq"
          ∷ codes "overhead"
          ∷ codes "diagnosis"
          ∷ [];
    }
    ∷ record { variant = rt_urb16; threaded = false; stages = codes "e4-rt-threaded" ∷ [] }
    ∷ []

unfoldable pub is_supplement : Str → Bool
is_supplement stage =
    any (str_eq stage)
      (codes "startup" ∷ codes "ablation" ∷ codes "overhead" ∷ codes "diagnosis" ∷ [])

unfoldable pub main_stages : List Str → List Str
main_stages [] = []
main_stages (stage ∷ stages) =
    let rest = main_stages stages in if is_supplement stage then rest else stage ∷ rest

unfoldable pub without_supplements : List Phase → List Phase
without_supplements [] = []
without_supplements (p ∷ ps) = record p { stages = main_stages p.stages } ∷ without_supplements ps

-- `phases(root, smoke)`
unfoldable pub phases : Bool → List Phase
phases smoke = if not smoke then all_phases else without_supplements all_phases

abbrev pub bool_eq : Bool → Bool → Bool
bool_eq true b = b
bool_eq false b = not b

-- `boot_matches`, on the release and the command line of the running kernel.
unfoldable pub boot_matches : Variant → Bool → Str → Str → Bool
boot_matches variant threaded release cmdline =
    str_eq release (release_of variant)
    && (starts_with (codes "rt-") (variant_name variant)
        || bool_eq (any (str_eq (codes "threadirqs")) (words cmdline)) threaded)

-- `completed/<stage>.json`; a missing key is `none`.
pub record Marker : Type 0 where
  pub stage : Option Str
  pub adapter_sha256 : Option Str

abbrev pub optional_eq : Option Str → Str → Bool
optional_eq none s = false
optional_eq (some t) s = str_eq t s

-- The files of a campaign as the pipeline reads them: JSON and SHA-256 are libraries.
pub record Records (W : Type 0) : Type 0 where
  pub read_marker : FilePath → W → Result Error Marker
  pub digest : FilePath → W → Result Error Str

-- One stage of a phase, from what `complete` says of it, and what follows.
abbrev pub add_pending : Str → Result Error Bool → Result Error (List Str) → Result Error (List Str)
add_pending stage (err e) rest = err e
add_pending stage (ok done) (err e) = err e
add_pending stage (ok done) (ok rest) = ok (if done then rest else stage ∷ rest)

-- One phase, from its pending stages, and the later phases.
abbrev pub pick_phase :
    Phase → Result Error (List Str) → Result Error (Option Phase) → Result Error (Option Phase)
pick_phase p (err e) later = err e
pick_phase p (ok []) later = later
pick_phase p (ok (stage ∷ stages)) later = ok (some (record p { stages = stage ∷ stages }))

module _ {W : Type 0} (m : Machine W) (f : Records W) (root : FilePath) where
  abbrev pub marker_path : Str → FilePath
  marker_path stage = root / codes "completed" / (stage ++ codes ".json")

  abbrev pub script_path : Str → FilePath
  script_path stage = root / codes "entrypoints" / (stage ++ codes ".sh")

  abbrev invalid_marker : Str → Error
  invalid_marker stage =
      value_error (codes "Invalid completion marker: " ++ path_text (marker_path stage))

  -- The comparison of the marker with the stage and with the script; the digest of the script is
  -- taken only for a marker of the same stage.
  unfoldable pub check_marker : Str → Marker → W → Result Error Bool
  check_marker stage marker w =
      if not (optional_eq marker.stage stage)
      then err (invalid_marker stage)
      else elim (f.digest (script_path stage) w) [
        | err e ↦ err e
        | ok sum ↦
            if optional_eq marker.adapter_sha256 sum then ok true else err (invalid_marker stage)
      ]

  -- `complete`
  unfoldable pub complete : Str → W → Result Error Bool
  unfolding check_marker
  complete stage w =
      if not (m.exists (marker_path stage) w)
      then ok false
      else elim (f.read_marker (marker_path stage) w) [
        | err e ↦ err e
        | ok marker ↦ check_marker stage marker w
      ]

  -- `[stage for stage in stages if not complete(root, stage)]`
  unfoldable pub pending_stages : List Str → W → Result Error (List Str)
  pending_stages [] w = ok []
  pending_stages (stage ∷ stages) w = add_pending stage (complete stage w) (pending_stages stages w)

  -- The loop of `next_phase`.
  unfoldable pub first_pending : List Phase → W → Result Error (Option Phase)
  unfolding pending_stages
  first_pending [] w = ok none
  first_pending (p ∷ ps) w = pick_phase p (pending_stages p.stages w) (first_pending ps w)
