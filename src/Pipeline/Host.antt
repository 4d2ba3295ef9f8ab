-- ===== src/Pipeline/Host.antt =====
-- What the pipeline keeps in the files of a campaign, and what it asks of the running system.
use rs_camera.Prelude.{ℕ, Bool, true, false, Option, none, some, List, [], ◌∷◌}
use rs_camera.Prelude.Exec.{Result, Exec}
use rs_camera.Prelude.Errors.{Error}
use rs_camera.Text.{Str, codes}
use rs_camera.Machine.{FilePath, ◌/◌, path_text}
use rs_camera.Pipeline.Plan.{Variant, variant_name}

pub data Status : Type 0 where
  queued running rebooting complete failed stopped : Status

pub record PendingBoot : Type 0 where
  pub variant : Variant
  pub threaded : Bool
  pub boot_id : Str

-- `pipeline.json` of a full campaign, without its times.
pub record CampaignState : Type 0 where
  pub status : Status
  pub repo : FilePath
  pub pdf : Bool
  pub smoke : Bool
  pub active_stage : Option Str
  pub pending_boot : Option PendingBoot
  pub error : Option Str
  pub derived : Option FilePath

-- `prepared.json`: the digests of the entry points; the rest is `protocol`.
pub record Prepared (Protocol : Type 0) : Type 0 where
  pub entrypoints : List (Str × Str)
  pub smoke : Bool
  pub protocol : Protocol

-- `system-before.json`
pub record SystemBefore : Type 0 where
  pub boot_files : List (FilePath × Str)
  pub wifi_up : Bool

-- The commands that the worker calls.
pub data Call : Type 0 where
  discover : FilePath → Call
  wlan : Bool → Call
  select_kernel : Variant → Bool → Call
  reboot : Call
  check_stage run_stage : Str → Call
  analyze_captures : FilePath → Bool → Call
  render : FilePath → Call
  disable_service : Call

-- The system that the worker runs on. `release`, `cmdline` and `boot_id` are those of the running
-- kernel; `digest`, JSON, archives and file copies are libraries.
pub record Host (W Config Protocol : Type 0) : Type 0 where
  pub python : Str
  pub here : FilePath
  pub repo : FilePath
  pub geteuid : ℕ
  pub release : Str
  pub cmdline : Result Error Str
  pub boot_id : Result Error Str
  pub peer : List Str
  -- `subprocess.run(command, check=True)`, with its output appended to the log.
  pub call : Option FilePath → List Str → Exec Error W (Unit {0})
  pub route : Str → Exec Error W Str
  pub monotonic : W → ℕ
  pub sleep : ℕ → W → W
  pub sync : Exec Error W (Unit {0})
  pub lock : FilePath → Exec Error W (Unit {0})
  pub unlock : Exec Error W (Unit {0})
  pub use_temporary : FilePath → Exec Error W (Unit {0})
  pub make_dir : FilePath → Exec Error W (Unit {0})
  pub make_temp : FilePath → Exec Error W FilePath
  pub publish : FilePath → FilePath → Exec Error W (Unit {0})
  pub copy : FilePath → FilePath → Exec Error W (Unit {0})
  pub write_text : FilePath → Str → Exec Error W (Unit {0})
  pub load_state : W → Result Error CampaignState
  pub save_state : CampaignState → Exec Error W (Unit {0})
  pub load_prepared : W → Result Error (Prepared Protocol)
  pub save_prepared : FilePath → Prepared Protocol → Exec Error W (Unit {0})
  pub load_before : W → Result Error SystemBefore
  pub load_manifest : W → Result Error (List (FilePath × Str))
  -- `load_config`, `==` and `camera_identity(old) == camera_identity(new)` on camera configurations,
  -- and `prepare` with `allow_irq_refresh` and the protocol of an earlier preparation.
  pub load_config : FilePath → W → Result Error Config
  pub same_config : Config → Config → Bool
  pub same_cameras : Config → Config → Bool
  pub prepare : Config → Prepared Protocol → Exec Error W (Unit {0})

module _ {W Config Protocol : Type 0} (h : Host W Config Protocol) (root : FilePath) where
  abbrev script : Str → List Str → List Str
  script name args = h.python ∷ path_text (h.here / name) ∷ args

  abbrev on_campaign : Str → Str → List Str
  on_campaign action stage = script (codes "reproduce.py") (
      codes "--output"
      ∷ path_text root
      ∷ codes "--config"
      ∷ path_text (root / codes "camera-config.json")
      ∷ action
      ∷ stage
      ∷ [])

  abbrev flag : Bool → List Str → List Str
  flag true args = args
  flag false args = []

  -- The command line of a call.
  unfoldable pub arguments : Call → List Str
  arguments (discover folder) = script (codes "setup/discover.py") (
      codes "--output"
      ∷ path_text (folder / codes "config.json")
      ∷ codes "--inventory"
      ∷ path_text (folder / codes "inventory.json")
      ∷ [])
  arguments (wlan up) =
      codes "ip"
      ∷ codes "link"
      ∷ codes "set"
      ∷ codes "dev"
      ∷ codes "wlan0"
      ∷ (elim up [ true ↦ codes "up" | false ↦ codes "down" ])
      ∷ []
  arguments (select_kernel variant threaded) = script (codes "setup/kernel.py") (
      codes "select"
      ∷ variant_name variant
      ∷ codes "--apply"
      ∷ flag threaded (codes "--threadirqs" ∷ []))
  arguments reboot = codes "systemctl" ∷ codes "reboot" ∷ []
  arguments (check_stage stage) = on_campaign (codes "check") stage
  arguments (run_stage stage) = on_campaign (codes "run") stage
  arguments (analyze_captures output smoke) = script (codes "analyze.py") (
      codes "--input"
      ∷ path_text root
      ∷ codes "--output"
      ∷ path_text output
      ∷ flag smoke (
          codes "--smoke"
          ∷ codes "--sections"
          ∷ codes "e1"
          ∷ codes "e2"
          ∷ codes "e3"
          ∷ codes "e4"
          ∷ []))
  arguments (render output) = script (codes "render.py") (path_text output ∷ [])
  arguments disable_service =
      codes "systemctl" ∷ codes "disable" ∷ codes "rs-camera-reproduction.service" ∷ []

  -- Only the analysis is logged to a file.
  unfoldable pub log_of : Call → Option FilePath
  log_of (analyze_captures output smoke) = some (root / codes "analysis.log")
  log_of (render output) = some (root / codes "analysis.log")
  log_of c = none

  -- `call` and `py`
  unfoldable pub perform : Call → Exec Error W (Unit {0})
  unfolding arguments log_of
  perform c = h.call (log_of c) (arguments c)
