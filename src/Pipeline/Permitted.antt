-- ===== src/Pipeline/Permitted.antt =====
-- Which commands the worker may call, and the properties of the system that these keep.
use rs_camera.Prelude.{ℕ, zero, suc, Bool, true, false, ◌≡◌, ◌⊎◌, List, [], ◌∷◌, ◌++◌, leb}
use rs_camera.Prelude.Exec.{ok, modify, gets, when, raise_if}
use rs_camera.Prelude.Keeping.{
  Keeps, Keeps-pure, Keeps-raise, Keeps-raise_if, Keeps-gets, Keeps-reads, Keeps-when, Keeps-if,
  Keeps-bind, keeping_rules,
}
use rs_camera.Prelude.Errors.{Error}
use rs_camera.Text.{Str, codes}
use rs_camera.Machine.{Machine, FilePath, ◌/◌}
use rs_camera.Pipeline.Plan.{Phase, Records, phases, boot_matches}
use rs_camera.Pipeline.Host.{
  Host, Call, CampaignState, Prepared, discover, wlan, select_kernel, reboot, check_stage,
  run_stage, analyze_captures, render, disable_service, perform,
}
use rs_camera.Pipeline.Checks.{
  require_pi, check_sources, verify_sources, wait_wired, check_route, check_wired, write_boot_files,
  restore_system, check_entrypoints, refresh_boot_config, is_wired, not_wired,
}

abbrev pub Within : Str → List Str → Type 0
Within stage [] = ⊥
Within stage (s ∷ stages) = (stage ≡ s) ⊎ Within stage stages

module _ {W Config Protocol : Type 0} (h : Host W Config Protocol) where
  -- The stage belongs to a phase whose kernel is the one that runs.
  pub record IsScheduled (stage : Str) : Type 0 where
    pub smoke : Bool
    pub earlier : List Phase
    pub here : Phase
    pub later : List Phase
    pub cut : phases smoke ≡ earlier ++ here ∷ later
    pub within : Within stage here.stages
    pub cmdline : Str
    pub booted : h.cmdline ≡ ok cmdline
    pub matches : boot_matches here.variant here.threaded h.release cmdline ≡ true

  -- A stage is run only on the kernel of its phase, and another kernel is selected only where the
  -- running one does not match.
  abbrev pub Permitted : Call → Type 0
  Permitted (run_stage stage) = IsScheduled stage
  Permitted (select_kernel variant threaded) =
      (cmdline : Str) × (h.cmdline ≡ ok cmdline)
      × (boot_matches variant threaded h.release cmdline ≡ false)
  Permitted (discover folder) = Unit
  Permitted (wlan up) = Unit
  Permitted reboot = Unit
  Permitted (check_stage stage) = Unit
  Permitted (analyze_captures output smoke) = Unit
  Permitted (render output) = Unit
  Permitted disable_service = Unit

module _ {W Config Protocol : Type 0} (h : Host W Config Protocol) (I : W → Type 0) where
  -- The look at the route and the time that is slept keep `I`.
  pub record Waiting : Type 0 where
    pub route : (peer : Str) → Keeps I (h.route peer)
    pub sleep : (seconds : ℕ) → Keeps {E = Error} I (modify (h.sleep seconds))

module _ {W Config Protocol : Type 0} (h : Host W Config Protocol) (root : FilePath)
    (Allowed : Call → Type 0) (I : W → Type 0) where
  -- Every allowed call, and everything else that the worker does to the system, keeps `I`.
  pub record Guards : Type 0 where
    pub calls : (c : Call) → Allowed c → Keeps I (perform h root c)
    pub route : (peer : Str) → Keeps I (h.route peer)
    pub sleep : (seconds : ℕ) → Keeps {E = Error} I (modify (h.sleep seconds))
    pub sync : Keeps I h.sync
    pub lock : (path : FilePath) → Keeps I (h.lock path)
    pub unlock : Keeps I h.unlock
    pub use_temporary : (path : FilePath) → Keeps I (h.use_temporary path)
    pub make_dir : (path : FilePath) → Keeps I (h.make_dir path)
    pub make_temp : (path : FilePath) → Keeps I (h.make_temp path)
    pub publish : (from_path to_path : FilePath) → Keeps I (h.publish from_path to_path)
    pub copy : (from_path to_path : FilePath) → Keeps I (h.copy from_path to_path)
    pub write_text : (path : FilePath) (text : Str) → Keeps I (h.write_text path text)
    pub save_state : (o : CampaignState) → Keeps I (h.save_state o)
    pub save_prepared :
        (path : FilePath) (prepared : Prepared Protocol) → Keeps I (h.save_prepared path prepared)
    pub prepare :
        (config : Config) (prepared : Prepared Protocol) → Keeps I (h.prepare config prepared)

pub Guards-Waiting :
    {W Config Protocol : Type 0} (h : Host W Config Protocol) (root : FilePath)
    (Allowed : Call → Type 0) (I : W → Type 0)
    → Guards h root Allowed I
    → Waiting h I
Guards-Waiting h root Allowed I g = record { route = g.route; sleep = g.sleep }

module _ {W Config Protocol : Type 0} (m : Machine W) (f : Records W) (h : Host W Config Protocol)
    (root : FilePath) (I : W → Type 0) (q : Waiting h I) where
  check_sources-Keeps : (items : List (FilePath × Str)) → Keeps I (check_sources m f h root items)
  unfolding check_sources
  check_sources-Keeps [] = search keeping_rules
  check_sources-Keeps ((relative, expected) ∷ rest) =
      Keeps-bind I (λ w. (f.digest (h.repo ++ relative) w, w)) _ (Keeps-reads I _)
        (λ sum.
          Keeps-bind I (raise_if _ _) _ (Keeps-raise_if I _ _) (λ _. check_sources-Keeps rest))

  pub verify_sources-Keeps : Keeps I (verify_sources m f h root)
  unfolding verify_sources
  verify_sources-Keeps = search (keeping_rules, Keeps-reads, check_sources-Keeps) depth 8

  wait_wired-Keeps : (deadline polls : ℕ) → Keeps I (wait_wired m f h root deadline polls)
  unfolding wait_wired
  wait_wired-Keeps deadline zero = search keeping_rules
  wait_wired-Keeps deadline (suc polls) =
      Keeps-bind I (λ w. (is_wired m f h root w, w)) _ (Keeps-reads I _)
        (λ wired. Keeps-bind I (gets h.monotonic) _ (Keeps-gets I _) (λ now.
          Keeps-if I wired _ _ (Keeps-pure I tt) (
            Keeps-if I (leb deadline now) _ _ (Keeps-raise I not_wired) (
              Keeps-bind I (modify (h.sleep 1)) _ (q.sleep 1)
                (λ _. wait_wired-Keeps deadline polls)))))

  check_route-Keeps : (peer : List Str) → Keeps I (check_route m f h root peer)
  unfolding check_route
  check_route-Keeps [] = search keeping_rules
  check_route-Keeps (peer ∷ rest) = search (keeping_rules, q.route) depth 8

  pub check_wired-Keeps : (seconds : ℕ) → Keeps I (check_wired m f h root seconds)
  unfolding check_wired
  check_wired-Keeps seconds = search (keeping_rules, wait_wired-Keeps, check_route-Keeps) depth 12

module _ {W Config Protocol : Type 0} (m : Machine W) (f : Records W) (h : Host W Config Protocol)
    (root : FilePath) (Allowed : Call → Type 0) (I : W → Type 0) (g : Guards h root Allowed I) where
  pub require_pi-Keeps : Keeps I (require_pi m f h root)
  unfolding require_pi
  require_pi-Keeps = search (keeping_rules, Keeps-reads) depth 12

  write_boot_files-Keeps :
      (files : List (FilePath × Str)) → Keeps I (write_boot_files m f h root files)
  unfolding write_boot_files
  write_boot_files-Keeps [] = search keeping_rules
  write_boot_files-Keeps ((path, text) ∷ rest) =
      Keeps-bind I (h.write_text path text) _ (g.write_text path text)
        (λ _. write_boot_files-Keeps rest)

  pub restore_system-Keeps : Allowed (wlan true) → Keeps I (restore_system m f h root)
  unfolding restore_system
  restore_system-Keeps allowed =
      Keeps-bind I (λ w. (h.load_before w, w)) _ (Keeps-reads I _)
        (λ before.
          Keeps-bind I (write_boot_files m f h root before.boot_files) _
            (write_boot_files-Keeps before.boot_files)
            (λ _.
              Keeps-bind I (when before.wifi_up (perform h root (wlan true))) _
                (Keeps-when I before.wifi_up _ (g.calls (wlan true) allowed)) (λ _. g.sync)))

  check_entrypoints-Keeps :
      (items : List (Str × Str)) → Keeps I (check_entrypoints m f h root items)
  unfolding check_entrypoints
  check_entrypoints-Keeps [] = search keeping_rules
  check_entrypoints-Keeps ((name, digest) ∷ rest) =
      Keeps-bind I (λ w. (f.digest (root / codes "entrypoints" / name) w, w)) _ (Keeps-reads I _)
        (λ sum.
          Keeps-bind I (raise_if _ _) _ (Keeps-raise_if I _ _) (λ _. check_entrypoints-Keeps rest))

  pub refresh_boot_config-Keeps :
      (boot_id : Str)
      → ((folder : FilePath) → Allowed (discover folder))
      → Keeps I (refresh_boot_config m f h root boot_id)
  unfolding refresh_boot_config
  refresh_boot_config-Keeps boot_id allowed =
      search
        (
          keeping_rules, Keeps-reads, check_entrypoints-Keeps, g.make_dir, g.copy, g.save_prepared,
          g.prepare, g.calls, allowed,
        )
        depth 30
