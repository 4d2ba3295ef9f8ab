-- ===== src/Reproduce/Starting.antt =====
-- When the script of a stage is started.
use rs_camera.Prelude.{ℕ, Bool, true, false, ◌≡◌, refl, List, [], ◌∷◌, ◌++◌}
use rs_camera.Prelude.Exec.{Result, ok, err, Exec, ◌>>=◌, continue, when}
use rs_camera.Prelude.Errors.{
  Error, os_error, timeout_expired, value_error, runtime_error, called_process_error, index_error,
  zero_division_error, key_error,
}
use rs_camera.Prelude.After.{After, After-lift}
use rs_camera.Prelude.Keeping.{
  Keeps, Keeps-pure, Keeps-raise, Keeps-reads, Keeps-bind, Keeps-when, keeping_rules,
}
use rs_camera.Text.{Str, codes, str_eq}
use rs_camera.Machine.{Machine, FilePath}
use rs_camera.Pipeline.Plan.{Records}
use rs_camera.Reproduce.Stages.{Mode}
use rs_camera.Reproduce.Check.{
  Cameras, Irq, Platform, broken_probe, probe_camera, camera_errors, platform_errors, read_if,
}
use rs_camera.Reproduce.Preflight.{compiler_errors, build_errors, irq_errors, probe_errors, check}
use rs_camera.Reproduce.Run.{
  Runner, selected_runs, generate_one, generate_profiles, run_script, perform_stage, proceed,
  behind_check, examine, run,
}
use rs_camera.Reproduce.Cleared.{IsCleared, cleared}

module _ {W Config : Type 0} (m : Machine W) (f : Records W) (p : Platform W) (h : Runner W Config)
    (repo root : FilePath) (I : W → Type 0) where
  -- Everything that a run does to the system but the script keeps `I`.
  pub record Guards : Type 0 where
    pub run_probe : (command : List Str) → Keeps I (p.run_probe command)
    pub check_output : (command : List Str) → Keeps I (p.check_output command)
    pub run_checked : (command : List Str) → Keeps I (h.run_checked command)
    pub lock : Keeps I h.lock
    pub provenance : (stage : Str) → Keeps I (h.provenance stage)
    pub make_dir : (path : FilePath) → Keeps I (m.make_dir path)
    pub write_marker :
        (path : FilePath) (stage kernel sum : Str) → Keeps I (h.write_marker path stage kernel sum)

module _ {W Config : Type 0} (m : Machine W) (f : Records W) (p : Platform W) (h : Runner W Config)
    (repo root : FilePath) (I : W → Type 0) (g : Guards m f p h repo root I) where
  broken_probe-Keeps : (serial : Str) (e : Error) → Keeps I (broken_probe m p repo root serial e)
  broken_probe-Keeps serial (os_error e) = Keeps-pure I _
  broken_probe-Keeps serial (timeout_expired e) = Keeps-pure I _
  broken_probe-Keeps serial (value_error e) = Keeps-raise I _
  broken_probe-Keeps serial (runtime_error e) = Keeps-raise I _
  broken_probe-Keeps serial (called_process_error e) = Keeps-raise I _
  broken_probe-Keeps serial (index_error e) = Keeps-raise I _
  broken_probe-Keeps serial (zero_division_error e) = Keeps-raise I _
  broken_probe-Keeps serial (key_error e) = Keeps-raise I _

  probe_camera-Keeps : (serial : Str) → Keeps I (probe_camera m p repo root serial)
  unfolding probe_camera
  probe_camera-Keeps serial = search (keeping_rules, g.run_probe, broken_probe-Keeps) depth 8

  camera_errors-Keeps : (serials : List Str) → Keeps I (camera_errors m p repo root serials)
  unfolding camera_errors
  camera_errors-Keeps [] = Keeps-pure I []
  camera_errors-Keeps (serial ∷ serials) =
      Keeps-bind I (probe_camera m p repo root serial) _ (probe_camera-Keeps serial) (λ first.
        Keeps-bind I (camera_errors m p repo root serials) _ (camera_errors-Keeps serials)
          (λ rest. Keeps-pure I (first ++ rest)))

  read_if-Keeps : (b : Bool) (path : FilePath) → Keeps I (read_if m p repo root b path)
  read_if-Keeps true path = Keeps-reads I _
  read_if-Keeps false path = Keeps-pure I _

  platform_errors-Keeps : Keeps I (platform_errors m p repo root)
  unfolding platform_errors
  platform_errors-Keeps = search (keeping_rules, read_if-Keeps) depth 12

  compiler_errors-Keeps : (compiler : Str) → Keeps I (compiler_errors m p repo root compiler)
  unfolding compiler_errors
  compiler_errors-Keeps compiler = search (keeping_rules, g.check_output) depth 8

  build_errors-Keeps : Keeps I (build_errors m p repo root)
  unfolding build_errors
  build_errors-Keeps = search (keeping_rules, Keeps-reads, read_if-Keeps) depth 10

  irq_errors-Keeps : (stage : Str) (irqs : List Irq) → Keeps I (irq_errors m p repo root stage irqs)
  unfolding irq_errors
  irq_errors-Keeps stage irqs = search (keeping_rules, Keeps-reads) depth 8

  probe_errors-Keeps : (c : Cameras) → Keeps I (probe_errors m p repo root c)
  unfolding probe_errors
  probe_errors-Keeps c = search (keeping_rules, camera_errors-Keeps) depth 8

  check-Keeps :
      (stage : Str) (mode : Mode) (c : Cameras) → Keeps I (check m p repo root stage mode c)
  unfolding check
  check-Keeps stage mode c =
      search
        (
          keeping_rules, Keeps-reads, platform_errors-Keeps, probe_errors-Keeps,
          compiler_errors-Keeps, build_errors-Keeps, irq_errors-Keeps,
        )
        depth 24

  selected_runs-Keeps :
      (camera workload : Str) (ns : List ℕ)
      → Keeps I (selected_runs m f p h repo root camera workload ns)
  unfolding selected_runs
  selected_runs-Keeps camera workload [] = Keeps-pure I []
  selected_runs-Keeps camera workload (n ∷ ns) =
      Keeps-bind I (λ w. (m.read_text _ w, w)) _ (Keeps-reads I _)
        (λ attempt.
          Keeps-bind I (selected_runs m f p h repo root camera workload ns) _
            (selected_runs-Keeps camera workload ns) (λ rest. Keeps-pure I _))

  generate_one-Keeps :
      (ns : List ℕ) (camera workload : Str)
      → Keeps I (generate_one m f p h repo root ns camera workload)
  unfolding generate_one
  generate_one-Keeps ns camera workload =
      search (keeping_rules, selected_runs-Keeps, g.make_dir, g.run_checked) depth 8

  generate_profiles-Keeps : Keeps I (generate_profiles m f p h repo root)
  unfolding generate_profiles
  generate_profiles-Keeps = search (keeping_rules, Keeps-reads, generate_one-Keeps) depth 12

  perform_stage-Keeps :
      (stage : Str)
      → Keeps I (run_script m f p h repo root stage)
      → Keeps I (perform_stage m f p h repo root stage)
  unfolding perform_stage
  perform_stage-Keeps stage script = Keeps-bind I (h.run_checked _) _ (g.run_checked _) (λ _.
      Keeps-bind I h.lock _ g.lock (λ _.
        Keeps-bind I (h.provenance stage) _ (g.provenance stage) (λ _.
          Keeps-bind I (run_script m f p h repo root stage) _ script (λ _.
            Keeps-bind I (when (str_eq stage (codes "e1")) (generate_profiles m f p h repo root)) _
              (Keeps-when I (str_eq stage (codes "e1")) _ generate_profiles-Keeps)
              (λ _. search (keeping_rules, Keeps-reads, g.make_dir, g.write_marker) depth 12)))))

  -- A call, with the fact that it returned.
  After-calling :
      {A B : Type 0} (action : Exec Error W A) (k : A → Exec Error W B) (s : W)
      → After (λ _ t. I t) (λ _ t. I t) (action s)
      → ((a : A) (t : W) → action s ≡ (ok a, t) → I t → After (λ _ u. I u) (λ _ u. I u) (k a t))
      → After (λ _ t. I t) (λ _ t. I t) ((action >>= k) s)
  After-calling {A} {B} action k s i j = go (action s) refl i
    where
      go :
          (r : Result Error A × W)
          → action s ≡ r
          → After (λ _ t. I t) (λ _ t. I t) r
          → After (λ _ t. I t) (λ _ t. I t) (continue r.0 k r.1)
      go (ok a, t) e i = j a t e i
      go (err x, t) e i = i

  behind_check-After :
      (stage : Str) (mode : Mode) (config : Config) (s t : W)
      → h.load_config s ≡ ok config
      → (errors : List Str) → check m p repo root stage mode (h.cameras config) s ≡ (ok errors, t)
      → I t
      → (IsCleared m f p h repo root stage mode config s t
          → Keeps I (run_script m f p h repo root stage))
      → After (λ _ u. I u) (λ _ u. I u) (behind_check m f p h repo root stage config errors t)
  behind_check-After stage mode config s t read (x ∷ errors) checked i script = i
  behind_check-After stage mode config s t read [] checked i script =
      After-lift (λ _ u. I u) (λ _ u. I u) (examine m f p h repo root stage config t)
        (proceed m f p h repo root stage config) t proceeded (λ _ _. i)
    where
      proceeded :
          (done : Bool)
          → examine m f p h repo root stage config t ≡ ok done
          → After (λ _ u. I u) (λ _ u. I u) (proceed m f p h repo root stage config done t)
      proceeded true e = i
      proceeded false e =
          (perform_stage-Keeps stage
              (script (cleared m f p h repo root stage mode config s t read checked e))).at
            t i

  -- The script of a stage is started only if it is cleared: whatever property of the system everything else
  -- in `run` keeps, and the script keeps where it is cleared, `run` keeps. Cleared means that the check has
  -- no complaint, and that then the adapters belong to the configuration and the repository, neither they nor
  -- the script have changed since they were prepared, and the stage has no marker.
  pub run-Keeps :
      (stage : Str) (mode : Mode)
      → ((config : Config) (s t : W)
          → I t
          → IsCleared m f p h repo root stage mode config s t
          → Keeps I (run_script m f p h repo root stage))
      → Keeps I (run m f p h repo root stage mode)
  unfolding run
  run-Keeps stage mode script = record {
    at = λ s i.
        After-lift (λ _ u. I u) (λ _ u. I u) (h.load_config s) _ s
          (λ config e.
            After-calling (check m p repo root stage mode (h.cameras config)) _ s
              ((check-Keeps stage mode (h.cameras config)).at s i)
              (λ errors t q j.
                behind_check-After stage mode config s t e errors q j (script config s t j)))
          (λ _ _. i);
  }
