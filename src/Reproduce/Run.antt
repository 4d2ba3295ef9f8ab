-- ===== src/Reproduce/Run.antt =====
-- The action `run` of `main`, with `generate_profiles`.
use rs_camera.Prelude.{
  ℕ, Bool, true, false, not, ◌||◌, Option, none, some, List, [], ◌∷◌, ◌++◌, if◌then◌else◌,
}
use rs_camera.Prelude.Exec.{Result, ok, err, Exec, pure, when, ◌>>=◌, ◌>>◌}
use rs_camera.Prelude.Errors.{Error, value_error, key_error}
use rs_camera.Text.{Str, codes, str_eq, show, strip}
use rs_camera.Machine.{Machine, FilePath, ◌/◌, path_text}
use rs_camera.Pipeline.Plan.{Records, marker_path, script_path}
use rs_camera.Reproduce.Stages.{Mode}
use rs_camera.Reproduce.Check.{Cameras, Platform}
use rs_camera.Reproduce.Preflight.{check}

-- `prepared.json`, as far as a run reads it.
pub record Manifest (Config : Type 0) : Type 0 where
  pub config : Config
  pub repo : Str
  pub smoke : Bool
  pub adapter_sources : List (Str × Str)
  pub entrypoints : List (Str × Str)

-- What a run asks of the host beside its files: JSON, SHA-256 and the locks of files are libraries.
pub record Runner (W Config : Type 0) : Type 0 where
  -- `load_config(args.config)`, `==` on configurations, and what `check` reads of them.
  pub load_config : W → Result Error Config
  pub same_config : Config → Config → Bool
  pub cameras : Config → Cameras
  pub load_manifest : W → Result Error (Manifest Config)
  -- `subprocess.run(command, check=True)`, and the same with its output appended to a file.
  pub run_checked : List Str → Exec Error W (Unit {0})
  pub run_logged : FilePath → List Str → Exec Error W (Unit {0})
  -- `fcntl.flock` of campaign.lock, without waiting.
  pub lock : Exec Error W (Unit {0})
  pub provenance : Str → Exec Error W (Unit {0})
  -- The path of a marker, and its keys `stage`, `kernel` and `adapter_sha256`.
  pub write_marker : FilePath → Str → Str → Str → Exec Error W (Unit {0})

-- How `main` ends: with the errors of `check` and exit status 1, or with status 0.
pub data RunEnd : Type 0 where
  blocked : List Str → RunEnd
  already_complete completed : RunEnd

unfoldable pub lookup : Str → List (Str × Str) → Option Str
lookup name [] = none
lookup name ((key, value) ∷ items) =
    let rest = lookup name items in if str_eq key name then some value else rest

abbrev pub lookup_or : Str → Option Str → Result Error Str
lookup_or name (some value) = ok value
lookup_or name none = err (key_error name)

abbrev pub both_ok :
    {A B C : Type 0} → (A → B → C) → Result Error A → Result Error B → Result Error C
both_ok f (ok a) (ok b) = ok (f a b)
both_ok f (ok a) (err e) = err e
both_ok f (err e) r = err e

abbrev pub unless_differs : Error → Result Error Bool → Result Error Bool → Result Error Bool
unless_differs e (err f) rest = err f
unless_differs e (ok false) rest = err e
unless_differs e (ok true) rest = rest

abbrev pub with_manifest : {A B : Type 0} → Result Error A → (A → Result Error B) → Result Error B
with_manifest (ok a) f = f a
with_manifest (err e) f = err e

module _ {W Config : Type 0} (m : Machine W) (f : Records W) (p : Platform W) (h : Runner W Config)
    (repo root : FilePath) where
  -- `digest(repo/relative) != sha` for every source of the adapters, and then the rest.
  unfoldable pub check_adapters : List (Str × Str) → W → Result Error Bool → Result Error Bool
  check_adapters [] w rest = rest
  check_adapters ((relative, sha) ∷ items) w rest =
      unless_differs (value_error (codes "Source changed since prepare: " ++ relative))
        (with_manifest (f.digest (repo / relative) w) (λ sum. ok (str_eq sum sha)))
        (check_adapters items w rest)

  unfoldable pub check_script : Str → Manifest Config → W → Result Error Bool → Result Error Bool
  unfolding lookup
  check_script stage manifest w rest =
      unless_differs (value_error (codes "Adapter changed since prepare"))
        (both_ok (λ sum expected. str_eq sum expected) (f.digest (script_path m f root stage) w)
          (lookup_or (stage ++ codes ".sh") (lookup (stage ++ codes ".sh") manifest.entrypoints)))
        rest

  unfoldable pub examine_manifest : Str → Config → W → Manifest Config → Result Error Bool
  unfolding check_adapters check_script
  examine_manifest stage config w manifest =
      unless_differs
        (value_error (codes "Config/repo changed; prepare again in a fresh output directory"))
        (ok (
          not (
            not (h.same_config manifest.config config)
            || not (str_eq manifest.repo (path_text repo)))))
        (check_adapters manifest.adapter_sources w
          (check_script stage manifest w (ok (m.exists (marker_path m f root stage) w))))

  -- What is read before anything is done; the value says whether the stage is complete already.
  unfoldable pub examine : Str → Config → W → Result Error Bool
  unfolding examine_manifest
  examine stage config w = with_manifest (h.load_manifest w) (examine_manifest stage config w)

  -- The commands of `generate_profiles`.
  abbrev logical_run : Str → Str → ℕ → FilePath
  logical_run camera workload n = root / codes "e1" / camera / workload / (codes "run-" ++ show n)

  unfoldable pub selected_runs : Str → Str → List ℕ → Exec Error W (List Str)
  selected_runs camera workload [] = pure []
  selected_runs camera workload (n ∷ ns) = do
    attempt ←
        (λ w. (m.read_text (logical_run camera workload n / codes "selected_attempt.txt") w, w))
    rest ← selected_runs camera workload ns
    pure (
        codes "--trace-run"
        ∷ path_text (logical_run camera workload n / (codes "attempt-" ++ strip attempt))
        ∷ rest)

  unfoldable pub generate_one : List ℕ → Str → Str → Exec Error W (Unit {0})
  unfolding selected_runs
  generate_one repetitions camera workload = do
    selected ← selected_runs camera workload repetitions
    m.make_dir (root / codes "e1" / codes "profiles")
    h.run_checked (
        path_text (repo / codes ".venv" / codes "bin" / codes "python")
        ∷ path_text (
            repo
            / codes "tools"
            / codes "realsense_steady_bench"
            / codes "generate_deadline_profile.py")
        ∷ (selected
            ++ codes "--output"
              ∷ path_text (
                  root
                  / codes "e1"
                  / codes "profiles"
                  / (camera ++ (codes "_" ++ (workload ++ codes ".csv"))))
              ∷ []))

  unfoldable pub generate_profiles : Exec Error W (Unit {0})
  unfolding generate_one
  generate_profiles = do
    manifest ← (λ w. (h.load_manifest w, w))
    let repetitions = if manifest.smoke then 1 ∷ [] else 1 ∷ 2 ∷ 3 ∷ []
    generate_one repetitions (codes "d435") (codes "representative30")
    generate_one repetitions (codes "d435") (codes "stress60")
    generate_one repetitions (codes "d455") (codes "representative30")
    generate_one repetitions (codes "d455") (codes "stress60")

  abbrev pub script_command : Str → List Str
  script_command stage =
      let command = codes "sh" ∷ path_text (script_path m f root stage) ∷ [] in
      if str_eq stage (codes "e1") then codes "sudo" ∷ codes "-n" ∷ command else command

  abbrev pub run_script : Str → Exec Error W (Unit {0})
  run_script stage = h.run_logged (root / (stage ++ codes ".log")) (script_command stage)

  -- From `sudo -n true` on.
  unfoldable pub perform_stage : Str → Exec Error W RunEnd
  unfolding generate_profiles
  perform_stage stage = do
    h.run_checked (codes "sudo" ∷ codes "-n" ∷ codes "true" ∷ [])
    h.lock
    h.provenance stage
    run_script stage
    when (str_eq stage (codes "e1")) generate_profiles
    m.make_dir (root / codes "completed")
    sum ← (λ w. (f.digest (script_path m f root stage) w, w))
    h.write_marker (marker_path m f root stage) stage p.release sum
    pure completed

  abbrev pub proceed : Str → Config → Bool → Exec Error W RunEnd
  proceed stage config true = pure already_complete
  proceed stage config false = perform_stage stage

  abbrev pub behind_check : Str → Config → List Str → Exec Error W RunEnd
  behind_check stage config (e ∷ errors) = pure (blocked (e ∷ errors))
  behind_check stage config [] = (λ w. (examine stage config w, w)) >>= proceed stage config

  -- The action `run`.
  unfoldable pub run : Str → Mode → Exec Error W RunEnd
  unfolding examine perform_stage
  run stage mode = do
    config ← (λ w. (h.load_config w, w))
    errors ← check m p repo root stage mode (h.cameras config)
    behind_check stage config errors
