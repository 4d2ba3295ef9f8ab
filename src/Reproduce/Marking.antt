-- ===== src/Reproduce/Marking.antt =====
-- What a run has done when it says that the stage is completed, and what the pipeline finds then.
use rs_camera.Prelude.{Bool, true, false, ◌≡◌, refl, ◌∙◌, some, List, [], ◌∷◌}
use rs_camera.Prelude.Exec.{ok, when}
use rs_camera.Prelude.Post.{Returns, Returns-calling, Returns-lift}
use rs_camera.Text.{Str, codes, str_eq, str_eq_iff}
use rs_camera.Machine.{Machine, FilePath, ◌/◌}
use rs_camera.Pipeline.Plan.{Records, marker_path, script_path, complete, check_marker}
use rs_camera.Reproduce.Stages.{Mode}
use rs_camera.Reproduce.Check.{Platform}
use rs_camera.Reproduce.Preflight.{check}
use rs_camera.Reproduce.Run.{
  Runner, RunEnd, blocked, already_complete, completed, generate_profiles, run_script,
  perform_stage, proceed, behind_check, examine, run,
}

module _ {W Config : Type 0} (m : Machine W) (f : Records W) (p : Platform W) (h : Runner W Config)
    (repo root : FilePath) where
  -- A marker that was written is there and is read as it was written, and the script is what it was.
  pub record IsFileSystem (stage : Str) : Type 0 where
    pub exists :
        (kernel sum : Str) (s t : W)
        → h.write_marker (marker_path m f root stage) stage kernel sum s ≡ (ok tt, t)
        → m.exists (marker_path m f root stage) t ≡ true
    pub read :
        (kernel sum : Str) (s t : W)
        → h.write_marker (marker_path m f root stage) stage kernel sum s ≡ (ok tt, t)
        → f.read_marker (marker_path m f root stage) t
          ≡ ok (record { stage = some stage; adapter_sha256 = some sum })
    pub digest :
        (kernel sum : Str) (s t : W)
        → h.write_marker (marker_path m f root stage) stage kernel sum s ≡ (ok tt, t)
        → f.digest (script_path m f root stage) t ≡ f.digest (script_path m f root stage) s

  -- The script has ended with status 0, and the pipeline finds the stage complete.
  abbrev pub IsDone : Str → RunEnd → W → Type 0
  IsDone stage (blocked errors) t = Unit
  IsDone stage already_complete t = Unit
  IsDone stage completed t =
      ((u v : W) × (run_script m f p h repo root stage u ≡ (ok tt, v)))
      × (complete m f root stage t ≡ ok true)

  marked :
      (stage sum kernel : Str) (s t : W)
      → IsFileSystem stage
      → f.digest (script_path m f root stage) s ≡ ok sum
      → h.write_marker (marker_path m f root stage) stage kernel sum s ≡ (ok tt, t)
      → complete m f root stage t ≡ ok true
  unfolding complete check_marker
  marked stage sum kernel s t laws digest written = rw (
    laws.exists kernel sum s t written,
    laws.read kernel sum s t written,
    (str_eq_iff stage stage).1 refl,
    laws.digest kernel sum s t written ∙ digest,
    (str_eq_iff sum sum).1 refl,
  )

  perform_stage-IsDone :
      (stage : Str) (s : W)
      → IsFileSystem stage
      → Returns (IsDone stage) (perform_stage m f p h repo root stage s)
  unfolding perform_stage
  perform_stage-IsDone stage s laws =
      Returns-calling (IsDone stage) (h.run_checked _) _ s (λ _ s1 _.
        Returns-calling (IsDone stage) h.lock _ s1 (λ _ s2 _.
          Returns-calling (IsDone stage) (h.provenance stage) _ s2 (λ _ s3 _.
            Returns-calling (IsDone stage) (run_script m f p h repo root stage) _ s3 (λ _ s4 ran.
              Returns-calling (IsDone stage)
                (when (str_eq stage (codes "e1")) (generate_profiles m f p h repo root)) _ s4
                (λ _ s5 _.
                  Returns-calling (IsDone stage) (m.make_dir (root / codes "completed")) _ s5
                    (λ _ s6 _.
                      Returns-lift (IsDone stage) (f.digest (script_path m f root stage) s6) _ s6
                        (λ sum digest.
                          Returns-calling (IsDone stage)
                            (h.write_marker (marker_path m f root stage) stage p.release sum) _ s6
                            (λ _ t written. (
                              (s3, s4, ran),
                              marked stage sum p.release s6 t laws digest written,
                            )))))))))

  -- If `run` of a stage says that it is completed, its script has ended with status 0 and the pipeline finds
  -- the stage complete, where a marker that was written is read as it was written and leaves the script as it
  -- is.
  pub run-IsDone :
      (stage : Str) (mode : Mode) (s : W)
      → IsFileSystem stage
      → Returns (IsDone stage) (run m f p h repo root stage mode s)
  unfolding run
  run-IsDone stage mode s laws = Returns-lift (IsDone stage) (h.load_config s) _ s (λ config read.
      Returns-calling (IsDone stage) (check m p repo root stage mode (h.cameras config)) _ s
        (λ errors t checked. behind errors t config))
    where
      proceeded :
          (config : Config) (t : W) (done : Bool)
          → Returns (IsDone stage) (proceed m f p h repo root stage config done t)
      proceeded config t true = tt
      proceeded config t false = perform_stage-IsDone stage t laws

      behind :
          (errors : List Str) (t : W) (config : Config)
          → Returns (IsDone stage) (behind_check m f p h repo root stage config errors t)
      behind (e ∷ errors) t config = tt
      behind [] t config =
          Returns-lift (IsDone stage) (examine m f p h repo root stage config t)
            (proceed m f p h repo root stage config) t (λ done _. proceeded config t done)
