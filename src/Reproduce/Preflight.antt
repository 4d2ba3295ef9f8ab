-- ===== src/Reproduce/Preflight.antt =====
-- The second part of `check`, and `check` itself.
use rs_camera.Prelude.{not, ◌&&◌, List, [], ◌∷◌, ◌++◌, if◌then◌else◌}
use rs_camera.Prelude.Exec.{Exec, pure, gets, ◌>>=◌}
use rs_camera.Prelude.Errors.{Error}
use rs_camera.Text.{Str, codes, str_eq, strip}
use rs_camera.Text.Words.{contains}
use rs_camera.Machine.{Machine, FilePath, ◌/◌}
use rs_camera.Reproduce.Stages.{Mode}
use rs_camera.Reproduce.Check.{
  Cameras, Irq, Platform, problem, is_arm, kernel_errors, serials_of, missing_irqs, needed_profiles,
  build, needed, missing_files, platform_errors, camera_errors, read_if, read_file,
}

abbrev executables : List Str
executables =
    codes "trace-cmd"
    ∷ codes "chrt"
    ∷ codes "taskset"
    ∷ codes "lsusb"
    ∷ codes "gcc"
    ∷ codes "g++"
    ∷ []

module _ {W : Type 0} (m : Machine W) (p : Platform W) (repo root : FilePath) where
  unfoldable pub missing_commands : List Str → W → List Str
  missing_commands [] w = []
  missing_commands (name ∷ names) w =
      problem (not (p.has_command name w)) (codes "Missing command: " ++ name)
      ++ missing_commands names w

  abbrev version_errors : Str → Str → List Str
  version_errors compiler output =
      problem (not (str_eq (strip output) (codes "13.3.0")))
        (codes "Paper uses " ++ (compiler ++ (codes " 13.3.0; found " ++ strip output)))

  unfoldable pub compiler_errors : Str → Exec Error W (List Str)
  compiler_errors compiler = do
    there ← gets (p.has_command compiler)
    if there
        then (p.check_output (compiler ∷ codes "-dumpfullversion" ∷ []) >>= λ output.
            pure (version_errors compiler output))
        else pure []

  abbrev no_latency_cut : Str → List Str
  no_latency_cut analyzer =
      problem (contains (codes "latency_s > 0.250") analyzer)
        (codes "Latency analyzer still discards >250 ms; run fix-latency first")

  abbrev analyzer_path : FilePath
  analyzer_path =
      repo / codes "tools" / codes "realsense_steady_bench" / codes "analyze_full_receive_path.py"

  -- The configuration of the build, and the analyzer.
  unfoldable pub build_errors : Exec Error W (List Str)
  build_errors = do
    there ← gets (m.is_file (build m p repo root / codes "CMakeCache.txt"))
    cache ← read_if m p repo root there (build m p repo root / codes "CMakeCache.txt")
    analyzer ← read_file m p repo root analyzer_path
    pure (
        problem (not (there && contains (codes "CMAKE_BUILD_TYPE:STRING=RelWithDebInfo") cache))
          (codes "Benchmark must be configured as RelWithDebInfo")
        ++ no_latency_cut analyzer)

  -- The IRQ mapping is looked at for stage e3 only.
  unfoldable pub irq_errors : Str → List Irq → Exec Error W (List Str)
  irq_errors stage irqs =
      if str_eq stage (codes "e3")
      then (read_file m p repo root (codes "proc" ∷ codes "interrupts" ∷ []) >>= λ interrupts.
          pure (missing_irqs interrupts irqs))
      else pure []

  unfoldable pub probe_errors : Cameras → Exec Error W (List Str)
  probe_errors c = do
    there ← gets (m.is_file (build m p repo root / codes "d435_sensor_probe"))
    if is_arm p.machine && there then camera_errors m p repo root (serials_of c) else pure []

  -- `check`
  unfoldable pub check : Str → Mode → Cameras → Exec Error W (List Str)
  unfolding compiler_errors build_errors irq_errors probe_errors
  check stage mode c = do
    platform ← platform_errors m p repo root
    cmdline ← read_file m p repo root (codes "proc" ∷ codes "cmdline" ∷ [])
    files ← gets (missing_files m p repo root (codes "Missing ") (needed m p repo root))
    cameras ← probe_errors c
    commands ← gets (missing_commands executables)
    gcc ← compiler_errors (codes "gcc")
    gxx ← compiler_errors (codes "g++")
    built ← build_errors
    profiles ← gets (
        missing_files m p repo root (codes "Missing prerequisite calibration: ")
          (needed_profiles root stage))
    irqs ← irq_errors stage c.e3_irqs
    pure (
        platform
        ++ (kernel_errors mode p.release cmdline
            ++ (files
                ++ (cameras ++ (commands ++ (gcc ++ (gxx ++ (built ++ (profiles ++ irqs)))))))))
