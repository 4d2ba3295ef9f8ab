-- ===== src/Machine.antt =====
-- What the benchmark tools ask of the Linux host: files of sysfs and procfs, subprocesses, the
-- scheduler and the output files. The host is not part of the repository, so it is a parameter, with
-- no assumption on what a command or a file does.
pub mod Sample
pub mod Quiet
use rs_camera.Prelude.{
  ℕ, Bool, true, false, ◌&&◌, Option, none, some, List, [], ◌∷◌, ◌++◌, if◌then◌else◌,
}
use rs_camera.Prelude.Exec.{Result, ok, err, Exec, pure, raise, ◌>>=◌}
use rs_camera.Prelude.Errors.{Error, runtime_error}
use rs_camera.Text.{Str, codes, join, strip}
use rs_camera.Text.Words.{ℤ, is_zero, show_int, or_else}

-- A path as its components from the root.
abbrev pub FilePath : Type 0
FilePath = List Str

-- `str(path)` of an absolute path.
unfoldable pub path_text : FilePath → Str
path_text [] = codes "/"
path_text (c ∷ cs) = b'/' ∷ join (codes "/") (c ∷ cs)

-- `path / name`
infixl 72 ◌/◌
abbrev pub ◌/◌ : FilePath → Str → FilePath
path / name = path ++ name ∷ []

pub record Completed : Type 0 where
  pub returncode : ℤ
  pub stdout : Str
  pub stderr : Str

pub record Scheduling : Type 0 where
  pub policy : ℕ
  pub priority : ℕ
  pub affinity : List ℕ

pub record Machine (W : Type 0) : Type 0 where
  -- `path.read_text()`, or the error that it raises.
  pub read_text : FilePath → W → Result Error Str
  pub exists : FilePath → W → Bool
  pub is_file : FilePath → W → Bool
  pub is_dir : FilePath → W → Bool
  -- The names in a folder, in the order of the file system.
  pub listdir : FilePath → W → List Str
  pub resolve : FilePath → W → FilePath
  -- `subprocess.run(command, input=...)`
  pub subprocess : List Str → Option Str → Exec Error W Completed
  -- `path.write_text(...)` of an output file.
  pub write_text : FilePath → Str → Exec Error W (Unit {0})
  pub make_dir : FilePath → Exec Error W (Unit {0})
  pub getpid : ℕ
  -- `os.sched_getaffinity(0)`
  pub affinity : W → List ℕ
  -- Policy, priority and affinity of a process, or `none` where one of the calls raises.
  pub scheduling : ℕ → W → Option Scheduling

-- `time.monotonic` and `time.sleep`, in milliseconds.
pub record Clock (W : Type 0) : Type 0 where
  pub monotonic : W → ℕ
  pub sleep : ℕ → W → W

-- `["sudo", "--non-interactive", *command] if use_sudo else command`
unfoldable pub privileged : Bool → List Str → List Str
privileged use_sudo command =
    if use_sudo then codes "sudo" ∷ codes "--non-interactive" ∷ command else command

-- `completed.stderr.strip() or completed.stdout.strip()`
unfoldable pub detail_of : Completed → Str
detail_of completed = or_else (strip completed.stderr) (strip completed.stdout)

-- `detail or f"status {completed.returncode}"`
unfoldable pub reason_of : Completed → Str
unfolding detail_of
reason_of completed =
    or_else (detail_of completed) (codes "status " ++ show_int completed.returncode)

-- `CpuIsolation._read`
unfoldable pub read : {W : Type 0} → Machine W → FilePath → Exec Error W Str
read m path w = elim (m.read_text path w) [ ok text ↦ (ok (strip text), w) | err e ↦ (err e, w) ]

module _ {W : Type 0} (m : Machine W) (use_sudo : Bool) where
  -- `CpuIsolation._run_privileged`
  unfoldable pub run_privileged : List Str → Exec Error W (Unit {0})
  run_privileged command = do
    completed ← m.subprocess (privileged use_sudo command) none
    if is_zero completed.returncode
        then pure tt
        else raise
            (runtime_error (join (codes " ") command ++ (codes " failed: " ++ reason_of completed)))

  -- `CpuIsolation._write`: `tee` with the privileges of the campaign.
  unfoldable pub write : FilePath → Str → Exec Error W (Unit {0})
  write path value = do
    completed ←
        m.subprocess (privileged use_sudo (codes "tee" ∷ path_text path ∷ []))
          (some (value ++ 10 ∷ []))
    if is_zero completed.returncode
        then pure tt
        else raise (
            runtime_error (
              codes "failed to write "
              ++ (path_text path ++ (codes "=" ++ (value ++ (codes ": " ++ reason_of completed))))))
