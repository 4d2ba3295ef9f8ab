-- ===== src/Noise/Process.antt =====
-- `ManagedNoiseProcess`: one subprocess with the files by which it reports that it is ready.
use rs_camera.Prelude.{
  ℕ, zero, suc, ◌+◌, Bool, true, false, not, Option, none, some, List, [], ◌∷◌, ◌++◌, ltb,
  if◌then◌else◌,
}
use rs_camera.Prelude.Exec.{
  Result, ok, err, Exec, pure, raise, gets, modify, raise_if, try_except, ◌>>=◌, ◌>>◌,
}
use rs_camera.Prelude.Errors.{Error, value_error, runtime_error}
use rs_camera.Prelude.Objects.{on_world, change, this}
use rs_camera.Text.{Str, codes, str_eq, strip}
use rs_camera.Text.Words.{ℤ, show_int}
use rs_camera.Machine.{Machine, Clock, FilePath, ◌/◌}
use rs_camera.Recovery.Data.{is_timeout}

-- What `start` returns: `{"mode": "none", "enabled": False}`, or what the process reported.
pub data Ready (Json : Type 0) : Type 0 where
  disabled : Ready Json
  reported : Json → Ready Json

-- `subprocess.Popen` and JSON, with no assumption on what they do. A process is a number.
pub record NoiseHost (W Json : Type 0) : Type 0 where
  pub machine : Machine W
  pub clock : Clock W
  -- The command with its files for stdout and stderr.
  pub popen : List Str → FilePath → FilePath → Exec Error W ℕ
  pub poll : ℕ → W → Option ℤ
  pub terminate : ℕ → Exec Error W (Unit {0})
  pub kill : ℕ → Exec Error W (Unit {0})
  -- `process.wait(timeout=...)` in seconds.
  pub wait : ℕ → ℕ → Exec Error W (Unit {0})
  pub returncode : ℕ → W → ℤ
  -- `json.loads`, or `none` for a `JSONDecodeError`.
  pub loads : Str → Option Json
  pub empty_object : Json
  -- `bool(value.get("ready"))`
  pub says_ready : Json → Bool
  pub dumps : Ready Json → Str
  -- The text of `{"returncode": ..., "forced_kill": ...}`.
  pub dump_process : ℤ → Bool → Str

-- What a class of noise defines; `seconds` is `f"{self._ready_timeout_seconds:.1f}"`.
pub record NoiseKind (W Json : Type 0) : Type 0 where
  pub file_prefix : Str
  pub label : Str
  pub supported_mode : Str
  pub ready_timeout_ms : ℕ
  pub seconds : Str
  pub before_start : Exec Error W (Unit {0})
  pub command : FilePath → FilePath → List Str
  pub decorate_ready : Json → List Str → Exec Error W Json

abbrev pub is_running : Option ℕ → Bool
is_running none = false
is_running (some process) = true

module _ {W Json : Type 0} (h : NoiseHost W Json) (k : NoiseKind W Json) where
  abbrev Method : Type 0 → Type 0
  Method = Exec Error (Option ℕ × W)

  abbrev pub noise_path : FilePath → Str → FilePath
  noise_path record_dir suffix = record_dir / (k.file_prefix ++ (codes "_" ++ suffix))

  unfoldable pub write_process : FilePath → ℤ → Bool → Exec Error W (Unit {0})
  write_process record_dir returncode forced_kill =
      h.machine.write_text (noise_path record_dir (codes "process.json"))
        (h.dump_process returncode forced_kill ++ 10 ∷ [])

  abbrev pub loaded : Result Error Str → W → Result Error (Option Json) × W
  loaded (ok text) w = (ok (h.loads text), w)
  loaded (err e) w = (err e, w)

  -- `_read_json`; `none` is a `JSONDecodeError`.
  unfoldable pub read_json : FilePath → Exec Error W (Option Json)
  read_json path w =
      if not (h.machine.is_file path w)
      then (ok (some h.empty_object), w)
      else loaded (h.machine.read_text path w) w

  -- `process.wait(timeout=10)`, and whether the process had to be killed.
  unfoldable pub wait_or_kill : ℕ → Exec Error W Bool
  wait_or_kill process =
      try_except (h.wait process 10 >> pure false)
        (λ e. if is_timeout e then (h.kill process >> h.wait process 5) >> pure true else raise e)

  unfoldable pub end_process : ℕ → Exec Error W Bool
  end_process process w = elim (h.poll process w) [
    | none ↦ (h.terminate process >> wait_or_kill process) w
    | some returncode ↦ (ok false, w)
  ]

  abbrev pub record_end : Option FilePath → ℕ → Bool → Exec Error W (Unit {0})
  record_end none process forced w = (ok tt, w)
  record_end (some record_dir) process forced w =
      write_process record_dir (h.returncode process w) forced w

  -- `stop` behind `self._process = None`.
  unfoldable pub stop_process : Option FilePath → ℕ → Exec Error W (Unit {0})
  stop_process record_dir process = end_process process >>= record_end record_dir process

  unfoldable pub stop : Option FilePath → Method (Unit {0})
  stop record_dir (none, w) = (ok tt, (none, w))
  stop record_dir (some process, w) = on_world (stop_process record_dir process) (none, w)

  -- The end of a process that was not ready yet.
  unfoldable pub exited : FilePath → ℤ → Method (Ready Json)
  exited record_dir returncode = do
    change (λ _. none)
    on_world (write_process record_dir returncode false)
    stderr ← on_world (λ w. (h.machine.read_text (noise_path record_dir (codes "stderr.txt")) w, w))
    raise (
        runtime_error (
          k.label
          ++ (codes " exited before ready with code "
              ++ (show_int returncode ++ (codes ": " ++ strip stderr)))))

  unfoldable pub timed_out : FilePath → Method (Ready Json)
  timed_out record_dir = do
    stop (some record_dir)
    raise (
        runtime_error
          (k.label ++ (codes " did not become ready within " ++ (k.seconds ++ codes " seconds"))))

  abbrev pub pause : ℕ → Method (Unit {0})
  pause ms = on_world (modify (h.clock.sleep ms))

  -- What the loop does with the file that the process reports in; `again` is the next round.
  unfoldable pub look : Method (Ready Json) → List Str → Option Json → Method (Ready Json)
  look again command none = pause 10 >> again
  look again command (some ready) =
      if h.says_ready ready
      then on_world (k.decorate_ready ready command) >>= (λ value. pure (reported value))
      else pause 50 >> again

  -- One round of the loop, for a process that runs.
  unfoldable pub inspect :
      Method (Ready Json) → FilePath → List Str → Option ℤ → Method (Ready Json)
  unfolding exited look
  inspect again record_dir command (some returncode) o = exited record_dir returncode o
  inspect again record_dir command none (p, w) =
      let path = noise_path record_dir (codes "ready.json") in
      if h.machine.is_file path w
      then (on_world (read_json path) >>= look again command) (p, w)
      else (pause 50 >> again) (p, w)

  -- `while time.monotonic() < deadline`
  unfoldable pub await_ready : ℕ → ℕ → FilePath → List Str → ℕ → Method (Ready Json)
  unfolding inspect timed_out
  await_ready zero deadline record_dir command process o = timed_out record_dir o
  await_ready (suc fuel) deadline record_dir command process (p, w) =
      let again = await_ready fuel deadline record_dir command process in
      if ltb (h.clock.monotonic w) deadline
      then inspect again record_dir command (h.poll process w) (p, w)
      else timed_out record_dir (p, w)

  abbrev pub command_of : FilePath → List Str
  command_of record_dir =
      k.command (noise_path record_dir (codes "ready.json"))
        (noise_path record_dir (codes "summary.json"))

  -- `start` from `Popen` on; `began` is the time before it.
  unfoldable pub run_command : FilePath → ℕ → Method (Ready Json)
  run_command record_dir began = do
    process ← on_world (
        h.popen (command_of record_dir) (noise_path record_dir (codes "stdout.txt"))
          (noise_path record_dir (codes "stderr.txt")))
    change (λ _. some process)
    await_ready (k.ready_timeout_ms + 2) (began + k.ready_timeout_ms) record_dir
        (command_of record_dir) process

  -- `start` for the supported mode, with no process running.
  unfoldable pub launch : FilePath → Method (Ready Json)
  launch record_dir = do
    on_world k.before_start
    began ← on_world (gets h.clock.monotonic)
    run_command record_dir began

  unfoldable pub start : Str → FilePath → Method (Ready Json)
  start mode record_dir = if str_eq mode (codes "none") then pure disabled else do
    raise_if (not (str_eq mode k.supported_mode))
        (value_error (codes "Unsupported " ++ (k.label ++ (codes " mode: " ++ mode))))
    running ← this
    raise_if (is_running running)
        (runtime_error (codes "A " ++ (k.label ++ codes " process is already running")))
    launch record_dir
