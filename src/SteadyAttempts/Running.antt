-- ===== src/SteadyAttempts/Running.antt =====
-- `run_steady_attempts`: the shared attempt loop with the callables of the steady benchmark, and the
-- files of the run.
use rs_camera.Prelude.{ℕ, Bool, Option, none, some, List, [], ◌∷◌, ◌++◌, map, length, if◌then◌else◌}
use rs_camera.Prelude.Exec.{Result, ok, err, Exec, pure, ◌>>=◌, ◌>>◌}
use rs_camera.Prelude.Errors.{Error}
use rs_camera.Text.{Str, codes, show, str_eq}
use rs_camera.Machine.{Machine, FilePath, ◌/◌}
use rs_camera.Recovery.Data.{Camera, FullReset}
use rs_camera.Attempts.{
  AttemptDecision, Recovery, AttemptHooks, AttemptRecord, FinalSummary, AttemptLoopResult,
  LoopConfig, run_attempt_loop,
}
use rs_camera.SteadyAttempts.Classify.{
  SteadyCamera, SteadySummary, Probe, camera_descriptors, classify_attempt,
}

-- `_steady_attempt_record`: serial, warm-up deliveries and timeouts of every camera.
abbrev pub Deliveries : Type 0
Deliveries = List (Str × ℕ × ℕ)

unfoldable pub steady_attempt_record : SteadySummary → AttemptDecision Bool → Deliveries
steady_attempt_record summary decision =
    map (λ (camera : SteadyCamera). (camera.serial, camera.warmup_deliveries, camera.timeouts))
      summary.cameras

-- What the loop reads of the report of a full reset.
abbrev pub as_recovery : FullReset → Recovery
as_recovery reset = record { success = reset.success; error = reset.error }

-- The line of selected_attempt.txt.
abbrev pub selected_text : ℕ → Str
selected_text attempt = show attempt ++ 10 ∷ []

-- What the function is given besides the arguments of the loop: `run_attempt` and `recovery.recover`;
-- JSON is a parameter. `dump_manifest` is the manifest of the selected attempt, or the base manifest
-- where that is missing, with the three keys that are added.
pub record SteadyHooks (W : Type 0) : Type 0 where
  pub probe : Probe
  pub run_attempt : ℕ → FilePath → Exec Error W (Str × SteadySummary)
  pub recover : List Camera → FilePath → Exec Error W FullReset
  pub sleep : ℕ → W → W
  pub dump_summary : FinalSummary SteadySummary Bool Deliveries → Str
  pub dump_attempts : List (AttemptRecord Bool Deliveries) → Str
  pub dump_manifest : Option Str → ℕ → ℕ → Bool → Result Error Str

module _ {W : Type 0} (m : Machine W) (c : LoopConfig) (h : SteadyHooks W) where
  abbrev pub recover_attempt :
      SteadySummary → FilePath → AttemptDecision Bool → Exec Error W Recovery
  recover_attempt summary dir decision =
      h.recover (camera_descriptors h.probe summary) dir >>= λ reset. pure (as_recovery reset)

  abbrev pub attempt_hooks : AttemptHooks W SteadySummary Bool Deliveries
  attempt_hooks = record {
    run_attempt = h.run_attempt;
    classify_attempt = λ summary. ok (classify_attempt summary);
    recover_attempt =
        if str_eq c.recovery_method (codes "full-reset") then some recover_attempt else none;
    before_attempt = none;
    build_attempt_record = some steady_attempt_record;
    sleep = h.sleep;
  }

  abbrev lifted : {A : Type 0} → Result Error A → Exec Error W A
  lifted r w = (r, w)

  abbrev existing : FilePath → Exec Error W (Option Str)
  existing path w =
      if m.is_file path w
      then elim (m.read_text path w) [ ok text ↦ (ok (some text), w) | err e ↦ (err e, w) ]
      else (ok none, w)

  -- The files that are written behind the loop.
  unfoldable pub write_run :
      AttemptLoopResult SteadySummary Bool Deliveries → Exec Error W (Unit {0})
  write_run result = do
    m.write_text (c.record_dir / codes "steady_summary.json")
        (h.dump_summary result.summary ++ 10 ∷ [])
    m.write_text (c.record_dir / codes "attempts.json") (h.dump_attempts result.attempts ++ 10 ∷ [])
    m.write_text (c.record_dir / codes "selected_attempt.txt")
        (selected_text result.selected_attempt)
    m.write_text (c.record_dir / codes "probe_stdout.txt") result.output
    attempt_manifest ← existing (result.selected_attempt_dir / codes "attempt_manifest.json")
    manifest ← lifted (
        h.dump_manifest attempt_manifest result.selected_attempt (length result.attempts)
          result.summary.eventual_success)
    m.write_text (c.record_dir / codes "run_manifest.json") (manifest ++ 10 ∷ [])

  unfoldable pub run_steady_attempts : Exec Error W Str
  unfolding write_run
  run_steady_attempts = do
    result ← run_attempt_loop c attempt_hooks
    write_run result
    pure result.output
