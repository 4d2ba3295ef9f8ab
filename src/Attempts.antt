-- ===== src/Attempts.antt =====
-- tools/realsense_bench_common/attempts.py: one logical benchmark point is run, recovered and
-- repeated. The callables are parameters; a world `W` stands for what they act on.
pub mod Records
pub mod Step
pub mod Loop
pub mod Outcome
pub mod Total
mod Tests
unfoldable pub use Records.{aggregate_recoveries}
pub use Records.{
  AttemptDecision, Recovery, AggregateRecovery, AttemptRecord, AttemptHooks, FinalSummary,
  AttemptLoopResult, Selected, LoopState,
}
use rs_camera.Prelude.{
  ℕ, zero, suc, ◌+◌, Bool, true, false, not, ◌&&◌, Option, none, some, List, [], ◌∷◌, ◌++◌, ltb,
  if◌then◌else◌, length,
}
use rs_camera.Prelude.Exec.{Result, ok, err, Exec, pure, lift, modify, when, raise_if, ◌>>=◌, ◌>>◌}
use rs_camera.Prelude.Errors.{Error, value_error, runtime_error, index_error}
use rs_camera.Machine.{FilePath}
use rs_camera.Text.{Str, codes, show, str_eq}

-- `record_dir / f"attempt-{attempt}"`
unfoldable pub attempt_dir : FilePath → ℕ → FilePath
attempt_dir record_dir attempt = record_dir ++ (codes "attempt-" ++ show attempt) ∷ []

-- The three keyword arguments of the loop that are not callables.
pub record LoopConfig : Type 0 where
  pub record_dir : FilePath
  pub max_attempts : ℕ
  pub recovery_method : Str
  pub recovery_settle_ms : ℕ

-- Whether a failed attempt is followed by a recovery.
unfoldable pub wants_recovery : {Metadata : Type 0} → LoopConfig → AttemptDecision Metadata → Bool
wants_recovery c decision =
    not decision.success && (decision.recover && not (str_eq c.recovery_method (codes "none")))

abbrev pub optional_list : Option Recovery → List Recovery
optional_list none = []
optional_list (some r) = r ∷ []

-- `sum(1 for item in attempts if not item["success"])`
unfoldable pub count_failed : {Metadata Extra : Type 0} → List (AttemptRecord Metadata Extra) → ℕ
count_failed [] = 0
count_failed (item ∷ items) = if item.success then count_failed items else suc (count_failed items)

abbrev pub initial : {Summary Metadata Extra : Type 0} → LoopState Summary Metadata Extra
initial = record { attempts = []; recoveries = []; selected = none }

module _ {W Summary Metadata : Type 0} where
  -- The recovery of an iteration, or `none` where its `if` fails.
  unfoldable pub recover_with :
      Option (Summary → FilePath → AttemptDecision Metadata → Exec Error W Recovery)
      → LoopConfig
      → Summary
      → FilePath
      → AttemptDecision Metadata
      → Exec Error W (Option Recovery)
  recover_with none c summary dir decision = pure none
  recover_with (some call) c summary dir decision =
      if wants_recovery c decision
      then (call summary dir decision >>= λ r. pure (some r))
      else pure none

module _ {W : Type 0} where
  abbrev pub run_before :
      Option (ℕ → FilePath → Exec Error W (Unit {0})) → ℕ → FilePath → Exec Error W (Unit {0})
  run_before none attempt dir = pure tt
  run_before (some call) attempt dir = call attempt dir

module _ {Summary Metadata Extra : Type 0} where
  -- The updates of `final_summary` and the returned value, from the last and the first attempt.
  abbrev pub loop_result :
      LoopConfig
      → LoopState Summary Metadata Extra
      → Selected Summary Metadata
      → AttemptRecord Metadata Extra
      → AttemptLoopResult Summary Metadata Extra
  loop_result c st last first =
      let recovery = aggregate_recoveries c.recovery_method st.recoveries in
      record {
        output = last.output;
        summary = record {
          summary = last.summary;
          attempt_count = length st.attempts;
          failed_attempt_count = count_failed st.attempts;
          initial_attempt_success = first.success;
          eventual_success = last.decision.success;
          selected_attempt = last.attempt;
          attempts = st.attempts;
          recovery = recovery;
        };
        selected_attempt = last.attempt;
        selected_attempt_dir = last.attempt_dir;
        attempts = st.attempts;
        recoveries = st.recoveries;
        recovery = recovery;
      }

  -- What follows the loop; `attempts[0]` raises on an empty list.
  unfoldable pub finish :
      LoopConfig
      → LoopState Summary Metadata Extra
      → Option (Selected Summary Metadata)
      → List (AttemptRecord Metadata Extra)
      → Result Error (AttemptLoopResult Summary Metadata Extra)
  finish c st none items = err (runtime_error (codes "No benchmark attempt was executed"))
  finish c st (some last) [] = err (index_error (codes "list index out of range"))
  finish c st (some last) (first ∷ rest) = ok (loop_result c st last first)

module _ {W Summary Metadata Extra : Type 0} where
  abbrev pub extra_fields :
      AttemptHooks W Summary Metadata Extra → Summary → AttemptDecision Metadata → Option Extra
  extra_fields h summary decision = elim h.build_attempt_record [
    | none ↦ none
    | some build ↦ some (build summary decision)
  ]

  -- `attempt_record`
  abbrev pub attempt_record :
      AttemptHooks W Summary Metadata Extra
      → ℕ
      → FilePath
      → Summary
      → AttemptDecision Metadata
      → Option Recovery
      → AttemptRecord Metadata Extra
  attempt_record h attempt dir summary decision recovery = record {
    attempt = attempt;
    success = decision.success;
    failure_phase = decision.failure_phase;
    error = decision.error;
    record_data_dir = dir;
    metadata = decision.metadata;
    extra = extra_fields h summary decision;
    recovery = recovery;
  }

  -- The state after an iteration, from what its calls returned.
  abbrev pub advance :
      AttemptHooks W Summary Metadata Extra
      → ℕ
      → FilePath
      → LoopState Summary Metadata Extra
      → Str × Summary
      → AttemptDecision Metadata
      → Option Recovery
      → LoopState Summary Metadata Extra
  advance h attempt dir st ran decision recovery = record {
    attempts = st.attempts ++ attempt_record h attempt dir ran.1 decision recovery ∷ [];
    recoveries = st.recoveries ++ optional_list recovery;
    selected = some (record {
      output = ran.0;
      summary = ran.1;
      decision = decision;
      attempt = attempt;
      attempt_dir = dir;
    });
  }

  -- One iteration up to `attempts.append(attempt_record)`.
  unfoldable pub one_attempt :
      LoopConfig
      → AttemptHooks W Summary Metadata Extra
      → ℕ
      → LoopState Summary Metadata Extra
      → Exec Error W (LoopState Summary Metadata Extra × AttemptDecision Metadata)
  one_attempt c h attempt st = do
    let dir = attempt_dir c.record_dir attempt
    run_before h.before_attempt attempt dir
    ran ← h.run_attempt attempt dir
    decision ← lift (h.classify_attempt ran.1)
    recovery ← recover_with h.recover_attempt c ran.1 dir decision
    pure (advance h attempt dir st ran decision recovery, decision)

  -- `time.sleep` is called for a positive settling time only.
  abbrev pub settle : LoopConfig → AttemptHooks W Summary Metadata Extra → Exec Error W (Unit {0})
  settle c h = when (ltb 0 c.recovery_settle_ms) (modify (h.sleep c.recovery_settle_ms))

  -- `for attempt in range(1, max_attempts + 1)`, with `left` iterations to go.
  unfoldable pub attempt_loop :
      LoopConfig
      → AttemptHooks W Summary Metadata Extra
      → ℕ
      → ℕ
      → LoopState Summary Metadata Extra
      → Exec Error W (LoopState Summary Metadata Extra)
  attempt_loop c h zero attempt st = pure st
  attempt_loop c h (suc left) attempt st = one_attempt c h attempt st >>= λ (st', decision).
      let again = settle c h >> attempt_loop c h left (attempt + 1) st' in
      if not decision.success && (decision.retry && ltb attempt c.max_attempts)
      then again
      else pure st'

  unfoldable pub run_attempt_loop :
      LoopConfig
      → AttemptHooks W Summary Metadata Extra
      → Exec Error W (AttemptLoopResult Summary Metadata Extra)
  unfolding attempt_loop finish
  run_attempt_loop c h = do
    raise_if (ltb c.max_attempts 1) (value_error (codes "max_attempts must be at least one"))
    st ← attempt_loop c h c.max_attempts 1 initial
    lift (finish c st st.selected st.attempts)
