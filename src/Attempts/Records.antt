-- ===== src/Attempts/Records.antt =====
-- The data of the attempt loop, and `aggregate_recoveries`.
use rs_camera.Prelude.{
  ℕ, Bool, not, Option, none, some, List, [], ◌∷◌, is_empty, all, length, if◌then◌else◌,
}
use rs_camera.Prelude.Exec.{Result, Exec}
use rs_camera.Prelude.Errors.{Error}
use rs_camera.Machine.{FilePath}
use rs_camera.Text.{Str, codes, join}

pub record AttemptDecision (Metadata : Type 0) : Type 0 where
  pub success : Bool
  pub failure_phase : Str
  pub retry : Bool
  pub recover : Bool
  pub error : Str
  pub metadata : Metadata

-- What a recovery reports; an absent `error` is the empty text, and an absent `success` is false.
pub record Recovery : Type 0 where
  pub success : Bool
  pub error : Str

pub record AggregateRecovery : Type 0 where
  pub attempted : Bool
  pub method : Str
  pub count : ℕ
  pub success : Option Bool
  pub error : Option Str

-- `[str(item.get("error", "")) for item in recoveries if item.get("error")]`
unfoldable pub recovery_errors : List Recovery → List Str
recovery_errors [] = []
recovery_errors (item ∷ items) =
    let rest = recovery_errors items in if is_empty item.error then rest else item.error ∷ rest

unfoldable pub aggregate_recoveries : Str → List Recovery → AggregateRecovery
unfolding recovery_errors
aggregate_recoveries recovery_method recoveries = record {
  attempted = not (is_empty recoveries);
  method = recovery_method;
  count = length recoveries;
  success = if is_empty recoveries then none else some (all (λ item. item.success) recoveries);
  error =
      if is_empty (recovery_errors recoveries)
      then none
      else some (join (codes " | ") (recovery_errors recoveries));
}

-- `metadata` and `extra` are the keys that the decision and the record builder add. They stand in fields of
-- their own, so that here they override none of the others.
pub record AttemptRecord (Metadata Extra : Type 0) : Type 0 where
  pub attempt : ℕ
  pub success : Bool
  pub failure_phase : Str
  pub error : Str
  pub record_data_dir : FilePath
  pub metadata : Metadata
  pub extra : Option Extra
  pub recovery : Option Recovery

-- The callables that `run_attempt_loop` is given. `sleep` is `time.sleep`, in milliseconds.
pub record AttemptHooks (W Summary Metadata Extra : Type 0) : Type 0 where
  pub run_attempt : ℕ → FilePath → Exec Error W (Str × Summary)
  pub classify_attempt : Summary → Result Error (AttemptDecision Metadata)
  pub recover_attempt :
      Option (Summary → FilePath → AttemptDecision Metadata → Exec Error W Recovery)
  pub before_attempt : Option (ℕ → FilePath → Exec Error W (Unit {0}))
  pub build_attempt_record : Option (Summary → AttemptDecision Metadata → Extra)
  pub sleep : ℕ → W → W

-- The summary of the last attempt with the keys that the loop adds.
pub record FinalSummary (Summary Metadata Extra : Type 0) : Type 0 where
  pub summary : Summary
  pub attempt_count : ℕ
  pub failed_attempt_count : ℕ
  pub initial_attempt_success : Bool
  pub eventual_success : Bool
  pub selected_attempt : ℕ
  pub attempts : List (AttemptRecord Metadata Extra)
  pub recovery : AggregateRecovery

pub record AttemptLoopResult (Summary Metadata Extra : Type 0) : Type 0 where
  pub output : Str
  pub summary : FinalSummary Summary Metadata Extra
  pub selected_attempt : ℕ
  pub selected_attempt_dir : FilePath
  pub attempts : List (AttemptRecord Metadata Extra)
  pub recoveries : List Recovery
  pub recovery : AggregateRecovery

-- What one iteration sets: `final_output`, `final_summary`, `final_decision`, `selected_attempt` and
-- `selected_attempt_dir`, which are assigned together.
pub record Selected (Summary Metadata : Type 0) : Type 0 where
  pub output : Str
  pub summary : Summary
  pub decision : AttemptDecision Metadata
  pub attempt : ℕ
  pub attempt_dir : FilePath

-- The local variables of the loop.
pub record LoopState (Summary Metadata Extra : Type 0) : Type 0 where
  pub attempts : List (AttemptRecord Metadata Extra)
  pub recoveries : List Recovery
  pub selected : Option (Selected Summary Metadata)
