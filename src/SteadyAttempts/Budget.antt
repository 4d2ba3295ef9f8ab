-- ===== src/SteadyAttempts/Budget.antt =====
-- Which failures of a steady run are repeated.
use rs_camera.Prelude.{
  ◌<◌, ◌≡◌, refl, ◌⊎◌, inl, inr, Bool, true, false, not, ◌&&◌, ◌||◌, List, [], ◌∷◌, ◌++◌, All,
  arith, Bool-cases, &&_split, ltb, length, sym, subst, ap, ◌∙◌,
}
use rs_camera.Prelude.Exec.{ok-injective}
use rs_camera.Prelude.Post.{Returns, Returns-map}
use rs_camera.Text.{Str, codes, str_eq, str_eq_iff}
use rs_camera.Text.Words.{starts_with}
use rs_camera.Machine.{Machine}
use rs_camera.Attempts.{
  AttemptDecision, AttemptRecord, AttemptLoopResult, LoopConfig, run_attempt_loop, wants_recovery,
}
use rs_camera.Attempts.Step.{IsRepeated, is_some}
use rs_camera.Attempts.Outcome.{IsOutcome, run_attempt_loop-IsOutcome}
use rs_camera.SteadyAttempts.Classify.{
  SteadySummary, is_scheduler_error, classify_attempt, failure_phase_of, is_retryable, phase_name,
  FailurePhase,
}
use rs_camera.SteadyAttempts.Running.{SteadyHooks, Deliveries, attempt_hooks}

-- The probe could not be set up, which no other attempt would change.
abbrev pub is_setup_error : Str → Bool
is_setup_error error = is_scheduler_error error || starts_with (codes "Noise setup failed:") error

-- A failed attempt is to be repeated exactly if its error is none of the set-up.
retry-classify :
    (s : SteadySummary)
    → (classify_attempt s).retry ≡ (not s.success && not (is_setup_error s.error))
unfolding classify_attempt failure_phase_of
retry-classify s = ground arith

setup_failed :
    (s : SteadySummary)
    → (classify_attempt s).success ≡ false
    → (classify_attempt s).retry ≡ false
    → is_setup_error s.error ≡ true
unfolding classify_attempt
setup_failed s failed never = ground (arith, retry-classify s)

retried_phase :
    (s : SteadySummary)
    → (classify_attempt s).retry ≡ true
    → is_retryable (failure_phase_of s) ≡ true
unfolding classify_attempt
retried_phase s h = (&&_split (not s.success) (is_retryable (failure_phase_of s)) h).1

phase-classify :
    (s : SteadySummary) → (classify_attempt s).failure_phase ≡ phase_name (failure_phase_of s)
unfolding classify_attempt
phase-classify s = refl

not-none :
    (method : Str)
    → str_eq method (codes "full-reset") ≡ true
    → str_eq method (codes "none") ≡ false
unfolding str_eq
not-none method full =
    let e : method ≡ codes "full-reset" = (str_eq_iff method (codes "full-reset")).0 full in
    rw e other
  where
    other : str_eq (codes "full-reset") (codes "none") ≡ false
    other = refl

-- What is to be repeated is recovered by a full reset.
wants-classify :
    (c : LoopConfig) (s : SteadySummary)
    → str_eq c.recovery_method (codes "full-reset") ≡ true
    → (classify_attempt s).retry ≡ true
    → wants_recovery c (classify_attempt s) ≡ true
unfolding wants_recovery classify_attempt
wants-classify c s full h = ground (arith, not-none c.recovery_method full)

-- The recorded phase is one that may be repeated, and a full reset was made where it is the method.
pub record IsRetryable (c : LoopConfig) (a : AttemptRecord Bool Deliveries) : Type 0 where
  pub phase : FailurePhase
  pub retryable : is_retryable phase ≡ true
  pub recorded : a.failure_phase ≡ phase_name phase
  pub reset : str_eq c.recovery_method (codes "full-reset") ≡ true → is_some a.recovery ≡ true

-- How the attempts of a run follow one another, and why the last one ended it.
pub record IsSpent (c : LoopConfig) (r : AttemptLoopResult SteadySummary Bool Deliveries)
    : Type 0 where
  pub earlier : List (AttemptRecord Bool Deliveries)
  pub item : AttemptRecord Bool Deliveries
  pub attempts : r.attempts ≡ earlier ++ item ∷ []
  pub repeated : All (IsRetryable c) earlier
  pub ended :
      (r.summary.eventual_success ≡ true)
      ⊎ ((length r.attempts ≡ c.max_attempts) ⊎ (is_setup_error r.summary.summary.error ≡ true))

module _ {W : Type 0} (m : Machine W) (c : LoopConfig) (h : SteadyHooks W) where
  repeated-IsRetryable :
      (a : AttemptRecord Bool Deliveries) → IsRepeated c (attempt_hooks m c h) a → IsRetryable c a
  repeated-IsRetryable a k =
      let e : classify_attempt k.summary ≡ k.decision = ok-injective k.classified in
      let retried : (classify_attempt k.summary).retry ≡ true = rw e k.retried in
      record {
        phase = failure_phase_of k.summary;
        retryable = retried_phase k.summary retried;
        recorded =
            k.phase
            ∙ (ap (λ (d : AttemptDecision Bool). d.failure_phase) (sym e)
                ∙ phase-classify k.summary);
        reset = λ full.
            k.recovered
            ∙ rw full (
                subst (λ d. wants_recovery c d ≡ true) e (wants-classify c k.summary full retried));
      }

  All-IsRetryable :
      (items : List (AttemptRecord Bool Deliveries))
      → All (IsRepeated c (attempt_hooks m c h)) items
      → All (IsRetryable c) items
  All-IsRetryable [] k = tt
  All-IsRetryable (a ∷ items) k = (repeated-IsRetryable a k.0, All-IsRetryable items k.1)

  outcome_ended :
      (r : AttemptLoopResult SteadySummary Bool Deliveries)
      (o : IsOutcome c (attempt_hooks m c h) r)
      → (r.summary.eventual_success ≡ true)
        ⊎ ((length r.attempts ≡ c.max_attempts) ⊎ (is_setup_error r.summary.summary.error ≡ true))
  outcome_ended r o =
      let e : classify_attempt r.summary.summary ≡ o.decision = ok-injective o.classified in
      elim (Bool-cases o.decision.success) [
        | inl success ↦ inl (o.eventual ∙ (o.decided ∙ success))
        | inr failed ↦ elim (Bool-cases o.decision.retry) [
          | inl again ↦
              let full : ltb (length r.attempts) c.max_attempts ≡ false =
                ground (arith, o.stopped) in
              inr (inl (ground (arith, o.within)))
          | inr never ↦ inr (inr (setup_failed r.summary.summary (rw e failed) (rw e never)))
        ]
      ]

  outcome-IsSpent :
      (r : AttemptLoopResult SteadySummary Bool Deliveries)
      → IsOutcome c (attempt_hooks m c h) r
      → IsSpent c r
  outcome-IsSpent r o = record {
    earlier = o.earlier;
    item = o.item;
    attempts = o.attempts;
    repeated = All-IsRetryable o.earlier o.repeated;
    ended = outcome_ended r o;
  }

  -- Whenever the loop of a steady run returns, with `max_attempts` at least 1: every attempt but the last
  -- failed at start-up, in the transition to noise or in the measurement, and was followed by a full
  -- reset where that is the method; and the last one succeeded, used up the budget, or failed in the
  -- set-up of the scheduler or of the noise.
  pub steady-IsSpent :
      (w : W)
      → 0 < c.max_attempts
      → Returns (λ r _. IsSpent c r) (run_attempt_loop c (attempt_hooks m c h) w)
  steady-IsSpent w pos =
      Returns-map (λ r _. IsOutcome c (attempt_hooks m c h) r) (λ r _. IsSpent c r) _
        (run_attempt_loop-IsOutcome c (attempt_hooks m c h) w pos) (λ r _ o. outcome-IsSpent r o)
