-- ===== src/Attempts/Total.antt =====
-- If no callable raises, `run_attempt_loop` returns; and the counts of its summary add up.
use rs_camera.Prelude.{
  ℕ, zero, suc, ◌+◌, ◌<◌, ◌≡◌, ◌≢◌, refl, true, false, not, ◌&&◌, inl, inr, Option, none, some,
  List, [], ◌∷◌, ◌++◌, arith, ltb, if◌then◌else◌, length, Bool-cases, sym, ◌∙◌, length-append,
}
use rs_camera.Prelude.Exec.{is_ok, Exec}
use rs_camera.Prelude.Errors.{Error}
use rs_camera.Prelude.Post.{
  Returns, Returns-map, Succeeds, Succeeds-and, Succeeds-map, Succeeds-bind, Succeeds-ok, Silent,
  Silent-bind, Silent-lift,
}
use rs_camera.Machine.{FilePath}
use rs_camera.Attempts.Step.{AllFailed}
use rs_camera.Attempts.Loop.{IsClosed, loop_from_start}
use rs_camera.Attempts.Outcome.{IsOutcome, run_attempt_loop-IsOutcome}
use rs_camera.Attempts.{
  AttemptDecision, Recovery, AttemptRecord, AttemptHooks, LoopState, LoopConfig, Selected,
  attempt_dir, wants_recovery, recover_with, run_before, one_attempt, settle, attempt_loop, initial,
  finish, count_failed, run_attempt_loop,
}

snoc_filled : {A : Type 0} (items : List A) (item : A) → items ++ item ∷ [] ≢ []
snoc_filled [] item e = cc
snoc_filled (x ∷ items) item e = cc

module _ {W Summary Metadata : Type 0} where
  abbrev pub SilentRecovery :
      Option (Summary → FilePath → AttemptDecision Metadata → Exec Error W Recovery) → Type 0
  SilentRecovery none = Unit
  SilentRecovery (some call) =
      (summary : Summary) (dir : FilePath) (d : AttemptDecision Metadata)
      → Silent (call summary dir d)

abbrev pub SilentBefore : {W : Type 0} → Option (ℕ → FilePath → Exec Error W (Unit {0})) → Type 0
SilentBefore none = Unit
SilentBefore (some call) = (attempt : ℕ) (dir : FilePath) → Silent (call attempt dir)

module _ {W Summary Metadata Extra : Type 0} where
  -- No callable raises.
  pub record NeverRaises (h : AttemptHooks W Summary Metadata Extra) : Type 0 where
    pub run : (attempt : ℕ) (dir : FilePath) → Silent (h.run_attempt attempt dir)
    pub classify : (summary : Summary) → is_ok (h.classify_attempt summary) ≡ true
    pub recover : SilentRecovery h.recover_attempt
    pub before : SilentBefore h.before_attempt

module _ {W Summary Metadata : Type 0} (c : LoopConfig) where
  recover_with-Silent :
      (call : Option (Summary → FilePath → AttemptDecision Metadata → Exec Error W Recovery))
      (summary : Summary) (dir : FilePath) (d : AttemptDecision Metadata)
      → SilentRecovery call
      → Silent (recover_with call c summary dir d)
  unfolding recover_with
  recover_with-Silent none summary dir d s w = tt
  recover_with-Silent (some call) summary dir d s w = elim (Bool-cases (wants_recovery c d)) [
    | inl wanted ↦ rw wanted (Silent-bind (call summary dir d) _ w (s summary dir d) (λ _ _. tt))
    | inr unwanted ↦ rw unwanted tt
  ]

run_before-Silent :
    {W : Type 0} (call : Option (ℕ → FilePath → Exec Error W (Unit {0}))) (attempt : ℕ)
    (dir : FilePath)
    → SilentBefore call
    → Silent (run_before call attempt dir)
run_before-Silent none attempt dir s w = tt
run_before-Silent (some call) attempt dir s w = s attempt dir w

module _ {W Summary Metadata Extra : Type 0} (c : LoopConfig) where
  module _ (h : AttemptHooks W Summary Metadata Extra) (silent : NeverRaises h) where
    one_attempt-Silent :
        (attempt : ℕ) (st : LoopState Summary Metadata Extra) → Silent (one_attempt c h attempt st)
    unfolding one_attempt
    one_attempt-Silent attempt st w =
        let dir = attempt_dir c.record_dir attempt in
        Silent-bind (run_before h.before_attempt attempt dir) _ w
          (run_before-Silent h.before_attempt attempt dir silent.before)
          (λ _ w1. Silent-bind (h.run_attempt attempt dir) _ w1 (silent.run attempt dir) (λ ran w2.
            Silent-lift (h.classify_attempt ran.1) _ w2 (silent.classify ran.1) (λ d w3.
              Silent-bind (recover_with h.recover_attempt c ran.1 dir d) _ w3
                (recover_with-Silent c h.recover_attempt ran.1 dir d silent.recover) (λ _ _. tt))))

    settle-Silent : Silent (settle c h)
    settle-Silent w = elim (Bool-cases (ltb 0 c.recovery_settle_ms)) [
      | inl long ↦ rw long tt
      | inr short ↦ rw short tt
    ]

    attempt_loop-Silent :
        (left attempt : ℕ) (st : LoopState Summary Metadata Extra)
        → Silent (attempt_loop c h left attempt st)
    unfolding attempt_loop
    attempt_loop-Silent zero attempt st w = tt
    attempt_loop-Silent (suc left) attempt st w =
        Silent-bind (one_attempt c h attempt st) _ w (one_attempt-Silent attempt st) (λ (st', d) w1.
          elim (Bool-cases (not d.success && (d.retry && ltb attempt c.max_attempts))) [
            | inl again ↦ rw again (
                Silent-bind (settle c h) _ w1 settle-Silent
                  (λ _. attempt_loop-Silent left (attempt + 1) st'))
            | inr stop ↦ rw stop tt
          ])

    finish-is_ok :
        (st : LoopState Summary Metadata Extra) (selected : Option (Selected Summary Metadata))
        (items : List (AttemptRecord Metadata Extra))
        → st.selected ≡ selected
        → st.attempts ≡ items
        → IsClosed c h st
        → is_ok (finish c st selected items) ≡ true
    unfolding finish
    finish-is_ok st none items s e k = cc (k.selected, s)
    finish-is_ok st (some last) [] s e k =
        absurd (snoc_filled k.earlier k.item (sym k.attempts ∙ e))
    finish-is_ok st (some last) (first ∷ rest) s e k = refl

    -- If no callable raises and `max_attempts` is at least 1, the loop returns (in particular it
    -- never reports that no attempt was executed), and what it returns is an outcome.
    pub run_attempt_loop-total :
        (w : W) → 0 < c.max_attempts → Succeeds (λ r _. IsOutcome c h r) (run_attempt_loop c h w)
    run_attempt_loop-total w pos =
        Succeeds-and (λ _ _. Unit) _ (run_attempt_loop c h w)
          (unfold run_attempt_loop in
            let started : ltb c.max_attempts 1 ≡ false = ground arith in
            rw started (
              Succeeds-bind _ (attempt_loop c h c.max_attempts 1 initial) _ w (
                Succeeds-map (λ st _. IsClosed c h st) _
                  (attempt_loop c h c.max_attempts 1 initial w)
                  (Succeeds-and (λ _ _. Unit) _ (attempt_loop c h c.max_attempts 1 initial w)
                    (attempt_loop-Silent c.max_attempts 1 initial w) (loop_from_start c h w pos))
                  (λ st w' k.
                    Succeeds-ok _ (finish c st st.selected st.attempts) w'
                      (finish-is_ok st st.selected st.attempts refl refl k) (λ _ _. tt)))))
          (run_attempt_loop-IsOutcome c h w pos)

module _ {Metadata Extra : Type 0} where
  count_failed-snoc :
      (items : List (AttemptRecord Metadata Extra)) (item : AttemptRecord Metadata Extra)
      → AllFailed items
      → count_failed (items ++ item ∷ []) + (if item.success then 1 else 0) ≡ suc (length items)
  unfolding count_failed
  count_failed-snoc [] item f = ground arith
  count_failed-snoc (i ∷ items) item f = ground (arith, count_failed-snoc items item f.1)

module _ {W Summary Metadata Extra : Type 0} (c : LoopConfig)
    (h : AttemptHooks W Summary Metadata Extra) where
  -- Of the attempts that the summary counts all have failed, or all but one where the point
  -- succeeded in the end.
  pub failed_attempt_count_exact :
      (w : W)
      → 0 < c.max_attempts
      → Returns
          (λ r _.
            r.summary.failed_attempt_count + (if r.summary.eventual_success then 1 else 0)
            ≡ r.summary.attempt_count)
          (run_attempt_loop c h w)
  failed_attempt_count_exact w pos =
      Returns-map (λ r _. IsOutcome c h r) _ (run_attempt_loop c h w)
        (run_attempt_loop-IsOutcome c h w pos)
        (λ r w' o.
          rw (o.eventual, o.tallied, o.counted, o.attempts)
            (count_failed-snoc o.earlier o.item o.failed
              ∙ (omega arith ∙ sym (length-append o.earlier (o.item ∷ [])))))
