-- ===== src/Attempts/Step.antt =====
-- What one iteration of `run_attempt_loop` adds to the state of the loop.
use rs_camera.Prelude.{
  ℕ, suc, ◌+◌, ◌≡◌, refl, Bool, true, false, ◌&&◌, inl, inr, Option, none, some, List, [], ◌∷◌,
  ◌++◌, arith, length, All, Bool-cases, append-nil, append_assoc, sym,
}
use rs_camera.Prelude.Exec.{ok, Exec}
use rs_camera.Prelude.Errors.{Error}
use rs_camera.Prelude.Post.{Returns, Returns-any, Returns-map, Returns-bind, Returns-lift}
use rs_camera.Machine.{FilePath}
use rs_camera.Text.{Str}
use rs_camera.Attempts.{
  AttemptDecision, Recovery, AttemptRecord, AttemptHooks, Selected, LoopState, LoopConfig,
  attempt_dir, wants_recovery, recover_with, run_before, one_attempt, attempt_record, advance,
  optional_list,
}

abbrev pub is_some {ℓ} : {A : Type ℓ} → Option A → Bool
is_some none = false
is_some (some a) = true

module _ {Metadata Extra : Type 0} where
  -- The attempts carry the numbers `k`, `k + 1` and so on.
  abbrev pub Numbered : ℕ → List (AttemptRecord Metadata Extra) → Type 0
  Numbered k [] = Unit
  Numbered k (a ∷ items) = (a.attempt ≡ k) × Numbered (suc k) items

  abbrev pub AllFailed : List (AttemptRecord Metadata Extra) → Type 0
  AllFailed = All (λ a. a.success ≡ false)

  -- The recoveries that the attempts record, in order.
  abbrev pub recoveries_of : List (AttemptRecord Metadata Extra) → List Recovery
  recoveries_of [] = []
  recoveries_of (a ∷ items) = optional_list a.recovery ++ recoveries_of items

  pub Numbered-snoc :
      (k : ℕ) (items : List (AttemptRecord Metadata Extra)) (a : AttemptRecord Metadata Extra)
      → Numbered k items
      → a.attempt ≡ k + length items
      → Numbered k (items ++ a ∷ [])
  Numbered-snoc k [] a h e = (omega arith, tt)
  Numbered-snoc k (b ∷ items) a h e = (h.0, Numbered-snoc (suc k) items a h.1 (omega arith))

  pub recoveries_of-snoc :
      (items : List (AttemptRecord Metadata Extra)) (a : AttemptRecord Metadata Extra)
      → recoveries_of (items ++ a ∷ []) ≡ recoveries_of items ++ optional_list a.recovery
  recoveries_of-snoc [] a = rw append-nil
  recoveries_of-snoc (b ∷ items) a = rw (recoveries_of-snoc items a) (
      sym
        (append_assoc (optional_list b.recovery) (recoveries_of items) (optional_list a.recovery)))

module _ {W Summary Metadata Extra : Type 0} (c : LoopConfig)
    (h : AttemptHooks W Summary Metadata Extra) where
  -- An attempt that was to be repeated: its decision, from the summary that was classified.
  pub record IsRepeated (a : AttemptRecord Metadata Extra) : Type 0 where
    pub summary : Summary
    pub decision : AttemptDecision Metadata
    pub classified : h.classify_attempt summary ≡ ok decision
    pub retried : decision.retry ≡ true
    pub phase : a.failure_phase ≡ decision.failure_phase
    pub recovered : is_some a.recovery ≡ (is_some h.recover_attempt && wants_recovery c decision)

  -- What one iteration adds to the state.
  pub record Extends (attempt : ℕ) (st st' : LoopState Summary Metadata Extra)
      (d : AttemptDecision Metadata) : Type 0 where
    pub item : AttemptRecord Metadata Extra
    pub last : Selected Summary Metadata
    pub attempts : st'.attempts ≡ st.attempts ++ item ∷ []
    pub recoveries : st'.recoveries ≡ st.recoveries ++ optional_list item.recovery
    pub selected : st'.selected ≡ some last
    pub number : item.attempt ≡ attempt
    pub success : item.success ≡ d.success
    pub phase : item.failure_phase ≡ d.failure_phase
    pub recovered : is_some item.recovery ≡ (is_some h.recover_attempt && wants_recovery c d)
    pub last_number : last.attempt ≡ attempt
    pub last_decision : last.decision ≡ d
    pub classified : h.classify_attempt last.summary ≡ ok d

  recover_with_some :
      (call : Option (Summary → FilePath → AttemptDecision Metadata → Exec Error W Recovery))
      (summary : Summary) (dir : FilePath) (d : AttemptDecision Metadata) (w : W)
      → Returns
          (λ r _. is_some r ≡ (is_some call && wants_recovery c d))
          (recover_with call c summary dir d w)
  unfolding recover_with
  recover_with_some none summary dir d w = refl
  recover_with_some (some call) summary dir d w = elim (Bool-cases (wants_recovery c d)) [
    | inl wanted ↦
        rw wanted (Returns-bind _ (call summary dir d) _ w (Returns-any _ _ (λ a s. refl)))
    | inr unwanted ↦ rw unwanted refl
  ]

  built :
      (attempt : ℕ) (st : LoopState Summary Metadata Extra) (ran : Str × Summary)
      (d : AttemptDecision Metadata) (r : Option Recovery)
      → h.classify_attempt ran.1 ≡ ok d
      → is_some r ≡ (is_some h.recover_attempt && wants_recovery c d)
      → Extends attempt st (advance h attempt (attempt_dir c.record_dir attempt) st ran d r) d
  built attempt st ran d r e s =
      let dir = attempt_dir c.record_dir attempt in
      record {
        item = attempt_record h attempt dir ran.1 d r;
        last = record {
          output = ran.0;
          summary = ran.1;
          decision = d;
          attempt = attempt;
          attempt_dir = dir;
        };
        attempts = refl;
        recoveries = refl;
        selected = refl;
        number = refl;
        success = refl;
        phase = refl;
        recovered = s;
        last_number = refl;
        last_decision = refl;
        classified = e;
      }

  pub one_attempt-Extends :
      (attempt : ℕ) (st : LoopState Summary Metadata Extra) (w : W)
      → Returns
          (λ (p : LoopState Summary Metadata Extra × AttemptDecision Metadata) _.
            Extends attempt st p.0 p.1)
          (one_attempt c h attempt st w)
  unfolding one_attempt
  one_attempt-Extends attempt st w =
      let dir = attempt_dir c.record_dir attempt in
      Returns-bind _ (run_before h.before_attempt attempt dir) _ w (
        Returns-any _ _ (λ _ w1. Returns-bind _ (h.run_attempt attempt dir) _ w1 (
          Returns-any _ _ (λ ran w2. Returns-lift _ (h.classify_attempt ran.1) _ w2 (λ d e.
            Returns-bind _ (recover_with h.recover_attempt c ran.1 dir d) _ w2 (
              Returns-map (λ r _. is_some r ≡ (is_some h.recover_attempt && wants_recovery c d)) _
                (recover_with h.recover_attempt c ran.1 dir d w2)
                (recover_with_some h.recover_attempt ran.1 dir d w2)
                (λ r w3 s. built attempt st ran d r e s)))))))
