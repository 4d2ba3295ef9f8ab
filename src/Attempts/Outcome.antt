-- ===== src/Attempts/Outcome.antt =====
-- What `run_attempt_loop` returns.
use rs_camera.Prelude.{
  ◌≤◌, ◌<◌, ◌≡◌, refl, false, not, ◌&&◌, Option, none, some, List, [], ◌∷◌, ◌++◌, arith, ltb,
  length, All, sym, subst,
}
use rs_camera.Prelude.Exec.{ok, ok-injective}
use rs_camera.Prelude.Post.{Returns, Returns-map, Returns-bind, Returns-pure}
use rs_camera.Attempts.Step.{Numbered, AllFailed, recoveries_of, IsRepeated}
use rs_camera.Attempts.Loop.{IsClosed, loop_from_start}
use rs_camera.Attempts.{
  AttemptDecision, AttemptRecord, AttemptHooks, AttemptLoopResult, LoopState, LoopConfig, Selected,
  attempt_loop, initial, finish, count_failed, run_attempt_loop,
}

module _ {W Summary Metadata Extra : Type 0} (c : LoopConfig)
    (h : AttemptHooks W Summary Metadata Extra) where
  pub record IsOutcome (r : AttemptLoopResult Summary Metadata Extra) : Type 0 where
    pub earlier : List (AttemptRecord Metadata Extra)
    pub item : AttemptRecord Metadata Extra
    pub decision : AttemptDecision Metadata
    pub attempts : r.attempts ≡ earlier ++ item ∷ []
    pub failed : AllFailed earlier
    pub repeated : All (IsRepeated c h) earlier
    pub numbered : Numbered 1 r.attempts
    pub recovered : r.recoveries ≡ recoveries_of r.attempts
    pub within : length r.attempts ≤ c.max_attempts
    pub selected : r.selected_attempt ≡ length r.attempts
    pub eventual : r.summary.eventual_success ≡ item.success
    pub counted : r.summary.attempt_count ≡ length r.attempts
    pub tallied : r.summary.failed_attempt_count ≡ count_failed r.attempts
    pub classified : h.classify_attempt r.summary.summary ≡ ok decision
    pub decided : item.success ≡ decision.success
    pub stopped :
        not decision.success && (decision.retry && ltb (length r.attempts) c.max_attempts) ≡ false

  finish-IsOutcome :
      (st : LoopState Summary Metadata Extra) (selected : Option (Selected Summary Metadata))
      (items : List (AttemptRecord Metadata Extra)) (r : AttemptLoopResult Summary Metadata Extra)
      → st.selected ≡ selected
      → IsClosed c h st
      → finish c st selected items ≡ ok r
      → IsOutcome r
  unfolding finish
  finish-IsOutcome st none items r s k e = cc
  finish-IsOutcome st (some last) [] r s k e = cc
  finish-IsOutcome st (some last) (first ∷ rest) r s k e = subst IsOutcome (ok-injective e) (
      let same : k.last ≡ last = cc (k.selected, s) in
      record {
        earlier = k.earlier;
        item = k.item;
        decision = k.last.decision;
        attempts = k.attempts;
        failed = k.failed;
        repeated = k.repeated;
        numbered = k.numbered;
        recovered = k.recovered;
        within = k.within;
        selected = rw (← same) k.counted;
        eventual = rw (← same) (sym k.success);
        counted = refl;
        tallied = refl;
        classified = rw (← same) k.classified;
        decided = k.success;
        stopped = k.stopped;
      })

  -- One logical point is run at least once and at most `max_attempts` times, under the numbers 1, 2
  -- and so on; every attempt but the last has failed, was to be repeated by the decision on its
  -- summary, and was recovered exactly where that decision and the method ask for it; the last is the
  -- selected one and decides the eventual success, the recoveries are those that the attempts record,
  -- and a failed last attempt was not to be repeated or has used up the budget. This holds whenever
  -- the loop returns, with `max_attempts` at least 1.
  pub run_attempt_loop-IsOutcome :
      (w : W) → 0 < c.max_attempts → Returns (λ r _. IsOutcome r) (run_attempt_loop c h w)
  unfolding run_attempt_loop
  run_attempt_loop-IsOutcome w pos =
      let started : ltb c.max_attempts 1 ≡ false = ground arith in
      rw started (
        Returns-bind _ (attempt_loop c h c.max_attempts 1 initial) _ w (
          Returns-map (λ st _. IsClosed c h st) _ (attempt_loop c h c.max_attempts 1 initial w)
            (loop_from_start c h w pos)
            (λ st w' k.
              Returns-pure _ (finish c st st.selected st.attempts) w'
                (λ r e. finish-IsOutcome st st.selected st.attempts r refl k e))))
