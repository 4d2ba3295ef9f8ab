-- ===== src/Attempts/Loop.antt =====
-- The invariant of the loop of `run_attempt_loop`.
use rs_camera.Prelude.{
  ℕ, zero, suc, ◌+◌, ◌-◌, ◌≤◌, ◌<◌, ◌≡◌, refl, true, false, not, ◌&&◌, inl, inr, some, List, [],
  ◌∷◌, ◌++◌, arith, ltb, length, All, All-append, length-append, Bool-cases, ap, sym, subst, ◌∙◌,
}
use rs_camera.Prelude.Exec.{ok}
use rs_camera.Prelude.Post.{Returns, Returns-any, Returns-map, Returns-bind}
use rs_camera.Attempts.Step.{
  Numbered, AllFailed, recoveries_of, Numbered-snoc, recoveries_of-snoc, Extends, IsRepeated,
  one_attempt-Extends,
}
use rs_camera.Attempts.{
  AttemptDecision, AttemptRecord, AttemptHooks, Selected, LoopState, LoopConfig, one_attempt,
  attempt_loop, optional_list, initial, settle,
}

module _ {W Summary Metadata Extra : Type 0} (c : LoopConfig)
    (h : AttemptHooks W Summary Metadata Extra) where
  -- What holds at the head of an iteration.
  record IsOpen (attempt : ℕ) (st : LoopState Summary Metadata Extra) : Type 0 where
    pub counted : length st.attempts + 1 ≡ attempt
    pub failed : AllFailed st.attempts
    pub repeated : All (IsRepeated c h) st.attempts
    pub numbered : Numbered 1 st.attempts
    pub recovered : st.recoveries ≡ recoveries_of st.attempts

  -- What holds when the loop has ended.
  pub record IsClosed (st : LoopState Summary Metadata Extra) : Type 0 where
    pub earlier : List (AttemptRecord Metadata Extra)
    pub item : AttemptRecord Metadata Extra
    pub last : Selected Summary Metadata
    pub attempts : st.attempts ≡ earlier ++ item ∷ []
    pub failed : AllFailed earlier
    pub repeated : All (IsRepeated c h) earlier
    pub numbered : Numbered 1 st.attempts
    pub recovered : st.recoveries ≡ recoveries_of st.attempts
    pub selected : st.selected ≡ some last
    pub within : length st.attempts ≤ c.max_attempts
    pub counted : last.attempt ≡ length st.attempts
    pub success : item.success ≡ last.decision.success
    pub classified : h.classify_attempt last.summary ≡ ok last.decision
    pub stopped :
        not last.decision.success
          && (last.decision.retry && ltb (length st.attempts) c.max_attempts)
        ≡ false

  Extends-length :
      (attempt : ℕ) (st st' : LoopState Summary Metadata Extra) (d : AttemptDecision Metadata)
      → IsOpen attempt st
      → Extends c h attempt st st' d
      → length st'.attempts ≡ attempt
  Extends-length attempt st st' d o x =
      ap length x.attempts ∙ (length-append st.attempts (x.item ∷ []) ∙ omega (arith, o.counted))

  Extends-recovered :
      (attempt : ℕ) (st st' : LoopState Summary Metadata Extra) (d : AttemptDecision Metadata)
      → IsOpen attempt st
      → Extends c h attempt st st' d
      → st'.recoveries ≡ recoveries_of st'.attempts
  Extends-recovered attempt st st' d o x =
      x.recoveries
      ∙ rw x.attempts (
          rw (recoveries_of-snoc st.attempts x.item)
            (ap (λ r. r ++ optional_list x.item.recovery) o.recovered))

  Extends-IsRepeated :
      (attempt : ℕ) (st st' : LoopState Summary Metadata Extra) (d : AttemptDecision Metadata)
      (x : Extends c h attempt st st' d)
      → d.retry ≡ true
      → IsRepeated c h x.item
  Extends-IsRepeated attempt st st' d x again = record {
    summary = x.last.summary;
    decision = d;
    classified = x.classified;
    retried = again;
    phase = x.phase;
    recovered = x.recovered;
  }

  Extends-IsOpen :
      (attempt : ℕ) (st st' : LoopState Summary Metadata Extra) (d : AttemptDecision Metadata)
      → IsOpen attempt st
      → Extends c h attempt st st' d
      → d.success ≡ false
      → d.retry ≡ true
      → IsOpen (attempt + 1) st'
  Extends-IsOpen attempt st st' d o x f again = record {
    counted = omega (arith, Extends-length attempt st st' d o x);
    failed = rw x.attempts (All-append _ st.attempts (x.item ∷ []) o.failed (x.success ∙ f, tt));
    repeated = rw x.attempts (
        All-append _ st.attempts (x.item ∷ []) o.repeated
          (Extends-IsRepeated attempt st st' d x again, tt));
    numbered =
        rw x.attempts
          (Numbered-snoc 1 st.attempts x.item o.numbered (omega (arith, x.number, o.counted)));
    recovered = Extends-recovered attempt st st' d o x;
  }

  Extends-IsClosed :
      (attempt : ℕ) (st st' : LoopState Summary Metadata Extra) (d : AttemptDecision Metadata)
      → IsOpen attempt st
      → Extends c h attempt st st' d
      → attempt ≤ c.max_attempts
      → not d.success && (d.retry && ltb attempt c.max_attempts) ≡ false
      → IsClosed st'
  Extends-IsClosed attempt st st' d o x le e = record {
    earlier = st.attempts;
    item = x.item;
    last = x.last;
    attempts = x.attempts;
    failed = o.failed;
    repeated = o.repeated;
    numbered =
        rw x.attempts
          (Numbered-snoc 1 st.attempts x.item o.numbered (omega (arith, x.number, o.counted)));
    recovered = Extends-recovered attempt st st' d o x;
    selected = x.selected;
    within = omega (arith, Extends-length attempt st st' d o x);
    counted = x.last_number ∙ sym (Extends-length attempt st st' d o x);
    success = x.success ∙ ap (λ (e : AttemptDecision Metadata). e.success) (sym x.last_decision);
    classified = x.classified ∙ ap ok (sym x.last_decision);
    stopped = rw (x.last_decision, Extends-length attempt st st' d o x) e;
  }

  -- One turn of the loop, given what the turns after it do.
  loop_step :
      (left attempt : ℕ) (st : LoopState Summary Metadata Extra) (w : W)
      → ((st' : LoopState Summary Metadata Extra) (w' : W)
          → attempt < c.max_attempts
          → IsOpen (attempt + 1) st'
          → Returns (λ final _. IsClosed final) (attempt_loop c h left (attempt + 1) st' w'))
      → attempt ≤ c.max_attempts
      → IsOpen attempt st
      → Returns (λ final _. IsClosed final) (attempt_loop c h (suc left) attempt st w)
  unfolding attempt_loop
  loop_step left attempt st w next le o = Returns-bind _ (one_attempt c h attempt st) _ w (
      Returns-map
        (λ (p : LoopState Summary Metadata Extra × AttemptDecision Metadata) _.
          Extends c h attempt st p.0 p.1)
        _ (one_attempt c h attempt st w) (one_attempt-Extends c h attempt st w)
        (λ (st', d) w1 x.
          elim (Bool-cases (not d.success && (d.retry && ltb attempt c.max_attempts))) [
            | inl again ↦ rw again (
                Returns-bind _ (settle c h) _ w1 (
                  Returns-any _ _ (λ _ w2.
                    next st' w2 (ground arith)
                      (Extends-IsOpen attempt st st' d o x (ground arith) (ground arith)))))
            | inr stop ↦ rw stop (Extends-IsClosed attempt st st' d o x le stop)
          ]))

  attempt_loop-IsClosed :
      (left attempt : ℕ) (st : LoopState Summary Metadata Extra) (w : W)
      → left + attempt ≡ c.max_attempts
      → IsOpen attempt st
      → Returns (λ final _. IsClosed final) (attempt_loop c h (suc left) attempt st w)
  attempt_loop-IsClosed zero attempt st w sum o =
      loop_step zero attempt st w (λ st' w' lt o'. absurd (omega arith)) (omega arith) o
  attempt_loop-IsClosed (suc left) attempt st w sum o =
      loop_step (suc left) attempt st w
        (λ st' w' lt o'. attempt_loop-IsClosed left (attempt + 1) st' w' (omega arith) o')
        (omega arith) o

  pub loop_from_start :
      (w : W)
      → 0 < c.max_attempts
      → Returns (λ final _. IsClosed final) (attempt_loop c h c.max_attempts 1 initial w)
  loop_from_start w pos =
      let e : c.max_attempts ≡ suc (c.max_attempts - 1) = omega arith in
      subst (λ n. Returns (λ final _. IsClosed final) (attempt_loop c h n 1 initial w)) (sym e)
        (attempt_loop-IsClosed (c.max_attempts - 1) 1 initial w (omega arith) (record {
          counted = omega arith;
          failed = tt;
          repeated = tt;
          numbered = tt;
          recovered = refl;
        }))
