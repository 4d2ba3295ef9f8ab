-- ===== src/Attempts/Tests.antt =====
-- The theorems on the attempt loop, on a point that fails once, is recovered, and then succeeds.
use rs_camera.Prelude.{ℕ, ◌+◌, ◌≡◌, refl, true, none, some, [], ◌∷◌, arith, leb, if◌then◌else◌}
use rs_camera.Prelude.Exec.{ok}
use rs_camera.Prelude.Post.{Returns, Succeeds}
use rs_camera.Text.{Str, codes}
use rs_camera.Attempts.Outcome.{IsOutcome, run_attempt_loop-IsOutcome}
use rs_camera.Attempts.Total.{NeverRaises, run_attempt_loop-total, failed_attempt_count_exact}
use rs_camera.Attempts.{AttemptDecision, AttemptHooks, LoopConfig, run_attempt_loop}

abbrev config : LoopConfig
config = record {
  record_dir = codes "records" ∷ [];
  max_attempts = 3;
  recovery_method = codes "usb-reset";
  recovery_settle_ms = 500;
}

-- The world counts the milliseconds slept; the summary of an attempt is its number.
abbrev decide : ℕ → AttemptDecision ℕ
decide summary = record {
  success = leb 2 summary;
  failure_phase = codes "startup";
  retry = true;
  recover = true;
  error = codes "no frames";
  metadata = summary;
}

abbrev hooks : AttemptHooks ℕ ℕ ℕ Str
hooks = record {
  run_attempt = λ attempt dir w. (ok (codes "output", attempt), w);
  classify_attempt = λ summary. ok (decide summary);
  recover_attempt = some (λ summary dir d w. (ok (record { success = true; error = [] }), w));
  before_attempt = none;
  build_attempt_record = none;
  sleep = λ ms w. w + ms;
}

hooks-NeverRaises : NeverRaises hooks
hooks-NeverRaises = record {
  run = λ attempt dir w. tt;
  classify = λ summary. refl;
  recover = λ summary dir d w. tt;
  before = tt;
}

run_attempt_loop-IsOutcome_example :
    Returns (λ r _. IsOutcome config hooks r) (run_attempt_loop config hooks 0)
run_attempt_loop-IsOutcome_example = run_attempt_loop-IsOutcome config hooks 0 (omega arith)

run_attempt_loop-total_example :
    Succeeds (λ r _. IsOutcome config hooks r) (run_attempt_loop config hooks 0)
run_attempt_loop-total_example =
    run_attempt_loop-total config hooks hooks-NeverRaises 0 (omega arith)

failed_attempt_count_exact_example :
    Returns
      (λ r _.
        r.summary.failed_attempt_count + (if r.summary.eventual_success then 1 else 0)
        ≡ r.summary.attempt_count)
      (run_attempt_loop config hooks 0)
failed_attempt_count_exact_example = failed_attempt_count_exact config hooks 0 (omega arith)
