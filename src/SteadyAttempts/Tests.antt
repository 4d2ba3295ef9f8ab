-- ===== src/SteadyAttempts/Tests.antt =====
-- A run with two cameras, on the host that lets every command succeed.
use rs_camera.Prelude.{ℕ, ◌+◌, ◌≡◌, refl, true, false, [], ◌∷◌, arith, leb}
use rs_camera.Prelude.Exec.{ok}
use rs_camera.Prelude.Errors.{runtime_error}
use rs_camera.Prelude.Post.{Returns}
use rs_camera.Text.{codes, str_eq}
use rs_camera.Text.Words.{starts_with}
use rs_camera.Machine.Quiet.{quiet}
use rs_camera.Attempts.{LoopConfig, run_attempt_loop}
use rs_camera.SteadyAttempts.Classify.{
  Probe, many, startup, scheduler_setup, failure_phase_of, classify_attempt, camera_descriptors,
  no_summary, pre_run_reset_summary, rsusb_ports, port_of, descriptors, measurement_started,
}
use rs_camera.SteadyAttempts.Running.{SteadyHooks, attempt_hooks}
use rs_camera.SteadyAttempts.Budget.{IsSpent, steady-IsSpent}
use rs_camera.SteadyAttempts.PreRunReset.{pre_run_reset_lem}

abbrev probe : Probe
probe = record { serials = many (codes "1" ∷ codes "2" ∷ []); rsusb_usb_devices = codes "2-1" ∷ [] }

cameras :
    camera_descriptors probe no_summary
    ≡ record { serial = codes "1"; physical_port = codes "/sys/bus/usb/devices/2-1" }
      ∷ record { serial = codes "2"; physical_port = [] }
      ∷ []
unfolding camera_descriptors rsusb_ports port_of descriptors str_eq
cameras = refl

deadline_fails :
    failure_phase_of (record {
      success = false;
      error = codes "SCHED_DEADLINE setup failed: busy";
      start_boottime_ns = 7;
      cameras = [];
    })
    ≡ scheduler_setup
unfolding failure_phase_of starts_with measurement_started
deadline_fails = refl

abbrev config : LoopConfig
config = record {
  record_dir = codes "run" ∷ [];
  max_attempts = 3;
  recovery_method = codes "full-reset";
  recovery_settle_ms = 0;
}

-- The first attempt fails before its measurement.
abbrev hooks : SteadyHooks ℕ
hooks = record {
  probe = probe;
  run_attempt = λ attempt dir w. (
    ok (
      codes "output",
      record { success = leb 2 attempt; error = []; start_boottime_ns = 0; cameras = [] },
    ),
    w,
  );
  recover =
      λ cs dir w. (ok (record { success = true; camera_count = 2; cameras = []; error = [] }), w);
  sleep = λ ms w. w + ms;
  dump_summary = λ s. [];
  dump_attempts = λ items. [];
  dump_manifest = λ old selected count success. ok [];
}

steady-IsSpent_example :
    Returns
      (λ r _. IsSpent config r)
      (run_attempt_loop config (attempt_hooks (quiet []) config hooks) 0)
steady-IsSpent_example = steady-IsSpent (quiet []) config hooks 0 (omega arith)

pre_run_reset_lem_example :
    (failure_phase_of (pre_run_reset_summary probe (runtime_error (codes "x"))) ≡ startup)
    × ((classify_attempt (pre_run_reset_summary probe (runtime_error (codes "x")))).retry ≡ true)
    × ((classify_attempt (pre_run_reset_summary probe (runtime_error (codes "x")))).recover ≡ true)
    × (camera_descriptors probe (pre_run_reset_summary probe (runtime_error (codes "x")))
        ≡ camera_descriptors probe no_summary)
pre_run_reset_lem_example = pre_run_reset_lem probe (runtime_error (codes "x"))
