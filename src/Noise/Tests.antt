-- ===== src/Noise/Tests.antt =====
-- The noise of a campaign on a host whose clock is its world: a process reports in at once, and ends
-- when it is asked to.
use rs_camera.Prelude.{
  ℕ, ◌≡◌, refl, Bool, true, false, none, some, List, [], ◌∷◌, All, arith, if◌then◌else◌,
}
use rs_camera.Prelude.Exec.{ok}
use rs_camera.Prelude.After.{After}
use rs_camera.Text.{Str, codes, str_eq}
use rs_camera.Text.Words.{pos}
use rs_camera.Machine.Quiet.{quiet, ticking}
use rs_camera.Noise.Transition.{
  Event, call_start, set_probe_done, step, Observed, Transition, new_transition, run, happen, start,
  run_from, read_warmup, joined,
}
use rs_camera.Noise.Gate.{IsOpen, run-gate}
use rs_camera.Noise.Ending.{is_gating, joining, finish_joins, run-shut}
use rs_camera.Noise.Process.{
  NoiseHost, NoiseKind, stop_process, end_process, wait_or_kill, write_process,
  start as start_process,
}
use rs_camera.Noise.Suite.{Workload, start_all}
use rs_camera.Noise.Starting.{IsStarted, IsIdle, AllStop, start_all-IsStarted}
use rs_camera.Noise.Deadline.{Advances, Onward}
use rs_camera.Noise.Launching.{Starts, start-Starts}

abbrev found : Observed
found = record {
  warmup_ready = some 90;
  boottime_ns = 100;
  suite_error = none;
  write_error = none;
  save_error = none;
}

-- The thread goes all the way.
abbrev steps : List Event
steps =
    call_start ∷ step found ∷ step found ∷ step found ∷ step found ∷ step found ∷ step found ∷ []

opens : (run steps (new_transition true)).gate ≡ some 100
unfolding run happen start run_from read_warmup new_transition
opens = refl

run-gate_example : IsOpen 100 (run steps (new_transition true))
run-gate_example = run-gate true steps 100 opens

-- The probe fails while the noise starts.
abbrev interrupted : Transition
interrupted =
    run (call_start ∷ step found ∷ step found ∷ step found ∷ set_probe_done ∷ [])
      (new_transition true)

stops_early : (interrupted.probe_done ≡ true) × (interrupted.gate ≡ none)
unfolding run happen start run_from read_warmup new_transition
stops_early = (refl, refl)

abbrev five : List Observed
five = found ∷ found ∷ found ∷ found ∷ found ∷ []

finish_joins_example : joined (joining five interrupted) ≡ true
finish_joins_example = finish_joins interrupted five stops_early.0 (omega arith)

is_elsewhere : is_gating interrupted.thread ≡ false
unfolding run happen start run_from read_warmup new_transition
is_elsewhere = refl

run-shut_example : (run steps interrupted).gate ≡ none
run-shut_example = run-shut steps interrupted stops_early.0 is_elsewhere stops_early.1

-- The value of a report is whether it says `ready`.
abbrev host : NoiseHost ℕ Bool
host = record {
  machine = quiet (codes "{}");
  clock = ticking;
  popen = λ command out errors w. (ok 7, w);
  poll = λ process w. none;
  terminate = λ process w. (ok tt, w);
  kill = λ process w. (ok tt, w);
  wait = λ process seconds w. (ok tt, w);
  returncode = λ process w. pos 0;
  loads = λ text. some true;
  empty_object = false;
  says_ready = λ ready. ready;
  dumps = λ ready. [];
  dump_process = λ code forced. [];
}

abbrev kind : NoiseKind ℕ Bool
kind = record {
  file_prefix = codes "cpu_noise";
  label = codes "CPU-NOISE";
  supported_mode = codes "busy_loop";
  ready_timeout_ms = 15000;
  seconds = codes "15.0";
  before_start = λ w. (ok tt, w);
  command = λ ready summary. codes "noise" ∷ [];
  decorate_ready = λ ready command w. (ok ready, w);
}

abbrev modes : Str → Str
modes key = if str_eq key (codes "cpu_noise") then codes "busy_loop" else codes "none"

abbrev suite : List (Workload ℕ Bool)
suite =
    record { key = codes "cpu_noise"; kind = kind; process = none }
    ∷ record { key = codes "gpu_noise"; kind = kind; process = none }
    ∷ []

all_stop : AllStop host modes (codes "r" ∷ [])
unfolding stop_process end_process wait_or_kill write_process
all_stop k process w = refl

start_all-IsStarted_example :
    After
      (λ _ s. All (IsStarted modes) s.0)
      (λ _ s. All IsIdle s.0)
      (start_all host modes (codes "r" ∷ []) (suite, 0))
start_all-IsStarted_example = start_all-IsStarted host modes (codes "r" ∷ []) suite 0 all_stop

goes_on : Advances ticking
goes_on ms w = omega arith

popen-Onward : Onward host
popen-Onward command out errors w = omega arith

start-Starts_example :
    Starts host kind
      (codes "r" ∷ [])
      (codes "busy_loop")
      (none, 5)
      (start_process host kind (codes "busy_loop") (codes "r" ∷ []) (none, 5))
start-Starts_example =
    start-Starts host kind (codes "r" ∷ []) goes_on popen-Onward (codes "busy_loop") none 5
