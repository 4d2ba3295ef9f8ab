-- ===== src/Noise/Transition.antt =====
-- `NoiseTransition`. The coordinator thread runs beside the main thread, which calls `start` and
-- `finish`, and beside the probe, which writes the file `camera_warmup_ready`. A step of the thread
-- is one call or one test of `_run`; an `Event` is a step of one of the threads.
use rs_camera.Prelude.{
  ℕ, ◌+◌, Bool, true, false, not, Option, none, some, List, [], ◌∷◌, ltb, if◌then◌else◌,
}
use rs_camera.Prelude.Exec.{Result, ok, err}
use rs_camera.Prelude.Errors.{Error, runtime_error}
use rs_camera.Text.{Str, codes}

-- `_state`; the times of the boot clock are in ns, and 0 before they are set.
pub record Times : Type 0 where
  pub camera_warmup_ready_ns : ℕ
  pub noise_start_ns : ℕ
  pub noise_ready_ns : ℕ
  pub error : Str

-- Where the coordinator stands in `_run`.
pub data Pc : Type 0 where
  polling : Pc  -- the test of `while not self._probe_done.is_set()`
  reading : Pc  -- the file of the probe, in the body of the loop
  stamping : Pc  -- `self._state["noise_start_boottime_ns"] = _boottime_ns()`
  starting : Pc  -- `self._noise_suite.start_all(...)`
  checking : Pc  -- `if self._probe_done.is_set(): return`
  gating : Pc  -- the write of the gate
  saving : Pc  -- `self._write_state()`
  failing : Str → Pc  -- `self._publish_error(error)`
  ended : Pc

-- The object with the files that it writes, and its thread once that is started.
pub record Transition : Type 0 where
  pub enabled : Bool
  pub probe_done : Bool
  pub thread : Option Pc
  pub times : Times
  pub gate : Option ℕ
  pub error_file : Option Str
  pub saved : Option Times
  -- `start_all` has returned, so all the noise is ready.
  pub noise_ready : Bool

abbrev pub zero_times : Times
zero_times = record {
  camera_warmup_ready_ns = 0;
  noise_start_ns = 0;
  noise_ready_ns = 0;
  error = [];
}

-- `__init__`
unfoldable pub new_transition : Bool → Transition
new_transition enabled = record {
  enabled = enabled;
  probe_done = false;
  thread = none;
  times = zero_times;
  gate = none;
  error_file = none;
  saved = none;
  noise_ready = false;
}

-- What the calls of one step find: `camera_warmup_ready` as a number (`none` where it is missing, cannot
-- be read or is no number), the clock, and whether the calls that may raise do so.
pub record Observed : Type 0 where
  pub warmup_ready : Option ℕ
  pub boottime_ns : ℕ
  pub suite_error : Option Str
  pub write_error : Option Str
  pub save_error : Option Str

abbrev pub at : Pc → Transition → Transition
at pc t = record t { thread = some pc }

-- The next place after a call that may raise into `except BaseException`.
abbrev pub unless_raised : Option Str → Pc → Pc
unless_raised none pc = pc
unless_raised (some detail) pc = failing detail

-- A file or a flag is set where the write has not raised.
abbrev pub written : {A : Type 0} → Option Str → A → Option A → Option A
written none new old = some new
written (some detail) new old = old

abbrev pub returned : Option Str → Bool
returned none = true
returned (some detail) = false

-- `_wait_for_camera_warmup` from the test for the file on.
unfoldable pub read_warmup : Option ℕ → Transition → Transition
read_warmup none t = at polling t
read_warmup (some timestamp) t =
    if ltb 0 timestamp
    then at stamping (record t { times = record (t.times) { camera_warmup_ready_ns = timestamp } })
    else at polling t

-- `_publish_error`; what it raises itself ends the thread.
unfoldable pub publish_error : Observed → Str → Transition → Transition
publish_error o detail t =
    let times = record (t.times) { error = detail } in
    record t {
      times = times;
      error_file = written o.write_error detail t.error_file;
      saved = if returned o.write_error then written o.save_error times t.saved else t.saved;
      thread = some ended;
    }

-- One step of `_run`.
unfoldable pub run_from : Observed → Pc → Transition → Transition
unfolding read_warmup publish_error
run_from o polling t = at (if t.probe_done then ended else reading) t
run_from o reading t = read_warmup o.warmup_ready t
run_from o stamping t =
    at starting (record t { times = record (t.times) { noise_start_ns = o.boottime_ns } })
run_from o starting t =
    at (unless_raised o.suite_error checking) (record t { noise_ready = returned o.suite_error })
run_from o checking t = at (if t.probe_done then ended else gating) t
run_from o gating t = at (unless_raised o.write_error saving) (record t {
  times = record (t.times) { noise_ready_ns = o.boottime_ns };
  gate = written o.write_error o.boottime_ns t.gate;
})
run_from o saving t =
    at (unless_raised o.save_error ended)
      (record t { saved = written o.save_error t.times t.saved })
run_from o (failing detail) t = publish_error o detail t
run_from o ended t = t

abbrev pub step_thread : Observed → Option Pc → Transition → Transition
step_thread o none t = t
step_thread o (some pc) t = run_from o pc t

-- `start`
unfoldable pub start : Transition → Result Error Transition
start t = if not t.enabled then ok t else elim t.thread [
  | none ↦ ok (at polling t)
  | some pc ↦ err (runtime_error (codes "Noise transition coordinator was already started"))
]

abbrev pub after_start : Transition → Result Error Transition → Transition
after_start old (ok new) = new
after_start old (err e) = old

-- Events in the order in which they happen. `finish` is the set of the event, any number of steps of the
-- thread until it has ended, and the last `_write_state`.
pub data Event : Type 0 where
  call_start : Event
  set_probe_done : Event
  step : Observed → Event

unfoldable pub happen : Event → Transition → Transition
unfolding start run_from
happen call_start t = after_start t (start t)
happen set_probe_done t = record t { probe_done = true }
happen (step o) t = step_thread o t.thread t

unfoldable pub run : List Event → Transition → Transition
run [] t = t
run (e ∷ es) t = run es (happen e t)

-- `self._thread.join()` returns.
unfoldable pub joined : Transition → Bool
joined t = elim t.thread [ none ↦ true | some pc ↦ elim pc [ ended ↦ true | _ ↦ false ] ]

-- `gate_timeout_ms`, from the sum of the ready timeouts of the enabled workloads in ms.
unfoldable pub gate_timeout_ms : ℕ → ℕ
gate_timeout_ms startup_ms = let ms = startup_ms + 5000 in if ltb ms 5000 then 5000 else ms
