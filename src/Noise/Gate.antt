-- ===== src/Noise/Gate.antt =====
-- When the measurement gate opens, over every order of the steps of the two threads.
use rs_camera.Prelude.{
  ℕ, ◌<◌, Bool, true, false, ◌≡◌, refl, inl, inr, Option, none, some, List, [], ◌∷◌, arith,
  Bool-cases, ltb,
}
use rs_camera.Noise.Transition.{
  Pc, polling, reading, stamping, starting, checking, gating, saving, failing, ended, Transition,
  Observed, Event, call_start, set_probe_done, step, new_transition, step_thread, run_from, start,
  happen, run, read_warmup, publish_error,
}

-- Behind `_wait_for_camera_warmup`, on the way to the gate.
abbrev is_warm : Option Pc → Bool
is_warm (some stamping) = true
is_warm (some starting) = true
is_warm (some checking) = true
is_warm (some gating) = true
is_warm (some saving) = true
is_warm _ = false

-- Behind the return of `start_all`, before an error.
abbrev is_noisy : Option Pc → Bool
is_noisy (some checking) = true
is_noisy (some gating) = true
is_noisy (some saving) = true
is_noisy _ = false

-- Where the gate may have been written.
abbrev is_late : Option Pc → Bool
is_late (some saving) = true
is_late (some (failing detail)) = true
is_late (some ended) = true
is_late _ = false

abbrev is_open : Option ℕ → Bool
is_open none = false
is_open (some ns) = true

record IsSound (t : Transition) : Type 0 where
  running : t.enabled ≡ false → t.thread ≡ none
  warm : is_warm t.thread ≡ true → 0 < t.times.camera_warmup_ready_ns
  noisy : is_noisy t.thread ≡ true → t.noise_ready ≡ true
  late : is_open t.gate ≡ true → is_late t.thread ≡ true
  camera : is_open t.gate ≡ true → 0 < t.times.camera_warmup_ready_ns
  noise : is_open t.gate ≡ true → t.noise_ready ≡ true
  stamp : is_open t.gate ≡ true → t.gate ≡ some (t.times.noise_ready_ns)

read_warmup-IsSound :
    (warmup : Option ℕ) (t : Transition)
    → t.thread ≡ some reading
    → IsSound t
    → IsSound (read_warmup warmup t)
unfolding read_warmup
read_warmup-IsSound none t e s = ground arith
read_warmup-IsSound (some timestamp) t e s = elim (Bool-cases (ltb 0 timestamp)) [
  | inl positive ↦ rw positive (ground arith)
  | inr other ↦ rw other (ground arith)
]

run_from-IsSound :
    (o : Observed) (pc : Pc) (t : Transition)
    → t.thread ≡ some pc
    → IsSound t
    → IsSound (run_from o pc t)
unfolding run_from publish_error
run_from-IsSound o polling t e s = ground arith
run_from-IsSound o reading t e s = read_warmup-IsSound o.warmup_ready t e s
run_from-IsSound o stamping t e s = ground arith
run_from-IsSound o starting t e s = ground arith
run_from-IsSound o checking t e s = ground arith
run_from-IsSound o gating t e s = ground arith
run_from-IsSound o saving t e s = ground arith
run_from-IsSound o (failing detail) t e s = ground arith
run_from-IsSound o ended t e s = s

step-IsSound :
    (o : Observed) (pc : Option Pc) (t : Transition)
    → t.thread ≡ pc
    → IsSound t
    → IsSound (step_thread o pc t)
step-IsSound o none t e s = s
step-IsSound o (some pc) t e s = run_from-IsSound o pc t e s

happen-IsSound : (e : Event) (t : Transition) → IsSound t → IsSound (happen e t)
unfolding happen start
happen-IsSound call_start t s = ground arith
happen-IsSound set_probe_done t s = ground arith
happen-IsSound (step o) t s = step-IsSound o t.thread t refl s

run-IsSound : (es : List Event) (t : Transition) → IsSound t → IsSound (run es t)
unfolding run
run-IsSound [] t s = s
run-IsSound (e ∷ es) t s = run-IsSound es (happen e t) (happen-IsSound e t s)

-- What an open gate says.
pub record IsOpen (ns : ℕ) (t : Transition) : Type 0 where
  pub enabled : t.enabled ≡ true
  pub camera_warm : 0 < t.times.camera_warmup_ready_ns
  pub noise : t.noise_ready ≡ true
  pub stamped : t.times.noise_ready_ns ≡ ns

new-IsSound : (enabled : Bool) → IsSound (new_transition enabled)
unfolding new_transition
new-IsSound enabled = ground arith

-- Whatever the order of the steps of the threads and whatever their calls find: where the gate of the
-- measurement is open, noise is enabled, the probe has reported a time for the warm cameras, all the
-- noise is ready, and the gate holds the time that the record of the transition holds.
pub run-gate :
    (enabled : Bool) (es : List Event) (ns : ℕ)
    → (run es (new_transition enabled)).gate ≡ some ns
    → IsOpen ns (run es (new_transition enabled))
run-gate enabled es ns h =
    grind (arith, run-IsSound es (new_transition enabled) (new-IsSound enabled))
