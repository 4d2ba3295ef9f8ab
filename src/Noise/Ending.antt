-- ===== src/Noise/Ending.antt =====
-- What `finish` may rely on once the probe has ended.
use rs_camera.Prelude.{
  ℕ, suc, ◌≤◌, Bool, true, false, ◌≡◌, refl, Option, none, some, List, [], ◌∷◌, arith, length, ltb,
  inl, inr, Bool-cases,
}
use rs_camera.Noise.Transition.{
  Pc, polling, reading, stamping, starting, checking, gating, saving, failing, ended, Transition,
  Observed, Event, call_start, set_probe_done, step, run_from, step_thread, start, happen, run,
  read_warmup, publish_error, joined,
}

-- The steps that are left, at most.
abbrev steps_left : Option Pc → ℕ
steps_left none = 0
steps_left (some polling) = 1
steps_left (some reading) = 5
steps_left (some stamping) = 4
steps_left (some starting) = 3
steps_left (some checking) = 1
steps_left (some gating) = 3
steps_left (some saving) = 2
steps_left (some (failing detail)) = 1
steps_left (some ended) = 0

-- The thread has at most `n` steps left, and the event is set.
record Within (n : ℕ) (t : Transition) : Type 0 where
  done : t.probe_done ≡ true
  left : steps_left t.thread ≤ n

read_warmup-Within :
    (warmup : Option ℕ) (n : ℕ) (t : Transition)
    → t.thread ≡ some reading
    → Within (suc n) t
    → Within n (read_warmup warmup t)
unfolding read_warmup
read_warmup-Within none n t e w = ground arith
read_warmup-Within (some timestamp) n t e w = elim (Bool-cases (ltb 0 timestamp)) [
  | inl positive ↦ rw positive (ground arith)
  | inr other ↦ rw other (ground arith)
]

run_from-Within :
    (o : Observed) (pc : Pc) (n : ℕ) (t : Transition)
    → t.thread ≡ some pc
    → Within (suc n) t
    → Within n (run_from o pc t)
unfolding run_from publish_error
run_from-Within o polling n t e w = ground arith
run_from-Within o reading n t e w = read_warmup-Within o.warmup_ready n t e w
run_from-Within o stamping n t e w = ground arith
run_from-Within o starting n t e w = ground arith
run_from-Within o checking n t e w = ground arith
run_from-Within o gating n t e w = ground arith
run_from-Within o saving n t e w = ground arith
run_from-Within o (failing detail) n t e w = ground arith
run_from-Within o ended n t e w = ground arith

step-Within :
    (o : Observed) (pc : Option Pc) (n : ℕ) (t : Transition)
    → t.thread ≡ pc
    → Within (suc n) t
    → Within n (step_thread o pc t)
step-Within o none n t e w = ground arith
step-Within o (some pc) n t e w = run_from-Within o pc n t e w

-- `finish` after the event is set: the thread alone moves.
abbrev pub joining : List Observed → Transition → Transition
joining [] t = t
joining (o ∷ os) t = joining os (happen (step o) t)

joining-Within :
    (os : List Observed) (t : Transition) → Within (length os) t → Within 0 (joining os t)
unfolding happen
joining-Within [] t w = w
joining-Within (o ∷ os) t w =
    joining-Within os (step_thread o t.thread t) (step-Within o t.thread (length os) t refl w)

none_left : (pc : Option Pc) (t : Transition) → t.thread ≡ pc → steps_left pc ≤ 0 → joined t ≡ true
unfolding joined
none_left none t e h = ground arith
none_left (some polling) t e h = ground arith
none_left (some reading) t e h = ground arith
none_left (some stamping) t e h = ground arith
none_left (some starting) t e h = ground arith
none_left (some checking) t e h = ground arith
none_left (some gating) t e h = ground arith
none_left (some saving) t e h = ground arith
none_left (some (failing detail)) t e h = ground arith
none_left (some ended) t e h = ground arith

at_most_five : (pc : Option Pc) → steps_left pc ≤ 5
at_most_five none = omega arith
at_most_five (some polling) = omega arith
at_most_five (some reading) = omega arith
at_most_five (some stamping) = omega arith
at_most_five (some starting) = omega arith
at_most_five (some checking) = omega arith
at_most_five (some gating) = omega arith
at_most_five (some saving) = omega arith
at_most_five (some (failing detail)) = omega arith
at_most_five (some ended) = omega arith

-- After the event of `finish` the coordinator has ended within five of its own steps, wherever it
-- stood and whatever its calls find, so that `join` returns.
pub finish_joins :
    (t : Transition) (os : List Observed)
    → t.probe_done ≡ true
    → 5 ≤ length os
    → joined (joining os t) ≡ true
finish_joins t os d h =
    none_left (joining os t).thread (joining os t) refl
      (joining-Within os t (record { done = d; left = omega (arith, at_most_five t.thread) })).left

abbrev pub is_gating : Option Pc → Bool
is_gating (some gating) = true
is_gating _ = false

record IsShut (t : Transition) : Type 0 where
  done : t.probe_done ≡ true
  elsewhere : is_gating t.thread ≡ false
  shut : t.gate ≡ none

read_warmup-IsShut : (warmup : Option ℕ) (t : Transition) → IsShut t → IsShut (read_warmup warmup t)
unfolding read_warmup
read_warmup-IsShut none t s = ground arith
read_warmup-IsShut (some timestamp) t s = elim (Bool-cases (ltb 0 timestamp)) [
  | inl positive ↦ rw positive (ground arith)
  | inr other ↦ rw other (ground arith)
]

step-IsShut :
    (o : Observed) (pc : Option Pc) (t : Transition)
    → t.thread ≡ pc
    → IsShut t
    → IsShut (step_thread o pc t)
unfolding run_from publish_error
step-IsShut o none t e s = s
step-IsShut o (some polling) t e s = ground arith
step-IsShut o (some reading) t e s = read_warmup-IsShut o.warmup_ready t s
step-IsShut o (some stamping) t e s = ground arith
step-IsShut o (some starting) t e s = ground arith
step-IsShut o (some checking) t e s = ground arith
step-IsShut o (some gating) t e s = ground arith
step-IsShut o (some saving) t e s = ground arith
step-IsShut o (some (failing detail)) t e s = ground arith
step-IsShut o (some ended) t e s = s

happen-IsShut : (e : Event) (t : Transition) → IsShut t → IsShut (happen e t)
unfolding happen start
happen-IsShut call_start t s = ground arith
happen-IsShut set_probe_done t s = ground arith
happen-IsShut (step o) t s = step-IsShut o t.thread t refl s

run-IsShut : (es : List Event) (t : Transition) → IsShut t → IsShut (run es t)
unfolding run
run-IsShut [] t s = s
run-IsShut (e ∷ es) t s = run-IsShut es (happen e t) (happen-IsShut e t s)

-- If the probe has ended before the coordinator is about to write the gate, and the gate is not
-- there, it is never written, whatever happens afterwards.
pub run-shut :
    (es : List Event) (t : Transition)
    → t.probe_done ≡ true
    → is_gating t.thread ≡ false
    → t.gate ≡ none
    → (run es t).gate ≡ none
run-shut es t d e g = (run-IsShut es t (record { done = d; elsewhere = e; shut = g })).shut
