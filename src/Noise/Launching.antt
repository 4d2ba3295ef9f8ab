-- ===== src/Noise/Launching.antt =====
-- How `start` of a noise process ends, in each case.
use rs_camera.Prelude.{
  ℕ, ◌+◌, ◌≤◌, true, false, ◌≡◌, refl, subst, inl, inr, ◌⊎◌, Option, none, some, ◌++◌, arith,
  Bool-cases,
}
use rs_camera.Prelude.Exec.{Result, ok, err}
use rs_camera.Prelude.Errors.{Error, value_error, runtime_error}
use rs_camera.Prelude.After.{After}
use rs_camera.Text.{Str, codes, str_eq}
use rs_camera.Machine.{FilePath}
use rs_camera.Noise.Process.{
  NoiseHost, NoiseKind, Ready, disabled, noise_path, command_of, run_command, launch, start,
}
use rs_camera.Noise.Deadline.{Advances, Onward, Waits, await-Waits}

module _ {W A : Type 0} where
  -- A call returned or raised.
  ended_cases :
      (r : Result Error A × W)
      → ((a : A) × (t : W) × (r ≡ (ok a, t))) ⊎ ((e : Error) × (t : W) × (r ≡ (err e, t)))
  ended_cases (ok a, t) = inl (a, t, refl)
  ended_cases (err e, t) = inr (e, t, refl)

module _ {W Json : Type 0} (h : NoiseHost W Json) (k : NoiseKind W Json) (d : FilePath) where
  -- How `start` ends, in each case.
  pub data Starts (mode : Str)
      : Option ℕ × W → Result Error (Ready Json) × (Option ℕ × W) → Type 0 where
    no_noise :
        {o : Option ℕ × W} → str_eq mode (codes "none") ≡ true → Starts mode o (ok disabled, o)
    unsupported :
        {o : Option ℕ × W}
        → str_eq mode (codes "none") ≡ false
        → str_eq mode k.supported_mode ≡ false
        → Starts mode o
            (err (value_error (codes "Unsupported " ++ (k.label ++ (codes " mode: " ++ mode)))), o)
    already :
        {process : ℕ} {w : W}
        → str_eq mode k.supported_mode ≡ true
        → Starts mode
            (some process, w)
            (
              err (runtime_error (codes "A " ++ (k.label ++ codes " process is already running"))),
              (some process, w),
            )
    unprepared :
        {w v : W} {e : Error}
        → k.before_start w ≡ (err e, v)
        → Starts mode (none, w) (err e, (none, v))
    no_process :
        {w v u : W} {e : Error}
        → k.before_start w ≡ (ok tt, v)
        → h.popen
            (command_of h k d)
            (noise_path h k d (codes "stdout.txt"))
            (noise_path h k d (codes "stderr.txt"))
            v
          ≡ (err e, u)
        → Starts mode (none, w) (err e, (none, u))
    waited :
        {w v u : W} {process : ℕ} {r : Result Error (Ready Json) × (Option ℕ × W)}
        → str_eq mode k.supported_mode ≡ true
        → k.before_start w ≡ (ok tt, v)
        → h.popen
            (command_of h k d)
            (noise_path h k d (codes "stdout.txt"))
            (noise_path h k d (codes "stderr.txt"))
            v
          ≡ (ok process, u)
        → Waits h k d (h.clock.monotonic v + k.ready_timeout_ms) process u r
        → Starts mode (none, w) r

  module _ (advances : Advances h.clock) (onward : Onward h) (mode : Str)
      (supported : str_eq mode k.supported_mode ≡ true) where
    run-Starts :
        (w v : W)
        → k.before_start w ≡ (ok tt, v)
        → Starts mode (none, w) (run_command h k d (h.clock.monotonic v) (none, v))
    unfolding run_command
    run-Starts w v prepared =
        elim (ended_cases (
          h.popen (command_of h k d) (noise_path h k d (codes "stdout.txt"))
            (noise_path h k d (codes "stderr.txt")) v)) [
              | inl (process, u, spawned) ↦
                  let later : h.clock.monotonic v ≤ h.clock.monotonic u =
                    subst (After (λ _ t. h.clock.monotonic v ≤ h.clock.monotonic t) (λ _ _. Unit))
                      spawned
                      (onward (command_of h k d) (noise_path h k d (codes "stdout.txt"))
                        (noise_path h k d (codes "stderr.txt")) v) in
                  rw spawned (
                    waited supported prepared spawned (
                      await-Waits h k d advances (k.ready_timeout_ms + 2)
                        (h.clock.monotonic v + k.ready_timeout_ms) process u (omega arith)))
              | inr (e, u, failed) ↦ rw failed (no_process prepared failed)
            ]

    launch-Starts : (w : W) → Starts mode (none, w) (launch h k d (none, w))
    unfolding launch
    launch-Starts w = elim (ended_cases (k.before_start w)) [
      | inl (_, v, prepared) ↦ rw prepared (run-Starts w v prepared)
      | inr (e, v, failed) ↦ rw failed (unprepared failed)
    ]

  -- `start` ends, in one of these ways: nothing is done for the mode `none`; another mode, or a process that is
  -- there, is refused; the preparation or `Popen` raises; or the loop ends from the world behind `Popen` on,
  -- round by round, when the file says that the process is ready, when the process has ended, when the file cannot
  -- be read, or when the deadline has passed, the timeout behind the time before `Popen`. The clock
  -- goes on by what is slept, and `Popen` does not turn it back.
  pub start-Starts :
      (advances : Advances h.clock) (onward : Onward h) (mode : Str) (running : Option ℕ) (w : W)
      → Starts mode (running, w) (start h k mode d (running, w))
  unfolding start
  start-Starts advances onward mode none w = elim (Bool-cases (str_eq mode (codes "none"))) [
    | inl off ↦ rw off (no_noise off)
    | inr on ↦ elim (Bool-cases (str_eq mode k.supported_mode)) [
      | inr other ↦ rw (on, other) (unsupported on other)
      | inl supported ↦ rw (on, supported) (launch-Starts advances onward mode supported w)
    ]
  ]
  start-Starts advances onward mode (some process) w =
      elim (Bool-cases (str_eq mode (codes "none"))) [
        | inl off ↦ rw off (no_noise off)
        | inr on ↦ elim (Bool-cases (str_eq mode k.supported_mode)) [
          | inr other ↦ rw (on, other) (unsupported on other)
          | inl supported ↦ rw (on, supported) (already supported)
        ]
      ]
