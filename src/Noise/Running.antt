-- ===== src/Noise/Running.antt =====
-- What `start` and `stop` of one process leave.
use rs_camera.Prelude.{
  ℕ, zero, suc, ◌+◌, true, false, ◌≡◌, refl, inl, inr, Option, none, some, List, Bool-cases, ltb,
}
use rs_camera.Prelude.Exec.{Result, ok, err, Exec, ◌>>=◌, raise, continue}
use rs_camera.Prelude.Errors.{Error}
use rs_camera.Prelude.After.{After, After-any, After-bind}
use rs_camera.Prelude.Objects.{on_world}
use rs_camera.Text.{Str, codes, str_eq}
use rs_camera.Text.Words.{ℤ}
use rs_camera.Machine.{FilePath}
use rs_camera.Noise.Process.{
  NoiseHost, NoiseKind, Ready, stop, exited, look, inspect, await_ready, launch, start, is_running,
  noise_path, read_json, write_process, run_command, command_of,
}

module _ {W Json : Type 0} (h : NoiseHost W Json) (k : NoiseKind W Json) where
  -- `stop` forgets the process in any case.
  pub stop-idle : (d : Option FilePath) (p : Option ℕ) (w : W) → (stop h k d (p, w)).1.0 ≡ none
  unfolding stop
  stop-idle d none w = refl
  stop-idle d (some process) w = refl

  -- The process runs if the call has returned.
  abbrev pub Runs : Result Error (Ready Json) × (Option ℕ × W) → Type 0
  Runs = After (λ v s. is_running s.0 ≡ true) (λ _ _. Unit)

  pub Runs-world :
      {A : Type 0} (action : Exec Error W A) (f : A → Exec Error (Option ℕ × W) (Ready Json))
      (p : Option ℕ) (w : W)
      → ((a : A) (w' : W) → Runs (f a (p, w')))
      → Runs ((on_world action >>= f) (p, w))
  Runs-world {A = A} action f p w next = go (action w)
    where
      go : (r : Result Error A × W) → Runs (continue r.0 f (p, r.1))
      go (ok a, w') = next a w'
      go (err e, w') = tt

  raise-Runs :
      {A : Type 0} (m : Exec Error (Option ℕ × W) A) (e : A → Error) (s : Option ℕ × W)
      → Runs ((m >>= λ a. raise (e a)) s)
  raise-Runs m e s =
      After-bind (λ v t. is_running t.0 ≡ true) (λ _ _. Unit) m (λ a. raise (e a)) s
        (After-any _ _ (m s) (λ _ _. tt) (λ _ _. tt))

  exited-Runs : (d : FilePath) (code : ℤ) (s : Option ℕ × W) → Runs (exited h k d code s)
  unfolding exited
  exited-Runs d code s = Runs-world (write_process h k d code false) _ none s.1 (λ _ w1.
      raise-Runs
        (on_world (λ w. (h.machine.read_text (noise_path h k d (codes "stderr.txt")) w, w))) _
        (none, w1))

  Again : Exec Error (Option ℕ × W) (Ready Json) → ℕ → Type 0
  Again again process = (w : W) → Runs (again (some process, w))

  look-Runs :
      (again : Exec Error (Option ℕ × W) (Ready Json)) (command : List Str) (process : ℕ)
      (file : Option Json) (w : W)
      → Again again process
      → Runs (look h k again command file (some process, w))
  unfolding look Again
  look-Runs again command process none w next = next (h.clock.sleep 10 w)
  look-Runs again command process (some ready) w next = elim (Bool-cases (h.says_ready ready)) [
    | inl reports ↦
        rw reports
          (Runs-world (k.decorate_ready ready command) _ (some process) w (λ value w'. refl))
    | inr other ↦ rw other (next (h.clock.sleep 50 w))
  ]

  inspect-Runs :
      (again : Exec Error (Option ℕ × W) (Ready Json)) (d : FilePath) (command : List Str)
      (process : ℕ) (code : Option ℤ) (w : W)
      → Again again process
      → Runs (inspect h k again d command code (some process, w))
  unfolding inspect Again
  inspect-Runs again d command process (some code) w next = exited-Runs d code (some process, w)
  inspect-Runs again d command process none w next =
      elim (Bool-cases (h.machine.is_file (noise_path h k d (codes "ready.json")) w)) [
        | inl there ↦ rw there (
            Runs-world (read_json h k (noise_path h k d (codes "ready.json"))) _ (some process) w
              (λ file w'. look-Runs again command process file w' next))
        | inr missing ↦ rw missing (next (h.clock.sleep 50 w))
      ]

  await-Runs :
      (fuel deadline : ℕ) (d : FilePath) (command : List Str) (process : ℕ)
      → Again (await_ready h k fuel deadline d command process) process
  unfolding await_ready Again
  await-Runs zero deadline d command process w = raise-Runs (stop h k (some d)) _ _
  await-Runs (suc fuel) deadline d command process w =
      elim (Bool-cases (ltb (h.clock.monotonic w) deadline)) [
        | inl early ↦ rw early (
            inspect-Runs (await_ready h k fuel deadline d command process) d command process
              (h.poll process w) w (await-Runs fuel deadline d command process))
        | inr late ↦ rw late (raise-Runs (stop h k (some d)) _ _)
      ]

  run_command-Runs :
      (d : FilePath) (began : ℕ) (p : Option ℕ) (w : W) → Runs (run_command h k d began (p, w))
  unfolding run_command Again
  run_command-Runs d began p w =
      Runs-world
        (h.popen (command_of h k d) (noise_path h k d (codes "stdout.txt"))
          (noise_path h k d (codes "stderr.txt")))
        _ p w
        (λ process w'.
          await-Runs (k.ready_timeout_ms + 2) (began + k.ready_timeout_ms) d (command_of h k d)
            process w')

  launch-Runs : (d : FilePath) (p : Option ℕ) (w : W) → Runs (launch h k d (p, w))
  unfolding launch
  launch-Runs d p w =
      Runs-world k.before_start _ p w (λ _ w'. run_command-Runs d (h.clock.monotonic w') p w')

  -- Where `start` returns for a mode that is on, the process runs.
  pub start-Runs :
      (mode : Str) (d : FilePath) (p : Option ℕ) (w : W)
      → str_eq mode (codes "none") ≡ false
      → Runs (start h k mode d (p, w))
  unfolding start
  start-Runs mode d none w on = rw on (elim (Bool-cases (str_eq mode k.supported_mode)) [
    | inr other ↦ rw other tt
    | inl supported ↦ rw supported (launch-Runs d none w)
  ])
  start-Runs mode d (some process) w on = rw on (elim (Bool-cases (str_eq mode k.supported_mode)) [
    | inr other ↦ rw other tt
    | inl supported ↦ rw supported tt
  ])
