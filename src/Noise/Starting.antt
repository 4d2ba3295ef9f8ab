-- ===== src/Noise/Starting.antt =====
-- What `start_all` and `stop_all` leave running.
use rs_camera.Prelude.{
  ℕ, true, false, ◌≡◌, refl, inl, inr, Option, none, some, List, [], ◌∷◌, ◌++◌, All, Bool-cases,
}
use rs_camera.Prelude.Exec.{Result, ok, err, is_ok, Exec, ◌>>◌, pure, raise, continue, rescue}
use rs_camera.Prelude.Errors.{Error}
use rs_camera.Prelude.After.{After, After-any, After-map, After-bind}
use rs_camera.Text.{Str, codes, str_eq}
use rs_camera.Machine.{FilePath}
use rs_camera.Noise.Process.{
  NoiseHost, NoiseKind, Ready, stop_process, stop, start, is_running, noise_path,
}
use rs_camera.Noise.Suite.{
  Workload, is_active, on_process, start_and_record, start_one, push_value, then_start, start_each,
  then_stop, stop_each, stop_all, start_all,
}
use rs_camera.Noise.Running.{stop-idle, Runs, Runs-world, start-Runs}

module _ {W Json : Type 0} where
  abbrev pub IsIdle : Workload W Json → Type 0
  IsIdle x = x.process ≡ none

  -- A workload that is on has its process.
  abbrev pub IsStarted : (Str → Str) → Workload W Json → Type 0
  IsStarted modes x = is_active modes x.key ≡ true → is_running x.process ≡ true

  -- A method of a workload changes no more than its process.
  After-process :
      {A : Type 0} (h : NoiseHost W Json) (Q : Workload W Json → Type 0)
      (method : Exec Error (Option ℕ × W) A) (x : Workload W Json) (w : W)
      → After {S = Option ℕ × W}
          (λ _ s. Q (record x { process = s.0 }))
          (λ _ _. Unit)
          (method (x.process, w))
      → After (λ _ s. Q s.0) (λ _ _. Unit) (on_process h method (x, w))
  After-process {A = A} h Q method x w = go (method (x.process, w))
    where
      go :
          (r : Result Error A × (Option ℕ × W))
          → After {S = Option ℕ × W} (λ _ s. Q (record x { process = s.0 })) (λ _ _. Unit) r
          → After {S = Workload W Json × W}
              (λ _ s. Q s.0)
              (λ _ _. Unit)
              (r.0, (record x { process = r.1.0 }, r.1.1))
      go (ok a, s) q = q
      go (err e, s) q = tt

module _ {W Json : Type 0} (h : NoiseHost W Json) (modes : Str → Str) (d : FilePath) where
  -- Where the first part returns, the second leaves the process running.
  recorded-Runs :
      (k : NoiseKind W Json) (mode : Str) (p : Option ℕ) (w : W)
      → str_eq mode (codes "none") ≡ false
      → Runs h k (start_and_record h k mode d (p, w))
  unfolding start_and_record
  recorded-Runs k mode p w on =
      After-bind (λ v t. is_running t.0 ≡ true) (λ _ _. Unit) (start h k mode d) _ (p, w)
        (After-map (λ v t. is_running t.0 ≡ true) _ (λ _ _. Unit) _ (start h k mode d (p, w))
          (start-Runs h k mode d p w on)
          (λ v s running.
            Runs-world h k
              (h.machine.write_text (noise_path h k d (codes "configuration.json"))
                (h.dumps v ++ 10 ∷ []))
              (λ _. pure v) s.0 s.1 (λ _ w'. running))
          (λ _ _ _. tt))

  start_one-IsStarted :
      (x : Workload W Json) (w : W)
      → After (λ _ s. IsStarted modes s.0) (λ _ _. Unit) (start_one h modes d x w)
  start_one-IsStarted x w =
      After-process h (IsStarted modes) (start_and_record h x.kind (modes x.key) d) x w
        (elim (Bool-cases (str_eq (modes x.key) (codes "none"))) [
          | inl off ↦
              After-any _ _ (start_and_record h x.kind (modes x.key) d (x.process, w))
                (λ _ s on. cc (rw off at on)) (λ _ _. tt)
          | inr active ↦
              After-map (λ v t. is_running t.0 ≡ true) _ (λ _ _. Unit) _ _
                (recorded-Runs x.kind (modes x.key) x.process w active) (λ _ s running on. running)
                (λ _ _ _. tt)
        ])

  pushed :
      (y : Workload W Json) (v : Str × Ready Json)
      (r : Result Error (List (Str × Ready Json)) × (List (Workload W Json) × W))
      → IsStarted modes y
      → After (λ _ s. All (IsStarted modes) s.0) (λ _ _. Unit) r
      → After {S = List (Workload W Json) × W}
          (λ _ s. All (IsStarted modes) s.0)
          (λ _ _. Unit)
          (push_value h v r.0, (y ∷ r.1.0, r.1.1))
  pushed y v (ok vs, s) q a = (q, a)
  pushed y v (err e, s) q a = tt

  start_each-IsStarted :
      (xs : List (Workload W Json)) (w : W)
      → After (λ _ s. All (IsStarted modes) s.0) (λ _ _. Unit) (start_each h modes d xs w)
  unfolding start_each
  start_each-IsStarted [] w = tt
  start_each-IsStarted (x ∷ xs) w =
      go (start_one h modes d x w) (start_each-IsStarted xs) (start_one-IsStarted x w)
    where
      go :
          (r : Result Error (Ready Json) × (Workload W Json × W))
          → ((t : W)
              → After (λ _ s. All (IsStarted modes) s.0) (λ _ _. Unit) (start_each h modes d xs t))
          → After (λ _ s. IsStarted modes s.0) (λ _ _. Unit) r
          → After
              (λ _ s. All (IsStarted modes) s.0)
              (λ _ _. Unit)
              (then_start h (start_each h modes d xs) xs r)
      go (ok v, (y, t)) rest q = pushed y (y.key, v) (start_each h modes d xs t) q (rest t)
      go (err e, (y, t)) rest q = tt

  -- A workload at the head of the list after a `stop`.
  stopped :
      (x : Workload W Json) (xs : List (Workload W Json))
      (r : Result Error (Unit {0}) × (Option ℕ × W))
      → r.1.0 ≡ none
      → All IsIdle xs
      → After {S = List (Workload W Json) × W}
          (λ _ s. All IsIdle s.0)
          (λ _ _. Unit)
          (r.0, (record x { process = r.1.0 } ∷ xs, r.1.1))
  stopped x xs (ok u, s) i a = (i, a)
  stopped x xs (err e, s) i a = tt

  stop_each-IsIdle :
      (xs : List (Workload W Json)) (w : W)
      → After (λ _ s. All IsIdle s.0) (λ _ _. Unit) (stop_each h (some d) xs w)
  unfolding stop_each
  stop_each-IsIdle [] w = tt
  stop_each-IsIdle (x ∷ xs) w = go (stop_each h (some d) xs w) (stop_each-IsIdle xs w)
    where
      go :
          (r : Result Error (Unit {0}) × (List (Workload W Json) × W))
          → After (λ _ s. All IsIdle s.0) (λ _ _. Unit) r
          → After (λ _ s. All IsIdle s.0) (λ _ _. Unit) (then_stop h (some d) x r)
      go (ok u, (ys, t)) a =
          stopped x ys (stop h x.kind (some d) (x.process, t))
            (stop-idle h x.kind (some d) x.process t) a
      go (err e, (ys, t)) a = tt

  -- Processes that can be ended, and whose end can be recorded.
  abbrev pub AllStop : Type 0
  AllStop =
      (k : NoiseKind W Json) (process : ℕ) (w : W)
      → is_ok (stop_process h k (some d) process w).0 ≡ true

  stop-is_ok :
      (k : NoiseKind W Json) (p : Option ℕ) (w : W)
      → AllStop
      → is_ok (stop h k (some d) (p, w)).0 ≡ true
  unfolding stop
  stop-is_ok k none w a = refl
  stop-is_ok k (some process) w a = a k process w

  stop_each-is_ok :
      (xs : List (Workload W Json)) (w : W) → AllStop → is_ok (stop_each h (some d) xs w).0 ≡ true
  unfolding stop_each
  stop_each-is_ok [] w a = refl
  stop_each-is_ok (x ∷ xs) w a = go (stop_each h (some d) xs w) (stop_each-is_ok xs w a)
    where
      go :
          (r : Result Error (Unit {0}) × (List (Workload W Json) × W))
          → is_ok r.0 ≡ true
          → is_ok (then_stop h (some d) x r).0 ≡ true
      go (ok u, (ys, t)) i = stop-is_ok x.kind x.process t a
      go (err e, (ys, t)) i = i

  -- The error of `start_all` behind its cleanup.
  re_raised :
      (e : Error) (r : Result Error (Unit {0}) × (List (Workload W Json) × W))
      → is_ok r.0 ≡ true
      → After (λ _ s. All IsIdle s.0) (λ _ _. Unit) r
      → After {A = List (Str × Ready Json)}
          (λ _ s. All (IsStarted modes) s.0)
          (λ _ s. All IsIdle s.0)
          (continue r.0 (λ _. raise e) r.1)
  re_raised e (ok u, s) i a = a
  re_raised e (err e', s) i a = cc i

  -- If `start_all` returns, every workload that is on has its process. If it raises, none has one, as
  -- long as processes can be stopped.
  pub start_all-IsStarted :
      (xs : List (Workload W Json)) (w : W)
      → AllStop
      → After
          (λ _ s. All (IsStarted modes) s.0)
          (λ _ s. All IsIdle s.0)
          (start_all h modes d (xs, w))
  unfolding start_all stop_all
  start_all-IsStarted xs w a = go (start_each h modes d xs w) (start_each-IsStarted xs w)
    where
      go :
          (r : Result Error (List (Str × Ready Json)) × (List (Workload W Json) × W))
          → After (λ _ s. All (IsStarted modes) s.0) (λ _ _. Unit) r
          → After
              (λ _ s. All (IsStarted modes) s.0)
              (λ _ s. All IsIdle s.0)
              (rescue (λ e. stop_all h (some d) >> raise e) r.0 r.1)
      go (ok vs, s) started = started
      go (err e, (ys, t)) _ =
          re_raised e (stop_each h (some d) ys t) (stop_each-is_ok ys t a) (stop_each-IsIdle ys t)
