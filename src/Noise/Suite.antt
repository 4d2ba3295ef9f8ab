-- ===== src/Noise/Suite.antt =====
-- `NoiseSuite`: the workloads start in the order of `_by_key` and stop in the reverse order.
use rs_camera.Prelude.{ℕ, ◌+◌, Bool, not, Option, some, List, [], ◌∷◌, ◌++◌, any, if◌then◌else◌}
use rs_camera.Prelude.Exec.{Result, ok, err, Exec, pure, raise, try_except, ◌>>=◌, ◌>>◌}
use rs_camera.Prelude.Errors.{Error}
use rs_camera.Prelude.Objects.{on_world}
use rs_camera.Text.{Str, codes, str_eq}
use rs_camera.Machine.{FilePath}
use rs_camera.Noise.Process.{NoiseHost, NoiseKind, Ready, noise_path, start, stop}

-- An item of `_by_key`, with the process that the object owns.
pub record Workload (W Json : Type 0) : Type 0 where
  pub key : Str
  pub kind : NoiseKind W Json
  pub process : Option ℕ

abbrev pub is_active : (Str → Str) → Str → Bool
is_active modes key = not (str_eq (modes key) (codes "none"))

module _ {W Json : Type 0} where
  -- `any_enabled`
  unfoldable pub any_enabled : (Str → Str) → List (Workload W Json) → Bool
  any_enabled modes = any (λ x. is_active modes x.key)

  -- `startup_timeout_seconds`, in ms.
  unfoldable pub startup_timeout_ms : (Str → Str) → List (Workload W Json) → ℕ
  startup_timeout_ms modes [] = 0
  startup_timeout_ms modes (x ∷ xs) =
      (if is_active modes x.key then x.kind.ready_timeout_ms else 0) + startup_timeout_ms modes xs

module _ {W Json : Type 0} (h : NoiseHost W Json) where
  abbrev Values : Type 0
  Values = List (Str × Ready Json)

  -- A method of one workload.
  abbrev pub on_process :
      {A : Type 0} → Exec Error (Option ℕ × W) A → Exec Error (Workload W Json × W) A
  on_process method (x, w) =
      let (r, (p, w')) = method (x.process, w) in (r, (record x { process = p }, w'))

  -- The body of the loop of `start_all`, as a method of the workload.
  unfoldable pub start_and_record :
      NoiseKind W Json → Str → FilePath → Exec Error (Option ℕ × W) (Ready Json)
  start_and_record kind mode record_dir = do
    ready ← start h kind mode record_dir
    on_world (
        h.machine.write_text (noise_path h kind record_dir (codes "configuration.json"))
          (h.dumps ready ++ 10 ∷ []))
    pure ready

  abbrev pub start_one :
      (Str → Str)
      → FilePath
      → Workload W Json
      → W
      → Result Error (Ready Json) × (Workload W Json × W)
  start_one modes record_dir x w =
      on_process (start_and_record x.kind (modes x.key) record_dir) (x, w)

  abbrev pub push_value : Str × Ready Json → Result Error Values → Result Error Values
  push_value v (ok vs) = ok (v ∷ vs)
  push_value v (err e) = err e

  -- The other workloads are started where one has been.
  abbrev pub then_start :
      (W → Result Error Values × (List (Workload W Json) × W))
      → List (Workload W Json)
      → Result Error (Ready Json) × (Workload W Json × W)
      → Result Error Values × (List (Workload W Json) × W)
  then_start rest xs (ok v, (x, w)) =
      let (r, (xs', w')) = rest w in (push_value (x.key, v) r, (x ∷ xs', w'))
  then_start rest xs (err e, (x, w)) = (err e, (x ∷ xs, w))

  unfoldable pub start_each :
      (Str → Str)
      → FilePath
      → List (Workload W Json)
      → W
      → Result Error Values × (List (Workload W Json) × W)
  start_each modes record_dir [] w = (ok [], ([], w))
  start_each modes record_dir (x ∷ xs) w =
      then_start (start_each modes record_dir xs) xs (start_one modes record_dir x w)

  -- The first workload is stopped after all others, if these have stopped.
  abbrev pub then_stop :
      Option FilePath
      → Workload W Json
      → Result Error (Unit {0}) × (List (Workload W Json) × W)
      → Result Error (Unit {0}) × (List (Workload W Json) × W)
  then_stop record_dir x (ok u, (xs, w)) =
      let (r, (x', w')) = on_process (stop h x.kind record_dir) (x, w) in (r, (x' ∷ xs, w'))
  then_stop record_dir x (err e, (xs, w)) = (err e, (x ∷ xs, w))

  unfoldable pub stop_each :
      Option FilePath
      → List (Workload W Json)
      → W
      → Result Error (Unit {0}) × (List (Workload W Json) × W)
  stop_each record_dir [] w = (ok tt, ([], w))
  stop_each record_dir (x ∷ xs) w = then_stop record_dir x (stop_each record_dir xs w)

  unfoldable pub stop_all : Option FilePath → Exec Error (List (Workload W Json) × W) (Unit {0})
  unfolding stop_each
  stop_all record_dir (xs, w) = stop_each record_dir xs w

  unfoldable pub start_all : (Str → Str) → FilePath → Exec Error (List (Workload W Json) × W) Values
  unfolding start_each
  start_all modes record_dir =
      try_except (λ (xs, w). start_each modes record_dir xs w)
        (λ e. stop_all (some record_dir) >> raise e)
