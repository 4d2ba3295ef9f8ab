-- ===== src/Artifacts/Tests.antt =====
-- The fourth attempt of a run.
use rs_camera.Prelude.{◌≡◌, refl, none, some, [], ◌∷◌, arith}
use rs_camera.Prelude.Exec.{ok}
use rs_camera.Text.{codes, strip, lstrip, rstrip, int_of}
use rs_camera.Text.Words.{negsuc}
use rs_camera.Machine.Quiet.{quiet}
use rs_camera.Attempts.{attempt_dir}
use rs_camera.Artifacts.Selected.{
  attempt_directory, resolve_selected_attempt, last_attempt, int_text,
}
use rs_camera.Artifacts.Selection.{resolve-selected}
use rs_camera.SteadyAttempts.Running.{selected_text}

signed : int_text (codes " -12 ") ≡ some (negsuc 11)
unfolding int_text strip lstrip rstrip int_of
signed = refl

last : last_attempt 3 (some 1 ∷ none ∷ none ∷ []) ≡ 3
unfolding last_attempt
last = refl

resolve-selected_example :
    resolve_selected_attempt (quiet (selected_text 4)) (λ text. ok []) (codes "run" ∷ []) 0
    ≡ ok (record {
      run_dir = codes "run" ∷ [];
      attempt = 4;
      data_dir = attempt_dir (codes "run" ∷ []) 4;
      layout = attempt_directory;
    })
resolve-selected_example =
    resolve-selected (quiet (selected_text 4)) (λ text. ok []) (codes "run" ∷ []) 0 4 (omega arith)
      refl refl refl
