-- ===== src/Artifacts/Selection.antt =====
-- The number that `run_steady_attempts` writes is the one that is read back.
use rs_camera.Prelude.{
  ℕ, zero, suc, ◌<◌, true, false, ◌≡◌, refl, List, [], ◌∷◌, ◌++◌, arith, ◌==◌, some, Option,
}
use rs_camera.Prelude.Exec.{Result, ok}
use rs_camera.Prelude.Errors.{Error}
use rs_camera.Text.{Str, codes, show, strip, lstrip, rstrip, is_digit, int_of}
use rs_camera.Text.Numbers.{int_of-show, is_digit-show, all_digits-show}
use rs_camera.Text.Pieces.{no_space, digits-no_space}
use rs_camera.Machine.{Machine, FilePath, ◌/◌}
use rs_camera.Text.Words.{pos}
use rs_camera.Attempts.{attempt_dir}
use rs_camera.SteadyAttempts.Running.{selected_text}
use rs_camera.Artifacts.Selected.{
  int_text, int_stripped, positive, after_text, selected_attempt_number, resolve_selected_attempt,
  attempt_directory,
}

-- A line break at the end is stripped.
rstrip-line : (s : Str) → no_space s ≡ true → rstrip (s ++ 10 ∷ []) ≡ s
unfolding rstrip
rstrip-line [] h = refl
rstrip-line (c ∷ s) h = ground (arith, rstrip-line s)

strip-line : (s : Str) → no_space s ≡ true → strip (s ++ 10 ∷ []) ≡ s
unfolding strip lstrip rstrip
strip-line [] h = refl
strip-line (c ∷ s) h = ground (arith, rstrip-line (c ∷ s) h)

int_digits : (s : Str) → is_digit s ≡ true → int_stripped s ≡ some (pos (int_of s))
int_digits [] h = cc h
int_digits (c ∷ s) h =
    let minus : (c == b'-') ≡ false = ground arith in
    let plus : (c == b'+') ≡ false = ground arith in rw (minus, plus, h) refl

show-no_space : (n : ℕ) → no_space (show n) ≡ true
show-no_space n = digits-no_space (show n) (all_digits-show n)

int_text-show : (n : ℕ) → int_text (show n ++ 10 ∷ []) ≡ some (pos n)
unfolding int_text
int_text-show n =
    rw (strip-line (show n) (show-no_space n), int_digits (show n) (is_digit-show n), int_of-show n)

positive_suc : (path : FilePath) (n : ℕ) → 0 < n → positive path (some (pos n)) ≡ ok n
unfolding positive
positive_suc path zero h = elim h [ ]
positive_suc path (suc n) h = refl

module _ {W : Type 0} (m : Machine W) (parse_attempts : Str → Result Error (List (Option ℕ)))
    (path : FilePath) (w : W) where
  -- If selected_attempt.txt holds the line that is written for attempt `n`, and the folder of that
  -- attempt is there, then `resolve_selected_attempt` finds this attempt and its folder, whatever else
  -- the run has left.
  pub resolve-selected :
      (n : ℕ)
      → 0 < n
      → m.is_file (m.resolve path w / codes "selected_attempt.txt") w ≡ true
      → m.read_text (m.resolve path w / codes "selected_attempt.txt") w ≡ ok (selected_text n)
      → m.is_dir (attempt_dir (m.resolve path w) n) w ≡ true
      → resolve_selected_attempt m parse_attempts path w
        ≡ ok (record {
          run_dir = m.resolve path w;
          attempt = n;
          data_dir = attempt_dir (m.resolve path w) n;
          layout = attempt_directory;
        })
  unfolding resolve_selected_attempt selected_attempt_number after_text
  resolve-selected n h there text dir =
      rw
        (
          there,
          text,
          int_text-show n,
          positive_suc (m.resolve path w / codes "selected_attempt.txt") n h,
          dir,
        )
        refl
