-- ===== src/Artifacts/Selected.antt =====
-- `selected_attempt_number` and `resolve_selected_attempt`.
use rs_camera.Prelude.{
  ℕ, zero, suc, Bool, true, false, Option, none, some, List, [], ◌∷◌, ◌++◌, ◌==◌, length,
  if◌then◌else◌,
}
use rs_camera.Prelude.Exec.{Result, ok, err}
use rs_camera.Prelude.Errors.{Error, value_error}
use rs_camera.Text.{Str, codes, strip, is_digit, int_of}
use rs_camera.Text.Words.{ℤ, pos, negsuc}
use rs_camera.Machine.{Machine, FilePath, ◌/◌, path_text}
use rs_camera.Attempts.{attempt_dir}

abbrev pub negated : ℕ → ℤ
negated zero = pos zero
negated (suc n) = negsuc n

abbrev pub digits : Str → Option ℕ
digits s = if is_digit s then some (int_of s) else none

abbrev pub signed : Bool → Option ℕ → Option ℤ
signed minus none = none
signed true (some n) = some (negated n)
signed false (some n) = some (pos n)

abbrev pub int_stripped : Str → Option ℤ
int_stripped [] = none
int_stripped (c ∷ s) =
    if c == b'-'
    then signed true (digits s)
    else if c == b'+'
    then signed false (digits s)
    else signed false (digits (c ∷ s))

-- `int(text)`, or `none` for a `ValueError`.
unfoldable pub int_text : Str → Option ℤ
int_text text = int_stripped (strip text)

pub data Layout : Type 0 where
  attempt_directory legacy_promoted_root : Layout

pub record SelectedAttempt : Type 0 where
  pub run_dir : FilePath
  pub attempt : ℕ
  pub data_dir : FilePath
  pub layout : Layout

-- `if attempt < 1`
unfoldable pub positive : FilePath → Option ℤ → Result Error ℕ
positive path none = err (value_error (codes "Invalid selected attempt in " ++ path_text path))
positive path (some (negsuc n)) =
    err (value_error (codes "Selected attempt must be positive: " ++ path_text path))
positive path (some (pos zero)) =
    err (value_error (codes "Selected attempt must be positive: " ++ path_text path))
positive path (some (pos (suc n))) = ok (suc n)

abbrev pub is_value_error : Error → Bool
is_value_error (value_error text) = true
is_value_error _ = false

-- The number in the text; a `ValueError` of the reader is raised as for a text that is no number.
unfoldable pub after_text : FilePath → Result Error Str → Result Error ℕ
unfolding positive int_text
after_text path (err e) = if is_value_error e then positive path none else err e
after_text path (ok text) = positive path (int_text text)

-- `int(attempts[-1].get("attempt", len(attempts)))`; `count` is the length of the whole list.
unfoldable pub last_attempt : ℕ → List (Option ℕ) → ℕ
last_attempt count [] = 1
last_attempt count (none ∷ []) = count
last_attempt count (some attempt ∷ []) = attempt
last_attempt count (item ∷ next ∷ items) = last_attempt count (next ∷ items)

-- `parse_attempts` is `json.loads` with the key `attempt` of every item, empty for what is no list.
module _ {W : Type 0} (m : Machine W) (parse_attempts : Str → Result Error (List (Option ℕ))) where
  abbrev from_items : Result Error (List (Option ℕ)) → Result Error ℕ
  from_items (err e) = err e
  from_items (ok items) = ok (last_attempt (length items) items)

  abbrev from_attempts : Result Error Str → Result Error ℕ
  from_attempts (err e) = err e
  from_attempts (ok text) = from_items (parse_attempts text)

  unfoldable pub selected_attempt_number : FilePath → W → Result Error ℕ
  unfolding after_text last_attempt
  selected_attempt_number run_dir w =
      let selected_path = run_dir / codes "selected_attempt.txt" in
      let attempts_path = run_dir / codes "attempts.json" in
      if m.is_file selected_path w
      then after_text selected_path (m.read_text selected_path w)
      else if m.is_file attempts_path w
      then from_attempts (m.read_text attempts_path w)
      else ok 1

  abbrev selected_in : FilePath → W → Result Error ℕ → Result Error SelectedAttempt
  selected_in run_dir w (err e) = err e
  selected_in run_dir w (ok attempt) =
      let dir = attempt_dir run_dir attempt in
      if m.is_dir dir w
      then ok (record {
        run_dir = run_dir;
        attempt = attempt;
        data_dir = dir;
        layout = attempt_directory;
      })
      else ok (record {
        run_dir = run_dir;
        attempt = attempt;
        data_dir = run_dir;
        layout = legacy_promoted_root;
      })

  unfoldable pub resolve_selected_attempt : FilePath → W → Result Error SelectedAttempt
  unfolding selected_attempt_number
  resolve_selected_attempt path w =
      let run_dir = m.resolve path w in selected_in run_dir w (selected_attempt_number run_dir w)
