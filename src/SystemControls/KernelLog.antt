-- ===== src/SystemControls/KernelLog.antt =====
-- `kernel_delta`: what the kernel logged between two snapshots of a ring buffer.
use rs_camera.Prelude.{Bool, not, Option, none, some, List, [], ◌∷◌, ◌++◌, is_empty, if◌then◌else◌}
use rs_camera.Prelude.Exec.{Exec, pure, when, ◌>>=◌, ◌>>◌}
use rs_camera.Prelude.Errors.{Error}
use rs_camera.Text.{Str, codes, str_eq, join}
use rs_camera.Text.Words.{is_zero, show_int, starts_with, drop_prefix, split_lines, or_else}
use rs_camera.Machine.{Machine, FilePath, ◌/◌, privileged, detail_of}

-- `lines[-1]`
unfoldable pub last_line : List Str → Option Str
last_line [] = none
last_line (line ∷ []) = some line
last_line (line ∷ next ∷ lines) = last_line (next ∷ lines)

-- The lines behind the last one that equals `anchor`, searched for from the end.
unfoldable pub after_last : Str → List Str → Option (List Str)
after_last anchor [] = none
after_last anchor (line ∷ lines) = elim (after_last anchor lines) [
  | some found ↦ some found
  | none ↦ if str_eq line anchor then some lines else none
]

abbrev pub anchor_lost : Str
anchor_lost = codes "dmesg ring buffer changed and the pre-run anchor was lost"

-- `delta + "\n" if delta else ""`
abbrev pub closed_text : Str → Str
closed_text delta = if is_empty delta then [] else delta ++ 10 ∷ []

unfoldable pub delta_of : Option (List Str) → Str × Str
delta_of none = ([], anchor_lost)
delta_of (some found) = (closed_text (join (10 ∷ []) found), [])

-- The delta and an error; one of the two is empty.
unfoldable pub kernel_delta : Str → Str → Str × Str
unfolding last_line after_last delta_of
kernel_delta before after =
    if starts_with before after
    then (drop_prefix before after, [])
    else elim (last_line (split_lines before)) [
      | none ↦ (after, [])
      | some anchor ↦ delta_of (after_last anchor (split_lines after))
    ]

module _ {W : Type 0} (m : Machine W) (use_sudo : Bool) where
  -- `kernel_log`
  unfoldable pub kernel_log : Exec Error W (Option Str × Str)
  kernel_log = do
    completed ← m.subprocess (privileged use_sudo (codes "dmesg" ∷ codes "--color=never" ∷ [])) none
    if not (is_zero completed.returncode)
        then pure (
          none,
          or_else (detail_of completed)
              (codes "dmesg exited with " ++ show_int completed.returncode),
        )
        else pure (some completed.stdout, [])

  -- What is known of both snapshots: the delta is saved, and its error is returned.
  unfoldable pub save_delta : FilePath → Option Str → Option Str → Exec Error W Str
  save_delta record_dir (some before) (some after) = do
    let (delta, delta_error) = kernel_delta before after
    when (is_empty delta_error) (m.write_text (record_dir / codes "kernel_log.txt") delta)
    pure delta_error
  save_delta record_dir before after = pure []

  -- `capture_kernel_delta`
  unfoldable pub capture_kernel_delta : FilePath → Option Str → Str → Exec Error W (Unit {0})
  unfolding kernel_log save_delta
  capture_kernel_delta record_dir before before_error = do
    (after, after_error) ← kernel_log
    delta_error ← save_delta record_dir before after
    let error = or_else (or_else before_error after_error) delta_error
    when (not (is_empty error))
        (m.write_text (record_dir / codes "kernel_log_capture_error.txt") (error ++ 10 ∷ []))
