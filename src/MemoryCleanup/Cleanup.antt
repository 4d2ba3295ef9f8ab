-- ===== src/MemoryCleanup/Cleanup.antt =====
-- `_read_meminfo_kib`, `DropCachesBeforeRun` and `memory_cleanup_result_fields`.
use rs_camera.Prelude.{
  ℕ, Bool, true, false, not, ◌&&◌, Option, none, some, List, [], ◌∷◌, ◌++◌, any, ◌==◌,
  if◌then◌else◌,
}
use rs_camera.Prelude.Exec.{Result, ok, err, is_ok, Exec, lift, gets, raise_if, ◌>>=◌, ◌>>◌}
use rs_camera.Prelude.Errors.{Error, value_error, runtime_error}
use rs_camera.Text.{Str, codes, str_eq, split_once, join}
use rs_camera.Text.Words.{ℤ, is_zero, show_int, words, split_lines}
use rs_camera.Machine.{Machine, FilePath, ◌/◌, path_text, detail_of}
use rs_camera.Artifacts.Selected.{int_text}
use rs_camera.Recovery.Data.{describe}

abbrev pub drop_caches_path : FilePath
drop_caches_path = codes "proc" ∷ codes "sys" ∷ codes "vm" ∷ codes "drop_caches" ∷ []

abbrev pub meminfo_path : FilePath
meminfo_path = codes "proc" ∷ codes "meminfo" ∷ []

abbrev pub meminfo_fields : List Str
meminfo_fields =
    codes "MemTotal"
    ∷ codes "MemFree"
    ∷ codes "MemAvailable"
    ∷ codes "Buffers"
    ∷ codes "Cached"
    ∷ codes "SReclaimable"
    ∷ codes "Shmem"
    ∷ codes "SwapCached"
    ∷ []

abbrev pub Meminfo : Type 0
Meminfo = List (Str × ℤ)

-- `values[key] = …`
unfoldable pub set_value : Str → ℤ → Meminfo → Meminfo
set_value key n [] = (key, n) ∷ []
set_value key n ((k, v) ∷ values) =
    let rest = set_value key n values in if str_eq key k then (key, n) ∷ values else (k, v) ∷ rest

abbrev pub add_value : Str → Option ℤ → Meminfo → Result Error Meminfo
add_value key (some n) values = ok (set_value key n values)
add_value key none values = err (value_error (codes "invalid literal for int() with base 10"))

abbrev pub add_first : Str → List Str → Meminfo → Result Error Meminfo
add_first key [] values = ok values
add_first key (field ∷ fields) values = add_value key (int_text field) values

unfoldable pub add_line : Str → Meminfo → Result Error Meminfo
unfolding set_value
add_line text values = elim (split_once b':' text) [
  | none ↦ ok values
  | some (key, remainder) ↦
      if any (str_eq key) meminfo_fields then add_first key (words remainder) values else ok values
]

abbrev pub next_lines :
    Result Error Meminfo → (Meminfo → Result Error Meminfo) → Result Error Meminfo
next_lines (ok values) next = next values
next_lines (err e) next = err e

unfoldable pub parse_meminfo : List Str → Meminfo → Result Error Meminfo
unfolding add_line
parse_meminfo [] values = ok values
parse_meminfo (text ∷ lines) values = next_lines (add_line text values) (parse_meminfo lines)

abbrev pub parse_text : Result Error Str → Result Error Meminfo
parse_text (ok text) = parse_meminfo (split_lines text) []
parse_text (err e) = err e

-- The keys of `metadata` that vary.
pub record Cleaning : Type 0 where
  pub success : Bool
  pub error : Option Str
  pub commands : List (List Str)
  pub meminfo_before_kib : Meminfo
  pub meminfo_after_kib : Meminfo
  pub start_boottime_ns : ℕ
  pub end_boottime_ns : ℕ

-- What the hook asks of the host beside its files and commands.
pub record Cache (W : Type 0) : Type 0 where
  pub is_linux : Bool
  pub geteuid : ℕ
  pub has_command : Str → W → Bool
  pub is_writable : FilePath → W → Bool
  pub boottime_ns : W → ℕ
  -- `output_path.write_text(json.dumps(metadata))`
  pub save : FilePath → Cleaning → Exec Error W (Unit {0})

abbrev pub error_text : Result Error (Unit {0}) → Option Str
error_text (ok u) = none
error_text (err e) = some (describe e)

-- What was recorded, as columns of the results; a missing value is `none`.
pub record CleanupFields : Type 0 where
  pub enabled : Bool
  pub recorded : Bool
  pub success : Option Bool
  pub available_before_kib : Option ℤ
  pub available_after_kib : Option ℤ
  pub cached_before_kib : Option ℤ
  pub cached_after_kib : Option ℤ
  pub sreclaimable_before_kib : Option ℤ
  pub sreclaimable_after_kib : Option ℤ

unfoldable pub find_value : Str → Meminfo → Option ℤ
find_value key [] = none
find_value key ((k, v) ∷ values) =
    let rest = find_value key values in if str_eq key k then some v else rest

unfoldable pub memory_cleanup_result_fields : Bool → Option Cleaning → CleanupFields
unfolding find_value
memory_cleanup_result_fields configured none = record {
  enabled = configured;
  recorded = false;
  success = none;
  available_before_kib = none;
  available_after_kib = none;
  cached_before_kib = none;
  cached_after_kib = none;
  sreclaimable_before_kib = none;
  sreclaimable_after_kib = none;
}
memory_cleanup_result_fields configured (some c) = record {
  enabled = configured;
  recorded = true;
  success = some c.success;
  available_before_kib = find_value (codes "MemAvailable") c.meminfo_before_kib;
  available_after_kib = find_value (codes "MemAvailable") c.meminfo_after_kib;
  cached_before_kib = find_value (codes "Cached") c.meminfo_before_kib;
  cached_after_kib = find_value (codes "Cached") c.meminfo_after_kib;
  sreclaimable_before_kib = find_value (codes "SReclaimable") c.meminfo_before_kib;
  sreclaimable_after_kib = find_value (codes "SReclaimable") c.meminfo_after_kib;
}

module _ {W : Type 0} (m : Machine W) (c : Cache W) (use_sudo : Bool) where
  unfoldable pub read_meminfo : W → Result Error Meminfo
  unfolding parse_meminfo
  read_meminfo w = parse_text (m.read_text meminfo_path w)

  abbrev require : Bool → Str → Exec Error W (Unit {0})
  require there text = raise_if (not there) (runtime_error text)

  abbrev require_command : Str → Exec Error W (Unit {0})
  require_command name = gets (c.has_command name) >>= λ there.
      require there (name ++ codes " is required for per-run cache dropping")

  unfoldable pub validate : Exec Error W (Unit {0})
  validate = do
    require c.is_linux (codes "per-run cache dropping is supported only on Linux")
    there ← gets (m.is_file drop_caches_path)
    require there (codes "Linux drop-caches control is missing: " ++ path_text drop_caches_path)
    require_command (codes "sync")
    require_command (codes "tee")
    writable ← gets (c.is_writable drop_caches_path)
    if use_sudo
        then require_command (codes "sudo")
        else raise_if (not (c.geteuid == 0) && not writable) (
            runtime_error
              (codes "dropping caches requires root; run the campaign with sudo enabled"))

  unfoldable pub drop_command : List Str
  drop_command =
      let command = codes "tee" ∷ path_text drop_caches_path ∷ [] in
      if use_sudo && not (c.geteuid == 0)
      then codes "sudo" ∷ codes "--non-interactive" ∷ command
      else command

  abbrev suffix : Str → Str
  suffix [] = []
  suffix (d ∷ detail) = codes ": " ++ d ∷ detail

  -- `_run`
  unfoldable pub run_command : List Str → Option Str → Exec Error W (Unit {0})
  run_command command input = do
    completed ← m.subprocess command input
    raise_if (not (is_zero completed.returncode)) (
        runtime_error (
          join (codes " ") command
          ++ (codes " exited with "
              ++ (show_int completed.returncode ++ suffix (detail_of completed)))))

  -- The body of `try`.
  unfoldable pub drop_caches : Exec Error W (Unit {0})
  unfolding run_command drop_command
  drop_caches = do
    run_command (codes "sync" ∷ []) none
    run_command drop_command (some (codes "3" ++ 10 ∷ []))

  -- The handler and `finally`, on how the body ended.
  unfoldable pub write_record :
      FilePath → Meminfo → ℕ → Result Error (Unit {0}) → Exec Error W (Unit {0})
  write_record path meminfo_before start_ns r = do
    end_ns ← gets c.boottime_ns
    meminfo_after ← (λ w. (read_meminfo w, w))
    c.save path (record {
      success = is_ok r;
      error = error_text r;
      commands = (codes "sync" ∷ []) ∷ drop_command ∷ [];
      meminfo_before_kib = meminfo_before;
      meminfo_after_kib = meminfo_after;
      start_boottime_ns = start_ns;
      end_boottime_ns = end_ns;
    })
    lift r

  abbrev pub settled :
      Exec Error W (Unit {0})
      → (Result Error (Unit {0}) → Exec Error W (Unit {0}))
      → Exec Error W (Unit {0})
  settled body after w = let (r, u) = body w in after r u

  -- `__call__`
  unfoldable pub clean : FilePath → Exec Error W (Unit {0})
  unfolding drop_caches write_record
  clean folder = do
    m.make_dir folder
    meminfo_before ← (λ w. (read_meminfo w, w))
    start_ns ← gets c.boottime_ns
    settled drop_caches
        (write_record (folder / codes "memory_cleanup_before_run.json") meminfo_before start_ns)
