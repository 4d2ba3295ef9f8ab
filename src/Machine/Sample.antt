-- ===== src/Machine/Sample.antt =====
-- A small host for the examples: the files are pairs of a path and a text, `tee` overwrites one of
-- them, and every other command succeeds without an effect.
use rs_camera.Prelude.{Bool, true, false, Option, none, some, List, [], ◌∷◌, if◌then◌else◌}
use rs_camera.Prelude.Exec.{Result, ok, err, Exec}
use rs_camera.Prelude.Errors.{Error, os_error}
use rs_camera.Text.{Str, codes, str_eq}
use rs_camera.Text.Words.{pos}
use rs_camera.Machine.{Machine, Completed, FilePath, path_text}

abbrev pub Files : Type 0
Files = List (Str × Str)

unfoldable pub find : Str → Files → Option Str
find path [] = none
find path ((p, text) ∷ files) =
    let rest = find path files in if str_eq p path then some text else rest

unfoldable pub put : Str → Str → Files → Files
put path text [] = (path, text) ∷ []
put path text ((p, old) ∷ files) =
    let rest = put path text files in
    if str_eq p path then (path, text) ∷ files else (p, old) ∷ rest

abbrev succeeded : Completed
succeeded = record { returncode = pos 0; stdout = []; stderr = [] }

unfoldable pub run_sample : List Str → Option Str → Exec Error Files Completed
unfolding put
run_sample (command ∷ path ∷ []) (some text) w =
    (ok succeeded, if str_eq command (codes "tee") then put path text w else w)
run_sample command input w = (ok succeeded, w)

unfoldable pub read_sample : FilePath → Files → Result Error Str
unfolding find path_text
read_sample path w = elim (find (path_text path) w) [
  | none ↦ err (os_error (codes "No such file"))
  | some text ↦ ok text
]

unfoldable pub is_sample_file : FilePath → Files → Bool
unfolding find path_text
is_sample_file path w = elim (find (path_text path) w) [ none ↦ false | some text ↦ true ]

abbrev pub sample : Machine Files
sample = record {
  read_text = read_sample;
  exists = is_sample_file;
  is_file = is_sample_file;
  is_dir = λ path w. false;
  listdir = λ path w. [];
  resolve = λ path w. path;
  subprocess = run_sample;
  write_text = λ path text w. (ok tt, put (path_text path) text w);
  make_dir = λ path w. (ok tt, w);
  getpid = 42;
  affinity = λ w. 1 ∷ 2 ∷ 3 ∷ [];
  scheduling = λ pid w. none;
}
