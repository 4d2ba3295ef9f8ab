-- ===== src/Machine/Quiet.antt =====
-- A host for the examples whose world is a clock in milliseconds: every file is there and holds the same
-- text, nothing is written, and every command succeeds.
use rs_camera.Prelude.{ℕ, ◌+◌, true, none, []}
use rs_camera.Prelude.Exec.{ok}
use rs_camera.Text.{Str}
use rs_camera.Text.Words.{pos}
use rs_camera.Machine.{Machine, Clock}

abbrev pub quiet : Str → Machine ℕ
quiet text = record {
  read_text = λ path w. ok text;
  exists = λ path w. true;
  is_file = λ path w. true;
  is_dir = λ path w. true;
  listdir = λ path w. [];
  resolve = λ path w. path;
  subprocess = λ command input w. (ok (record { returncode = pos 0; stdout = []; stderr = [] }), w);
  write_text = λ path text w. (ok tt, w);
  make_dir = λ path w. (ok tt, w);
  getpid = 1;
  affinity = λ w. [];
  scheduling = λ pid w. none;
}

abbrev pub ticking : Clock ℕ
ticking = record { monotonic = λ w. w; sleep = λ ms w. w + ms }
