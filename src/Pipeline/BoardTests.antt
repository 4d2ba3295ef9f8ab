-- ===== src/Pipeline/BoardTests.antt =====
-- The loop of the worker on a board that keeps what it is told: a stage that is run leaves its marker, a
-- saved state is read back, and the running kernel is the one of the first phase.
use rs_camera.Prelude.{Bool, true, false, ◌||◌, none, some, List, [], ◌∷◌, ◌++◌, any, if◌then◌else◌}
use rs_camera.Prelude.Exec.{ok, err, Exec}
use rs_camera.Prelude.After.{After}
use rs_camera.Prelude.Errors.{Error, os_error}
use rs_camera.Machine.{Machine, FilePath, path_text, ◌/◌}
use rs_camera.Text.{Str, codes, str_eq}
use rs_camera.Pipeline.Plan.{Records, standard_urb16}
use rs_camera.Pipeline.Host.{Host, CampaignState, rebooting}

-- pipeline.json, and the words of the commands that have run a stage.
abbrev Board : Type 0
Board = CampaignState × List Str

abbrev root : FilePath
root = codes "run" ∷ []

unfoldable is_marker : FilePath → Str → Bool
is_marker path word =
    str_eq (path_text path) (path_text (root / codes "completed" / (word ++ codes ".json")))

unfoldable is_there : FilePath → Board → Bool
unfolding is_marker
is_there path w =
    str_eq (path_text path) (path_text (root / codes "pipeline.json")) || any (is_marker path) w.1

abbrev machine : Machine Board
machine = record {
  read_text = λ path w. ok [];
  exists = is_there;
  is_file = is_there;
  is_dir = λ path w. false;
  listdir = λ path w. [];
  resolve = λ path w. path;
  subprocess = λ command input w. (err (os_error []), w);
  write_text = λ path text w. (ok tt, w);
  make_dir = λ path w. (ok tt, w);
  getpid = 42;
  affinity = λ w. [];
  scheduling = λ pid w. none;
}

-- The name in front of `.json`.
unfoldable stem : Str → Str
stem [] = []
stem (c ∷ s) = let rest = stem s in if str_eq (c ∷ s) (codes ".json") then [] else c ∷ rest

unfoldable last_part : FilePath → Str
last_part [] = []
last_part (part ∷ path) = elim path [ [] ↦ part | q ∷ rest ↦ last_part path ]

abbrev records : Records Board
records = record {
  read_marker = λ path w.
      ok (record { stage = some (stem (last_part path)); adapter_sha256 = some (codes "0") });
  digest = λ path w. ok (codes "0");
}

abbrev done : Exec Error Board (Unit {0})
done w = (ok tt, w)

abbrev board : Host Board (Unit {0}) (Unit {0})
board = record {
  python = codes "python3";
  here = codes "repo" ∷ codes "reproduction" ∷ [];
  repo = codes "repo" ∷ [];
  geteuid = 0;
  release = codes "6.12.96-rpi5-rt-btf-uvc16+";
  cmdline = ok (codes "root=/dev/sda2");
  boot_id = ok (codes "boot-2");
  peer = [];
  call = λ log command w.
      (ok tt, (w.0, (if any (str_eq (codes "run")) command then command else []) ++ w.1));
  route = λ peer w. (ok (codes "dev eth0"), w);
  monotonic = λ w. 0;
  sleep = λ seconds w. w;
  sync = done;
  lock = λ path. done;
  unlock = done;
  use_temporary = λ path. done;
  make_dir = λ path. done;
  make_temp = λ path w. (ok path, w);
  publish = λ from_path to_path. done;
  copy = λ from_path to_path. done;
  write_text = λ path text. done;
  load_state = λ w. ok w.0;
  save_state = λ o w. (ok tt, (o, w.1));
  load_prepared = λ w. ok (record { entrypoints = []; smoke = false; protocol = tt });
  save_prepared = λ path prepared. done;
  load_before = λ w. ok (record { boot_files = []; wifi_up = true });
  load_manifest = λ w. ok [];
  load_config = λ path w. ok tt;
  same_config = λ a b. true;
  same_cameras = λ a b. true;
  prepare = λ config prepared. done;
}

-- The second phase was asked for, and the first kernel has come up.
abbrev asked : CampaignState
asked = record {
  status = rebooting;
  repo = codes "repo" ∷ [];
  pdf = true;
  smoke = false;
  active_stage = none;
  pending_boot =
      some (record { variant = standard_urb16; threaded = true; boot_id = codes "boot-1" });
  error = none;
  derived = none;
}
