-- ===== src/Reproduce/Tests.antt =====
-- Examples of a run, on a host that counts how often the script was started.
use rs_camera.Prelude.{
  ℕ, suc, Bool, true, false, ◌≡◌, refl, ◌⊎◌, inr, Option, none, some, [], ◌∷◌, All, subst,
}
use rs_camera.Prelude.Exec.{ok}
use rs_camera.Prelude.Post.{Returns}
use rs_camera.Prelude.Keeping.{Keeps}
use rs_camera.Text.{Str, codes, strip, lstrip, rstrip, str_eq, join}
use rs_camera.Text.Words.{
  pos, distinct_texts, sorted, insert_sorted, words, words_from, str_leb, contains, starts_with,
  drop_prefix,
}
use rs_camera.Machine.{Machine, FilePath, path_text}
use rs_camera.Pipeline.Plan.{Records, phases}
use rs_camera.Reproduce.Stages.{standard_threaded16, kernel_of, mode_name}
use rs_camera.Reproduce.Check.{
  Platform, Cameras, platform_errors, kernel_errors, missing_files, camera_errors, probe_camera,
  serials_of, needed_profiles, missing_irqs,
}
use rs_camera.Reproduce.Preflight.{
  check, probe_errors, missing_commands, compiler_errors, build_errors, irq_errors,
}
use rs_camera.Reproduce.Run.{
  Manifest, Runner, run, completed, examine, examine_manifest, check_adapters, check_script, lookup,
  perform_stage,
}
use rs_camera.Reproduce.Cleared.{IsCleared}
use rs_camera.Reproduce.Starting.{Guards, run-Keeps}
use rs_camera.Reproduce.Marking.{IsFileSystem, IsDone, run-IsDone}
use rs_camera.Reproduce.Edits.{
  IsEdit, replace_once, before, count_from, replace_first, replace_once-IsEdit,
}
use rs_camera.Reproduce.Config.{
  Camera, RawConfig, load_config, check_irqs, select_roles, find_camera, serials,
}
use rs_camera.Reproduce.Roles.{IsPair, load_config-IsPair}
use rs_camera.Reproduce.Boots.{Consistent, phases-Consistent}

record World : Type 0 where
  pub marker : Option Str
  pub started : ℕ

abbrev stage : Str
stage = codes "ablation"

abbrev is_marked : Option Str → Bool
is_marked none = false
is_marked (some sum) = true

abbrev machine : Machine World
machine = record {
  read_text =
      λ path w. ok (codes "Raspberry Pi 5 threadirqs CMAKE_BUILD_TYPE:STRING=RelWithDebInfo");
  exists = λ path w. is_marked w.marker;
  is_file = λ path w. true;
  is_dir = λ path w. true;
  listdir = λ path w. [];
  resolve = λ path w. path;
  subprocess = λ command input w. (ok (record { returncode = pos 0; stdout = []; stderr = [] }), w);
  write_text = λ path text w. (ok tt, w);
  make_dir = λ path w. (ok tt, w);
  getpid = 1;
  affinity = λ w. [];
  scheduling = λ pid w. none;
}

abbrev records : Records World
records = record {
  read_marker = λ path w. ok (record { stage = some stage; adapter_sha256 = w.marker });
  digest = λ path w. ok (codes "aa");
}

abbrev platform : Platform World
platform = record {
  machine = codes "aarch64";
  release = codes "6.12.96-rpi5-standard-btf-uvc16+";
  has_command = λ name w. true;
  run_probe = λ command w. (ok (record { returncode = pos 0; stdout = []; stderr = [] }), w);
  check_output = λ command w. (ok (codes "13.3.0"), w);
}

abbrev repo : FilePath
repo = codes "repo" ∷ []

abbrev root : FilePath
root = codes "runs" ∷ []

abbrev cameras : Cameras
cameras = record {
  d435_serials = codes "1" ∷ codes "2" ∷ [];
  d455_serial = codes "3";
  single_d435_serial = codes "1";
  startup_serial = codes "2";
  e3_irqs = [];
}

abbrev manifest : Manifest (Unit {0})
manifest = record {
  config = tt;
  repo = codes "/repo";
  smoke = true;
  adapter_sources = (codes "tools", codes "aa") ∷ [];
  entrypoints = (codes "ablation.sh", codes "aa") ∷ [];
}

abbrev runner : Runner World (Unit {0})
runner = record {
  load_config = λ w. ok tt;
  same_config = λ a b. true;
  cameras = λ config. cameras;
  load_manifest = λ w. ok manifest;
  run_checked = λ command w. (ok tt, w);
  run_logged = λ log command w. (ok tt, record w { started = suc w.started });
  lock = λ w. (ok tt, w);
  provenance = λ stage w. (ok tt, w);
  write_marker = λ path stage kernel sum w. (ok tt, record w { marker = some sum });
}

abbrev start : World
start = record { marker = none; started = 0 }

abbrev end : World
end = record { marker = some (codes "aa"); started = 1 }

ran :
    run machine records platform runner repo root stage standard_threaded16 start
    ≡ (ok completed, end)
unfolding run check platform_errors kernel_errors kernel_of mode_name missing_files probe_errors
    camera_errors probe_camera serials_of distinct_texts sorted insert_sorted missing_commands
    compiler_errors build_errors irq_errors needed_profiles missing_irqs examine examine_manifest
    check_adapters check_script lookup perform_stage path_text words words_from strip lstrip rstrip
    str_eq str_leb contains starts_with join
ran = refl

-- The script was not started, or it was cleared.
abbrev Calm : World → Type 0
Calm w =
    (w.started ≡ 0)
    ⊎ ((config : Unit {0}) × (s : World) × (t : World) × IsCleared machine records platform runner
          repo root stage standard_threaded16 config s t)

guards : Guards machine records platform runner repo root Calm
guards = record {
  run_probe = λ command. record { at = λ w calm. calm };
  check_output = λ command. record { at = λ w calm. calm };
  run_checked = λ command. record { at = λ w calm. calm };
  lock = record { at = λ w calm. calm };
  provenance = λ stage. record { at = λ w calm. calm };
  make_dir = λ path. record { at = λ w calm. calm };
  write_marker = λ path stage kernel sum. record { at = λ w calm. calm };
}

run-Keeps_example :
    Keeps Calm (run machine records platform runner repo root stage standard_threaded16)
run-Keeps_example =
    run-Keeps machine records platform runner repo root Calm guards stage standard_threaded16
      (λ config s t calm cleared. record { at = λ w _. inr (config, s, t, cleared) })

file_system : IsFileSystem machine records platform runner repo root stage
file_system = record {
  exists = λ kernel sum s t e. subst (λ r. is_marked r.1.marker ≡ true) e refl;
  read = λ kernel sum s t e.
      subst
        (λ r.
          records.read_marker [] r.1
          ≡ ok (record { stage = some stage; adapter_sha256 = some sum }))
        e refl;
  digest = λ kernel sum s t e. refl;
}

run-IsDone_example :
    Returns
      (IsDone machine records platform runner repo root stage)
      (run machine records platform runner repo root stage standard_threaded16 start)
run-IsDone_example =
    run-IsDone machine records platform runner repo root stage standard_threaded16 start file_system

phases-Consistent_example : All (λ phase. All (Consistent phase) phase.stages) (phases true)
phases-Consistent_example = phases-Consistent true

edited : replace_once (codes "pool=5; sh") (codes "=5") (codes "=16") ≡ ok (codes "pool=16; sh")
unfolding replace_once count_from replace_first starts_with drop_prefix
edited = refl

replace_once-IsEdit_example :
    IsEdit (codes "pool=5; sh") (codes "=5") (codes "=16") (codes "pool=16; sh")
    × ((i : IsEdit (codes "pool=5; sh") (codes "=5") (codes "=16") (codes "pool=16; sh"))
        → before (codes "pool=5; sh") (codes "=5") ≡ ok i.earlier)
replace_once-IsEdit_example =
    replace_once-IsEdit (codes "pool=5; sh") b'=' (codes "5") (codes "=16") (codes "pool=16; sh")
      edited

abbrev camera : Str → Str → Camera
camera serial model = record {
  serial = serial;
  model = model;
  xhci_irq = some 131;
  xhci_label = codes "xhci-hcd:usb1";
}

abbrev file : RawConfig
file = record {
  cameras =
      (codes "left", camera (codes "11") (codes "D435"))
      ∷ (codes "far", camera (codes "33") (codes "D455"))
      ∷ (codes "right", camera (codes "22") (codes "D435"))
      ∷ [];
  d435_pair = codes "left" ∷ codes "right" ∷ [];
  single_d435 = codes "right";
  startup_d435 = codes "left";
  single_d455 = codes "far";
}

abbrev chosen : Cameras
chosen = record {
  d435_serials = codes "11" ∷ codes "22" ∷ [];
  d455_serial = codes "33";
  single_d435_serial = codes "22";
  startup_serial = codes "11";
  e3_irqs =
      record { number = 131; label = codes "xhci-hcd:usb1" }
      ∷ record { number = 131; label = codes "xhci-hcd:usb1" }
      ∷ [];
}

chosen_roles : load_config file ≡ ok chosen
unfolding load_config check_irqs select_roles find_camera serials distinct_texts starts_with
    drop_prefix str_eq
chosen_roles = refl

load_config-IsPair_example : IsPair file chosen
load_config-IsPair_example = load_config-IsPair file chosen chosen_roles
