-- ===== src/Pipeline/Tests.antt =====
-- The theorems on the pipeline, on a system that logs the commands that it is given.
use rs_camera.Prelude.{ℕ, true, false, ◌≡◌, refl, ap, inl, none, some, [], ◌∷◌}
use rs_camera.Prelude.Exec.{ok, err, Exec}
use rs_camera.Prelude.After.{After}
use rs_camera.Prelude.Keeping.{Keeps, OnWorld}
use rs_camera.Prelude.Errors.{Error, os_error}
use rs_camera.Machine.{FilePath}
use rs_camera.Machine.Sample.{Files, sample, is_sample_file}
use rs_camera.Text.{codes, str_eq}
use rs_camera.Text.Words.{starts_with, words}
use rs_camera.Pipeline.Plan.{
  standard_urb16, rt_urb16, Phase, Records, phases, boot_matches, complete, first_pending,
  release_of, variant_name, all_phases, without_supplements, main_stages, is_supplement,
}
use rs_camera.Pipeline.Next.{Next, first_pending-Next}
use rs_camera.Pipeline.Host.{Host, Call, CampaignState, rebooting, perform}
use rs_camera.Pipeline.Worker.{campaign, campaign_loop, worker}
use rs_camera.Pipeline.Permitted.{Permitted, Guards, Waiting}
use rs_camera.Pipeline.Safety.{worker-Keeps}
use rs_camera.Pipeline.Refusals.{campaign-refuses}
use rs_camera.Pipeline.Captured.{EndsWell, campaign_loop-captured}
use rs_camera.Prelude.{if◌then◌else◌}
use rs_camera.Prelude.Post.{Returns}
use rs_camera.Text.{join}
use rs_camera.Text.Words.{pos, contains}
use rs_camera.Machine.{Machine, path_text}
use rs_camera.Pipeline.Host.{arguments, log_of}
use rs_camera.Pipeline.Checks.{require_pi, restore_system, write_boot_files}
use rs_camera.Pipeline.Service.{Controller, unit_path, service_text, systemd_path, unit_matches}
use rs_camera.Pipeline.Control.{stop, halted, control, change_campaign, control_open, halt, is_ours}
use rs_camera.Pipeline.Controlling.{IsEnd, control-IsEnd}

abbrev root : FilePath
root = codes "run" ∷ []

abbrev records : Records Files
records = record {
  read_marker = λ path w. err (os_error (codes "no marker"));
  digest = λ path w. ok (codes "0");
}

-- The second phase was asked for, and the first kernel has come up again.
abbrev asked : CampaignState
asked = record {
  status = rebooting;
  repo = codes "repo" ∷ [];
  pdf = true;
  smoke = false;
  active_stage = none;
  pending_boot =
      some (record { variant = standard_urb16; threaded = true; boot_id = codes "boot-1" });
  error = none;
  derived = none;
}

abbrev done : Exec Error Files (Unit {0})
done w = (ok tt, w)

abbrev system : Host Files ℕ ℕ
system = record {
  python = codes "python3";
  here = codes "repo" ∷ codes "reproduction" ∷ [];
  repo = codes "repo" ∷ [];
  geteuid = 0;
  release = codes "6.12.96-rpi5-rt-btf-uvc16+";
  cmdline = ok (codes "root=/dev/sda2");
  boot_id = ok (codes "boot-2");
  peer = [];
  call = λ log command w. (ok tt, w);
  route = λ peer w. (ok (codes "dev eth0"), w);
  monotonic = λ w. 0;
  sleep = λ seconds w. w;
  sync = done;
  lock = λ path. done;
  unlock = done;
  use_temporary = λ path. done;
  make_dir = λ path. done;
  make_temp = λ path w. (ok path, w);
  publish = λ from_path to_path. done;
  copy = λ from_path to_path. done;
  write_text = λ path text. done;
  load_state = λ w. ok asked;
  save_state = λ o. done;
  load_prepared = λ w. ok (record { entrypoints = []; smoke = false; protocol = 30 });
  save_prepared = λ path prepared. done;
  load_before = λ w. ok (record { boot_files = []; wifi_up = true });
  load_manifest = λ w. ok [];
  load_config = λ path w. ok 0;
  same_config = λ a b. true;
  same_cameras = λ a b. true;
  prepare = λ config prepared. done;
}

-- This system changes nothing, so that it keeps everything.
abbrev Kept : Files → Type 0
Kept w = w ≡ []

keeps : (I : Files → Type 0) {A : Type 0} (a : A) → Keeps {E = Error} I (λ w. (ok a, w))
keeps I a = record { at = λ w h. h }

system-Guards : (Allowed : Call → Type 0) (I : Files → Type 0) → Guards system root Allowed I
unfolding perform
system-Guards Allowed I = record {
  calls = λ c p. keeps I tt;
  route = λ peer. keeps I _;
  sleep = λ seconds. keeps I tt;
  sync = keeps I tt;
  lock = λ path. keeps I tt;
  unlock = keeps I tt;
  use_temporary = λ path. keeps I tt;
  make_dir = λ path. keeps I tt;
  make_temp = λ path. keeps I path;
  publish = λ from_path to_path. keeps I tt;
  copy = λ from_path to_path. keeps I tt;
  write_text = λ path text. keeps I tt;
  save_state = λ o. keeps I tt;
  save_prepared = λ path prepared. keeps I tt;
  prepare = λ config prepared. keeps I tt;
}

-- The running kernel is the one of the first phase, not the one that was asked for.
boot_matches-first : boot_matches rt_urb16 false (system.release) (codes "root=/dev/sda2") ≡ true
unfolding boot_matches words starts_with str_eq release_of variant_name
boot_matches-first = refl

boot_matches-asked :
    boot_matches standard_urb16 true (system.release) (codes "root=/dev/sda2") ≡ false
unfolding boot_matches str_eq release_of
boot_matches-asked = refl

worker-Keeps_example : Keeps Kept (worker sample records system root)
worker-Keeps_example =
    worker-Keeps sample records system root Kept (system-Guards (Permitted system) Kept)

-- The first stage was started, and its marker is missing. The host writes and calls for real.
abbrev cut_off : CampaignState
cut_off = record asked { active_stage = some (codes "e1"); pending_boot = none }

abbrev writing : Host Files ℕ ℕ
writing = record system {
  call = λ log command w. (ok tt, (join (codes " ") command, []) ∷ w);
  write_text = λ path text w. (ok tt, (path_text path, text) ∷ w);
  save_state = λ o w. (ok tt, (codes "/run/pipeline.json", []) ∷ w);
}

writing-Waiting : Waiting writing Kept
writing-Waiting = record { route = λ peer. keeps Kept _; sleep = λ seconds. keeps Kept tt }

no_marker : complete sample records root (codes "e1") [] ≡ ok false
unfolding complete is_sample_file
no_marker = refl

campaign-refuses_example :
    After (λ _ _. ⊥) (λ _ t. OnWorld Kept t) (campaign sample records writing root 6 (cut_off, []))
campaign-refuses_example =
    campaign-refuses sample records writing root Kept writing-Waiting 6 cut_off []
      (inl (
        codes "e1",
        refl,
        λ w kept e. cc (e, ap (complete sample records root (codes "e1")) kept, no_marker),
      ))
      refl

campaign_loop-captured_example :
    After
      (EndsWell sample records system root)
      (λ _ _. Unit)
      (campaign_loop sample records system root 6 (codes "boot-2") (asked, []))
campaign_loop-captured_example =
    campaign_loop-captured sample records system root 6 (codes "boot-2") (asked, [])

-- Without markers, the first phase is next.
abbrev first_phase : Phase
first_phase = record {
  variant = rt_urb16;
  threaded = false;
  stages = codes "e1" ∷ codes "e2-calibrate" ∷ [];
}

first_pending-start : first_pending sample records root (phases true) [] ≡ ok (some first_phase)
unfolding first_pending phases all_phases without_supplements main_stages is_supplement str_eq
    complete is_sample_file
first_pending-start = refl

first_pending-Next_example : Next sample records root [] (phases true) (some first_phase)
first_pending-Next_example =
    first_pending-Next sample records root [] (phases true) (some first_phase) first_pending-start

abbrev controller : Controller Files
controller = record {
  executable = codes "/usr/bin/python3";
  script = codes "repo" ∷ codes "reproduction" ∷ codes "pipeline.py" ∷ [];
  repo = codes "repo" ∷ [];
  uid = codes "1000";
  gid = codes "1000";
  argv = [];
  is_full = λ w. ok true;
  check_output = λ command w. (ok (codes "inactive"), w);
  returncode = λ command w. (ok (pos 0), w);
}

-- The unit is that of the campaign, and every other file names the board.
abbrev installed : Machine Files
installed = record sample {
  read_text = λ path w.
      if str_eq (path_text path) (path_text unit_path)
      then service_text sample controller root
      else ok (codes "Raspberry Pi 5");
  exists = λ path w. true;
  is_file = λ path w. true;
}

halts : (control installed records system controller root stop []).0 ≡ ok halted
unfolding control change_campaign control_open halt is_ours unit_matches service_text systemd_path
    require_pi restore_system write_boot_files perform arguments log_of path_text join str_eq
    contains starts_with
halts = refl

control-IsEnd_example :
    Returns
      (IsEnd installed records system controller root stop [])
      (control installed records system controller root stop [])
control-IsEnd_example = control-IsEnd installed records system controller root stop []
