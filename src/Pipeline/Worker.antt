-- ===== src/Pipeline/Worker.antt =====
-- `worker`: one boot of a campaign. Its object is the dict `state`, which `save` writes to
-- pipeline.json.
use rs_camera.Prelude.{
  ℕ, zero, suc, Bool, false, not, Option, none, some, List, [], ◌∷◌, ◌++◌, ◌==◌, if◌then◌else◌,
}
use rs_camera.Prelude.Exec.{
  Result, ok, err, Exec, pure, raise, lift, gets, raise_if, when, try_except, finally_do, ◌>>=◌,
  ◌>>◌,
}
use rs_camera.Prelude.Objects.{on_world, with_object, change, this}
use rs_camera.Prelude.Errors.{Error, value_error, message}
use rs_camera.Text.{Str, codes, str_eq}
use rs_camera.Machine.{Machine, FilePath, ◌/◌, path_text}
use rs_camera.Pipeline.Plan.{Variant, Phase, Records, phases, boot_matches, complete, first_pending}
use rs_camera.Pipeline.Host.{
  running, rebooting, failed, PendingBoot, Prepared, CampaignState, Host, Call, wlan, select_kernel,
  reboot, check_stage, run_stage, analyze_captures, render, disable_service, perform,
}
use rs_camera.Pipeline.Host.Status.{complete as completed}
use rs_camera.Pipeline.Checks.{
  require_pi, verify_sources, check_wired, restore_system, refresh_boot_config,
}

-- How the loop over the phases ends.
pub data LoopEnd : Type 0 where
  all_captured reboot_requested out_of_fuel : LoopEnd

abbrev pub wlan0 : FilePath
wlan0 = codes "sys" ∷ codes "class" ∷ codes "net" ∷ codes "wlan0" ∷ []

abbrev pub boot_failed : Error
boot_failed =
    value_error (codes "Requested kernel boot did not complete; automatic reboot retry disabled")

abbrev pub smoke_of : {Protocol : Type 0} → Result Error (Prepared Protocol) → Result Error Bool
smoke_of (ok prepared) = ok prepared.smoke
smoke_of (err e) = err e

abbrev pub incomplete_output : Error
incomplete_output =
    value_error (codes "Incomplete derived output; preserve it before retrying analysis")

-- The updates of `state` at the start of a boot, at the end of the campaign, and on an error.
abbrev pub started : CampaignState → CampaignState
started o = record o { pending_boot = none; status = running; active_stage = none }

abbrev pub finished : FilePath → CampaignState → CampaignState
finished output o = record o { status = completed; derived = some output }

abbrev pub broken : Error → CampaignState → CampaignState
broken e o = record o { status = failed; error = some (message e) }

module _ {W Config Protocol : Type 0} (m : Machine W) (f : Records W) (h : Host W Config Protocol)
    (root : FilePath) where
  abbrev pub Method : Type 0 → Type 0
  Method A = Exec Error (CampaignState × W) A

  abbrev pub do_call : Call → Method (Unit {0})
  do_call c = on_world (perform h root c)

  -- `save(root/'pipeline.json', state)`
  abbrev pub save : Method (Unit {0})
  save = this >>= λ o. on_world (h.save_state o)

  abbrev pub check_complete : Str → Exec Error W Bool
  check_complete stage w = (complete m f root stage w, w)

  -- Whether pipeline.json, where it exists, says that the campaign is a smoke test.
  unfoldable pub campaign_smoke : W → Result Error Bool
  campaign_smoke w =
      if not (m.exists (root / codes "pipeline.json") w)
      then ok false
      else elim (h.load_state w) [ err e ↦ err e | ok o ↦ ok o.smoke ]

  -- `next_phase`, on the phases of the campaign.
  abbrev pub next_of : Result Error Bool → W → Result Error (Option Phase)
  next_of (err e) w = err e
  next_of (ok smoke) w = first_pending m f root (phases smoke) w

  unfoldable pub next_phase : W → Result Error (Option Phase)
  unfolding campaign_smoke
  next_phase w = next_of (campaign_smoke w) w

  -- The inner loop's body.
  unfoldable pub capture : Str → Method (Unit {0})
  capture stage = do
    do_call (check_stage stage)
    on_world (h.make_dir (root / codes "environment"))
    prepared ← on_world (λ w. (h.load_prepared w, w))
    on_world
        (h.save_prepared (root / codes "environment" / (stage ++ codes "-prepared.json")) prepared)
    change (λ o. record o { active_stage = some stage })
    save
    do_call (run_stage stage)
    done ← on_world (check_complete stage)
    raise_if (not done) (value_error (codes "No valid completion marker for " ++ stage))
    change (λ o. record o { active_stage = none })
    save

  unfoldable pub captures : List Str → Method (Unit {0})
  unfolding capture
  captures [] = pure tt
  captures (stage ∷ stages) = capture stage >> captures stages

  unfoldable pub request_boot : Variant → Bool → Str → Method (Unit {0})
  request_boot variant threaded boot_id = do
    do_call (select_kernel variant threaded)
    change (λ o. record o {
      status = rebooting;
      pending_boot = some (record { variant = variant; threaded = threaded; boot_id = boot_id });
    })
    save
    on_world h.sync
    do_call reboot

  -- One round of the loop, on what `next_phase` returned; `rest` are the rounds that follow.
  unfoldable pub run_phase : Str → Method LoopEnd → Option Phase → Method LoopEnd
  unfolding captures request_boot
  run_phase boot_id rest none = pure all_captured
  run_phase boot_id rest (some p) = do
    cmdline ← lift h.cmdline
    if not (boot_matches p.variant p.threaded h.release cmdline)
        then (request_boot p.variant p.threaded boot_id >> pure reboot_requested)
        else (captures p.stages >> rest)

  -- The `while` loop, on fuel: each round but the last finishes a phase.
  unfoldable pub campaign_loop : ℕ → Str → Method LoopEnd
  unfolding run_phase next_phase
  campaign_loop zero boot_id = pure out_of_fuel
  campaign_loop (suc fuel) boot_id =
      on_world (λ w. (next_phase w, w)) >>= run_phase boot_id (campaign_loop fuel boot_id)

  -- `if not output.exists(): …`, where the analysis is published in one step.
  unfoldable pub derive_output : FilePath → Exec Error W (Unit {0})
  derive_output output = do
    pending ← h.make_temp root
    let prepared = root / codes "prepared.json"
    prepared_exists ← gets (m.exists prepared)
    smoke ← (λ w. (if prepared_exists then smoke_of (h.load_prepared w) else ok false, w))
    perform h root (analyze_captures pending smoke)
    h.publish pending output

  -- What follows the loop once everything is captured.
  unfoldable pub finish_campaign : Method (Unit {0})
  unfolding derive_output
  finish_campaign = do
    let output = root / codes "derived"
    exists ← on_world (gets (m.exists output))
    when (not exists) (on_world (derive_output output))
    manifest ← on_world (gets (m.exists (output / codes "manifest.json")))
    raise_if (not manifest) incomplete_output
    o ← this
    when o.pdf (do_call (render output))
    on_world (restore_system m f h root)
    change (finished output)
    save
    do_call disable_service

  abbrev pub end_loop : LoopEnd → Method (Unit {0})
  end_loop all_captured = finish_campaign
  end_loop reboot_requested = pure tt
  end_loop out_of_fuel = pure tt

  -- `if stage and not complete(root, stage): raise …`
  unfoldable pub check_interrupted : Option Str → Exec Error W (Unit {0})
  check_interrupted none = pure tt
  check_interrupted (some stage) = do
    done ← check_complete stage
    raise_if (not done) (
        value_error (
          stage
          ++ codes
              " was interrupted without a completion marker; keep partial data and start a new campaign"))

  -- `if pending: …`; the command line is read only for a boot of another id.
  unfoldable pub check_boot : Option PendingBoot → Str → Result Error (Unit {0})
  check_boot none boot_id = ok tt
  check_boot (some p) boot_id =
      if str_eq p.boot_id boot_id then err boot_failed else elim h.cmdline [
        | err e ↦ err e
        | ok cmdline ↦
            if boot_matches p.variant p.threaded h.release cmdline then ok tt else err boot_failed
      ]

  -- The `try` block of `worker`, with `fuel` rounds of its loop.
  unfoldable pub campaign : ℕ → Method (Unit {0})
  unfolding campaign_loop finish_campaign check_interrupted check_boot
  campaign fuel = do
    on_world (verify_sources m f h root)
    on_world (check_wired m f h root 60)
    o ← this
    on_world (check_interrupted o.active_stage)
    boot_id ← lift h.boot_id
    lift (check_boot o.pending_boot boot_id)
    change started
    save
    on_world (refresh_boot_config m f h root boot_id)
    wireless ← on_world (gets (m.exists wlan0))
    when wireless (do_call (wlan false))
    campaign_loop fuel boot_id >>= end_loop

  -- The `except` block: the error is recorded, the system restored, the service disabled.
  unfoldable pub give_up : Error → Method (Unit {0})
  give_up e = do
    change (broken e)
    save
    finally_do (on_world (restore_system m f h root)) (do_call disable_service)
    raise e

  -- `worker`, with a round of the loop for each of the five phases and a last one.
  unfoldable pub worker : Exec Error W (Unit {0})
  unfolding campaign give_up
  worker = do
    require_pi m f h root
    raise_if (not (h.geteuid == 0))
        (value_error (codes "Worker must run in the installed root service"))
    h.make_dir (root / codes "private-tmp")
    h.use_temporary (root / codes "private-tmp")
    state ← (λ w. (h.load_state w, w))
    raise_if (not (str_eq (path_text state.repo) (path_text h.repo)))
        (value_error (codes "Repository moved since preparation"))
    h.lock (root / codes "pipeline.lock")
    finally_do (with_object state (try_except (campaign 6) give_up)) h.unlock
