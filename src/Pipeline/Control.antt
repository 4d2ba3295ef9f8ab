-- ===== src/Pipeline/Control.antt =====
-- `control`: the commands status, resume and stop on a campaign.
use rs_camera.Prelude.{
  Bool, true, false, not, Option, none, some, List, [], ◌∷◌, ◌++◌, ◌==◌, if◌then◌else◌,
}
use rs_camera.Prelude.Exec.{Result, ok, err, Exec, pure, raise, raise_if, ◌>>=◌, ◌>>◌}
use rs_camera.Prelude.Errors.{Error, value_error}
use rs_camera.Text.{Str, codes, str_eq}
use rs_camera.Machine.{Machine, FilePath, path_text}
use rs_camera.Pipeline.Plan.{Phase, Records, phases, complete}
use rs_camera.Pipeline.Host.{
  Host, Status, CampaignState, queued, stopped, running, rebooting, failed,
}
use rs_camera.Pipeline.Host.Status.{complete as completed}
use rs_camera.Pipeline.Checks.{require_pi, verify_sources, check_wired, restore_system}
use rs_camera.Pipeline.Worker.{campaign_smoke}
use rs_camera.Pipeline.Service.{Controller, service, unit_path, unit_matches, check_unit_available}

pub data Action : Type 0 where
  show_status resume stop : Action

-- How `control` ends; `root_access` ends the process behind the call of `sudo`.
pub data ControlEnd : Type 0 where
  shown : List Str → ControlEnd
  already_complete reran_as_root halted resumed : ControlEnd

abbrev pub is_completed : Status → Bool
is_completed completed = true
is_completed queued = false
is_completed running = false
is_completed rebooting = false
is_completed failed = false
is_completed stopped = false

abbrev pub keep_done : Str → Result Error Bool → Result Error (List Str) → Result Error (List Str)
keep_done stage (err e) rest = err e
keep_done stage (ok done) (err e) = err e
keep_done stage (ok done) (ok rest) = ok (if done then stage ∷ rest else rest)

abbrev pub append_done : Result Error (List Str) → Result Error (List Str) → Result Error (List Str)
append_done (err e) rest = err e
append_done (ok done) (err e) = err e
append_done (ok done) (ok rest) = ok (done ++ rest)

abbrev pub requeued : CampaignState → CampaignState
requeued o = record o { status = queued; pending_boot = none }

abbrev pub halted_state : CampaignState → CampaignState
halted_state o = record o { status = stopped }

module _ {W Config Protocol : Type 0} (m : Machine W) (f : Records W) (h : Host W Config Protocol)
    (x : Controller W) (root : FilePath) where
  unfoldable pub done_stages : List Str → W → Result Error (List Str)
  done_stages [] w = ok []
  done_stages (stage ∷ stages) w =
      keep_done stage (complete m f root stage w) (done_stages stages w)

  unfoldable pub done_in : List Phase → W → Result Error (List Str)
  unfolding done_stages
  done_in [] w = ok []
  done_in (p ∷ ps) w = append_done (done_stages p.stages w) (done_in ps w)

  -- What `status` prints beside the file itself.
  unfoldable pub status : W → Result Error (List Str)
  unfolding done_in
  status w = elim (x.is_full w) [
    | err e ↦ err e
    | ok false ↦ ok []
    | ok true ↦ elim (campaign_smoke m f h root w) [
      | err e ↦ err e
      | ok smoke ↦ done_in (phases smoke) w
    ]
  ]

  -- `not UNIT.exists() or UNIT.read_text() != service_text(root)`
  unfoldable pub is_ours : W → Result Error Bool
  is_ours w = if not (m.exists unit_path w) then ok false else unit_matches m x root w

  abbrev systemctl : List Str → Exec Error W (Unit {0})
  systemctl args = h.call none (codes "systemctl" ∷ args)

  unfoldable pub halt : Exec Error W ControlEnd
  halt = do
    systemctl (codes "disable" ∷ codes "--now" ∷ service ∷ [])
    state ← (λ w. (h.load_state w, w))
    restore_system m f h root
    h.save_state (halted_state state)
    pure halted

  -- Whether the stage that was active was interrupted.
  unfoldable pub interrupted : Option Str → W → Result Error Bool
  interrupted none w = ok false
  interrupted (some stage) w =
      if str_eq stage []
      then ok false
      else elim (complete m f root stage w) [ err e ↦ err e | ok done ↦ ok (not done) ]

  unfoldable pub restart : CampaignState → Exec Error W ControlEnd
  unfolding interrupted
  restart state = do
    check_unit_available m x root true
    lost ← (λ w. (interrupted state.active_stage w, w))
    raise_if lost
        (value_error (codes "Interrupted acquisition cannot be resumed safely; use a new output"))
    verify_sources m f h root
    check_wired m f h root 0
    h.save_state (requeued state)
    systemctl (codes "enable" ∷ service ∷ [])
    systemctl (codes "start" ∷ codes "--no-block" ∷ service ∷ [])
    pure resumed

  abbrev pub on_campaign : Action → CampaignState → Exec Error W ControlEnd
  on_campaign show_status state = pure (shown [])
  on_campaign resume state = restart state
  on_campaign stop state = halt

  -- Behind the test on a complete campaign.
  unfoldable pub control_open : Action → CampaignState → Exec Error W ControlEnd
  unfolding halt restart is_ours
  control_open action state = do
    require_pi m f h root
    if not (h.geteuid == 0)
        then (h.call none (
              codes "sudo"
              ∷ codes "--preserve-env=SSH_CONNECTION"
              ∷ x.executable
              ∷ path_text x.script
              ∷ x.argv)
            >> pure reran_as_root)
        else ((λ w. (is_ours w, w)) >>= λ ours.
            raise_if (not ours)
              (value_error (codes "Output does not match the installed reproduction service"))
            >> on_campaign action state)

  abbrev pub when_complete : Action → Exec Error W ControlEnd
  when_complete show_status = pure (shown [])
  when_complete stop = pure already_complete
  when_complete resume = raise (value_error (codes "Campaign already complete"))

  abbrev full_only : Error
  full_only = value_error (codes "resume/stop apply only to full-mode campaigns")

  unfoldable pub change_campaign : Action → Exec Error W ControlEnd
  unfolding control_open
  change_campaign action = do
    full ← (λ w. (x.is_full w, w))
    raise_if (not full) full_only
    state ← (λ w. (h.load_state w, w))
    if is_completed state.status then when_complete action else control_open action state

  unfoldable pub control : Action → Exec Error W ControlEnd
  unfolding status change_campaign
  control show_status = (λ w. (status w, w)) >>= λ done. pure (shown done)
  control resume = change_campaign resume
  control stop = change_campaign stop
