-- ===== src/Pipeline/Safety.antt =====
-- The worker calls only what is permitted.
use rs_camera.Prelude.{if◌then◌else◌, ◌==◌, ℕ, false, not, Option, none, some}
use rs_camera.Prelude.Exec.{ok, ◌>>=◌, ◌>>◌, raise_if, lift, gets, when, finally_do}
use rs_camera.Prelude.Objects.{on_world, this}
use rs_camera.Prelude.Keeping.{
  Keeps, OnWorld, Keeps-pure, Keeps-raise, Keeps-raise_if, Keeps-gets, Keeps-lift, Keeps-reads,
  Keeps-when, Keeps-bind, Keeps-with_object, Keeps-try, Keeps-finally, Keeps-this,
}
use rs_camera.Prelude.Errors.{Error}
use rs_camera.Text.{Str, codes}
use rs_camera.Machine.{Machine, FilePath, ◌/◌}
use rs_camera.Pipeline.Plan.{Records}
use rs_camera.Pipeline.Host.{Host, wlan, analyze_captures, render, disable_service, perform}
use rs_camera.Pipeline.Checks.{
  require_pi, verify_sources, check_wired, restore_system, refresh_boot_config,
}
use rs_camera.Pipeline.Worker.{
  do_call, check_complete, LoopEnd, all_captured, reboot_requested, out_of_fuel, campaign_loop,
  derive_output, finish_campaign, end_loop, check_interrupted, check_boot, campaign, give_up,
  worker, smoke_of, wlan0, incomplete_output, started, finished, broken,
}
use rs_camera.Pipeline.Permitted.{
  Permitted, Guards, Guards-Waiting, require_pi-Keeps, verify_sources-Keeps, check_wired-Keeps,
  restore_system-Keeps, refresh_boot_config-Keeps,
}
use rs_camera.Pipeline.Moves.{Safe, step, host, called, saved, campaign_loop-Keeps}

module _ {W Config Protocol : Type 0} (m : Machine W) (f : Records W) (h : Host W Config Protocol)
    (root : FilePath) (I : W → Type 0) (g : Guards h root (Permitted h) I) where
  derive_output-Keeps : (output : FilePath) → Keeps I (derive_output m f h root output)
  unfolding derive_output
  derive_output-Keeps output = Keeps-bind I (h.make_temp root) _ (g.make_temp root) (λ pending.
      Keeps-bind I (gets (m.exists (root / codes "prepared.json"))) _ (Keeps-gets I _) (λ there.
        Keeps-bind I (λ w. (if there then smoke_of (h.load_prepared w) else ok false, w)) _
          (Keeps-reads I _)
          (λ smoke.
            Keeps-bind I (perform h root (analyze_captures pending smoke)) _
              (g.calls (analyze_captures pending smoke) tt) (λ _. g.publish pending output))))

  finish_campaign-Keeps : Safe m f h root I g (finish_campaign m f h root)
  unfolding finish_campaign
  finish_campaign-Keeps =
      step m f h root I g (on_world (gets (m.exists output))) _
        (host m f h root I g _ (Keeps-gets I _))
        (λ there.
          step m f h root I g (when (not there) (on_world (derive_output m f h root output))) _
            (Keeps-when (OnWorld I) (not there) _
              (host m f h root I g _ (derive_output-Keeps output)))
            (λ _.
              step m f h root I g (on_world (gets (m.exists (output / codes "manifest.json")))) _
                (host m f h root I g _ (Keeps-gets I _))
                (λ manifest.
                  step m f h root I g (raise_if (not manifest) incomplete_output) _
                    (Keeps-raise_if (OnWorld I) (not manifest) incomplete_output)
                    (λ _. step m f h root I g this _ (Keeps-this I) (λ o.
                      step m f h root I g (when o.pdf (do_call m f h root (render output))) _
                        (Keeps-when (OnWorld I) o.pdf _ (called m f h root I g (render output) tt))
                        (λ _.
                          step m f h root I g (on_world (restore_system m f h root)) _
                            (host m f h root I g _
                              (restore_system-Keeps m f h root (Permitted h) I g tt))
                            (λ _.
                              saved m f h root I g (finished output) _
                                (called m f h root I g disable_service tt))))))))
    where
      output : FilePath
      output = root / codes "derived"

  check_interrupted-Keeps : (stage : Option Str) → Keeps I (check_interrupted m f h root stage)
  unfolding check_interrupted
  check_interrupted-Keeps none = Keeps-pure I tt
  check_interrupted-Keeps (some stage) =
      Keeps-bind I (check_complete m f h root stage) _ (Keeps-reads I _)
        (λ done. Keeps-raise_if I (not done) _)

  end_loop-Keeps : (end : LoopEnd) → Safe m f h root I g (end_loop m f h root end)
  end_loop-Keeps all_captured = finish_campaign-Keeps
  end_loop-Keeps reboot_requested = Keeps-pure (OnWorld I) tt
  end_loop-Keeps out_of_fuel = Keeps-pure (OnWorld I) tt

  campaign-Keeps : (fuel : ℕ) → Safe m f h root I g (campaign m f h root fuel)
  unfolding campaign
  campaign-Keeps fuel =
      step m f h root I g (on_world (verify_sources m f h root)) _
        (host m f h root I g _
          (verify_sources-Keeps m f h root I (Guards-Waiting h root (Permitted h) I g)))
        (λ _.
          step m f h root I g (on_world (check_wired m f h root 60)) _
            (host m f h root I g _
              (check_wired-Keeps m f h root I (Guards-Waiting h root (Permitted h) I g) 60))
            (λ _. step m f h root I g this _ (Keeps-this I) (λ o.
              step m f h root I g (on_world (check_interrupted m f h root o.active_stage)) _
                (host m f h root I g _ (check_interrupted-Keeps o.active_stage))
                (λ _.
                  step m f h root I g (lift h.boot_id) _ (Keeps-lift (OnWorld I) h.boot_id)
                    (λ boot_id.
                      step m f h root I g (lift (check_boot m f h root o.pending_boot boot_id)) _
                        (Keeps-lift (OnWorld I) _)
                        (λ _. saved m f h root I g started _ (captured boot_id)))))))
    where
      captured :
          (boot_id : Str)
          → Safe m f h root I g (
              on_world (refresh_boot_config m f h root boot_id)
              >> (on_world (gets (m.exists wlan0)) >>= λ wireless.
                  when wireless (do_call m f h root (wlan false))
                  >> (campaign_loop m f h root fuel boot_id >>= end_loop m f h root)))
      captured boot_id =
          step m f h root I g (on_world (refresh_boot_config m f h root boot_id)) _
            (host m f h root I g _
              (refresh_boot_config-Keeps m f h root (Permitted h) I g boot_id (λ _. tt)))
            (λ _.
              step m f h root I g (on_world (gets (m.exists wlan0))) _
                (host m f h root I g _ (Keeps-gets I _))
                (λ wireless.
                  step m f h root I g (when wireless (do_call m f h root (wlan false))) _
                    (Keeps-when (OnWorld I) wireless _ (called m f h root I g (wlan false) tt))
                    (λ _.
                      step m f h root I g (campaign_loop m f h root fuel boot_id) _
                        (campaign_loop-Keeps m f h root I g fuel boot_id) end_loop-Keeps)))

  give_up-Keeps : (e : Error) → Safe m f h root I g (give_up m f h root e)
  unfolding give_up
  give_up-Keeps e = saved m f h root I g (broken e) _ (
      step m f h root I g
        (finally_do (on_world (restore_system m f h root)) (do_call m f h root disable_service)) _
        (Keeps-finally (OnWorld I) _ _
          (host m f h root I g _ (restore_system-Keeps m f h root (Permitted h) I g tt))
          (called m f h root I g disable_service tt))
        (λ _. Keeps-raise (OnWorld I) e))

  -- Whatever the system does, the worker keeps every property of it that the permitted calls keep:
  -- it runs a stage only on the kernel of its phase, and selects only a kernel that is not running.
  pub worker-Keeps : Keeps I (worker m f h root)
  unfolding worker
  worker-Keeps =
      Keeps-bind I (require_pi m f h root) _ (require_pi-Keeps m f h root (Permitted h) I g) (λ _.
        Keeps-bind I (raise_if (not (h.geteuid == 0)) _) _ (Keeps-raise_if I _ _) (λ _.
          Keeps-bind I (h.make_dir (root / codes "private-tmp")) _ (g.make_dir _) (λ _.
            Keeps-bind I (h.use_temporary (root / codes "private-tmp")) _ (g.use_temporary _) (λ _.
              Keeps-bind I (λ w. (h.load_state w, w)) _ (Keeps-reads I _)
                (λ state. Keeps-bind I (raise_if _ _) _ (Keeps-raise_if I _ _) (λ _.
                  Keeps-bind I (h.lock (root / codes "pipeline.lock")) _ (g.lock _) (λ _.
                    Keeps-finally I _ _
                      (Keeps-with_object I state _ (
                        Keeps-try (OnWorld I) (campaign m f h root 6) _ (campaign-Keeps 6)
                          give_up-Keeps))
                      g.unlock)))))))
