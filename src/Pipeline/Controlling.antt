-- ===== src/Pipeline/Controlling.antt =====
-- What `control` has found and done when it returns.
use rs_camera.Prelude.{true, false, not, ◌≡◌, refl, sym, ap, ◌∙◌, none, ◌==◌, ==_iff}
use mathlib.Core.Bool.{false≢true}
use rs_camera.Prelude.Exec.{ok}
use rs_camera.Text.{codes}
use rs_camera.Pipeline.Service.{service, unit_path}
use rs_camera.Pipeline.Host.{queued, stopped}
use rs_camera.Prelude.{[], ◌∷◌}
use rs_camera.Pipeline.Owning.{
  IsOwn, IsIdle, Uninterrupted, from_not, available-IsIdle, is_ours-IsOwn,
  interrupted-Uninterrupted,
}
use rs_camera.Prelude.Post.{
  Returns, Returns-at, Returns-calling, Returns-lift, Returns-unless, Returns-if,
}
use rs_camera.Machine.{Machine, FilePath}
use rs_camera.Pipeline.Plan.{Records}
use rs_camera.Pipeline.Host.{Host, CampaignState}
use rs_camera.Pipeline.Checks.{require_pi, verify_sources, check_wired, restore_system}
use rs_camera.Pipeline.Service.{Controller, check_unit_available}
use rs_camera.Pipeline.Control.{
  Action, show_status, resume, stop, ControlEnd, shown, already_complete, reran_as_root, halted,
  resumed, is_completed, requeued, halted_state, status, is_ours, halt, interrupted, restart,
  on_campaign, when_complete, control_open, change_campaign, control,
}

module _ {W Config Protocol : Type 0} (m : Machine W) (f : Records W) (h : Host W Config Protocol)
    (x : Controller W) (root : FilePath) where
  -- The campaign that pipeline.json describes is not complete, the host is one that may run it, and the
  -- installed service is its own.
  pub record IsOpen (w v : W) (state : CampaignState) : Type 0 where
    pub state_read : h.load_state w ≡ ok state
    pub incomplete : is_completed state.status ≡ false
    pub on_pi : require_pi m f h root w ≡ (ok tt, v)
    pub as_root : h.geteuid ≡ 0
    pub there : m.exists unit_path v ≡ true
    pub own : IsOwn m x root v

  pub record IsHalted (w t : W) : Type 0 where
    pub state : CampaignState
    pub checked : W
    pub opened : IsOpen w checked state
    pub ended : W
    pub disabled :
        h.call none (codes "systemctl" ∷ codes "disable" ∷ codes "--now" ∷ service ∷ []) checked
        ≡ (ok tt, ended)
    -- pipeline.json as it is when the service no longer runs.
    pub latest : CampaignState
    pub read_again : h.load_state ended ≡ ok latest
    pub later : W
    pub restored : restore_system m f h root ended ≡ (ok tt, later)
    pub saved : h.save_state (record latest { status = stopped }) later ≡ (ok tt, t)

  pub record IsResumed (w t : W) : Type 0 where
    pub state : CampaignState
    pub checked : W
    pub opened : IsOpen w checked state
    pub idle_at : W
    pub idle : IsIdle m x root checked idle_at
    pub uninterrupted : Uninterrupted m f h x root state.active_stage idle_at
    pub verified_at : W
    pub verified : verify_sources m f h root idle_at ≡ (ok tt, verified_at)
    pub wired_at : W
    pub wired : check_wired m f h root 0 verified_at ≡ (ok tt, wired_at)
    pub saved_at : W
    pub saved :
        h.save_state (record state { status = queued; pending_boot = none }) wired_at
        ≡ (ok tt, saved_at)
    pub enabled_at : W
    pub enabled :
        h.call none (codes "systemctl" ∷ codes "enable" ∷ service ∷ []) saved_at
        ≡ (ok tt, enabled_at)
    pub started :
        h.call none
          (codes "systemctl" ∷ codes "start" ∷ codes "--no-block" ∷ service ∷ [])
          enabled_at
        ≡ (ok tt, t)

  abbrev pub IsEnd : Action → W → ControlEnd → W → Type 0
  IsEnd action w (shown done) t =
      (action ≡ show_status) × (t ≡ w) × (status m f h x root w ≡ ok done)
  IsEnd action w already_complete t =
      (action ≡ stop)
      × (t ≡ w)
      × ((state : CampaignState) × (h.load_state w ≡ ok state) × (is_completed state.status ≡ true))
  IsEnd action w reran_as_root t = ¬ (h.geteuid ≡ 0)
  IsEnd action w halted t = (action ≡ stop) × IsHalted w t
  IsEnd action w resumed t = (action ≡ resume) × IsResumed w t

  halt-IsEnd :
      (w : W) (state : CampaignState) (v : W)
      → IsOpen w v state
      → Returns (IsEnd stop w) (halt m f h x root v)
  unfolding halt
  halt-IsEnd w state v o = Returns-calling (IsEnd stop w) (h.call none _) _ v (λ _ s1 disabled.
      Returns-lift (IsEnd stop w) (h.load_state s1) _ s1 (λ latest read_again.
        Returns-calling (IsEnd stop w) (restore_system m f h root) _ s1 (λ _ s2 restored.
          Returns-calling (IsEnd stop w) (h.save_state (halted_state latest)) _ s2 (λ _ s3 saved. (
            refl,
            record {
              state = state;
              checked = v;
              opened = o;
              ended = s1;
              disabled = disabled;
              latest = latest;
              read_again = read_again;
              later = s2;
              restored = restored;
              saved = saved;
            },
          )))))

  restart-IsEnd :
      (w : W) (state : CampaignState) (v : W)
      → IsOpen w v state
      → Returns (IsEnd resume w) (restart m f h x root state v)
  unfolding restart
  restart-IsEnd w state v o =
      Returns-calling (IsEnd resume w) (check_unit_available m x root true) _ v (λ _ s1 available.
        Returns-lift (IsEnd resume w) (interrupted m f h x root state.active_stage s1) _ s1
          (λ lost known. Returns-unless (IsEnd resume w) lost _ _ s1 (λ kept.
            Returns-calling (IsEnd resume w) (verify_sources m f h root) _ s1 (λ _ s2 verified.
              Returns-calling (IsEnd resume w) (check_wired m f h root 0) _ s2 (λ _ s3 wired.
                Returns-calling (IsEnd resume w) (h.save_state (requeued state)) _ s3 (λ _ s4 saved.
                  Returns-calling (IsEnd resume w) (h.call none _) _ s4 (λ _ s5 enabled.
                    Returns-calling (IsEnd resume w) (h.call none _) _ s5 (λ _ s6 started. (
                      refl,
                      record {
                        state = state;
                        checked = v;
                        opened = o;
                        idle_at = s1;
                        idle =
                            Returns-at (λ _ t. IsIdle m x root v t) _ available
                              (available-IsIdle m x root v o.there);
                        uninterrupted =
                            interrupted-Uninterrupted m f h x root state.active_stage s1
                              (known ∙ ap ok kept);
                        verified_at = s2;
                        verified = verified;
                        wired_at = s3;
                        wired = wired;
                        saved_at = s4;
                        saved = saved;
                        enabled_at = s5;
                        enabled = enabled;
                        started = started;
                      },
                    )))))))))

  acted :
      (action : Action) (w : W) (state : CampaignState) (s : W)
      → ¬ (action ≡ show_status)
      → IsOpen w s state
      → Returns (IsEnd action w) (on_campaign m f h x root action state s)
  acted show_status w state s k o = absurd (k refl)
  acted resume w state s k o = restart-IsEnd w state s o
  acted stop w state s k o = halt-IsEnd w state s o

  opened-IsEnd :
      (action : Action) (w : W) (state : CampaignState)
      → ¬ (action ≡ show_status)
      → h.load_state w ≡ ok state
      → is_completed state.status ≡ false
      → Returns (IsEnd action w) (control_open m f h x root action state w)
  unfolding control_open
  opened-IsEnd action w state k read incomplete =
      Returns-calling (IsEnd action w) (require_pi m f h root) _ w (λ _ v on_pi.
        Returns-if (IsEnd action w) (not (h.geteuid == 0)) _ _ v
          (λ other.
            Returns-calling (IsEnd action w) (h.call none _) _ v
              (λ _ _ _ e. false≢true (sym (ap not ((==_iff h.geteuid 0).1 e)) ∙ other)))
          (λ privileged. Returns-lift (IsEnd action w) (is_ours m f h x root v) _ v (λ ours known.
            Returns-unless (IsEnd action w) (not ours) _ _ v (λ mine.
              let (there, own) =
                is_ours-IsOwn m f h x root v (known ∙ ap ok (from_not ours mine)) in
              acted action w state v k (record {
                state_read = read;
                incomplete = incomplete;
                on_pi = on_pi;
                as_root = (==_iff h.geteuid 0).0 (from_not (h.geteuid == 0) privileged);
                there = there;
                own = own;
              })))))

  complete-IsEnd :
      (action : Action) (w : W) (state : CampaignState)
      → ¬ (action ≡ show_status)
      → h.load_state w ≡ ok state
      → is_completed state.status ≡ true
      → Returns (IsEnd action w) (when_complete m f h x root action w)
  complete-IsEnd show_status w state k read done = absurd (k refl)
  complete-IsEnd resume w state k read done = tt
  complete-IsEnd stop w state k read done = (refl, refl, (state, read, done))

  change-IsEnd :
      (action : Action) (w : W)
      → ¬ (action ≡ show_status)
      → Returns (IsEnd action w) (change_campaign m f h x root action w)
  unfolding change_campaign
  change-IsEnd action w k = Returns-lift (IsEnd action w) (x.is_full w) _ w (λ full _.
      Returns-unless (IsEnd action w) (not full) _ _ w (λ _.
        Returns-lift (IsEnd action w) (h.load_state w) _ w (λ state read.
          Returns-if (IsEnd action w) (is_completed state.status) _ _ w
            (complete-IsEnd action w state k read) (opened-IsEnd action w state k read))))

  -- Whatever `control` returns: what `status` shows was read and nothing was changed; a complete campaign is
  -- only named; otherwise the campaign was open, on the right host, as root, and the installed service its own.
  -- Then `stop` has disabled the service, read pipeline.json again, restored the system and saved what it
  -- read as stopped, in this order; and `resume` has found the service in none of its active states and a marker
  -- for the active stage, if there was one, has found the sources as they were and the wires right, has saved
  -- that the campaign is queued with no boot pending, and has enabled and started the service, in this order.
  pub control-IsEnd :
      (action : Action) (w : W) → Returns (IsEnd action w) (control m f h x root action w)
  unfolding control
  control-IsEnd show_status w =
      Returns-lift (IsEnd show_status w) (status m f h x root w) _ w (λ done e. (refl, refl, e))
  control-IsEnd resume w = change-IsEnd resume w (λ e. cc e)
  control-IsEnd stop w = change-IsEnd stop w (λ e. cc e)
