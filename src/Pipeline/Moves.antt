-- ===== src/Pipeline/Moves.antt =====
-- The rounds of the worker's loop call only what is permitted.
use rs_camera.Prelude.{
  arith, ℕ, zero, suc, Bool, true, not, ◌≡◌, refl, inl, inr, Option, none, some, List, [], ◌∷◌,
  ◌++◌, ap, ◌∙◌,
}
use rs_camera.Prelude.Exec.{ok, Exec, ◌>>=◌, ◌>>◌, raise_if}
use rs_camera.Prelude.Objects.{on_world, change}
use rs_camera.Prelude.Results.{Result-cases}
use rs_camera.Prelude.Keeping.{
  Keeps, OnWorld, Keeps-pure, Keeps-raise_if, Keeps-reads, Keeps-test, Keeps-reading, Keeps-bind,
  Keeps-on_world, Keeps-change, keeping_rules,
}
use rs_camera.Prelude.Errors.{Error, value_error}
use rs_camera.Text.{Str, codes}
use rs_camera.Machine.{Machine, FilePath, ◌/◌}
use rs_camera.Pipeline.Plan.{Variant, Phase, Records, phases, boot_matches, complete}
use rs_camera.Pipeline.Next.{Pending, no_stage, a_done, an_open, IsNext, first_pending-Next}
use rs_camera.Pipeline.Host.{
  Host, Call, CampaignState, select_kernel, reboot, check_stage, run_stage, perform,
}
use rs_camera.Pipeline.Worker.{
  Method, do_call, save, check_complete, LoopEnd, all_captured, reboot_requested, out_of_fuel,
  campaign_smoke, next_phase, capture, captures, request_boot, run_phase, campaign_loop,
}
use rs_camera.Pipeline.Permitted.{Within, IsScheduled, Permitted, Guards}

Within-Pending :
    {W : Type 0} (m : Machine W) (f : Records W) (root : FilePath) (w : W) (stage : Str)
    (stages pending : List Str)
    → Pending m f root w stages pending
    → Within stage pending
    → Within stage stages
Within-Pending m f root w stage _ _ no_stage v = v
Within-Pending m f root w stage _ _ (a_done s stages rest d p) v =
    inr (Within-Pending m f root w stage stages rest p v)
Within-Pending m f root w stage _ _ (an_open s stages rest o p) (inl e) = inl e
Within-Pending m f root w stage _ _ (an_open s stages rest o p) (inr v) =
    inr (Within-Pending m f root w stage stages rest p v)

module _ {W Config Protocol : Type 0} (m : Machine W) (f : Records W) (h : Host W Config Protocol)
    (root : FilePath) where
  -- A phase that `next_phase` returns, from the phases of the campaign.
  abbrev pub IsPicked : Phase → Type 0
  IsPicked p = (smoke : Bool) × (w : W) × IsNext m f root w (phases smoke) p

  pub next_phase-IsPicked : (w : W) (p : Phase) → next_phase m f h root w ≡ ok (some p) → IsPicked p
  unfolding next_phase
  next_phase-IsPicked w p e = elim (Result-cases (campaign_smoke m f h root w)) [
    | inl (smoke, said) ↦
        (smoke, w, first_pending-Next m f root w (phases smoke) (some p) (rw said at e))
    | inr (x, failed) ↦ cc (rw failed at e)
  ]

  pub stage-IsScheduled :
      (p : Phase) (stage cmdline : Str)
      → IsPicked p
      → h.cmdline ≡ ok cmdline
      → boot_matches p.variant p.threaded h.release cmdline ≡ true
      → Within stage p.stages
      → IsScheduled h stage
  stage-IsScheduled p stage cmdline (smoke, w, n) read same v = record {
    smoke = smoke;
    earlier = n.earlier;
    here = n.here;
    later = n.later;
    cut = n.cut;
    within = Within-Pending m f root w stage n.here.stages p.stages n.pending v;
    cmdline = cmdline;
    booted = read;
    matches = rw (← n.variant, ← n.threaded) same;
  }

  module _ (I : W → Type 0) (g : Guards h root (Permitted h) I) where
    -- The methods of the worker keep `I` of their world.
    abbrev pub Safe : {A : Type 0} → Method m f h root A → Type 0
    Safe action = Keeps (OnWorld I) action

    pub step :
        {A B : Type 0} (action : Method m f h root A) (k : A → Method m f h root B)
        → Safe action
        → ((a : A) → Safe (k a))
        → Safe (action >>= k)
    step = Keeps-bind (OnWorld I)

    pub host : {A : Type 0} (action : Exec Error W A) → Keeps I action → Safe (on_world action)
    host = Keeps-on_world I

    pub called : (c : Call) → Permitted h c → Safe (do_call m f h root c)
    called c p = Keeps-on_world I (perform h root c) (g.calls c p)

    pub save-Keeps : Safe (save m f h root)
    save-Keeps = search (keeping_rules, g.save_state) depth 6

    -- An update that is saved.
    pub saved :
        {A : Type 0} (update : CampaignState → CampaignState) (next : Method m f h root A)
        → Safe next
        → Safe (change update >> (save m f h root >> next))
    saved update next k =
        step (change update) _ (Keeps-change I update)
          (λ _. step (save m f h root) _ save-Keeps (λ _. k))

    capture-Keeps : (stage : Str) → IsScheduled h stage → Safe (capture m f h root stage)
    unfolding capture
    capture-Keeps stage scheduled =
        step (do_call m f h root (check_stage stage)) _ (called (check_stage stage) tt) (λ _.
          step (on_world (h.make_dir (root / codes "environment"))) _ (host _ (g.make_dir _)) (λ _.
            step (on_world (λ w. (h.load_prepared w, w))) _ (host _ (Keeps-reads I _)) (λ prepared.
              step
                (on_world (
                  h.save_prepared (root / codes "environment" / (stage ++ codes "-prepared.json"))
                    prepared))
                _ (host _ (g.save_prepared _ prepared))
                (λ _.
                  saved (λ o. record o { active_stage = some stage }) _
                    (step (do_call m f h root (run_stage stage)) _
                      (called (run_stage stage) scheduled) (λ _. captured))))))
      where
        captured : Safe (
            on_world (check_complete m f h root stage) >>= λ done.
            raise_if (not done) (value_error (codes "No valid completion marker for " ++ stage))
            >> (change (λ o. record o { active_stage = none }) >> save m f h root))
        captured =
            step (on_world (check_complete m f h root stage)) _
              (host _ (Keeps-reads I (complete m f root stage)))
              (λ done.
                step (raise_if (not done) _) _ (Keeps-raise_if (OnWorld I) (not done) _) (λ _.
                  step (change (λ o. record o { active_stage = none })) _ (Keeps-change I _)
                    (λ _. save-Keeps)))

    pub captures-Keeps :
        (stages : List Str)
        → ((stage : Str) → Within stage stages → IsScheduled h stage)
        → Safe (captures m f h root stages)
    unfolding captures
    captures-Keeps [] scheduled = Keeps-pure (OnWorld I) tt
    captures-Keeps (stage ∷ stages) scheduled =
        step (capture m f h root stage) _ (capture-Keeps stage (scheduled stage (inl refl)))
          (λ _. captures-Keeps stages (λ s v. scheduled s (inr v)))

    request_boot-Keeps :
        (variant : Variant) (threaded : Bool) (boot_id : Str)
        → Permitted h (select_kernel variant threaded)
        → Safe (request_boot m f h root variant threaded boot_id)
    unfolding request_boot
    request_boot-Keeps variant threaded boot_id p =
        step (do_call m f h root (select_kernel variant threaded)) _
          (called (select_kernel variant threaded) p)
          (λ _. saved _ _ (step (on_world h.sync) _ (host h.sync g.sync) (λ _. called reboot tt)))

    run_phase-Keeps :
        (boot_id : Str) (rest : Method m f h root LoopEnd) (p : Option Phase)
        → Safe rest
        → ((q : Phase) → p ≡ some q → IsPicked q)
        → Safe (run_phase m f h root boot_id rest p)
    unfolding run_phase
    run_phase-Keeps boot_id rest none k picked = Keeps-pure (OnWorld I) all_captured
    run_phase-Keeps boot_id rest (some p) k picked =
        Keeps-reading (OnWorld I) (λ _. h.cmdline) _
          (λ _ cmdline read.
            Keeps-test (OnWorld I) (not (boot_matches p.variant p.threaded h.release cmdline)) _ _
              (λ other.
                step (request_boot m f h root p.variant p.threaded boot_id) _
                  (request_boot-Keeps p.variant p.threaded boot_id (cmdline, read, ground arith))
                  (λ _. Keeps-pure (OnWorld I) reboot_requested))
              (λ same.
                step (captures m f h root p.stages) _
                  (captures-Keeps p.stages (λ stage v.
                    stage-IsScheduled p stage cmdline (picked p refl) read (ground arith) v))
                  (λ _. k)))

    pub campaign_loop-Keeps :
        (fuel : ℕ) (boot_id : Str) → Safe (campaign_loop m f h root fuel boot_id)
    unfolding campaign_loop
    campaign_loop-Keeps zero boot_id = Keeps-pure (OnWorld I) out_of_fuel
    campaign_loop-Keeps (suc fuel) boot_id =
        Keeps-reading (OnWorld I) (λ s. next_phase m f h root s.1) _
          (λ s p read.
            run_phase-Keeps boot_id (campaign_loop m f h root fuel boot_id) p
              (campaign_loop-Keeps fuel boot_id)
              (λ q e. next_phase-IsPicked s.1 q (read ∙ ap ok e)))
