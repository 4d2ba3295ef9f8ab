-- ===== src/Pipeline/Refusals.antt =====
-- When a boot must not go on: an interrupted stage, and a kernel that did not come up.
use rs_camera.Prelude.{
  ℕ, true, false, not, ◌≡◌, ◌≢◌, refl, ◌⊎◌, inl, inr, Option, none, some, Bool-cases, arith, ap,
  ◌∙◌, sym, subst,
}
use rs_camera.Prelude.Exec.{is_ok, ok-injective, ok, ◌>>=◌, lift}
use rs_camera.Prelude.Objects.{on_world}
use rs_camera.Prelude.After.{After, After-map, After-bind, After-lift, After-raise_if}
use rs_camera.Prelude.Keeping.{OnWorld, on_world-After}
use rs_camera.Text.{Str, str_eq, str_eq_iff}
use rs_camera.Machine.{Machine, FilePath}
use rs_camera.Pipeline.Plan.{Records, boot_matches, complete}
use rs_camera.Pipeline.Host.{Host, CampaignState, PendingBoot}
use rs_camera.Pipeline.Checks.{verify_sources, check_wired}
use rs_camera.Pipeline.Worker.{Method, check_interrupted, check_boot, campaign}
use rs_camera.Pipeline.Permitted.{Waiting, verify_sources-Keeps, check_wired-Keeps}

module _ {W Config Protocol : Type 0} (m : Machine W) (f : Records W) (h : Host W Config Protocol)
    (root : FilePath) (I : W → Type 0) where
  -- A stage had been started, and has no valid marker.
  abbrev pub WasInterrupted : CampaignState → Type 0
  WasInterrupted o =
      (stage : Str) × (o.active_stage ≡ some stage)
      × ((w : W) → I w → complete m f root stage w ≢ ok true)

  -- The boot that was asked for did not happen, or brought up another kernel.
  abbrev pub BootFailed : CampaignState → Type 0
  BootFailed o =
      (p : PendingBoot) × (o.pending_boot ≡ some p)
      × ((h.boot_id ≡ ok p.boot_id)
          ⊎ ((cmdline : Str) × (h.cmdline ≡ ok cmdline)
              × (boot_matches p.variant p.threaded h.release cmdline ≡ false)))

  check_interrupted-raises :
      (stage : Str) (w : W)
      → ((w : W) → I w → complete m f root stage w ≢ ok true)
      → I w
      → After (λ _ _. ⊥) (λ _ t. I t) (check_interrupted m f h root (some stage) w)
  unfolding check_interrupted
  check_interrupted-raises stage w never i =
      After-lift (λ _ _. ⊥) (λ _ t. I t) (complete m f root stage w) _ w
        (λ done e.
          After-raise_if (λ _ _. ⊥) (λ _ t. I t) (not done) _ w (λ _. i)
            (λ valid. absurd (never w i (e ∙ ap ok (ground arith)))))
        (λ _ _. i)

  check_boot-fails :
      (p : PendingBoot) (boot_id : Str)
      → h.boot_id ≡ ok boot_id
      → ((h.boot_id ≡ ok p.boot_id)
          ⊎ ((cmdline : Str) × (h.cmdline ≡ ok cmdline)
              × (boot_matches p.variant p.threaded h.release cmdline ≡ false)))
      → is_ok (check_boot m f h root (some p) boot_id) ≡ false
  unfolding check_boot
  check_boot-fails p boot_id read (inl same) =
      let e : p.boot_id ≡ boot_id = ok-injective (sym same ∙ read) in
      let t : str_eq p.boot_id boot_id ≡ true = (str_eq_iff p.boot_id boot_id).1 e in rw t refl
  check_boot-fails p boot_id read (inr (cmdline, booted, other)) =
      elim (Bool-cases (str_eq p.boot_id boot_id)) [
        | inl same ↦ rw same refl
        | inr fresh ↦ rw (fresh, booted, other) refl
      ]

  check_interrupted-kept :
      (stage : Option Str) (w : W)
      → I w
      → After (λ _ t. I t) (λ _ t. I t) (check_interrupted m f h root stage w)
  unfolding check_interrupted
  check_interrupted-kept none w i = i
  check_interrupted-kept (some stage) w i =
      After-lift _ _ (complete m f root stage w) _ w
        (λ done _. After-raise_if _ _ (not done) _ w (λ _. i) (λ _. i)) (λ _ _. i)

  -- The guards of the `try` block, before whatever follows them.
  refused_rest :
      (o : CampaignState) (w : W) (k : Str → Unit {0} → Method m f h root (Unit {0}))
      → WasInterrupted o ⊎ BootFailed o
      → I w
      → After
          (λ _ _. ⊥)
          (λ _ t. I t.1)
          ((on_world (check_interrupted m f h root o.active_stage) >>= λ _.
              lift h.boot_id >>= λ boot_id.
              lift (check_boot m f h root o.pending_boot boot_id) >>= k boot_id)
            (o, w))
  refused_rest o w k (inl (stage, e, never)) i =
      After-bind _ _ (on_world (check_interrupted m f h root o.active_stage)) _ (o, w)
        (After-map (λ _ t. (t.0 ≡ o) × ⊥) _ (λ _ t. I t.1) _ _
          (on_world-After (λ _ _. ⊥) (λ _ t. I t) (check_interrupted m f h root o.active_stage) o w
            (rw e (check_interrupted-raises stage w never i)))
          (λ _ _ p. absurd p.1) (λ _ _ p. p))
  refused_rest o w k (inr (p, e, why)) i =
      After-bind _ _ (on_world (check_interrupted m f h root o.active_stage)) _ (o, w)
        (After-map (λ _ t. (t.0 ≡ o) × I t.1) _ (λ _ t. I t.1) _ _
          (on_world-After _ _ (check_interrupted m f h root o.active_stage) o w
            (check_interrupted-kept o.active_stage w i))
          (λ _ s q.
            After-lift _ _ h.boot_id _ s
              (λ boot_id read.
                After-lift _ _ (check_boot m f h root o.pending_boot boot_id) _ s
                  (λ _ passed.
                    let failed : is_ok (check_boot m f h root (some p) boot_id) ≡ false =
                      check_boot-fails p boot_id read why in
                    let ends : is_ok (check_boot m f h root (some p) boot_id) ≡ true =
                      ap is_ok (rw e at passed) in
                    cc (failed, ends))
                  (λ _ _. q.1))
              (λ _ _. q.1))
          (λ _ _ q. q))

  -- With a stage that was started and has no valid marker, or with a boot that was asked for and failed, the
  -- worker's `try` block raises before it has called or written anything: what the look at the route and the
  -- time slept keep is kept. In particular it does not reboot again.
  pub campaign-refuses :
      (q : Waiting h I) (fuel : ℕ) (o : CampaignState) (w : W)
      → WasInterrupted o ⊎ BootFailed o
      → I w
      → After (λ _ _. ⊥) (λ _ t. OnWorld I t) (campaign m f h root fuel (o, w))
  unfolding campaign
  campaign-refuses q fuel o w refused i =
      After-bind _ _ (on_world (verify_sources m f h root)) _ (o, w)
        (After-map (λ _ t. (t.0 ≡ o) × I t.1) _ (λ _ t. I t.1) _ _
          (on_world-After _ _ (verify_sources m f h root) o w
            ((verify_sources-Keeps m f h root I q).at w i))
          (λ _ (o1, w1) (e1, i1).
            After-bind _ _ (on_world (check_wired m f h root 60)) _ (o1, w1)
              (After-map (λ _ t. (t.0 ≡ o1) × I t.1) _ (λ _ t. I t.1) _ _
                (on_world-After _ _ (check_wired m f h root 60) o1 w1
                  ((check_wired-Keeps m f h root I q 60).at w1 i1))
                (λ _ (o2, w2) (e2, i2).
                  refused_rest o2 w2 _
                    (subst (λ x. WasInterrupted x ⊎ BootFailed x) (sym (e2 ∙ e1)) refused) i2)
                (λ _ _ p. p)))
          (λ _ _ p. p))
