-- ===== src/Pipeline/Captured.antt =====
-- When the loop over the phases ends because there is no phase left.
use rs_camera.Prelude.{ℕ, zero, suc, Bool, ◌≡◌, refl, inl, inr, Option, none, some, Bool-cases}
use rs_camera.Prelude.Exec.{ok}
use rs_camera.Prelude.Results.{Result-cases}
use rs_camera.Prelude.After.{After, After-any, After-bind, After-lift}
use rs_camera.Text.{Str}
use rs_camera.Machine.{Machine, FilePath}
use rs_camera.Pipeline.Plan.{Phase, Records, phases, boot_matches}
use rs_camera.Pipeline.Next.{AllDone, first_pending-Next}
use rs_camera.Pipeline.Host.{Host, CampaignState}
use rs_camera.Pipeline.Worker.{
  Method, LoopEnd, all_captured, campaign_smoke, next_phase, captures, request_boot, run_phase,
  campaign_loop,
}

module _ {W Config Protocol : Type 0} (m : Machine W) (f : Records W) (h : Host W Config Protocol)
    (root : FilePath) where
  -- Every stage of every phase of the campaign has a valid marker.
  abbrev pub IsCaptured : W → Type 0
  IsCaptured w =
      (smoke : Bool) × (campaign_smoke m f h root w ≡ ok smoke) × AllDone m f root w (phases smoke)

  next_phase-none : (w : W) → next_phase m f h root w ≡ ok none → IsCaptured w
  unfolding next_phase
  next_phase-none w e = elim (Result-cases (campaign_smoke m f h root w)) [
    | inl (smoke, said) ↦
        (smoke, said, first_pending-Next m f root w (phases smoke) none (rw said at e))
    | inr (x, failed) ↦ cc (rw failed at e)
  ]

  abbrev pub EndsWell : LoopEnd → CampaignState × W → Type 0
  EndsWell end t = end ≡ all_captured → IsCaptured t.1

  run_phase-EndsWell :
      (boot_id : Str) (rest : Method m f h root LoopEnd) (p : Option Phase) (s : CampaignState × W)
      → (p ≡ none → IsCaptured s.1)
      → ((t : CampaignState × W) → After EndsWell (λ _ _. Unit) (rest t))
      → After EndsWell (λ _ _. Unit) (run_phase m f h root boot_id rest p s)
  unfolding run_phase
  run_phase-EndsWell boot_id rest none s captured k = λ _. captured refl
  run_phase-EndsWell boot_id rest (some p) s captured k =
      After-lift EndsWell (λ _ _. Unit) h.cmdline _ s
        (λ cmdline _. elim (Bool-cases (boot_matches p.variant p.threaded h.release cmdline)) [
          | inl same ↦ rw same (
              After-bind EndsWell (λ _ _. Unit) (captures m f h root p.stages) _ s
                (After-any _ _ (captures m f h root p.stages s) (λ _ t. k t) (λ _ _. tt)))
          | inr other ↦ rw other (
              After-bind EndsWell (λ _ _. Unit)
                (request_boot m f h root p.variant p.threaded boot_id) _ s
                (After-any _ _ (request_boot m f h root p.variant p.threaded boot_id s)
                  (λ _ t e. cc e) (λ _ _. tt)))
        ])
        (λ _ _. tt)

  -- The analysis is reached only with a campaign that is captured: the loop ends with no phase left
  -- only if every stage of every phase has a valid marker.
  pub campaign_loop-captured :
      (fuel : ℕ) (boot_id : Str) (s : CampaignState × W)
      → After EndsWell (λ _ _. Unit) (campaign_loop m f h root fuel boot_id s)
  unfolding campaign_loop
  campaign_loop-captured zero boot_id s = λ e. cc e
  campaign_loop-captured (suc fuel) boot_id s =
      After-lift EndsWell (λ _ _. Unit) (next_phase m f h root s.1) _ s
        (λ p read.
          run_phase-EndsWell boot_id (campaign_loop m f h root fuel boot_id) p s
            (λ e. next_phase-none s.1 (rw e at read)) (campaign_loop-captured fuel boot_id))
        (λ _ _. tt)
