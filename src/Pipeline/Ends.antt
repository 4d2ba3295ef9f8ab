-- ===== src/Pipeline/Ends.antt =====
-- The loop over the phases ends.
use rs_camera.Prelude.{ℕ, ◌<◌, Bool, false, ◌≡◌, some, List, ◌++◌, length}
use rs_camera.Prelude.Exec.{ok}
use rs_camera.Prelude.After.{After}
use rs_camera.Text.{Str}
use rs_camera.Machine.{Machine, FilePath}
use rs_camera.Pipeline.Plan.{Phase, Variant, Records, phases, boot_matches}
use rs_camera.Pipeline.Next.{AllDone, Next}
use rs_camera.Pipeline.Host.{Host, CampaignState}
use rs_camera.Pipeline.Worker.{LoopEnd, out_of_fuel, all_captured, reboot_requested, campaign_smoke}
use rs_camera.Pipeline.Rounds.{Persistent}

module _ {W Config Protocol : Type 0} (m : Machine W) (f : Records W) (h : Host W Config Protocol)
    (root : FilePath) (smoke : Bool) (persistent : Persistent m f h root smoke) where
  -- Everything is captured; or a boot into a kernel is asked for, is recorded, and is needed.
  abbrev pub Ended : Str → LoopEnd → CampaignState × W → Type 0
  Ended boot_id all_captured t = AllDone m f root t.1 (phases smoke)
  Ended boot_id reboot_requested t =
      (variant : Variant) × (threaded : Bool) × (cmdline : Str) × (t.0.pending_boot
        ≡ some (record { variant = variant; threaded = threaded; boot_id = boot_id }))
      × (h.cmdline ≡ ok cmdline)
      × (boot_matches variant threaded h.release cmdline ≡ false)
  Ended boot_id out_of_fuel t = ⊥

  -- The first phases of the campaign are done, and the others are fewer than the rounds left.
  record Ready (fuel : ℕ) (s : CampaignState × W) : Type 0 where
    done : List Phase
    left : List Phase
    cut : phases smoke ≡ done ++ left
    enough : length left < fuel
    kind : s.0.smoke ≡ smoke
    said : campaign_smoke m f h root s.1 ≡ ok smoke
    finished : AllDone m f root s.1 done
