-- ===== src/Reproduce/Stages.antt =====
-- The tables `STAGES`, `KERNELS` and `EXPERIMENTS`, without the descriptions.
use rs_camera.Prelude.{ℕ, Bool, true, false, Option, none, some, List, [], ◌∷◌, if◌then◌else◌}
use rs_camera.Text.{Str, codes, str_eq}

-- The keys of `KERNELS`.
pub data Mode : Type 0 where
  standard_hardirq5 standard_hardirq16 standard_threaded16 rt_threaded16 : Mode

unfoldable pub mode_name : Mode → Str
mode_name standard_hardirq5 = codes "standard-hardirq5"
mode_name standard_hardirq16 = codes "standard-hardirq16"
mode_name standard_threaded16 = codes "standard-threaded16"
mode_name rt_threaded16 = codes "rt-threaded16"

-- `KERNELS[mode]`
unfoldable pub kernel_of : Mode → Str × Bool
kernel_of standard_hardirq5 = (codes "6.12.96-rpi5-standard-btf+", false)
kernel_of standard_hardirq16 = (codes "6.12.96-rpi5-standard-btf-uvc16+", false)
kernel_of standard_threaded16 = (codes "6.12.96-rpi5-standard-btf-uvc16+", true)
kernel_of rt_threaded16 = (codes "6.12.96-rpi5-rt-btf-uvc16+", true)

pub record StageEntry : Type 0 where
  pub name : Str
  pub mode : Mode
  pub runs : ℕ

abbrev entry : Str → Mode → ℕ → StageEntry
entry name mode runs = record { name = name; mode = mode; runs = runs }

-- `STAGES`
unfoldable pub stages : List StageEntry
stages =
    entry (codes "startup") standard_hardirq16 20
    ∷ entry (codes "ablation") standard_threaded16 6
    ∷ entry (codes "e1") rt_threaded16 12
    ∷ entry (codes "e2-calibrate") rt_threaded16 2
    ∷ entry (codes "e2-urb5") standard_hardirq5 6
    ∷ entry (codes "e2-urb16") standard_hardirq16 6
    ∷ entry (codes "e3") standard_threaded16 18
    ∷ entry (codes "e4-calibrate") standard_threaded16 6
    ∷ entry (codes "e4-standard-hardirq") standard_hardirq16 24
    ∷ entry (codes "e4-standard-threaded") standard_threaded16 72
    ∷ entry (codes "e4-rt-threaded") rt_threaded16 96
    ∷ entry (codes "overhead") standard_hardirq16 18
    ∷ entry (codes "diagnosis") standard_hardirq16 1
    ∷ []

unfoldable pub find_stage : Str → List StageEntry → Option StageEntry
find_stage name [] = none
find_stage name (e ∷ es) = if str_eq name e.name then some e else find_stage name es

pub record Experiment : Type 0 where
  pub name : Str
  pub stages : List Str
  pub sections : List Str

-- `EXPERIMENTS`
unfoldable pub experiments : List Experiment
experiments =
    record {
      name = codes "e1_workers";
      stages = codes "startup" ∷ codes "ablation" ∷ codes "e1" ∷ [];
      sections = codes "startup" ∷ codes "ablation" ∷ codes "e1" ∷ [];
    }
    ∷ record {
      name = codes "e2_uvc_pool";
      stages = codes "e2-calibrate" ∷ codes "e2-urb5" ∷ codes "e2-urb16" ∷ codes "diagnosis" ∷ [];
      sections = codes "e2" ∷ codes "diagnosis" ∷ [];
    }
    ∷ record { name = codes "e3_kernel_path"; stages = codes "e3" ∷ []; sections = codes "e3" ∷ [] }
    ∷ record {
      name = codes "e4_scheduling";
      stages =
          codes "e4-calibrate"
          ∷ codes "e4-standard-hardirq"
          ∷ codes "e4-standard-threaded"
          ∷ codes "e4-rt-threaded"
          ∷ codes "overhead"
          ∷ [];
      sections = codes "e4" ∷ codes "overhead" ∷ [];
    }
    ∷ []
