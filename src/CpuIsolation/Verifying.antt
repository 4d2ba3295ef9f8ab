-- ===== src/CpuIsolation/Verifying.antt =====
-- What `verify` keeps: any property that reads of the report only whether it is active.
use rs_camera.Prelude.{◌≡◌, Option, none, some, List, [], ◌∷◌}
use rs_camera.Text.{Str}
use rs_camera.Machine.{Machine, FilePath}
use rs_camera.CpuIsolation.Keeps.{Keeps, keeps_rules}
use rs_camera.CpuIsolation.Verify.{verify_irqs, verify_active, verify_at, save_output, verify}
use rs_camera.CpuIsolation.{CpuIsolationConfig, Isolation, Report, IrqRecord}

module _ {W : Type 0} (m : Machine W) (dumps : Report → Str) (config : CpuIsolationConfig)
    (P : Isolation → Type 0)
    -- `P` reads nothing of the report but its `active`.
    (report : (o : Isolation) (r : Report)
      → r.active ≡ (o.state).active
      → P o
      → P (record o { state = r })) where
  verify_irqs-Keeps :
      (housekeeping : Str) (done todo : List IrqRecord)
      → Keeps m dumps config P (verify_irqs m dumps config housekeeping done todo)
  unfolding verify_irqs
  verify_irqs-Keeps housekeeping done [] = search keeps_rules
  verify_irqs-Keeps housekeeping done (r ∷ rs) =
      search (keeps_rules, report, λ (d : List IrqRecord). verify_irqs-Keeps housekeeping d rs)
        depth 9

  output-Keeps :
      (output : Option FilePath) (text : Str)
      → Keeps m dumps config P (save_output m dumps config output text)
  output-Keeps none text = search keeps_rules
  output-Keeps (some path) text = search keeps_rules

  verify_active-Keeps :
      (cgroup : FilePath) (output : Option FilePath)
      → Keeps m dumps config P (verify_active m dumps config cgroup output)
  unfolding verify_active
  verify_active-Keeps cgroup output =
      search (keeps_rules, report, verify_irqs-Keeps, output-Keeps) depth 14

  at_path-Keeps :
      (path : Option FilePath) (output : Option FilePath)
      → Keeps m dumps config P (verify_at m dumps config path output)
  at_path-Keeps none output = search keeps_rules
  at_path-Keeps (some cgroup) output = verify_active-Keeps cgroup output

  pub verify-Keeps :
      (output : Option FilePath) → Keeps m dumps config P (verify m dumps config output)
  unfolding verify
  verify-Keeps output = search (keeps_rules, at_path-Keeps) depth 9
