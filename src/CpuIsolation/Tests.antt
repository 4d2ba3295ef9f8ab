-- ===== src/CpuIsolation/Tests.antt =====
-- The theorems on `CpuIsolation` on a small host.
use rs_camera.Prelude.{true, false, ◌≡◌, refl, some, [], ◌∷◌}
use rs_camera.Prelude.Exec.{ok}
use rs_camera.Machine.{write, privileged, path_text}
use rs_camera.Machine.Sample.{Files, sample, find, run_sample}
use rs_camera.Text.{Str, codes, show, str_eq, join}
use rs_camera.CpuIsolation.{
  CpuIsolationConfig, Isolation, Report, new, collect, restore_irqs, restore, has_work,
}
use rs_camera.CpuIsolation.Prepare.{prepare}
use rs_camera.CpuIsolation.Leftover.{IsConsistent}
use rs_camera.CpuIsolation.Restoring.{Restored, restore-Restored}
use rs_camera.CpuIsolation.Preparing.{IsIdle, Prepared, prepare-Prepared}

abbrev config : CpuIsolationConfig
config = record {
  enabled = true;
  housekeeping_cpus = codes "0";
  benchmark_cpus = codes "1-3";
  use_sudo = false;
  cgroup_root = codes "cgroup" ∷ [];
  cpu_online_path = codes "online" ∷ [];
  proc_root = codes "proc" ∷ [];
  usb_sysfs_base = codes "usb" ∷ [];
}

abbrev dumps : Report → Str
dumps report = codes "{}"

abbrev files : Files
files =
    (codes "/cgroup/cgroup.controllers", codes "cpuset cpu")
    ∷ (codes "/online", codes "0-3")
    ∷ (codes "/proc/irq/45/smp_affinity_list", codes "0")
    ∷ []

-- In the middle of a campaign: one interrupt was moved, the cgroup exists, the process is in it.
abbrev running : Isolation
running = record (new config) {
  active = true;
  cgroup_created = true;
  process_moved = true;
  cgroup_path = some (codes "cgroup" ∷ codes "rs-camera-benchmark-42" ∷ []);
  original_irq_affinities = (45, codes "0-3") ∷ [];
  state = record ((new config).state) { active = true };
}

running-IsConsistent : IsConsistent running
unfolding new
running-IsConsistent = record { created_has_path = λ _. refl; reported = refl }

-- The interrupt gets its affinity back.
restore_irqs-files :
    let (r, (o, w)) = restore_irqs sample dumps config ((45, codes "0-3") ∷ []) (running, files) in
    (r ≡ ok []) × (find (codes "/proc/irq/45/smp_affinity_list") w ≡ some (codes "0-3\n"))
unfolding restore_irqs collect write run_sample show privileged find str_eq path_text join
restore_irqs-files = (refl, refl)

restore-Restored_example :
    Restored sample dumps config (restore sample dumps config (running, files))
restore-Restored_example = restore-Restored sample dumps config running files running-IsConsistent

new-IsIdle : IsIdle (new config)
unfolding new has_work
new-IsIdle = (record { created_has_path = λ e. cc e; reported = refl }, refl)

prepare-Prepared_example :
    Prepared sample dumps config
      (prepare sample dumps config (codes "out" ∷ []) (new config, files))
prepare-Prepared_example =
    prepare-Prepared sample dumps config (codes "out" ∷ []) (new config) files refl new-IsIdle
