-- ===== src/SystemControls/Tests.antt =====
-- The theorems on `SystemControls` on a small host.
use rs_camera.Prelude.{ℕ, true, false, ◌≡◌, refl, Option, some, List, [], ◌∷◌, ◌++◌}
use rs_camera.Prelude.After.{After}
use rs_camera.Machine.{Clock}
use rs_camera.Machine.Sample.{Files, sample}
use rs_camera.Text.{Str, codes, str_eq, join}
use rs_camera.Text.Words.{starts_with, drop_prefix, split_lines}
use rs_camera.CpuIsolation.{CpuIsolationConfig, Report, new}
use rs_camera.CpuIsolation.Leftover.{IsConsistent, IsInactive}
use rs_camera.SystemControls.State.{
  SystemControlConfig, Controls, new_controls, cpu_frequency_state,
}
use rs_camera.SystemControls.KernelLog.{last_line, kernel_delta}
use rs_camera.SystemControls.Delta.{Delta, kernel_delta-append, kernel_delta-Delta}
use rs_camera.SystemControls.Usb.{PowerState}
use rs_camera.SystemControls.Campaign.{cleanup}
use rs_camera.SystemControls.Cleanup.{IsClean, IsAttempted, cleanup-IsClean}

abbrev before : Str
before = codes "a\nusb 1\n"

abbrev after : Str
after = codes "usb 1\nusb 2\nusb 3\n"

-- The line `a` has left the ring buffer; `usb 1` is still there.
kernel_delta-dropped : kernel_delta before after ≡ (codes "usb 2\nusb 3\n", [])
unfolding kernel_delta starts_with drop_prefix split_lines str_eq join
kernel_delta-dropped = refl

kernel_delta-append_example : kernel_delta before (before ++ after) ≡ (after, [])
kernel_delta-append_example = kernel_delta-append before after

after-IsChanged : starts_with before after ≡ false
unfolding starts_with
after-IsChanged = refl

kernel_delta-Delta_example :
    Delta (last_line (split_lines before)) after (kernel_delta before after)
kernel_delta-Delta_example = kernel_delta-Delta before after after-IsChanged

abbrev isolation : CpuIsolationConfig
isolation = record {
  enabled = true;
  housekeeping_cpus = codes "0";
  benchmark_cpus = codes "1-3";
  use_sudo = false;
  cgroup_root = codes "cgroup" ∷ [];
  cpu_online_path = codes "online" ∷ [];
  proc_root = codes "proc" ∷ [];
  usb_sysfs_base = codes "usb" ∷ [];
}

abbrev config : SystemControlConfig
config = record {
  use_sudo = false;
  cpu_frequency_mhz = some 2400;
  cpu_lock_script = codes "lock.sh" ∷ [];
  cpu_restore_script = codes "restore.sh" ∷ [];
  rsusb_backend = true;
  rsusb_usb_devices = codes "2-1" ∷ [];
  rsusb_helper = codes "rsusb.sh" ∷ [];
  rsusb_prepare_each_attempt = false;
  rsusb_prepare_timeout_ms = 10000;
  rsusb_unbind_settle_ms = 250;
  disable_realsense_autosuspend = false;
  usb_sysfs_base = codes "usb" ∷ [];
  python = codes "python3";
  tool_dir = codes "tools" ∷ [];
  isolation = isolation;
}

abbrev clock : Clock Files
clock = record { monotonic = λ w. 0; sleep = λ ms w. w }

abbrev dumps : Report → Str
dumps report = codes "{}"

abbrev power_dumps : Option ℕ → List PowerState → Str
power_dumps attempt devices = codes "{}"

-- In the middle of a campaign: the frequency is locked and the cameras are unbound.
abbrev busy : Controls
busy = record (new_controls config) {
  cpu_locked = true;
  cpu_restore_needed = true;
  cpu_original_state = some (cpu_frequency_state sample []);
  rsusb_unbound = true;
}

busy-IsConsistent : IsConsistent busy.isolation
unfolding new new_controls
busy-IsConsistent = record { created_has_path = λ e. cc e; reported = refl }

cleanup-IsClean_example :
    After {S = Controls × Files}
      (λ _ t.
        IsAttempted sample clock config dumps power_dumps true (busy, []) t
        × IsClean t.0
        × IsInactive t.0.isolation)
      (λ _ t.
        IsAttempted sample clock config dumps power_dumps false (busy, []) t
        × IsInactive t.0.isolation)
      (cleanup sample clock config dumps power_dumps (busy, []))
cleanup-IsClean_example =
    cleanup-IsClean sample clock config dumps power_dumps busy [] busy-IsConsistent
