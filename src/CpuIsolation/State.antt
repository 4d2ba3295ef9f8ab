-- ===== src/CpuIsolation/State.antt =====
-- The state of `CpuIsolation` (tools/realsense_bench_common/cpu_isolation.py).
use rs_camera.Prelude.{ℕ, Bool, false, ◌||◌, not, Option, none, List, [], ◌∷◌, is_empty}
use rs_camera.Prelude.Exec.{Result, ok, err}
use rs_camera.Prelude.Errors.{Error, value_error}
use rs_camera.Text.{Str, codes}
use rs_camera.Machine.{FilePath}
use rs_camera.CpuList.{
  CpuListError, empty_element, invalid_range, descending_range, invalid_number, parse_cpu_list,
}
use mathlib.Core.List.{◌++◌}

pub record CpuIsolationConfig : Type 0 where
  pub enabled : Bool
  pub housekeeping_cpus : Str
  pub benchmark_cpus : Str
  pub use_sudo : Bool
  pub cgroup_root : FilePath
  pub cpu_online_path : FilePath
  pub proc_root : FilePath
  pub usb_sysfs_base : FilePath

-- The dict that `_irq_thread_state` returns.
pub record ThreadState : Type 0 where
  pub pid : ℕ
  pub name : Str
  pub policy : Str
  pub priority : Option ℕ
  pub affinity : Str

-- The dicts of `discover_camera_xhci_irqs`; the last three keys are added by `prepare` and `verify`.
pub record IrqRecord : Type 0 where
  pub irq : ℕ
  pub action : Str
  pub controller : FilePath
  pub usb_devices : List Str
  pub original_affinity : Option Str
  pub effective_affinity : Option Str
  pub thread : Option ThreadState

-- The four texts that `verify` reads.
pub record Effective : Type 0 where
  pub root_effective_cpus : Str
  pub benchmark_effective_cpus : Str
  pub isolated_cpus : Str
  pub process_affinity : Str

-- `_state`; `effective` and the paths are there once `prepare` has set them.
pub record Report : Type 0 where
  pub enabled : Bool
  pub active : Bool
  pub cgroup : Option FilePath
  pub original_cgroup : Option FilePath
  pub housekeeping_cpus : Str
  pub benchmark_cpus : Str
  pub effective : Option Effective
  pub xhci_irqs : List IrqRecord
  pub verified : Option Bool

-- The attributes of the object.
pub record Isolation : Type 0 where
  pub active : Bool
  pub controller_enabled_by_us : Bool
  pub cgroup_created : Bool
  pub process_moved : Bool
  pub cgroup_path : Option FilePath
  pub original_cgroup_path : Option FilePath
  pub original_irq_affinities : List (ℕ × Str)
  pub state : Report

-- `__init__`
unfoldable pub new : CpuIsolationConfig → Isolation
new config = record {
  active = false;
  controller_enabled_by_us = false;
  cgroup_created = false;
  process_moved = false;
  cgroup_path = none;
  original_cgroup_path = none;
  original_irq_affinities = [];
  state = record {
    enabled = config.enabled;
    active = false;
    cgroup = none;
    original_cgroup = none;
    housekeeping_cpus = config.housekeeping_cpus;
    benchmark_cpus = config.benchmark_cpus;
    effective = none;
    xhci_irqs = [];
    verified = none;
  };
}

-- The guard at the head of `restore`.
unfoldable pub has_work : Isolation → Bool
has_work o =
    o.active
    || (o.controller_enabled_by_us
        || (o.cgroup_created || (o.process_moved || not (is_empty o.original_irq_affinities))))

-- `repr` of text without quotes and escapes.
abbrev pub quoted : Str → Str
quoted s = 39 ∷ s ++ 39 ∷ []

-- The messages of the `ValueError`s.
unfoldable pub cpu_list_message : CpuListError → Error
cpu_list_message (empty_element value) =
    value_error (codes "invalid empty CPU-list element in " ++ quoted value)
cpu_list_message (invalid_range token) = value_error (codes "invalid CPU range " ++ quoted token)
cpu_list_message (descending_range token) =
    value_error (codes "descending CPU range " ++ quoted token)
cpu_list_message (invalid_number token) = value_error (codes "invalid CPU number " ++ quoted token)

unfoldable pub raise_cpu_list : Result CpuListError (List ℕ) → Result Error (List ℕ)
raise_cpu_list (ok cpus) = ok cpus
raise_cpu_list (err e) = err (cpu_list_message e)

-- `parse_cpu_list`, with its errors as exceptions.
abbrev pub parse : Str → Result Error (List ℕ)
parse value = raise_cpu_list (parse_cpu_list value)
