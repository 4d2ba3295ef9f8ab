-- ===== src/SystemControls/State.antt =====
-- The configuration and the attributes of `SystemControls`
-- (tools/realsense_bench_common/system_controls.py), and what it reads of the CPU frequencies.
use rs_camera.Prelude.{
  ℕ, ◌*◌, Bool, false, ◌&&◌, Option, none, some, List, [], ◌∷◌, ◌++◌, is_empty, if◌then◌else◌,
}
use rs_camera.Text.{Str, codes, show, str_eq}
use rs_camera.Text.Words.{starts_with, sorted}
use rs_camera.Machine.{Machine, FilePath, ◌/◌, path_text}
use rs_camera.RealsenseDevices.{read_optional_text}
use rs_camera.CpuIsolation.{CpuIsolationConfig, Isolation, new}

-- Times in milliseconds. The paths that the source has as constants are fields, the configuration of
-- the isolation is the one that `__init__` builds.
pub record SystemControlConfig : Type 0 where
  pub use_sudo : Bool
  pub cpu_frequency_mhz : Option ℕ
  pub cpu_lock_script : FilePath
  pub cpu_restore_script : FilePath
  pub rsusb_backend : Bool
  pub rsusb_usb_devices : List Str
  pub rsusb_helper : FilePath
  pub rsusb_prepare_each_attempt : Bool
  pub rsusb_prepare_timeout_ms : ℕ
  pub rsusb_unbind_settle_ms : ℕ
  pub disable_realsense_autosuspend : Bool
  pub usb_sysfs_base : FilePath
  pub python : Str
  pub tool_dir : FilePath
  pub isolation : CpuIsolationConfig

abbrev pub cpufreq_base : FilePath
cpufreq_base = codes "sys" ∷ codes "devices" ∷ codes "system" ∷ codes "cpu" ∷ codes "cpufreq" ∷ []

abbrev pub no_turbo_path : FilePath
no_turbo_path =
    codes "sys"
    ∷ codes "devices"
    ∷ codes "system"
    ∷ codes "cpu"
    ∷ codes "intel_pstate"
    ∷ codes "no_turbo"
    ∷ []

abbrev pub thermal_zone0 : FilePath
thermal_zone0 =
    codes "sys" ∷ codes "class" ∷ codes "thermal" ∷ codes "thermal_zone0" ∷ codes "temp" ∷ []

pub record Policy : Type 0 where
  pub name : Str
  pub path : FilePath
  pub driver : Str
  pub affected_cpus : Str
  pub governor : Str
  pub scaling_min_khz : Str
  pub scaling_max_khz : Str
  pub scaling_current_khz : Str

-- `locked_mhz` holds the three keys that are added once the frequency is locked.
pub record CpuState : Type 0 where
  pub policies : List Policy
  pub boost : Str
  pub intel_pstate_no_turbo : Str
  pub temperature_millic : Str
  pub locked_mhz : Option ℕ

-- The attributes of the object.
pub record Controls : Type 0 where
  pub cpu_locked : Bool
  pub cpu_restore_needed : Bool
  pub cpu_original_state : Option CpuState
  pub rsusb_unbound : Bool
  pub isolation : Isolation

-- `__init__`
unfoldable pub new_controls : SystemControlConfig → Controls
new_controls c = record {
  cpu_locked = false;
  cpu_restore_needed = false;
  cpu_original_state = none;
  rsusb_unbound = false;
  isolation = new c.isolation;
}

-- `backend_name`
unfoldable pub backend_name : SystemControlConfig → Str
backend_name c = if c.rsusb_backend then codes "RSUSB" else codes "V4L2"

module _ {W : Type 0} (m : Machine W) where
  unfoldable pub policy_state : FilePath → Str → W → Policy
  policy_state dir name w = record {
    name = name;
    path = dir;
    driver = read_optional_text m (dir / codes "scaling_driver") w;
    affected_cpus = read_optional_text m (dir / codes "affected_cpus") w;
    governor = read_optional_text m (dir / codes "scaling_governor") w;
    scaling_min_khz = read_optional_text m (dir / codes "scaling_min_freq") w;
    scaling_max_khz = read_optional_text m (dir / codes "scaling_max_freq") w;
    scaling_current_khz = read_optional_text m (dir / codes "scaling_cur_freq") w;
  }

  -- The loop over `sorted(CPUFREQ_BASE.glob("policy*"))`.
  unfoldable pub policies_of : List Str → W → List Policy
  unfolding policy_state
  policies_of [] w = []
  policies_of (name ∷ names) w =
      let rest = policies_of names w in
      if starts_with (codes "policy") name && m.is_dir (cpufreq_base / name) w
      then policy_state (cpufreq_base / name) name w ∷ rest
      else rest

  unfoldable pub cpu_frequency_state : W → CpuState
  unfolding policies_of
  cpu_frequency_state w = record {
    policies = policies_of (sorted (m.listdir cpufreq_base w)) w;
    boost = read_optional_text m (cpufreq_base / codes "boost") w;
    intel_pstate_no_turbo = read_optional_text m no_turbo_path w;
    temperature_millic = read_optional_text m thermal_zone0 w;
    locked_mhz = none;
  }

-- One field of a policy against the target.
unfoldable pub check_field : Str → Str → Str → Str → List Str
check_field name field value target =
    if str_eq value target
    then []
    else (name
        ++ (codes " " ++ (field ++ (codes "=" ++ (value ++ (codes ", expected " ++ target))))))
      ∷ []

unfoldable pub check_policies : Str → List Policy → List Str
unfolding check_field
check_policies target [] = []
check_policies target (p ∷ ps) =
    check_field p.name (codes "scaling_min_khz") p.scaling_min_khz target
    ++ (check_field p.name (codes "scaling_max_khz") p.scaling_max_khz target
        ++ (check_field p.name (codes "scaling_current_khz") p.scaling_current_khz target
            ++ check_policies target ps))

-- `verify_cpu_frequency`
unfoldable pub verify_cpu_frequency : SystemControlConfig → CpuState → List Str
unfolding check_policies
verify_cpu_frequency c state = elim c.cpu_frequency_mhz [
  | none ↦ []
  | some mhz ↦
      if is_empty state.policies
      then (codes "no CPU-frequency policies found below " ++ path_text cpufreq_base) ∷ []
      else check_policies (show (mhz * 1000)) state.policies
]
