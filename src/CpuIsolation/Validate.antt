-- ===== src/CpuIsolation/Validate.antt =====
-- `validate_environment` of cpu_isolation.py: the checks before anything on the host is changed.
use rs_camera.Prelude.{
  ℕ, Bool, false, not, ◌||◌, List, [], ◌∷◌, ◌++◌, if◌then◌else◌, is_empty, any, ◌==◌,
}
use rs_camera.Prelude.Exec.{Result, ok, err, Exec, pure, lift, gets, raise_if, ◌>>=◌, ◌>>◌}
use rs_camera.Prelude.Errors.{Error, runtime_error}
use rs_camera.Text.{Str, codes, str_eq, join}
use rs_camera.Text.Words.{words}
use rs_camera.Machine.{Machine, FilePath, ◌/◌, path_text, read}
use rs_camera.CpuList.{set_add, format_cpu_list}
use rs_camera.CpuIsolation.State.{CpuIsolationConfig, parse}
use rs_camera.CpuIsolation.Discover.{current_process_cgroup, discover_camera_xhci_irqs}

-- `a & b` is not empty.
unfoldable pub overlaps : List ℕ → List ℕ → Bool
overlaps [] b = false
overlaps (x ∷ a) b = any (λ y. x == y) b || overlaps a b

-- `a | b`
unfoldable pub union : List ℕ → List ℕ → List ℕ
unfolding set_add
union [] b = b
union (x ∷ a) b = set_add x (union a b)

-- The three checks of the two sets against the CPUs that are online.
unfoldable pub check_partition : List ℕ → List ℕ → List ℕ → Result Error (Unit {0})
unfolding overlaps union
check_partition housekeeping benchmark online =
    if is_empty housekeeping || is_empty benchmark
    then err (runtime_error (codes "CPU isolation requires two non-empty CPU sets"))
    else if overlaps housekeeping benchmark
    then err (runtime_error (codes "housekeeping and benchmark CPU sets overlap"))
    else if not (str_eq (union housekeeping benchmark) online)
    then err (
        runtime_error (
          codes "housekeeping and benchmark CPU sets must exactly partition online CPUs "
          ++ format_cpu_list online))
    else ok tt

module _ {W : Type 0} (m : Machine W) (config : CpuIsolationConfig) where
  abbrev required : List FilePath
  required =
      config.cgroup_root / codes "cgroup.controllers"
      ∷ config.cgroup_root / codes "cgroup.subtree_control"
      ∷ config.cgroup_root / codes "cgroup.procs"
      ∷ config.cgroup_root / codes "cpuset.cpus.effective"
      ∷ config.cgroup_root / codes "cpuset.cpus.isolated"
      ∷ config.cgroup_root / codes "cpuset.mems.effective"
      ∷ []

  unfoldable pub missing_files : List FilePath → W → List Str
  missing_files [] w = []
  missing_files (path ∷ paths) w =
      let rest = missing_files paths w in if m.is_file path w then rest else path_text path ∷ rest

  unfoldable pub validate_environment : Exec Error W (Unit {0})
  unfolding missing_files
  validate_environment = if not config.enabled then pure tt else do
    housekeeping ← lift (parse config.housekeeping_cpus)
    benchmark ← lift (parse config.benchmark_cpus)
    online_text ← read m config.cpu_online_path
    online ← lift (parse online_text)
    lift (check_partition housekeeping benchmark online)
    missing ← gets (missing_files required)
    raise_if (not (is_empty missing)) (
        runtime_error
          (codes "cgroup-v2 cpuset support is unavailable: " ++ join (codes ", ") missing))
    controllers ← read m (config.cgroup_root / codes "cgroup.controllers")
    raise_if (not (any (str_eq (codes "cpuset")) (words controllers)))
        (runtime_error (codes "the cgroup-v2 cpuset controller is unavailable"))
    isolated ← read m (config.cgroup_root / codes "cpuset.cpus.isolated")
    raise_if (not (is_empty isolated))
        (runtime_error (codes "an existing isolated cpuset partition is already active"))
    current_process_cgroup m config
    discover_camera_xhci_irqs m config
    pure tt
