-- ===== src/CpuIsolation.antt =====
-- `CpuIsolation` of tools/realsense_bench_common/cpu_isolation.py: a campaign runs in an isolated
-- cgroup, the camera interrupts run on the other CPUs, and `restore` takes both back. A method acts
-- on the object and on the host `W`, and keeps what it had changed when it raises.
pub mod State
pub mod Irqs
pub mod Discover
pub mod Validate
pub mod Host
pub mod Steps
pub mod Leftover
pub mod Restoring
pub mod Keeps
pub mod Verify
pub mod Prepare
pub mod Verifying
pub mod Changes
pub mod Preparing
mod Tests
unfoldable pub use State.{new, has_work, cpu_list_message, raise_cpu_list}
pub use State.*
use rs_camera.Prelude.{
  ℕ, Bool, true, false, not, ◌&&◌, ◌||◌, Option, none, some, List, [], ◌∷◌, ◌++◌, if◌then◌else◌,
  is_empty, any, ◌==◌,
}
use rs_camera.Prelude.Exec.{
  Result, ok, err, Exec, pure, raise, lift, gets, modify, raise_if, when, try_except, ◌>>=◌, ◌>>◌,
}
use rs_camera.Prelude.Errors.{Error, runtime_error, message}
use rs_camera.Text.{Str, codes, str_eq, join, show}
use rs_camera.Text.Words.{words}
use rs_camera.Machine.{Machine, FilePath, ◌/◌, path_text, read, write, run_privileged}
use rs_camera.CpuList.{format_cpu_list}
use Discover.{current_process_cgroup, discover_camera_xhci_irqs, irq_thread_state}
use Validate.{validate_environment}

-- `path or default`
abbrev pub path_or : FilePath → Option FilePath → FilePath
path_or default none = default
path_or default (some path) = path

-- `self._original_irq_affinities[irq] = affinity`
unfoldable pub remember : ℕ → Str → List (ℕ × Str) → List (ℕ × Str)
remember irq affinity [] = (irq, affinity) ∷ []
remember irq affinity ((i, a) ∷ rest) =
    let more = remember irq affinity rest in
    if i == irq then (irq, affinity) ∷ rest else (i, a) ∷ more

module _ {W : Type 0} (m : Machine W) (dumps : Report → Str) (config : CpuIsolationConfig) where
  abbrev pub Method : Type 0 → Type 0
  Method A = Exec Error (Isolation × W) A

  abbrev pub on_host : {A : Type 0} → Exec Error W A → Method A
  on_host action (o, w) = let (r, w') = action w in (r, (o, w'))

  abbrev pub update : (Isolation → Isolation) → Method (Unit {0})
  update f = modify (λ (o, w). (f o, w))

  abbrev pub self : Method Isolation
  self = gets (λ (o, w). o)

  abbrev pub affinity_path : ℕ → FilePath
  affinity_path irq = config.proc_root / codes "irq" / show irq / codes "smp_affinity_list"

  abbrev pub pid_text : Str
  pid_text = show m.getpid

  -- `format_cpu_list(parse_cpu_list(value))`
  abbrev pub canonical : Str → Result Error Str
  canonical value = elim (parse value) [ ok cpus ↦ ok (format_cpu_list cpus) | err e ↦ err e ]

  -- A `try` block of `restore`: its error is collected under `label`, and restoring goes on.
  unfoldable pub collect : Str → Method (Unit {0}) → Method (List Str)
  collect label action =
      try_except (action >> pure []) (λ e. pure ((label ++ (codes ": " ++ message e)) ∷ []))

  unfoldable pub restore_process : Method (Unit {0})
  restore_process = do
    o ← self
    let target = path_or config.cgroup_root o.original_cgroup_path
    on_host (write m config.use_sudo (target / codes "cgroup.procs") pid_text)
    update (λ o. record o { process_moved = false })

  -- The loop over `_original_irq_affinities`.
  unfoldable pub restore_irqs : List (ℕ × Str) → Method (List Str)
  restore_irqs [] = pure []
  restore_irqs ((irq, affinity) ∷ rest) = do
    errors ←
        collect (codes "restore IRQ " ++ (show irq ++ codes " affinity"))
          (on_host (write m config.use_sudo (affinity_path irq) affinity))
    more ← restore_irqs rest
    pure (errors ++ more)

  unfoldable pub remove_cgroup : FilePath → Method (Unit {0})
  remove_cgroup path = do
    on_host (write m config.use_sudo (path / codes "cpuset.cpus.partition") (codes "member"))
    on_host (run_privileged m config.use_sudo (codes "rmdir" ∷ path_text path ∷ []))
    update (λ o. record o { cgroup_created = false })

  unfoldable pub disable_controller : Method (Unit {0})
  disable_controller = do
    on_host (
        write m config.use_sudo (config.cgroup_root / codes "cgroup.subtree_control")
          (codes "-cpuset"))
    update (λ o. record o { controller_enabled_by_us = false })

  -- `if flag: try: ... except: errors.append(...)`
  abbrev pub collect_if : Bool → Str → Method (Unit {0}) → Method (List Str)
  collect_if flag label action = if flag then collect label action else pure []

  abbrev pub remove_cgroup_step : Bool → Option FilePath → Method (List Str)
  remove_cgroup_step created none = pure []
  remove_cgroup_step created (some path) =
      collect_if created (codes "remove benchmark cpuset") (remove_cgroup path)

  unfoldable pub restore : Method (Unit {0})
  unfolding has_work restore_process restore_irqs remove_cgroup disable_controller collect
  restore = do
    start ← self
    if not (has_work start) then pure tt else do
      moved ← collect_if start.process_moved (codes "restore process cgroup") restore_process
      irqs ← restore_irqs start.original_irq_affinities
      update (λ o. record o { original_irq_affinities = [] })
      removed ← remove_cgroup_step start.cgroup_created start.cgroup_path
      disabled ←
          collect_if start.controller_enabled_by_us (codes "disable cpuset controller")
            disable_controller
      update (λ o. record o { active = false; state = record (o.state) { active = false } })
      let errors = moved ++ (irqs ++ (removed ++ disabled))
      raise_if (not (is_empty errors)) (runtime_error (join (codes " | ") errors))
