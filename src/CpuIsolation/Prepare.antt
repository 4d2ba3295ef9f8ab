-- ===== src/CpuIsolation/Prepare.antt =====
-- `CpuIsolation.prepare`: everything that is changed is changed under a `try` that restores.
use rs_camera.Prelude.{
  true, not, ◌||◌, none, some, List, [], ◌∷◌, ◌++◌, if◌then◌else◌, is_empty, any,
}
use rs_camera.Prelude.Exec.{Exec, pure, raise, lift, gets, raise_if, when, try_except, ◌>>=◌, ◌>>◌}
use rs_camera.Prelude.Errors.{Error, runtime_error, message}
use rs_camera.Text.{Str, codes, str_eq, join}
use rs_camera.Text.Words.{words}
use rs_camera.Machine.{Machine, FilePath, ◌/◌, path_text, read, write, run_privileged}
use rs_camera.CpuList.{format_cpu_list}
use rs_camera.CpuIsolation.Discover.{
  current_process_cgroup, discover_camera_xhci_irqs, irq_thread_state,
}
use rs_camera.CpuIsolation.Validate.{validate_environment}
use rs_camera.CpuIsolation.Verify.{compare_lists, verify}
use rs_camera.CpuIsolation.{
  CpuIsolationConfig, Isolation, Report, IrqRecord, Effective, Method, on_host, update, self,
  affinity_path, pid_text, canonical, remember, restore,
}

module _ {W : Type 0} (m : Machine W) (dumps : Report → Str) (config : CpuIsolationConfig) where
  -- The first three statements of the `try` block: the controller and the new cgroup.
  unfoldable pub create_cgroup : List Str → FilePath → Method m dumps config (Unit {0})
  create_cgroup subtree cgroup = do
    when (not (any (str_eq (codes "cpuset")) subtree)) (do
      on_host m dumps config (
          write m config.use_sudo (config.cgroup_root / codes "cgroup.subtree_control")
            (codes "+cpuset"))
      update m dumps config (λ o. record o { controller_enabled_by_us = true }))
    on_host m dumps config
        (run_privileged m config.use_sudo (codes "mkdir" ∷ path_text cgroup ∷ []))
    update m dumps config (λ o. record o { cgroup_created = true })

  unfoldable pub isolate_cgroup : FilePath → Str → Exec Error W (Unit {0})
  isolate_cgroup cgroup benchmark = do
    mems ← read m (config.cgroup_root / codes "cpuset.mems.effective")
    write m config.use_sudo (cgroup / codes "cpuset.mems") mems
    write m config.use_sudo (cgroup / codes "cpuset.cpus") benchmark
    write m config.use_sudo (cgroup / codes "cpuset.cpus.partition") (codes "isolated")

  -- The loop's body: the affinity is remembered before it is overwritten.
  unfoldable pub pin_irq : Str → IrqRecord → Method m dumps config IrqRecord
  pin_irq housekeeping r = do
    original ← on_host m dumps config (read m (affinity_path m dumps config r.irq))
    update m dumps config (λ o. record o {
      original_irq_affinities = remember r.irq original o.original_irq_affinities;
    })
    on_host m dumps config
        (write m config.use_sudo (affinity_path m dumps config r.irq) housekeeping)
    effective ← on_host m dumps config (read m (affinity_path m dumps config r.irq))
    thread ←
        on_host m dumps config
          (gets (λ w. irq_thread_state m config r.irq (m.listdir config.proc_root w) w))
    pure (record r {
      original_affinity = some original;
      effective_affinity = some effective;
      thread = thread;
    })

  -- The loop over `irq_records`.
  unfoldable pub pin_irqs : Str → List IrqRecord → Method m dumps config (List IrqRecord)
  unfolding pin_irq
  pin_irqs housekeeping [] = pure []
  pin_irqs housekeeping (r ∷ rs) = do
    pinned ← pin_irq housekeeping r
    more ← pin_irqs housekeeping rs
    pure (pinned ∷ more)

  unfoldable pub move_process : FilePath → Method m dumps config (Unit {0})
  move_process cgroup = do
    on_host m dumps config
        (write m config.use_sudo (cgroup / codes "cgroup.procs") (pid_text m dumps config))
    update m dumps config (λ o. record o { process_moved = true })

  -- The four reads and comparisons before `_active` is set.
  unfoldable pub check_effective : FilePath → Str → Str → Exec Error W Effective
  unfolding compare_lists
  check_effective cgroup housekeeping benchmark = do
    effective_benchmark ← read m (cgroup / codes "cpuset.cpus.effective")
    effective_root ← read m (config.cgroup_root / codes "cpuset.cpus.effective")
    isolated ← read m (config.cgroup_root / codes "cpuset.cpus.isolated")
    cpus ← gets m.affinity
    let affinity = format_cpu_list cpus
    a ← lift (
        compare_lists (codes "benchmark effective CPUs=" ++ effective_benchmark) effective_benchmark
          benchmark)
    b ←
        lift (
          compare_lists (codes "root effective CPUs=" ++ effective_root) effective_root
            housekeeping)
    c ← lift (compare_lists (codes "isolated CPUs=" ++ isolated) isolated benchmark)
    d ← lift (compare_lists (codes "process affinity=" ++ affinity) affinity benchmark)
    let errors = a ++ (b ++ (c ++ d))
    raise_if (not (is_empty errors))
        (runtime_error (codes "CPU isolation verification failed: " ++ join (codes " | ") errors))
    pure (record {
      root_effective_cpus = effective_root;
      benchmark_effective_cpus = effective_benchmark;
      isolated_cpus = isolated;
      process_affinity = affinity;
    })

  -- `_active` and the new `_state`.
  abbrev pub activate :
      FilePath → FilePath → Str → Str → Effective → List IrqRecord → Isolation → Isolation
  activate cgroup original housekeeping benchmark effective records o = record o {
    active = true;
    state = record {
      enabled = true;
      active = true;
      cgroup = some cgroup;
      original_cgroup = some original;
      housekeeping_cpus = housekeeping;
      benchmark_cpus = benchmark;
      effective = some effective;
      xhci_irqs = records;
      verified = none;
    };
  }

  unfoldable pub save_report : FilePath → Method m dumps config (Unit {0})
  save_report record_dir = do
    on_host m dumps config (m.make_dir record_dir)
    o ← self m dumps config
    on_host m dumps config
        (m.write_text (record_dir / codes "cpu_isolation_campaign.json") (dumps o.state ++ 10 ∷ []))

  -- The `try` block.
  unfoldable pub set_up :
      FilePath
      → FilePath
      → FilePath
      → List Str
      → List IrqRecord
      → Str
      → Str
      → Method m dumps config Report
  unfolding create_cgroup isolate_cgroup pin_irqs move_process check_effective save_report
  set_up record_dir cgroup original subtree records housekeeping benchmark = do
    create_cgroup subtree cgroup
    on_host m dumps config (isolate_cgroup cgroup benchmark)
    pinned ← pin_irqs housekeeping records
    move_process cgroup
    effective ← on_host m dumps config (check_effective cgroup housekeeping benchmark)
    update m dumps config (activate cgroup original housekeeping benchmark effective pinned)
    verify m dumps config none
    save_report record_dir
    o ← self m dumps config
    pure o.state

  -- `f"CPU isolation setup failed and cleanup also failed: {cleanup_error}"`
  abbrev pub cleanup_failed : Error → Error
  cleanup_failed e =
      runtime_error (codes "CPU isolation setup failed and cleanup also failed: " ++ message e)

  -- The `except` block: restore, then raise the first error again.
  unfoldable pub undo : Error → Method m dumps config Report
  undo e = do
    try_except (restore m dumps config) (λ cleanup. raise (cleanup_failed cleanup))
    raise e

  -- The rest of what `prepare` does before its `try`, and the values that it binds.
  unfoldable pub begin_rest :
      FilePath → Method m dumps config (FilePath × FilePath × List Str × List IrqRecord × Str × Str)
  begin_rest cgroup = do
    original ← on_host m dumps config (current_process_cgroup m config)
    update m dumps config (λ o. record o { original_cgroup_path = some original })
    subtree ← on_host m dumps config (read m (config.cgroup_root / codes "cgroup.subtree_control"))
    records ← on_host m dumps config (discover_camera_xhci_irqs m config)
    housekeeping ← lift (canonical m dumps config config.housekeeping_cpus)
    benchmark ← lift (canonical m dumps config config.benchmark_cpus)
    pure (cgroup, original, words subtree, records, housekeeping, benchmark)

  -- What `prepare` does before its `try`.
  unfoldable pub begin :
      Method m dumps config (FilePath × FilePath × List Str × List IrqRecord × Str × Str)
  unfolding begin_rest
  begin = do
    on_host m dumps config (validate_environment m config)
    let cgroup = config.cgroup_root / (codes "rs-camera-benchmark-" ++ pid_text m dumps config)
    taken ← on_host m dumps config (gets (m.exists cgroup))
    raise_if taken (runtime_error (codes "benchmark cpuset already exists: " ++ path_text cgroup))
    update m dumps config (λ o. record o { cgroup_path = some cgroup })
    begin_rest cgroup

  -- `prepare`
  unfoldable pub prepare : FilePath → Method m dumps config Report
  unfolding begin set_up undo
  prepare record_dir = do
    o ← self m dumps config
    if not config.enabled || o.active then pure o.state else do
      (cgroup, original, subtree, records, housekeeping, benchmark) ← begin
      try_except (set_up record_dir cgroup original subtree records housekeeping benchmark) undo
