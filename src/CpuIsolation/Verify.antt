-- ===== src/CpuIsolation/Verify.antt =====
-- `CpuIsolation.verify`: the host is as the campaign wants it.
use rs_camera.Prelude.{not, Option, none, some, List, [], ◌∷◌, ◌++◌, if◌then◌else◌, is_empty}
use rs_camera.Prelude.Exec.{Result, ok, err, Exec, pure, raise, lift, gets, raise_if, ◌>>=◌, ◌>>◌}
use rs_camera.Prelude.Errors.{Error, runtime_error}
use rs_camera.Text.{Str, codes, str_eq, join, show}
use rs_camera.Machine.{Machine, FilePath, ◌/◌, read}
use rs_camera.CpuList.{format_cpu_list}
use rs_camera.CpuIsolation.Discover.{irq_thread_state}
use rs_camera.CpuIsolation.{
  CpuIsolationConfig, Report, IrqRecord, Effective, parse, Method, on_host, update, self,
  affinity_path, canonical,
}

-- `if parse_cpu_list(actual) != parse_cpu_list(expected): errors.append(...)`
unfoldable pub compare_lists : Str → Str → Str → Result Error (List Str)
compare_lists label actual expected = elim (parse actual) [
  | err e ↦ err e
  | ok a ↦ elim (parse expected) [
    | err e ↦ err e
    | ok b ↦ ok (if str_eq a b then [] else label ∷ [])
  ]
]

-- The message `f"{key}={actual}, expected {expected}"`.
abbrev mismatch : Str → Str → Str → Str
mismatch key actual expected = key ++ (codes "=" ++ (actual ++ (codes ", expected " ++ expected)))

abbrev compare_key : Str → Str → Str → Result Error (List Str)
compare_key key actual expected = compare_lists (mismatch key actual expected) actual expected

module _ {W : Type 0} (m : Machine W) (dumps : Report → Str) (config : CpuIsolationConfig) where
  -- The dict `actual`.
  unfoldable pub read_effective : FilePath → Exec Error W Effective
  read_effective cgroup = do
    root_cpus ← read m (config.cgroup_root / codes "cpuset.cpus.effective")
    benchmark_cpus ← read m (cgroup / codes "cpuset.cpus.effective")
    isolated ← read m (config.cgroup_root / codes "cpuset.cpus.isolated")
    affinity ← gets m.affinity
    pure (record {
      root_effective_cpus = root_cpus;
      benchmark_effective_cpus = benchmark_cpus;
      isolated_cpus = isolated;
      process_affinity = format_cpu_list affinity;
    })

  -- The loop over `expected`.
  unfoldable pub compare_effective : Effective → Str → Str → Exec Error W (List Str)
  unfolding compare_lists
  compare_effective actual housekeeping benchmark = do
    a ← lift (compare_key (codes "root_effective_cpus") actual.root_effective_cpus housekeeping)
    b ←
        lift
          (compare_key (codes "benchmark_effective_cpus") actual.benchmark_effective_cpus benchmark)
    c ← lift (compare_key (codes "isolated_cpus") actual.isolated_cpus benchmark)
    d ← lift (compare_key (codes "process_affinity") actual.process_affinity benchmark)
    pure (a ++ (b ++ (c ++ d)))

  -- `record` with the affinity and the thread that are in force.
  unfoldable pub observe : IrqRecord → Exec Error W IrqRecord
  observe r = do
    affinity ← read m (affinity_path m dumps config r.irq)
    names ← gets (m.listdir config.proc_root)
    thread ← gets (irq_thread_state m config r.irq names)
    pure (record r { effective_affinity = some affinity; thread = thread })

  abbrev affinity_of : IrqRecord → Str
  affinity_of r = elim r.effective_affinity [ none ↦ [] | some affinity ↦ affinity ]

  -- The loop over the records of `_state`, which it changes in place; `done` are those before.
  unfoldable pub verify_irqs :
      Str → List IrqRecord → List IrqRecord → Method m dumps config (List Str)
  unfolding observe compare_lists
  verify_irqs housekeeping done [] = pure []
  verify_irqs housekeeping done (r ∷ rs) = do
    r' ← on_host m dumps config (observe r)
    update m dumps config
        (λ o. record o { state = record (o.state) { xhci_irqs = done ++ r' ∷ rs } })
    errors ← lift (
        compare_lists
          (codes "IRQ "
            ++ (show r.irq
                ++ (codes " affinity="
                    ++ (affinity_of r' ++ (codes ", expected " ++ housekeeping)))))
          (affinity_of r') housekeeping)
    more ← verify_irqs housekeeping (done ++ r' ∷ []) rs
    pure (errors ++ more)

  abbrev verification_failed : List Str → Error
  verification_failed errors =
      runtime_error (codes "CPU isolation verification failed: " ++ join (codes " | ") errors)

  -- `if output is not None: output.write_text(...)`
  abbrev pub save_output : Option FilePath → Str → Method m dumps config (Unit {0})
  save_output none text = pure tt
  save_output (some path) text = on_host m dumps config (m.write_text path text)

  -- The part of `verify` behind its guard.
  unfoldable pub verify_active : FilePath → Option FilePath → Method m dumps config Report
  unfolding read_effective compare_effective verify_irqs
  verify_active cgroup output = do
    benchmark ← lift (canonical m dumps config config.benchmark_cpus)
    housekeeping ← lift (canonical m dumps config config.housekeeping_cpus)
    actual ← on_host m dumps config (read_effective cgroup)
    errors ← on_host m dumps config (compare_effective actual housekeeping benchmark)
    o ← self m dumps config
    irq_errors ← verify_irqs housekeeping [] (o.state).xhci_irqs
    let failed = errors ++ irq_errors
    update m dumps config (λ o. record o {
      state = record (o.state) { effective = some actual; verified = some (is_empty failed) };
    })
    after ← self m dumps config
    save_output output (dumps after.state ++ 10 ∷ [])
    raise_if (not (is_empty failed)) (verification_failed failed)
    pure after.state

  abbrev pub verify_at : Option FilePath → Option FilePath → Method m dumps config Report
  verify_at none output = raise (runtime_error (codes "the configured CPU isolation is not active"))
  verify_at (some cgroup) output = verify_active cgroup output

  -- `verify`
  unfoldable pub verify : Option FilePath → Method m dumps config Report
  unfolding verify_active
  verify output = do
    o ← self m dumps config
    if not config.enabled
        then pure o.state
        else if not o.active
        then raise (runtime_error (codes "the configured CPU isolation is not active"))
        else verify_at o.cgroup_path output
