-- ===== src/SystemControls/Frequency.antt =====
-- The lock of the CPU frequency, and its restoration.
use rs_camera.Prelude.{
  ℕ, zero, suc, ◌+◌, ◌*◌, Bool, true, false, not, ◌&&◌, ◌||◌, Option, none, some, List, [], ◌∷◌,
  ◌++◌, leb, is_empty, if◌then◌else◌,
}
use rs_camera.Prelude.Exec.{ok, Exec, pure, raise, gets, raise_if, when, ◌>>=◌, ◌>>◌}
use rs_camera.Prelude.Objects.{on_world, change, this}
use rs_camera.Prelude.Errors.{Error, runtime_error}
use rs_camera.Text.{Str, codes, show, str_eq, join}
use rs_camera.Text.Words.{is_zero}
use rs_camera.Machine.{Machine, Clock, FilePath, ◌/◌, path_text, privileged, detail_of, reason_of}
use rs_camera.SystemControls.State.{
  SystemControlConfig, Controls, CpuState, Policy, cpufreq_base, no_turbo_path, cpu_frequency_state,
  verify_cpu_frequency,
}

-- `restored_by_name.get(name)`; of two policies with one name the last counts.
unfoldable pub policy_named : Str → List Policy → Option Policy
policy_named name [] = none
policy_named name (p ∷ ps) = elim (policy_named name ps) [
  | some later ↦ some later
  | none ↦ if str_eq p.name name then some p else none
]

abbrev pub differs : Str → Str → Str → Str → Str
differs name field actual expected =
    name ++ (codes " " ++ (field ++ (codes "=" ++ (actual ++ (codes ", expected " ++ expected)))))

-- One field of a policy against what it was; `none` where the policy is gone.
unfoldable pub check_restored : Str → Str → Option Str → Str → List Str
check_restored name field none expected = differs name field [] expected ∷ []
check_restored name field (some actual) expected =
    if str_eq actual expected then [] else differs name field actual expected ∷ []

abbrev pub field_of : (Policy → Str) → Option Policy → Option Str
field_of field none = none
field_of field (some p) = some (field p)

-- The loop over the original policies.
unfoldable pub restore_errors : List Policy → List Policy → List Str
unfolding policy_named check_restored
restore_errors restored [] = []
restore_errors restored (p ∷ ps) =
    let actual = policy_named p.name restored in
    check_restored p.name (codes "scaling_min_khz") (field_of (λ q. q.scaling_min_khz) actual)
      p.scaling_min_khz
    ++ (check_restored p.name (codes "scaling_max_khz") (field_of (λ q. q.scaling_max_khz) actual)
          p.scaling_max_khz
        ++ (check_restored p.name (codes "governor") (field_of (λ q. q.governor) actual) p.governor
            ++ restore_errors restored ps))

abbrev pub locked : ℕ → CpuState → CpuState
locked mhz state = record state { locked_mhz = some mhz }

-- `{"enabled": False, "policies": []}`
abbrev pub no_lock : CpuState
no_lock = record {
  policies = [];
  boost = [];
  intel_pstate_no_turbo = [];
  temperature_millic = [];
  locked_mhz = none;
}

abbrev pub lock_failed : Error
lock_failed = runtime_error (codes "Failed to lock CPU frequency; see cpu_frequency_lock.txt")

module _ {W : Type 0} (m : Machine W) (clock : Clock W) (c : SystemControlConfig) where
  abbrev pub Method : Type 0 → Type 0
  Method A = Exec Error (Controls × W) A

  -- `_write_sysfs_value`
  unfoldable pub write_sysfs_value : FilePath → Str → Exec Error W (Unit {0})
  write_sysfs_value path value = do
    completed ←
        m.subprocess (privileged c.use_sudo (codes "tee" ∷ path_text path ∷ []))
          (some (value ++ 10 ∷ []))
    raise_if (not (is_zero completed.returncode)) (
        runtime_error (
          codes "Failed to write "
          ++ (path_text path ++ (codes "=" ++ (value ++ (codes ": " ++ detail_of completed))))))

  -- The polls after the lock script: they end without errors, or at the deadline. A poll sleeps 50 ms,
  -- so 21 of them reach a deadline that is a second away.
  unfoldable pub await_lock : ℕ → ℕ → Exec Error W (CpuState × List Str)
  await_lock deadline zero w =
      let state = cpu_frequency_state m w in (ok (state, verify_cpu_frequency c state), w)
  await_lock deadline (suc polls) w =
      let state = cpu_frequency_state m w in
      let errors = verify_cpu_frequency c state in
      let again = await_lock deadline polls (clock.sleep 50 w) in
      if is_empty errors || leb deadline (clock.monotonic w) then (ok (state, errors), w) else again

  -- `_lock_cpu_once` for a frequency that is already locked.
  unfoldable pub check_lock : ℕ → Exec Error W CpuState
  check_lock mhz = do
    state ← gets (cpu_frequency_state m)
    let errors = verify_cpu_frequency c state
    raise_if (not (is_empty errors)) (
        runtime_error
          (codes "CPU frequency changed during the campaign: " ++ join (codes " | ") errors))
    pure (locked mhz state)

  -- The rest of `_lock_cpu_once`.
  unfoldable pub lock_cpu : ℕ → FilePath → Method CpuState
  unfolding await_lock
  lock_cpu mhz record_dir = do
    original ← on_world (gets (cpu_frequency_state m))
    change (λ o. record o { cpu_original_state = some original })
    raise_if (is_empty original.policies)
        (runtime_error (codes "No CPU-frequency policies found below " ++ path_text cpufreq_base))
    change (λ o. record o { cpu_restore_needed = true })
    completed ← on_world (
        m.subprocess (privileged c.use_sudo (path_text c.cpu_lock_script ∷ show (mhz * 1000) ∷ []))
          none)
    on_world (
        m.write_text (record_dir / codes "cpu_frequency_lock.txt")
          (completed.stdout ++ completed.stderr))
    raise_if (not (is_zero completed.returncode)) lock_failed
    now ← on_world (gets clock.monotonic)
    (state, errors) ← on_world (await_lock (now + 1000) 21)
    raise_if (not (is_empty errors)) (
        runtime_error
          (codes "CPU-frequency lock verification failed: " ++ join (codes " | ") errors))
    change (λ o. record o { cpu_locked = true })
    pure (locked mhz state)

  abbrev lock_at : Option ℕ → FilePath → Bool → Method CpuState
  lock_at none record_dir already = pure no_lock
  lock_at (some mhz) record_dir already =
      if already then on_world (check_lock mhz) else lock_cpu mhz record_dir

  -- `_lock_cpu_once`
  unfoldable pub lock_cpu_once : FilePath → Method CpuState
  unfolding check_lock lock_cpu
  lock_cpu_once record_dir = this >>= λ o. lock_at c.cpu_frequency_mhz record_dir o.cpu_locked

  -- `if value: self._write_sysfs_value(...)`
  abbrev pub write_some : FilePath → Str → Exec Error W (Unit {0})
  write_some path value = when (not (is_empty value)) (write_sysfs_value path value)

  -- The loop over the original policies: the maximum before the minimum.
  unfoldable pub restore_policies : List Policy → Exec Error W (Unit {0})
  unfolding write_sysfs_value
  restore_policies [] = pure tt
  restore_policies (p ∷ ps) = do
    write_some (p.path / codes "scaling_max_freq") p.scaling_max_khz
    write_some (p.path / codes "scaling_min_freq") p.scaling_min_khz
    write_some (p.path / codes "scaling_governor") p.governor
    restore_policies ps

  -- `if value and path.is_file(): self._write_sysfs_value(...)`
  abbrev pub write_existing : FilePath → Str → Exec Error W (Unit {0})
  write_existing path value = do
    there ← gets (m.is_file path)
    when (not (is_empty value) && there) (write_sysfs_value path value)

  unfoldable pub restore_original : CpuState → Exec Error W (Unit {0})
  unfolding restore_policies write_sysfs_value
  restore_original original = do
    completed ← m.subprocess (privileged c.use_sudo (path_text c.cpu_restore_script ∷ [])) none
    raise_if (not (is_zero completed.returncode))
        (runtime_error (codes "Default CPU-frequency restore failed: " ++ reason_of completed))
    restore_policies original.policies
    write_existing (cpufreq_base / codes "boost") original.boost
    write_existing no_turbo_path original.intel_pstate_no_turbo
    restored ← gets (cpu_frequency_state m)
    let errors = restore_errors restored.policies original.policies
    raise_if (not (is_empty errors)) (
        runtime_error (
          codes "Pre-campaign CPU-frequency state was not restored: " ++ join (codes " | ") errors))

  abbrev pub restore_from : Option CpuState → Exec Error W (Unit {0})
  restore_from none = raise (runtime_error (codes "Original CPU-frequency state was not captured"))
  restore_from (some original) = restore_original original

  -- `restore_cpu_frequency`
  unfoldable pub restore_cpu_frequency : Method (Unit {0})
  unfolding restore_original
  restore_cpu_frequency = do
    o ← this
    if not o.cpu_restore_needed then pure tt else do
      on_world (restore_from o.cpu_original_state)
      change (λ o. record o { cpu_restore_needed = false; cpu_locked = false })
