-- ===== src/CpuIsolation/Preparing.antt =====
-- `prepare` is all or nothing.
use rs_camera.Prelude.{true, false, not, ◌||◌, ◌≡◌, refl, ◌⊎◌, inl, inr, some, List, ◌++◌, ◌∙◌}
use rs_camera.Prelude.Exec.{Result, raise, raise_if, gets, try_except, ◌>>=◌}
use rs_camera.Prelude.Errors.{Error, runtime_error}
use rs_camera.Prelude.After.{After, After-map, After-bind, After-else, After-try}
use rs_camera.Text.{Str, codes}
use rs_camera.Machine.{Machine, FilePath, ◌/◌, path_text}
use rs_camera.Attempts.Step.{is_some}
use rs_camera.CpuIsolation.Leftover.{IsConsistent, IsInactive, idle-IsInactive, idle_flag}
use rs_camera.CpuIsolation.Restoring.{restore-Restored}
use rs_camera.CpuIsolation.Keeps.{Keeps, Keeps-host, Keeps-raise_if, keeps_rules}
use rs_camera.CpuIsolation.Validate.{validate_environment}
use rs_camera.CpuIsolation.Prepare.{set_up, undo, begin_rest, begin, prepare, cleanup_failed}
use rs_camera.CpuIsolation.{
  CpuIsolationConfig, Isolation, Report, IrqRecord, on_host, has_work, restore, pid_text,
}
use rs_camera.CpuIsolation.Changes.{Good, Running, Good-IsConsistent, then_kept, set_up_steps}

-- Between calls, with nothing to restore.
abbrev pub IsIdle : Isolation → Type 0
IsIdle o = IsConsistent o × (has_work o ≡ false)

module _ {W : Type 0} (m : Machine W) (dumps : Report → Str) (config : CpuIsolationConfig) where
  -- What `prepare` leaves: a running isolation that it reports, or an inactive one; then there is no
  -- work left, or the error says that the cleanup has failed.
  abbrev pub Done : Report → Isolation × W → Type 0
  Done r s = IsConsistent s.0 × (s.0.active ≡ true) × (r ≡ s.0.state)

  abbrev pub Failed : Error → Isolation → Type 0
  Failed e o =
      IsInactive o × ((has_work o ≡ false) ⊎ ((c : Error) × (e ≡ cleanup_failed m dumps config c)))

  abbrev pub Prepared : Result Error Report × (Isolation × W) → Type 0
  Prepared = After Done (λ e s. Failed e s.0)

  undo-Prepared : (e : Error) (s : Isolation × W) → Good s.0 → Prepared (undo m dumps config e s)
  unfolding undo
  undo-Prepared e s g =
      After-bind Done (λ x t. Failed x t.0)
        (try_except (restore m dumps config)
          (λ cleanup. raise (cleanup_failed m dumps config cleanup)))
        _ s
        (After-try (λ _ t. Failed e t.0) (λ x t. Failed x t.0) (restore m dumps config) _ s
          (After-map (λ _ t. IsInactive t.0 × (has_work t.0 ≡ false)) (λ _ t. Failed e t.0)
            (λ _ t. IsInactive t.0) _ (restore m dumps config s)
            (restore-Restored m dumps config s.0 s.1 (Good-IsConsistent s.0 g))
            (λ _ _ p. (p.0, inl p.1)) (λ c _ p. (p, inr (c, refl)))))

  -- The states before the `try`.
  abbrev Started : Isolation → Type 0
  Started o = IsIdle o × (is_some o.cgroup_path ≡ true)

  idle_with_path :
      (path : FilePath) (o : Isolation) → IsIdle o → Started (record o { cgroup_path = some path })
  unfolding has_work
  idle_with_path path o p =
      ((record { created_has_path = λ _. refl; reported = p.0.reported }, p.1), refl)

  idle_with_original :
      (original : FilePath) (o : Isolation)
      → Started o
      → Started (record o { original_cgroup_path = some original })
  unfolding has_work
  idle_with_original original o p = (
    (record { created_has_path = p.0.0.created_has_path; reported = p.0.0.reported }, p.0.1),
    p.1,
  )

  begin_rest-Keeps :
      (cgroup : FilePath) → Keeps m dumps config Started (begin_rest m dumps config cgroup)
  unfolding begin_rest
  begin_rest-Keeps cgroup = search (keeps_rules, idle_with_original) depth 14

  abbrev new_cgroup : FilePath
  new_cgroup = config.cgroup_root / (codes "rs-camera-benchmark-" ++ pid_text m dumps config)

  begin-Started :
      (s : Isolation × W)
      → IsIdle s.0
      → After (λ _ t. Started t.0) (λ _ t. IsIdle t.0) (begin m dumps config s)
  unfolding begin
  begin-Started s p =
      let Q : FilePath × FilePath × List Str × List IrqRecord × Str × Str → Isolation × W → Type 0 =
        λ _ t. Started t.0 in
      let X : Error → Isolation × W → Type 0 = λ _ t. IsIdle t.0 in
      then_kept m dumps config IsIdle Q X (on_host m dumps config (validate_environment m config)) _
        s (Keeps-host m dumps config IsIdle _) p
        (λ _ s1 p1.
          then_kept m dumps config IsIdle Q X (on_host m dumps config (gets (m.exists new_cgroup)))
            _ s1 (Keeps-host m dumps config IsIdle _) p1
            (λ taken s2 p2.
              then_kept m dumps config IsIdle Q X
                (raise_if taken (
                  runtime_error
                    (codes "benchmark cpuset already exists: " ++ path_text new_cgroup)))
                _ s2 (Keeps-raise_if m dumps config IsIdle _ _) p2
                (λ _ s3 p3.
                  After-map (λ _ t. Started t.0) _ (λ _ t. Started t.0) _ _
                    ((begin_rest-Keeps new_cgroup).at
                      (record (s3.0) { cgroup_path = some new_cgroup }, s3.1)
                      (idle_with_path new_cgroup s3.0 p3))
                    (λ _ _ q. q) (λ _ _ q. q.0))
                (λ _ _ q. q))
            (λ _ _ q. q))
        (λ _ _ q. q)

  -- Called on an enabled isolation with no work left, `prepare` either returns the report of a
  -- running one, or raises and leaves it inactive; then either there is nothing left to restore, or
  -- the error says that the cleanup failed as well.
  pub prepare-Prepared :
      (record_dir : FilePath) (o : Isolation) (w : W)
      → config.enabled ≡ true
      → IsIdle o
      → Prepared (prepare m dumps config record_dir (o, w))
  unfolding prepare
  prepare-Prepared record_dir o w enabled p =
      After-else Done (λ e t. Failed e t.0) (not config.enabled || o.active) _
        (begin m dumps config >>= _) (o, w) (rw enabled (idle_flag o p.1))
        (After-bind Done (λ e t. Failed e t.0) (begin m dumps config) _ (o, w)
          (After-map (λ _ t. Started t.0) _ (λ _ t. IsIdle t.0) _ _ (begin-Started (o, w) p)
            (λ (cgroup, original, subtree, records, housekeeping, benchmark) t started.
              After-try Done (λ e u. Failed e u.0)
                (set_up m dumps config record_dir cgroup original subtree records housekeeping
                  benchmark)
                (undo m dumps config) t
                (After-map (λ r u. Running u.0 × (r ≡ u.0.state)) _ (λ _ u. Good u.0) _ _
                  (set_up_steps m dumps config record_dir cgroup original subtree records
                    housekeeping benchmark t (started.1, started.0.0.reported))
                  (λ r u p. (Good-IsConsistent u.0 p.0.0, p.0.1, p.1))
                  (λ e u p. undo-Prepared e u p)))
            (λ e u p. (idle-IsInactive u.0 p.1 (p.0.reported ∙ idle_flag u.0 p.1), inl p.1))))
