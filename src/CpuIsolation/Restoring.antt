-- ===== src/CpuIsolation/Restoring.antt =====
-- What `restore` leaves behind, whichever of its steps fail.
use rs_camera.Prelude.{
  true, false, not, ◌≡◌, inl, inr, List, [], ◌++◌, arith, is_empty, Bool-cases, subst, sym, ◌∙◌,
}
use rs_camera.Prelude.Exec.{Result, raise_if, ◌>>=◌, ◌>>◌}
use rs_camera.Prelude.Errors.{Error, runtime_error}
use rs_camera.Prelude.After.{After, After-map, After-bind}
use rs_camera.CpuIsolation.Steps.{
  clear_moved, clear_created, clear_enabled, already_moved, already_enabled, Collected,
  restore_process-Commits, disable_controller-Commits, collect_if-Collected, restore_irqs_keeps,
}
use rs_camera.Text.{Str, codes, join}
use rs_camera.Machine.{Machine}
use rs_camera.CpuIsolation.{
  CpuIsolationConfig, Isolation, Report, update, has_work, restore_process, restore_irqs,
  disable_controller, restore, collect_if, remove_cgroup_step,
}
use rs_camera.CpuIsolation.Leftover.{
  IsConsistent, IsInactive, remove_cgroup_step-Collected, Steps, idle_flag, idle-IsInactive, finish,
  Steps-clean, Steps-IsInactive,
}

module _ {W : Type 0} (m : Machine W) (dumps : Report → Str) (config : CpuIsolationConfig) where
  -- What is left after `restore`: nothing active in any case, and no work if it returned.
  abbrev pub Restored : Result Error (Unit {0}) × (Isolation × W) → Type 0
  Restored =
      After {S = Isolation × W} (λ _ s. IsInactive s.0 × (has_work s.0 ≡ false))
        (λ _ s. IsInactive s.0)

  raise_last :
      (o : Isolation) (w : W) (moved irqs removed disabled : List Str) (o' : Isolation)
      → Steps m dumps config o moved irqs removed disabled o'
      → Restored (
          raise_if
            (not (is_empty (moved ++ (irqs ++ (removed ++ disabled)))))
            (runtime_error (join (codes " | ") (moved ++ (irqs ++ (removed ++ disabled)))))
            (finish o', w))
  raise_last o w moved irqs removed disabled o' t =
      elim (Bool-cases (is_empty (moved ++ (irqs ++ (removed ++ disabled))))) [
        | inl none_left ↦ rw none_left (
          Steps-IsInactive m dumps config o moved irqs removed disabled o' t,
          Steps-clean m dumps config o moved irqs removed disabled o' t none_left,
        )
        | inr some_left ↦
            rw some_left (Steps-IsInactive m dumps config o moved irqs removed disabled o' t)
      ]

  created_after_moved :
      (o o1 o2 : Isolation) (moved : List Str)
      → Collected m dumps config clear_moved o moved o1
      → o2 ≡ o1
      → o2.cgroup_created ≡ o.cgroup_created
  created_after_moved o o1 o2 moved c e = ground arith

  enabled_after_removed :
      (o o1 o2 o3 : Isolation) (moved removed : List Str)
      → Collected m dumps config clear_moved o moved o1
      → o2 ≡ o1
      → Collected m dumps config clear_created
          (record o2 { original_irq_affinities = [] })
          removed
          o3
      → o3.controller_enabled_by_us ≡ o.controller_enabled_by_us
  enabled_after_removed o o1 o2 o3 moved removed c e d = ground arith

  -- The rest of `restore` behind its first step.
  after_process :
      (o : Isolation)
      → IsConsistent o
      → (moved : List Str) (s1 : Isolation × W) → Collected m dumps config clear_moved o moved s1.0
      → Restored (
          (restore_irqs m dumps config o.original_irq_affinities >>= λ irqs.
          update m dumps config (λ o. record o { original_irq_affinities = [] })
          >> (remove_cgroup_step m dumps config o.cgroup_created o.cgroup_path >>= λ removed.
              collect_if m dumps config o.controller_enabled_by_us
                (codes "disable cpuset controller")
                (disable_controller m dumps config)
              >>= λ disabled.
                  update m dumps config finish
                  >> raise_if (not (is_empty (moved ++ (irqs ++ (removed ++ disabled))))) (
                      runtime_error
                        (join (codes " | ") (moved ++ (irqs ++ (removed ++ disabled)))))))
            s1)
  after_process o t moved s1 c1 =
      After-bind _ _ (restore_irqs m dumps config o.original_irq_affinities) _ s1 (
        After-map (λ _ u. u.0 ≡ s1.0) _ (λ _ _. ⊥) _ _
          (restore_irqs_keeps m dumps config o.original_irq_affinities s1)
          (λ irqs s2 e2.
            let o2 : Isolation = record (s2.0) { original_irq_affinities = [] } in
            After-bind _ _ (remove_cgroup_step m dumps config o.cgroup_created o.cgroup_path) _
              (o2, s2.1)
              (After-map (λ errors s. Collected m dumps config clear_created o2 errors s.0) _
                (λ _ _. ⊥) _ _
                (remove_cgroup_step-Collected m dumps config o2 o s2.1
                  (created_after_moved o s1.0 s2.0 moved c1 e2) t)
                (λ removed s3 c3.
                  After-bind _ _
                    (collect_if m dumps config o.controller_enabled_by_us
                      (codes "disable cpuset controller") (disable_controller m dumps config))
                    _ s3
                    (After-map (λ errors s. Collected m dumps config clear_enabled s3.0 errors s.0)
                      _ (λ _ _. ⊥) _ _
                      (collect_if-Collected m dumps config clear_enabled o.controller_enabled_by_us
                        (codes "disable cpuset controller") (disable_controller m dumps config) s3.0
                        s3.1
                        (λ d.
                          already_enabled s3.0
                            (enabled_after_removed o s1.0 s2.0 s3.0 moved removed c1 e2 c3 ∙ d))
                        (disable_controller-Commits m dumps config))
                      (λ disabled s4 c4.
                        raise_last o s4.1 moved irqs removed disabled s4.0 (record {
                          after_moved = s2.0;
                          after_removed = s3.0;
                          first =
                              subst (λ x. Collected m dumps config clear_moved o moved x) (sym e2)
                                c1;
                          second = c3;
                          third = c4;
                        }))
                      (λ _ _ x. absurd x)))
                (λ _ _ x. absurd x)))
          (λ _ _ x. absurd x))

  restore_work :
      (o : Isolation) (w : W)
      → IsConsistent o
      → has_work o ≡ true
      → Restored (restore m dumps config (o, w))
  unfolding restore
  restore_work o w t h = rw h (
      After-bind _ _
        (collect_if m dumps config o.process_moved (codes "restore process cgroup")
          (restore_process m dumps config))
        _ (o, w)
        (After-map (λ errors s. Collected m dumps config clear_moved o errors s.0) _ (λ _ _. ⊥) _ _
          (collect_if-Collected m dumps config clear_moved o.process_moved
            (codes "restore process cgroup") (restore_process m dumps config) o w (already_moved o)
            (restore_process-Commits m dumps config))
          (λ moved s1 c1. after_process o t moved s1 c1) (λ _ _ x. absurd x)))

  -- Whichever of its steps fail, `restore` leaves the isolation inactive and forgets the affinities;
  -- if it returns, it has left no work, so that a second call does nothing.
  pub restore-Restored :
      (o : Isolation) (w : W) → IsConsistent o → Restored (restore m dumps config (o, w))
  restore-Restored o w t = elim (Bool-cases (has_work o)) [
    | inl work ↦ restore_work o w t work
    | inr idle ↦
        unfold restore in rw idle (idle-IsInactive o idle (t.reported ∙ idle_flag o idle), idle)
  ]
