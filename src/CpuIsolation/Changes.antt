-- ===== src/CpuIsolation/Changes.antt =====
-- What holds of the object in the `try` block of `prepare`, whichever step fails.
use rs_camera.Prelude.{true, ◌≡◌, refl, none, List, [], ◌∷◌, ◌∙◌}
use rs_camera.Prelude.Exec.{pure, ◌>>=◌, ◌>>◌}
use rs_camera.Prelude.Errors.{Error}
use rs_camera.Prelude.After.{After, After-map, After-bind}
use rs_camera.Text.{Str}
use rs_camera.Machine.{Machine, FilePath}
use rs_camera.Attempts.Step.{is_some}
use rs_camera.CpuIsolation.Verifying.{verify-Keeps}
use rs_camera.CpuIsolation.Leftover.{IsConsistent}
use rs_camera.CpuIsolation.Keeps.{Keeps, Keeps-host, Keeps-pure, Keeps-bind, keeps_rules}
use rs_camera.CpuIsolation.Verify.{verify}
use rs_camera.CpuIsolation.Prepare.{
  create_cgroup, isolate_cgroup, pin_irq, pin_irqs, move_process, check_effective, activate,
  save_report, set_up,
}
use rs_camera.CpuIsolation.{CpuIsolationConfig, Isolation, Report, IrqRecord, Method, on_host, self}

-- The state of the object under the `try` of `prepare`.
abbrev pub Good : Isolation → Type 0
Good o = (is_some o.cgroup_path ≡ true) × ((o.state).active ≡ o.active)

abbrev pub Running : Isolation → Type 0
Running o = Good o × (o.active ≡ true)

pub Good-IsConsistent : (o : Isolation) → Good o → IsConsistent o
Good-IsConsistent o g = record { created_has_path = λ _. g.0; reported = g.1 }

module _ {W : Type 0} (m : Machine W) (dumps : Report → Str) (config : CpuIsolationConfig) where
  -- A step that keeps `P`, and what follows it.
  pub then_kept :
      {A B : Type 0} (P : Isolation → Type 0) (Q : B → Isolation × W → Type 0)
      (X : Error → Isolation × W → Type 0) (action : Method m dumps config A)
      (f : A → Method m dumps config B) (s : Isolation × W)
      → Keeps m dumps config P action
      → P s.0
      → ((a : A) (t : Isolation × W) → P t.0 → After Q X (f a t))
      → ((e : Error) (t : Isolation × W) → P t.0 → X e t)
      → After Q X ((action >>= f) s)
  then_kept P Q X action f s k p next failed =
      After-bind Q X action f s
        (After-map (λ _ t. P t.0) _ (λ _ t. P t.0) X (action s) (k.at s p) next failed)

  create_cgroup-Keeps :
      (subtree : List Str) (cgroup : FilePath)
      → Keeps m dumps config Good (create_cgroup m dumps config subtree cgroup)
  unfolding create_cgroup
  create_cgroup-Keeps subtree cgroup = search keeps_rules depth 9

  pin_irq-Keeps :
      (housekeeping : Str) (r : IrqRecord)
      → Keeps m dumps config Good (pin_irq m dumps config housekeeping r)
  unfolding pin_irq
  pin_irq-Keeps housekeeping r = search keeps_rules depth 12

  pin_irqs-Keeps :
      (housekeeping : Str) (records : List IrqRecord)
      → Keeps m dumps config Good (pin_irqs m dumps config housekeeping records)
  unfolding pin_irqs
  pin_irqs-Keeps housekeeping [] = search keeps_rules
  pin_irqs-Keeps housekeeping (r ∷ rs) =
      Keeps-bind m dumps config Good (pin_irq m dumps config housekeeping r) _
        (pin_irq-Keeps housekeeping r)
        (λ pinned.
          Keeps-bind m dumps config Good (pin_irqs m dumps config housekeeping rs) _
            (pin_irqs-Keeps housekeeping rs)
            (λ more. Keeps-pure m dumps config Good (pinned ∷ more)))

  move_process-Keeps :
      (cgroup : FilePath) → Keeps m dumps config Good (move_process m dumps config cgroup)
  unfolding move_process
  move_process-Keeps cgroup = search keeps_rules depth 9

  save_report-Keeps :
      (record_dir : FilePath) → Keeps m dumps config Running (save_report m dumps config record_dir)
  unfolding save_report
  save_report-Keeps record_dir = search keeps_rules depth 9

  -- The end of the `try` block, once the isolation is marked active.
  activated :
      (record_dir : FilePath) (s : Isolation × W)
      → Running s.0
      → After
          (λ r t. Running t.0 × (r ≡ t.0.state))
          (λ _ t. Good t.0)
          ((verify m dumps config none
              >> (save_report m dumps config record_dir
                  >> (self m dumps config >>= λ o. pure (o.state))))
            s)
  activated record_dir s g =
      then_kept Running _ _ (verify m dumps config none) _ s
        (verify-Keeps m dumps config Running (λ o r e p. ((p.0.0, e ∙ p.0.1), p.1)) none) g
        (λ _ s1 g1.
          then_kept Running _ _ (save_report m dumps config record_dir) _ s1
            (save_report-Keeps record_dir) g1 (λ _ s2 g2. (g2, refl)) (λ _ _ x. x.0))
        (λ _ _ x. x.0)

  pub set_up_steps :
      (record_dir cgroup original : FilePath) (subtree : List Str) (records : List IrqRecord)
      (housekeeping benchmark : Str) (s : Isolation × W)
      → Good s.0
      → After
          (λ r t. Running t.0 × (r ≡ t.0.state))
          (λ _ t. Good t.0)
          (set_up m dumps config record_dir cgroup original subtree records housekeeping benchmark
            s)
  unfolding set_up
  set_up_steps record_dir cgroup original subtree records housekeeping benchmark s g =
      then_kept Good _ _ (create_cgroup m dumps config subtree cgroup) _ s
        (create_cgroup-Keeps subtree cgroup) g
        (λ _ s1 g1.
          then_kept Good _ _
            (on_host m dumps config (isolate_cgroup m dumps config cgroup benchmark)) _ s1
            (Keeps-host m dumps config Good _) g1
            (λ _ s2 g2.
              then_kept Good _ _ (pin_irqs m dumps config housekeeping records) _ s2
                (pin_irqs-Keeps housekeeping records) g2
                (λ pinned s3 g3.
                  then_kept Good _ _ (move_process m dumps config cgroup) _ s3
                    (move_process-Keeps cgroup) g3
                    (λ _ s4 g4.
                      then_kept Good _ _
                        (on_host m dumps config
                          (check_effective m dumps config cgroup housekeeping benchmark))
                        _ s4 (Keeps-host m dumps config Good _) g4
                        (λ effective s5 g5.
                          activated record_dir
                            (
                              activate m dumps config cgroup original housekeeping benchmark
                                  effective pinned s5.0,
                              s5.1,
                            )
                            ((g5.0, refl), refl))
                        (λ _ _ x. x))
                    (λ _ _ x. x))
                (λ _ _ x. x))
            (λ _ _ x. x))
        (λ _ _ x. x)
