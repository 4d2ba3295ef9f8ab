-- ===== src/CpuIsolation/Steps.antt =====
-- The steps of `restore`: each makes its change, or collects one error and changes nothing.
use rs_camera.Prelude.{
  ℕ, Bool, true, false, ◌&&◌, ◌≡◌, refl, ◌⊎◌, inl, inr, List, [], ◌∷◌, ◌++◌, is_empty, ◌∙◌,
}
use rs_camera.Prelude.Exec.{Result, ok, err, Exec, pure, try_except, ◌>>◌}
use rs_camera.Prelude.Errors.{Error, message}
use rs_camera.Prelude.After.{After, After-map, After-bind}
use rs_camera.CpuIsolation.Host.{on_host-After, on_host-bind}
use rs_camera.Text.{Str, codes, show}
use rs_camera.Machine.{Machine, FilePath, ◌/◌, write, run_privileged, path_text}
use rs_camera.CpuIsolation.{
  CpuIsolationConfig, Isolation, Report, Method, on_host, update, collect, path_or, restore_process,
  restore_irqs, remove_cgroup, disable_controller, affinity_path, collect_if, pid_text,
}

pub is_empty-append :
    {A : Type 0} (xs ys : List A) → is_empty (xs ++ ys) ≡ (is_empty xs && is_empty ys)
is_empty-append [] ys = refl
is_empty-append (x ∷ xs) ys = refl

abbrev pub clear_moved : Isolation → Isolation
clear_moved o = record o { process_moved = false }

abbrev pub clear_created : Isolation → Isolation
clear_created o = record o { cgroup_created = false }

abbrev pub clear_enabled : Isolation → Isolation
clear_enabled o = record o { controller_enabled_by_us = false }

pub already_moved : (o : Isolation) → o.process_moved ≡ false → o ≡ clear_moved o
already_moved o h = λ i. record o { process_moved = h i }

pub already_created : (o : Isolation) → o.cgroup_created ≡ false → o ≡ clear_created o
already_created o h = λ i. record o { cgroup_created = h i }

pub already_enabled : (o : Isolation) → o.controller_enabled_by_us ≡ false → o ≡ clear_enabled o
already_enabled o h = λ i. record o { controller_enabled_by_us = h i }

module _ {W : Type 0} (m : Machine W) (dumps : Report → Str) (config : CpuIsolationConfig) where
  -- The action changes the object by `f` if it returns, and not at all if it raises.
  abbrev pub Commits : (Isolation → Isolation) → Method m dumps config (Unit {0}) → Type 0
  Commits f action =
      (o : Isolation) (w : W) → After (λ _ s. s.0 ≡ f o) (λ _ s. s.0 ≡ o) (action (o, w))

  -- A step that collects its error: no error and the change, or one error and no change.
  abbrev pub Collected : (Isolation → Isolation) → Isolation → List Str → Isolation → Type 0
  Collected f o errors o' =
      ((is_empty errors ≡ true) × (o' ≡ f o)) ⊎ ((is_empty errors ≡ false) × (o' ≡ o))

  Commits-update : (f : Isolation → Isolation) → Commits f (update m dumps config f)
  Commits-update f o w = refl

  Commits-then :
      {A : Type 0} (f : Isolation → Isolation) (action : Exec Error W A)
      (rest : Method m dumps config (Unit {0}))
      → Commits f rest
      → Commits f (on_host m dumps config action >> rest)
  Commits-then f action rest h o w =
      on_host-bind m dumps config (λ _ s. s.0 ≡ f o) (λ _ s. s.0 ≡ o) action (λ _. rest) o w
        (λ _ w'. h o w') (λ _ _. refl)

  pub restore_process-Commits : Commits clear_moved (restore_process m dumps config)
  unfolding restore_process
  restore_process-Commits o w =
      Commits-then clear_moved
        (write m config.use_sudo
          (path_or config.cgroup_root o.original_cgroup_path / codes "cgroup.procs")
          (pid_text m dumps config))
        _ (Commits-update clear_moved) o w

  pub remove_cgroup-Commits :
      (path : FilePath) → Commits clear_created (remove_cgroup m dumps config path)
  unfolding remove_cgroup
  remove_cgroup-Commits path =
      Commits-then clear_created
        (write m config.use_sudo (path / codes "cpuset.cpus.partition") (codes "member")) _
        (Commits-then clear_created
          (run_privileged m config.use_sudo (codes "rmdir" ∷ path_text path ∷ [])) _
          (Commits-update clear_created))

  pub disable_controller-Commits : Commits clear_enabled (disable_controller m dumps config)
  unfolding disable_controller
  disable_controller-Commits =
      Commits-then clear_enabled
        (write m config.use_sudo (config.cgroup_root / codes "cgroup.subtree_control")
          (codes "-cpuset"))
        _ (Commits-update clear_enabled)

  collect-Collected :
      (f : Isolation → Isolation) (label : Str) (action : Method m dumps config (Unit {0}))
      (o : Isolation) (w : W)
      → Commits f action
      → After
          (λ errors s. Collected f o errors s.0)
          (λ _ _. ⊥)
          (collect m dumps config label action (o, w))
  unfolding collect
  collect-Collected f label action o w h = go (action (o, w)) (h o w)
    where
      go :
          (r : Result Error (Unit {0}) × (Isolation × W))
          → After (λ _ s. s.0 ≡ f o) (λ _ s. s.0 ≡ o) r
          → After
              (λ errors s. Collected f o errors s.0)
              (λ _ _. ⊥)
              (try_except
                ((λ _. r) >> pure [])
                (λ e. pure ((label ++ (codes ": " ++ message e)) ∷ []))
                r.1)
      go (ok a, s) e = inl (refl, e)
      go (err x, s) e = inr (refl, e)

  -- A step behind a flag that is down finds its change made already.
  pub collect_if-Collected :
      (f : Isolation → Isolation) (flag : Bool) (label : Str)
      (action : Method m dumps config (Unit {0})) (o : Isolation) (w : W)
      → (flag ≡ false → o ≡ f o)
      → Commits f action
      → After
          (λ errors s. Collected f o errors s.0)
          (λ _ _. ⊥)
          (collect_if m dumps config flag label action (o, w))
  collect_if-Collected f true label action o w down h = collect-Collected f label action o w h
  collect_if-Collected f false label action o w down h = inl (refl, down refl)

  same_object : (o o' : Isolation) (errors : List Str) → Collected (λ o. o) o errors o' → o' ≡ o
  same_object o o' errors (inl (n, e)) = e
  same_object o o' errors (inr (n, e)) = e

  pub restore_irqs_keeps :
      (irqs : List (ℕ × Str)) (s : Isolation × W)
      → After (λ _ t. t.0 ≡ s.0) (λ _ _. ⊥) (restore_irqs m dumps config irqs s)
  unfolding restore_irqs
  restore_irqs_keeps [] s = refl
  restore_irqs_keeps ((irq, affinity) ∷ irqs) s =
      let label = codes "restore IRQ " ++ (show irq ++ codes " affinity") in
      let change = write m config.use_sudo (affinity_path m dumps config irq) affinity in
      let action = on_host m dumps config change in
      After-bind _ _ (collect m dumps config label action) _ s (
        After-map (λ errors t. Collected (λ o. o) s.0 errors t.0) _ (λ _ _. ⊥) _ _
          (collect-Collected (λ o. o) label action s.0 s.1
            (λ o w.
              on_host-After m dumps config (λ _ t. t.0 ≡ o) (λ _ t. t.0 ≡ o) change o w
                (λ _ _. refl) (λ _ _. refl)))
          (λ errors t c. After-bind _ _ (restore_irqs m dumps config irqs) _ t (
            After-map (λ _ u. u.0 ≡ t.0) _ (λ _ _. ⊥) _ _ (restore_irqs_keeps irqs t)
              (λ _ u e. e ∙ same_object s.0 t.0 errors c) (λ _ _ x. x)))
          (λ _ _ x. x))
