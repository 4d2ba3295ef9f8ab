-- ===== src/CpuIsolation/Leftover.antt =====
-- The object after the steps of `restore`, from what each of them collected.
use rs_camera.Prelude.{
  Bool, true, false, ◌≡◌, refl, inl, Option, none, some, List, [], ◌++◌, arith, is_empty, ◌∙◌,
}
use rs_camera.Prelude.After.{After}
use rs_camera.Attempts.Step.{is_some}
use rs_camera.CpuIsolation.Steps.{
  is_empty-append, clear_moved, clear_created, clear_enabled, already_created, Collected,
  remove_cgroup-Commits, collect_if-Collected,
}
use rs_camera.Text.{Str, codes}
use rs_camera.Machine.{Machine, FilePath}
use rs_camera.CpuIsolation.{
  CpuIsolationConfig, Isolation, Report, has_work, remove_cgroup, remove_cgroup_step,
}

-- What holds of the object between calls: `_cgroup_created` is set only where `_cgroup_path` is, and
-- the report says whether the isolation is active.
pub record IsConsistent (o : Isolation) : Type 0 where
  pub created_has_path : o.cgroup_created ≡ true → is_some o.cgroup_path ≡ true
  pub reported : (o.state).active ≡ o.active

-- Nothing is active, and no affinity is remembered.
pub record IsInactive (o : Isolation) : Type 0 where
  pub inactive : o.active ≡ false
  pub inactive_report : (o.state).active ≡ false
  pub forgotten : o.original_irq_affinities ≡ []

pub idle_flag : (o : Isolation) → has_work o ≡ false → o.active ≡ false
unfolding has_work
idle_flag o h = ground arith

pub idle-IsInactive : (o : Isolation) → has_work o ≡ false → (o.state).active ≡ false → IsInactive o
unfolding has_work
idle-IsInactive o h r = record {
  inactive = ground arith;
  inactive_report = r;
  forgotten = ground arith;
}

-- The last step.
abbrev pub finish : Isolation → Isolation
finish o = record o { active = false; state = record (o.state) { active = false } }

module _ {W : Type 0} (m : Machine W) (dumps : Report → Str) (config : CpuIsolationConfig) where
  pub remove_cgroup_step-Collected :
      (o start : Isolation) (w : W)
      → o.cgroup_created ≡ start.cgroup_created
      → IsConsistent start
      → After
          (λ errors s. Collected m dumps config clear_created o errors s.0)
          (λ _ _. ⊥)
          (remove_cgroup_step m dumps config start.cgroup_created start.cgroup_path (o, w))
  remove_cgroup_step-Collected o start w e t =
      go start.cgroup_created start.cgroup_path refl t.created_has_path
    where
      go :
          (created : Bool) (path : Option FilePath)
          → start.cgroup_created ≡ created
          → (created ≡ true → is_some path ≡ true)
          → After
              (λ errors s. Collected m dumps config clear_created o errors s.0)
              (λ _ _. ⊥)
              (remove_cgroup_step m dumps config created path (o, w))
      go true none c k = cc (k refl)
      go false none c k = inl (refl, already_created o (e ∙ c))
      go created (some path) c k =
          collect_if-Collected m dumps config clear_created created
            (codes "remove benchmark cpuset") (remove_cgroup m dumps config path) o w
            (λ d. already_created o (e ∙ (c ∙ d))) (remove_cgroup-Commits m dumps config path)

  -- The object after the steps, from what each of them collected.
  pub record Steps (o : Isolation) (moved irqs removed disabled : List Str) (o' : Isolation)
      : Type 0 where
    pub after_moved : Isolation
    pub after_removed : Isolation
    pub first : Collected m dumps config clear_moved o moved after_moved
    pub second :
        Collected m dumps config clear_created
          (record after_moved { original_irq_affinities = [] })
          removed
          after_removed
    pub third : Collected m dumps config clear_enabled after_removed disabled o'

  pub Steps-clean :
      (o : Isolation) (moved irqs removed disabled : List Str) (o' : Isolation)
      → Steps o moved irqs removed disabled o'
      → is_empty (moved ++ (irqs ++ (removed ++ disabled))) ≡ true
      → has_work (finish o') ≡ false
  unfolding has_work
  Steps-clean o moved irqs removed disabled o' t e = ground (
    arith,
    t.first,
    t.second,
    t.third,
    is_empty-append moved (irqs ++ (removed ++ disabled)),
    is_empty-append irqs (removed ++ disabled),
    is_empty-append removed disabled,
  )

  pub Steps-IsInactive :
      (o : Isolation) (moved irqs removed disabled : List Str) (o' : Isolation)
      → Steps o moved irqs removed disabled o'
      → IsInactive (finish o')
  Steps-IsInactive o moved irqs removed disabled o' t = record {
    inactive = refl;
    inactive_report = refl;
    forgotten = ground (arith, t.second, t.third);
  }
