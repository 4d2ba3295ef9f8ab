-- ===== src/SystemControls/Cleanup.antt =====
-- What `cleanup` leaves.
use rs_camera.Prelude.{
  Bool, true, ◌&&◌, ◌∷◌, ℕ, false, not, ◌≡◌, refl, ◌⊎◌, inl, inr, Option, List, [], ◌++◌, is_empty,
  arith, sym, ◌∙◌, subst, ap₂, ap,
}
use rs_camera.Prelude.Exec.{Result, ok, err, is_ok, pure, ◌>>=◌, ◌>>◌}
use rs_camera.Prelude.Objects.{on_world}
use rs_camera.Prelude.After.{After, After-map, After-bind, After-try, After-raise_if, After-if}
use rs_camera.Prelude.Keeping.{on_world-same}
use rs_camera.Prelude.Errors.{Error, message}
use rs_camera.Text.{Str, codes}
use rs_camera.Machine.{Machine, Clock}
use rs_camera.CpuIsolation.{Isolation, Report, has_work, restore}
use rs_camera.CpuIsolation.Steps.{is_empty-append}
use rs_camera.CpuIsolation.Leftover.{IsConsistent, IsInactive}
use rs_camera.CpuIsolation.Restoring.{Restored, restore-Restored}
use rs_camera.SystemControls.State.{SystemControlConfig, Controls}
use rs_camera.SystemControls.Frequency.{Method, restore_cpu_frequency, restore_from}
use rs_camera.SystemControls.Usb.{PowerState, restore_v4l2_binding, run_rsusb_helper}
use rs_camera.SystemControls.Campaign.{on_isolation, attempt_cleanup, cleanup}

-- Nothing is left to restore.
pub record IsClean (o : Controls) : Type 0 where
  pub rebound : o.rsusb_unbound ≡ false
  pub unlocked : o.cpu_restore_needed ≡ false
  pub idle : has_work o.isolation ≡ false

module _ {W : Type 0} (m : Machine W) (clock : Clock W) (c : SystemControlConfig) where
  -- Each step leaves the parts of the object that the other steps are about.
  abbrev pub Rebound : Controls → Controls → Type 0
  Rebound o o' = (o'.isolation ≡ o.isolation) × (o'.rsusb_unbound ≡ false)

  restore_v4l2_binding-After :
      (o : Controls) (w : W)
      → After {S = Controls × W}
          (λ _ t. Rebound o t.0)
          (λ _ t. t.0.isolation ≡ o.isolation)
          (restore_v4l2_binding m clock c (o, w))
  unfolding restore_v4l2_binding
  restore_v4l2_binding-After o w =
      After-if (λ _ t. Rebound o t.0) (λ _ t. t.0.isolation ≡ o.isolation) (not o.rsusb_unbound) _ _
        (o, w) (λ bound. (refl, ground arith))
        (λ unbound.
          After-bind (λ _ t. Rebound o t.0) (λ _ t. t.0.isolation ≡ o.isolation)
            (on_world (run_rsusb_helper m clock c (codes "bind"))) _ (o, w)
            (After-map (λ _ t. t.0 ≡ o) _ (λ _ t. t.0 ≡ o) _ _
              (on_world-same (run_rsusb_helper m clock c (codes "bind")) o w)
              (λ _ t e. (ap (λ x. x.isolation) e, refl)) (λ _ t e. ap (λ x. x.isolation) e)))

  -- Only the flags of the frequency change, and the second is cleared if the step returns.
  abbrev pub SameRest : Controls → Controls → Type 0
  SameRest o o' = (o'.isolation ≡ o.isolation) × (o'.rsusb_unbound ≡ o.rsusb_unbound)

  restore_cpu_frequency-After :
      (o : Controls) (w : W)
      → After {S = Controls × W}
          (λ _ t. SameRest o t.0 × (t.0.cpu_restore_needed ≡ false))
          (λ _ t. SameRest o t.0)
          (restore_cpu_frequency m clock c (o, w))
  unfolding restore_cpu_frequency
  restore_cpu_frequency-After o w =
      After-if (λ _ t. SameRest o t.0 × (t.0.cpu_restore_needed ≡ false)) (λ _ t. SameRest o t.0)
        (not o.cpu_restore_needed) _ _ (o, w) (λ done. ((refl, refl), ground arith))
        (λ needed.
          After-bind (λ _ t. SameRest o t.0 × (t.0.cpu_restore_needed ≡ false))
            (λ _ t. SameRest o t.0) (on_world (restore_from m clock c o.cpu_original_state)) _
            (o, w)
            (After-map (λ _ t. t.0 ≡ o) _ (λ _ t. t.0 ≡ o) _ _
              (on_world-same (restore_from m clock c o.cpu_original_state) o w)
              (λ _ t e. ((ap (λ x. x.isolation) e, ap (λ x. x.rsusb_unbound) e), refl))
              (λ _ t e. (ap (λ x. x.isolation) e, ap (λ x. x.rsusb_unbound) e))))

  module _ (dumps : Report → Str) (power_dumps : Option ℕ → List PowerState → Str) where
    abbrev Collected : (P X : Controls × W → Type 0) → List Str → Controls × W → Type 0
    Collected P X errors t = P t ⊎ (X t × (is_empty errors ≡ false))

    -- The list that a round of `cleanup` collects is empty only if its action returned.
    attempt_cleanup-After :
        (P X : Controls × W → Type 0) (description : Str) (action : Method m clock c (Unit {0}))
        (s : Controls × W)
        → After (λ _ t. P t) (λ _ t. X t) (action s)
        → After
            (Collected P X)
            (λ _ _. ⊥)
            (attempt_cleanup m clock c dumps power_dumps description action s)
    unfolding attempt_cleanup
    attempt_cleanup-After P X description action s k =
        After-try (Collected P X) (λ _ _. ⊥) (action >> pure []) _ s
          (After-bind _ _ action _ s (
            After-map (λ _ t. P t) _ (λ _ t. X t) _ (action s) k (λ _ _ p. inl p)
              (λ e t x. inr (x, refl))))

    -- `restore` on the isolation, seen from the controls.
    abbrev Stopped : Controls → Controls → Type 0
    Stopped o o' = IsInactive o'.isolation × (o'.rsusb_unbound ≡ o.rsusb_unbound)

    isolation_step :
        (o : Controls) (w : W)
        → IsConsistent o.isolation
        → After {S = Controls × W}
            (λ _ t. Stopped o t.0 × (has_work t.0.isolation ≡ false))
            (λ _ t. Stopped o t.0)
            (on_isolation m clock c dumps power_dumps (restore m dumps c.isolation) (o, w))
    isolation_step o w k =
        go (restore m dumps c.isolation (o.isolation, w))
          (restore-Restored m dumps c.isolation o.isolation w k)
      where
        go :
            (r : Result Error (Unit {0}) × (Isolation × W))
            → Restored m dumps c.isolation r
            → After {S = Controls × W}
                (λ _ t. Stopped o t.0 × (has_work t.0.isolation ≡ false))
                (λ _ t. Stopped o t.0)
                (r.0, (record o { isolation = r.1.0 }, r.1.1))
        go (ok a, t) p = ((p.0, refl), p.1)
        go (err e, t) p = (p, refl)

    -- A round of `cleanup`, and what follows it.
    then-Collected :
        (P X : Controls × W → Type 0) (description : Str) (action : Method m clock c (Unit {0}))
        (rest : List Str → Method m clock c (Unit {0})) (s : Controls × W)
        → After (λ _ t. P t) (λ _ t. X t) (action s)
        → ((errors : List Str) (t : Controls × W)
            → Collected P X errors t
            → After
                (λ _ t. IsClean t.0 × IsInactive t.0.isolation)
                (λ _ t. IsInactive t.0.isolation)
                (rest errors t))
        → After
            (λ _ t. IsClean t.0 × IsInactive t.0.isolation)
            (λ _ t. IsInactive t.0.isolation)
            ((attempt_cleanup m clock c dumps power_dumps description action >>= rest) s)
    then-Collected P X description action rest s k next =
        After-bind _ _ (attempt_cleanup m clock c dumps power_dumps description action) rest s (
          After-map (Collected P X) _ (λ _ _. ⊥) _ _
            (attempt_cleanup-After P X description action s k) next (λ _ _ x. absurd x))

    same_isolation :
        (o : Controls) (s : Controls × W) (errors : List Str)
        → Collected (λ t. Rebound o t.0) (λ t. t.0.isolation ≡ o.isolation) errors s
        → s.0.isolation ≡ o.isolation
    same_isolation o s errors (inl r) = r.0
    same_isolation o s errors (inr r) = r.0

    still-IsInactive :
        (s1 s2 s3 : Controls × W) (isolation frequency : List Str)
        → Collected
            (λ t. Stopped s1.0 t.0 × (has_work t.0.isolation ≡ false))
            (λ t. Stopped s1.0 t.0)
            isolation
            s2
        → Collected
            (λ t. SameRest s2.0 t.0 × (t.0.cpu_restore_needed ≡ false))
            (λ t. SameRest s2.0 t.0)
            frequency
            s3
        → IsInactive s3.0.isolation
    still-IsInactive s1 s2 s3 isolation frequency (inl a) (inl b) =
        subst IsInactive (sym b.0.0) a.0.0
    still-IsInactive s1 s2 s3 isolation frequency (inl a) (inr b) =
        subst IsInactive (sym b.0.0) a.0.0
    still-IsInactive s1 s2 s3 isolation frequency (inr a) (inl b) =
        subst IsInactive (sym b.0.0) a.0.0
    still-IsInactive s1 s2 s3 isolation frequency (inr a) (inr b) =
        subst IsInactive (sym b.0.0) a.0.0

    all_restored :
        (o : Controls) (s1 s2 s3 : Controls × W) (binding isolation frequency : List Str)
        → Collected (λ t. Rebound o t.0) (λ t. t.0.isolation ≡ o.isolation) binding s1
        → Collected
            (λ t. Stopped s1.0 t.0 × (has_work t.0.isolation ≡ false))
            (λ t. Stopped s1.0 t.0)
            isolation
            s2
        → Collected
            (λ t. SameRest s2.0 t.0 × (t.0.cpu_restore_needed ≡ false))
            (λ t. SameRest s2.0 t.0)
            frequency
            s3
        → not (is_empty (binding ++ (isolation ++ frequency))) ≡ false
        → IsClean s3.0
    all_restored o s1 s2 s3 binding isolation frequency (inl a) (inl b) (inl d) e = record {
      rebound = d.0.1 ∙ (b.0.1 ∙ a.1);
      unlocked = d.1;
      idle = ap has_work d.0.0 ∙ b.1;
    }
    all_restored o s1 s2 s3 binding isolation frequency (inr a) b d e =
        ground (arith, is_empty-append binding (isolation ++ frequency))
    all_restored o s1 s2 s3 binding isolation frequency (inl a) (inr b) d e = ground (
      arith,
      is_empty-append binding (isolation ++ frequency),
      is_empty-append isolation frequency,
    )
    all_restored o s1 s2 s3 binding isolation frequency (inl a) (inl b) (inr d) e = ground (
      arith,
      is_empty-append binding (isolation ++ frequency),
      is_empty-append isolation frequency,
    )

    both_ways :
        (o : Controls) (w : W)
        → IsConsistent o.isolation
        → After {S = Controls × W}
            (λ _ t. IsClean t.0 × IsInactive t.0.isolation)
            (λ _ t. IsInactive t.0.isolation)
            (cleanup m clock c dumps power_dumps (o, w))
    unfolding cleanup
    both_ways o w k =
        then-Collected _ _ (codes "restore V4L2 binding") (restore_v4l2_binding m clock c) _ (o, w)
          (restore_v4l2_binding-After o w)
          (λ binding s1 c1.
            then-Collected _ _ (codes "restore CPU isolation")
              (on_isolation m clock c dumps power_dumps (restore m dumps c.isolation)) _ s1
              (isolation_step s1.0 s1.1
                (subst IsConsistent (sym (same_isolation o s1 binding c1)) k))
              (λ isolation s2 c2.
                then-Collected _ _ (codes "restore CPU frequency") (restore_cpu_frequency m clock c)
                  _ s2 (restore_cpu_frequency-After s2.0 s2.1)
                  (λ frequency s3 c3.
                    After-raise_if (λ _ t. IsClean t.0 × IsInactive t.0.isolation)
                      (λ _ t. IsInactive t.0.isolation)
                      (not (is_empty (binding ++ (isolation ++ frequency)))) _ s3
                      (λ _. still-IsInactive s1 s2 s3 isolation frequency c2 c3)
                      (λ none_left. (
                        all_restored o s1 s2 s3 binding isolation frequency c1 c2 c3 none_left,
                        still-IsInactive s1 s2 s3 isolation frequency c2 c3,
                      )))))

    -- The three restorations were run one behind the other, each from the state that the one before had
    -- left, however that had ended; `all_returned` says whether none of them raised.
    pub record IsAttempted (all_returned : Bool) (s t : Controls × W) : Type 0 where
      pub binding : Result Error (Unit {0})
      pub isolation : Result Error (Unit {0})
      pub frequency : Result Error (Unit {0})
      pub rebound : Controls × W
      pub stopped : Controls × W
      pub binding_run : restore_v4l2_binding m clock c s ≡ (binding, rebound)
      pub isolation_run :
          on_isolation m clock c dumps power_dumps (restore m dumps c.isolation) rebound
          ≡ (isolation, stopped)
      pub frequency_run : restore_cpu_frequency m clock c stopped ≡ (frequency, t)
      pub outcome : (is_ok binding && (is_ok isolation && is_ok frequency)) ≡ all_returned

    collected : Str → Result Error (Unit {0}) → List Str
    collected description (ok u) = []
    collected description (err e) = (description ++ (codes ": " ++ message e)) ∷ []

    collected-is_empty :
        (description : Str) (r : Result Error (Unit {0}))
        → is_empty (collected description r) ≡ is_ok r
    unfolding collected
    collected-is_empty description (ok u) = refl
    collected-is_empty description (err e) = refl

    none_collected :
        (a b d : Str) (r1 r2 r3 : Result Error (Unit {0}))
        → is_empty (collected a r1 ++ (collected b r2 ++ collected d r3))
          ≡ (is_ok r1 && (is_ok r2 && is_ok r3))
    none_collected a b d r1 r2 r3 =
        is_empty-append (collected a r1) (collected b r2 ++ collected d r3)
        ∙ ap₂ (λ x y. x && y) (collected-is_empty a r1)
            (is_empty-append (collected b r2) (collected d r3)
              ∙ ap₂ (λ x y. x && y) (collected-is_empty b r2) (collected-is_empty d r3))

    attempt_cleanup-collected :
        (description : Str) (action : Method m clock c (Unit {0})) (s t : Controls × W)
        (r : Result Error (Unit {0}))
        → action s ≡ (r, t)
        → attempt_cleanup m clock c dumps power_dumps description action s
          ≡ (ok (collected description r), t)
    unfolding attempt_cleanup collected
    attempt_cleanup-collected description action s t (ok u) e = rw e
    attempt_cleanup-collected description action s t (err x) e = rw e

    negated : (b : Bool) → not b ≡ false → b ≡ true
    negated b e = ground arith

    unnegated : (b : Bool) → not b ≡ true → b ≡ false
    unnegated b e = ground arith

    -- What `cleanup` does with the results of the three restorations.
    cleanup-IsAttempted :
        (s : Controls × W)
        → After {S = Controls × W}
            (λ _ t. IsAttempted true s t)
            (λ _ t. IsAttempted false s t)
            (cleanup m clock c dumps power_dumps s)
    unfolding cleanup
    cleanup-IsAttempted s =
        let r1 = (restore_v4l2_binding m clock c s).0 in
        let s1 = (restore_v4l2_binding m clock c s).1 in
        let stop = on_isolation m clock c dumps power_dumps (restore m dumps c.isolation) in
        let r2 = (stop s1).0 in
        let s2 = (stop s1).1 in
        let r3 = (restore_cpu_frequency m clock c s2).0 in
        let s3 = (restore_cpu_frequency m clock c s2).1 in
        let none_left =
          none_collected (codes "restore V4L2 binding") (codes "restore CPU isolation")
            (codes "restore CPU frequency") r1 r2 r3 in
        rw
          (
            attempt_cleanup-collected (codes "restore V4L2 binding")
                (restore_v4l2_binding m clock c) s s1 r1 refl,
            attempt_cleanup-collected (codes "restore CPU isolation")
                (on_isolation m clock c dumps power_dumps (restore m dumps c.isolation)) s1 s2 r2
                refl,
            attempt_cleanup-collected (codes "restore CPU frequency")
                (restore_cpu_frequency m clock c) s2 s3 r3 refl,
          )
          (After-raise_if (λ _ t. IsAttempted true s t) (λ _ t. IsAttempted false s t) _ _ s3
            (λ some_error. attempted false (sym none_left ∙ unnegated _ some_error))
            (λ no_error. attempted true (sym none_left ∙ negated _ no_error)))
      where
        attempted :
            (all_returned : Bool)
            → (is_ok (restore_v4l2_binding m clock c s).0
                && (is_ok
                      (on_isolation m clock c dumps power_dumps
                        (restore m dumps c.isolation)
                        (restore_v4l2_binding m clock c s).1).0
                    && is_ok
                        (restore_cpu_frequency m clock c
                          (on_isolation m clock c dumps power_dumps
                            (restore m dumps c.isolation)
                            (restore_v4l2_binding m clock c s).1).1).0))
              ≡ all_returned
            → IsAttempted all_returned s
                (restore_cpu_frequency m clock c
                  (on_isolation m clock c dumps power_dumps
                    (restore m dumps c.isolation)
                    (restore_v4l2_binding m clock c s).1).1).1
        attempted all_returned e = record {
          binding = _;
          isolation = _;
          frequency = _;
          rebound = _;
          stopped = _;
          binding_run = refl;
          isolation_run = refl;
          frequency_run = refl;
          outcome = e;
        }

    -- `cleanup` runs all three restorations, one behind the other, whichever of them fail, and returns exactly
    -- if none of them raises. The isolation is inactive in any case; and if `cleanup` returns, the USB
    -- binding, the isolation and the CPU frequency have nothing left to restore.
    pub cleanup-IsClean :
        (o : Controls) (w : W)
        → IsConsistent o.isolation
        → After {S = Controls × W}
            (λ _ t. IsAttempted true (o, w) t × IsClean t.0 × IsInactive t.0.isolation)
            (λ _ t. IsAttempted false (o, w) t × IsInactive t.0.isolation)
            (cleanup m clock c dumps power_dumps (o, w))
    cleanup-IsClean o w k =
        both (cleanup m clock c dumps power_dumps (o, w)) (cleanup-IsAttempted (o, w))
          (both_ways o w k)
      where
        both :
            (r : Result Error (Unit {0}) × (Controls × W))
            → After {S = Controls × W}
                (λ _ t. IsAttempted true (o, w) t)
                (λ _ t. IsAttempted false (o, w) t)
                r
            → After {S = Controls × W}
                (λ _ t. IsClean t.0 × IsInactive t.0.isolation)
                (λ _ t. IsInactive t.0.isolation)
                r
            → After {S = Controls × W}
                (λ _ t. IsAttempted true (o, w) t × IsClean t.0 × IsInactive t.0.isolation)
                (λ _ t. IsAttempted false (o, w) t × IsInactive t.0.isolation)
                r
        both (ok u, t) a c = (a, c.0, c.1)
        both (err e, t) a c = (a, c)
