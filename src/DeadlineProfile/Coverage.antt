-- ===== src/DeadlineProfile/Coverage.antt =====
-- What the rows of a profile grant.
use rs_camera.Prelude.{
  ℕ, ◌≤◌, ◌*◌, ◌≡◌, refl, some, List, [], ◌∷◌, All, All-append, arith, Bool-cases, inl, inr, subst,
  ltb, ◌==◌,
}
use rs_camera.Prelude.Exec.{Result, ok, err, ok-injective}
use rs_camera.Prelude.Errors.{Error}
use rs_camera.Text.{Str}
use rs_camera.DeadlineProfile.Profile.{
  Observation, Threads, Profile, ProfileRow, Settings, find_thread, observations_of,
  role_observations, max_execution, min_period, runtime_for, period_for, rows_of, role_of, roles_of,
  instances_of, exceeds, join_profiles, not_empty, after_check, generate_profile, check_runs,
  sorted_signatures,
}
use rs_camera.DeadlineProfile.Observed.{
  larger-left, larger-above, smaller-left, smaller-below, max_execution-le, min_period-le, role-All,
  observations-All, both,
}

-- A row is a reservation that the kernel admits, and no run has found its thread to need more than it
-- grants.
pub record IsReserved (s : Settings) (runs : List Threads) (row : ProfileRow) : Type 0 where
  pub minimum : s.minimum_runtime_us * 1000 ≤ row.runtime_ns
  pub admitted : row.runtime_ns ≤ row.deadline_ns
  pub implicit_deadline : row.deadline_ns ≡ row.period_ns
  pub maximum : row.period_ns ≤ s.maximum_period_us * 1000
  pub covered :
      All
        (λ run.
          (o : Observation)
          → find_thread (row.signature, row.instance_number) run ≡ some o
          → (s.with_margin o.execution_ns ≤ row.runtime_ns)
            × (row.period_ns ≤ s.scaled o.period_ns))
        runs

module _ (s : Settings) (runs : List Threads)
    (margin_monotone : (a b : ℕ) → a ≤ b → s.with_margin a ≤ s.with_margin b)
    (scale_monotone : (a b : ℕ) → a ≤ b → s.scaled a ≤ s.scaled b) where
  abbrev Granted : ℕ → ℕ → Observation → Type 0
  Granted runtime period o =
      (s.with_margin o.execution_ns ≤ runtime) × (period ≤ s.scaled o.period_ns)

  rows-IsReserved :
      (signature : Str) (runtime period : ℕ) (instances : List ℕ)
      → s.minimum_runtime_us * 1000 ≤ runtime
      → runtime ≤ period
      → period ≤ s.maximum_period_us * 1000
      → All (λ i. All (Granted runtime period) (observations_of (signature, i) runs)) instances
      → All (IsReserved s runs) (rows_of signature runs runtime period instances)
  unfolding rows_of
  rows-IsReserved signature runtime period [] l m n a = tt
  rows-IsReserved signature runtime period (i ∷ instances) l m n a = (
    record {
      minimum = l;
      admitted = m;
      implicit_deadline = refl;
      maximum = n;
      covered = observations-All (Granted runtime period) (signature, i) runs a.0;
    },
    rows-IsReserved signature runtime period instances l m n a.1,
  )

  role-Granted :
      (signature : Str) (instances : List ℕ)
      → let os = role_observations signature runs instances in
        All (Granted (runtime_for s os) (period_for s os)) os
  role-Granted signature instances =
      let os = role_observations signature runs instances in
      both {P = λ o. o.execution_ns ≤ max_execution os} {Q = λ o. min_period os ≤ o.period_ns}
        (λ o e p. (
          larger-above (s.minimum_runtime_us * 1000) (s.with_margin (max_execution os))
              (s.with_margin o.execution_ns) (margin_monotone o.execution_ns (max_execution os) e),
          smaller-below (s.maximum_period_us * 1000) (s.scaled (min_period os))
              (s.scaled o.period_ns) (scale_monotone (min_period os) o.period_ns p),
        ))
        os (max_execution-le os) (min_period-le os)

  role-IsReserved :
      (signature : Str) (instances : List ℕ) (p : Profile)
      → role_of s runs signature instances ≡ ok p
      → All (IsReserved s runs) p.0
  unfolding role_of
  role-IsReserved signature instances p e =
      let os = role_observations signature runs instances in
      elim (Bool-cases (exceeds (min_period os) s.maximum_modeled_period_us)) [
        | inl far ↦
            subst (λ (q : Profile). All (IsReserved s runs) q.0) (ok-injective (rw far at e)) tt
        | inr near ↦ elim (Bool-cases (ltb (period_for s os) (runtime_for s os))) [
          | inl late ↦ cc (rw (near, late) at e)
          | inr fits ↦ elim (Bool-cases (period_for s os == 0)) [
            | inl nothing ↦ cc (rw (near, fits, nothing) at e)
            | inr positive ↦
                subst (λ (q : Profile). All (IsReserved s runs) q.0)
                  (ok-injective (rw (near, fits, positive) at e))
                  (rows-IsReserved signature (runtime_for s os) (period_for s os) instances
                    (larger-left (s.minimum_runtime_us * 1000) (s.with_margin (max_execution os)))
                    (ground arith)
                    (smaller-left (s.maximum_period_us * 1000) (s.scaled (min_period os)))
                    (role-All (Granted (runtime_for s os) (period_for s os)) signature runs
                      instances (role-Granted signature instances)))
          ]
        ]
      ]

  joined :
      (r q : Result Error Profile) (p : Profile)
      → join_profiles r q ≡ ok p
      → ((a : Profile) → r ≡ ok a → All (IsReserved s runs) a.0)
      → ((b : Profile) → q ≡ ok b → All (IsReserved s runs) b.0)
      → All (IsReserved s runs) p.0
  joined (ok a) (ok b) p e f g =
      subst (λ (c : Profile). All (IsReserved s runs) c.0) (ok-injective e)
        (All-append (IsReserved s runs) a.0 b.0 (f a refl) (g b refl))
  joined (ok a) (err x) p e f g = cc e
  joined (err x) q p e f g = cc e

  roles-IsReserved :
      (expected : Threads) (names : List Str) (p : Profile)
      → roles_of s runs expected names ≡ ok p
      → All (IsReserved s runs) p.0
  unfolding roles_of
  roles-IsReserved expected [] p e =
      subst (λ (q : Profile). All (IsReserved s runs) q.0) (ok-injective e) tt
  roles-IsReserved expected (name ∷ names) p e =
      joined (role_of s runs name (instances_of name expected)) (roles_of s runs expected names) p e
        (role-IsReserved name (instances_of name expected)) (roles-IsReserved expected names)

pub checked :
    (c : Result Error (Unit {0})) (r : Result Error Profile) (p : Profile)
    → after_check c (not_empty r) ≡ ok p
    → r ≡ ok p
checked (ok u) (ok ([], excluded)) p e = cc e
checked (ok u) (ok (row ∷ rows, excluded)) p e = e
checked (ok u) (err f) p e = cc e
checked (err f) r p e = cc e

-- If `generate_profile` returns, where a product with the margin and one with the scale grow with the number:
-- every row has a runtime of at least the minimum and at most the deadline, which is the period and at most
-- the maximum; its runtime is at least every observed execution of the thread with the margin, and its
-- period at most every observed period of the thread with the scale.
pub generate_profile-IsReserved :
    (s : Settings) (runs : List Threads) (p : Profile)
    → ((a b : ℕ) → a ≤ b → s.with_margin a ≤ s.with_margin b)
    → ((a b : ℕ) → a ≤ b → s.scaled a ≤ s.scaled b)
    → generate_profile s runs ≡ ok p
    → All (IsReserved s runs) p.0
unfolding generate_profile
generate_profile-IsReserved s [] p m n e = elim (Bool-cases s.margin_below_one) [
  | inl low ↦ cc (rw low at e)
  | inr high ↦ elim (Bool-cases s.scale_valid) [
    | inl valid ↦ cc (rw (high, valid) at e)
    | inr invalid ↦ cc (rw (high, invalid) at e)
  ]
]
generate_profile-IsReserved s (first ∷ rest) p m n e = elim (Bool-cases s.margin_below_one) [
  | inl low ↦ cc (rw low at e)
  | inr high ↦ elim (Bool-cases s.scale_valid) [
    | inl valid ↦ roles-IsReserved s (first ∷ rest) m n first (sorted_signatures first) p (
        checked (check_runs first 2 rest)
          (roles_of s (first ∷ rest) first (sorted_signatures first)) p (rw (high, valid) at e))
    | inr invalid ↦ cc (rw (high, invalid) at e)
  ]
]
