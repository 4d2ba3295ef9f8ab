-- ===== src/DeadlineProfile/Profile.antt =====
-- `generate_profile`, from the threads of each trace run. A product with a factor is made in floating
-- point, so the rounded products are parameters. The metadata file is left out.
use rs_camera.Prelude.{
  ℕ, suc, ◌*◌, Bool, false, not, ◌&&◌, Option, none, some, List, [], ◌∷◌, ◌++◌, ltb, leb, ◌==◌, all,
  any, if◌then◌else◌,
}
use rs_camera.Prelude.Exec.{Result, ok, err}
use rs_camera.Prelude.Errors.{Error, value_error, zero_division_error}
use rs_camera.Text.{Str, codes, str_eq, show}
use rs_camera.Text.Words.{sorted, distinct_texts}

-- What `_trace_threads` finds of one thread, as far as the profile reads it.
pub record Observation : Type 0 where
  pub name : Str
  pub period_ns : ℕ
  pub execution_ns : ℕ

-- A signature and an instance.
abbrev pub Key : Type 0
Key = Str × ℕ

-- The dict of one run; no key stands twice.
abbrev pub Threads : Type 0
Threads = List (Key × Observation)

pub record ProfileRow : Type 0 where
  pub signature : Str
  pub instance_number : ℕ
  pub name : Str
  pub runtime_ns : ℕ
  pub deadline_ns : ℕ
  pub period_ns : ℕ

pub record Excluded : Type 0 where
  pub signature : Str
  pub instance_number : ℕ
  pub name : Str
  pub role_observed_execution_max_ns : ℕ
  pub role_observed_logical_period_min_ns : ℕ

-- The arguments of `generate_profile`.
pub record Settings : Type 0 where
  -- `runtime_margin < 1.0`
  pub margin_below_one : Bool
  -- `0.0 < period_scale <= 1.0`
  pub scale_valid : Bool
  -- `int(math.ceil(n * runtime_margin))`
  pub with_margin : ℕ → ℕ
  -- `int(math.floor(n * period_scale))`
  pub scaled : ℕ → ℕ
  pub minimum_runtime_us : ℕ
  pub maximum_period_us : ℕ
  pub maximum_modeled_period_us : Option ℕ

abbrev pub key_eq : Key → Key → Bool
key_eq (s, i) (t, j) = str_eq s t && i == j

unfoldable pub find_thread : Key → Threads → Option Observation
find_thread k [] = none
find_thread k ((j, o) ∷ ts) = if key_eq k j then some o else find_thread k ts

abbrev pub has_thread : Threads → Key × Observation → Bool
has_thread ts (k, o) = any (λ (t : Key × Observation). key_eq k t.0) ts

-- `set(a) == set(b)`
unfoldable pub same_threads : Threads → Threads → Bool
same_threads a b = all (has_thread b) a && all (has_thread a) b

-- The check of the runs from number `index` on; the message leaves out what is missing and extra.
unfoldable pub check_runs : Threads → ℕ → List Threads → Result Error (Unit {0})
check_runs expected index [] = ok tt
check_runs expected index (run ∷ runs) =
    let rest = check_runs expected (suc index) runs in
    if same_threads run expected
    then rest
    else err (
        value_error
          (codes "trace run " ++ (show index ++ codes " has a different live-thread set")))

-- `[threads[key] for threads in per_run]`; every run has the key behind the check.
unfoldable pub observations_of : Key → List Threads → List Observation
observations_of k [] = []
observations_of k (run ∷ runs) = elim (find_thread k run) [
  | none ↦ observations_of k runs
  | some o ↦ o ∷ observations_of k runs
]

unfoldable pub role_observations : Str → List Threads → List ℕ → List Observation
role_observations signature runs [] = []
role_observations signature runs (i ∷ instances) =
    observations_of (signature, i) runs ++ role_observations signature runs instances

abbrev pub larger : ℕ → ℕ → ℕ
larger a b = if ltb a b then b else a

abbrev pub smaller : ℕ → ℕ → ℕ
smaller a b = if ltb b a then b else a

unfoldable pub max_execution : List Observation → ℕ
max_execution [] = 0
max_execution (o ∷ os) = larger o.execution_ns (max_execution os)

unfoldable pub min_period : List Observation → ℕ
min_period [] = 0
min_period (o ∷ []) = o.period_ns
min_period (o ∷ p ∷ os) = smaller o.period_ns (min_period (p ∷ os))

-- `str(observations_by_instance[instance][0]["name"])`
abbrev pub first_name : List Observation → Str
first_name [] = []
first_name (o ∷ os) = o.name

unfoldable pub rows_of : Str → List Threads → ℕ → ℕ → List ℕ → List ProfileRow
rows_of signature runs runtime period [] = []
rows_of signature runs runtime period (i ∷ instances) =
    record {
      signature = signature;
      instance_number = i;
      name = first_name (observations_of (signature, i) runs);
      runtime_ns = runtime;
      deadline_ns = period;
      period_ns = period;
    }
    ∷ rows_of signature runs runtime period instances

unfoldable pub excluded_of : Str → List Threads → ℕ → ℕ → List ℕ → List Excluded
excluded_of signature runs execution period [] = []
excluded_of signature runs execution period (i ∷ instances) =
    record {
      signature = signature;
      instance_number = i;
      name = first_name (observations_of (signature, i) runs);
      role_observed_execution_max_ns = execution;
      role_observed_logical_period_min_ns = period;
    }
    ∷ excluded_of signature runs execution period instances

abbrev pub exceeds : ℕ → Option ℕ → Bool
exceeds period none = false
exceeds period (some limit_us) = ltb (limit_us * 1000) period

abbrev pub Profile : Type 0
Profile = List ProfileRow × List Excluded

abbrev pub runtime_for : Settings → List Observation → ℕ
runtime_for s os = larger (s.minimum_runtime_us * 1000) (s.with_margin (max_execution os))

abbrev pub period_for : Settings → List Observation → ℕ
period_for s os = smaller (s.maximum_period_us * 1000) (s.scaled (min_period os))

-- The rows and the exclusions of one signature.
unfoldable pub role_of : Settings → List Threads → Str → List ℕ → Result Error Profile
role_of s runs signature instances =
    let observations = role_observations signature runs instances in
    let execution = max_execution observations in
    let observed_period = min_period observations in
    let runtime = runtime_for s observations in
    let period = period_for s observations in
    if exceeds observed_period s.maximum_modeled_period_us
    then ok ([], excluded_of signature runs execution observed_period instances)
    else if ltb period runtime
    then err (
        value_error (
          codes "runtime exceeds deadline for thread role "
          ++ (signature
              ++ (codes ": runtime=" ++ (show runtime ++ (codes ", period=" ++ show period))))))
    else if period == 0
    then err (zero_division_error (codes "division by zero"))
    else ok (rows_of signature runs runtime period instances, [])

unfoldable pub insert_number : ℕ → List ℕ → List ℕ
insert_number n [] = n ∷ []
insert_number n (m ∷ ms) = let rest = insert_number n ms in if leb n m then n ∷ m ∷ ms else m ∷ rest

-- `sorted(instances_by_signature[signature])`
unfoldable pub instances_of : Str → Threads → List ℕ
unfolding insert_number
instances_of signature [] = []
instances_of signature (((s, i), o) ∷ ts) =
    let rest = instances_of signature ts in
    if str_eq s signature then insert_number i rest else rest

abbrev pub signatures : Threads → List Str
signatures [] = []
signatures (((s, i), o) ∷ ts) = s ∷ signatures ts

-- `sorted(instances_by_signature)`
unfoldable pub sorted_signatures : Threads → List Str
sorted_signatures ts = distinct_texts (sorted (signatures ts))

abbrev pub join_profiles : Result Error Profile → Result Error Profile → Result Error Profile
join_profiles (ok p) (ok q) = ok (p.0 ++ q.0, p.1 ++ q.1)
join_profiles (ok p) (err e) = err e
join_profiles (err e) q = err e

unfoldable pub roles_of : Settings → List Threads → Threads → List Str → Result Error Profile
unfolding role_of
roles_of s runs expected [] = ok ([], [])
roles_of s runs expected (signature ∷ rest) =
    join_profiles (role_of s runs signature (instances_of signature expected))
      (roles_of s runs expected rest)

abbrev pub not_empty : Result Error Profile → Result Error Profile
not_empty (ok ([], excluded)) =
    err (value_error (codes "modeled-period filter excluded every live worker"))
not_empty (ok (row ∷ rows, excluded)) = ok (row ∷ rows, excluded)
not_empty (err e) = err e

abbrev pub after_check : Result Error (Unit {0}) → Result Error Profile → Result Error Profile
after_check (ok u) p = p
after_check (err e) p = err e

abbrev pub profile_of : Settings → List Threads → Result Error Profile
profile_of s [] = err (value_error (codes "at least one SCHED_OTHER trace run is required"))
profile_of s (first ∷ rest) =
    after_check (check_runs first 2 rest)
      (not_empty (roles_of s (first ∷ rest) first (sorted_signatures first)))

unfoldable pub generate_profile : Settings → List Threads → Result Error Profile
unfolding roles_of check_runs
generate_profile s runs =
    if s.margin_below_one
    then err (value_error (codes "runtime margin must be at least 1.0"))
    else if not s.scale_valid
    then err (value_error (codes "period scale must be in (0, 1]"))
    else profile_of s runs
