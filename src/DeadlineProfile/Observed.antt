-- ===== src/DeadlineProfile/Observed.antt =====
-- The extremes of the observations of a role bound each of them.
use rs_camera.Prelude.{ℕ, ◌≤◌, ◌≡◌, Option, none, some, List, [], ◌∷◌, ◌++◌, All, arith, subst}
use mathlib.Core.Option.{some-injective}
use rs_camera.Text.{Str}
use rs_camera.DeadlineProfile.Profile.{
  Observation, Threads, Key, find_thread, observations_of, role_observations, max_execution,
  min_period, larger, smaller,
}

pub larger-left : (a b : ℕ) → a ≤ larger a b
larger-left a b = ground arith

pub larger-above : (a b n : ℕ) → n ≤ b → n ≤ larger a b
larger-above a b n l = ground arith

pub smaller-left : (a b : ℕ) → smaller a b ≤ a
smaller-left a b = ground arith

pub smaller-below : (a b n : ℕ) → b ≤ n → smaller a b ≤ n
smaller-below a b n l = ground arith

widen :
    {P Q : Observation → Type 0}
    → ((o : Observation) → P o → Q o)
    → (os : List Observation) → All P os
    → All Q os
widen f [] a = tt
widen f (o ∷ os) a = (f o a.0, widen f os a.1)

pub both :
    {P Q R : Observation → Type 0}
    → ((o : Observation) → P o → Q o → R o)
    → (os : List Observation) → All P os
    → All Q os
    → All R os
both f [] a b = tt
both f (o ∷ os) a b = (f o a.0 b.0, both f os a.1 b.1)

pub max_execution-le : (os : List Observation) → All (λ o. o.execution_ns ≤ max_execution os) os
unfolding max_execution
max_execution-le [] = tt
max_execution-le (o ∷ os) = (
  larger-left o.execution_ns (max_execution os),
  widen {P = λ o. o.execution_ns ≤ max_execution os}
      (λ p. larger-above o.execution_ns (max_execution os) p.execution_ns) os (max_execution-le os),
)

pub min_period-le : (os : List Observation) → All (λ o. min_period os ≤ o.period_ns) os
unfolding min_period
min_period-le [] = tt
min_period-le (o ∷ []) = (ground arith, tt)
min_period-le (o ∷ p ∷ os) = (
  smaller-left o.period_ns (min_period (p ∷ os)),
  widen {P = λ o. min_period (p ∷ os) ≤ o.period_ns}
      (λ q. smaller-below o.period_ns (min_period (p ∷ os)) q.period_ns) (p ∷ os)
      (min_period-le (p ∷ os)),
)

All-left : (P : Observation → Type 0) (os ps : List Observation) → All P (os ++ ps) → All P os
All-left P [] ps h = tt
All-left P (o ∷ os) ps h = (h.0, All-left P os ps h.1)

All-right : (P : Observation → Type 0) (os ps : List Observation) → All P (os ++ ps) → All P ps
All-right P [] ps h = h
All-right P (o ∷ os) ps h = All-right P os ps h.1

-- What holds of all observations of a role holds of those of each instance.
pub role-All :
    (P : Observation → Type 0) (signature : Str) (runs : List Threads) (instances : List ℕ)
    → All P (role_observations signature runs instances)
    → All (λ i. All P (observations_of (signature, i) runs)) instances
unfolding role_observations
role-All P signature runs [] a = tt
role-All P signature runs (i ∷ instances) a =
    let mine = observations_of (signature, i) runs in
    let others = role_observations signature runs instances in
    (All-left P mine others a, role-All P signature runs instances (All-right P mine others a))

present :
    (P : Observation → Type 0) (r : Option Observation) (os : List Observation)
    → All P (elim r [ none ↦ os | some o ↦ o ∷ os ])
    → ((o : Observation) → r ≡ some o → P o) × All P os
present P none os a = ((λ o e. cc e), a)
present P (some p) os a = ((λ o e. subst P (some-injective p o e) a.0), a.1)

-- And so it holds of what any run has found.
pub observations-All :
    (P : Observation → Type 0) (k : Key) (runs : List Threads)
    → All P (observations_of k runs)
    → All (λ run. (o : Observation) → find_thread k run ≡ some o → P o) runs
unfolding observations_of
observations-All P k [] a = tt
observations-All P k (run ∷ runs) a =
    let (first, rest) = present P (find_thread k run) (observations_of k runs) a in
    (first, observations-All P k runs rest)
