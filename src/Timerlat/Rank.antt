-- ===== src/Timerlat/Rank.antt =====
-- `_nearest_rank` and `_maximum_known`.
use rs_camera.Prelude.{
  ℕ, ◌+◌, Bool, true, false, Option, none, some, List, [], ◌∷◌, ltb, leb, ◌==◌, any, if◌then◌else◌,
}

-- A histogram: latencies in µs with their numbers of samples. No latency stands twice.
abbrev pub Buckets : Type 0
Buckets = List (ℕ × ℕ)

unfoldable pub insert_bucket : ℕ × ℕ → Buckets → Buckets
insert_bucket b [] = b ∷ []
insert_bucket b (d ∷ ds) =
    let rest = insert_bucket b ds in if leb b.0 d.0 then b ∷ d ∷ ds else d ∷ rest

-- `sorted(buckets.items())`
unfoldable pub sorted_buckets : Buckets → Buckets
unfolding insert_bucket
sorted_buckets [] = []
sorted_buckets (b ∷ bs) = insert_bucket b (sorted_buckets bs)

-- The loop of `_nearest_rank`.
unfoldable pub rank_from : ℕ → ℕ → Buckets → Option ℕ
rank_from target cumulative [] = none
rank_from target cumulative ((latency, count) ∷ bs) =
    let rest = rank_from target (cumulative + count) bs in
    if leb target (cumulative + count) then some latency else rest

-- `scaled` is `int(total * quantile + 0.999999999)`.
unfoldable pub nearest_rank : Buckets → ℕ → ℕ → Option ℕ
unfolding sorted_buckets rank_from
nearest_rank buckets total scaled =
    let target = if ltb scaled 1 then 1 else scaled in
    if total == 0 then none else rank_from target 0 (sorted_buckets buckets)

-- `sum(buckets.values())`
unfoldable pub sum_counts : Buckets → ℕ
sum_counts [] = 0
sum_counts ((latency, count) ∷ bs) = count + sum_counts bs

abbrev pub is_none : {A : Type 0} → Option A → Bool
is_none none = true
is_none (some a) = false

abbrev pub max : ℕ → ℕ → ℕ
max a b = if ltb a b then b else a

unfoldable pub max_value : List (Option ℕ) → ℕ
max_value [] = 0
max_value (none ∷ values) = max_value values
max_value (some value ∷ values) = max value (max_value values)

unfoldable pub maximum_known : List (Option ℕ) → Option ℕ
unfolding max_value
maximum_known values = if any is_none values then none else some (max_value values)
