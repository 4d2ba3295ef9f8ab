-- ===== src/Timerlat/Ranking.antt =====
-- What `_nearest_rank` finds, by the numbers of samples up to a latency.
use rs_camera.Prelude.{
  ℕ, ◌+◌, ◌≤◌, ◌<◌, ◌≡◌, refl, inl, inr, none, some, [], ◌∷◌, arith, ltb, leb, ◌==◌, Bool-cases,
  ==_iff, All, ◌∙◌, ◌↔◌, ◌⊎◌, if◌then◌else◌,
}
use rs_camera.Timerlat.Rank.{
  Buckets, insert_bucket, sorted_buckets, rank_from, nearest_rank, sum_counts,
}

-- The number of samples of at most `latency`.
pub count_le : ℕ → Buckets → ℕ
count_le latency [] = 0
count_le latency ((l, count) ∷ bs) = (if leb l latency then count else 0) + count_le latency bs

abbrev Above : ℕ → Buckets → Type 0
Above latency = All (λ (b : ℕ × ℕ). latency ≤ b.0)

abbrev IsAscending : Buckets → Type 0
IsAscending [] = Unit
IsAscending (b ∷ bs) = Above b.0 bs × IsAscending bs

Above-weaken : (l k : ℕ) (bs : Buckets) → l ≤ k → Above k bs → Above l bs
Above-weaken l k [] h a = tt
Above-weaken l k (b ∷ bs) h a = (omega (arith, a.0), Above-weaken l k bs h a.1)

Above-insert :
    (l : ℕ) (b : ℕ × ℕ) (bs : Buckets) → l ≤ b.0 → Above l bs → Above l (insert_bucket b bs)
unfolding insert_bucket
Above-insert l b [] h a = (h, tt)
Above-insert l b (d ∷ ds) h a = elim (Bool-cases (leb b.0 d.0)) [
  | inl before ↦ rw before (h, a)
  | inr behind ↦ rw behind (a.0, Above-insert l b ds h a.1)
]

insert-IsAscending : (b : ℕ × ℕ) (bs : Buckets) → IsAscending bs → IsAscending (insert_bucket b bs)
unfolding insert_bucket
insert-IsAscending b [] s = (tt, tt)
insert-IsAscending b (d ∷ ds) s = elim (Bool-cases (leb b.0 d.0)) [
  | inl before ↦ rw before ((ground arith, Above-weaken b.0 d.0 ds (ground arith) s.0), s)
  | inr behind ↦ rw behind (Above-insert d.0 b ds (ground arith) s.0, insert-IsAscending b ds s.1)
]

sorted-IsAscending : (bs : Buckets) → IsAscending (sorted_buckets bs)
unfolding sorted_buckets
sorted-IsAscending [] = tt
sorted-IsAscending (b ∷ bs) = insert-IsAscending b (sorted_buckets bs) (sorted-IsAscending bs)

count_le-insert :
    (l : ℕ) (b : ℕ × ℕ) (bs : Buckets) → count_le l (insert_bucket b bs) ≡ count_le l (b ∷ bs)
unfolding insert_bucket count_le
count_le-insert l b [] = refl
count_le-insert l b (d ∷ ds) = elim (Bool-cases (leb b.0 d.0)) [
  | inl before ↦ rw before refl
  | inr behind ↦ rw behind (omega (arith, count_le-insert l b ds))
]

count_le-sorted : (l : ℕ) (bs : Buckets) → count_le l (sorted_buckets bs) ≡ count_le l bs
unfolding sorted_buckets count_le
count_le-sorted l [] = refl
count_le-sorted l (b ∷ bs) =
    count_le-insert l b (sorted_buckets bs) ∙ omega (arith, count_le-sorted l bs)

count_le_below : (l : ℕ) (bs : Buckets) (k : ℕ) → l < k → Above k bs → count_le l bs ≡ 0
unfolding count_le
count_le_below l [] k h a = refl
count_le_below l (b ∷ bs) k h a = ground (arith, count_le_below l bs k h a.1)

-- `latency` is the least one that `target` samples do not exceed.
pub record IsRank (target latency : ℕ) (bs : Buckets) : Type 0 where
  pub reached : target ≤ count_le latency bs
  pub least : (smaller : ℕ) → smaller < latency → count_le smaller bs < target

rank_from-le :
    (target cumulative k : ℕ) (bs : Buckets) (latency : ℕ)
    → Above k bs
    → rank_from target cumulative bs ≡ some latency
    → k ≤ latency
unfolding rank_from
rank_from-le target cumulative k [] latency a e = cc e
rank_from-le target cumulative k (b ∷ bs) latency a e =
    elim (Bool-cases (leb target (cumulative + b.1))) [
      | inl reached ↦ let same : b.0 ≡ latency = cc (rw reached at e) in omega (arith, a.0)
      | inr short ↦ rank_from-le target (cumulative + b.1) k bs latency a.1 (rw short at e)
    ]

rank_from-IsRank :
    (target cumulative : ℕ) (bs : Buckets) (latency : ℕ)
    → cumulative < target
    → IsAscending bs
    → rank_from target cumulative bs ≡ some latency
    → (target ≤ cumulative + count_le latency bs)
      × ((smaller : ℕ) → smaller < latency → cumulative + count_le smaller bs < target)
unfolding rank_from count_le
rank_from-IsRank target cumulative [] latency lt s e = cc e
rank_from-IsRank target cumulative (b ∷ bs) latency lt s e =
    elim (Bool-cases (leb target (cumulative + b.1))) [
      | inl reached ↦
          let same : b.0 ≡ latency = cc (rw reached at e) in
          (
            ground arith,
            λ smaller h. ground (arith, count_le_below smaller bs b.0 (omega arith) s.0),
          )
      | inr short ↦
          let rest =
            rank_from-IsRank target (cumulative + b.1) bs latency (ground arith) s.1
              (rw short at e) in
          let above : b.0 ≤ latency =
            rank_from-le target (cumulative + b.1) b.0 bs latency s.0 (rw short at e) in
          (ground (arith, rest.0), λ smaller h. ground (arith, rest.1 smaller h))
    ]

rank_from-none :
    (target cumulative : ℕ) (bs : Buckets)
    → cumulative < target
    → (rank_from target cumulative bs ≡ none) ↔ (cumulative + sum_counts bs < target)
unfolding rank_from sum_counts
rank_from-none target cumulative [] lt = (λ _. omega arith, λ _. refl)
rank_from-none target cumulative (b ∷ bs) lt = elim (Bool-cases (leb target (cumulative + b.1))) [
  | inl reached ↦ rw reached (λ e. cc e, λ h. absurd (ground arith))
  | inr short ↦
      let rest = rank_from-none target (cumulative + b.1) bs (ground arith) in
      rw short (λ e. omega (arith, rest.0 e), λ h. rest.1 (omega arith))
]

sum_counts-insert :
    (b : ℕ × ℕ) (bs : Buckets) → sum_counts (insert_bucket b bs) ≡ b.1 + sum_counts bs
unfolding insert_bucket sum_counts
sum_counts-insert b [] = refl
sum_counts-insert b (d ∷ ds) = elim (Bool-cases (leb b.0 d.0)) [
  | inl before ↦ rw before refl
  | inr behind ↦ rw behind (omega (arith, sum_counts-insert b ds))
]

sum_counts-sorted : (bs : Buckets) → sum_counts (sorted_buckets bs) ≡ sum_counts bs
unfolding sorted_buckets sum_counts
sum_counts-sorted [] = refl
sum_counts-sorted (b ∷ bs) =
    sum_counts-insert b (sorted_buckets bs) ∙ omega (arith, sum_counts-sorted bs)

-- `max(1, scaled)`
abbrev pub target_of : ℕ → ℕ
target_of scaled = if ltb scaled 1 then 1 else scaled

target_pos : (scaled : ℕ) → 0 < target_of scaled
target_pos scaled = ground arith

-- A rank that is found is the least latency that at least the target number of samples do not exceed,
-- and one is found unless there are no samples at all or the target lies in the overflow.
pub nearest_rank-IsRank :
    (bs : Buckets) (total scaled : ℕ)
    → ((latency : ℕ)
        → nearest_rank bs total scaled ≡ some latency
        → IsRank (target_of scaled) latency bs)
      × ((nearest_rank bs total scaled ≡ none) ↔ ((total ≡ 0) ⊎ (sum_counts bs < target_of scaled)))
unfolding nearest_rank
nearest_rank-IsRank bs total scaled =
    let missing = rank_from-none (target_of scaled) 0 (sorted_buckets bs) (target_pos scaled) in
    elim (Bool-cases (total == 0)) [
      | inl empty ↦ rw empty (λ latency e. cc e, (λ _. inl ((==_iff total 0).0 empty), λ _. refl))
      | inr filled ↦ rw filled (
        λ latency e.
            let found =
              rank_from-IsRank (target_of scaled) 0 (sorted_buckets bs) latency (target_pos scaled)
                (sorted-IsAscending bs) e in
            record {
              reached = omega (arith, found.0, count_le-sorted latency bs);
              least = λ smaller h. omega (arith, found.1 smaller h, count_le-sorted smaller bs);
            },
        (
          λ e. inr (omega (arith, missing.0 e, sum_counts-sorted bs)),
          λ h. elim h [
            | inl nothing ↦ absurd (ground (arith, filled))
            | inr beyond ↦ missing.1 (omega (arith, sum_counts-sorted bs))
          ],
        ),
      )
    ]
