-- ===== src/CpuList/Sets.antt =====
-- Sets of numbers as strictly ascending lists.
use rs_camera.Prelude.{
  ℕ, zero, suc, ◌+◌, ◌≤◌, ◌<◌, ◌≡◌, refl, Bool, ◌||◌, List, [], ◌∷◌, ◌++◌, arith, ltb, leb, ◌==◌,
  ◌&&◌, if◌then◌else◌, All, any, append-nil, append_assoc,
}

-- `cpus.add(x)`
unfoldable pub set_add : ℕ → List ℕ → List ℕ
set_add x [] = x ∷ []
set_add x (y ∷ ys) = if ltb x y then x ∷ y ∷ ys else if x == y then y ∷ ys else y ∷ set_add x ys

-- `cpus.update(range(first, first + count))`
unfoldable pub add_range : ℕ → ℕ → List ℕ → List ℕ
add_range first zero cpus = cpus
add_range first (suc count) cpus = add_range (first + 1) count (set_add first cpus)

-- Strictly ascending, with every element at least `lo`.
abbrev pub AscendingFrom : ℕ → List ℕ → Type 0
AscendingFrom lo [] = Unit
AscendingFrom lo (x ∷ xs) = (lo ≤ x) × AscendingFrom (suc x) xs

abbrev pub IsAscending : List ℕ → Type 0
IsAscending = AscendingFrom 0

abbrev pub contains : ℕ → List ℕ → Bool
contains n = any (λ m. n == m)

abbrev pub in_range : ℕ → ℕ → ℕ → Bool
in_range first last n = leb first n && leb n last

pub AscendingFrom-weaken :
    (lo lo' : ℕ) (xs : List ℕ) → lo ≤ lo' → AscendingFrom lo' xs → AscendingFrom lo xs
AscendingFrom-weaken lo lo' [] h a = tt
AscendingFrom-weaken lo lo' (x ∷ xs) h a = (omega arith, a.1)

pub set_add-AscendingFrom :
    (lo x : ℕ) (xs : List ℕ) → lo ≤ x → AscendingFrom lo xs → AscendingFrom lo (set_add x xs)
unfolding set_add
set_add-AscendingFrom lo x [] h a = (h, tt)
set_add-AscendingFrom lo x (y ∷ ys) h a = ground (arith, set_add-AscendingFrom (suc y) x ys)

pub add_range-IsAscending :
    (first count : ℕ) (xs : List ℕ) → IsAscending xs → IsAscending (add_range first count xs)
unfolding add_range
add_range-IsAscending first zero xs a = a
add_range-IsAscending first (suc count) xs a =
    add_range-IsAscending (first + 1) count (set_add first xs)
      (set_add-AscendingFrom 0 first xs (omega arith) a)

pub contains-set_add :
    (n x : ℕ) (xs : List ℕ) → contains n (set_add x xs) ≡ (n == x || contains n xs)
unfolding set_add
contains-set_add n x [] = refl
contains-set_add n x (y ∷ ys) = ground (arith, contains-set_add n x ys)

pub contains-add_range :
    (n first count : ℕ) (xs : List ℕ)
    → contains n (add_range first count xs)
      ≡ ((leb first n && ltb n (first + count)) || contains n xs)
unfolding add_range
contains-add_range n first zero xs = ground arith
contains-add_range n first (suc count) xs =
    ground (
      arith,
      contains-add_range n (first + 1) count (set_add first xs),
      contains-set_add n first xs,
    )

-- The numbers from `first` on, `count` of them.
abbrev pub interval : ℕ → ℕ → List ℕ
interval first zero = []
interval first (suc count) = first ∷ interval (suc first) count

-- What lies above every element goes to the end.
pub set_add_last : (x : ℕ) (xs : List ℕ) → All (λ y. y < x) xs → set_add x xs ≡ xs ++ x ∷ []
unfolding set_add
set_add_last x [] h = refl
set_add_last x (y ∷ ys) h = ground (arith, set_add_last x ys)

pub All-lt-suc : (x : ℕ) (xs : List ℕ) → All (λ y. y < x) xs → All (λ y. y < suc x) (xs ++ x ∷ [])
All-lt-suc x [] h = (omega arith, tt)
All-lt-suc x (y ∷ ys) h = (omega arith, All-lt-suc x ys h.1)

pub add_range_last :
    (first count : ℕ) (xs : List ℕ)
    → All (λ y. y < first) xs
    → add_range first count xs ≡ xs ++ interval first count
unfolding add_range
add_range_last first zero xs h = rw append-nil
add_range_last first (suc count) xs h =
    let e : first + 1 ≡ suc first = omega arith in
    rw (set_add_last first xs h) (
      rw e (
        rw (add_range_last (suc first) count (xs ++ first ∷ []) (All-lt-suc first xs h))
          (append_assoc xs (first ∷ []) (interval (suc first) count))))
