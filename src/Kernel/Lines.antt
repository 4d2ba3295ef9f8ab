-- ===== src/Kernel/Lines.antt =====
-- The lines of a text: `split` on LF with `rstrip` and `join`.
use rs_camera.Prelude.{
  ℕ, true, false, ◌&&◌, ◌≡◌, refl, inl, inr, List, [], ◌∷◌, ◌++◌, All, is_empty, arith, Bool-cases,
  ◌==◌, ap,
}
use rs_camera.Text.{Str, split, join, rstrip, cons_head, is_space}
use rs_camera.Text.Pieces.{lacks, split-join}
use rs_camera.Text.Words.{starts_with}

-- Every line has a line of the other text behind it that it is a prefix of.
unfoldable pub Shorter : List Str → List Str → Type 0
Shorter [] ms = Unit
Shorter (x ∷ ls) [] = ⊥
Shorter (x ∷ ls) (m ∷ ms) = (starts_with x m ≡ true) × Shorter ls ms

pub starts_with_trans :
    (p x m : Str) → starts_with p x ≡ true → starts_with x m ≡ true → starts_with p m ≡ true
unfolding starts_with
starts_with_trans [] x m a b = refl
starts_with_trans (c ∷ p) [] m a b = ground arith
starts_with_trans (c ∷ p) (d ∷ x) [] a b = ground arith
starts_with_trans (c ∷ p) (d ∷ x) (e ∷ m) a b = ground (arith, starts_with_trans p x m)

Shorter-cons_head :
    (c : ℕ) (ls ms : List Str) → Shorter ls ms → Shorter (cons_head c ls) (cons_head c ms)
unfolding Shorter starts_with
Shorter-cons_head c [] [] h = (ground arith, tt)
Shorter-cons_head c [] (m ∷ ms) h = (ground arith, tt)
Shorter-cons_head c (x ∷ ls) [] h = elim h [ ]
Shorter-cons_head c (x ∷ ls) (m ∷ ms) h = (ground (arith, h.0), h.1)

blank-cons_head : (c : ℕ) (ls : List Str) → Shorter ([] ∷ []) (cons_head c ls)
unfolding Shorter starts_with
blank-cons_head c [] = (refl, tt)
blank-cons_head c (l ∷ ls) = (refl, tt)

blank-split : (s : Str) → Shorter ([] ∷ []) (split 10 s)
unfolding Shorter split starts_with
blank-split [] = (refl, tt)
blank-split (c ∷ s) = elim (Bool-cases (c == 10)) [
  | inl break ↦ rw break (refl, tt)
  | inr letter ↦ rw letter (blank-cons_head c (split 10 s))
]

pub Shorter-rstrip : (s : Str) → Shorter (split 10 (rstrip s)) (split 10 s)
unfolding Shorter split rstrip starts_with
Shorter-rstrip [] = (refl, tt)
Shorter-rstrip (c ∷ s) = elim (Bool-cases (is_empty (rstrip s) && is_space c)) [
  | inl end ↦ rw end (blank-split (c ∷ s))
  | inr kept ↦ rw kept (elim (Bool-cases (c == 10)) [
    | inl break ↦ rw break (refl, Shorter-rstrip s)
    | inr letter ↦
        rw letter (Shorter-cons_head c (split 10 (rstrip s)) (split 10 s) (Shorter-rstrip s))
  ])
]

cons_head-append :
    (c : ℕ) (xs ys : List Str) → is_empty xs ≡ false → cons_head c (xs ++ ys) ≡ cons_head c xs ++ ys
cons_head-append c [] ys h = ground arith
cons_head-append c (x ∷ xs) ys h = refl

cons_head-filled : (c : ℕ) (xs : List Str) → is_empty (cons_head c xs) ≡ false
cons_head-filled c [] = refl
cons_head-filled c (x ∷ xs) = refl

pub split-filled : (s : Str) → is_empty (split 10 s) ≡ false
unfolding split
split-filled [] = refl
split-filled (c ∷ s) = elim (Bool-cases (c == 10)) [
  | inl break ↦ rw break refl
  | inr letter ↦ rw letter (cons_head-filled c (split 10 s))
]

pub lines_lack : (s : Str) → All (λ u. lacks 10 u ≡ true) (split 10 s)
unfolding split
lines_lack [] = (refl, tt)
lines_lack (c ∷ s) = elim (Bool-cases (c == 10)) [
  | inl break ↦ rw break (refl, lines_lack s)
  | inr letter ↦ rw letter (cons_head-lacks c (split 10 s) letter (lines_lack s))
]
  where
    cons_head-lacks :
        (d : ℕ) (xs : List Str)
        → (d == 10) ≡ false
        → All (λ u. lacks 10 u ≡ true) xs
        → All (λ u. lacks 10 u ≡ true) (cons_head d xs)
    cons_head-lacks d [] e h = (rw e refl, tt)
    cons_head-lacks d (x ∷ xs) e h = (rw e h.0, h.1)

pub split-lines : (s t : Str) → split 10 (s ++ 10 ∷ t) ≡ split 10 s ++ split 10 t
unfolding split
split-lines [] t = refl
split-lines (c ∷ s) t = elim (Bool-cases (c == 10)) [
  | inl break ↦ rw break (ap (λ r. [] ∷ r) (split-lines s t))
  | inr letter ↦
      rw letter
        (rw (split-lines s t) (cons_head-append c (split 10 s) (split 10 t) (split-filled s)))
]

pub split-joined :
    (lines : List Str)
    → is_empty lines ≡ false
    → All (λ u. lacks 10 u ≡ true) lines
    → split 10 (join (10 ∷ []) lines) ≡ lines
split-joined [] h a = cc h
split-joined (line ∷ lines) h a = split-join 10 line lines a
