-- ===== src/Kernel/Words.antt =====
-- The words of a new kernel command line are read back by `split`, so that the kernel that boots with
-- it is the one that `boot_matches` waits for.
use rs_camera.Prelude.{
  ℕ, Bool, true, false, not, ◌≡◌, refl, inl, inr, List, [], ◌∷◌, ◌++◌, All, All-append, any, all,
  is_empty, arith, Bool-cases, append_assoc, append-nil, ◌∙◌, ap,
}
use rs_camera.Text.{Str, codes, str_eq, is_space, join}
use rs_camera.Text.Words.{words, words_from}
use rs_camera.Kernel.Selection.{without_threadirqs, select_words}

-- Not empty, and without white space.
abbrev pub IsWord : Str → Type 0
IsWord w = (is_empty w ≡ false) × (all (λ c. not (is_space c)) w ≡ true)

all-snoc :
    (w : Str) (c : ℕ)
    → all (λ d. not (is_space d)) w ≡ true
    → is_space c ≡ false
    → all (λ d. not (is_space d)) (w ++ c ∷ []) ≡ true
all-snoc [] c a e = rw e refl
all-snoc (d ∷ w) c a e = ground (arith, all-snoc w c)

snoc-filled : (w : Str) (c : ℕ) → is_empty (w ++ c ∷ []) ≡ false
snoc-filled [] c = refl
snoc-filled (d ∷ w) c = refl

words_from-IsWord :
    (word s : Str) → all (λ c. not (is_space c)) word ≡ true → All IsWord (words_from word s)
unfolding words_from
words_from-IsWord word [] a = elim (Bool-cases (is_empty word)) [
  | inl blank ↦ rw blank tt
  | inr filled ↦ rw filled ((filled, a), tt)
]
words_from-IsWord word (c ∷ s) a = elim (Bool-cases (is_space c)) [
  | inr letter ↦ rw letter (words_from-IsWord (word ++ c ∷ []) s (all-snoc word c a letter))
  | inl space ↦ elim (Bool-cases (is_empty word)) [
    | inl blank ↦ rw (space, blank) (words_from-IsWord [] s refl)
    | inr filled ↦ rw (space, filled) ((filled, a), words_from-IsWord [] s refl)
  ]
]

-- A word in front is read as a whole.
words_from-append :
    (word w s : Str)
    → all (λ c. not (is_space c)) w ≡ true
    → words_from word (w ++ s) ≡ words_from (word ++ w) s
unfolding words_from
words_from-append word [] s a = rw append-nil refl
words_from-append word (c ∷ w) s a =
    let letter : is_space c ≡ false = ground arith in
    let more : all (λ d. not (is_space d)) w ≡ true = ground arith in
    rw letter (
      words_from-append (word ++ c ∷ []) w s more
      ∙ ap (λ x. words_from x s) (append_assoc word (c ∷ []) w))

pub words-join : (ws : List Str) → All IsWord ws → words (join (codes " ") ws ++ 10 ∷ []) ≡ ws
unfolding words words_from join
words-join [] a = refl
words-join (w ∷ []) a = words_from-append [] w (10 ∷ []) a.0.1 ∙ rw a.0.0 refl
words-join (w ∷ v ∷ ws) a =
    ap (words_from []) (append_assoc w (32 ∷ join (codes " ") (v ∷ ws)) (10 ∷ []))
    ∙ (words_from-append [] w (32 ∷ join (codes " ") (v ∷ ws) ++ 10 ∷ []) a.0.1
        ∙ rw a.0.0 (ap (λ rest. w ∷ rest) (words-join (v ∷ ws) a.1)))

without_threadirqs-IsWord : (ws : List Str) → All IsWord ws → All IsWord (without_threadirqs ws)
unfolding without_threadirqs
without_threadirqs-IsWord [] a = tt
without_threadirqs-IsWord (w ∷ ws) a = elim (Bool-cases (str_eq (codes "threadirqs") w)) [
  | inl dropped ↦ rw dropped (without_threadirqs-IsWord ws a.1)
  | inr kept ↦ rw kept (a.0, without_threadirqs-IsWord ws a.1)
]

pub select_words-IsWord :
    (cmdline : Str) (threaded : Bool) → All IsWord (select_words cmdline threaded)
unfolding select_words words
select_words-IsWord cmdline true =
    All-append IsWord (without_threadirqs (words_from [] cmdline)) _
      (without_threadirqs-IsWord _ (words_from-IsWord [] cmdline refl)) ((refl, refl), tt)
select_words-IsWord cmdline false =
    All-append IsWord (without_threadirqs (words_from [] cmdline)) _
      (without_threadirqs-IsWord _ (words_from-IsWord [] cmdline refl)) tt

pub without_threadirqs-none :
    (ws : List Str) → any (str_eq (codes "threadirqs")) (without_threadirqs ws) ≡ false
unfolding without_threadirqs
without_threadirqs-none [] = refl
without_threadirqs-none (w ∷ ws) = elim (Bool-cases (str_eq (codes "threadirqs") w)) [
  | inl dropped ↦ rw dropped (without_threadirqs-none ws)
  | inr kept ↦ rw kept rw kept (without_threadirqs-none ws)
]
