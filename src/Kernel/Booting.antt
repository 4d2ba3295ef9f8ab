-- ===== src/Kernel/Booting.antt =====
-- What a selected kernel boots with.
use rs_camera.Prelude.{
  Bool, true, false, ◌||◌, ◌≡◌, refl, inl, inr, List, [], ◌∷◌, ◌++◌, any, arith, Bool-cases, ltb,
  ◌∙◌, subst,
}
use rs_camera.Prelude.Exec.{ok, ok-injective}
use rs_camera.Text.{Str, codes, str_eq, str_eq_iff, split, join}
use rs_camera.Text.Words.{words, starts_with}
use rs_camera.Pipeline.Plan.{Variant, boot_matches, bool_eq, release_of}
use rs_camera.Kernel.Selection.{
  without_threadirqs, select_words, select_prefix, boot_selection, has_root, count_prefixes,
}
use rs_camera.Kernel.Words.{words-join, select_words-IsWord, without_threadirqs-none}

any-append : (p : Str → Bool) (xs ys : List Str) → any p (xs ++ ys) ≡ (any p xs || any p ys)
any-append p [] ys = refl
any-append p (x ∷ xs) ys = ground (arith, any-append p xs ys)

or_true : (b : Bool) → (b || true) ≡ true
or_true true = refl
or_true false = refl

bool_eq_refl : (b : Bool) → bool_eq b b ≡ true
bool_eq_refl true = refl
bool_eq_refl false = refl

select_words-threadirqs :
    (cmdline : Str) (threaded : Bool)
    → any (str_eq (codes "threadirqs")) (select_words cmdline threaded) ≡ threaded
unfolding select_words str_eq
select_words-threadirqs cmdline true =
    any-append (str_eq (codes "threadirqs")) (without_threadirqs (words cmdline)) _
    ∙ rw (without_threadirqs-none (words cmdline)) refl
select_words-threadirqs cmdline false =
    any-append (str_eq (codes "threadirqs")) (without_threadirqs (words cmdline)) []
    ∙ rw (without_threadirqs-none (words cmdline)) refl

select_words-root :
    (cmdline : Str) (threaded : Bool)
    → has_root (without_threadirqs (words cmdline)) ≡ true
    → has_root (select_words cmdline threaded) ≡ true
unfolding select_words
select_words-root cmdline threaded h =
    any-append (λ w. starts_with (codes "root=") w) (without_threadirqs (words cmdline)) _
    ∙ rw h refl

-- The command line that was asked for makes its kernel match, and names a root.
abbrev pub Boots : Bool → Str × Str → Type 0
Boots threaded files =
    ((variant : Variant) → boot_matches variant threaded (release_of variant) files.1 ≡ true)
    × (has_root (words files.1) ≡ true)

selected-Boots :
    (config cmdline : Str) (threaded : Bool)
    → has_root (without_threadirqs (words cmdline)) ≡ true
    → Boots threaded (config, join (codes " ") (select_words cmdline threaded) ++ 10 ∷ [])
unfolding boot_matches
selected-Boots config cmdline threaded h =
    let back : words (join (codes " ") (select_words cmdline threaded) ++ 10 ∷ [])
        ≡ select_words cmdline threaded =
      words-join (select_words cmdline threaded) (select_words-IsWord cmdline threaded) in
    (
      λ variant.
          let own : str_eq (release_of variant) (release_of variant) ≡ true =
            (str_eq_iff (release_of variant) (release_of variant)).1 refl in
          rw (own, back, select_words-threadirqs cmdline threaded, bool_eq_refl threaded)
            (or_true _),
      rw back (select_words-root cmdline threaded h),
    )

-- If `boot_selection` returns, the kernel that boots with its cmdline.txt is one that `boot_matches`
-- accepts for the wanted `threadirqs`, whichever variant it is, and it has a `root=` argument.
pub boot_selection-Boots :
    (config cmdline prefix : Str) (threaded : Bool) (files : Str × Str)
    → boot_selection config cmdline prefix threaded ≡ ok files
    → Boots threaded files
unfolding boot_selection
boot_selection-Boots config cmdline prefix threaded files h =
    elim (Bool-cases (ltb 1 (count_prefixes (split 10 config)))) [
      | inl many ↦ cc (rw many at h)
      | inr few ↦ elim (Bool-cases (has_root (without_threadirqs (words cmdline)))) [
        | inl root ↦
            subst (Boots threaded) (ok-injective (rw (few, root) at h))
              (selected-Boots (select_prefix config prefix) cmdline threaded root)
        | inr rootless ↦ cc (rw (few, rootless) at h)
      ]
    ]
