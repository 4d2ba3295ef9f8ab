-- ===== src/Kernel/Prefixes.antt =====
-- The `os_prefix` lines of the new config.txt.
use rs_camera.Prelude.{
  Bool, true, false, not, ◌≡◌, refl, inl, inr, List, [], ◌∷◌, ◌++◌, All, is_empty, arith, length,
  Bool-cases, ltb, ◌==◌, ◌∙◌, ap, subst, all-append_true,
}
use rs_camera.Prelude.Exec.{ok, ok-injective}
use rs_camera.Text.{Str, codes, split, rstrip}
use rs_camera.Text.Pieces.{lacks, split-append}
use rs_camera.Text.Words.{words, starts_with}
use rs_camera.Kernel.Lines.{
  Shorter, starts_with_trans, Shorter-rstrip, split-lines, split-filled, lines_lack, split-joined,
}
use rs_camera.Kernel.Selection.{
  prefix_lines, is_prefix_line, count_prefixes, prefix_line, replace_prefix, select_prefix,
  boot_selection, has_root, without_threadirqs,
}

count-Shorter : (ls ms : List Str) → Shorter ls ms → count_prefixes ms ≡ 0 → count_prefixes ls ≡ 0
unfolding Shorter count_prefixes
count-Shorter [] ms h e = refl
count-Shorter (x ∷ ls) [] h e = elim h [ ]
count-Shorter (x ∷ ls) (m ∷ ms) h e =
    ground (arith, count-Shorter ls ms h.1, starts_with_trans (codes "os_prefix=") x m)

prefix_lines-none : (lines : List Str) → count_prefixes lines ≡ 0 → prefix_lines lines ≡ []
unfolding count_prefixes prefix_lines
prefix_lines-none [] e = refl
prefix_lines-none (line ∷ lines) e = elim (Bool-cases (is_prefix_line line)) [
  | inl counted ↦ ground (arith, counted)
  | inr other ↦ rw other (prefix_lines-none lines (rw other at e))
]

prefix_lines-append :
    (xs ys : List Str) → prefix_lines (xs ++ ys) ≡ prefix_lines xs ++ prefix_lines ys
unfolding prefix_lines
prefix_lines-append [] ys = refl
prefix_lines-append (x ∷ xs) ys = elim (Bool-cases (is_prefix_line x)) [
  | inl counted ↦ rw counted (ap (λ r. x ∷ r) (prefix_lines-append xs ys))
  | inr other ↦ rw other (prefix_lines-append xs ys)
]

-- All of them become the new line.
prefix_lines-replace :
    (prefix : Str) (lines : List Str)
    → All (λ u. u ≡ prefix_line prefix) (prefix_lines (replace_prefix prefix lines))
      × (length (prefix_lines (replace_prefix prefix lines)) ≡ count_prefixes lines)
unfolding prefix_lines replace_prefix count_prefixes starts_with
prefix_lines-replace prefix [] = (tt, refl)
prefix_lines-replace prefix (line ∷ lines) =
    let rest = prefix_lines-replace prefix lines in
    elim (Bool-cases (is_prefix_line line)) [
      | inl counted ↦ rw counted ((refl, rest.0), ground (arith, rest.1))
      | inr other ↦ rw (other, other) rest
    ]

-- A list of one element that equals `u`.
only : (u : Str) (xs : List Str) → All (λ v. v ≡ u) xs → length xs ≡ 1 → xs ≡ u ∷ []
only u [] a e = ground arith
only u (x ∷ []) a e = ap (λ v. v ∷ []) a.0
only u (x ∷ y ∷ xs) a e = ground arith

prefix_line-lacks : (prefix : Str) → lacks 10 prefix ≡ true → lacks 10 (prefix_line prefix) ≡ true
prefix_line-lacks prefix h =
    all-append_true (λ d. not (d == 10)) (codes "os_prefix=") (prefix ++ codes "/") refl
      (all-append_true (λ d. not (d == 10)) prefix (codes "/") h refl)

replace-lacks :
    (prefix : Str) (lines : List Str)
    → lacks 10 prefix ≡ true
    → All (λ u. lacks 10 u ≡ true) lines
    → All (λ u. lacks 10 u ≡ true) (replace_prefix prefix lines)
unfolding replace_prefix
replace-lacks prefix [] h a = tt
replace-lacks prefix (line ∷ lines) h a = elim (Bool-cases (is_prefix_line line)) [
  | inl counted ↦ rw counted (prefix_line-lacks prefix h, replace-lacks prefix lines h a.1)
  | inr other ↦ rw other (a.0, replace-lacks prefix lines h a.1)
]

replace-filled :
    (prefix : Str) (lines : List Str)
    → is_empty lines ≡ false
    → is_empty (replace_prefix prefix lines) ≡ false
unfolding replace_prefix
replace-filled prefix [] h = h
replace-filled prefix (line ∷ lines) h = elim (Bool-cases (is_prefix_line line)) [
  | inl counted ↦ rw counted refl
  | inr other ↦ rw other refl
]

-- The lines that are appended.
prefix_lines-appended :
    (prefix : Str)
    → lacks 10 prefix ≡ true
    → prefix_lines (split 10 (codes "\n[all]\n" ++ (prefix_line prefix ++ 10 ∷ [])))
      ≡ prefix_line prefix ∷ []
unfolding split prefix_lines starts_with
prefix_lines-appended prefix h =
    rw (split-append 10 (prefix_line prefix) [] (prefix_line-lacks prefix h)) refl

select_prefix-lines :
    (config prefix : Str)
    → lacks 10 prefix ≡ true
    → ltb 1 (count_prefixes (split 10 config)) ≡ false
    → prefix_lines (split 10 (select_prefix config prefix)) ≡ prefix_line prefix ∷ []
unfolding select_prefix
select_prefix-lines config prefix l few =
    let replaced = prefix_lines-replace prefix (split 10 config) in
    elim (Bool-cases (ltb 0 (count_prefixes (split 10 config)))) [
      | inl one ↦
          rw
            (
              one,
              split-joined (replace_prefix prefix (split 10 config))
                  (replace-filled prefix (split 10 config) (split-filled config))
                  (replace-lacks prefix (split 10 config) l (lines_lack config)),
            )
            (only (prefix_line prefix) _ replaced.0 (replaced.1 ∙ ground arith))
      | inr zero_left ↦
          rw
            (
              zero_left,
              split-lines (rstrip config) (codes "\n[all]\n" ++ (prefix_line prefix ++ 10 ∷ [])),
            )
            (prefix_lines-append (split 10 (rstrip config)) _
              ∙ rw
                  (
                    prefix_lines-appended prefix l,
                    prefix_lines-none (split 10 (rstrip config)) (
                        count-Shorter (split 10 (rstrip config)) (split 10 config)
                          (Shorter-rstrip config) (ground arith)),
                  )
                  refl)
    ]

-- If `boot_selection` returns and the prefix has no line break, the new config.txt has exactly one
-- `os_prefix` line, and it names the prefix, whether the old one had such a line or not.
pub boot_selection-prefix_lines :
    (config cmdline prefix : Str) (threaded : Bool) (files : Str × Str)
    → lacks 10 prefix ≡ true
    → boot_selection config cmdline prefix threaded ≡ ok files
    → prefix_lines (split 10 files.0) ≡ prefix_line prefix ∷ []
unfolding boot_selection
boot_selection-prefix_lines config cmdline prefix threaded files l h =
    elim (Bool-cases (ltb 1 (count_prefixes (split 10 config)))) [
      | inl many ↦ cc (rw many at h)
      | inr few ↦ elim (Bool-cases (has_root (without_threadirqs (words cmdline)))) [
        | inl root ↦
            subst (λ f. prefix_lines (split 10 (f.0)) ≡ prefix_line prefix ∷ [])
              (ok-injective (rw (few, root) at h)) (select_prefix-lines config prefix l few)
        | inr rootless ↦ cc (rw (few, rootless) at h)
      ]
    ]
