-- ===== src/Kernel/Selection.antt =====
-- `boot_selection`. The regular expression `^os_prefix=.*$` works on the lines between LF.
use rs_camera.Prelude.{ℕ, suc, Bool, not, List, [], ◌∷◌, ◌++◌, any, ltb, if◌then◌else◌}
use rs_camera.Prelude.Exec.{Result, ok, err}
use rs_camera.Prelude.Errors.{Error, value_error}
use rs_camera.Text.{Str, codes, str_eq, rstrip, split, join}
use rs_camera.Text.Words.{starts_with, words}

abbrev pub is_prefix_line : Str → Bool
is_prefix_line line = starts_with (codes "os_prefix=") line

-- `len(re.findall(…))`
unfoldable pub count_prefixes : List Str → ℕ
count_prefixes [] = 0
count_prefixes (line ∷ lines) =
    let rest = count_prefixes lines in if is_prefix_line line then suc rest else rest

-- `re.findall(…)`
unfoldable pub prefix_lines : List Str → List Str
prefix_lines [] = []
prefix_lines (line ∷ lines) =
    let rest = prefix_lines lines in if is_prefix_line line then line ∷ rest else rest

abbrev pub prefix_line : Str → Str
prefix_line prefix = codes "os_prefix=" ++ (prefix ++ codes "/")

-- `re.sub(…)`, for a prefix without a backslash, as those of VARIANTS are.
unfoldable pub replace_prefix : Str → List Str → List Str
replace_prefix prefix [] = []
replace_prefix prefix (line ∷ lines) =
    let rest = replace_prefix prefix lines in
    if is_prefix_line line then prefix_line prefix ∷ rest else line ∷ rest

-- The new config.txt.
unfoldable pub select_prefix : Str → Str → Str
unfolding count_prefixes replace_prefix
select_prefix config prefix =
    let lines = split 10 config in
    if ltb 0 (count_prefixes lines)
    then join (10 ∷ []) (replace_prefix prefix lines)
    else rstrip config ++ (codes "\n\n[all]\n" ++ (prefix_line prefix ++ 10 ∷ []))

-- `[w for w in cmdline.split() if w!='threadirqs']`
unfoldable pub without_threadirqs : List Str → List Str
without_threadirqs [] = []
without_threadirqs (w ∷ ws) =
    let rest = without_threadirqs ws in if str_eq (codes "threadirqs") w then rest else w ∷ rest

-- The words of the new cmdline.txt.
unfoldable pub select_words : Str → Bool → List Str
unfolding without_threadirqs
select_words cmdline threaded =
    without_threadirqs (words cmdline) ++ (if threaded then codes "threadirqs" ∷ [] else [])

abbrev pub has_root : List Str → Bool
has_root = any (λ w. starts_with (codes "root=") w)

unfoldable pub boot_selection : Str → Str → Str → Bool → Result Error (Str × Str)
unfolding select_prefix select_words count_prefixes
boot_selection config cmdline prefix threaded =
    if ltb 1 (count_prefixes (split 10 config))
    then err (value_error (codes "Multiple os_prefix entries; inspect boot configuration"))
    else if not (has_root (without_threadirqs (words cmdline)))
    then err (value_error (codes "Missing root= boot argument"))
    else ok
        (select_prefix config prefix, join (codes " ") (select_words cmdline threaded) ++ 10 ∷ [])
