-- ===== src/Text/Words.antt =====
-- More `str` methods: prefixes, substrings, lines, words, case, order, and integers with a sign.
use rs_camera.Prelude.{
  any, ℕ, suc, ◌+◌, Bool, true, false, ◌&&◌, ◌||◌, List, [], ◌∷◌, ◌++◌, leb, ltb, ◌==◌, is_empty,
  if◌then◌else◌,
}
use rs_camera.Text.{Str, is_space, show, cons_head, str_eq}

-- A process's return code; `negsuc n` is -(n + 1), for a process that a signal ended.
pub data ℤ : Type 0 where
  pos : ℕ → ℤ
  negsuc : ℕ → ℤ

abbrev pub is_zero : ℤ → Bool
is_zero (pos n) = n == 0
is_zero (negsuc n) = false

unfoldable pub show_int : ℤ → Str
show_int (pos n) = show n
show_int (negsuc n) = b'-' ∷ show (suc n)

-- `s.startswith(prefix)`
unfoldable pub starts_with : Str → Str → Bool
starts_with [] s = true
starts_with (p ∷ ps) [] = false
starts_with (p ∷ ps) (c ∷ s) = p == c && starts_with ps s

-- `s[len(prefix):]`
unfoldable pub drop_prefix : Str → Str → Str
drop_prefix [] s = s
drop_prefix (p ∷ ps) [] = []
drop_prefix (p ∷ ps) (c ∷ s) = drop_prefix ps s

-- `piece in s`
unfoldable pub contains : Str → Str → Bool
contains piece [] = is_empty piece
contains piece (c ∷ s) = starts_with piece (c ∷ s) || contains piece s

-- `s.lower()`
abbrev pub lower_char : ℕ → ℕ
lower_char c = if leb b'A' c && leb c b'Z' then c + 32 else c

unfoldable pub lower : Str → Str
lower [] = []
lower (c ∷ s) = lower_char c ∷ lower s

-- The characters at which `splitlines` breaks: LF, VT, FF, CR, FS, GS and RS. CR LF is one break.
abbrev pub is_line_break : ℕ → Bool
is_line_break c = (leb 10 c && leb c 13) || (leb 28 c && leb c 30)

-- `s.splitlines()`: a break at the very end opens no further line.
unfoldable pub split_lines : Str → List Str
split_lines [] = []
split_lines (c ∷ []) = if is_line_break c then [] ∷ [] else (c ∷ []) ∷ []
split_lines (c ∷ d ∷ s) =
    let rest = split_lines (d ∷ s) in
    let after = split_lines s in
    if is_line_break c
    then if c == 13 && d == 10 then [] ∷ after else [] ∷ rest
    else cons_head c rest

-- `s.split()`: the words between runs of white space; `word` is the word being read.
unfoldable pub words_from : Str → Str → List Str
words_from word [] = if is_empty word then [] else word ∷ []
words_from word (c ∷ s) =
    let more = words_from (word ++ c ∷ []) s in
    let rest = words_from [] s in
    if is_space c then if is_empty word then rest else word ∷ rest else more

unfoldable pub words : Str → List Str
unfolding words_from
words s = words_from [] s

-- The order of code points.
unfoldable pub str_leb : Str → Str → Bool
str_leb [] t = true
str_leb (c ∷ s) [] = false
str_leb (c ∷ s) (d ∷ t) = let rest = str_leb s t in if c == d then rest else ltb c d

unfoldable pub insert_sorted : Str → List Str → List Str
insert_sorted s [] = s ∷ []
insert_sorted s (t ∷ ts) =
    let rest = insert_sorted s ts in if str_leb s t then s ∷ t ∷ ts else t ∷ rest

-- `sorted(texts)`
unfoldable pub sorted : List Str → List Str
unfolding insert_sorted str_leb
sorted [] = []
sorted (s ∷ ss) = insert_sorted s (sorted ss)

-- `a or b` on text.
abbrev pub or_else : Str → Str → Str
or_else a b = if is_empty a then b else a

-- Every text once, as `set` has it.
unfoldable pub distinct_texts : List Str → List Str
distinct_texts [] = []
distinct_texts (s ∷ ss) =
    let rest = distinct_texts ss in if any (str_eq s) ss then rest else s ∷ rest
