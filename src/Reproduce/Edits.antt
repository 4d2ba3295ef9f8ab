-- ===== src/Reproduce/Edits.antt =====
-- `replace_once`, `before` and `patched_analyzer`: edits of a source that must have one place for them.
use rs_camera.Prelude.{
  ℕ, zero, suc, true, not, ◌≡◌, refl, subst, ap, ap₂, sym, ◌∙◌, ==_iff, &&_split, [], ◌∷◌, ◌++◌,
  ◌==◌, length, if◌then◌else◌, Bool-cases, inl, inr, arith,
}
use rs_camera.Prelude.Exec.{Result, ok, err, ok-injective}
use rs_camera.Prelude.Errors.{Error, value_error}
use rs_camera.Text.{Str, codes}
use rs_camera.Text.Words.{starts_with, drop_prefix}

abbrev pred : ℕ → ℕ
pred zero = zero
pred (suc n) = n

-- `text.count(piece)` for a piece that is not empty, with `skip` characters of an occurrence left.
unfoldable pub count_from : Str → ℕ → Str → ℕ
count_from piece skip [] = 0
count_from piece (suc skip) (c ∷ s) = count_from piece skip s
count_from piece zero (c ∷ s) =
    let found = count_from piece (pred (length piece)) s in
    let rest = count_from piece 0 s in if starts_with piece (c ∷ s) then suc found else rest

-- `text.replace(old, new, 1)`
unfoldable pub replace_first : Str → Str → Str → Str
replace_first old new [] = []
replace_first old new (c ∷ s) =
    let rest = replace_first old new s in
    if starts_with old (c ∷ s) then new ++ drop_prefix old (c ∷ s) else c ∷ rest

-- `text.split(marker)[0]`
unfoldable pub split_first : Str → Str → Str
split_first marker [] = []
split_first marker (c ∷ s) =
    let rest = split_first marker s in if starts_with marker (c ∷ s) then [] else c ∷ rest

unfoldable pub replace_once : Str → Str → Str → Result Error Str
unfolding count_from replace_first
replace_once text old new =
    if not (count_from old 0 text == 1)
    then err
        (value_error (codes "Source changed: expected one occurrence of '" ++ (old ++ codes "'")))
    else ok (replace_first old new text)

unfoldable pub before : Str → Str → Result Error Str
unfolding count_from split_first
before text marker =
    if not (count_from marker 0 text == 1)
    then err
        (value_error (codes "Source changed: expected unique boundary '" ++ (marker ++ codes "'")))
    else ok (split_first marker text)

unfoldable pub patched_analyzer : Str → Result Error Str
unfolding replace_once
patched_analyzer text =
    replace_once text (codes "if latency_s < 0.0 or latency_s > 0.250:")
      (codes "if latency_s < 0.0:")

starts_with-drop : (piece s : Str) → starts_with piece s ≡ true → s ≡ piece ++ drop_prefix piece s
unfolding starts_with drop_prefix
starts_with-drop [] s e = refl
starts_with-drop (p ∷ ps) [] e = cc e
starts_with-drop (p ∷ ps) (c ∷ s) e =
    let (first, more) = &&_split (p == c) (starts_with ps s) e in
    ap₂ (λ d t. d ∷ t) (sym ((==_iff p c).0 first)) (starts_with-drop ps s more)

-- An edit of `text` at the only occurrence of `old`: nothing behind it is another one.
pub record IsEdit (text old new edited : Str) : Type 0 where
  pub earlier : Str
  pub later : Str
  pub source : text ≡ earlier ++ (old ++ later)
  pub result : edited ≡ earlier ++ (new ++ later)
  pub boundary : split_first old text ≡ earlier
  pub alone : count_from old 0 later ≡ 0

skipped :
    (piece ps s : Str)
    → starts_with ps s ≡ true
    → count_from piece (length ps) s ≡ count_from piece 0 (drop_prefix ps s)
unfolding starts_with drop_prefix count_from
skipped piece [] s e = refl
skipped piece (p ∷ ps) [] e = cc e
skipped piece (p ∷ ps) (c ∷ s) e = skipped piece ps s (&&_split (p == c) (starts_with ps s) e).1

one_left : (n : ℕ) → suc n ≡ 1 → n ≡ 0
one_left n e = omega arith

alone_behind :
    (o c : ℕ) (os s : Str)
    → count_from (o ∷ os) 0 (c ∷ s) ≡ 1
    → starts_with (o ∷ os) (c ∷ s) ≡ true
    → count_from (o ∷ os) 0 (drop_prefix (o ∷ os) (c ∷ s)) ≡ 0
unfolding count_from starts_with drop_prefix
alone_behind o c os s e here =
    sym (skipped (o ∷ os) os s (&&_split (o == c) (starts_with os s) here).1)
    ∙ one_left (count_from (o ∷ os) (length os) s) (rw here at e)

only-IsEdit :
    (text : Str) (o : ℕ) (os new : Str)
    → count_from (o ∷ os) 0 text ≡ 1
    → IsEdit text (o ∷ os) new (replace_first (o ∷ os) new text)
unfolding count_from replace_first split_first
only-IsEdit [] o os new e = cc e
only-IsEdit (c ∷ s) o os new e = elim (Bool-cases (starts_with (o ∷ os) (c ∷ s))) [
  | inl here ↦ record {
    earlier = [];
    later = drop_prefix (o ∷ os) (c ∷ s);
    source = starts_with-drop (o ∷ os) (c ∷ s) here;
    result = rw here;
    boundary = rw here;
    alone = alone_behind o c os s e here;
  }
  | inr elsewhere ↦
      let i = only-IsEdit s o os new (rw elsewhere at e) in
      record {
        earlier = c ∷ i.earlier;
        later = i.later;
        source = ap (λ t. c ∷ t) i.source;
        result = rw elsewhere (ap (λ t. c ∷ t) i.result);
        boundary = rw elsewhere (ap (λ t. c ∷ t) i.boundary);
        alone = i.alone;
      }
]

-- An edit that is made is at the only occurrence of the text, which is where `before` cuts the source.
pub replace_once-IsEdit :
    (text : Str) (o : ℕ) (os new edited : Str)
    → replace_once text (o ∷ os) new ≡ ok edited
    → IsEdit text (o ∷ os) new edited
      × ((i : IsEdit text (o ∷ os) new edited) → before text (o ∷ os) ≡ ok i.earlier)
unfolding replace_once before
replace_once-IsEdit text o os new edited e = elim (Bool-cases (count_from (o ∷ os) 0 text == 1)) [
  | inl once ↦ (
    subst (IsEdit text (o ∷ os) new) (ok-injective (rw once at e))
        (only-IsEdit text o os new ((==_iff (count_from (o ∷ os) 0 text) 1).0 once)),
    (λ i. rw once (ap ok i.boundary)),
  )
  | inr other ↦ cc (rw other at e)
]
