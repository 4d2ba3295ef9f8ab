-- ===== src/Timerlat/Entries.antt =====
-- Every column of the header has an entry, whatever lines follow.
use rs_camera.Prelude.{
  ℕ, Bool, true, false, not, ◌&&◌, ◌||◌, ◌≡◌, refl, ap, sym, subst, ◌∙◌, inl, inr, List, [], ◌∷◌,
  All, any, is_empty, ◌==◌, Bool-cases, map,
}
use rs_camera.Prelude.Exec.{Result, ok, err, ok-injective}
use rs_camera.Prelude.Errors.{Error}
use rs_camera.Text.{Str, strip, str_eq, str_eq_iff}
use rs_camera.Timerlat.Lines.{
  Column, Parsed, Line, skipped, header, summary_line, over_line, bucket_line, add_column,
  add_columns, update_column, update_each, set_summary, set_over, set_histogram, with_values,
  read_line, parse_line, line_of, is_header,
}
use rs_camera.Timerlat.Parse.{parse_lines, next_line}

abbrev pub names : List Column → List Str
names cs = map (λ (c : Column). c.name) cs

abbrev Has : List Column → Str → Type 0
Has cs name = any (str_eq name) (names cs) ≡ true

abbrev pub HasEntries : Parsed → Type 0
HasEntries p = All (λ name. any (str_eq name) (names p.entries) ≡ true) p.columns

or_first : (a b : Bool) → a ≡ true → (a || b) ≡ true
or_first a b e = rw e refl

or_later : (a b c : Bool) → (b ≡ true → c ≡ true) → (a || b) ≡ true → (a || c) ≡ true
or_later true b c k e = refl
or_later false b c k e = k e

add_column-Has : (name : Str) (cs : List Column) → Has (add_column name cs) name
unfolding add_column
add_column-Has name [] = or_first (str_eq name name) false ((str_eq_iff name name).1 refl)
add_column-Has name (c ∷ cs) = elim (Bool-cases (str_eq name c.name)) [
  | inl same ↦ rw same (or_first (str_eq name c.name) (any (str_eq name) (names cs)) same)
  | inr other ↦ rw other (
      or_later (str_eq name c.name) true (any (str_eq name) (names (add_column name cs)))
        (λ _. add_column-Has name cs) (rw other refl))
]

add_column-keeps :
    (name other : Str) (cs : List Column) → Has cs other → Has (add_column name cs) other
unfolding add_column
add_column-keeps name other [] e = cc e
add_column-keeps name other (c ∷ cs) e = elim (Bool-cases (str_eq name c.name)) [
  | inl same ↦ rw same e
  | inr fresh ↦ rw fresh (
      or_later (str_eq other c.name) (any (str_eq other) (names cs))
        (any (str_eq other) (names (add_column name cs))) (add_column-keeps name other cs) e)
]

add_columns-keeps :
    (ns : List Str) (other : Str) (cs : List Column) → Has cs other → Has (add_columns ns cs) other
unfolding add_columns
add_columns-keeps [] other cs e = e
add_columns-keeps (n ∷ ns) other cs e =
    add_columns-keeps ns other (add_column n cs) (add_column-keeps n other cs e)

add_columns-Has : (ns : List Str) (cs : List Column) → All (Has (add_columns ns cs)) ns
unfolding add_columns
add_columns-Has [] cs = tt
add_columns-Has (n ∷ ns) cs = (
  add_columns-keeps ns n (add_column n cs) (add_column-Has n cs),
  add_columns-Has ns (add_column n cs),
)

update_column-names :
    (name : Str) (f : Column → Column) (cs : List Column)
    → ((c : Column) → (f c).name ≡ c.name)
    → names (update_column name f cs) ≡ names cs
unfolding update_column
update_column-names name f [] k = refl
update_column-names name f (c ∷ cs) k = elim (Bool-cases (str_eq name c.name)) [
  | inl same ↦ rw same (ap (λ n. n ∷ names cs) (k c))
  | inr other ↦ rw other (ap (λ ns. c.name ∷ ns) (update_column-names name f cs k))
]

update_each-names :
    (f : ℕ → Column → Column) (ns : List Str) (values : List ℕ) (cs : List Column)
    → ((n : ℕ) (c : Column) → (f n c).name ≡ c.name)
    → names (update_each f ns values cs) ≡ names cs
unfolding update_each
update_each-names f [] values cs k = refl
update_each-names f (name ∷ ns) [] cs k = refl
update_each-names f (name ∷ ns) (value ∷ values) cs k =
    update_each-names f ns values (update_column name (f value) cs) k
    ∙ update_column-names name (f value) cs (k value)

set_histogram-name : (latency n : ℕ) (c : Column) → (set_histogram latency n c).name ≡ c.name
set_histogram-name latency n c = elim (Bool-cases (n == 0)) [
  | inl none_seen ↦ rw none_seen refl
  | inr seen ↦ rw seen refl
]

with_values-HasEntries :
    (p : Parsed) (f : ℕ → Column → Column) (values : Result Error (List ℕ)) (t : Parsed)
    → ((n : ℕ) (c : Column) → (f n c).name ≡ c.name)
    → HasEntries p
    → with_values p f values ≡ ok t
    → HasEntries t
with_values-HasEntries p f (ok values) t k i e = subst HasEntries (ok-injective e) (
    subst (λ ns. All (λ name. any (str_eq name) ns ≡ true) p.columns)
      (sym (update_each-names f p.columns values p.entries k)) i)
with_values-HasEntries p f (err x) t k i e = cc e

read_line-HasEntries :
    (p : Parsed) (line : Line) (t : Parsed) → HasEntries p → read_line p line ≡ ok t → HasEntries t
unfolding read_line
read_line-HasEntries p skipped t i e = subst HasEntries (ok-injective e) i
read_line-HasEntries p (header ns) t i e = subst HasEntries (ok-injective e) (add_columns-Has ns [])
read_line-HasEntries p (summary_line key text) t i e =
    with_values-HasEntries p (set_summary key) _ t (λ _ _. refl) i e
read_line-HasEntries p (over_line text) t i e =
    with_values-HasEntries p set_over _ t (λ _ _. refl) i e
read_line-HasEntries p (bucket_line latency text) t i e =
    with_values-HasEntries p (set_histogram latency) _ t (set_histogram-name latency) i e

parse_line-HasEntries :
    (p : Parsed) (raw_line : Str) (t : Parsed)
    → HasEntries p
    → parse_line p raw_line ≡ ok t
    → HasEntries t
unfolding parse_line
parse_line-HasEntries p raw_line t i e =
    elim (Bool-cases (is_empty p.columns && not (is_header (line_of (strip raw_line))))) [
      | inl before ↦ subst HasEntries (ok-injective (rw before at e)) i
      | inr behind ↦ read_line-HasEntries p (line_of (strip raw_line)) t i (rw behind at e)
    ]

next-HasEntries :
    (r : Result Error Parsed) (next : Parsed → Result Error Parsed) (t : Parsed)
    → ((p : Parsed) → r ≡ ok p → next p ≡ ok t → HasEntries t)
    → next_line r next ≡ ok t
    → HasEntries t
next-HasEntries (ok p) next t k e = k p refl e
next-HasEntries (err x) next t k e = cc e

pub parse_lines-HasEntries :
    (lines : List Str) (p : Parsed)
    → HasEntries p
    → (t : Parsed) → parse_lines lines p ≡ ok t
    → HasEntries t
unfolding parse_lines
parse_lines-HasEntries [] p i t e = subst HasEntries (ok-injective e) i
parse_lines-HasEntries (line ∷ lines) p i t e =
    next-HasEntries (parse_line p line) (parse_lines lines) t
      (λ next read rest.
        parse_lines-HasEntries lines next (parse_line-HasEntries p line next i read) t rest)
      e
