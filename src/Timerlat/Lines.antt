-- ===== src/Timerlat/Lines.antt =====
-- The lines of the histogram, one at a time. Numbers carry no sign.
use rs_camera.Prelude.{
  ℕ, Bool, true, false, not, ◌&&◌, ◌||◌, Option, none, some, List, [], ◌∷◌, ◌++◌, ◌==◌, is_empty,
  length, if◌then◌else◌,
}
use rs_camera.Prelude.Exec.{Result, ok, err}
use rs_camera.Prelude.Errors.{Error, value_error}
use rs_camera.Text.{Str, codes, str_eq, strip, is_space, is_digit_char, int_of}
use rs_camera.Text.Words.{ℤ, pos, negsuc, starts_with, drop_prefix, words}
use rs_camera.Artifacts.Selected.{int_text}
use rs_camera.Timerlat.Rank.{Buckets}

-- The keys `count`, `min`, `avg` and `max` of a column of `summary`.
pub record Summary : Type 0 where
  pub count : Option ℕ
  pub min : Option ℕ
  pub avg : Option ℕ
  pub max : Option ℕ

-- What `histograms`, `summary` and `overflow` hold for one column.
pub record Column : Type 0 where
  pub name : Str
  pub histogram : Buckets
  pub summary : Summary
  pub over : ℕ

pub data SummaryKey : Type 0 where
  count min avg max : SummaryKey

abbrev pub key_name : SummaryKey → Str
key_name count = codes "count"
key_name min = codes "min"
key_name avg = codes "avg"
key_name max = codes "max"

-- The local variables of the loop: `columns`, and the entries of the three dicts by name.
pub record Parsed : Type 0 where
  pub columns : List Str
  pub entries : List Column

abbrev pub no_summary : Summary
no_summary = record { count = none; min = none; avg = none; max = none }

abbrev pub new_column : Str → Column
new_column name = record { name = name; histogram = []; summary = no_summary; over = 0 }

unfoldable pub add_column : Str → List Column → List Column
add_column name [] = new_column name ∷ []
add_column name (c ∷ cs) =
    let rest = add_column name cs in if str_eq name c.name then c ∷ cs else c ∷ rest

-- `{column: {} for column in columns}`, a name behind the names before it.
unfoldable pub add_columns : List Str → List Column → List Column
add_columns [] cs = cs
add_columns (name ∷ names) cs = add_columns names (add_column name cs)

unfoldable pub update_column : Str → (Column → Column) → List Column → List Column
update_column name f [] = []
update_column name f (c ∷ cs) =
    let rest = update_column name f cs in if str_eq name c.name then f c ∷ cs else c ∷ rest

-- `for column, value in zip(columns, values)`
unfoldable pub update_each : (ℕ → Column → Column) → List Str → List ℕ → List Column → List Column
update_each f [] values cs = cs
update_each f (name ∷ names) [] cs = cs
update_each f (name ∷ names) (value ∷ values) cs =
    update_each f names values (update_column name (f value) cs)

abbrev pub set_key : SummaryKey → ℕ → Summary → Summary
set_key count n s = record s { count = some n }
set_key min n s = record s { min = some n }
set_key avg n s = record s { avg = some n }
set_key max n s = record s { max = some n }

abbrev pub set_summary : SummaryKey → ℕ → Column → Column
set_summary key n c = record c { summary = set_key key n c.summary }

abbrev pub set_over : ℕ → Column → Column
set_over n c = record c { over = n }

-- `histograms[column][latency_us] = value`
unfoldable pub set_bucket : ℕ → ℕ → Buckets → Buckets
set_bucket latency n [] = (latency, n) ∷ []
set_bucket latency n ((l, k) ∷ bs) =
    let rest = set_bucket latency n bs in if latency == l then (latency, n) ∷ bs else (l, k) ∷ rest

abbrev pub set_histogram : ℕ → ℕ → Column → Column
set_histogram latency n c =
    if n == 0 then c else record c { histogram = set_bucket latency n c.histogram }

abbrev pub int_error : Error
int_error = value_error (codes "invalid literal for int() with base 10")

abbrev pub count_of : Option ℤ → Result Error ℕ
count_of (some (pos n)) = ok n
count_of (some (negsuc n)) = err int_error
count_of none = err int_error

abbrev pub push : Result Error ℕ → Result Error (List ℕ) → Result Error (List ℕ)
push (ok n) (ok ns) = ok (n ∷ ns)
push (ok n) (err e) = err e
push (err e) rest = err e

-- `_integers`
unfoldable pub integers : List Str → Result Error (List ℕ)
integers [] = ok []
integers (token ∷ tokens) = push (count_of (int_text token)) (integers tokens)

abbrev pub same_length : Str → List Str → List ℕ → Result Error (List ℕ)
same_length message columns values =
    if length values == length columns then ok values else err (value_error message)

abbrev pub checked : Str → List Str → Result Error (List ℕ) → Result Error (List ℕ)
checked message columns (ok values) = same_length message columns values
checked message columns (err e) = err e

-- `values = _integers(...)`, with one value for each column.
unfoldable pub values_of : Str → List Str → Str → Result Error (List ℕ)
unfolding integers
values_of message columns text = checked message columns (integers (words text))

-- A group behind white space: `\s+(.+)$` on text that is stripped.
abbrev pub spaced : Str → Option Str
spaced [] = none
spaced (c ∷ s) = if is_space c then some s else none

-- `^key:\s+(.+)$`
unfoldable pub keyed : Str → Str → Option Str
keyed key line =
    if starts_with (key ++ codes ":") line
    then spaced (drop_prefix (key ++ codes ":") line)
    else none

-- The leading digits of a line, and the rest of it.
unfoldable pub span_digits : Str → Str × Str
span_digits [] = ([], [])
span_digits (c ∷ s) =
    let (digits, rest) = span_digits s in
    if is_digit_char c then (c ∷ digits, rest) else ([], c ∷ s)

-- What a stripped line is.
pub data Line : Type 0 where
  skipped : Line
  header : List Str → Line
  summary_line : SummaryKey → Str → Line
  over_line : Str → Line
  bucket_line : ℕ → Str → Line

abbrev pub bucket_of : Str × Str → Line
bucket_of ([], rest) = skipped
bucket_of (d ∷ digits, rest) = elim (spaced rest) [
  | none ↦ skipped
  | some values ↦ bucket_line (int_of (d ∷ digits)) values
]

abbrev pub or_line : Option Str → (Str → Line) → Line → Line
or_line (some values) f other = f values
or_line none f other = other

abbrev pub tail : List Str → List Str
tail [] = []
tail (x ∷ xs) = xs

unfoldable pub line_of : Str → Line
unfolding keyed span_digits
line_of line =
    if is_empty line || starts_with (codes "#") line
    then skipped
    else if starts_with (codes "Index ") line
    then header (tail (words line))
    else or_line (keyed (codes "count") line) (summary_line count) (
        or_line (keyed (codes "min") line) (summary_line min) (
          or_line (keyed (codes "avg") line) (summary_line avg) (
            or_line (keyed (codes "max") line) (summary_line max)
              (or_line (keyed (codes "over") line) over_line (bucket_of (span_digits line))))))

abbrev pub with_values :
    Parsed → (ℕ → Column → Column) → Result Error (List ℕ) → Result Error Parsed
with_values p f (ok values) = ok (record p { entries = update_each f p.columns values p.entries })
with_values p f (err e) = err e

-- A line behind the header.
unfoldable pub read_line : Parsed → Line → Result Error Parsed
unfolding values_of update_each
read_line p skipped = ok p
read_line p (header names) = ok (record { columns = names; entries = add_columns names [] })
read_line p (summary_line key text) = with_values p (set_summary key) (
    values_of (codes "Timerlat " ++ (key_name key ++ codes " column count does not match header"))
      p.columns text)
read_line p (over_line text) =
    with_values p set_over
      (values_of (codes "Timerlat overflow column count does not match header") p.columns text)
read_line p (bucket_line latency text) =
    with_values p (set_histogram latency)
      (values_of (codes "Timerlat histogram column count does not match header") p.columns text)

abbrev pub is_header : Line → Bool
is_header (header names) = true
is_header _ = false

-- The body of the loop: nothing counts before the header.
unfoldable pub parse_line : Parsed → Str → Result Error Parsed
unfolding line_of read_line
parse_line p raw_line =
    let line = line_of (strip raw_line) in
    if is_empty p.columns && not (is_header line) then ok p else read_line p line
