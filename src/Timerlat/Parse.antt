-- ===== src/Timerlat/Parse.antt =====
-- `parse_timerlat_histogram`: the loop over the lines, the checks behind it and the result.
use rs_camera.Prelude.{
  ℕ, ◌+◌, not, Option, none, some, List, [], ◌∷◌, ◌++◌, ◌==◌, is_empty, map, if◌then◌else◌,
}
use rs_camera.Prelude.Exec.{Result, ok, err}
use rs_camera.Prelude.Errors.{Error, value_error}
use rs_camera.Text.{Str, codes, str_eq, show, join}
use rs_camera.Text.Words.{starts_with, split_lines}
use rs_camera.Timerlat.Rank.{sum_counts, nearest_rank, maximum_known, max}
use rs_camera.Timerlat.Lines.{Column, Parsed, Summary, parse_line}

-- `int(total * quantile + 0.999999999)` for the four quantiles, in floating point.
pub record Quantiles : Type 0 where
  pub p50 : ℕ → ℕ
  pub p99 : ℕ → ℕ
  pub p999 : ℕ → ℕ
  pub p9999 : ℕ → ℕ

-- A value of `contexts`.
pub record Context : Type 0 where
  pub name : Str
  pub count : ℕ
  pub min : ℕ
  pub avg : ℕ
  pub max : ℕ
  pub over : ℕ
  pub histogram_count : ℕ
  pub p50_us : Option ℕ
  pub p99_us : Option ℕ
  pub p999_us : Option ℕ
  pub p9999_us : Option ℕ

pub record Timerlat : Type 0 where
  pub columns : List Str
  pub contexts : List Context
  pub irq_max_us : ℕ
  pub thread_max_us : ℕ
  pub irq_p999_us_max_cpu : Option ℕ
  pub thread_p999_us_max_cpu : Option ℕ
  pub overflow_samples : ℕ

abbrev pub next_line : Result Error Parsed → (Parsed → Result Error Parsed) → Result Error Parsed
next_line (ok p) next = next p
next_line (err e) next = err e

unfoldable pub parse_lines : List Str → Parsed → Result Error Parsed
unfolding parse_line
parse_lines [] p = ok p
parse_lines (line ∷ lines) p = next_line (parse_line p line) (parse_lines lines)

unfoldable pub find_column : Str → List Column → Option Column
find_column name [] = none
find_column name (c ∷ cs) = if str_eq name c.name then some c else find_column name cs

abbrev pub missing_key : Str → Str → Option ℕ → List Str
missing_key column key none = (column ++ (codes ":" ++ key)) ∷ []
missing_key column key (some n) = []

abbrev pub missing_keys : Str → Summary → List Str
missing_keys column s =
    missing_key column (codes "count") s.count
    ++ (missing_key column (codes "min") s.min
        ++ (missing_key column (codes "avg") s.avg ++ missing_key column (codes "max") s.max))

abbrev pub missing_in : Str → Option Column → List Str
missing_in column none = []
missing_in column (some c) = missing_keys column c.summary

unfoldable pub missing : List Column → List Str → List Str
unfolding find_column
missing entries [] = []
missing entries (name ∷ names) = missing_in name (find_column name entries) ++ missing entries names

-- `summary[column][key]`, which is there behind the check on `missing`.
abbrev pub value : Option ℕ → ℕ
value (some n) = n
value none = 0

unfoldable pub context_of : Quantiles → Column → Context
context_of q c =
    let total = value c.summary.count in
    record {
      name = c.name;
      count = total;
      min = value c.summary.min;
      avg = value c.summary.avg;
      max = value c.summary.max;
      over = c.over;
      histogram_count = sum_counts c.histogram;
      p50_us = nearest_rank c.histogram total (q.p50 total);
      p99_us = nearest_rank c.histogram total (q.p99 total);
      p999_us = nearest_rank c.histogram total (q.p999 total);
      p9999_us = nearest_rank c.histogram total (q.p9999 total);
    }

abbrev pub mismatch : Column → Error
mismatch c = value_error (
    codes "Timerlat sample count mismatch for "
    ++ (c.name
        ++ (codes ": histogram="
            ++ (show (sum_counts c.histogram)
                ++ (codes ", over="
                    ++ (show c.over ++ (codes ", count=" ++ show (value c.summary.count))))))))

abbrev pub add_context : Context → Result Error (List Context) → Result Error (List Context)
add_context c (ok cs) = ok (c ∷ cs)
add_context c (err e) = err e

unfoldable pub contexts_of : Quantiles → List Column → Result Error (List Context)
unfolding context_of
contexts_of q [] = ok []
contexts_of q (c ∷ cs) =
    let rest = contexts_of q cs in
    if sum_counts c.histogram + c.over == value c.summary.count
    then add_context (context_of q c) rest
    else err (mismatch c)

-- `[value for key, value in contexts.items() if key.startswith(prefix)]`
unfoldable pub with_prefix : Str → List Context → List Context
with_prefix prefix [] = []
with_prefix prefix (c ∷ cs) =
    let rest = with_prefix prefix cs in if starts_with prefix c.name then c ∷ rest else rest

unfoldable pub max_latency : List Context → ℕ
max_latency [] = 0
max_latency (c ∷ cs) = max c.max (max_latency cs)

unfoldable pub total_over : List Context → ℕ
total_over [] = 0
total_over (c ∷ cs) = c.over + total_over cs

abbrev pub result_of : List Str → Result Error (List Context) → Result Error Timerlat
result_of columns (err e) = err e
result_of columns (ok contexts) =
    let irq = with_prefix (codes "IRQ-") contexts in
    let thread = with_prefix (codes "Thr-") contexts in
    ok (record {
      columns = columns;
      contexts = contexts;
      irq_max_us = max_latency irq;
      thread_max_us = max_latency thread;
      irq_p999_us_max_cpu = maximum_known (map (λ (c : Context). c.p999_us) irq);
      thread_p999_us_max_cpu = maximum_known (map (λ (c : Context). c.p999_us) thread);
      overflow_samples = total_over contexts;
    })

-- What follows the loop.
unfoldable pub finish_parse : Quantiles → Parsed → Result Error Timerlat
unfolding missing contexts_of
finish_parse q p =
    if is_empty p.columns
    then err (value_error (codes "Timerlat histogram header was not found"))
    else if not (is_empty (missing p.entries p.columns))
    then err (
        value_error (
          codes "Timerlat summary is incomplete: "
          ++ join (codes ", ") (missing p.entries p.columns)))
    else result_of p.columns (contexts_of q p.entries)

abbrev pub after_lines : Quantiles → Result Error Parsed → Result Error Timerlat
after_lines q (ok p) = finish_parse q p
after_lines q (err e) = err e

unfoldable pub parse_timerlat_histogram : Quantiles → Str → Result Error Timerlat
unfolding parse_lines finish_parse
parse_timerlat_histogram q text =
    after_lines q (parse_lines (split_lines text) (record { columns = []; entries = [] }))
