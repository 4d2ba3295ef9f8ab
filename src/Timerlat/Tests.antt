-- ===== src/Timerlat/Tests.antt =====
-- A histogram of two columns with one sample in the overflow.
use rs_camera.Prelude.{ℕ, ◌+◌, ◌*◌, ◌/◌, ◌≡◌, refl, ◌⊎◌, ◌↔◌, ◌<◌, none, some, [], ◌∷◌}
use rs_camera.Prelude.Exec.{ok}
use rs_camera.Text.{Str, codes, join, strip, lstrip, rstrip, int_of, int_from, str_eq}
use rs_camera.Text.Words.{words, words_from, starts_with, drop_prefix, split_lines}
use rs_camera.Artifacts.Selected.{int_text}
use rs_camera.Timerlat.Rank.{
  Buckets, nearest_rank, rank_from, sorted_buckets, insert_bucket, sum_counts, maximum_known,
  max_value,
}
use rs_camera.Timerlat.Ranking.{IsRank, target_of, nearest_rank-IsRank}
use rs_camera.Timerlat.Lines.{
  parse_line, line_of, keyed, span_digits, read_line, values_of, integers, update_each,
  update_column, add_columns, add_column, set_bucket,
}
use rs_camera.Timerlat.Parse.{
  Quantiles, Timerlat, parse_timerlat_histogram, parse_lines, finish_parse, missing, find_column,
  contexts_of, context_of, with_prefix, max_latency, total_over,
}
use rs_camera.Timerlat.Contexts.{IsRead, parse-IsRead}

abbrev buckets : Buckets
buckets = (7, 2) ∷ (3, 5) ∷ (12, 1) ∷ []

nearest_rank-IsRank_example :
    ((latency : ℕ) → nearest_rank buckets 9 7 ≡ some latency → IsRank (target_of 7) latency buckets)
    × ((nearest_rank buckets 9 7 ≡ none) ↔ (◌≡◌ {A = ℕ} 9 0 ⊎ (sum_counts buckets < target_of 7)))
nearest_rank-IsRank_example = nearest_rank-IsRank buckets 9 7

middle : nearest_rank buckets 9 7 ≡ some 7
unfolding nearest_rank rank_from sorted_buckets insert_bucket
middle = refl

abbrev quantiles : Quantiles
quantiles = record {
  p50 = λ n. (n + 1) / 2;
  p99 = λ n. (n * 99 + 99) / 100;
  p999 = λ n. (n * 999 + 999) / 1000;
  p9999 = λ n. (n * 9999 + 9999) / 10000;
}

abbrev text : Str
text = join (10 ∷ []) (
    codes "# RTLA timerlat histogram"
    ∷ codes "Index   IRQ-000   Thr-000"
    ∷ codes "2        3         0"
    ∷ codes "5        1         3"
    ∷ codes "over:    0         1"
    ∷ codes "count:   4         4"
    ∷ codes "min:     2         5"
    ∷ codes "avg:     2         6"
    ∷ codes "max:     5         9"
    ∷ [])

abbrev parsed : Timerlat
parsed = record {
  columns = codes "IRQ-000" ∷ codes "Thr-000" ∷ [];
  contexts =
      record {
        name = codes "IRQ-000";
        count = 4;
        min = 2;
        avg = 2;
        max = 5;
        over = 0;
        histogram_count = 4;
        p50_us = some 2;
        p99_us = some 5;
        p999_us = some 5;
        p9999_us = some 5;
      }
      ∷ record {
        name = codes "Thr-000";
        count = 4;
        min = 5;
        avg = 6;
        max = 9;
        over = 1;
        histogram_count = 3;
        p50_us = some 5;
        p99_us = none;
        p999_us = none;
        p9999_us = none;
      }
      ∷ [];
  irq_max_us = 5;
  thread_max_us = 9;
  irq_p999_us_max_cpu = some 5;
  thread_p999_us_max_cpu = none;
  overflow_samples = 1;
}

parse : parse_timerlat_histogram quantiles text ≡ ok parsed
unfolding parse_timerlat_histogram parse_lines parse_line line_of keyed span_digits read_line
    values_of integers update_each update_column add_columns add_column set_bucket finish_parse
    missing find_column contexts_of context_of with_prefix max_latency total_over nearest_rank
    rank_from sorted_buckets insert_bucket sum_counts maximum_known max_value join strip lstrip
    rstrip int_of int_from int_text words words_from starts_with drop_prefix split_lines str_eq
parse = refl

parse-IsRead_example : IsRead quantiles text parsed
parse-IsRead_example = parse-IsRead quantiles text parsed parse
