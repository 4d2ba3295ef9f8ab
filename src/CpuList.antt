-- ===== src/CpuList.antt =====
-- `parse_cpu_list` and `format_cpu_list` of tools/realsense_bench_common/cpu_isolation.py.
-- A Python set of numbers is the strictly ascending list of its elements, so that `sorted` is the
-- identity and equality of sets is equality of lists.
pub mod Sets
pub mod Ranges
pub mod Formats
pub mod Members
mod Tests
unfoldable pub use Sets.{set_add, add_range}
pub use Sets.{AscendingFrom, IsAscending}
use rs_camera.Prelude.{
  ℕ, suc, ◌+◌, ◌-◌, Bool, true, false, not, ◌&&◌, none, some, List, [], ◌∷◌, ◌++◌, ltb, ◌==◌,
  if◌then◌else◌, is_empty,
}
use rs_camera.Prelude.Exec.{Result, ok, err}
use rs_camera.Prelude.Results.{◌>>=◌}
use rs_camera.Text.{Str, strip, split, split_once, join, show, int_of, is_digit}

-- The `ValueError`s, with what their messages quote.
pub data CpuListError : Type 0 where
  empty_element invalid_range descending_range invalid_number : Str → CpuListError

-- The loop's body, on the stripped token; `value` is what the message of an empty element quotes.
unfoldable pub parse_token : Str → Str → List ℕ → Result CpuListError (List ℕ)
parse_token value token cpus =
    if is_empty token then err (empty_element value) else elim (split_once b'-' token) [
      | none ↦
          if not (is_digit token)
          then err (invalid_number token)
          else ok (set_add (int_of token) cpus)
      | some (first, last) ↦
          if not (is_digit first && is_digit last)
          then err (invalid_range token)
          else if ltb (int_of last) (int_of first)
          then err (descending_range token)
          else ok (add_range (int_of first) (suc (int_of last) - int_of first) cpus)
    ]

unfoldable pub parse_tokens : Str → List Str → List ℕ → Result CpuListError (List ℕ)
parse_tokens value [] cpus = ok cpus
parse_tokens value (token ∷ tokens) cpus =
    parse_token value (strip token) cpus >>= parse_tokens value tokens

unfoldable pub parse_cpu_list : Str → Result CpuListError (List ℕ)
unfolding parse_tokens parse_token
parse_cpu_list value =
    let text = strip value in
    if is_empty text then ok [] else parse_tokens value (split b',' text) []

unfoldable pub format_range : ℕ → ℕ → Str
format_range first previous =
    if first == previous then show first else show first ++ (b'-' ∷ show previous)

-- The loop over `values[1:]` and the last append.
unfoldable pub format_ranges : ℕ → ℕ → List ℕ → List Str
format_ranges first previous [] = format_range first previous ∷ []
format_ranges first previous (value ∷ values) =
    let extended = format_ranges first value values in
    let closed = format_range first previous ∷ format_ranges value value values in
    if value == previous + 1 then extended else closed

unfoldable pub format_cpu_list : List ℕ → Str
unfolding format_ranges format_range
format_cpu_list [] = []
format_cpu_list (first ∷ values) = join (b',' ∷ []) (format_ranges first first values)
