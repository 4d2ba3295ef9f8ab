-- ===== src/CpuList/Formats.antt =====
-- What `format_cpu_list` prints is read back by `parse_cpu_list`.
use rs_camera.Prelude.{
  ℕ, zero, suc, ◌+◌, ◌-◌, ◌≤◌, ◌<◌, ◌≡◌, refl, true, false, inl, inr, List, [], ◌∷◌, ◌++◌, ◌≢◌,
  arith, ◌==◌, is_empty, All, ap, append_assoc, append-nil, all-append_true, Bool-cases, All-append,
  ◌∙◌,
}
use rs_camera.Prelude.Exec.{ok}
use rs_camera.Text.{Str, strip, join}
use rs_camera.Text.Pieces.{lacks, no_space, strip_none, split-join}
use rs_camera.CpuList.Sets.{AscendingFrom, IsAscending, interval}
use rs_camera.CpuList.{parse_tokens, parse_cpu_list, format_ranges, format_cpu_list}
use rs_camera.CpuList.Ranges.{
  IsClean, is_empty-append, format_range-IsClean, parse_token-format_range,
}

interval-snoc : (first n : ℕ) → interval first (suc n) ≡ interval first n ++ (first + n) ∷ []
interval-snoc first zero = ap (λ m. m ∷ []) (omega arith)
interval-snoc first (suc n) =
    ap (λ r. first ∷ r)
      (interval-snoc (suc first) n ∙ ap (λ m. interval (suc first) n ++ m ∷ []) (omega arith))

-- One more number at the end of the open range.
interval_extends :
    (first previous : ℕ)
    → first ≤ previous
    → interval first (suc (previous + 1) - first)
      ≡ interval first (suc previous - first) ++ (previous + 1) ∷ []
interval_extends first previous h =
    let e : suc (previous + 1) - first ≡ suc (suc previous - first) = omega arith in
    let last : first + (suc previous - first) ≡ previous + 1 = omega arith in
    rw e (
      interval-snoc first (suc previous - first)
      ∙ ap (λ m. interval first (suc previous - first) ++ m ∷ []) last)

extends :
    (first previous v : ℕ) (values : List ℕ)
    → first ≤ previous
    → v ≡ previous + 1
    → interval first (suc v - first) ++ values ≡ interval first (suc previous - first) ++ v ∷ values
extends first previous v values h e = rw e (
    rw (interval_extends first previous h)
      (append_assoc (interval first (suc previous - first)) ((previous + 1) ∷ []) values))

closes :
    (cpus done : List ℕ) (v : ℕ) (values : List ℕ)
    → (cpus ++ done) ++ (interval v (suc v - v) ++ values) ≡ cpus ++ (done ++ v ∷ values)
closes cpus done v values =
    let one : suc v - v ≡ 1 = omega arith in rw one (append_assoc cpus done (v ∷ values))

interval_low :
    (first count bound : ℕ) → first + count ≤ bound → All (λ y. y < bound) (interval first count)
interval_low first zero bound h = tt
interval_low first (suc count) bound h =
    (omega arith, interval_low (suc first) count bound (omega arith))

low_weaken : (a b : ℕ) (xs : List ℕ) → a ≤ b → All (λ y. y < a) xs → All (λ y. y < b) xs
low_weaken a b [] h l = tt
low_weaken a b (x ∷ xs) h l = (omega arith, low_weaken a b xs h l.1)

parse_tokens-format_ranges :
    (value : Str) (first previous : ℕ) (values cpus : List ℕ)
    → first ≤ previous
    → AscendingFrom (suc previous) values
    → All (λ y. y < first) cpus
    → parse_tokens value (format_ranges first previous values) cpus
      ≡ ok (cpus ++ (interval first (suc previous - first) ++ values))
unfolding parse_tokens format_ranges
parse_tokens-format_ranges value first previous [] cpus h a low =
    rw (parse_token-format_range value first previous cpus h low) (rw append-nil)
parse_tokens-format_ranges value first previous (v ∷ values) cpus h a low =
    elim (Bool-cases (v == previous + 1)) [
      | inl next ↦
          let e : v ≡ previous + 1 = ground arith in
          rw next (
            parse_tokens-format_ranges value first v values cpus (omega arith) a.1 low
            ∙ ap (λ r. ok (cpus ++ r)) (extends first previous v values h e))
      | inr gap ↦
          let below : previous < v = omega arith in
          let done = interval first (suc previous - first) in
          rw (gap, parse_token-format_range value first previous cpus h low)
            (parse_tokens-format_ranges value v v values (cpus ++ done) (omega arith) a.1 (
                All-append _ cpus done (low_weaken first v cpus (omega arith) low)
                  (interval_low first (suc previous - first) v (omega arith)))
              ∙ ap ok (closes cpus done v values))
    ]

ranges-IsClean :
    (first previous : ℕ) (values : List ℕ) → All IsClean (format_ranges first previous values)
unfolding format_ranges
ranges-IsClean first previous [] = (format_range-IsClean first previous, tt)
ranges-IsClean first previous (v ∷ values) = elim (Bool-cases (v == previous + 1)) [
  | inl next ↦ rw next (ranges-IsClean first v values)
  | inr gap ↦ rw gap (format_range-IsClean first previous, ranges-IsClean v v values)
]

no_space-join : (ts : List Str) → All IsClean ts → no_space (join (b',' ∷ []) ts) ≡ true
unfolding join
no_space-join [] h = refl
no_space-join (t ∷ []) h = h.0.spaces
no_space-join (t ∷ u ∷ ts) h =
    all-append_true _ t (b',' ∷ join (b',' ∷ []) (u ∷ ts)) h.0.spaces (no_space-join (u ∷ ts) h.1)

is_empty-join : (t : Str) (ts : List Str) → IsClean t → is_empty (join (b',' ∷ []) (t ∷ ts)) ≡ false
unfolding join
is_empty-join t [] h = h.filled
is_empty-join t (u ∷ ts) h = is_empty-append t (b',' ∷ join (b',' ∷ []) (u ∷ ts)) h.filled

commas : (ts : List Str) → All IsClean ts → All (λ u. lacks b',' u ≡ true) ts
commas [] h = tt
commas (t ∷ ts) h = (h.0.commas, commas ts h.1)

-- Joined clean pieces are read piece by piece.
parse_cpu_list-join :
    (ts : List Str)
    → ts ≢ []
    → All IsClean ts
    → parse_cpu_list (join (b',' ∷ []) ts) ≡ parse_tokens (join (b',' ∷ []) ts) ts []
unfolding parse_cpu_list
parse_cpu_list-join [] ne h = absurd (ne refl)
parse_cpu_list-join (t ∷ ts) ne h =
    rw (strip_none _ (no_space-join (t ∷ ts) h))
      (rw (is_empty-join t ts h.0) (rw (split-join b',' t ts (commas (t ∷ ts) h))))

ranges_filled : (first previous : ℕ) (values : List ℕ) → format_ranges first previous values ≢ []
unfolding format_ranges
ranges_filled first previous [] e = cc
ranges_filled first previous (v ∷ values) e = elim (Bool-cases (v == previous + 1)) [
  | inl next ↦ ranges_filled first v values (rw next at e)
  | inr gap ↦ let closed = (rw gap at e) in cc
]

-- Every set of CPUs is read back from its printed form.
pub parse-format :
    (cpus : List ℕ) → IsAscending cpus → parse_cpu_list (format_cpu_list cpus) ≡ ok cpus
unfolding format_cpu_list
parse-format [] h = unfold parse_cpu_list strip in refl
parse-format (first ∷ values) h =
    parse_cpu_list-join _ (ranges_filled first first values) (ranges-IsClean first first values)
    ∙ (parse_tokens-format_ranges _ first first values [] (omega arith) h.1 tt
        ∙ ap ok (closes [] [] first values))
