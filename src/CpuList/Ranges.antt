-- ===== src/CpuList/Ranges.antt =====
-- One printed token: what it is made of, and what `parse_token` reads from it.
use rs_camera.Prelude.{
  ℕ, suc, ◌-◌, ◌≤◌, ◌<◌, ◌≡◌, refl, true, false, inl, inr, List, [], ◌∷◌, ◌++◌, arith, ◌==◌,
  is_empty, All, all-append_true, Bool-cases, ==_iff,
}
use rs_camera.Prelude.Exec.{ok}
use rs_camera.Text.{Str, strip, show}
use rs_camera.Text.Numbers.{int_of-show, all_digits-show, is_digit-show, is_empty-show}
use rs_camera.Text.Pieces.{
  lacks, no_space, strip_none, split_once-none, split_once-append, digits-no_space,
  digits-lacks_dash, digits-lacks_comma,
}
use rs_camera.CpuList.Sets.{set_add, add_range, interval, set_add_last, add_range_last}
use rs_camera.CpuList.{parse_token, format_range}

-- Printed tokens are not empty and hold neither white space nor commas.
pub record IsClean (t : Str) : Type 0 where
  pub spaces : no_space t ≡ true
  pub commas : lacks b',' t ≡ true
  pub filled : is_empty t ≡ false

pub is_empty-append : (s t : Str) → is_empty s ≡ false → is_empty (s ++ t) ≡ false
is_empty-append [] t h = ground arith
is_empty-append (c ∷ s) t h = refl

show-IsClean : (n : ℕ) → IsClean (show n)
show-IsClean n = record {
  spaces = digits-no_space (show n) (all_digits-show n);
  commas = digits-lacks_comma (show n) (all_digits-show n);
  filled = is_empty-show n;
}

dashed-IsClean : (s t : Str) → IsClean s → IsClean t → IsClean (s ++ b'-' ∷ t)
dashed-IsClean s t a b = record {
  spaces = all-append_true _ s (b'-' ∷ t) a.spaces b.spaces;
  commas = all-append_true _ s (b'-' ∷ t) a.commas b.commas;
  filled = is_empty-append s (b'-' ∷ t) a.filled;
}

pub format_range-IsClean : (first previous : ℕ) → IsClean (format_range first previous)
unfolding format_range
format_range-IsClean first previous = elim (Bool-cases (first == previous)) [
  | inl same ↦ rw same (show-IsClean first)
  | inr apart ↦ rw apart (dashed-IsClean _ _ (show-IsClean first) (show-IsClean previous))
]

format_range_single :
    (first previous : ℕ) → first ≡ previous → format_range first previous ≡ show first
unfolding format_range
format_range_single first previous h = rw ((==_iff first previous).1 h)

format_range_dashed :
    (first previous : ℕ)
    → first < previous
    → format_range first previous ≡ show first ++ b'-' ∷ show previous
unfolding format_range
format_range_dashed first previous h = ground arith

dash_free : (n : ℕ) → lacks b'-' (show n) ≡ true
dash_free n = digits-lacks_dash (show n) (all_digits-show n)

parse_token-show :
    (value : Str) (n : ℕ) (cpus : List ℕ) → parse_token value (show n) cpus ≡ ok (set_add n cpus)
unfolding parse_token
parse_token-show value n cpus = ground (
  arith,
  is_empty-show n,
  is_digit-show n,
  int_of-show n,
  split_once-none b'-' (show n) (dash_free n),
)

parse_token-dashed :
    (value : Str) (first last : ℕ) (cpus : List ℕ)
    → first ≤ last
    → parse_token value (show first ++ b'-' ∷ show last) cpus
      ≡ ok (add_range first (suc last - first) cpus)
unfolding parse_token
parse_token-dashed value first last cpus h = ground (
  arith,
  is_empty-append (show first) (b'-' ∷ show last) (is_empty-show first),
  is_digit-show first,
  int_of-show first,
  is_digit-show last,
  int_of-show last,
  split_once-append b'-' (show first) (show last) (dash_free first),
)

-- Reading one printed range adds it at the end of the set.
pub parse_token-format_range :
    (value : Str) (first previous : ℕ) (cpus : List ℕ)
    → first ≤ previous
    → All (λ y. y < first) cpus
    → parse_token value (strip (format_range first previous)) cpus
      ≡ ok (cpus ++ interval first (suc previous - first))
parse_token-format_range value first previous cpus h low =
    rw (strip_none _ (format_range-IsClean first previous).spaces)
      (elim (Bool-cases (first == previous)) [
        | inl same ↦
            let e : first ≡ previous = (==_iff first previous).0 same in
            let one : suc previous - first ≡ 1 = omega arith in
            rw (format_range_single first previous e)
              (rw (parse_token-show value first cpus) (rw (one, set_add_last first cpus low)))
        | inr apart ↦
            let lt : first < previous = ground arith in
            rw (format_range_dashed first previous lt) (
              rw (parse_token-dashed value first previous cpus h)
                (rw (add_range_last first (suc previous - first) cpus low)))
      ])
