-- ===== src/Text/Pieces.antt =====
-- `strip`, `split` and `join` on text that holds no space and no separator.
use rs_camera.Prelude.{
  ℕ, ◌≡◌, refl, Bool, true, not, none, some, List, [], ◌∷◌, ◌++◌, arith, ◌==◌, all, All, ap,
}
use rs_camera.Text.{Str, is_space, lstrip, rstrip, strip, split, split_once, join, is_digit_char}

-- No character of `s` is `c`.
abbrev pub lacks : ℕ → Str → Bool
lacks c = all (λ d. not (d == c))

abbrev pub no_space : Str → Bool
no_space = all (λ d. not (is_space d))

lstrip_none : (s : Str) → no_space s ≡ true → lstrip s ≡ s
unfolding lstrip
lstrip_none [] h = refl
lstrip_none (c ∷ s) h = ground arith

rstrip_none : (s : Str) → no_space s ≡ true → rstrip s ≡ s
unfolding rstrip
rstrip_none [] h = refl
rstrip_none (c ∷ s) h = ground (arith, rstrip_none s)

-- Text without white space is its own `strip`.
pub strip_none : (s : Str) → no_space s ≡ true → strip s ≡ s
unfolding strip
strip_none s h = rw (lstrip_none s h) (rstrip_none s h)

pub split_none : (sep : ℕ) (s : Str) → lacks sep s ≡ true → split sep s ≡ s ∷ []
unfolding split
split_none sep [] h = refl
split_none sep (c ∷ s) h = ground (arith, split_none sep s)

pub split-append :
    (sep : ℕ) (s t : Str) → lacks sep s ≡ true → split sep (s ++ sep ∷ t) ≡ s ∷ split sep t
unfolding split
split-append sep [] t h = ground arith
split-append sep (c ∷ s) t h = ground (arith, split-append sep s t)

-- Splitting joined pieces gives the pieces, if none holds the separator.
pub split-join :
    (sep : ℕ) (t : Str) (ts : List Str)
    → All (λ u. lacks sep u ≡ true) (t ∷ ts)
    → split sep (join (sep ∷ []) (t ∷ ts)) ≡ t ∷ ts
unfolding join
split-join sep t [] h = split_none sep t h.0
split-join sep t (u ∷ ts) h =
    rw (split-append sep t (join (sep ∷ []) (u ∷ ts)) h.0)
      (ap (λ r. t ∷ r) (split-join sep u ts h.1))

pub split_once-none : (sep : ℕ) (s : Str) → lacks sep s ≡ true → split_once sep s ≡ none
unfolding split_once
split_once-none sep [] h = refl
split_once-none sep (c ∷ s) h = ground (arith, split_once-none sep s)

pub split_once-append :
    (sep : ℕ) (s t : Str) → lacks sep s ≡ true → split_once sep (s ++ sep ∷ t) ≡ some (s, t)
unfolding split_once
split_once-append sep [] t h = ground arith
split_once-append sep (c ∷ s) t h = ground (arith, split_once-append sep s t)

-- Digits hold no white space and no punctuation below `0`.
pub digits-no_space : (s : Str) → all is_digit_char s ≡ true → no_space s ≡ true
digits-no_space [] h = refl
digits-no_space (c ∷ s) h = ground (arith, digits-no_space s)

pub digits-lacks_dash : (s : Str) → all is_digit_char s ≡ true → lacks b'-' s ≡ true
digits-lacks_dash [] h = refl
digits-lacks_dash (c ∷ s) h = ground (arith, digits-lacks_dash s)

pub digits-lacks_comma : (s : Str) → all is_digit_char s ≡ true → lacks b',' s ≡ true
digits-lacks_comma [] h = refl
digits-lacks_comma (c ∷ s) h = ground (arith, digits-lacks_comma s)
