-- ===== src/Text/Numbers.antt =====
-- `int(str(n))` is `n`, and `str(n)` is a run of digits.
use rs_camera.Prelude.{
  ℕ, zero, suc, ◌+◌, ◌-◌, ◌*◌, ◌/◌, ◌%◌, ◌<◌, ◌≡◌, refl, true, false, inl, inr, [], ◌∷◌, ◌++◌,
  arith, ltb, Bool-cases, is_empty, all, all-append,
}
use rs_camera.Text.{Str, is_digit_char, is_digit, int_from, int_of, show_from, show}

is_empty-snoc : (s : Str) (c : ℕ) → is_empty (s ++ c ∷ []) ≡ false
is_empty-snoc [] c = refl
is_empty-snoc (d ∷ s) c = refl

pub int_from-append :
    (n : ℕ) (s : Str) (c : ℕ) → int_from n (s ++ c ∷ []) ≡ int_from n s * 10 + (c - b'0')
unfolding int_from
int_from-append n [] c = refl
int_from-append n (d ∷ s) c = int_from-append (n * 10 + (d - b'0')) s c

int_from-show_from : (fuel n : ℕ) → n < fuel → int_from 0 (show_from fuel n) ≡ n
unfolding show_from
int_from-show_from zero n h = elim h [ ]
int_from-show_from (suc fuel) n h = elim (Bool-cases (ltb n 10)) [
  | inl small ↦ rw small (unfold int_from in omega arith)
  | inr big ↦ rw big (
      rw int_from-append (
        let small : n / 10 < fuel = ground arith in
        rw (int_from-show_from fuel (n / 10) small) (omega arith)))
]

all_digits : (fuel n : ℕ) → n < fuel → all is_digit_char (show_from fuel n) ≡ true
unfolding show_from
all_digits zero n h = elim h [ ]
all_digits (suc fuel) n h = elim (Bool-cases (ltb n 10)) [
  | inl small ↦ rw small (ground arith)
  | inr big ↦ rw big (
      let small : n / 10 < fuel = ground arith in
      rw (all-append is_digit_char (show_from fuel (n / 10)) ((b'0' + n % 10) ∷ []))
        (rw (all_digits fuel (n / 10) small) (ground arith)))
]

show_from_nonempty : (fuel n : ℕ) → is_empty (show_from (suc fuel) n) ≡ false
unfolding show_from
show_from_nonempty fuel n = elim (Bool-cases (ltb n 10)) [
  | inl small ↦ rw small
  | inr big ↦ rw big (is_empty-snoc (show_from fuel (n / 10)) (b'0' + n % 10))
]

-- Reading back a printed number gives that number.
pub int_of-show : (n : ℕ) → int_of (show n) ≡ n
unfolding int_of show
int_of-show n = int_from-show_from (suc n) n (omega arith)

pub all_digits-show : (n : ℕ) → all is_digit_char (show n) ≡ true
unfolding show
all_digits-show n = all_digits (suc n) n (omega arith)

pub is_empty-show : (n : ℕ) → is_empty (show n) ≡ false
unfolding show
is_empty-show n = show_from_nonempty n n

pub is_digit-show : (n : ℕ) → is_digit (show n) ≡ true
is_digit-show n = ground (arith, all_digits-show n, is_empty-show n)
