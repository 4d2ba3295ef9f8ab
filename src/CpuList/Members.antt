-- ===== src/CpuList/Members.antt =====
-- Which numbers `parse_cpu_list` puts into the set, and that the set is ascending.
use rs_camera.Prelude.{
  ℕ, suc, ◌-◌, ◌≡◌, refl, Bool, true, false, not, inl, inr, none, some, List, [], ◌∷◌, arith, leb,
  ◌==◌, is_empty, any, all, subst, Bool-cases, Option-cases, ◌&&◌, ◌||◌, ◌∙◌, if◌then◌else◌,
}
use rs_camera.Prelude.Exec.{Result, ok, err, is_ok, ok-injective}
use rs_camera.Prelude.Results.{◌>>=◌, >>=-eq-ok}
use rs_camera.Text.{Str, strip, split, split_once, int_of, is_digit}
use rs_camera.CpuList.Sets.{
  IsAscending, contains, in_range, contains-set_add, contains-add_range, add_range-IsAscending,
  set_add-AscendingFrom,
}
use rs_camera.CpuList.{CpuListError, parse_token, parse_tokens, parse_cpu_list}

-- The numbers that a token names by itself: `7` only 7, and `a-b` those from `a` to `b`.
abbrev pub names_cpu : ℕ → Str → Bool
names_cpu n token = elim (split_once b'-' token) [
  | none ↦ n == int_of token
  | some (first, last) ↦ in_range (int_of first) (int_of last) n
]

-- A token that the parser accepts.
abbrev pub is_wellformed : Str → Bool
is_wellformed token = not (is_empty token) && elim (split_once b'-' token) [
  | none ↦ is_digit token
  | some (first, last) ↦ is_digit first && (is_digit last && leb (int_of first) (int_of last))
]

parse_token_members :
    (value token : Str) (cpus cpus' : List ℕ) (n : ℕ)
    → parse_token value token cpus ≡ ok cpus'
    → contains n cpus' ≡ (names_cpu n token || contains n cpus)
unfolding parse_token
parse_token_members value token cpus cpus' n h = elim (Option-cases (split_once b'-' token)) [
  | inl plain ↦ ground (arith, contains-set_add n (int_of token) cpus)
  | inr ((first, last), ranged) ↦
      ground (arith, contains-add_range n (int_of first) (suc (int_of last) - int_of first) cpus)
]

parse_token-IsAscending :
    (value token : Str) (cpus cpus' : List ℕ)
    → parse_token value token cpus ≡ ok cpus'
    → IsAscending cpus
    → IsAscending cpus'
unfolding parse_token
parse_token-IsAscending value token cpus cpus' h a = elim (Option-cases (split_once b'-' token)) [
  | inl plain ↦ ground (arith, set_add-AscendingFrom 0 (int_of token) cpus)
  | inr ((first, last), ranged) ↦
      ground (arith, add_range-IsAscending (int_of first) (suc (int_of last) - int_of first) cpus a)
]

parse_token-is_ok :
    (value token : Str) (cpus : List ℕ) → is_ok (parse_token value token cpus) ≡ is_wellformed token
unfolding parse_token
parse_token-is_ok value token cpus = elim (Option-cases (split_once b'-' token)) [
  | inl plain ↦ ground arith
  | inr ((first, last), ranged) ↦ ground arith
]

-- The numbers that some token of the list names.
abbrev pub names_any : ℕ → List Str → Bool
names_any n = any (λ token. names_cpu n (strip token))

parse_tokens_members :
    (value : Str) (tokens : List Str) (cpus cpus' : List ℕ) (n : ℕ)
    → parse_tokens value tokens cpus ≡ ok cpus'
    → contains n cpus' ≡ (names_any n tokens || contains n cpus)
unfolding parse_tokens
parse_tokens_members value [] cpus cpus' n h = ground arith
parse_tokens_members value (token ∷ tokens) cpus cpus' n h =
    let (mid, e, rest) =
      >>=-eq-ok (parse_token value (strip token) cpus) (parse_tokens value tokens) _ h in
    ground (
      arith,
      parse_tokens_members value tokens mid cpus' n rest,
      parse_token_members value (strip token) cpus mid n e,
    )

parse_tokens-IsAscending :
    (value : Str) (tokens : List Str) (cpus cpus' : List ℕ)
    → parse_tokens value tokens cpus ≡ ok cpus'
    → IsAscending cpus
    → IsAscending cpus'
unfolding parse_tokens
parse_tokens-IsAscending value [] cpus cpus' h a = subst IsAscending (ok-injective h) a
parse_tokens-IsAscending value (token ∷ tokens) cpus cpus' h a =
    let (mid, e, rest) =
      >>=-eq-ok (parse_token value (strip token) cpus) (parse_tokens value tokens) _ h in
    parse_tokens-IsAscending value tokens mid cpus' rest
      (parse_token-IsAscending value (strip token) cpus mid e a)

parse_tokens-is_ok :
    (value : Str) (tokens : List Str) (cpus : List ℕ)
    → is_ok (parse_tokens value tokens cpus) ≡ all (λ token. is_wellformed (strip token)) tokens
unfolding parse_tokens
parse_tokens-is_ok value [] cpus = refl
parse_tokens-is_ok value (token ∷ tokens) cpus =
    go (parse_token value (strip token) cpus) (parse_token-is_ok value (strip token) cpus)
      (λ mid. parse_tokens-is_ok value tokens mid)
  where
    go :
        (r : Result CpuListError (List ℕ))
        → is_ok r ≡ is_wellformed (strip token)
        → ((mid : List ℕ)
            → is_ok (parse_tokens value tokens mid)
              ≡ all (λ token. is_wellformed (strip token)) tokens)
        → is_ok (r >>= parse_tokens value tokens)
          ≡ (is_wellformed (strip token) && all (λ token. is_wellformed (strip token)) tokens)
    go (ok mid) e rest = rw (← e) (rest mid)
    go (err x) e rest = rw (← e)

-- The pieces between the commas, none in blank text.
abbrev pub elements : Str → List Str
elements value = if is_empty (strip value) then [] else split b',' (strip value)

or_false : (b : Bool) → (b || false) ≡ b
or_false true = refl
or_false false = refl

-- A parsed set is ascending, and holds exactly the numbers that an element of the text names.
pub parse_members :
    (value : Str) (cpus : List ℕ)
    → parse_cpu_list value ≡ ok cpus
    → IsAscending cpus × ((n : ℕ) → contains n cpus ≡ names_any n (elements value))
unfolding parse_cpu_list
parse_members value cpus h = elim (Bool-cases (is_empty (strip value))) [
  | inl blank ↦
      let e : [] ≡ cpus = ok-injective (rw blank at h) in
      (
        subst IsAscending e tt,
        λ n. subst (λ s. contains n s ≡ names_any n (elements value)) e (rw blank),
      )
  | inr filled ↦
      let run : parse_tokens value (split b',' (strip value)) [] ≡ ok cpus = (rw filled at h) in
      (
        parse_tokens-IsAscending value _ [] cpus run tt,
        λ n. rw filled (
            parse_tokens_members value _ [] cpus n run
            ∙ or_false (names_any n (split b',' (strip value)))),
      )
]

-- Blank text is the empty set, and parsing succeeds exactly when every element is well formed.
pub parse-is_ok :
    (value : Str)
    → (is_empty (strip value) ≡ true → parse_cpu_list value ≡ ok [])
      × (is_ok (parse_cpu_list value) ≡ all (λ token. is_wellformed (strip token)) (elements value))
unfolding parse_cpu_list
parse-is_ok value = elim (Bool-cases (is_empty (strip value))) [
  | inl blank ↦ ((λ _. rw blank), rw blank)
  | inr filled ↦ ((λ blank. cc (blank, filled)), rw filled (parse_tokens-is_ok value _ []))
]
