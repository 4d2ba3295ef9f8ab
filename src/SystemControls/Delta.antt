-- ===== src/SystemControls/Delta.antt =====
-- What `kernel_delta` returns.
use rs_camera.Prelude.{
  true, false, ◌≡◌, refl, ◌⊎◌, inl, inr, Option, none, some, List, [], ◌∷◌, ◌++◌, All, Bool-cases,
  arith, ap, if◌then◌else◌,
}
use rs_camera.Text.{Str, str_eq, str_eq_iff, join}
use rs_camera.Text.Words.{starts_with, drop_prefix, split_lines}
use rs_camera.SystemControls.KernelLog.{
  last_line, after_last, delta_of, kernel_delta, anchor_lost, closed_text,
}

starts_with-append : (s t : Str) → starts_with s (s ++ t) ≡ true
unfolding starts_with
starts_with-append [] t = refl
starts_with-append (c ∷ s) t = ground (arith, starts_with-append s t)

drop_prefix-append : (s t : Str) → drop_prefix s (s ++ t) ≡ t
unfolding drop_prefix
drop_prefix-append [] t = refl
drop_prefix-append (c ∷ s) t = drop_prefix-append s t

-- If the log has only grown, the delta is exactly the text that was added, without an error.
pub kernel_delta-append : (before new : Str) → kernel_delta before (before ++ new) ≡ (new, [])
unfolding kernel_delta
kernel_delta-append before new =
    rw (starts_with-append before new) (ap (λ t. (t, [])) (drop_prefix-append before new))

abbrev pub Differs : Str → List Str → Type 0
Differs anchor = All (λ line. str_eq line anchor ≡ false)

-- The lines behind the last occurrence of the anchor, or none where it does not occur.
abbrev pub Behind : Str → List Str → Option (List Str) → Type 0
Behind anchor lines none = Differs anchor lines
Behind anchor lines (some found) =
    (earlier : List Str) × (lines ≡ earlier ++ anchor ∷ found) × Differs anchor found

after_last-Behind :
    (anchor : Str) (lines : List Str) → Behind anchor lines (after_last anchor lines)
unfolding after_last
after_last-Behind anchor [] = tt
after_last-Behind anchor (line ∷ lines) =
    go (after_last anchor lines) (after_last-Behind anchor lines)
  where
    go :
        (r : Option (List Str))
        → Behind anchor lines r
        → Behind anchor (line ∷ lines) (elim r [
          | some found ↦ some found
          | none ↦ if str_eq line anchor then some lines else none
        ])
    go (some found) (earlier, cut, rest) = (line ∷ earlier, ap (λ ls. line ∷ ls) cut, rest)
    go none rest = elim (Bool-cases (str_eq line anchor)) [
      | inl same ↦ rw same ([], ap (λ l. l ∷ lines) ((str_eq_iff line anchor).0 same), rest)
      | inr other ↦ rw other (other, rest)
    ]

-- What `kernel_delta` promises where the log has not only grown: all of it, if nothing was logged
-- before; the lines behind the last occurrence of the last old line; or an error and no text.
abbrev pub Delta : Option Str → Str → Str × Str → Type 0
Delta none after d = d ≡ (after, [])
Delta (some anchor) after d =
    ((found : List Str) × Behind anchor (split_lines after) (some found)
      × (d ≡ (closed_text (join (10 ∷ []) found), [])))
    ⊎ (Behind anchor (split_lines after) none × (d ≡ ([], anchor_lost)))

found_or_not :
    (anchor after : Str) (r : Option (List Str))
    → Behind anchor (split_lines after) r
    → Delta (some anchor) after (delta_of r)
unfolding delta_of
found_or_not anchor after none b = inr (b, refl)
found_or_not anchor after (some found) b = inl (found, b, refl)

-- If the ring buffer has dropped old lines, the delta is what follows the last old line that is still
-- there; if that line is lost there is an error and no text; and an empty old log gives all.
pub kernel_delta-Delta :
    (before after : Str)
    → starts_with before after ≡ false
    → Delta (last_line (split_lines before)) after (kernel_delta before after)
unfolding kernel_delta
kernel_delta-Delta before after changed = rw changed (go (last_line (split_lines before)))
  where
    go :
        (old : Option Str)
        → Delta old after (elim old [
          | none ↦ (after, [])
          | some anchor ↦ delta_of (after_last anchor (split_lines after))
        ])
    go none = refl
    go (some anchor) =
        found_or_not anchor after (after_last anchor (split_lines after))
          (after_last-Behind anchor (split_lines after))
