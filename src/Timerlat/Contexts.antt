-- ===== src/Timerlat/Contexts.antt =====
-- What every context of a parsed histogram holds.
use rs_camera.Prelude.{
  ◌+◌, ◌<◌, ◌≡◌, refl, inl, inr, ◌⊎◌, ◌↔◌, none, List, [], ◌∷◌, All, ◌==◌, ==_iff, Bool-cases,
  is_empty, subst, sym, ap, ◌∙◌, map, any, true,
}
use rs_camera.Prelude.Exec.{Result, ok, err, ok-injective}
use rs_camera.Prelude.Errors.{Error}
use rs_camera.Text.{Str, str_eq}
use rs_camera.Timerlat.Entries.{names, HasEntries, parse_lines-HasEntries}
use rs_camera.Text.Words.{split_lines}
use rs_camera.Timerlat.Rank.{sum_counts}
use rs_camera.Timerlat.Ranking.{nearest_rank-IsRank, target_of}
use rs_camera.Timerlat.Lines.{Column, Parsed}
use rs_camera.Timerlat.Parse.{
  Quantiles, Context, Timerlat, context_of, contexts_of, missing, finish_parse, parse_lines,
  parse_timerlat_histogram, value, add_context, result_of, after_lines,
}

-- No sample is lost, and a quantile is unknown exactly where it lies in the overflow.
pub record IsAccounted (q : Quantiles) (c : Context) : Type 0 where
  pub accounted : c.histogram_count + c.over ≡ c.count
  pub p50_unknown :
      (c.p50_us ≡ none) ↔ ((c.count ≡ 0) ⊎ (c.histogram_count < target_of (q.p50 c.count)))
  pub p99_unknown :
      (c.p99_us ≡ none) ↔ ((c.count ≡ 0) ⊎ (c.histogram_count < target_of (q.p99 c.count)))
  pub p999_unknown :
      (c.p999_us ≡ none) ↔ ((c.count ≡ 0) ⊎ (c.histogram_count < target_of (q.p999 c.count)))
  pub p9999_unknown :
      (c.p9999_us ≡ none) ↔ ((c.count ≡ 0) ⊎ (c.histogram_count < target_of (q.p9999 c.count)))

context-IsAccounted :
    (q : Quantiles) (c : Column)
    → sum_counts c.histogram + c.over ≡ value c.summary.count
    → IsAccounted q (context_of q c)
unfolding context_of
context-IsAccounted q c e =
    let total = value c.summary.count in
    record {
      accounted = e;
      p50_unknown =
          (nearest_rank-IsRank c.histogram (value c.summary.count)
            (q.p50 (value c.summary.count))).1;
      p99_unknown =
          (nearest_rank-IsRank c.histogram (value c.summary.count)
            (q.p99 (value c.summary.count))).1;
      p999_unknown =
          (nearest_rank-IsRank c.histogram (value c.summary.count)
            (q.p999 (value c.summary.count))).1;
      p9999_unknown =
          (nearest_rank-IsRank c.histogram (value c.summary.count)
            (q.p9999 (value c.summary.count))).1;
    }

-- The contexts are those of the entries, in their order, and every one accounts for its samples.
abbrev Complete : Quantiles → List Column → List Context → Type 0
Complete q entries contexts = (contexts ≡ map (context_of q) entries) × All (IsAccounted q) contexts

added :
    (q : Quantiles) (c : Column) (cs : List Column) (r : Result Error (List Context))
    (contexts : List Context)
    → add_context (context_of q c) r ≡ ok contexts
    → IsAccounted q (context_of q c)
    → ((ds : List Context) → r ≡ ok ds → Complete q cs ds)
    → Complete q (c ∷ cs) contexts
added q c cs (ok ds) contexts e i k =
    let (same, all_accounted) = k ds refl in
    subst (Complete q (c ∷ cs)) (ok-injective e)
      (ap (λ ds. context_of q c ∷ ds) same, (i, all_accounted))
added q c cs (err f) contexts e i k = cc e

contexts-Complete :
    (q : Quantiles) (cs : List Column) (contexts : List Context)
    → contexts_of q cs ≡ ok contexts
    → Complete q cs contexts
unfolding contexts_of
contexts-Complete q [] contexts e = subst (Complete q []) (ok-injective e) (refl, tt)
contexts-Complete q (c ∷ cs) contexts e =
    elim (Bool-cases (sum_counts c.histogram + c.over == value c.summary.count)) [
      | inl same ↦
          added q c cs (contexts_of q cs) contexts (rw same at e)
            (context-IsAccounted q c ((==_iff _ (value c.summary.count)).0 same))
            (contexts-Complete q cs)
      | inr other ↦ cc (rw other at e)
    ]

-- What the lines hold has become the result.
record IsResult (q : Quantiles) (p : Parsed) (t : Timerlat) : Type 0 where
  columns : t.columns ≡ p.columns
  contexts : Complete q p.entries t.contexts

result-IsResult :
    (q : Quantiles) (p : Parsed) (r : Result Error (List Context)) (t : Timerlat)
    → ((cs : List Context) → r ≡ ok cs → Complete q p.entries cs)
    → result_of p.columns r ≡ ok t
    → IsResult q p t
result-IsResult q p (ok cs) t k e =
    subst (IsResult q p) (ok-injective e) (record { columns = refl; contexts = k cs refl })
result-IsResult q p (err f) t k e = cc e

finish-IsResult :
    (q : Quantiles) (p : Parsed) (t : Timerlat) → finish_parse q p ≡ ok t → IsResult q p t
unfolding finish_parse
finish-IsResult q p t e = elim (Bool-cases (is_empty p.columns)) [
  | inl nothing ↦ cc (rw nothing at e)
  | inr columns ↦ elim (Bool-cases (is_empty (missing p.entries p.columns))) [
    | inl complete ↦
        result-IsResult q p (contexts_of q p.entries) t (contexts-Complete q p.entries)
          (rw (columns, complete) at e)
    | inr incomplete ↦ cc (rw (columns, incomplete) at e)
  ]
]

-- A context of the name is there.
abbrev pub HasContext : List Context → Str → Type 0
HasContext contexts name = any (str_eq name) (map (λ (c : Context). c.name) contexts) ≡ true

-- The lines were read; the contexts are those of what they hold, one for each column of the header at
-- least; and every one accounts for its samples.
pub record IsRead (q : Quantiles) (text : Str) (t : Timerlat) : Type 0 where
  pub parsed : Parsed
  pub lines_read :
      parse_lines (split_lines text) (record { columns = []; entries = [] }) ≡ ok parsed
  pub columns : t.columns ≡ parsed.columns
  pub contexts : t.contexts ≡ map (context_of q) parsed.entries
  pub covered : All (HasContext t.contexts) t.columns
  pub accounted : All (IsAccounted q) t.contexts

names_lem :
    (q : Quantiles) (cs : List Column)
    → map (λ (c : Context). c.name) (map (context_of q) cs) ≡ names cs
unfolding context_of
names_lem q [] = refl
names_lem q (c ∷ cs) = ap (λ ns. c.name ∷ ns) (names_lem q cs)

after-IsRead :
    (q : Quantiles) (text : Str) (r : Result Error Parsed) (t : Timerlat)
    → parse_lines (split_lines text) (record { columns = []; entries = [] }) ≡ r
    → ((p : Parsed) → r ≡ ok p → HasEntries p)
    → after_lines q r ≡ ok t
    → IsRead q text t
after-IsRead q text (ok p) t read k e =
    let done = finish-IsResult q p t e in
    let (same, accounted) = done.contexts in
    record {
      parsed = p;
      lines_read = read;
      columns = done.columns;
      contexts = same;
      covered =
          subst (λ ns. All (λ name. any (str_eq name) ns ≡ true) t.columns)
            (sym (ap (map (λ (c : Context). c.name)) same ∙ names_lem q p.entries))
            (subst (All (λ name. any (str_eq name) (names p.entries) ≡ true)) (sym done.columns)
              (k p refl));
      accounted = accounted;
    }
after-IsRead q text (err f) t read k e = cc e

-- If `parse_timerlat_histogram` returns, the lines were read; its contexts are those of all the entries that the
-- lines hold, every column of the header has one, and none leaves out a sample, which is in its histogram
-- or in its overflow; and each quantile of a context is unknown exactly if there are no samples or its rank
-- lies beyond the histogram.
pub parse-IsRead :
    (q : Quantiles) (text : Str) (t : Timerlat)
    → parse_timerlat_histogram q text ≡ ok t
    → IsRead q text t
unfolding parse_timerlat_histogram
parse-IsRead q text t e =
    let start : Parsed = record { columns = []; entries = [] } in
    after-IsRead q text (parse_lines (split_lines text) start) t refl
      (parse_lines-HasEntries (split_lines text) start tt) e
