-- ===== src/Pipeline/Rounds.antt =====
-- Six rounds are enough for the loop over the five phases, where markers persist.
use rs_camera.Prelude.{
  suc, ◌+◌, ◌≤◌, Bool, not, ◌≡◌, inr, none, some, List, [], ◌∷◌, ◌++◌, All, length, length-append,
  arith, ◌∙◌, subst, ap,
}
use rs_camera.Prelude.Exec.{Result, Exec, ok, err, continue, ◌>>=◌, ◌>>◌, raise_if}
use rs_camera.Prelude.Objects.{on_world, change}
use rs_camera.Prelude.After.{
  After, After-any, After-map, After-and, After-bind, After-lift, After-raise_if,
}
use rs_camera.Prelude.Errors.{Error, value_error}
use rs_camera.Text.{Str, codes}
use rs_camera.Machine.{Machine, FilePath, ◌/◌}
use rs_camera.Pipeline.Plan.{Phase, Records, complete}
use rs_camera.Pipeline.Next.{IsDone, AllDone, Pending, no_stage, a_done, an_open}
use rs_camera.Pipeline.Host.{Host, CampaignState, check_stage, run_stage, perform}
use rs_camera.Pipeline.Worker.{Method, save, check_complete, campaign_smoke, capture, captures}
use rs_camera.Pipeline.Permitted.{Within, IsScheduled}
use rs_camera.Pipeline.Lasting.{Lasting, Carried, save-Lasts, captures-Lasts}

module _ {W Config Protocol : Type 0} (m : Machine W) (f : Records W) (h : Host W Config Protocol)
    (root : FilePath) where
  -- A capture leaves valid markers valid, and does not turn a campaign into a smoke test or back.
  pub record Persistent (smoke : Bool) : Type 0 where
    pub markers : (stage : Str) → Lasting h root smoke (λ w. IsDone m f root w stage)
    pub plan : Lasting h root smoke (λ w. campaign_smoke m f h root w ≡ ok smoke)

  -- What follows an action that does not touch the object.
  pub then_any :
      {A B : Type 0} (P : B → CampaignState × W → Type 0) (action : Exec Error W A)
      (k : A → Method m f h root B) (o : CampaignState) (w : W)
      → ((a : A) (v : W) → After P (λ _ _. Unit) (k a (o, v)))
      → After P (λ _ _. Unit) ((on_world action >>= k) (o, w))
  then_any {A = A} P action k o w next = go (action w)
    where
      go : (r : Result Error A × W) → After P (λ _ _. Unit) (continue r.0 k (o, r.1))
      go (ok a, v) = next a v
      go (err e, v) = tt

  pub Pending-open :
      (w : W) (stages pending : List Str) (first : Str) (rest : List Str)
      → pending ≡ first ∷ rest
      → Pending m f root w stages pending
      → All (IsDone m f root w) stages
      → ⊥
  Pending-open w _ _ first rest e no_stage d = cc e
  Pending-open w _ _ first rest e (a_done s stages more d p) all =
      Pending-open w stages more first rest e p all.1
  Pending-open w _ _ first rest e (an_open s stages more o p) all = cc (o, all.0)

  -- A phase that is not done lies behind those that are.
  pub shorter :
      (w : W) (done left earlier : List Phase) (here : Phase) (later : List Phase)
      → done ++ left ≡ earlier ++ here ∷ later
      → AllDone m f root w done
      → (All (IsDone m f root w) here.stages → ⊥)
      → suc (length later) ≤ length left
  shorter w [] left earlier here later e d undone =
      let n : length left ≡ length earlier + suc (length later) =
        ap length e ∙ length-append earlier (here ∷ later) in
      omega arith
  shorter w (p ∷ done) left [] here later e d undone =
      let same : p ≡ here = cc e in
      absurd (undone (subst (λ q. All (IsDone m f root w) q.stages) same d.0))
  shorter w (p ∷ done) left (q ∷ earlier) here later e d undone =
      shorter w done left earlier here later (cc e) d.1 undone

  module _ (smoke : Bool) (persistent : Persistent smoke) where
    capture-IsDone :
        (stage : Str) (o : CampaignState) (w : W)
        → o.smoke ≡ smoke
        → After
            (λ _ t. (t.0.smoke ≡ smoke) × IsDone m f root t.1 stage)
            (λ _ _. Unit)
            (capture m f h root stage (o, w))
    unfolding capture
    capture-IsDone stage o w kind =
        let active : CampaignState = record o { active_stage = some stage } in
        then_any P (perform h root (check_stage stage)) _ o w (λ _ w1.
          then_any P (h.make_dir (root / codes "environment")) _ o w1 (λ _ w2.
            then_any P (λ v. (h.load_prepared v, v)) _ o w2
              (λ prepared w3. then_any P (h.save_prepared _ prepared) _ o w3 (λ _ w4.
                then_any P (h.save_state active) _ active w4 (λ _ w5.
                  then_any P (perform h root (run_stage stage)) _ active w5
                    (λ _ w6. certified active w6 kind))))))
      where
        P : Unit {0} → CampaignState × W → Type 0
        P _ t = (t.0.smoke ≡ smoke) × IsDone m f root t.1 stage

        certified :
            (active : CampaignState) (v : W)
            → active.smoke ≡ smoke
            → After P
                (λ _ _. Unit)
                ((on_world (check_complete m f h root stage) >>= λ done.
                    raise_if
                      (not done)
                      (value_error (codes "No valid completion marker for " ++ stage))
                    >> (change (λ o. record o { active_stage = none }) >> save m f h root))
                  (active, v))
        certified active v kind =
            After-lift P (λ _ _. Unit) (complete m f root stage v) _ (active, v)
              (λ done valid.
                After-bind P (λ _ _. Unit) (raise_if (not done) _) _ (active, v)
                  (After-raise_if _ (λ _ _. Unit) (not done) _ (active, v) (λ _. tt)
                    (λ marked.
                      After-map (λ _ t. P tt t) P (λ _ t. P tt t) _ _
                        ((save-Lasts m f h root smoke (λ w. IsDone m f root w stage)
                            (persistent.markers stage)).at
                          (record active { active_stage = none }, v)
                          (kind, valid ∙ ap ok (ground arith)))
                        (λ _ _ d. d) (λ _ _ _. tt))))
              (λ _ _. tt)

    -- The markers of the stages that are captured are valid afterwards.
    pub captures-AllDone :
        (stages : List Str) (s : CampaignState × W)
        → s.0.smoke ≡ smoke
        → ((stage : Str) → Within stage stages → IsScheduled h stage)
        → After
            (λ _ t. All (IsDone m f root t.1) stages)
            (λ _ _. Unit)
            (captures m f h root stages s)
    unfolding captures
    captures-AllDone [] s kind scheduled = tt
    captures-AllDone (stage ∷ stages) s kind scheduled =
        After-bind _ (λ _ _. Unit) (capture m f h root stage) _ s
          (After-map (λ _ t. (t.0.smoke ≡ smoke) × IsDone m f root t.1 stage) _ (λ _ _. Unit)
            (λ _ _. Unit) _ (capture-IsDone stage (s.0) (s.1) kind)
            (λ _ t d.
              After-map
                (λ _ u.
                  ((u.0.smoke ≡ smoke) × IsDone m f root u.1 stage)
                  × All (IsDone m f root u.1) stages)
                _ (λ _ _. Unit) _ _
                (After-and (λ u. (u.0.smoke ≡ smoke) × IsDone m f root u.1 stage)
                  (λ u. All (IsDone m f root u.1) stages) _ _ (captures m f h root stages t)
                  ((captures-Lasts m f h root smoke (λ w. IsDone m f root w stage)
                      (persistent.markers stage) stages (λ x v. scheduled x (inr v))).at
                    t d)
                  (captures-AllDone stages t d.0 (λ x v. scheduled x (inr v))))
                (λ _ _ k. (k.0.1, k.1)) (λ _ _ _. tt))
            (λ _ _ _. tt))

    module _ (stages : List Str)
        (scheduled : (stage : Str) → Within stage stages → IsScheduled h stage) where
      -- What holds after `captures` because it held before.
      abbrev Persists : (W → Type 0) → Type 0
      Persists Q =
          (s : CampaignState × W)
          → s.0.smoke ≡ smoke
          → Q s.1
          → After (λ _ t. Q t.1) (λ _ _. Unit) (captures m f h root stages s)

      stage-Persists : (stage : Str) → Persists (λ w. IsDone m f root w stage)
      stage-Persists stage s kind d =
          After-map (λ _ t. (t.0.smoke ≡ smoke) × IsDone m f root t.1 stage) _
            (λ _ t. (t.0.smoke ≡ smoke) × IsDone m f root t.1 stage) _ _
            ((captures-Lasts m f h root smoke (λ w. IsDone m f root w stage)
                (persistent.markers stage) stages scheduled).at
              s (kind, d))
            (λ _ _ d. d.1) (λ _ _ _. tt)

      both-Persists : (P Q : W → Type 0) → Persists P → Persists Q → Persists (λ w. P w × Q w)
      both-Persists P Q p q s kind k =
          After-and (λ t. P t.1) (λ t. Q t.1) _ _ (captures m f h root stages s) (p s kind k.0)
            (q s kind k.1)

      none-Persists : Persists (λ _. Unit)
      none-Persists s kind k = After-any _ _ (captures m f h root stages s) (λ _ _. tt) (λ _ _. tt)

      stages-Persists : (done : List Str) → Persists (λ w. All (IsDone m f root w) done)
      stages-Persists [] = none-Persists
      stages-Persists (stage ∷ done) =
          both-Persists (λ w. IsDone m f root w stage) (λ w. All (IsDone m f root w) done)
            (stage-Persists stage) (stages-Persists done)

      pub phases-Persists : (done : List Phase) → Persists (λ w. AllDone m f root w done)
      phases-Persists [] = none-Persists
      phases-Persists (p ∷ done) =
          both-Persists (λ w. All (IsDone m f root w) p.stages) (λ w. AllDone m f root w done)
            (stages-Persists p.stages) (phases-Persists done)

      pub smoke-Persists :
          (s : CampaignState × W)
          → s.0.smoke ≡ smoke
          → campaign_smoke m f h root s.1 ≡ ok smoke
          → After
              (λ _ t. Carried h root smoke (λ w. campaign_smoke m f h root w ≡ ok smoke) t)
              (λ _ _. Unit)
              (captures m f h root stages s)
      smoke-Persists s kind said =
          After-map (λ _ t. Carried h root smoke (λ w. campaign_smoke m f h root w ≡ ok smoke) t) _
            (λ _ t. Carried h root smoke (λ w. campaign_smoke m f h root w ≡ ok smoke) t) _ _
            ((captures-Lasts m f h root smoke (λ w. campaign_smoke m f h root w ≡ ok smoke)
                persistent.plan stages scheduled).at
              s (kind, said))
            (λ _ _ d. d) (λ _ _ _. tt)

    -- After the open stages of a phase are captured, all of its stages are done.
    pub Pending-closes :
        (s : CampaignState × W) (here pending captured : List Str)
        → s.0.smoke ≡ smoke
        → Pending m f root s.1 here pending
        → ((stage : Str) → Within stage captured → IsScheduled h stage)
        → After
            (λ _ t. All (IsDone m f root t.1) pending → All (IsDone m f root t.1) here)
            (λ _ _. Unit)
            (captures m f h root captured s)
    Pending-closes s _ _ captured kind no_stage scheduled =
        After-any _ _ (captures m f h root captured s) (λ _ _ _. tt) (λ _ _. tt)
    Pending-closes s _ _ captured kind (a_done stage here pending d p) scheduled =
        After-map
          (λ _ t.
            IsDone m f root t.1 stage
            × (All (IsDone m f root t.1) pending → All (IsDone m f root t.1) here))
          _ (λ _ _. Unit) _ _
          (After-and (λ t. IsDone m f root t.1 stage)
            (λ t. All (IsDone m f root t.1) pending → All (IsDone m f root t.1) here) _ _
            (captures m f h root captured s) (stage-Persists captured scheduled stage s kind d)
            (Pending-closes s here pending captured kind p scheduled))
          (λ _ _ k all. (k.0, k.1 all)) (λ _ _ _. tt)
    Pending-closes s _ _ captured kind (an_open stage here pending o p) scheduled =
        After-map (λ _ t. All (IsDone m f root t.1) pending → All (IsDone m f root t.1) here) _
          (λ _ _. Unit) _ _ (Pending-closes s here pending captured kind p scheduled)
          (λ _ _ k all. (all.0, k all.1)) (λ _ _ _. tt)
