-- ===== src/Pipeline/Lasting.antt =====
-- What lasts while stages are captured: a property of the files, and the kind of the campaign.
use rs_camera.Prelude.{Bool, not, ◌≡◌, refl, inl, inr, List, [], ◌∷◌, ◌++◌, some, none, ◌∙◌}
use rs_camera.Prelude.Exec.{Result, ok, err, Exec, ◌>>=◌, ◌>>◌, raise_if}
use rs_camera.Prelude.Objects.{on_world, change}
use rs_camera.Prelude.After.{After}
use rs_camera.Prelude.Keeping.{Keeps, Keeps-pure, Keeps-raise_if, Keeps-reads, Keeps-bind}
use rs_camera.Prelude.Errors.{Error, value_error}
use rs_camera.Text.{Str, codes}
use rs_camera.Machine.{Machine, FilePath, ◌/◌}
use rs_camera.Pipeline.Plan.{Records, complete}
use rs_camera.Pipeline.Host.{Host, CampaignState, Prepared, check_stage, run_stage, perform}
use rs_camera.Pipeline.Worker.{Method, do_call, save, check_complete, capture, captures}
use rs_camera.Pipeline.Permitted.{Within, IsScheduled}

module _ {W Config Protocol : Type 0} (h : Host W Config Protocol) (root : FilePath) (smoke : Bool)
    (I : W → Type 0) where
  -- Each thing that a capture does keeps `I`; a state is saved only with the kind that the campaign has.
  pub record Lasting : Type 0 where
    pub check : (stage : Str) → IsScheduled h stage → Keeps I (perform h root (check_stage stage))
    pub run : (stage : Str) → IsScheduled h stage → Keeps I (perform h root (run_stage stage))
    pub folder : Keeps I (h.make_dir (root / codes "environment"))
    pub prepared :
        (stage : Str) (prepared : Prepared Protocol)
        → Keeps I (
            h.save_prepared
              (root / codes "environment" / (stage ++ codes "-prepared.json"))
              prepared)
    pub saved : (o : CampaignState) → o.smoke ≡ smoke → Keeps I (h.save_state o)

  abbrev pub Carried : CampaignState × W → Type 0
  Carried s = (s.0.smoke ≡ smoke) × I s.1

  carried :
      {A : Type 0} (o : CampaignState) (r : Result Error A × W)
      → o.smoke ≡ smoke
      → After (λ _ t. I t) (λ _ t. I t) r
      → After (λ _ t. Carried t) (λ _ t. Carried t) (r.0, (o, r.1))
  carried o (ok a, w) e i = (e, i)
  carried o (err x, w) e i = (e, i)

  pub on_world-Carried :
      {A : Type 0} (action : Exec Error W A) → Keeps I action → Keeps Carried (on_world action)
  on_world-Carried action k = record { at = λ (o, w) (e, i). carried o (action w) e (k.at w i) }

  pub change-Carried :
      (update : CampaignState → CampaignState)
      → ((o : CampaignState) → (update o).smoke ≡ o.smoke)
      → Keeps {E = Error} Carried (change update)
  change-Carried update same = record { at = λ (o, w) (e, i). (same o ∙ e, i) }

module _ {W Config Protocol : Type 0} (m : Machine W) (f : Records W) (h : Host W Config Protocol)
    (root : FilePath) (smoke : Bool) (I : W → Type 0) (l : Lasting h root smoke I) where
  abbrev Lasts : {A : Type 0} → Method m f h root A → Type 0
  Lasts action = Keeps (Carried h root smoke I) action

  step :
      {A B : Type 0} (action : Method m f h root A) (k : A → Method m f h root B)
      → Lasts action
      → ((a : A) → Lasts (k a))
      → Lasts (action >>= k)
  step = Keeps-bind (Carried h root smoke I)

  pub save-Lasts : Lasts (save m f h root)
  save-Lasts = record {
    at = λ (o, w) (e, i). carried h root smoke I o (h.save_state o w) e ((l.saved o e).at w i);
  }

  on : {A : Type 0} (action : Exec Error W A) → Keeps I action → Lasts (on_world action)
  on = on_world-Carried h root smoke I

  capture-Lasts : (stage : Str) → IsScheduled h stage → Lasts (capture m f h root stage)
  unfolding capture
  capture-Lasts stage scheduled =
      step (do_call m f h root (check_stage stage)) _ (on _ (l.check stage scheduled)) (λ _.
        step (on_world (h.make_dir (root / codes "environment"))) _ (on _ l.folder) (λ _.
          step (on_world (λ w. (h.load_prepared w, w))) _ (on _ (Keeps-reads I _)) (λ prepared.
            step
              (on_world (
                h.save_prepared (root / codes "environment" / (stage ++ codes "-prepared.json"))
                  prepared))
              _ (on _ (l.prepared stage prepared))
              (λ _.
                step (change (λ o. record o { active_stage = some stage })) _
                  (change-Carried h root smoke I _ (λ _. refl))
                  (λ _. step (save m f h root) _ save-Lasts (λ _.
                    step (do_call m f h root (run_stage stage)) _ (on _ (l.run stage scheduled))
                      (λ _. captured)))))))
    where
      captured : Lasts (
          on_world (check_complete m f h root stage) >>= λ done.
          raise_if (not done) (value_error (codes "No valid completion marker for " ++ stage))
          >> (change (λ o. record o { active_stage = none }) >> save m f h root))
      captured =
          step (on_world (check_complete m f h root stage)) _
            (on _ (Keeps-reads I (complete m f root stage)))
            (λ done.
              step (raise_if (not done) _) _ (Keeps-raise_if (Carried h root smoke I) (not done) _)
                (λ _.
                  step (change (λ o. record o { active_stage = none })) _
                    (change-Carried h root smoke I _ (λ _. refl)) (λ _. save-Lasts)))

  pub captures-Lasts :
      (stages : List Str)
      → ((stage : Str) → Within stage stages → IsScheduled h stage)
      → Lasts (captures m f h root stages)
  unfolding captures
  captures-Lasts [] scheduled = Keeps-pure (Carried h root smoke I) tt
  captures-Lasts (stage ∷ stages) scheduled =
      step (capture m f h root stage) _ (capture-Lasts stage (scheduled stage (inl refl)))
        (λ _. captures-Lasts stages (λ s v. scheduled s (inr v)))
