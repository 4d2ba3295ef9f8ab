-- ===== src/Pipeline/Next.antt =====
-- Which phase `next_phase` picks.
use rs_camera.Prelude.{
  Bool, true, false, ◌≡◌, refl, Option, none, some, List, [], ◌∷◌, ◌++◌, All, ap, subst,
  if◌then◌else◌,
}
use rs_camera.Prelude.Exec.{Result, ok, err, ok-injective}
use rs_camera.Prelude.Errors.{Error}
use rs_camera.Text.{Str}
use rs_camera.Machine.{Machine, FilePath}
use rs_camera.Pipeline.Plan.{
  Phase, Records, complete, pending_stages, first_pending, add_pending, pick_phase,
}

module _ {W : Type 0} (m : Machine W) (f : Records W) (root : FilePath) (w : W) where
  abbrev pub IsDone : Str → Type 0
  IsDone stage = complete m f root stage w ≡ ok true

  abbrev pub IsOpen : Str → Type 0
  IsOpen stage = complete m f root stage w ≡ ok false

  -- Of the first stages, in their order, those that are open are the second ones.
  pub data Pending : List Str → List Str → Type 0 where
    no_stage : Pending [] []
    a_done :
        (stage : Str) (stages rest : List Str)
        → IsDone stage
        → Pending stages rest
        → Pending (stage ∷ stages) rest
    an_open :
        (stage : Str) (stages rest : List Str)
        → IsOpen stage
        → Pending stages rest
        → Pending (stage ∷ stages) (stage ∷ rest)

  abbrev pub AllDone : List Phase → Type 0
  AllDone = All (λ p. All IsDone p.stages)

  -- `p` is the first phase with an open stage, cut down to those.
  pub record IsNext (ps : List Phase) (p : Phase) : Type 0 where
    pub earlier : List Phase
    pub here : Phase
    pub later : List Phase
    pub cut : ps ≡ earlier ++ here ∷ later
    pub finished : AllDone earlier
    pub variant : p.variant ≡ here.variant
    pub threaded : p.threaded ≡ here.threaded
    pub first : Str
    pub rest : List Str
    pub some_open : p.stages ≡ first ∷ rest
    pub pending : Pending here.stages p.stages

  -- What `first_pending` promises: nothing is left, or the first phase where something is.
  abbrev pub Next : List Phase → Option Phase → Type 0
  Next ps none = AllDone ps
  Next ps (some p) = IsNext ps p

  Pending-step :
      (done : Bool) (stage : Str) (stages rest : List Str)
      → complete m f root stage w ≡ ok done
      → Pending stages rest
      → Pending (stage ∷ stages) (if done then rest else stage ∷ rest)
  Pending-step true stage stages rest e p = a_done stage stages rest e p
  Pending-step false stage stages rest e p = an_open stage stages rest e p

  pending_stages-Pending :
      (stages pending : List Str)
      → pending_stages m f root stages w ≡ ok pending
      → Pending stages pending
  unfolding pending_stages
  pending_stages-Pending [] pending h = subst (Pending []) (ok-injective h) no_stage
  pending_stages-Pending (stage ∷ stages) pending h =
      go (complete m f root stage w) (pending_stages m f root stages w) refl refl h
        (pending_stages-Pending stages)
    where
      go :
          (checked : Result Error Bool) (found : Result Error (List Str))
          → complete m f root stage w ≡ checked
          → pending_stages m f root stages w ≡ found
          → add_pending stage checked found ≡ ok pending
          → ((rest : List Str) → pending_stages m f root stages w ≡ ok rest → Pending stages rest)
          → Pending (stage ∷ stages) pending
      go (err e) found c q k later = cc k
      go (ok done) (err e) c q k later = cc k
      go (ok done) (ok rest) c q k later =
          subst (Pending (stage ∷ stages)) (ok-injective k)
            (Pending-step done stage stages rest c (later rest q))

  Pending-none :
      (stages pending : List Str) → pending ≡ [] → Pending stages pending → All IsDone stages
  Pending-none _ _ e no_stage = tt
  Pending-none _ _ e (a_done stage stages rest d p) = (d, Pending-none stages rest e p)
  Pending-none _ _ e (an_open stage stages rest o p) = cc e

  later_phase :
      (p : Phase) (ps : List Phase) (next : Option Phase)
      → All IsDone p.stages
      → Next ps next
      → Next (p ∷ ps) next
  later_phase p ps none done next = (done, next)
  later_phase p ps (some q) done n = record {
    earlier = p ∷ n.earlier;
    here = n.here;
    later = n.later;
    cut = ap (λ qs. p ∷ qs) n.cut;
    finished = (done, n.finished);
    variant = n.variant;
    threaded = n.threaded;
    first = n.first;
    rest = n.rest;
    some_open = n.some_open;
    pending = n.pending;
  }

  -- `next_phase` returns nothing only if every stage of every phase is done; otherwise it returns
  -- the first phase with an open stage, with exactly the open stages of it, in their order.
  pub first_pending-Next :
      (ps : List Phase) (next : Option Phase) → first_pending m f root ps w ≡ ok next → Next ps next
  unfolding first_pending
  first_pending-Next [] next h = subst (Next []) (ok-injective h) tt
  first_pending-Next (p ∷ ps) next h =
      go (pending_stages m f root p.stages w) refl h (first_pending-Next ps)
    where
      go :
          (found : Result Error (List Str))
          → pending_stages m f root p.stages w ≡ found
          → pick_phase p found (first_pending m f root ps w) ≡ ok next
          → ((later : Option Phase) → first_pending m f root ps w ≡ ok later → Next ps later)
          → Next (p ∷ ps) next
      go (err e) q k rest = cc k
      go (ok []) q k rest =
          later_phase p ps next
            (Pending-none p.stages [] refl (pending_stages-Pending p.stages [] q)) (rest next k)
      go (ok (stage ∷ stages)) q k _ = subst (Next (p ∷ ps)) (ok-injective k) (record {
        earlier = [];
        here = p;
        later = ps;
        cut = refl;
        finished = tt;
        variant = refl;
        threaded = refl;
        first = stage;
        rest = stages;
        some_open = refl;
        pending = pending_stages-Pending p.stages (stage ∷ stages) q;
      })
