-- ===== src/Pipeline/Owning.antt =====
-- The guards of `control`: the installed service is the campaign's own and idle, and no stage is interrupted.
use rs_camera.Prelude.{
  Bool, true, false, not, ◌&&◌, ◌≡◌, refl, sym, subst, ap, ◌∙◌, Option, some, [], ◌∷◌, any,
  Bool-cases, inl, inr,
}
use rs_camera.Prelude.Exec.{Result, ok, err, raise_if, ok-injective}
use rs_camera.Prelude.Errors.{Error}
use rs_camera.Prelude.Post.{Returns, Returns-at, Returns-calling, Returns-lift, Returns-unless}
use rs_camera.Text.{Str, codes, str_eq, str_eq_iff, strip}
use rs_camera.Text.Words.{ℤ, starts_with, is_zero}
use rs_camera.Machine.{Machine, FilePath}
use rs_camera.Pipeline.Plan.{Records, complete}
use rs_camera.Pipeline.Host.{Host}
use rs_camera.Pipeline.Service.{
  Controller, service, unit_path, signature, service_text, same_text, unit_matches, check_foreign,
  check_unit, check_unit_available,
}
use rs_camera.Pipeline.Control.{is_ours, interrupted}

module _ {S : Type 0} where
  Returns-raise_if :
      (Q : Unit {0} → S → Type 0) (b : Bool) (e : Error) (s : S)
      → Q tt s
      → Returns Q (raise_if b e s)
  Returns-raise_if Q true e s q = tt
  Returns-raise_if Q false e s q = q

pub from_not : (b : Bool) → not b ≡ false → b ≡ true
from_not true e = refl
from_not false e = cc e

module _ {W : Type 0} (m : Machine W) (x : Controller W) (root : FilePath) where
  -- The unit that is installed is the one for this output.
  pub record IsOwn (v : W) : Type 0 where
    pub text : Str
    pub installed : m.read_text unit_path v ≡ ok text
    pub own : service_text m x root ≡ ok text

  -- `systemctl show` named none of the states in which the service runs, and the service was the campaign's
  -- own behind that.
  pub record IsIdle (v t : W) : Type 0 where
    pub text : Str
    pub unit_read : m.read_text unit_path v ≡ ok text
    pub managed : starts_with signature text ≡ true
    pub activity : Str
    pub middle : W
    pub asked :
        x.check_output
          (codes "systemctl"
            ∷ codes "show"
            ∷ codes "--property=ActiveState"
            ∷ codes "--value"
            ∷ service
            ∷ [])
          v
        ≡ (ok activity, middle)
    pub inactive :
        any
          (str_eq (strip activity))
          (codes "active" ∷ codes "activating" ∷ codes "deactivating" ∷ codes "reloading" ∷ [])
        ≡ false
    pub own : IsOwn middle
    pub code : ℤ
    pub enabled :
        x.returncode
          (codes "systemctl" ∷ codes "is-enabled" ∷ codes "--quiet" ∷ service ∷ [])
          middle
        ≡ (ok code, t)

  same_text-IsOwn :
      (v : W) (a b : Result Error Str)
      → m.read_text unit_path v ≡ a
      → service_text m x root ≡ b
      → same_text m x root a b ≡ ok true
      → IsOwn v
  same_text-IsOwn v (ok a) (ok b) installed own e = record {
    text = a;
    installed = installed;
    own = own ∙ ap ok (sym ((str_eq_iff a b).0 (ok-injective e)));
  }
  same_text-IsOwn v (ok a) (err f) installed own e = cc e
  same_text-IsOwn v (err f) b installed own e = cc e

  unit_matches-IsOwn : (v : W) → unit_matches m x root v ≡ ok true → IsOwn v
  unfolding unit_matches
  unit_matches-IsOwn v e =
      same_text-IsOwn v (m.read_text unit_path v) (service_text m x root) refl refl e

  check_foreign-IsOwn : (v : W) → Returns (λ _ t. (t ≡ v) × IsOwn v) (check_foreign m x root true v)
  unfolding check_foreign
  check_foreign-IsOwn v =
      Returns-lift (λ _ t. (t ≡ v) × IsOwn v) (unit_matches m x root v) _ v
        (λ same known. elim (Bool-cases same) [
          | inl matches ↦
              Returns-raise_if (λ _ t. (t ≡ v) × IsOwn v) (not same) _ v
                (refl, unit_matches-IsOwn v (known ∙ ap ok matches))
          | inr foreign ↦ rw foreign tt
        ])

  check_unit-IsIdle : (v : W) → Returns (λ _ t. IsIdle v t) (check_unit m x root true v)
  unfolding check_unit
  check_unit-IsIdle v = Returns-lift Q (m.read_text unit_path v) _ v (λ text unit_read.
      Returns-unless Q (not (starts_with signature text)) _ _ v (λ managed.
        Returns-calling Q (x.check_output _) _ v (λ activity middle asked.
          Returns-unless Q _ _ _ middle (λ inactive.
            Returns-calling Q (check_foreign m x root true) _ middle (λ _ later passed.
              let (same, own) =
                Returns-at (λ _ t. (t ≡ middle) × IsOwn middle) _ passed
                  (check_foreign-IsOwn middle) in
              Returns-calling Q (x.returncode _) _ later (λ code t enabled.
                Returns-raise_if Q (is_zero code && not true) _ t (record {
                  text = text;
                  unit_read = unit_read;
                  managed = from_not (starts_with signature text) managed;
                  activity = activity;
                  middle = middle;
                  asked = asked;
                  inactive = inactive;
                  own = own;
                  code = code;
                  enabled =
                      subst
                        (λ u.
                          x.returncode
                            (codes "systemctl"
                              ∷ codes "is-enabled"
                              ∷ codes "--quiet"
                              ∷ service
                              ∷ [])
                            u
                          ≡ (ok code, t))
                        same enabled;
                })))))))
    where
      Q : Unit {0} → W → Type 0
      Q _ t = IsIdle v t

  -- Where the unit exists, `check_unit_available` passes only an idle one.
  pub available-IsIdle :
      (v : W)
      → m.exists unit_path v ≡ true
      → Returns (λ _ t. IsIdle v t) (check_unit_available m x root true v)
  unfolding check_unit_available
  available-IsIdle v there = rw there (check_unit-IsIdle v)

module _ {W Config Protocol : Type 0} (m : Machine W) (f : Records W) (h : Host W Config Protocol)
    (x : Controller W) (root : FilePath) where
  pub is_ours-IsOwn :
      (v : W) → is_ours m f h x root v ≡ ok true → (m.exists unit_path v ≡ true) × IsOwn m x root v
  unfolding is_ours
  is_ours-IsOwn v e = elim (Bool-cases (m.exists unit_path v)) [
    | inl there ↦ (there, unit_matches-IsOwn m x root v (rw there at e))
    | inr missing ↦ cc (rw missing at e)
  ]

  -- The stage that was active, if one was, has a valid marker.
  abbrev pub Uninterrupted : Option Str → W → Type 0
  Uninterrupted active v =
      (stage : Str)
      → active ≡ some stage
      → str_eq stage [] ≡ false
      → complete m f root stage v ≡ ok true

  done-ok :
      (r : Result Error Bool)
      → (elim r as (λ _. Result Error Bool) [ err e ↦ err e | ok done ↦ ok (not done) ]) ≡ ok false
      → r ≡ ok true
  done-ok (ok true) e = refl
  done-ok (ok false) e = cc e
  done-ok (err f) e = cc e

  pub interrupted-Uninterrupted :
      (active : Option Str) (v : W)
      → interrupted m f h x root active v ≡ ok false
      → Uninterrupted active v
  unfolding interrupted
  interrupted-Uninterrupted active v e stage named filled =
      done-ok (complete m f root stage v) (rw (named, filled) at e)
