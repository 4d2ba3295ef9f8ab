-- ===== src/Reproduce/Cleared.antt =====
-- What is known when the script of a stage starts.
use rs_camera.Prelude.{
  Bool, true, false, not, ◌||◌, ◌≡◌, refl, Option, none, some, List, [], ◌∷◌, ◌++◌, All, ap, arith,
}
use rs_camera.Prelude.Exec.{Result, ok, err, ok-injective}
use rs_camera.Prelude.Errors.{Error}
use rs_camera.Text.{Str, codes, str_eq, str_eq_iff}
use rs_camera.Machine.{Machine, FilePath, ◌/◌, path_text}
use rs_camera.Pipeline.Plan.{Records, marker_path, script_path}
use rs_camera.Reproduce.Stages.{Mode}
use rs_camera.Reproduce.Check.{Platform}
use rs_camera.Reproduce.Preflight.{check}
use rs_camera.Reproduce.Run.{
  Manifest, Runner, lookup, lookup_or, both_ok, unless_differs, with_manifest, check_adapters,
  check_script, examine_manifest, examine,
}

module _ {W Config : Type 0} (m : Machine W) (f : Records W) (p : Platform W) (h : Runner W Config)
    (repo root : FilePath) where
  -- In the world `s` the configuration was read, and the check left the world `t` without a complaint. In `t`
  -- the adapters were prepared for this configuration and repository, no source of them and not the script
  -- has changed since, and the stage had no marker.
  pub record IsCleared (stage : Str) (mode : Mode) (config : Config) (s t : W) : Type 0 where
    pub config_read : h.load_config s ≡ ok config
    pub checked : check m p repo root stage mode (h.cameras config) s ≡ (ok [], t)
    pub manifest : Manifest Config
    pub manifest_read : h.load_manifest t ≡ ok manifest
    pub same_config : h.same_config manifest.config config ≡ true
    pub same_repo : manifest.repo ≡ path_text repo
    pub same_sources :
        All (λ (item : Str × Str). f.digest (repo / item.0) t ≡ ok item.1) manifest.adapter_sources
    pub script_sum : Str
    pub prepared_script : lookup (stage ++ codes ".sh") manifest.entrypoints ≡ some script_sum
    pub same_script : f.digest (script_path m f root stage) t ≡ ok script_sum
    pub unmarked : m.exists (marker_path m f root stage) t ≡ false

  unless_differs-ok :
      (e : Error) (r rest : Result Error Bool) (b : Bool)
      → unless_differs e r rest ≡ ok b
      → (r ≡ ok true) × (rest ≡ ok b)
  unless_differs-ok e (ok true) rest b h = (refl, h)
  unless_differs-ok e (ok false) rest b h = cc h
  unless_differs-ok e (err x) rest b h = cc h

  sum-same :
      (r : Result Error Str) (sha : Str)
      → with_manifest r (λ sum. ok (str_eq sum sha)) ≡ ok true
      → r ≡ ok sha
  sum-same (ok sum) sha e = ap ok ((str_eq_iff sum sha).0 (ok-injective e))
  sum-same (err x) sha e = cc e

  check_adapters-ok :
      (items : List (Str × Str)) (t : W) (rest : Result Error Bool) (b : Bool)
      → check_adapters m f p h repo root items t rest ≡ ok b
      → All (λ (item : Str × Str). f.digest (repo / item.0) t ≡ ok item.1) items × (rest ≡ ok b)
  unfolding check_adapters
  check_adapters-ok [] t rest b e = (tt, e)
  check_adapters-ok ((relative, sha) ∷ items) t rest b e =
      let (same, more) =
        unless_differs-ok _ _ (check_adapters m f p h repo root items t rest) b e in
      let (others, done) = check_adapters-ok items t rest b more in
      ((sum-same (f.digest (repo / relative) t) sha same, others), done)

  script-same :
      (r : Result Error Str) (found : Option Str) (name : Str)
      → both_ok (λ sum expected. str_eq sum expected) r (lookup_or name found) ≡ ok true
      → (sum : Str) × (found ≡ some sum) × (r ≡ ok sum)
  script-same (ok sum) (some expected) name e =
      (expected, refl, ap ok ((str_eq_iff sum expected).0 (ok-injective e)))
  script-same (ok sum) none name e = cc e
  script-same (err x) found name e = cc e

  settled : (b c : Bool) → not (not b || not c) ≡ true → (b ≡ true) × (c ≡ true)
  settled b c e = ground arith

  with_manifest-ok :
      {A B : Type 0} (r : Result Error A) (k : A → Result Error B) (b : B)
      → with_manifest r k ≡ ok b
      → (a : A) × (r ≡ ok a) × (k a ≡ ok b)
  with_manifest-ok (ok a) k b e = (a, refl, e)
  with_manifest-ok (err x) k b e = cc e

  pub cleared :
      (stage : Str) (mode : Mode) (config : Config) (s t : W)
      → h.load_config s ≡ ok config
      → check m p repo root stage mode (h.cameras config) s ≡ (ok [], t)
      → examine m f p h repo root stage config t ≡ ok false
      → IsCleared stage mode config s t
  unfolding examine examine_manifest check_script
  cleared stage mode config s t read checked e =
      let (manifest, manifest_read, examined) =
        with_manifest-ok (h.load_manifest t) (examine_manifest m f p h repo root stage config t)
          false e in
      let (same, more) = unless_differs-ok _ _ _ false examined in
      let (sources, rest) = check_adapters-ok manifest.adapter_sources t _ false more in
      let (sum, last) = unless_differs-ok _ _ _ false rest in
      let (script_sum, found, digest) =
        script-same _ (lookup (stage ++ codes ".sh") manifest.entrypoints) _ sum in
      let (config_same, repo_same) =
        settled _ (str_eq manifest.repo (path_text repo)) (ok-injective same) in
      record {
        config_read = read;
        checked = checked;
        manifest = manifest;
        manifest_read = manifest_read;
        same_config = config_same;
        same_repo = (str_eq_iff manifest.repo (path_text repo)).0 repo_same;
        same_sources = sources;
        script_sum = script_sum;
        prepared_script = found;
        same_script = digest;
        unmarked = ok-injective last;
      }
