-- ===== src/Pipeline/Service.antt =====
-- The installed systemd service: `systemd_path`, `service_text` and `check_unit_available`.
use rs_camera.Prelude.{
  ℕ, Bool, true, false, not, ◌&&◌, ◌||◌, List, [], ◌∷◌, ◌++◌, all, any, leb, ◌==◌, is_empty,
  if◌then◌else◌,
}
use rs_camera.Prelude.Exec.{Result, ok, err, Exec, pure, gets, raise_if, when, ◌>>=◌, ◌>>◌}
use rs_camera.Prelude.Errors.{Error, value_error}
use rs_camera.Text.{Str, codes, str_eq, strip, is_digit_char}
use rs_camera.Text.Words.{ℤ, is_zero, starts_with}
use rs_camera.Machine.{Machine, FilePath, path_text}

abbrev pub service : Str
service = codes "rs-camera-reproduction.service"

abbrev pub unit_path : FilePath
unit_path = codes "etc" ∷ codes "systemd" ∷ codes "system" ∷ service ∷ []

abbrev pub signature : Str
signature = codes "# Managed by rs-camera reproduction/pipeline.py"

-- What the controller asks of the host beside the files.
pub record Controller (W : Type 0) : Type 0 where
  -- `sys.executable`, pipeline.py and the repository, and the owner of the latter.
  pub executable : Str
  pub script : FilePath
  pub repo : FilePath
  pub uid : Str
  pub gid : Str
  pub argv : List Str
  -- Whether `level` in pipeline.json is `full`.
  pub is_full : W → Result Error Bool
  -- `subprocess.check_output(command)`, and the return code of `subprocess.run(command)`.
  pub check_output : List Str → Exec Error W Str
  pub returncode : List Str → Exec Error W ℤ

-- `[A-Za-z0-9_./-]`
abbrev pub is_plain : ℕ → Bool
is_plain c =
    (leb b'A' c && leb c b'Z')
    || ((leb b'a' c && leb c b'z')
        || (is_digit_char c || (c == b'_' || (c == b'.' || (c == b'/' || c == b'-')))))

abbrev pub is_plain_path : Str → Bool
is_plain_path [] = false
is_plain_path (c ∷ s) = c == b'/' && (not (is_empty s) && all is_plain s)

unfoldable pub systemd_path : Str → Result Error Str
systemd_path value =
    if not (is_plain_path value)
    then err (
        value_error (
          codes
            "Full-mode repository/output/Python paths must be absolute without spaces or shell metacharacters"))
    else ok value

abbrev pub with_path : {A : Type 0} → Result Error Str → (Str → Result Error A) → Result Error A
with_path (ok path) f = f path
with_path (err e) f = err e

abbrev pub line : Str → Str → Str
line text rest = text ++ 10 ∷ rest

module _ {W : Type 0} (m : Machine W) (x : Controller W) (root : FilePath) where
  abbrev text_of : Str → Str → Str → Str → Str
  text_of executable script destination repo = line signature (
      line (codes "[Unit]") (
        line (codes "Description=rs-camera complete paper reproduction") (
          line (codes "After=network-online.target") (
            line (codes "Wants=network-online.target") (
              line (codes "[Service]") (
                line (codes "Type=oneshot") (
                  line (codes "WorkingDirectory=" ++ repo) (
                    line (codes "Environment=SUDO_UID=" ++ (x.uid ++ (codes " SUDO_GID=" ++ x.gid)))
                      (line (codes "ExecStartPre=/usr/bin/udevadm settle --timeout=30") (
                        line
                          (codes "ExecStart="
                            ++ (executable
                                ++ (codes " "
                                    ++ (script ++ (codes " _worker --output " ++ destination)))))
                          (line (codes "TimeoutStartSec=infinity") (
                            line (codes "TimeoutStopSec=120") (
                              line (codes "KillMode=control-group") (
                                line (codes "Restart=no") (
                                  line (codes "UMask=0022") (
                                    line (codes "[Install]")
                                      (line (codes "WantedBy=multi-user.target") [])))))))))))))))))

  unfoldable pub service_text : Result Error Str
  unfolding systemd_path
  service_text = with_path (systemd_path x.executable) (λ executable.
      with_path (systemd_path (path_text x.script)) (λ script.
        with_path (systemd_path (path_text root)) (λ destination.
          with_path (systemd_path (path_text x.repo))
            (λ repo. ok (text_of executable script destination repo)))))

  abbrev pub same_text : Result Error Str → Result Error Str → Result Error Bool
  same_text (ok a) (ok b) = ok (str_eq a b)
  same_text (ok a) (err e) = err e
  same_text (err e) r = err e

  -- `UNIT.read_text() == service_text(root)`
  unfoldable pub unit_matches : W → Result Error Bool
  unit_matches w = same_text (m.read_text unit_path w) service_text

  abbrev is_active : Str → Bool
  is_active state =
      any (str_eq (strip state))
        (codes "active" ∷ codes "activating" ∷ codes "deactivating" ∷ codes "reloading" ∷ [])

  unfoldable pub check_foreign : Bool → Exec Error W (Unit {0})
  unfolding unit_matches
  check_foreign false = pure tt
  check_foreign true = (λ w. (unit_matches w, w)) >>= λ same.
      raise_if (not same)
        (value_error (codes "Installed service belongs to a different output directory"))

  -- `check_unit_available`, where the unit exists.
  unfoldable pub check_unit : Bool → Exec Error W (Unit {0})
  unfolding check_foreign
  check_unit resuming = do
    text ← (λ w. (m.read_text unit_path w, w))
    raise_if (not (starts_with signature text))
        (value_error (codes "Refusing to replace an unrelated service: " ++ path_text unit_path))
    state ← x.check_output (
        codes "systemctl"
        ∷ codes "show"
        ∷ codes "--property=ActiveState"
        ∷ codes "--value"
        ∷ service
        ∷ [])
    raise_if (is_active state)
        (value_error (codes "A full reproduction is already running; inspect status first"))
    check_foreign resuming
    code ← x.returncode (codes "systemctl" ∷ codes "is-enabled" ∷ codes "--quiet" ∷ service ∷ [])
    raise_if (is_zero code && not resuming)
        (value_error (codes "An unfinished service is enabled; use status/resume/stop"))

  unfoldable pub check_unit_available : Bool → Exec Error W (Unit {0})
  unfolding check_unit
  check_unit_available resuming = do
    there ← gets (m.exists unit_path)
    when there (check_unit resuming)
