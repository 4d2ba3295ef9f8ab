-- ===== src/Pipeline/Checks.antt =====
-- What the worker checks and restores around the campaign: the board, the frozen sources, the wired
-- connection, the cameras, and the boot files.
use rs_camera.Prelude.{
  ℕ, zero, suc, ◌+◌, Bool, true, false, not, List, [], ◌∷◌, ◌++◌, leb, if◌then◌else◌,
}
use rs_camera.Prelude.Exec.{
  Result, ok, err, Exec, pure, raise, gets, modify, raise_if, when, ◌>>=◌, ◌>>◌,
}
use rs_camera.Prelude.Errors.{Error, value_error}
use rs_camera.Text.{Str, codes, str_eq, strip}
use rs_camera.Text.Words.{contains}
use rs_camera.Machine.{Machine, FilePath, ◌/◌, path_text}
use rs_camera.Pipeline.Plan.{Records}
use rs_camera.Pipeline.Host.{Host, wlan, discover, perform}

abbrev pub operstate : FilePath
operstate = codes "sys" ∷ codes "class" ∷ codes "net" ∷ codes "eth0" ∷ codes "operstate" ∷ []

abbrev board_model : FilePath
board_model = codes "proc" ∷ codes "device-tree" ∷ codes "model" ∷ []

abbrev pub not_wired : Error
not_wired =
    value_error (codes "Full mode requires an active eth0 connection before disabling Wi-Fi")

module _ {W Config Protocol : Type 0} (m : Machine W) (f : Records W) (h : Host W Config Protocol)
    (root : FilePath) where
  abbrev wrong_board : Error
  wrong_board =
      value_error
        (codes "Full capture requires a configured Raspberry Pi 5; use raw or plan on a laptop")

  unfoldable pub require_pi : Exec Error W (Unit {0})
  require_pi = do
    found ← gets (m.is_file board_model)
    raise_if (not found) wrong_board
    text ← (λ w. (m.read_text board_model w, w))
    raise_if (not (contains (codes "Raspberry Pi 5") text)) wrong_board

  -- The loop of `verify_sources`.
  unfoldable pub check_sources : List (FilePath × Str) → Exec Error W (Unit {0})
  check_sources [] = pure tt
  check_sources ((relative, expected) ∷ rest) = do
    sum ← (λ w. (f.digest (h.repo ++ relative) w, w))
    raise_if (not (str_eq sum expected)) (
        value_error (
          codes "Frozen source changed: "
          ++ (path_text relative ++ codes "; preserve this campaign and use a new output")))
    check_sources rest

  unfoldable pub verify_sources : Exec Error W (Unit {0})
  unfolding check_sources
  verify_sources = (λ w. (h.load_manifest w, w)) >>= check_sources

  -- `eth.exists() and eth.read_text().strip() == 'up'`
  unfoldable pub is_wired : W → Result Error Bool
  is_wired w = if not (m.exists operstate w) then ok false else elim (m.read_text operstate w) [
    | err e ↦ err e
    | ok text ↦ ok (str_eq (strip text) (codes "up"))
  ]

  -- The `while` loop: one poll, and at most `polls` further ones, a second apart, up to `deadline`.
  unfoldable pub wait_wired : ℕ → ℕ → Exec Error W (Unit {0})
  wait_wired deadline zero = raise not_wired
  wait_wired deadline (suc polls) = do
    wired ← (λ w. (is_wired w, w))
    now ← gets h.monotonic
    let again = modify (h.sleep 1) >> wait_wired deadline polls
    if wired then pure tt else if leb deadline now then raise not_wired else again

  unfoldable pub check_route : List Str → Exec Error W (Unit {0})
  check_route [] = pure tt
  check_route (peer ∷ rest) = do
    route ← h.route peer
    raise_if (not (contains (codes "dev eth0") route))
        (value_error (codes "Reconnect SSH through Ethernet before starting full mode"))

  -- `check_wired`; a poll takes a second, so `wait_seconds + 2` of them reach the deadline.
  unfoldable pub check_wired : ℕ → Exec Error W (Unit {0})
  unfolding wait_wired check_route
  check_wired wait_seconds = do
    start ← gets h.monotonic
    wait_wired (start + wait_seconds) (wait_seconds + 2)
    check_route h.peer

  unfoldable pub write_boot_files : List (FilePath × Str) → Exec Error W (Unit {0})
  write_boot_files [] = pure tt
  write_boot_files ((path, text) ∷ rest) = h.write_text path text >> write_boot_files rest

  unfoldable pub restore_system : Exec Error W (Unit {0})
  unfolding write_boot_files
  restore_system = do
    before ← (λ w. (h.load_before w, w))
    write_boot_files before.boot_files
    when before.wifi_up (perform h root (wlan true))
    h.sync

  -- The loop over `previous['entrypoints']`.
  unfoldable pub check_entrypoints : List (Str × Str) → Exec Error W (Unit {0})
  check_entrypoints [] = pure tt
  check_entrypoints ((name, digest) ∷ rest) = do
    sum ← (λ w. (f.digest (root / codes "entrypoints" / name) w, w))
    raise_if (not (str_eq sum digest))
        (value_error (codes "Prepared adapter was modified: " ++ name))
    check_entrypoints rest

  unfoldable pub refresh_boot_config : Str → Exec Error W (Unit {0})
  unfolding check_entrypoints
  refresh_boot_config boot_id = do
    let folder = root / codes "boot-inventories" / boot_id
    h.make_dir folder
    h.copy (root / codes "camera-config.json") (folder / codes "config.json")
    perform h root (discover folder)
    old ← (λ w. (h.load_config (root / codes "camera-config.json") w, w))
    new ← (λ w. (h.load_config (folder / codes "config.json") w, w))
    raise_if (not (h.same_cameras old new)) (
        value_error
          (codes "Camera identities/roles changed across boots; refusing to combine experiments"))
    previous ← (λ w. (h.load_prepared w, w))
    check_entrypoints previous.entrypoints
    when (not (h.same_config old new)) (do
      h.save_prepared (folder / codes "prepared-before-irq-refresh.json") previous
      h.prepare new previous
      h.copy (folder / codes "config.json") (root / codes "camera-config.json"))
    current ← (λ w. (h.load_prepared w, w))
    h.save_prepared (folder / codes "prepared.json") current
