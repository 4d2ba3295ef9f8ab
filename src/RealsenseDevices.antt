-- ===== src/RealsenseDevices.antt =====
-- tools/realsense_bench_common/realsense_devices.py: which USB devices are RealSense cameras.
use rs_camera.Prelude.{
  Bool, true, false, ◌&&◌, ◌||◌, Option, none, some, List, [], ◌∷◌, ◌++◌, if◌then◌else◌, map, ◌==◌,
}
use rs_camera.Prelude.Exec.{ok, err}
use rs_camera.Text.{Str, codes, strip, join, str_eq}
use rs_camera.Text.Words.{starts_with, contains, lower, sorted, or_else}
use rs_camera.Machine.{Machine, FilePath, ◌/◌}

-- `KNOWN_D400_PRODUCTS.get(product_id)`
unfoldable pub known_model : Str → Option Str
known_model product_id =
    if str_eq product_id (codes "0ad3")
    then some (codes "D415")
    else if str_eq product_id (codes "0b07")
    then some (codes "D435")
    else if str_eq product_id (codes "0b5c")
    then some (codes "D455")
    else none

abbrev pub is_known : Str → Bool
is_known product_id = elim (known_model product_id) [ none ↦ false | some model ↦ true ]

-- `usb_device.rsplit(".", 1)[0]`: the text before the last dot.
unfoldable pub before_last_dot : Str → Option Str
before_last_dot [] = none
before_last_dot (c ∷ s) = elim (before_last_dot s) [
  | some t ↦ some (c ∷ t)
  | none ↦ if c == b'.' then some [] else none
]

unfoldable pub upstream_hub_name : Str → Str
upstream_hub_name usb_device = elim (before_last_dot usb_device) [
  | none ↦ codes "direct:" ++ usb_device
  | some hub ↦ hub
]

-- The first path, from a folder up to the root, whose name starts with `prefix`.
unfoldable pub enclosing : Str → FilePath → Option FilePath
enclosing prefix [] = none
enclosing prefix (name ∷ names) = elim (enclosing prefix names) [
  | some below ↦ some (name ∷ below)
  | none ↦ if starts_with prefix name then some (name ∷ []) else none
]

pub record DeviceRecord : Type 0 where
  pub usb_device : Str
  pub sysfs_path : FilePath
  pub resolved_sysfs_path : FilePath
  pub vendor_id : Str
  pub product_id : Str
  pub manufacturer : Str
  pub product : Str
  pub model : Str
  pub serial : Str
  pub usb_descriptor_serial : Str
  pub speed_mbps : Str
  pub power_control : Str
  pub runtime_status : Str
  pub upstream_hub : Str
  pub xhci_controller : Str

-- `path.name`
unfoldable pub last_name : FilePath → Str
last_name [] = []
last_name (name ∷ []) = name
last_name (name ∷ next ∷ names) = last_name (next ∷ names)

module _ {W : Type 0} (m : Machine W) where
  unfoldable pub read_optional_text : FilePath → W → Str
  read_optional_text path w = elim (m.read_text path w) [ ok text ↦ strip text | err e ↦ [] ]

  unfoldable pub is_realsense_video_device : FilePath → W → Bool
  unfolding read_optional_text
  is_realsense_video_device path w =
      let product_id = lower (read_optional_text (path / codes "idProduct") w) in
      let identity = lower (
        join (codes " ") (
          read_optional_text (path / codes "manufacturer") w
          ∷ read_optional_text (path / codes "product") w
          ∷ [])) in
      str_eq (lower (read_optional_text (path / codes "idVendor") w)) (codes "8086")
      && (is_known product_id || contains (codes "realsense") identity)

  unfoldable pub model_from_device : FilePath → W → Str
  unfolding read_optional_text
  model_from_device path w =
      let product = read_optional_text (path / codes "product") w in
      elim (known_model (lower (read_optional_text (path / codes "idProduct") w))) [
        | some model ↦ model
        | none ↦
            if contains (codes "d455") (lower product)
            then codes "D455"
            else if contains (codes "d435") (lower product)
            then codes "D435"
            else if contains (codes "d415") (lower product)
            then codes "D415"
            else or_else product (codes "unknown")
      ]

  unfoldable pub device_record : FilePath → W → DeviceRecord
  unfolding model_from_device
  device_record path w =
      let resolved = m.resolve path w in
      let text = λ (p : FilePath). read_optional_text p w in
      record {
        usb_device = last_name path;
        sysfs_path = path;
        resolved_sysfs_path = resolved;
        vendor_id = lower (text (path / codes "idVendor"));
        product_id = lower (text (path / codes "idProduct"));
        manufacturer = text (path / codes "manufacturer");
        product = text (path / codes "product");
        model = model_from_device path w;
        serial = text (path / codes "serial");
        usb_descriptor_serial = text (path / codes "serial");
        speed_mbps = text (path / codes "speed");
        power_control = text (path / codes "power" / codes "control");
        runtime_status = text (path / codes "power" / codes "runtime_status");
        upstream_hub = upstream_hub_name (last_name path);
        xhci_controller = elim (enclosing (codes "xhci-hcd.") resolved) [
          | none ↦ []
          | some controller ↦ last_name controller
        ];
      }

  -- `path.is_dir() and is_realsense_video_device(path)`, over the sorted names of the folder.
  unfoldable pub camera_names : FilePath → List Str → W → List Str
  camera_names base [] w = []
  camera_names base (name ∷ names) w =
      let rest = camera_names base names w in
      if m.is_dir (base / name) w && is_realsense_video_device (base / name) w
      then name ∷ rest
      else rest

  -- `discover_realsense_devices`
  unfoldable pub discover_realsense_devices : FilePath → W → List DeviceRecord
  unfolding camera_names
  discover_realsense_devices base w =
      map (λ name. device_record (base / name) w) (camera_names base (sorted (m.listdir base w)) w)
