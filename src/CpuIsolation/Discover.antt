-- ===== src/CpuIsolation/Discover.antt =====
-- `discover_camera_xhci_irqs` and `_irq_thread_state` of cpu_isolation.py.
use rs_camera.Prelude.{
  ℕ, Bool, ◌&&◌, Option, none, some, List, [], ◌∷◌, ◌++◌, ltb, ◌==◌, if◌then◌else◌, is_empty,
}
use rs_camera.Prelude.Exec.{Result, ok, err, Exec, pure, raise, lift, gets, raise_if, ◌>>=◌, ◌>>◌}
use rs_camera.Prelude.Errors.{Error, runtime_error}
use rs_camera.Text.{Str, codes, is_digit, int_of, show, strip}
use rs_camera.Text.Words.{starts_with, drop_prefix, split_lines, sorted}
use rs_camera.Machine.{Machine, FilePath, ◌/◌, path_text, read}
use rs_camera.RealsenseDevices.{camera_names, enclosing}
use rs_camera.CpuList.{format_cpu_list}
use rs_camera.CpuIsolation.State.{CpuIsolationConfig, IrqRecord, ThreadState}
use rs_camera.CpuIsolation.Irqs.{Actions, first_cgroup, path_parts, lookup_action, interrupt_lines}

-- `re.fullmatch(r"usb\d+", name)`
unfoldable pub is_bus_name : Str → Bool
is_bus_name name = starts_with (codes "usb") name && is_digit (drop_prefix (codes "usb") name)

-- `[(bus, actions[bus]) for bus in root_hubs if bus in actions]`
unfoldable pub matching_actions : List Str → Actions → List (Str × ℕ)
matching_actions [] actions = []
matching_actions (bus ∷ buses) actions =
    let rest = matching_actions buses actions in
    elim (lookup_action bus actions) [ none ↦ rest | some irq ↦ (bus, irq) ∷ rest ]

-- `by_irq.setdefault(irq, …)["usb_devices"].append(name)`, with the records kept in the order of
-- their interrupts, in which `sorted(by_irq)` returns them.
unfoldable pub add_device : ℕ → Str → FilePath → Str → List IrqRecord → List IrqRecord
add_device irq bus controller name [] =
    record {
      irq = irq;
      action = codes "xhci-hcd:" ++ bus;
      controller = controller;
      usb_devices = name ∷ [];
      original_affinity = none;
      effective_affinity = none;
      thread = none;
    }
    ∷ []
add_device irq bus controller name (r ∷ rs) =
    let rest = add_device irq bus controller name rs in
    if irq == r.irq
    then record r { usb_devices = r.usb_devices ++ name ∷ [] } ∷ rs
    else if ltb irq r.irq
    then record {
      irq = irq;
      action = codes "xhci-hcd:" ++ bus;
      controller = controller;
      usb_devices = name ∷ [];
      original_affinity = none;
      effective_affinity = none;
      thread = none;
    }
      ∷ r
      ∷ rs
    else r ∷ rest

-- `policy_names.get(policy_id, str(policy_id))`
unfoldable pub policy_name : ℕ → Str
policy_name policy =
    if policy == 0
    then codes "SCHED_OTHER"
    else if policy == 1
    then codes "SCHED_FIFO"
    else if policy == 2
    then codes "SCHED_RR"
    else if policy == 3
    then codes "SCHED_BATCH"
    else if policy == 5
    then codes "SCHED_IDLE"
    else if policy == 6
    then codes "SCHED_DEADLINE"
    else show policy

module _ {W : Type 0} (m : Machine W) (config : CpuIsolationConfig) where
  -- `_current_process_cgroup`
  unfoldable pub current_process_cgroup : Exec Error W FilePath
  current_process_cgroup = do
    text ← read m (config.proc_root / codes "self" / codes "cgroup")
    elim (first_cgroup (split_lines text)) [
      | none ↦ raise (runtime_error (codes "the current process is not in a cgroup-v2 hierarchy"))
      | some relative ↦ pure (config.cgroup_root ++ path_parts [] relative)
    ]

  -- `_interrupt_actions`
  unfoldable pub interrupt_actions : Exec Error W Actions
  interrupt_actions = do
    text ← read m (config.proc_root / codes "interrupts")
    lift (interrupt_lines (split_lines text) [])

  -- The sorted bus folders of a controller.
  unfoldable pub bus_names : FilePath → List Str → W → List Str
  bus_names controller [] w = []
  bus_names controller (name ∷ names) w =
      let rest = bus_names controller names w in
      if is_bus_name name && m.is_dir (controller / name) w then name ∷ rest else rest

  abbrev no_controller : Str → FilePath → Error
  no_controller name resolved =
      runtime_error (
        codes "cannot find the xHCI controller for "
        ++ (name ++ (codes ": " ++ path_text resolved)))

  abbrev not_one_irq : Str → FilePath → Error
  not_one_irq name controller =
      runtime_error
        (codes "expected one xHCI IRQ for " ++ (name ++ (codes " via " ++ path_text controller)))

  -- The loop's body for the camera `name`.
  unfoldable pub device_irq : Actions → Str → List IrqRecord → W → Result Error (List IrqRecord)
  unfolding bus_names
  device_irq actions name records w =
      let resolved = m.resolve (config.usb_sysfs_base / name) w in
      elim (enclosing (codes "xhci-hcd.") resolved) [
        | none ↦ err (no_controller name resolved)
        | some controller ↦
            elim (matching_actions (bus_names controller (sorted (m.listdir controller w)) w)
              actions) [
                | [] ↦ err (not_one_irq name controller)
                | (bus, irq) ∷ more ↦
                    if is_empty more
                    then ok (add_device irq bus controller name records)
                    else err (not_one_irq name controller)
              ]
      ]

  unfoldable pub device_irqs :
      Actions → List Str → List IrqRecord → W → Result Error (List IrqRecord)
  device_irqs actions [] records w = ok records
  device_irqs actions (name ∷ names) records w = elim (device_irq actions name records w) [
    | ok records' ↦ device_irqs actions names records' w
    | err e ↦ err e
  ]

  unfoldable pub discover_camera_xhci_irqs : Exec Error W (List IrqRecord)
  unfolding interrupt_actions
  discover_camera_xhci_irqs = do
    devices ←
        gets
          (λ w. camera_names m config.usb_sysfs_base (sorted (m.listdir config.usb_sysfs_base w)) w)
    raise_if (is_empty devices)
        (runtime_error (codes "CPU isolation requires at least one connected RealSense camera"))
    actions ← interrupt_actions
    λ w. (device_irqs actions devices [] w, w)

  abbrev thread_named : ℕ → Str → Str → W → Option ThreadState
  thread_named irq name comm w =
      if starts_with (codes "irq/" ++ (show irq ++ codes "-")) comm
      then some (elim (m.scheduling (int_of name) w) [
        | none ↦ record {
          pid = int_of name;
          name = comm;
          policy = codes "-1";
          priority = none;
          affinity = [];
        }
        | some s ↦ record {
          pid = int_of name;
          name = comm;
          policy = policy_name s.policy;
          priority = some s.priority;
          affinity = format_cpu_list s.affinity;
        }
      ])
      else none

  -- The state of the thread in the folder `name` of procfs, or `none` to go on.
  -- A name that cannot be read is passed over, whatever the error: on ASCII text that is an `OSError`.
  unfoldable pub thread_in : ℕ → Str → W → Option ThreadState
  thread_in irq name w = elim (m.read_text (config.proc_root / name / codes "comm") w) [
    | err e ↦ none
    | ok text ↦ thread_named irq name (strip text) w
  ]

  -- `_irq_thread_state`
  unfoldable pub irq_thread_state : ℕ → List Str → W → Option ThreadState
  irq_thread_state irq [] w = none
  irq_thread_state irq (name ∷ names) w =
      let rest = irq_thread_state irq names w in
      if is_digit name then elim (thread_in irq name w) [ none ↦ rest | some t ↦ some t ] else rest
