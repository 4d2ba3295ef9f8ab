-- ===== src/Noise/Deadline.antt =====
-- `start` without fuel: what its loop does, round by round, up to the deadline.
use rs_camera.Prelude.{
  ℕ, zero, suc, ◌+◌, ◌≤◌, ◌<◌, true, false, ◌≡◌, refl, inl, inr, Option, none, some, List, arith,
  Bool-cases, Option-cases, ltb,
}
use rs_camera.Prelude.Exec.{Result, ok, err, Exec, continue, pure, ◌>>=◌}
use rs_camera.Prelude.Errors.{Error}
use rs_camera.Prelude.After.{After}
use rs_camera.Prelude.Objects.{on_world}
use rs_camera.Text.{Str, codes}
use rs_camera.Text.Words.{ℤ}
use rs_camera.Machine.{Clock, FilePath}
use rs_camera.Noise.Process.{
  NoiseHost, NoiseKind, Ready, reported, look, inspect, exited, timed_out, await_ready, noise_path,
  read_json, loaded, command_of,
}

-- `time.sleep(t)` takes at least `t`.
abbrev pub Advances : {W : Type 0} → Clock W → Type 0
Advances {W} clock = (ms : ℕ) (w : W) → clock.monotonic w + ms ≤ clock.monotonic (clock.sleep ms w)

-- `subprocess.Popen` does not turn the clock back.
abbrev pub Onward : {W Json : Type 0} → NoiseHost W Json → Type 0
Onward {W} h =
    (command : List Str) (out errors : FilePath) (w : W)
    → After (λ _ t. h.clock.monotonic w ≤ h.clock.monotonic t) (λ _ _. Unit)
        (h.popen command out errors w)

module _ {W Json : Type 0} (h : NoiseHost W Json) (k : NoiseKind W Json) (d : FilePath) where
  abbrev pub ready_path : FilePath
  ready_path = noise_path h k d (codes "ready.json")

  -- The process runs, and does not say yet that it is ready: with the time until the next look, in ms.
  pub data IsPending : W → ℕ → Type 0 where
    no_file : {w : W} → h.machine.is_file ready_path w ≡ false → IsPending w 50
    no_json :
        {w : W} {text : Str}
        → h.machine.is_file ready_path w ≡ true
        → h.machine.read_text ready_path w ≡ ok text
        → h.loads text ≡ none
        → IsPending w 10
    silent :
        {w : W} {text : Str} {value : Json}
        → h.machine.is_file ready_path w ≡ true
        → h.machine.read_text ready_path w ≡ ok text
        → h.loads text ≡ some value
        → h.says_ready value ≡ false
        → IsPending w 50

  -- From the world on, the loop ends with the result.
  pub data Waits (deadline process : ℕ)
      : W → Result Error (Ready Json) × (Option ℕ × W) → Type 0 where
    late :
        {w : W}
        → deadline ≤ h.clock.monotonic w
        → Waits deadline process w (timed_out h k d (some process, w))
    ended :
        {w : W} {code : ℤ}
        → h.clock.monotonic w < deadline
        → h.poll process w ≡ some code
        → Waits deadline process w (exited h k d code (some process, w))
    unread :
        {w : W} {e : Error}
        → h.clock.monotonic w < deadline
        → h.poll process w ≡ none
        → h.machine.is_file ready_path w ≡ true
        → h.machine.read_text ready_path w ≡ err e
        → Waits deadline process w (err e, (some process, w))
    ready :
        {w : W} {text : Str} {value : Json}
        → h.clock.monotonic w < deadline
        → h.poll process w ≡ none
        → h.machine.is_file ready_path w ≡ true
        → h.machine.read_text ready_path w ≡ ok text
        → h.loads text ≡ some value
        → h.says_ready value ≡ true
        → Waits deadline process w (
            (on_world (k.decorate_ready value (command_of h k d)) >>= λ answer.
            pure (reported answer))
              (some process, w))
    again :
        {w : W} {ms : ℕ} {r : Result Error (Ready Json) × (Option ℕ × W)}
        → h.clock.monotonic w < deadline
        → h.poll process w ≡ none
        → IsPending w ms
        → Waits deadline process (h.clock.sleep ms w) r
        → Waits deadline process w r

  module _ (advances : Advances h.clock) where
    -- The rounds that follow, from the next millisecond on.
    Follow : ℕ → ℕ → Exec Error (Option ℕ × W) (Ready Json) → W → Type 0
    Follow deadline process next w =
        (w' : W)
        → h.clock.monotonic w + 1 ≤ h.clock.monotonic w'
        → Waits deadline process w' (next (some process, w'))

    look-Waits :
        (deadline process : ℕ) (next : Exec Error (Option ℕ × W) (Ready Json)) (text : Str) (w : W)
        → h.clock.monotonic w < deadline
        → h.poll process w ≡ none
        → h.machine.is_file ready_path w ≡ true
        → h.machine.read_text ready_path w ≡ ok text
        → Follow deadline process next w
        → Waits deadline process w
            (look h k next (command_of h k d) (h.loads text) (some process, w))
    unfolding look Follow
    look-Waits deadline process next text w early runs there read follow =
        elim (Option-cases (h.loads text)) [
          | inl broken ↦ rw broken (
              again early runs (no_json there read broken)
                (follow (h.clock.sleep 10 w) (omega (arith, advances 10 w))))
          | inr (value, loads) ↦ elim (Bool-cases (h.says_ready value)) [
            | inl says ↦ rw (loads, says) (ready early runs there read loads says)
            | inr waits ↦
                rw (loads, waits)
                  (again early runs (silent there read loads waits)
                    (follow (h.clock.sleep 50 w) (omega (arith, advances 50 w))))
          ]
        ]

    loaded-Waits :
        (deadline process : ℕ) (next : Exec Error (Option ℕ × W) (Ready Json))
        (text : Result Error Str) (w : W)
        → h.clock.monotonic w < deadline
        → h.poll process w ≡ none
        → h.machine.is_file ready_path w ≡ true
        → h.machine.read_text ready_path w ≡ text
        → Follow deadline process next w
        → Waits deadline process w (
            continue
              (loaded h k text w).0
              (look h k next (command_of h k d))
              (some process, (loaded h k text w).1))
    loaded-Waits deadline process next (ok text) w early runs there read follow =
        look-Waits deadline process next text w early runs there read follow
    loaded-Waits deadline process next (err e) w early runs there read follow =
        unread early runs there read

    inspect-Waits :
        (deadline process : ℕ) (next : Exec Error (Option ℕ × W) (Ready Json)) (code : Option ℤ)
        (w : W)
        → h.clock.monotonic w < deadline
        → h.poll process w ≡ code
        → Follow deadline process next w
        → Waits deadline process w (inspect h k next d (command_of h k d) code (some process, w))
    unfolding inspect read_json Follow
    inspect-Waits deadline process next (some code) w early polled follow = ended early polled
    inspect-Waits deadline process next none w early polled follow =
        elim (Bool-cases (h.machine.is_file ready_path w)) [
          | inl there ↦ rw there (
              loaded-Waits deadline process next (h.machine.read_text ready_path w) w early polled
                there refl follow)
          | inr missing ↦ rw missing (
              again early polled (no_file missing)
                (follow (h.clock.sleep 50 w) (omega (arith, advances 50 w))))
        ]

    pub await-Waits :
        (fuel deadline process : ℕ) (w : W)
        → deadline < h.clock.monotonic w + fuel
        → Waits deadline process w
            (await_ready h k fuel deadline d (command_of h k d) process (some process, w))
    unfolding await_ready Follow
    await-Waits zero deadline process w enough = late (omega arith)
    await-Waits (suc fuel) deadline process w enough =
        elim (Bool-cases (ltb (h.clock.monotonic w) deadline)) [
          | inr passed ↦ rw passed (late (ground arith))
          | inl early ↦ rw early (
              inspect-Waits deadline process
                (await_ready h k fuel deadline d (command_of h k d) process) (h.poll process w) w
                (ground arith) refl
                (λ w' later. await-Waits fuel deadline process w' (omega arith)))
        ]
