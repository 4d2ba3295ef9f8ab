-- ===== src/MemoryCleanup/Recorded.antt =====
-- What is recorded of a cleanup.
use rs_camera.Prelude.{ℕ, Bool, ◌≡◌, refl, none, some, [], ◌∷◌, ◌++◌, ◌⊎◌, inl, inr}
use rs_camera.Prelude.Exec.{Result, ok, err, is_ok}
use rs_camera.Prelude.Errors.{Error}
use rs_camera.Prelude.After.{After, After-calling, After-lift}
use rs_camera.Text.{codes}
use rs_camera.Machine.{Machine, FilePath, ◌/◌}
use rs_camera.MemoryCleanup.Cleanup.{
  Meminfo, Cleaning, Cache, error_text, read_meminfo, drop_command, run_command, drop_caches,
  write_record, clean,
}

abbrev record_path : FilePath → FilePath
record_path folder = folder / codes "memory_cleanup_before_run.json"

module _ {W : Type 0} (m : Machine W) (c : Cache W) (use_sudo : Bool) where
  -- The last thing that was done is that a record of this outcome was written into the folder.
  pub record IsSaved (folder : FilePath) (r : Result Error (Unit {0})) (t : W) : Type 0 where
    pub cleaning : Cleaning
    pub earlier : W
    pub saved : c.save (record_path folder) cleaning earlier ≡ (ok tt, t)
    pub success : cleaning.success ≡ is_ok r
    pub error : cleaning.error ≡ error_text r

  -- Both commands ended with status 0, `sync` first.
  abbrev pub Dropped : Type 0
  Dropped =
      (u : W) × (v : W) × (t : W) × (run_command m c use_sudo (codes "sync" ∷ []) none u
        ≡ (ok tt, v))
      × (run_command m c use_sudo (drop_command m c use_sudo) (some (codes "3" ++ 10 ∷ [])) v
          ≡ (ok tt, t))

  -- What can raise beside the commands themselves.
  abbrev pub Failed : FilePath → Error → W → Type 0
  Failed folder e t =
      ((w : W) × (m.make_dir folder w ≡ (err e, t)))
      ⊎ ((read_meminfo m c use_sudo t ≡ err e)
          ⊎ ((cleaning : Cleaning) × (w : W) × (c.save (record_path folder) cleaning w
                ≡ (err e, t))))

  abbrev pub Ends : FilePath → Unit {0} → W → Type 0
  Ends folder _ t = IsSaved folder (ok tt) t × Dropped

  abbrev pub Raises : FilePath → Error → W → Type 0
  Raises folder e t = IsSaved folder (err e) t ⊎ Failed folder e t

  write-Recorded :
      (folder : FilePath) (before : Meminfo) (start_ns : ℕ) (r : Result Error (Unit {0})) (u : W)
      → (r ≡ ok tt → Dropped)
      → After
          (Ends folder)
          (Raises folder)
          (write_record m c use_sudo (record_path folder) before start_ns r u)
  unfolding write_record
  write-Recorded folder before start_ns (ok a) u dropped =
      After-lift (Ends folder) (Raises folder) (read_meminfo m c use_sudo u) _ u
        (λ after _.
          After-calling (Ends folder) (Raises folder) (c.save (record_path folder) _) _ u
            (λ _ t saved. (
              record { cleaning = _; earlier = u; saved = saved; success = refl; error = refl },
              dropped refl,
            ))
            (λ e t failed. inr (inr (inr (_, u, failed)))))
        (λ e unread. inr (inr (inl unread)))
  write-Recorded folder before start_ns (err x) u dropped =
      After-lift (Ends folder) (Raises folder) (read_meminfo m c use_sudo u) _ u
        (λ after _.
          After-calling (Ends folder) (Raises folder) (c.save (record_path folder) _) _ u
            (λ _ t saved.
              inl
                (record { cleaning = _; earlier = u; saved = saved; success = refl; error = refl }))
            (λ e t failed. inr (inr (inr (_, u, failed)))))
        (λ e unread. inr (inr (inl unread)))

  drop-Dropped : (u : W) → After (λ _ _. Dropped) (λ _ _. Unit) (drop_caches m c use_sudo u)
  unfolding drop_caches
  drop-Dropped u =
      After-calling (λ _ _. Dropped) (λ _ _. Unit)
        (run_command m c use_sudo (codes "sync" ∷ []) none) _ u
        (λ _ v synced.
          second v synced
            (run_command m c use_sudo (drop_command m c use_sudo) (some (codes "3" ++ 10 ∷ [])) v)
            refl)
        (λ _ _ _. tt)
    where
      second :
          (v : W)
          → run_command m c use_sudo (codes "sync" ∷ []) none u ≡ (ok tt, v)
          → (r : Result Error (Unit {0}) × W)
          → run_command m c use_sudo (drop_command m c use_sudo) (some (codes "3" ++ 10 ∷ [])) v ≡ r
          → After (λ _ _. Dropped) (λ _ _. Unit) r
      second v synced (ok a, t) e = (u, v, t, synced, e)
      second v synced (err x, t) e = tt

  settled-Recorded :
      (folder : FilePath) (before : Meminfo) (start_ns : ℕ) (r : Result Error (Unit {0}) × W)
      → After (λ _ _. Dropped) (λ _ _. Unit) r
      → After
          (Ends folder)
          (Raises folder)
          (write_record m c use_sudo (record_path folder) before start_ns r.0 r.1)
  settled-Recorded folder before start_ns (ok a, u) d =
      write-Recorded folder before start_ns (ok a) u (λ _. d)
  settled-Recorded folder before start_ns (err x, u) d =
      write-Recorded folder before start_ns (err x) u (λ e. cc e)

  -- However the commands end, the last thing that is done is to write a record that says so: if the hook
  -- returns, it says success, and the caches were dropped behind a `sync`; if it raises, it says that this
  -- error was raised, unless the folder, the memory statistics or the record itself failed.
  pub clean-Recorded :
      (folder : FilePath) (w : W)
      → After (Ends folder) (Raises folder) (clean m c use_sudo folder w)
  unfolding clean
  clean-Recorded folder w =
      After-calling (Ends folder) (Raises folder) (m.make_dir folder) _ w
        (λ _ v _.
          After-lift (Ends folder) (Raises folder) (read_meminfo m c use_sudo v) _ v
            (λ before _.
              settled-Recorded folder before (c.boottime_ns v) (drop_caches m c use_sudo v)
                (drop-Dropped v))
            (λ e unread. inr (inr (inl unread))))
        (λ e t failed. inr (inl (w, failed)))
