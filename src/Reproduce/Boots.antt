-- ===== src/Reproduce/Boots.antt =====
-- The phases of the pipeline and the kernels of the stages agree.
use rs_camera.Prelude.{
  Bool, true, false, not, ◌&&◌, ◌||◌, ◌≡◌, refl, ◌↔◌, ◌⊎◌, inl, inr, some, [], ◌++◌, All, arith,
}
use rs_camera.Text.{Str, codes, str_eq}
use rs_camera.Text.Words.{starts_with}
use rs_camera.Pipeline.Plan.{
  Variant, standard_urb5, standard_urb16, rt_urb16, variant_name, release_of, Phase, all_phases,
  phases, without_supplements, main_stages, is_supplement, boot_matches, bool_eq,
}
use rs_camera.Reproduce.Stages.{
  Mode, standard_hardirq5, standard_hardirq16, standard_threaded16, rt_threaded16, mode_name,
  kernel_of, StageEntry, stages, find_stage,
}
use rs_camera.Reproduce.Check.{kernel_errors, problem, differs, has_threadirqs}

abbrev rt : Str
rt = codes "rt-"

-- The same release; and both are real-time kernels, or neither is and the argument is the same.
record Agree (variant : Variant) (threaded : Bool) (mode : Mode) : Type 0 where
  pub release : release_of variant ≡ (kernel_of mode).0
  pub same_rt : starts_with rt (variant_name variant) ≡ starts_with rt (mode_name mode)
  pub same_argument : (starts_with rt (mode_name mode) ≡ true) ⊎ (threaded ≡ (kernel_of mode).1)

no_problems :
    (a b : Bool) (s t : Str) → (problem a s ++ problem b t ≡ []) ↔ ((a ≡ false) × (b ≡ false))
no_problems true b s t = ((λ e. cc e), (λ (e, _). cc e))
no_problems false true s t = ((λ e. cc e), (λ (_, e). cc e))
no_problems false false s t = ((λ _. (refl, refl)), (λ _. refl))

tests :
    (same rt_kernel given threaded expected : Bool)
    → (rt_kernel ≡ true) ⊎ (threaded ≡ expected)
    → ((same && (rt_kernel || bool_eq given threaded)) ≡ true)
      ↔ ((not same ≡ false) × ((not rt_kernel && differs given expected) ≡ false))
tests same rt_kernel given threaded expected c = (ground arith, ground arith)

-- The check of a kernel finds nothing exactly where the pipeline takes the boot for that of the phase.
abbrev pub Consistent : Phase → Str → Type 0
Consistent phase stage =
    (e : StageEntry) × (find_stage stage stages ≡ some e)
    × ((release cmdline : Str)
        → (boot_matches phase.variant phase.threaded release cmdline ≡ true)
          ↔ (kernel_errors e.mode release cmdline ≡ []))

kernel-Consistent :
    (variant : Variant) (threaded : Bool) (mode : Mode)
    → Agree variant threaded mode
    → (release cmdline : Str)
    → (boot_matches variant threaded release cmdline ≡ true)
      ↔ (kernel_errors mode release cmdline ≡ [])
unfolding boot_matches kernel_errors
kernel-Consistent variant threaded mode a release cmdline =
    let given = has_threadirqs cmdline in
    let (to_list, from_list) =
      no_problems (not (str_eq release (kernel_of mode).0))
        (not (starts_with rt (mode_name mode)) && differs given (kernel_of mode).1) _ _ in
    let (to_tests, from_tests) =
      tests (str_eq release (kernel_of mode).0) (starts_with rt (mode_name mode)) given threaded
        (kernel_of mode).1 a.same_argument in
    (
      (λ matches. from_list (to_tests (rw (a.release, a.same_rt) at matches))),
      (λ none. rw (a.release, a.same_rt) (from_tests (to_list none))),
    )

on_rt :
    (release cmdline : Str)
    → (boot_matches rt_urb16 false release cmdline ≡ true)
      ↔ (kernel_errors rt_threaded16 release cmdline ≡ [])
unfolding release_of kernel_of variant_name mode_name starts_with
on_rt =
    kernel-Consistent rt_urb16 false rt_threaded16
      (record { release = refl; same_rt = refl; same_argument = inl refl })

on_threaded :
    (release cmdline : Str)
    → (boot_matches standard_urb16 true release cmdline ≡ true)
      ↔ (kernel_errors standard_threaded16 release cmdline ≡ [])
unfolding release_of kernel_of variant_name mode_name starts_with
on_threaded =
    kernel-Consistent standard_urb16 true standard_threaded16
      (record { release = refl; same_rt = refl; same_argument = inr refl })

on_urb5 :
    (release cmdline : Str)
    → (boot_matches standard_urb5 false release cmdline ≡ true)
      ↔ (kernel_errors standard_hardirq5 release cmdline ≡ [])
unfolding release_of kernel_of variant_name mode_name starts_with
on_urb5 =
    kernel-Consistent standard_urb5 false standard_hardirq5
      (record { release = refl; same_rt = refl; same_argument = inr refl })

on_hardirq :
    (release cmdline : Str)
    → (boot_matches standard_urb16 false release cmdline ≡ true)
      ↔ (kernel_errors standard_hardirq16 release cmdline ≡ [])
unfolding release_of kernel_of variant_name mode_name starts_with
on_hardirq =
    kernel-Consistent standard_urb16 false standard_hardirq16
      (record { release = refl; same_rt = refl; same_argument = inr refl })

-- Every stage of every phase of the pipeline is a stage of the reproduction, and whatever the release and
-- the command line of the running kernel are: the pipeline takes the boot for that of the phase exactly if
-- the check of the stage has nothing to say about the kernel.
pub phases-Consistent :
    (smoke : Bool) → All (λ phase. All (Consistent phase) phase.stages) (phases smoke)
unfolding phases all_phases without_supplements main_stages is_supplement find_stage stages str_eq
phases-Consistent false = (
  ((_, refl, on_rt), ((_, refl, on_rt), tt)),
  (
    (
      (_, refl, on_threaded),
      ((_, refl, on_threaded), ((_, refl, on_threaded), ((_, refl, on_threaded), tt))),
    ),
    (
      ((_, refl, on_urb5), tt),
      (
        (
          (_, refl, on_hardirq),
          (
            (_, refl, on_hardirq),
            ((_, refl, on_hardirq), ((_, refl, on_hardirq), ((_, refl, on_hardirq), tt))),
          ),
        ),
        (((_, refl, on_rt), tt), tt),
      ),
    ),
  ),
)
phases-Consistent true = (
  ((_, refl, on_rt), ((_, refl, on_rt), tt)),
  (
    ((_, refl, on_threaded), ((_, refl, on_threaded), ((_, refl, on_threaded), tt))),
    (
      ((_, refl, on_urb5), tt),
      (((_, refl, on_hardirq), ((_, refl, on_hardirq), tt)), (((_, refl, on_rt), tt), tt)),
    ),
  ),
)
