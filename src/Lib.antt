-- ===== src/Lib.antt =====
-- The benchmark tools of rs-camera and the pipeline that reproduces the measurements of the paper.
--
-- A campaign of the tools (tools/realsense_bench_common) takes control of a Linux host, measures in
-- attempts, and gives the host back:
--   - SystemControls (system_controls.py) owns the CPU frequency, the USB backend, the power control
--     of the cameras and the kernel log, and holds a CpuIsolation; `cleanup` restores all of them;
--   - CpuIsolation (cpu_isolation.py) moves the process into an isolated cgroup and the interrupts of
--     the cameras to the other CPUs, which it finds with RealsenseDevices (realsense_devices.py) and
--     names in the syntax of CpuList (`parse_cpu_list`, `format_cpu_list`);
--   - Attempts (attempts.py) runs one benchmark point until it succeeds or its budget is used up, with
--     Recovery (recovery.py), the full reset of the cameras, between attempts.
-- Pipeline (reproduction/pipeline.py) captures all stages phase by phase across kernel reboots; its
-- `worker` runs once in every boot, and finds out from files where the campaign stands. It has Kernel
-- (reproduction/setup/kernel.py) write the boot files of the next kernel, and Reproduce
-- (reproduction/reproduce.py) check the host and run each stage, which leaves the completion marker
-- that the pipeline looks for.
--
-- A steady benchmark (tools/realsense_steady_bench) runs its attempts by SteadyAttempts
-- (steady_attempts.py), which classifies a failure and has the loop of Attempts repeat it behind a
-- reset of Recovery. Noise is load on the host: its processes (noise_workloads.py) and the thread that
-- starts them between the warm-up of the cameras and the measurement (noise_transition.py). Before a
-- run, MemoryCleanup (realsense_bench_common/memory.py) drops the caches of the file system. Later
-- tools read the attempt that Artifacts finds (realsense_bench_common/artifacts.py), derive the
-- reservations of SCHED_DEADLINE workers (DeadlineProfile, generate_deadline_profile.py) or read the
-- histogram of a kernel tracer (Timerlat, tools/realsense_timerlat_bench/timerlat_parser.py).
--
-- Files:
--   - Prelude: Boolean tests, lists, and the monad `Exec`: a method takes a state and returns a result
--     or an error beside the state, so that what was written before an error stays written. Post and
--     After hold the rules for what a call leaves, Keeping those for what it keeps, Objects the methods
--     on an object beside the world.
--   - Text: `str` as a list of code points, with the methods that the tools call.
--   - Machine: the host as a record of operations on a world `W`, a parameter without assumptions;
--     Sample and Quiet are the small hosts of the examples.
--   - CpuIsolation.State is the object, Irqs and Discover find the interrupts, Validate, Verify and
--     Prepare are the methods of these names, and `restore` is in CpuIsolation itself. Steps, Leftover,
--     Restoring, Keeps, Verifying, Changes and Preparing are proofs.
--   - Attempts: the loop and its data (Records); Step, Loop, Outcome and Total are proofs.
--   - SystemControls: State, Frequency (`_lock_cpu_once`, `restore_cpu_frequency`), Usb (the RSUSB
--     helper and autosuspend), KernelLog (`kernel_delta`) and Campaign (prepare and cleanup); Cleanup
--     and Delta are proofs.
--   - Recovery: Data, Device (the commands on one camera), Reset (`recover`); Commands and
--     Outcome are proofs.
--   - Pipeline: Plan (`boot_matches`, `complete`, `phases`, `next_phase`), Host (files, commands and
--     the running kernel), Checks, Worker, Service (the systemd unit), Control (`control`); Next,
--     Permitted, Moves, Safety, Refusals, Captured, Lasting, Rounds, Ends, Owning and
--     Controlling are proofs.
--   - Kernel: Selection (`boot_selection` of reproduction/setup/kernel.py); Words, Lines, Booting and
--     Prefixes are proofs.
--   - Reproduce: Stages (the tables), Config (`load_config`), Check and Preflight (`check`), Run (the action `run` of `main`,
--     `generate_profiles`), Edits (`replace_once`, `before`); Roles, Cleared, Starting, Marking and
--     Boots are proofs, Boots that the phases of Pipeline and the stages of Reproduce agree.
--   - SteadyAttempts: Classify (`_classify_attempt`, `camera_descriptors`, the summary of a reset that
--     failed), Running (`run_steady_attempts`); Budget and PreRunReset are proofs.
--   - Noise: Process (`ManagedNoiseProcess`), Suite (`NoiseSuite`), Transition (`NoiseTransition`, one
--     step of a thread at a time, with program counters); Deadline, Launching, Running, Starting, Gate and Ending
--     are proofs, the last two over every order of the steps.
--   - Artifacts: Selected (`selected_attempt_number`, `resolve_selected_attempt`); Selection is the
--     proof.
--   - MemoryCleanup: Cleanup (`DropCachesBeforeRun`, `memory_cleanup_result_fields`); Recorded is the
--     proof.
--   - DeadlineProfile: Profile (`generate_profile`); Observed and Coverage are proofs.
--   - Timerlat: Rank (`_nearest_rank`, `_maximum_known`), Lines (one line of the histogram) and Parse
--     (`parse_timerlat_histogram`); Ranking, Entries and Contexts are proofs.
--
-- Bounds and simplifications. Text is ASCII, and numbers in text have no limit on their digits. A
-- set of CPUs is the ascending list of its elements. A path is the list of its components. Times
-- are whole milliseconds, or seconds in `check_wired`. The prefix of a kernel has no backslash.
-- JSON, SHA-256, archives, file copies and the locks of files are parameters, and so are products in
-- floating point (the quantiles of a count, the margin and the scale of a reservation). `int` reads no
-- underscores, and the numbers of a histogram carry no sign. Messages on the
-- terminal are left out, and so are the times in the reports; `repr` puts quotes around a text
-- without escapes, and the message on an ambiguous interrupt leaves out the list of matches. The
-- loops that poll until a deadline have fuel for every poll up to it: 21 polls of 50 ms for the
-- second of the frequency lock, and as many as a deadline has milliseconds (seconds for the wired
-- connection) and two more elsewhere; with no fuel left they end as they do at the deadline. The
-- loop of the worker has six rounds, one for each of the five phases and a last one that finds
-- nothing left, and ends with `out_of_fuel` after them.
--
-- Not modelled: the parsers of traces but that of the timerlat histogram, the analyses and figures
-- (floating point), the campaigns that only assemble commands, what `prepare` writes in
-- reproduction/reproduce.py (edits of shell scripts), the metadata beside a deadline profile, and of
-- the pipeline the commands `raw` and `full`.
pub mod Artifacts
pub mod Attempts
pub mod CpuIsolation
pub mod CpuList
pub mod DeadlineProfile
pub mod Kernel
pub mod Machine
pub mod MemoryCleanup
pub mod Noise
pub mod Pipeline
pub mod Prelude
pub mod RealsenseDevices
pub mod Recovery
pub mod Reproduce
pub mod SteadyAttempts
pub mod SystemControls
pub mod Text
pub mod Timerlat
