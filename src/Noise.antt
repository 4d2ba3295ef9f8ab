-- ===== src/Noise.antt =====
-- The noise of a steady campaign: tools/realsense_steady_bench/noise_workloads.py (the processes, and
-- the suite that starts and stops them together) and noise_transition.py (the thread that starts
-- the suite between the warm-up of the cameras and the measurement).
pub mod Process
pub mod Suite
pub mod Running
pub mod Starting
pub mod Deadline
pub mod Launching
pub mod Transition
pub mod Gate
pub mod Ending
mod Tests
