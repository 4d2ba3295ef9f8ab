-- ===== src/SteadyAttempts.antt =====
-- tools/realsense_steady_bench/steady_attempts.py: the attempt loop of the steady benchmark, with its
-- classification of a failed attempt and the full reset of the cameras between attempts.
pub mod Classify
pub mod Running
pub mod Budget
pub mod PreRunReset
mod Tests
