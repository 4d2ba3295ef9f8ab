-- ===== src/DeadlineProfile.antt =====
-- tools/realsense_steady_bench/generate_deadline_profile.py: `generate_profile`, the reservations of the
-- SCHED_DEADLINE workers from what was observed in traces.
pub mod Profile
pub mod Observed
pub mod Coverage
mod Tests
