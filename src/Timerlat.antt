-- ===== src/Timerlat.antt =====
-- tools/realsense_timerlat_bench/timerlat_parser.py: the histogram of `rtla timerlat hist`.
pub mod Rank
pub mod Lines
pub mod Parse
pub mod Contexts
pub mod Entries
pub mod Ranking
mod Tests
