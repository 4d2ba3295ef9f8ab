-- ===== src/Artifacts.antt =====
-- tools/realsense_bench_common/artifacts.py: which attempt of a run the tools read, from the files that
-- a campaign leaves.
pub mod Selected
pub mod Selection
mod Tests
