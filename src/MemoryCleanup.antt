-- ===== src/MemoryCleanup.antt =====
-- tools/realsense_bench_common/memory.py: the file-system cache is dropped before a run, and a record says
-- how that went. The duration, a quotient in floating point, is left out.
pub mod Cleanup
pub mod Recorded
mod Tests
