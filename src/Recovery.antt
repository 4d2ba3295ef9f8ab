-- ===== src/Recovery.antt =====
-- tools/realsense_bench_common/recovery.py: the firmware and the USB device of every camera of a
-- failed run are reset. JSON is a library; the time limits of the commands show in the model as the
-- `timeout_expired` that a command may raise.
pub mod Data
pub mod Device
pub mod Reset
pub mod Commands
pub mod Outcome
mod Tests
