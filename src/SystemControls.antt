-- ===== src/SystemControls.antt =====
-- tools/realsense_bench_common/system_controls.py: the CPU frequency, the USB backend, the power
-- control of the cameras, the CPU isolation and the kernel log of a campaign.
pub mod State
pub mod KernelLog
pub mod Frequency
pub mod Usb
pub mod Campaign
pub mod Cleanup
pub mod Delta
mod Tests
