-- ===== src/Pipeline.antt =====
-- reproduction/pipeline.py: the captures of the paper, phase by phase across kernel reboots.
pub mod Plan
pub mod Next
pub mod Host
pub mod Checks
pub mod Worker
pub mod Service
pub mod Control
pub mod Owning
pub mod Controlling
pub mod Permitted
pub mod Moves
pub mod Safety
pub mod Refusals
pub mod Captured
pub mod Lasting
pub mod Rounds
pub mod Ends
mod Tests
mod BoardTests
