-- ===== src/Reproduce.antt =====
-- reproduction/reproduce.py: the stages of the reproduction, the check of the host before a stage, and the
-- run of a stage.
pub mod Stages
pub mod Check
pub mod Preflight
pub mod Run
pub mod Config
pub mod Roles
pub mod Cleared
pub mod Starting
pub mod Marking
pub mod Boots
pub mod Edits
mod Tests
