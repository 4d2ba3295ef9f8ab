-- ===== src/Kernel.antt =====
-- reproduction/setup/kernel.py: which kernel boots next, from config.txt and the cmdline.txt of the
-- kernel's folder. The copies of boot files around it are input and output.
pub mod Selection
pub mod Words
pub mod Lines
pub mod Prefixes
pub mod Booting
mod Tests
