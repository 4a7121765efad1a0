-- ===== src/Sys.antt =====
-- The parts of the kernel that serve processes.
pub mod Cred
pub mod File
pub mod Process
pub mod Signal
pub mod Timer
