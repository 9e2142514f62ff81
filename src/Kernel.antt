-- ===== src/Kernel.antt =====
-- The kernel, kernel/src.
pub mod Detector
pub mod State
pub mod Resolver
pub mod Petitions
pub mod Scheduler
