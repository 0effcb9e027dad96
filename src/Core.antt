-- ===== src/Core.antt =====
-- The system crate: crates/rustyn64-core.
pub mod Vi
pub mod Scheduler
pub mod Bus
