-- ===== src/Rsp.antt =====
-- The reality signal processor: crates/rustyn64-rsp.
pub mod Sp
pub mod Su
pub mod Vu
mod Tests
