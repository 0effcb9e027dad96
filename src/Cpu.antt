-- ===== src/Cpu.antt =====
-- The VR4300 processor: crates/rustyn64-cpu.
pub mod Cache
pub mod Tlb
pub mod Cop0
pub mod Addr
pub mod Alu
pub mod Mem
pub mod Exception
pub mod Sysad
pub mod Fpr
pub mod Regs
pub mod Cop1
mod Tests
