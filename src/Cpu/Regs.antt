-- ===== src/Cpu/Regs.antt =====
-- The general registers: crates/rustyn64-cpu/src/regs.rs.
use rusty_n.Base.{ℕ, bit_and, ◌==◌, if◌then◌else◌}
use rusty_n.Cpu.Cop0.{update}

pub record Regs : Type 0 where
  pub gpr : ℕ → ℕ
  pub hi : ℕ
  pub lo : ℕ

pub new : Regs
new = record { gpr = λ n. 0; hi = 0; lo = 0 }

pub read : Regs → ℕ → ℕ
read r i = let n = bit_and i 31 in if n == 0 then 0 else r.gpr n

pub write : Regs → ℕ → ℕ → Regs
write r i v = let n = bit_and i 31 in if n == 0 then r else record r { gpr = update r.gpr n v }
