-- ===== src/Cpu/Alu/Stall.antt =====
-- The cycles that a multiplication or division stalls for: `MulDiv` of crates/rustyn64-cpu/src/alu.rs.
use rusty_n.Base.{ℕ}

pub data MulDiv : Type 0 where
  mult multu div divu dmult dmultu ddiv ddivu : MulDiv

pub muldiv_stall_cycles : MulDiv → ℕ
muldiv_stall_cycles MulDiv.mult = 5
muldiv_stall_cycles MulDiv.multu = 5
muldiv_stall_cycles MulDiv.div = 37
muldiv_stall_cycles MulDiv.divu = 37
muldiv_stall_cycles MulDiv.dmult = 8
muldiv_stall_cycles MulDiv.dmultu = 8
muldiv_stall_cycles MulDiv.ddiv = 69
muldiv_stall_cycles MulDiv.ddivu = 69
