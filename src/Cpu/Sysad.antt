-- ===== src/Cpu/Sysad.antt =====
-- Transactions on the system interface: crates/rustyn64-cpu/src/sysad.rs.
pub mod Cycles
use rusty_n.Base.{ℕ, zero, suc, ◌+◌, ◌-◌, ◌*◌, ◌/◌, ◌%◌, ◌^◌, min, bit_and}
use rusty_n.Base.{Bool, true, false, ltb, ◌==◌, if◌then◌else◌, u32}

pub data Phase : Type 0 where
  address data_cycle : Phase

pub syscmd4 : Phase → Bool
syscmd4 address = false
syscmd4 data_cycle = true

pub data Width : Type 0 where
  single32 single64 block128 block256 : Width

pub bytes : Width → ℕ
bytes single32 = 4
bytes single64 = 8
bytes block128 = 16
bytes block256 = 32

pub beats : Width → ℕ
unfolding bytes
beats width = bytes width / 4

pub data BlockOrder : Type 0 where
  sequential sub_block : BlockOrder

pub block_order : Width → ℕ → BlockOrder
block_order block128 addr = if bit_and addr 0x10 == 0 then sequential else sub_block
block_order _ addr = sequential

pub record Transaction : Type 0 where
  pub addr : ℕ
  pub width : Width
  pub is_write : Bool
  pub phase : Phase
  pub remaining : ℕ

pub begin : ℕ → Width → Bool → Transaction
begin addr width is_write = record {
  addr = addr;
  width = width;
  is_write = is_write;
  phase = address;
  remaining = 1;
}

-- The end of a phase: the address phase leads to the data phase, which ends the transaction.
pub end_phase : Phase → Transaction → ℕ → Transaction × Bool
end_phase address t service_cycles = (
  record t { phase = data_cycle; remaining = min (service_cycles + beats t.width) (2 ^ 32 - 1) },
  false,
)
end_phase data_cycle t service_cycles = (t, true)

pub step : Transaction → ℕ → Transaction × Bool
step t service_cycles =
    let counted = record t { remaining = t.remaining - 1 } in
    if ltb 0 counted.remaining then (counted, false) else end_phase t.phase counted service_cycles

pub total_cycles : Width → ℕ → ℕ
total_cycles width service_cycles = u32 (1 + service_cycles + beats width)
