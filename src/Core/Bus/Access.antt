-- ===== src/Core/Bus/Access.antt =====
-- The memory map and the loads of the processor on the system bus, CpuBus for Bus in
-- crates/rustyn64-core/src/bus.rs; the child `Store` has the stores.
pub mod Store
pub mod Latch
mod Tests
pub mod Interrupts
pub mod Dma
pub mod Memory
use rusty_n.Base.{ℕ, zero, suc, ◌+◌, ◌-◌, ◌*◌, ◌/◌, ◌%◌, ◌^◌, bit_and, bit_or}
use rusty_n.Base.{Bool, true, false, Option, none, some, List, [], ◌∷◌, ◌++◌, ◌&&◌, ◌||◌, not, min}
use rusty_n.Base.{◌==◌, ltb, leb, if◌then◌else◌, any_set, u8, u32, add32, not32, get_or, set}
use rusty_n.Base.{read_block, write_block, length}
use rusty_n.Rsp.Sp as Sp
use rusty_n.Rsp.Su.{update}
use rusty_n.Rdp as Rdp
use rusty_n.Cart.Pi as Pi
use rusty_n.Cart.Pif as Pif
use rusty_n.Cart.Rom.{byte_of_word}
use rusty_n.Cart.Rom as Rom
use rusty_n.Core.Vi as Vi
use rusty_n.Audio as Audio
use rusty_n.Core.Bus.{
  Bus, rdram_size, spmem_base, pif_rom_base, pif_ram_base, isviewer_base, pi_write_cycles,
  rdram_offset, mem_read, mem_write, mi_read, mi_write,
}
use rusty_n.Core.Bus.Devices.{
  sp_register_write, ai_write, vi_write, si_read, si_write, pi_io_busy, pi_write_word,
  pif_boot_command_if_cmd,
}

-- The windows of the memory map.
abbrev within : ℕ → ℕ → ℕ → Bool
within from to addr = leb from addr && ltb addr to

pub is_mi_register : ℕ → Bool
is_mi_register addr = within 0x0430_0000 0x0440_0000 addr

pub is_sp_register : ℕ → Bool
is_sp_register addr = within 0x0404_0000 0x0404_0020 addr

pub is_dp_register : ℕ → Bool
is_dp_register addr = within 0x0410_0000 0x0410_0020 addr

pub is_vi_register : ℕ → Bool
is_vi_register addr = within 0x0440_0000 0x0450_0000 addr

pub is_ai_register : ℕ → Bool
is_ai_register addr = within 0x0450_0000 0x0460_0000 addr

pub is_ri_register : ℕ → Bool
is_ri_register addr = within 0x0470_0000 0x0480_0000 addr

pub is_si_register : ℕ → Bool
is_si_register addr = within 0x0480_0000 0x0490_0000 addr

pub is_pif : ℕ → Bool
is_pif addr = within 0x1fc0_0000 0x1fc0_0800 addr

pub is_spmem : ℕ → Bool
is_spmem addr = within 0x0400_0000 0x0404_0000 addr

pub is_rcp_internal : ℕ → Bool
is_rcp_internal addr = within 0x0400_0000 0x0500_0000 addr

pub is_isviewer : ℕ → Bool
is_isviewer addr = within 0x13ff_0000 0x13ff_1020 addr

pub is_pi_bus : ℕ → Bool
is_pi_bus addr = within 0x0500_0000 0x1fc0_0000 addr || within 0x1fd0_0000 0x8000_0000 addr

pub is_pi_register : ℕ → Bool
is_pi_register addr = within 0x0460_0000 0x0460_0034 addr

abbrev pub sp_pc : ℕ
sp_pc = 0x0408_0000

-- `addr & !3`
abbrev pub word_of : ℕ → ℕ
word_of addr = bit_and addr (not32 3)

-- The byte of a word at an address, the highest at the lowest address.
abbrev pub lane : ℕ → ℕ → ℕ
lane word addr = byte_of_word word (bit_and addr 3)

-- A word from its bytes, the highest first.
abbrev pub be_word : ℕ → ℕ → ℕ → ℕ → ℕ
be_word a b c d = ((a * 2 ^ 8 + b) * 2 ^ 8 + c) * 2 ^ 8 + d

pub pi_bus_byte : ℕ → ℕ
pi_bus_byte addr = if any_set addr 2 then add32 addr 2 else addr

abbrev pub is_register : ℕ → Bool
is_register addr =
    is_mi_register addr
    || (is_dp_register addr
        || (is_vi_register addr
            || (is_ai_register addr || (is_ri_register addr || is_si_register addr))))

module _ {G : Type 0} where
  -- A register of the SP; the read of the semaphore takes it.
  pub sp_read : Bus G → ℕ → Bus G × ℕ
  sp_read b addr =
      let (sp, v) = Sp.read b.rsp.sp (bit_and (addr / 4) 7) in
      (record b { rsp = record b.rsp { sp = sp } }, v)

  -- The byte `i` places after an address in the window of the PIF.
  pub pif_byte_of : Bus G → ℕ → ℕ → ℕ
  pif_byte_of b base i =
      if leb pif_ram_base base
      then Pif.read b.cart.pif (base - pif_ram_base + i)
      else Pif.boot_rom_read b.cart.pif (base - pif_rom_base + i)

  pub pif_byte : Bus G → ℕ → ℕ
  pif_byte b addr =
      if leb pif_ram_base addr
      then Pif.read b.cart.pif (addr - pif_ram_base)
      else Pif.boot_rom_read b.cart.pif (addr - pif_rom_base)

  -- The word of a device register that a read does not change.
  pub register_read : Bus G → ℕ → ℕ
  register_read b addr =
      if is_mi_register addr
      then mi_read b addr
      else if is_dp_register addr
      then Rdp.dpc_read b.rdp (bit_and (addr / 4) 7)
      else if is_vi_register addr
      then Vi.read b.vi (addr / 4)
      else if is_ai_register addr
      then Audio.read_reg b.audio (bit_and (addr / 4) 7)
      else if is_ri_register addr
      then get_or b.rcp.ri (bit_and (addr / 4) 7) 0
      else si_read b addr

  pub pi_word : Bus G → ℕ → ℕ
  pi_word b addr =
      let w = Pi.read b.pi addr in
      if (word_of addr == Pi.pi_status) && pi_io_busy b then bit_or w 2 else w

  pub pi_bus_read : Bus G → ℕ → ℕ
  pi_bus_read b addr =
      if pi_io_busy b then lane b.pi_write_latch addr else Rom.pi_read b.cart (pi_bus_byte addr)

  -- A byte that is not of the main memory.
  pub device_u8 : Bus G → ℕ → Bus G × ℕ
  device_u8 b addr =
      let (taken, word) = sp_read b addr in
      if is_pi_register addr
      then (b, lane (pi_word b addr) addr)
      else if is_spmem addr
      then (b, mem_read b.rsp (addr - spmem_base))
      else if is_sp_register addr
      then (taken, lane word addr)
      else if is_register addr
      then (b, lane (register_read b addr) addr)
      else if is_pif addr
      then (b, pif_byte b addr)
      else if word_of addr == sp_pc
      then (b, lane b.rsp.sp.pc addr)
      else if is_isviewer addr
      then (b, get_or b.isviewer (addr - isviewer_base) 0)
      else if is_pi_bus addr
      then (b, pi_bus_read b addr)
      else (b, Rom.pi_read b.cart addr)

  abbrev u8_at : Bus G → ℕ → Option ℕ → Bus G × ℕ
  u8_at b addr (some off) = (b, b.rdram off)
  u8_at b addr none = device_u8 b addr

  pub read_u8 : Bus G → ℕ → Bus G × ℕ
  read_u8 b addr = u8_at b addr (rdram_offset addr)

  -- Four bytes one after the other.
  pub read_bytes : Bus G → ℕ → Bus G × ℕ
  read_bytes b addr =
      let (b1, v1) = read_u8 b addr in
      let (b2, v2) = read_u8 b1 (add32 addr 1) in
      let (b3, v3) = read_u8 b2 (add32 addr 2) in
      let (b4, v4) = read_u8 b3 (add32 addr 3) in (b4, be_word v1 v2 v3 v4)

  abbrev u32_at : Bus G → ℕ → Option ℕ → Bus G × ℕ
  u32_at b addr none = read_bytes b addr
  u32_at b addr (some off) =
      let word =
        be_word (b.rdram off) (b.rdram (off + 1)) (b.rdram (off + 2)) (b.rdram (off + 3)) in
      if leb (off + 4) rdram_size then (b, word) else read_bytes b addr

  pub read_u32 : Bus G → ℕ → Bus G × ℕ
  read_u32 b addr =
      let pi_byte : ℕ → ℕ = λ i. Rom.pi_read b.cart (add32 addr i) in
      if is_pi_bus addr && not (is_isviewer addr)
      then (if pi_io_busy b
          then (b, b.pi_write_latch)
          else (b, be_word (Rom.pi_read b.cart addr) (pi_byte 1) (pi_byte 2) (pi_byte 3)))
      else if is_sp_register addr
      then sp_read b addr
      else if is_register addr
      then (b, register_read b addr)
      else if is_pif addr
      then (
        b,
        be_word (pif_byte b addr) (pif_byte_of b addr 1) (pif_byte_of b addr 2)
            (pif_byte_of b addr 3),
      )
      else u32_at b addr (rdram_offset addr)
