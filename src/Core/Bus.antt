-- ===== src/Core/Bus.antt =====
-- The system bus: crates/rustyn64-core/src/bus.rs. The chips and their registers are here, with the
-- interrupt lines of the MI; the child `Devices` has the transfers between the chips, and `Access`
-- the loads and stores of the processor. The main memory is a function of the offset. The picture that the
-- video interface scans out, the captures for the GPU path and the work counters are left out. `G`
-- is the part of the display processor behind its registers.
pub mod Devices
pub mod Access
use rusty_n.Base.{ℕ, zero, suc, ◌+◌, ◌-◌, ◌*◌, ◌/◌, ◌%◌, ◌^◌, bit_and, bit_or}
use rusty_n.Base.{Bool, true, false, Option, none, some, List, [], ◌∷◌, ◌&&◌, ◌||◌, not}
use rusty_n.Base.{◌==◌, ltb, leb, if◌then◌else◌, any_set, u8, add32, sub32, not32, get_or, set}
use rusty_n.Base.{read_block}
use rusty_n.Rsp.Sp.{Dma}
use rusty_n.Rsp.Sp as Sp
use rusty_n.Rsp.Su.{StepResult, update}
use rusty_n.Rsp.Vu.{Rsp}
use rusty_n.Rsp.Vu.Cop2 as Cop2
use rusty_n.Rdp.{Rdp}
use rusty_n.Rdp as Rdp
use rusty_n.Cart.Pi.{Pi, Transfer}
use rusty_n.Cart.Pi as Pi
use rusty_n.Cart.Pif as Pif
use rusty_n.Cart.Pif.Frames as Frames
use rusty_n.Cart.Rom.{Cart}
use rusty_n.Cart.Rom as Rom
use rusty_n.Core.Vi.{Vi}
use rusty_n.Core.Vi as Vi
use rusty_n.Audio.{Audio, AiIrq}
use rusty_n.Audio as Audio

abbrev pub rdram_size : ℕ
rdram_size = 8 * 1024 * 1024

pub record MiInterrupt : Type 0 where
  pub sp : Bool
  pub si : Bool
  pub ai : Bool
  pub vi : Bool
  pub pi : Bool
  pub dp : Bool

abbrev pub no_lines : MiInterrupt
no_lines = record { sp = false; si = false; ai = false; vi = false; pi = false; dp = false }

abbrev pub digit : Bool → ℕ
digit b = if b then 1 else 0

pub pack_mi : MiInterrupt → ℕ
pack_mi l =
    bit_or
      (bit_or
        (bit_or (bit_or (bit_or (digit l.sp) (digit l.si * 2)) (digit l.ai * 4)) (digit l.vi * 8))
        (digit l.pi * 16))
      (digit l.dp * 32)

pub any : MiInterrupt → Bool
any l = l.sp || (l.si || (l.ai || (l.vi || (l.pi || l.dp))))

pub record RcpRegs : Type 0 where
  pub mi_intr : MiInterrupt
  pub mi_mask : MiInterrupt
  pub mi_mode : ℕ
  pub ri : List ℕ

pub record Bus (G : Type 0) : Type 0 where
  pub rdram : ℕ → ℕ
  pub rsp : Rsp
  pub rdp : Rdp G
  pub vi : Vi
  pub audio : Audio
  pub cart : Cart
  pub pi : Pi
  pub rcp : RcpRegs
  pub controllers : List ℕ
  pub isviewer : List ℕ
  pub isviewer_out : List ℕ
  pub pi_write_latch : ℕ
  pub pi_write_countdown : ℕ
  pub si_dram_addr : ℕ
  pub boot_nmi_halt : Bool

abbrev pub pi_write_cycles : ℕ
pi_write_cycles = 100

abbrev pub mi_version_value : ℕ
mi_version_value = 0x0202_0102

abbrev pub spmem_base : ℕ
spmem_base = 0x0400_0000

abbrev pub pif_rom_base : ℕ
pif_rom_base = 0x1fc0_0000

abbrev pub pif_ram_base : ℕ
pif_ram_base = 0x1fc0_07c0

abbrev pub isviewer_base : ℕ
isviewer_base = 0x13ff_0000

-- An address of the processor in the main memory.
pub rdram_offset : ℕ → Option ℕ
rdram_offset addr =
    let phys = bit_and addr 0x1fff_ffff in if ltb phys rdram_size then some phys else none

-- A byte of the data or of the instruction memory as the processor sees it.
pub mem_read : Rsp → ℕ → ℕ
mem_read s off =
    let at = bit_and off 0x1fff in
    if any_set at 0x1000 then s.imem (bit_and at 0xfff) else s.dmem (bit_and at 0xfff)

pub mem_write : Rsp → ℕ → ℕ → Rsp
mem_write s off val =
    let at = bit_and off 0x1fff in
    if any_set at 0x1000
    then record s { imem = update s.imem (bit_and at 0xfff) val }
    else record s { dmem = update s.dmem (bit_and at 0xfff) val }

-- `set_line val n line`: a line of the mask after a write, cleared first and set then.
pub set_line : ℕ → ℕ → Bool → Bool
set_line val n line =
    if any_set val (2 ^ (n * 2 + 1))
    then true
    else if any_set val (2 ^ (n * 2))
    then false
    else line

pub write_mask : ℕ → MiInterrupt → MiInterrupt
write_mask val m = record {
  sp = set_line val 0 m.sp;
  si = set_line val 1 m.si;
  ai = set_line val 2 m.ai;
  vi = set_line val 3 m.vi;
  pi = set_line val 4 m.pi;
  dp = set_line val 5 m.dp;
}

-- The memory at an offset.
abbrev poke_at : (ℕ → ℕ) → Option ℕ → ℕ → ℕ → ℕ
poke_at mem none val = mem
poke_at mem (some off) val = update mem off val

abbrev peek_at : (ℕ → ℕ) → Option ℕ → ℕ
peek_at mem none = 0
peek_at mem (some off) = mem off

module _ {G : Type 0} where
  -- The bus with other interrupt lines.
  abbrev pub with_intr : Bus G → MiInterrupt → Bus G
  with_intr b lines = record b { rcp = record b.rcp { mi_intr = lines } }

  -- A byte of the main memory; outside it a store does nothing, and a load gives 0.
  pub rdram_write : Bus G → ℕ → ℕ → Bus G
  rdram_write b addr val = record b { rdram = poke_at b.rdram (rdram_offset addr) val }

  pub rdram_read : Bus G → ℕ → ℕ
  rdram_read b addr = peek_at b.rdram (rdram_offset addr)

  pub mi_read : Bus G → ℕ → ℕ
  mi_read b addr =
      let i = bit_and (addr / 4) 3 in
      if i == 0
      then b.rcp.mi_mode
      else if i == 1
      then mi_version_value
      else if i == 2
      then pack_mi b.rcp.mi_intr
      else pack_mi b.rcp.mi_mask

  pub mi_write : Bus G → ℕ → ℕ → Bus G
  mi_write b addr val =
      let i = bit_and (addr / 4) 3 in
      let lines = b.rcp.mi_intr in
      if i == 0
      then record b {
        rcp = record b.rcp {
          mi_mode = bit_or (bit_and b.rcp.mi_mode (not32 0x7f)) (bit_and val 0x7f);
          mi_intr = if any_set val (2 ^ 11) then record lines { dp = false } else lines;
        };
      }
      else if i == 3
      then record b { rcp = record b.rcp { mi_mask = write_mask val b.rcp.mi_mask } }
      else b

  -- Whether the processor sees an interrupt.
  pub poll_irq : Bus G → Bool
  poll_irq b =
      let i = b.rcp.mi_intr in
      let m = b.rcp.mi_mask in
      (i.sp && m.sp)
      || ((i.si && m.si)
          || ((i.ai && m.ai) || ((i.vi && m.vi) || ((i.pi && m.pi) || (i.dp && m.dp)))))

  pub raise_dp_interrupt : Bus G → Bus G
  raise_dp_interrupt b = with_intr b (record b.rcp.mi_intr { dp = true })
