-- ===== src/Core/Bus/Devices.antt =====
-- The chips on the system bus: their registers with the interrupt lines, and the transfers between
-- them: crates/rustyn64-core/src/bus.rs.
use rusty_n.Base.{ℕ, zero, suc, ◌-◌, ◌*◌, ◌/◌, ◌^◌, bit_and, bit_or}
use rusty_n.Base.{Bool, true, false, Option, none, some, List, [], ◌∷◌}
use rusty_n.Base.{◌==◌, ltb, if◌then◌else◌, add32}
use rusty_n.Rsp.Sp.{Dma}
use rusty_n.Rsp.Sp as Sp
use rusty_n.Rsp.Su.{update}
use rusty_n.Rsp.Vu.Cop2 as Cop2
use rusty_n.Rdp.{Rdp}
use rusty_n.Rdp as Rdp
use rusty_n.Cart.Pi.{Pi, Transfer}
use rusty_n.Cart.Pi as Pi
use rusty_n.Cart.Pif as Pif
use rusty_n.Cart.Pif.Frames as Frames
use rusty_n.Cart.Rom.{Cart}
use rusty_n.Cart.Rom as Rom
use rusty_n.Core.Vi.{Vi}
use rusty_n.Core.Vi as Vi
use rusty_n.Audio.{Audio, AiIrq}
use rusty_n.Audio as Audio
use rusty_n.Core.Bus.{
  Bus, MiInterrupt, rdram_offset, mem_read, mem_write, digit, with_intr, rdram_write, rdram_read,
}

-- A transfer between the main memory and the memories of the SP: the bus with the two pointers.
pub record Moving (G : Type 0) : Type 0 where
  pub bus : Bus G
  pub mem : ℕ
  pub dram : ℕ

-- A line raised or lowered by a chip.
abbrev set_sp : Option Bool → MiInterrupt → MiInterrupt
set_sp none l = l
set_sp (some raise) l = record l { sp = raise }

abbrev set_ai : AiIrq → MiInterrupt → MiInterrupt
set_ai AiIrq.no_irq l = l
set_ai AiIrq.raise l = record l { ai = true }
set_ai AiIrq.lower l = record l { ai = false }

module _ {G : Type 0} where
  abbrev move_byte : Bool → Bus G → ℕ → ℕ → Option ℕ → Bus G
  move_byte to_dram b m dram none = b
  move_byte to_dram b m dram (some off) =
      if to_dram
      then record b { rdram = update b.rdram off (mem_read b.rsp m) }
      else record b { rsp = mem_write b.rsp m (b.rdram off) }

  pub dma_bytes : Dma → ℕ → Moving G → Moving G
  dma_bytes dma zero w = w
  dma_bytes dma (suc n) w =
      let at = bit_or (bit_and dma.sp_addr 0x1000) (bit_and w.mem 0xfff) in
      dma_bytes dma n (record {
        bus = move_byte dma.to_dram w.bus at w.dram (rdram_offset w.dram);
        mem = add32 w.mem 1;
        dram = add32 w.dram 1;
      })

  pub dma_rows : Dma → ℕ → Moving G → Moving G
  dma_rows dma zero w = w
  dma_rows dma (suc n) w =
      let row = dma_bytes dma dma.row_len w in
      dma_rows dma n (record row { dram = add32 row.dram dma.skip })

  pub sp_dma : Bus G → Dma → Bus G
  sp_dma b dma =
      let bank = bit_and dma.sp_addr 0x1000 in
      let done =
        dma_rows dma dma.rows
          (record { bus = b; mem = bit_and dma.sp_addr 0xfff; dram = dma.ram_addr }) in
      let at = bit_or bank (bit_and done.mem 0xfff) in
      record done.bus {
        rsp = record done.bus.rsp {
          sp = Sp.complete_dma done.bus.rsp.sp at (bit_and done.dram 0x00ff_ffff);
        };
      }

  abbrev run_dma : Bus G → Option Dma → Bus G
  run_dma b none = b
  run_dma b (some dma) = sp_dma b dma

  unfoldable pub sp_register_write : Bus G → ℕ → ℕ → Bus G
  sp_register_write b addr val =
      let index = bit_and (addr / 4) 7 in
      let lines = b.rcp.mi_intr in
      let raised =
        with_intr b (if index == 4 then set_sp (Sp.interrupt_change val) lines else lines) in
      let (sp, dma) = Sp.write raised.rsp.sp index val in
      run_dma (record raised { rsp = record raised.rsp { sp = sp } }) dma

  unfoldable pub ai_write : Bus G → ℕ → ℕ → Bus G
  ai_write b addr val =
      let (audio, irq) = Audio.write_reg b.audio (bit_and (addr / 4) 7) val in
      with_intr (record b { audio = audio }) (set_ai irq b.rcp.mi_intr)

  unfoldable pub vi_write : Bus G → ℕ → ℕ → Bus G
  vi_write b addr val =
      let (vi, acknowledged) = Vi.write b.vi (addr / 4) val in
      let lines = b.rcp.mi_intr in
      with_intr (record b { vi = vi }) (if acknowledged then record lines { vi = false } else lines)

  -- The bytes of a list stored from an address on.
  pub store_bytes : Bus G → ℕ → List ℕ → Bus G
  store_bytes b addr [] = b
  store_bytes b addr (v ∷ rest) = store_bytes (rdram_write b addr v) (add32 addr 1) rest

  pub load_bytes : Bus G → ℕ → ℕ → List ℕ
  load_bytes b addr zero = []
  load_bytes b addr (suc n) = rdram_read b addr ∷ load_bytes b (add32 addr 1) n

  pub si_read : Bus G → ℕ → ℕ
  si_read b addr =
      let r = bit_and addr 0x1c in
      if r == 0 then b.si_dram_addr else if r == 0x18 then digit b.rcp.mi_intr.si * 2 ^ 12 else 0

  -- The PIF answers its frames, and the memory gets its RAM; or the other way round.
  unfoldable pub si_write : Bus G → ℕ → ℕ → Bus G
  si_write b addr val =
      let r = bit_and addr 0x1c in
      let lines = b.rcp.mi_intr in
      let (pif, save) = Frames.execute b.cart.pif b.controllers b.cart.save in
      let answered = record b { cart = record b.cart { pif = pif; save = save } } in
      let loaded = Pif.load b.cart.pif (load_bytes b b.si_dram_addr Pif.pif_ram_len) in
      if r == 0
      then record b { si_dram_addr = bit_and val 0x00ff_ffff }
      else if r == 4
      then with_intr (store_bytes answered b.si_dram_addr pif.ram) (record lines { si = true })
      else if r == 0x10
      then with_intr (record b { cart = record b.cart { pif = loaded } })
          (record lines { si = true })
      else if r == 0x18
      then with_intr b (record lines { si = false })
      else b

  unfoldable pub pi_tick : Bus G → Bus G
  pi_tick b = record b { pi_write_countdown = b.pi_write_countdown - 1 }

  unfoldable pub pi_io_busy : Bus G → Bool
  pi_io_busy b = ltb 0 b.pi_write_countdown

  -- The first `n` bytes of a transfer of the peripheral interface, in order.
  unfoldable pub transfer_bytes : Bus G → Transfer → ℕ → Bus G
  transfer_bytes b t zero = b
  transfer_bytes b t (suc n) =
      let before = transfer_bytes b t n in
      let cart_addr = add32 t.cart n in
      let dram_addr = add32 t.dram n in
      if t.to_dram
      then rdram_write before dram_addr (Rom.pi_read before.cart cart_addr)
      else record before { cart = Rom.pi_write before.cart cart_addr (rdram_read before dram_addr) }

  -- The interrupt of the peripheral interface is mirrored in the line of the MI.
  abbrev mirror_pi : Bus G → Bus G
  mirror_pi b = with_intr b (record b.rcp.mi_intr { pi = b.pi.interrupt })

  abbrev run_transfer : Bus G → Option Transfer → Bus G
  run_transfer b none = b
  run_transfer b (some t) =
      let moved = transfer_bytes b t t.len in mirror_pi (record moved { pi = Pi.complete moved.pi })

  unfoldable pub pi_write_word : Bus G → ℕ → ℕ → Bus G
  pi_write_word b addr val =
      let (pi, started) = Pi.write b.pi addr val in
      run_transfer (mirror_pi (record b { pi = pi })) started

  -- A step of the signal processor, with what it asks of the bus.
  abbrev forward_dp : Bus G → Option (ℕ × ℕ) → Bus G
  forward_dp b none = b
  forward_dp b (some (off, val)) = record b { rdp = Rdp.dpc_write b.rdp off val }

  pub rsp_tick : Bus G → Bus G
  rsp_tick b =
      let (rsp, out) = Cop2.step b.rsp in
      let raised = with_intr (record b { rsp = rsp }) (set_sp out.interrupt_change b.rcp.mi_intr) in
      forward_dp (run_dma raised out.dma) out.dp_write

  -- The boot handshake of the PIF, after a write of its command byte.
  pub pif_boot_command_if_cmd : Bus G → ℕ → Bus G
  pif_boot_command_if_cmd b off =
      let (pif, halt) = Pif.boot_command b.cart.pif in
      if off == Pif.cmd_byte
      then record b {
        cart = record b.cart { pif = pif };
        boot_nmi_halt = if halt then true else b.boot_nmi_halt;
      }
      else b

  pub reset_boot_latches : Bus G → Bus G
  reset_boot_latches b = record b {
    boot_nmi_halt = false;
    cart = record b.cart { pif = Pif.reset_boot b.cart.pif };
  }
