-- ===== src/Core/Bus/Access/Store.antt =====
-- The stores of the processor on the system bus: write_u8, write_u32 and write_sized of
-- crates/rustyn64-core/src/bus.rs.
use rusty_n.Base.{ℕ, ◌+◌, ◌-◌, ◌*◌, ◌/◌, ◌^◌, bit_and, bit_or}
use rusty_n.Base.{Option, none, some, [], ◌∷◌, ◌++◌, ◌&&◌, ◌||◌, not, min}
use rusty_n.Base.{◌==◌, ltb, leb, if◌then◌else◌, u8, u32, add32, not32, set}
use rusty_n.Base.{read_block, write_block, length}
use rusty_n.Rsp.Sp as Sp
use rusty_n.Rsp.Su.{update}
use rusty_n.Rdp as Rdp
use rusty_n.Cart.Pi as Pi
use rusty_n.Cart.Pif as Pif
use rusty_n.Cart.Rom.{byte_of_word}
use rusty_n.Cart.Rom as Rom
use rusty_n.Core.Bus.{
  Bus, rdram_size, spmem_base, pif_ram_base, isviewer_base, pi_write_cycles, rdram_offset,
  mem_write, mi_write,
}
use rusty_n.Core.Bus.Devices.{
  sp_register_write, ai_write, vi_write, si_write, pi_io_busy, pi_write_word,
  pif_boot_command_if_cmd,
}
use rusty_n.Core.Bus.Access.{
  is_pi_register, is_mi_register, is_sp_register, is_dp_register, is_vi_register, is_ai_register,
  is_ri_register, is_pif, is_spmem, is_rcp_internal, is_isviewer, is_pi_bus, sp_pc, word_of,
  is_register,
}

abbrev pub isviewer_len : ℕ
isviewer_len = 0x1000

abbrev shift_of : ℕ → ℕ
shift_of addr = 8 * (3 - bit_and addr 3)

module _ {G : Type 0} where
  pub pif_write : Bus G → ℕ → ℕ → Bus G
  pif_write b off val = record b { cart = record b.cart { pif = Pif.write b.cart.pif off val } }

  -- A byte stored outside the main memory. The length registers and the status of the peripheral
  -- interface take whole words alone.
  unfoldable pub device_write_u8 : Bus G → ℕ → ℕ → Bus G
  device_write_u8 b addr val =
      let merged =
        bit_or (bit_and (Pi.read b.pi addr) (not32 (0xff * 2 ^ shift_of addr)))
          (val * 2 ^ shift_of addr) in
      let off = addr - pif_ram_base in
      if is_pi_register addr
      then (if (word_of addr == Pi.pi_dram_addr) || (word_of addr == Pi.pi_cart_addr)
          then pi_write_word b addr merged
          else b)
      else if is_spmem addr
      then record b { rsp = mem_write b.rsp (addr - spmem_base) val }
      else if is_isviewer addr
      then record b { isviewer = set b.isviewer (addr - isviewer_base) val }
      else if is_pif addr
      then (if leb pif_ram_base addr then pif_boot_command_if_cmd (pif_write b off val) off else b)
      else record b { cart = Rom.pi_write b.cart addr val }

  abbrev write_u8_at : Bus G → ℕ → ℕ → Option ℕ → Bus G
  write_u8_at b addr val (some off) = record b { rdram = update b.rdram off val }
  write_u8_at b addr val none = device_write_u8 b addr val

  unfoldable pub write_u8 : Bus G → ℕ → ℕ → Bus G
  write_u8 b addr val = write_u8_at b addr val (rdram_offset addr)

  pub write_bytes : Bus G → ℕ → ℕ → Bus G
  write_bytes b addr val =
      write_u8
        (write_u8
          (write_u8 (write_u8 b addr (byte_of_word val 0)) (add32 addr 1) (byte_of_word val 1))
          (add32 addr 2) (byte_of_word val 2))
        (add32 addr 3) (byte_of_word val 3)

  abbrev write_u32_at : Bus G → ℕ → ℕ → Option ℕ → Bus G
  write_u32_at b addr val none = write_bytes b addr val
  write_u32_at b addr val (some off) =
      if ltb (off + 3) rdram_size
      then record b {
        rdram =
            update
              (update
                (update (update b.rdram off (byte_of_word val 0)) (off + 1) (byte_of_word val 1))
                (off + 2) (byte_of_word val 2))
              (off + 3) (byte_of_word val 3);
      }
      else write_bytes b addr val

  -- A word on the bus of the cartridge, which takes no second word while the first is under way.
  unfoldable pub pi_bus_write : Bus G → ℕ → ℕ → Bus G
  pi_bus_write b addr val = if pi_io_busy b then b else record b {
    pi_write_latch = val;
    pi_write_countdown = pi_write_cycles;
    cart = Rom.pi_write_word b.cart addr val;
  }

  pub pif_write_word : Bus G → ℕ → ℕ → Bus G
  pif_write_word b addr val =
      let off = addr - pif_ram_base in
      let stored =
        pif_write
          (pif_write
            (pif_write (pif_write b off (byte_of_word val 0)) (off + 1) (byte_of_word val 1))
            (off + 2) (byte_of_word val 2))
          (off + 3) (byte_of_word val 3) in
      if leb pif_ram_base addr then pif_boot_command_if_cmd stored (off + 3) else b

  -- The length register of the debug port appends the text that its buffer holds.
  pub isviewer_write : Bus G → ℕ → ℕ → Bus G
  isviewer_write b addr val =
      let off = addr - isviewer_base in
      let bytes =
        byte_of_word val 0 ∷ byte_of_word val 1 ∷ byte_of_word val 2 ∷ byte_of_word val 3 ∷ [] in
      if addr == 0x13ff_0014
      then record b {
        isviewer_out = b.isviewer_out ++ read_block b.isviewer 0x20 (min val isviewer_len) 0;
      }
      else if leb (off + 4) (length b.isviewer)
      then record b { isviewer = write_block b.isviewer off bytes }
      else b

  -- A word in the window of the registers.
  unfoldable pub register_write : Bus G → ℕ → ℕ → Bus G
  register_write b addr val =
      if is_sp_register addr
      then sp_register_write b addr val
      else if is_mi_register addr
      then mi_write b addr val
      else if is_dp_register addr
      then record b { rdp = Rdp.dpc_write b.rdp (bit_and (addr / 4) 7) val }
      else if is_vi_register addr
      then vi_write b addr val
      else if is_ai_register addr
      then ai_write b addr val
      else if is_ri_register addr
      then record b { rcp = record b.rcp { ri = set b.rcp.ri (bit_and (addr / 4) 7) val } }
      else si_write b addr val

  unfoldable pub write_u32 : Bus G → ℕ → ℕ → Bus G
  write_u32 b addr val =
      if is_pi_bus addr && not (is_isviewer addr)
      then pi_bus_write b addr val
      else if is_sp_register addr || is_register addr
      then register_write b addr val
      else if is_pif addr
      then pif_write_word b addr val
      else if word_of addr == sp_pc
      then record b { rsp = record b.rsp { sp = Sp.set_pc b.rsp.sp val } }
      else if is_isviewer addr
      then isviewer_write b addr val
      else if is_pi_register addr
      then pi_write_word b addr val
      else write_u32_at b addr val (rdram_offset addr)

  -- A store of 1, 2, 4 or 8 bytes. The registers of the RCP ignore the size: they take a word.
  pub write_sized : Bus G → ℕ → ℕ → ℕ → Bus G
  write_sized b addr width value =
      let high = u32 (value / 2 ^ 32) in
      let lanes = 4 - width - bit_and addr 3 in
      let word =
        if width == 8
        then high
        else if width == 4
        then u32 value
        else u32 (u32 value * 2 ^ (8 * lanes)) in
      let byte = write_u8 b addr (u8 value) in
      let half = write_u8 (write_u8 b addr (u8 (value / 2 ^ 8))) (add32 addr 1) (u8 value) in
      let double = write_u32 (write_u32 b addr high) (add32 addr 4) (u32 value) in
      if (width == 1) || ((width == 2) || ((width == 4) || (width == 8)))
      then (if is_rcp_internal addr
          then write_u32 b (word_of addr) word
          else if width == 1
          then byte
          else if width == 2
          then half
          else if width == 4
          then write_u32 b addr (u32 value)
          else double)
      else b
