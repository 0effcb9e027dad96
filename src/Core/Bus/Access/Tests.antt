-- ===== src/Core/Bus/Access/Tests.antt =====
-- Tests of the system bus's model.
use rusty_n.Base.{ℕ, ◌+◌, ◌-◌, ◌*◌, ◌^◌, ◌≡◌, refl, arith, none, true, false, [], ◌∷◌}
use rusty_n.Base.{◌==◌, ◌&&◌, leb, ltb, if◌then◌else◌, any_set, bit, add32}
use rusty_n.Rsp.Sp
use rusty_n.Rsp.Vu
use rusty_n.Cart.Pi
use rusty_n.Cart.Pi.{pi_wr_len}
use rusty_n.Cart.Pif
use rusty_n.Cart.Save
use rusty_n.Cart.Save.{SaveType}
use rusty_n.Cart.Rom.{Cic, pi_read}
use rusty_n.Core.Vi
use rusty_n.Audio
use rusty_n.Core.Bus.{Bus, no_lines, poll_irq}
use rusty_n.Core.Bus.Access.{read_u8, read_u32}
use rusty_n.Core.Bus.Access.Store.{write_u32}
use rusty_n.Core.Bus.Access.Memory.{read-write_word}
use rusty_n.Core.Bus.Access.Dma.{wr_len_lem}
use rusty_n.Core.Bus.Access.Interrupts.{read-write_mask, acknowledge}

-- A machine with a small image, whose peripheral interface stands at 0x100 and 0x1000_0002, and
-- which lets the interrupts of the interfaces PI and VI through.
abbrev machine : Bus ℕ
machine = record {
  rdram = λ n. 0;
  rsp = record {
    su_regs = λ n. 0;
    dmem = λ n. 0;
    imem = λ n. 0;
    sp = Sp.new;
    dp = λ n. 0;
    branch = none;
    vu = Vu.new;
  };
  rdp = record {
    cmd_start = 0;
    cmd_end = 0;
    cmd_current = 0;
    status = 0;
    stall = 0;
    commands_processed = 0;
    rest = 0;
  };
  vi = Vi.new;
  audio = Audio.new;
  cart = record {
    rom = 1 ∷ 2 ∷ 3 ∷ 4 ∷ 5 ∷ [];
    header = record { title = []; game_code = []; save_type = SaveType.no_save; cic = Cic.cic6102 };
    save = Save.new SaveType.no_save;
    pif = Pif.new;
  };
  pi = record Pi.new { dram_addr = 0x100; cart_addr = 0x1000_0002 };
  rcp = record {
    mi_intr = record no_lines { vi = true; ai = true };
    mi_mask = record no_lines { pi = true; vi = true };
    mi_mode = 0;
    ri = [];
  };
  controllers = [];
  isviewer = [];
  isviewer_out = [];
  pi_write_latch = 0;
  pi_write_countdown = 0;
  si_dram_addr = 0;
  boot_nmi_halt = false;
}

abbrev stored : Bus ℕ
stored = write_u32 machine 0x1000_0000 77

-- Three bytes, of which the second is looked at.
wr_len_lem_example :
    ((write_u32 machine pi_wr_len 2).rdram 0x101 ≡ (
      if leb 0x100 0x101 && ltb 0x101 (0x100 + 3)
      then pi_read machine.cart (add32 0x1000_0002 (0x101 - 0x100))
      else 0))
    × ((write_u32 machine pi_wr_len 2).cart ≡ machine.cart)
    × ((write_u32 machine pi_wr_len 2).rcp.mi_intr.pi ≡ true)
    × (machine.rcp.mi_mask.pi ≡ true → poll_irq (write_u32 machine pi_wr_len 2) ≡ true)
wr_len_lem_example = wr_len_lem machine 2 0x101 (omega arith)

-- A value that sets the line of the SP and clears that of the VI.
read-write_mask_example : bit 3 (read_u32 (write_u32 machine 0x0430_000c 0x42) 0x0430_000c).1 ≡ (
    if bit (3 * 2 + 1) 0x42 == 1
    then 1
    else if bit (3 * 2) 0x42 == 1
    then 0
    else bit 3 (read_u32 machine 0x0430_000c).1)
read-write_mask_example = read-write_mask machine 0x42 3 (omega arith)

acknowledge_example :
    ((write_u32 machine 0x0440_0010 0x808).rcp.mi_intr ≡ record machine.rcp.mi_intr { vi = false })
    × ((write_u32 machine 0x0450_000c 0x808).rcp.mi_intr
        ≡ record machine.rcp.mi_intr { ai = false })
    × ((write_u32 machine 0x0480_0018 0x808).rcp.mi_intr
        ≡ record machine.rcp.mi_intr { si = false })
    × (any_set 0x808 (2 ^ 11) ≡ true
        → (write_u32 machine 0x0430_0000 0x808).rcp.mi_intr
          ≡ record machine.rcp.mi_intr { dp = false })
    × (any_set 0x808 (2 ^ 1) ≡ true
        → (write_u32 machine 0x0460_0010 0x808).rcp.mi_intr
          ≡ record machine.rcp.mi_intr { pi = false })
    × (any_set 0x808 (2 ^ 3) ≡ true
        → any_set 0x808 (2 ^ 4) ≡ false
        → (write_u32 machine 0x0404_0010 0x808).rcp.mi_intr
          ≡ record machine.rcp.mi_intr { sp = false })
acknowledge_example = acknowledge machine 0x808

read-write_word_example :
    ((read_u32 (write_u32 machine 0x100 0x1234_5678) 0x104).1 ≡ (read_u32 machine 0x104).1)
    × ((read_u8 (write_u32 machine 0x100 0x1234_5678) 0x102).1 ≡ 0x56)
read-write_word_example =
    read-write_word machine 0x100 0x104 0x1234_5678 2 refl refl (omega arith) (omega arith)
      (omega arith) (omega arith)
