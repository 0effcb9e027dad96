-- ===== src/Core/Bus/Access/Interrupts.antt =====
-- The interrupt lines of the MI as the processor sees them: poll_irq, mi_read, mi_write and the
-- acknowledgements of crates/rustyn64-core/src/bus.rs.
use rusty_n.Base.{ℕ, zero, suc, ◌+◌, ◌*◌, ◌^◌, ◌<◌, ◌≡◌, refl, ap, ◌∙◌, arith}
use rusty_n.Base.{Bool, true, false, ◌==◌, if◌then◌else◌, any_set, bit}
use rusty_n.Base.{any_set_pow}
use rusty_n.Rsp.Sp.{interrupt_change}
use rusty_n.Rsp.Sp as Sp
use rusty_n.Cart.Pi as Pi
use rusty_n.Core.Vi as Vi
use rusty_n.Audio.{write_reg}
use rusty_n.Core.Bus.{Bus, MiInterrupt, digit, pack_mi, set_line, write_mask, mi_read, mi_write}
use rusty_n.Core.Bus.Devices.{ai_write, vi_write, si_write, sp_register_write, pi_write_word}
use rusty_n.Core.Bus.Access.{
  read_u32, register_read, is_pi_bus, is_isviewer, is_sp_register, is_mi_register, is_dp_register,
  is_vi_register, is_ai_register, is_ri_register, is_si_register, is_pif, is_pi_register,
}
use rusty_n.Core.Bus.Access.Store.{write_u32, register_write}

-- The line of device `n` in the order of the registers.
abbrev pub line_at : MiInterrupt → ℕ → Bool
line_at l n =
    if n == 0
    then l.sp
    else if n == 1
    then l.si
    else if n == 2
    then l.ai
    else if n == 3
    then l.vi
    else if n == 4
    then l.pi
    else l.dp

pack_sum :
    (l : MiInterrupt)
    → pack_mi l
      ≡ digit l.sp
        + digit l.si * 2
        + digit l.ai * 4
        + digit l.vi * 8
        + digit l.pi * 16
        + digit l.dp * 32
unfolding pack_mi
pack_sum l = ground arith

-- The digits of the packed lines.
pack_bit : (l : MiInterrupt) (n : ℕ) → n < 6 → bit n (pack_mi l) ≡ digit (line_at l n)
pack_bit l zero h = rw (pack_sum l) (ground arith)
pack_bit l (suc zero) h = rw (pack_sum l) (ground arith)
pack_bit l (suc (suc zero)) h = rw (pack_sum l) (ground arith)
pack_bit l (suc (suc (suc zero))) h = rw (pack_sum l) (ground arith)
pack_bit l (suc (suc (suc (suc zero)))) h = rw (pack_sum l) (ground arith)
pack_bit l (suc (suc (suc (suc (suc zero))))) h = rw (pack_sum l) (ground arith)
pack_bit l (suc (suc (suc (suc (suc (suc n)))))) h = absurd (omega arith)

mask_line :
    (l : MiInterrupt) (val n : ℕ)
    → n < 6
    → line_at (write_mask val l) n ≡ set_line val n (line_at l n)
unfolding write_mask
mask_line l val n h = ground arith

module _ {G : Type 0} (b : Bus G) (val : ℕ) where
  mask_written :
      (read_u32 (write_u32 b 0x0430_000c val) 0x0430_000c).1
      ≡ pack_mi (write_mask val b.rcp.mi_mask)
  unfolding write_u32 read_u32 register_read register_write mi_read mi_write is_pi_bus is_isviewer
      is_sp_register is_mi_register
  mask_written = refl

  mask_read : (read_u32 b 0x0430_000c).1 ≡ pack_mi b.rcp.mi_mask
  unfolding read_u32 register_read mi_read is_pi_bus is_isviewer is_sp_register is_mi_register
  mask_read = refl

  -- A store to the interrupt mask and a load of it: each of the six lines is on if the store set
  -- it, off if it cleared it without setting it, and as it was before otherwise.
  pub read-write_mask :
      (n : ℕ)
      → n < 6
      → bit n (read_u32 (write_u32 b 0x0430_000c val) 0x0430_000c).1 ≡ (
          if bit (n * 2 + 1) val == 1
          then 1
          else if bit (n * 2) val == 1
          then 0
          else bit n (read_u32 b 0x0430_000c).1)
  unfolding set_line
  read-write_mask n h =
      ap (bit n) mask_written
      ∙ (pack_bit (write_mask val b.rcp.mi_mask) n h
          ∙ (ap digit (mask_line b.rcp.mi_mask val n h)
              ∙ ground (
                arith,
                any_set_pow (n * 2 + 1) val,
                any_set_pow (n * 2) val,
                ap (bit n) mask_read,
                pack_bit b.rcp.mi_mask n h,
              )))

  abbrev lines : MiInterrupt
  lines = b.rcp.mi_intr

  to_sp : (write_u32 b 0x0404_0010 val) ≡ sp_register_write b 0x0404_0010 val
  unfolding write_u32 register_write is_pi_bus is_isviewer is_sp_register
  to_sp = refl

  ack_sp :
      any_set val (2 ^ 3) ≡ true
      → any_set val (2 ^ 4) ≡ false
      → (sp_register_write b 0x0404_0010 val).rcp.mi_intr ≡ record lines { sp = false }
  unfolding sp_register_write interrupt_change Sp.write
  ack_sp h k = rw (h, k) refl

  to_pi : (write_u32 b 0x0460_0010 val) ≡ pi_write_word b 0x0460_0010 val
  unfolding write_u32 is_pi_bus is_isviewer is_sp_register is_mi_register is_dp_register
      is_vi_register is_ai_register is_ri_register is_si_register is_pif is_pi_register
  to_pi = refl

  ack_pi :
      any_set val 2 ≡ true
      → (pi_write_word b 0x0460_0010 val).rcp.mi_intr ≡ record lines { pi = false }
  unfolding pi_write_word Pi.write Pi.write_status
  ack_pi h = rw h refl

  ack_dp :
      any_set val (2 ^ 11) ≡ true
      → (write_u32 b 0x0430_0000 val).rcp.mi_intr ≡ record lines { dp = false }
  unfolding write_u32 register_write is_pi_bus is_isviewer is_sp_register is_mi_register mi_write
  ack_dp h = rw h refl

  -- Each of the six lines has a store of the processor that lowers it and leaves the five others
  -- as they are: any value at the VI position, the AI status and the SI status, a value with the
  -- clearing bit at the MI mode and the PI status, and one with the clearing bit and without the
  -- setting bit at the SP status.
  pub acknowledge :
      ((write_u32 b 0x0440_0010 val).rcp.mi_intr ≡ record lines { vi = false })
      × ((write_u32 b 0x0450_000c val).rcp.mi_intr ≡ record lines { ai = false })
      × ((write_u32 b 0x0480_0018 val).rcp.mi_intr ≡ record lines { si = false })
      × (any_set val (2 ^ 11) ≡ true
          → (write_u32 b 0x0430_0000 val).rcp.mi_intr ≡ record lines { dp = false })
      × (any_set val (2 ^ 1) ≡ true
          → (write_u32 b 0x0460_0010 val).rcp.mi_intr ≡ record lines { pi = false })
      × (any_set val (2 ^ 3) ≡ true
          → any_set val (2 ^ 4) ≡ false
          → (write_u32 b 0x0404_0010 val).rcp.mi_intr ≡ record lines { sp = false })
  unfolding write_u32 register_write is_pi_bus is_isviewer is_sp_register is_mi_register
      is_dp_register is_vi_register is_ai_register is_ri_register is_si_register vi_write ai_write
      si_write Vi.write write_reg
  acknowledge = (
    refl,
    refl,
    refl,
    ack_dp,
    λ h. ap (λ (x : Bus G). x.rcp.mi_intr) to_pi ∙ ack_pi h,
    λ h k. ap (λ (x : Bus G). x.rcp.mi_intr) to_sp ∙ ack_sp h k,
  )
