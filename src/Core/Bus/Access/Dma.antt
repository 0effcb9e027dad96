-- ===== src/Core/Bus/Access/Dma.antt =====
-- A transfer from the cartridge to the main memory, from the store that starts it to the interrupt
-- that the processor sees: write_u32, pi_write_word and poll_irq of crates/rustyn64-core/src/bus.rs
-- over the registers of the peripheral interface.
use rusty_n.Base.{ℕ, zero, suc, ◌+◌, ◌-◌, ◌≤◌, ◌≡◌, refl, ap, ◌∙◌, arith}
use rusty_n.Base.{true, ◌&&◌, ltb, leb, if◌then◌else◌}
use rusty_n.Base.{add32, bit_and}
use rusty_n.Cart.Pi.{Transfer, pi_wr_len, write, start, started, complete}
use rusty_n.Cart.Pi as Pi
use rusty_n.Cart.Rom.{Cart, pi_read}
use rusty_n.Core.Bus.{Bus, RcpRegs, MiInterrupt, rdram_size, rdram_write, poll_irq}
use rusty_n.Core.Bus.Devices.{transfer_bytes, pi_write_word}
use rusty_n.Core.Bus.Access.Memory.{offset_lem}
use rusty_n.Core.Bus.Access.{
  is_pi_bus, is_isviewer, is_sp_register, is_mi_register, is_dp_register, is_vi_register,
  is_ai_register, is_ri_register, is_si_register, is_pif, is_pi_register,
}
use rusty_n.Core.Bus.Access.Store.{write_u32}

module _ {G : Type 0} (b : Bus G) (t : Transfer) where
  moved_lem :
      (n a : ℕ)
      → t.to_dram ≡ true
      → t.dram + n ≤ rdram_size
      → ((transfer_bytes b t n).rdram a ≡ (
          if leb t.dram a && ltb a (t.dram + n)
          then pi_read b.cart (add32 t.cart (a - t.dram))
          else b.rdram a))
        × ((transfer_bytes b t n).cart ≡ b.cart)
        × ((transfer_bytes b t n).rcp ≡ b.rcp)
  unfolding transfer_bytes rdram_write
  moved_lem zero a h le = (ground arith, refl, refl)
  moved_lem (suc n) a h le =
      let ih = moved_lem n a h (omega arith) in
      let here : add32 t.dram n ≡ t.dram + n = omega arith in
      let at = offset_lem (t.dram + n) (omega arith) in
      let same = ap (λ (c : Cart). pi_read c (add32 t.cart n)) ih.1 in
      rw (h, here, at) (ground (arith, ih.0, same), ih.1, ih.2)

starts :
    {G : Type 0} (b : Bus G) (len : ℕ) → write_u32 b pi_wr_len len ≡ pi_write_word b pi_wr_len len
unfolding write_u32 is_pi_bus is_isviewer is_sp_register is_mi_register is_dp_register
    is_vi_register is_ai_register is_ri_register is_si_register is_pif is_pi_register
starts b len = refl

module _ {G : Type 0} (b : Bus G) (len : ℕ) where
  -- The number of bytes of the transfer, and what the registers ask for.
  abbrev pub bytes : ℕ
  bytes = bit_and len 0x00ff_ffff + 1

  abbrev asked : Transfer
  asked = record { dram = b.pi.dram_addr; cart = b.pi.cart_addr; len = bytes; to_dram = true }

  abbrev after : Bus G
  after = write_u32 b pi_wr_len len

  abbrev begun : Bus G
  begun = record b {
    pi = (Pi.start b.pi len true).0;
    rcp = record b.rcp { mi_intr = record b.rcp.mi_intr { pi = b.pi.interrupt } };
  }

  parts :
      (after.rdram ≡ (transfer_bytes begun asked bytes).rdram)
      × (after.cart ≡ (transfer_bytes begun asked bytes).cart)
      × (after.rcp.mi_intr.pi ≡ true)
      × (after.rcp.mi_mask ≡ (transfer_bytes begun asked bytes).rcp.mi_mask)
  unfolding pi_write_word write started start complete
  parts =
      let e = starts b len in
      (
        ap (λ (x : Bus G). x.rdram) e,
        ap (λ (x : Bus G). x.cart) e,
        ap (λ (x : Bus G). x.rcp.mi_intr.pi) e,
        ap (λ (x : Bus G). x.rcp.mi_mask) e,
      )

  -- A store to the length register of the peripheral interface copies bytes from the cartridge to
  -- the main memory, where the transfer fits: the bytes of the transfer come from the cartridge in
  -- order, no other byte of the memory and nothing of the cartridge changes, and the interrupt
  -- line is raised, so that a processor that has not masked it sees an interrupt.
  pub wr_len_lem :
      (a : ℕ)
      → b.pi.dram_addr + bytes ≤ rdram_size
      → (after.rdram a ≡ (
          if leb b.pi.dram_addr a && ltb a (b.pi.dram_addr + bytes)
          then pi_read b.cart (add32 b.pi.cart_addr (a - b.pi.dram_addr))
          else b.rdram a))
        × (after.cart ≡ b.cart)
        × (after.rcp.mi_intr.pi ≡ true)
        × (b.rcp.mi_mask.pi ≡ true → poll_irq after ≡ true)
  unfolding poll_irq
  wr_len_lem a le =
      let p = parts in
      let m = moved_lem begun asked bytes a refl le in
      let mask = p.3 ∙ ap (λ (r : RcpRegs). r.mi_mask) m.2 in
      (
        ap (λ (f : ℕ → ℕ). f a) p.0 ∙ m.0,
        p.1 ∙ m.1,
        p.2,
        λ open_line. ground (arith, p.2, ap (λ (l : MiInterrupt). l.pi) mask),
      )
