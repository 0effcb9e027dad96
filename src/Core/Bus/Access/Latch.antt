-- ===== src/Core/Bus/Access/Latch.antt =====
-- The write latch of the cartridge bus: write_u32, read_u32 and pi_tick of
-- crates/rustyn64-core/src/bus.rs.
use rusty_n.Base.{ℕ, zero, suc, ◌-◌, ◌≤◌, ◌<◌, ◌≡◌, refl, ap, ◌∙◌, arith}
use rusty_n.Base.{none, bit_and_field, ◌==◌, true, false, ◌&&◌, not, ltb, if◌then◌else◌, add32}
use rusty_n.Cart.Rom.{pi_read, pi_write, pi_write_word}
use rusty_n.Core.Bus.{Bus, rdram_offset, pi_write_cycles}
use rusty_n.Core.Bus.Devices.{pi_tick, pi_io_busy}
use rusty_n.Core.Bus.Access.{
  read_u8, device_u8, pi_bus_read, lane, is_pi_register, is_spmem, is_sp_register, is_register,
  is_mi_register, is_dp_register, is_vi_register, is_ai_register, is_ri_register, is_si_register,
  is_pif, word_of, sp_pc, is_pi_bus, is_isviewer, be_word, read_u32,
}
use rusty_n.Core.Bus.Access.Store.{write_u8, device_write_u8, pi_bus_write, write_u32}

-- Addresses of the cartridge bus, without the debug port.
abbrev pub OnPiBus : ℕ → Type 0
OnPiBus addr = (is_pi_bus addr && not (is_isviewer addr)) ≡ true

-- No other window of the memory map has such an address.
elsewhere :
    (addr : ℕ)
    → OnPiBus addr
    → (is_pi_register addr ≡ false)
      × (is_spmem addr ≡ false)
      × (is_sp_register addr ≡ false)
      × (is_register addr ≡ false)
      × (is_pif addr ≡ false)
      × ((word_of addr == sp_pc) ≡ false)
      × (is_isviewer addr ≡ false)
      × (is_pi_bus addr ≡ true)
unfolding is_pi_bus is_isviewer is_pi_register is_spmem is_sp_register is_mi_register is_dp_register
    is_vi_register is_ai_register is_ri_register is_si_register is_pif
elsewhere addr h = (
  ground arith,
  ground arith,
  ground arith,
  ground arith,
  ground arith,
  ground (arith, bit_and_field 2 30 addr),
  ground arith,
  ground arith,
)

-- `n` steps of the countdown.
pub pi_ticks : {G : Type 0} → ℕ → Bus G → Bus G
pi_ticks zero b = b
pi_ticks (suc n) b = pi_tick (pi_ticks n b)

module _ {G : Type 0} where
  ticks_lem :
      (n : ℕ) (b : Bus G)
      → ((pi_ticks n b).pi_write_countdown ≡ b.pi_write_countdown - n)
        × ((pi_ticks n b).pi_write_latch ≡ b.pi_write_latch)
        × ((pi_ticks n b).cart ≡ b.cart)
  unfolding pi_ticks pi_tick
  ticks_lem zero b = (omega arith, refl, refl)
  ticks_lem (suc n) b = let ih = ticks_lem n b in (omega (arith, ih.0), ih.1, ih.2)

  -- The word that a load on the cartridge bus gives when no store is under way.
  abbrev pub cart_word : Bus G → ℕ → ℕ
  cart_word b addr =
      be_word (pi_read b.cart addr) (pi_read b.cart (add32 addr 1)) (pi_read b.cart (add32 addr 2))
        (pi_read b.cart (add32 addr 3))

  stored :
      (b : Bus G) (addr val : ℕ)
      → OnPiBus addr
      → b.pi_write_countdown ≡ 0
      → write_u32 b addr val ≡ record b {
        pi_write_latch = val;
        pi_write_countdown = pi_write_cycles;
        cart = pi_write_word b.cart addr val;
      }
  unfolding write_u32 pi_bus_write pi_io_busy
  stored b addr val h idle =
      let free : ltb 0 b.pi_write_countdown ≡ false = ground arith in rw (h, free) refl

  dropped :
      (b : Bus G) (addr val : ℕ)
      → OnPiBus addr
      → 0 < b.pi_write_countdown
      → write_u32 b addr val ≡ b
  unfolding write_u32 pi_bus_write pi_io_busy
  dropped b addr val h busy =
      let held : ltb 0 b.pi_write_countdown ≡ true = ground arith in rw (h, held) refl

  loaded :
      (b : Bus G) (addr : ℕ)
      → OnPiBus addr
      → (read_u32 b addr).1
        ≡ (if ltb 0 b.pi_write_countdown then b.pi_write_latch else cart_word b addr)
  unfolding read_u32 pi_io_busy
  loaded b addr h = rw h (ground arith)

  -- The same for a load of a byte, where the address is not read as one of the main memory.
  loaded_byte :
      (b : Bus G) (addr : ℕ)
      → OnPiBus addr
      → rdram_offset addr ≡ none
      → 0 < b.pi_write_countdown
      → (read_u8 b addr).1 ≡ lane b.pi_write_latch addr
  unfolding read_u8 device_u8 pi_bus_read pi_io_busy
  loaded_byte b addr h out busy =
      let e = elsewhere addr h in
      let held : ltb 0 b.pi_write_countdown ≡ true = ground arith in
      rw (out, e.0, e.1, e.2, e.3, e.4, e.5, e.6, e.7, held) refl

  -- A store of a byte is not held back: it reaches the cartridge, and leaves the latch alone.
  byte_stored :
      (b : Bus G) (addr v : ℕ)
      → OnPiBus addr
      → rdram_offset addr ≡ none
      → write_u8 b addr v ≡ record b { cart = pi_write b.cart addr v }
  unfolding write_u8 device_write_u8
  byte_stored b addr v h out = let e = elsewhere addr h in rw (out, e.0, e.1, e.6, e.4) refl

  pub write_latch :
      (b : Bus G) (addr addr' val val' n : ℕ)
      → OnPiBus addr
      → OnPiBus addr'
      → b.pi_write_countdown ≡ 0
      → ((pi_ticks n (write_u32 b addr val)).cart ≡ pi_write_word b.cart addr val)
        × (n < 100 → (read_u32 (pi_ticks n (write_u32 b addr val)) addr').1 ≡ val)
        × (n < 100
            → write_u32 (pi_ticks n (write_u32 b addr val)) addr' val'
              ≡ pi_ticks n (write_u32 b addr val))
        × (n < 100
            → rdram_offset addr' ≡ none
            → (read_u8 (pi_ticks n (write_u32 b addr val)) addr').1 ≡ lane val addr')
        × (rdram_offset addr' ≡ none
            → write_u8 (pi_ticks n (write_u32 b addr val)) addr' val'
              ≡ record (pi_ticks n (write_u32 b addr val)) {
                cart = pi_write (pi_ticks n (write_u32 b addr val)).cart addr' val';
              })
        × (100 ≤ n
            → (read_u32 (pi_ticks n (write_u32 b addr val)) addr').1
              ≡ cart_word (pi_ticks n (write_u32 b addr val)) addr')
  write_latch b addr addr' val val' n h h' idle =
      let first = stored b addr val h idle in
      let c = pi_ticks n (write_u32 b addr val) in
      let t = ticks_lem n (write_u32 b addr val) in
      let count = ap (λ (x : Bus G). x.pi_write_countdown) first in
      let latch = ap (λ (x : Bus G). x.pi_write_latch) first in
      let left : c.pi_write_countdown ≡ 100 - n = omega (arith, t.0, count) in
      (
        t.2 ∙ ap (λ (x : Bus G). x.cart) first,
        λ lt. loaded c addr' h' ∙ ground (arith, left, t.1, latch),
        λ lt. dropped c addr' val' h' (omega (arith, left)),
        λ lt out.
            loaded_byte c addr' h' out (omega (arith, left))
            ∙ ap (λ (w : ℕ). lane w addr') (t.1 ∙ latch),
        λ out. byte_stored c addr' val' h' out,
        λ le. loaded c addr' h' ∙ ground (arith, left),
      )
