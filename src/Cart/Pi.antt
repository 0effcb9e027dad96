-- ===== src/Cart/Pi.antt =====
-- The peripheral interface's registers: crates/rustyn64-cart/src/pi.rs.
pub mod Transfers
pub mod Timing
use rusty_n.Base.{ℕ, zero, suc, ◌+◌, ◌-◌, ◌*◌, ◌/◌, ◌%◌, ◌^◌, bit_and, bit_or}
use rusty_n.Base.{Bool, true, false, Option, none, some, List, [], ◌∷◌}
use rusty_n.Base.{ltb, ◌==◌, if◌then◌else◌, u8, add32, sub32, not32, any_set, get_or, set}

abbrev pub pi_dram_addr : ℕ
pi_dram_addr = 0x0460_0000

abbrev pub pi_cart_addr : ℕ
pi_cart_addr = 0x0460_0004

abbrev pub pi_rd_len : ℕ
pi_rd_len = 0x0460_0008

abbrev pub pi_wr_len : ℕ
pi_wr_len = 0x0460_000c

abbrev pub pi_status : ℕ
pi_status = 0x0460_0010

abbrev pub pi_bsd_dom1_lat : ℕ
pi_bsd_dom1_lat = 0x0460_0014

-- A transfer that the interface has been asked to perform.
pub record Transfer : Type 0 where
  pub dram : ℕ
  pub cart : ℕ
  pub len : ℕ
  pub to_dram : Bool

-- The register file. Each timing array has two cells, domain 1 and domain 2.
pub record Pi : Type 0 where
  pub dram_addr : ℕ
  pub cart_addr : ℕ
  pub busy : Bool
  pub interrupt : Bool
  pub dom_lat : List ℕ
  pub dom_pwd : List ℕ
  pub dom_pgs : List ℕ
  pub dom_rls : List ℕ

abbrev pub new : Pi
new = record {
  dram_addr = 0;
  cart_addr = 0;
  busy = false;
  interrupt = false;
  dom_lat = 0 ∷ 0 ∷ [];
  dom_pwd = 0 ∷ 0 ∷ [];
  dom_pgs = 0 ∷ 0 ∷ [];
  dom_rls = 0 ∷ 0 ∷ [];
}

-- `addr & !3`
abbrev pub word_addr : ℕ → ℕ
word_addr addr = bit_and addr (not32 3)

-- The offset of an address from the first timing register.
abbrev pub bsd_off : ℕ → ℕ
bsd_off addr = sub32 (word_addr addr) pi_bsd_dom1_lat

pub dom_field : ℕ → Option (ℕ × ℕ)
dom_field addr =
    if ltb (bsd_off addr) 0x10
    then some (0, bsd_off addr / 4)
    else if ltb (bsd_off addr) 0x20
    then some (1, (bsd_off addr - 0x10) / 4)
    else none

-- The timing register of domain `d` as it reads back.
pub field_read : Pi → ℕ → ℕ → ℕ
field_read p d field =
    if field == 0
    then get_or p.dom_lat d 0
    else if field == 1
    then get_or p.dom_pwd d 0
    else if field == 2
    then bit_and (get_or p.dom_pgs d 0) 0xf
    else bit_and (get_or p.dom_rls d 0) 0x3

pub field_write : Pi → ℕ → ℕ → ℕ → Pi
field_write p d field val =
    if field == 0
    then record p { dom_lat = set p.dom_lat d (u8 val) }
    else if field == 1
    then record p { dom_pwd = set p.dom_pwd d (u8 val) }
    else if field == 2
    then record p { dom_pgs = set p.dom_pgs d (u8 (bit_and val 0xf)) }
    else record p { dom_rls = set p.dom_rls d (u8 (bit_and val 0x3)) }

-- `PI_STATUS`: both busy flags together, and the interrupt.
pub status_word : Pi → ℕ
status_word p =
    let s = if p.busy then bit_or 0 (bit_or 1 2) else 0 in if p.interrupt then bit_or s 8 else s

pub timing_read : Pi → Option (ℕ × ℕ) → ℕ
timing_read p (some (d, field)) = field_read p d field
timing_read p none = 0

pub timing_write : Pi → Option (ℕ × ℕ) → ℕ → Pi
timing_write p (some (d, field)) val = field_write p d field val
timing_write p none val = p

pub read : Pi → ℕ → ℕ
read p addr =
    let a = word_addr addr in
    if a == pi_dram_addr
    then p.dram_addr
    else if a == pi_cart_addr
    then p.cart_addr
    else if a == pi_status
    then status_word p
    else timing_read p (dom_field a)

-- Begin a transfer of `len + 1` bytes; both address registers advance by it.
unfoldable pub start : Pi → ℕ → Bool → Pi × Transfer
start p len to_dram =
    let n = bit_and len 0x00ff_ffff + 1 in
    (
      record p { busy = true; dram_addr = add32 p.dram_addr n; cart_addr = add32 p.cart_addr n },
      record { dram = p.dram_addr; cart = p.cart_addr; len = n; to_dram = to_dram },
    )

-- A `PI_STATUS` write: bit 0 resets the controller, bit 1 clears the interrupt.
unfoldable pub write_status : Pi → ℕ → Pi
write_status p val = record p {
  busy = if any_set val 1 then false else p.busy;
  interrupt = if any_set val 2 then false else p.interrupt;
}

unfoldable pub started : Pi × Transfer → Pi × Option Transfer
started (p, t) = (p, some t)

unfoldable pub write : Pi → ℕ → ℕ → Pi × Option Transfer
write p addr val =
    let a = word_addr addr in
    if a == pi_dram_addr
    then (record p { dram_addr = bit_and val 0x00ff_fff8 }, none)
    else if a == pi_cart_addr
    then (record p { cart_addr = bit_and val 0xffff_fffe }, none)
    else if a == pi_rd_len
    then started (start p val false)
    else if a == pi_wr_len
    then started (start p val true)
    else if a == pi_status
    then (write_status p val, none)
    else (timing_write p (dom_field a) val, none)

-- The copy is done: the interface is idle and asserts its interrupt.
unfoldable pub complete : Pi → Pi
complete p = record p { busy = false; interrupt = true }
