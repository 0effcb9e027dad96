-- ===== src/Rsp/Sp.antt =====
-- The SP interface registers: crates/rustyn64-rsp/src/sp.rs.
pub mod Status
pub mod Transfer
pub mod Semaphore
use rusty_n.Base.{ℕ, zero, suc, ◌+◌, ◌-◌, ◌*◌, ◌/◌, ◌%◌, ◌^◌, bit_and, bit_or}
use rusty_n.Base.{Bool, true, false, Option, none, some, List, [], ◌∷◌, ◌&&◌, not}
use rusty_n.Base.{ltb, ◌==◌, if◌then◌else◌, u32, shl, shr, not32, any_set}

abbrev pub status_halted : ℕ
status_halted = 2 ^ 0

abbrev pub status_broke : ℕ
status_broke = 2 ^ 1

abbrev pub status_dma_busy : ℕ
status_dma_busy = 2 ^ 2

abbrev pub status_dma_full : ℕ
status_dma_full = 2 ^ 3

abbrev pub status_sstep : ℕ
status_sstep = 2 ^ 5

abbrev pub status_intbreak : ℕ
status_intbreak = 2 ^ 6

abbrev pub status_sig0 : ℕ
status_sig0 = 2 ^ 7

-- A programmed transfer, latched from the address and length registers.
pub record Dma : Type 0 where
  pub sp_addr : ℕ
  pub ram_addr : ℕ
  pub row_len : ℕ
  pub rows : ℕ
  pub skip : ℕ
  pub to_dram : Bool

pub record SpRegs : Type 0 where
  pub status : ℕ
  pub pc : ℕ
  pub semaphore : Bool
  pub sp_addr : ℕ
  pub ram_addr : ℕ
  pub len : ℕ
  pub pending_sp_addr : ℕ
  pub pending_ram_addr : ℕ

abbrev pub new : SpRegs
new = record {
  status = status_halted;
  pc = 0;
  semaphore = false;
  sp_addr = 0;
  ram_addr = 0;
  len = 0;
  pending_sp_addr = 0;
  pending_ram_addr = 0;
}

abbrev pub halted : SpRegs → Bool
halted s = any_set s.status status_halted

abbrev pub broke : SpRegs → Bool
broke s = any_set s.status status_broke

pub set_broke : SpRegs → Bool → SpRegs
set_broke s true = record s { status = bit_or s.status status_broke }
set_broke s false = record s { status = bit_and s.status (not32 status_broke) }

pub set_halted : SpRegs → Bool → SpRegs
set_halted s true = record s { status = bit_or s.status status_halted }
set_halted s false = record s { status = bit_and s.status (not32 status_halted) }

pub set_pc : SpRegs → ℕ → SpRegs
set_pc s pc = record s { pc = bit_and pc 0xffc }

abbrev pub to_word : Bool → ℕ
to_word b = if b then 1 else 0

-- A register read; reading the semaphore takes it.
pub read : SpRegs → ℕ → SpRegs × ℕ
read s index =
    let r = bit_and index 7 in
    if r == 0
    then (s, s.sp_addr)
    else if r == 1
    then (s, s.ram_addr)
    else if r == 2
    then (s, s.len)
    else if r == 3
    then (s, s.len)
    else if r == 4
    then (s, s.status)
    else if r == 5
    then (s, to_word (any_set s.status status_dma_full))
    else if r == 6
    then (s, to_word (any_set s.status status_dma_busy))
    else (record s { semaphore = true }, to_word s.semaphore)

-- One pair of clear and set commands on one flag; both together change nothing.
unfoldable pub apply : ℕ → ℕ → ℕ → ℕ → ℕ → ℕ
apply status val clr set flag =
    if any_set val clr && any_set val set
    then status
    else if any_set val clr
    then bit_and status (not32 flag)
    else if any_set val set
    then bit_or status flag
    else status

-- The signal bits from `n` on, `rounds` of them.
unfoldable pub signals : ℕ → ℕ → ℕ → ℕ → ℕ
signals zero n status val = status
signals (suc rounds) n status val =
    signals rounds (n + 1)
      (apply status val (2 ^ (9 + 2 * n)) (2 ^ (10 + 2 * n)) (status_sig0 * 2 ^ n)) val

-- The flag that has a clear command and no set command.
unfoldable pub clear_broke : ℕ → ℕ → ℕ
clear_broke status val = if any_set val (2 ^ 2) then bit_and status (not32 status_broke) else status

-- The flag word after a write in the set and clear layout.
unfoldable pub write_status : ℕ → ℕ → ℕ
write_status status val =
    let s1 = apply status val (2 ^ 0) (2 ^ 1) status_halted in
    let s2 = clear_broke s1 val in
    let s3 = apply s2 val (2 ^ 5) (2 ^ 6) status_sstep in
    let s4 = apply s3 val (2 ^ 7) (2 ^ 8) status_intbreak in signals 8 0 s4 val

-- What a status write does to the interrupt line.
unfoldable pub interrupt_change : ℕ → Option Bool
interrupt_change val =
    let clr = any_set val (2 ^ 3) in
    let set = any_set val (2 ^ 4) in
    if clr && set
    then none
    else if not clr && not set
    then none
    else if clr && not set
    then some false
    else some true

pub start_dma : SpRegs → ℕ → Bool → SpRegs × Dma
start_dma s len_word to_dram =
    let row_len = bit_or (bit_and len_word 0xfff) 7 + 1 in
    let rows = bit_and (shr len_word 12) 0xff + 1 in
    let skip = bit_and (shr len_word 20) 0xff8 in
    (
      record s {
        sp_addr = s.pending_sp_addr;
        ram_addr = s.pending_ram_addr;
        len = u32 (shl skip 20);
      },
      record {
        sp_addr = s.pending_sp_addr;
        ram_addr = s.pending_ram_addr;
        row_len = row_len;
        rows = rows;
        skip = skip;
        to_dram = to_dram;
      },
    )

pub started : SpRegs × Dma → SpRegs × Option Dma
started (s, d) = (s, some d)

unfoldable pub write : SpRegs → ℕ → ℕ → SpRegs × Option Dma
write s index val =
    let r = bit_and index 7 in
    if r == 0
    then (record s { pending_sp_addr = bit_and val 0x1ff8 }, none)
    else if r == 1
    then (record s { pending_ram_addr = bit_and val 0x00ff_fff8 }, none)
    else if r == 2
    then started (start_dma s val false)
    else if r == 3
    then started (start_dma s val true)
    else if r == 4
    then (record s { status = write_status s.status val }, none)
    else if r == 7
    then (record s { semaphore = false }, none)
    else (s, none)

-- The registers once a transfer has moved its data.
pub complete_dma : SpRegs → ℕ → ℕ → SpRegs
complete_dma s sp_addr ram_addr = record s {
  sp_addr = sp_addr;
  ram_addr = ram_addr;
  len = bit_or (bit_and s.len 0xfff0_0000) 0xff8;
  status = bit_and s.status (not32 (bit_or status_dma_busy status_dma_full));
}
