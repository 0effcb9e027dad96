-- ===== src/Cpu/Cop0.antt =====
-- The system control coprocessor's registers: crates/rustyn64-cpu/src/cop0.rs.
mod Layout
pub mod Hardware
pub mod Masks
pub mod Timer
pub mod Random
pub mod Tests
unfoldable pub use Layout.*
use rusty_n.Base.{ℕ, zero, suc, ◌+◌, ◌-◌, ◌*◌, ◌/◌, ◌%◌, ◌^◌, bit_and, bit_or}
use rusty_n.Base.{Bool, true, false, Option, none, some, ◌&&◌, ◌||◌, not}
use rusty_n.Base.{
  ltb, leb, ◌==◌, if◌then◌else◌, u8, u32, u64, add32, sub32, sub64, not64, sext32, shl, shr,
}

-- The array of 32 registers is a function of the index, which is always below 32.
pub record Cop0 : Type 0 where
  pub regs : ℕ → ℕ
  pub now : ℕ
  pub count_epoch_value : ℕ
  pub count_epoch_tick : ℕ
  pub last_count : ℕ
  pub ec : ℕ
  pub write_latch : ℕ

-- `regs[i] = v`
abbrev pub update : (ℕ → ℕ) → ℕ → ℕ → ℕ → ℕ
update regs i v n = if n == i then v else regs n

-- The registers at power-on.
pub power_on : ℕ → ℕ
power_on n =
    if n == reg_status
    then 2 ^ 2 + 2 ^ 22
    else if n == reg_random
    then 31
    else if n == reg_config
    then 2 ^ 15
    else if n == reg_prid
    then 0x0b22
    else 0

pub new : Cop0
new = record {
  regs = power_on;
  now = 0;
  count_epoch_value = 0;
  count_epoch_tick = 0;
  last_count = 0;
  ec = 7;
  write_latch = 0;
}

pub set_now : Cop0 → ℕ → Cop0
set_now c now = record c { now = now }

pub count : Cop0 → ℕ
count c = add32 c.count_epoch_value (u32 (sub64 c.now c.count_epoch_tick))

pub timer_matches : Cop0 → Bool
timer_matches c = count c == u32 (c.regs reg_compare)

-- Whether the count has reached the compare value since it was last sampled.
pub timer_edge : Cop0 → Cop0 × Bool
timer_edge c =
    let now = count c in
    let traveled = sub32 now c.last_count in
    let to_compare = sub32 (u32 (c.regs reg_compare)) c.last_count in
    (
      record c { last_count = now },
      not (traveled == 0) && (not (to_compare == 0) && leb to_compare traveled),
    )

pub count_ticks_until_timer_match : Cop0 → ℕ
count_ticks_until_timer_match c =
    let to_compare = sub32 (u32 (c.regs reg_compare)) c.last_count in
    if to_compare == 0 then 2 ^ 32 - 1 else to_compare

abbrev pub set_random : Cop0 → ℕ → Cop0
set_random c value = record c { regs = update c.regs reg_random value }

-- One cycle of the random register: from 31 down to the wired value, and again.
pub tick_random : Cop0 → Cop0
tick_random c =
    let wired = bit_and (c.regs reg_wired) 0x3f in
    let cur = bit_and (c.regs reg_random) 0x3f in
    set_random c (if cur == wired then 31 else bit_and (sub32 cur 1) 0x3f)

-- `n` cycles at once.
pub tick_random_by : Cop0 → ℕ → Cop0
tick_random_by c n =
    let wired = bit_and (c.regs reg_wired) 0x3f in
    let cur = bit_and (c.regs reg_random) 0x3f in
    let d = bit_and (sub32 cur wired) 0x3f in
    let cycle = bit_and (sub32 31 wired) 0x3f + 1 in
    let into = (n - d - 1) % cycle in
    set_random c
      (if leb n d then bit_and (sub32 cur (u32 n)) 0x3f else bit_and (sub32 31 (u32 into)) 0x3f)

pub set_ip : Cop0 → ℕ → Bool → Cop0
set_ip c b on =
    let m = 2 ^ (8 + bit_and b 7) in
    let cause = c.regs reg_cause in
    record c {
      regs = update c.regs reg_cause (if on then bit_or cause m else bit_and cause (not64 m));
    }

pub interrupt_pending : Cop0 → Bool
interrupt_pending c =
    let status = c.regs reg_status in
    let ip = bit_and (shr (c.regs reg_cause) 8) 0xff in
    let im = bit_and (shr status 8) 0xff in
    if bit_and status 1 == 0
    then false
    else if not (bit_and status (2 ^ 1) == 0) || not (bit_and status (2 ^ 2) == 0)
    then false
    else not (bit_and ip im == 0)

pub is_unused : ℕ → Bool
is_unused n = let r = bit_and n 31 in r == 7 || ((leb 21 r && leb r 25) || r == 31)

pub read : Cop0 → ℕ → ℕ
read c n =
    let r = bit_and n 31 in
    let raw = c.regs r in
    if is_unused r
    then c.write_latch
    else if r == reg_count
    then count c
    else if r == reg_config
    then bit_or (bit_or (bit_or (bit_and raw (arch_mask reg_config)) (shl c.ec 28)) (6 * 2 ^ 16))
        (0x646 * 2 ^ 4)
    else bit_and raw (arch_mask r)

-- The effects that a write of one register has on the others.
on_compare : ℕ → Cop0 → Cop0
on_compare r c = if r == reg_compare then set_ip c 7 false else c

on_count : ℕ → ℕ → Cop0 → Cop0
on_count r value c =
    if r == reg_count
    then record c { count_epoch_value = u32 value; count_epoch_tick = c.now }
    else c

on_timer : ℕ → Cop0 → Cop0
on_timer r c = if r == reg_count || r == reg_compare then record c { last_count = count c } else c

on_wired : ℕ → Cop0 → Cop0
on_wired r c = if r == reg_wired then set_random c 31 else c

-- The register word under a masked write.
abbrev pub merge : ℕ → ℕ → ℕ → ℕ
merge old value mask = bit_or (bit_and old (not64 mask)) (bit_and value mask)

pub write : Cop0 → ℕ → ℕ → Cop0
unfolding on_compare on_count on_timer on_wired
write c n value =
    let r = bit_and n 31 in
    let stored = record c { regs = update c.regs r (merge (c.regs r) value (write_mask r)) } in
    on_wired r (on_timer r (on_count r value (on_compare r stored)))

pub set_hardware : Cop0 → ℕ → ℕ → Cop0
set_hardware c n value =
    let r = bit_and n 31 in record c { regs = update c.regs r (bit_and value (arch_mask r)) }

pub mfc0 : Cop0 → ℕ → ℕ
mfc0 c n = sext32 (u32 (read c n))

pub dmfc0 : Cop0 → ℕ → ℕ
dmfc0 c n = read c n

pub mtc0 : Cop0 → ℕ → ℕ → Cop0
mtc0 c n value =
    let v = if is_wide n then sext32 (u32 value) else bit_and value 0xffff_ffff in
    write (record c { write_latch = v }) n v

pub dmtc0 : Cop0 → ℕ → ℕ → Cop0
dmtc0 c n value = write (record c { write_latch = value }) n value

pub data Cop0Op : Type 0 where
  mfc dmfc mtc dmtc : Cop0Op

pub from_rs : ℕ → Option Cop0Op
from_rs rs =
    if rs == 0
    then some mfc
    else if rs == 1
    then some dmfc
    else if rs == 4
    then some mtc
    else if rs == 5
    then some dmtc
    else none
