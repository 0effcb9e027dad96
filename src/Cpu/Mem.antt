-- ===== src/Cpu/Mem.antt =====
-- Loads and stores of parts of a word: crates/rustyn64-cpu/src/mem.rs.
pub mod Unaligned
mod Tests
use rusty_n.Base.{ℕ, ◌+◌, ◌-◌, ◌*◌, ◌/◌, ◌%◌, ◌^◌, bit_and, bit_or}
use rusty_n.Base.{Bool, true, false}
use rusty_n.Base.{◌==◌, ltb, if◌then◌else◌, u8, u16, u32, u64, not32, not64, sext32, shl, shr}

pub data LoadKind : Type 0 where
  signed_byte unsigned_byte signed_half unsigned_half signed_word unsigned_word double : LoadKind

pub load_width : LoadKind → ℕ
load_width signed_byte = 1
load_width unsigned_byte = 1
load_width signed_half = 2
load_width unsigned_half = 2
load_width signed_word = 4
load_width unsigned_word = 4
load_width double = 8

-- `addr.is_multiple_of(width)`
abbrev pub is_multiple_of : ℕ → ℕ → Bool
is_multiple_of addr width = addr % width == 0

pub load_aligned : LoadKind → ℕ → Bool
load_aligned kind addr = is_multiple_of addr (load_width kind)

-- A field of `n` bytes as a signed number in a register.
abbrev sign_extend8 : ℕ → ℕ
sign_extend8 v = if ltb v (2 ^ 7) then v else v + (2 ^ 64 - 2 ^ 8)

abbrev sign_extend16 : ℕ → ℕ
sign_extend16 v = if ltb v (2 ^ 15) then v else v + (2 ^ 64 - 2 ^ 16)

pub shape : LoadKind → ℕ → ℕ
shape signed_byte raw = sign_extend8 (u8 raw)
shape unsigned_byte raw = u8 raw
shape signed_half raw = sign_extend16 (u16 raw)
shape unsigned_half raw = u16 raw
shape signed_word raw = sext32 (u32 raw)
shape unsigned_word raw = u32 raw
shape double raw = raw

pub data StoreKind : Type 0 where
  byte half word double : StoreKind

pub store_width : StoreKind → ℕ
store_width StoreKind.byte = 1
store_width StoreKind.half = 2
store_width StoreKind.word = 4
store_width StoreKind.double = 8

pub store_aligned : StoreKind → ℕ → Bool
store_aligned kind addr = is_multiple_of addr (store_width kind)

-- The masks of the `k` lowest digits, and of those that `MAX >> k` leaves out.
abbrev low_mask : ℕ → ℕ
low_mask k = if k == 0 then 0 else 2 ^ k - 1

abbrev high_mask32 : ℕ → ℕ
high_mask32 k = if k == 0 then 0 else not32 (shr (2 ^ 32 - 1) k)

abbrev high_mask64 : ℕ → ℕ
high_mask64 k = if k == 0 then 0 else not64 (shr (2 ^ 64 - 1) k)

-- Each of these reads or writes one of the two aligned words that an unaligned one lies in; `b` is
-- the offset in that word.
pub lwl : ℕ → ℕ → ℕ → ℕ
lwl rt w b = sext32 (bit_or (u32 (shl w (b * 8))) (bit_and (u32 rt) (low_mask (b * 8))))

pub lwr : ℕ → ℕ → ℕ → ℕ
lwr rt w b =
    let shift = (3 - b) * 8 in
    let lo = bit_or (shr w shift) (bit_and (u32 rt) (high_mask32 shift)) in
    if b == 3 then sext32 lo else bit_or (bit_and rt 0xffff_ffff_0000_0000) lo

pub ldl : ℕ → ℕ → ℕ → ℕ
ldl rt d b = bit_or (u64 (shl d (b * 8))) (bit_and rt (low_mask (b * 8)))

pub ldr : ℕ → ℕ → ℕ → ℕ
ldr rt d b = let shift = (7 - b) * 8 in bit_or (shr d shift) (bit_and rt (high_mask64 shift))

pub swl : ℕ → ℕ → ℕ → ℕ
swl rt w b = bit_or (bit_and w (high_mask32 (b * 8))) (shr (u32 rt) (b * 8))

pub swr : ℕ → ℕ → ℕ → ℕ
swr rt w b =
    let shift = (3 - b) * 8 in bit_or (bit_and w (low_mask shift)) (u32 (shl (u32 rt) shift))

pub sdl : ℕ → ℕ → ℕ → ℕ
sdl rt d b = bit_or (bit_and d (high_mask64 (b * 8))) (shr rt (b * 8))

pub sdr : ℕ → ℕ → ℕ → ℕ
sdr rt d b = let shift = (7 - b) * 8 in bit_or (bit_and d (low_mask shift)) (u64 (shl rt shift))
