-- ===== src/Cart/Pif.antt =====
-- The peripheral interface: `Pif` and `data_crc` of crates/rustyn64-cart/src/pif.rs. The commands of
-- the joybus are in the child `Joybus`, the walk over the frames of the RAM in the child `Frames`.
pub mod Joybus
pub mod Frames
pub mod Boot
mod Tests
use rusty_n.Base.{ℕ, zero, suc, ◌+◌, ◌-◌, ◌*◌, ◌/◌, ◌%◌, ◌^◌, bit_and, bit_or, bit_xor, min}
use rusty_n.Base.{Bool, true, false, not, ◌&&◌, ◌||◌, Option, none, some, List, [], ◌∷◌}
use rusty_n.Base.{
  if◌then◌else◌, ◌==◌, ltb, any_set, length, get_or, set, replicate, read_block, write_block,
}

abbrev pub pif_ram_len : ℕ
pif_ram_len = 64

abbrev pub cmd_byte : ℕ
cmd_byte = 0x3f

abbrev pub pif_rom_len : ℕ
pif_rom_len = 0x7c0

pub record Pif : Type 0 where
  pub ram : List ℕ
  pub pak_present : List Bool
  pub connected : List Bool
  pub boot_rom : Option (List ℕ)
  pub boot_checksum : Option (List ℕ)
  pub boot_acquired : Option (List ℕ)
  pub rom_locked : Bool

pub new : Pif
new = record {
  ram = replicate pif_ram_len 0;
  pak_present = replicate 4 false;
  connected = true ∷ false ∷ false ∷ false ∷ [];
  boot_rom = none;
  boot_checksum = none;
  boot_acquired = none;
  rom_locked = false;
}

pub set_controllers_connected : Pif → List Bool → Pif
set_controllers_connected p connected = record p { connected = connected }

-- A dump that is too short leaves the interface without a boot ROM.
pub load_boot_rom : Pif → List ℕ → Pif
load_boot_rom p bytes =
    if ltb (length bytes) pif_rom_len
    then p
    else record p { boot_rom = some (read_block bytes 0 pif_rom_len 0) }

pub has_boot_rom : Pif → Bool
has_boot_rom p = elim p.boot_rom [ none ↦ false | some rom ↦ true ]

pub boot_rom_read : Pif → ℕ → ℕ
boot_rom_read p off =
    if p.rom_locked then 0 else elim p.boot_rom [ none ↦ 0 | some rom ↦ get_or rom off 0 ]

pub reset_boot : Pif → Pif
reset_boot p = record p { rom_locked = false; boot_acquired = none }

pub set_boot_checksum : Pif → List ℕ → Pif
set_boot_checksum p checksum = record p { boot_checksum = some checksum }

-- `a == b` on arrays of bytes.
pub same_bytes : List ℕ → List ℕ → Bool
same_bytes [] [] = true
same_bytes [] (y ∷ ys) = false
same_bytes (x ∷ xs) [] = false
same_bytes (x ∷ xs) (y ∷ ys) = let rest = same_bytes xs ys in (x == y) && rest

-- The command byte with the digits of a byte `mask` kept.
abbrev keep_command : List ℕ → ℕ → List ℕ
keep_command ram mask = set ram cmd_byte (bit_and (get_or ram cmd_byte 0) mask)

-- Bit 4: the boot ROM is locked out.
pub lock : Pif → ℕ → Pif
lock p cmd =
    if any_set cmd 0x10 then record p { rom_locked = true; ram = keep_command p.ram 0xef } else p

-- Bit 5: the checksum is taken over, and the command acknowledged.
pub acquire : Pif → ℕ → Pif
acquire p cmd =
    let zeroed = write_block p.ram 0x32 (replicate 6 0) in
    if any_set cmd 0x20
    then record p {
      boot_acquired = some (read_block p.ram 0x32 6 0);
      ram = set zeroed cmd_byte (bit_or (bit_and (get_or zeroed cmd_byte 0) 0xdf) 0x80);
    }
    else p

-- Whether the checksum taken over is not the expected one; without either, it is not known.
pub mismatch : Option (List ℕ) → Option (List ℕ) → Bool
mismatch (some got) (some expected) = not (same_bytes got expected)
mismatch (some got) none = false
mismatch none (some expected) = false
mismatch none none = false

-- Bit 6: the checksum is compared.
pub compare_checksum : Pif → ℕ → Pif × Bool
compare_checksum p cmd =
    if any_set cmd 0x40
    then (record p { ram = keep_command p.ram 0xbf }, mismatch p.boot_acquired p.boot_checksum)
    else (p, false)

-- The boot handshake; the flag asks for the processor to be halted.
pub boot_command : Pif → Pif × Bool
boot_command p =
    let cmd = get_or p.ram cmd_byte 0 in
    if has_boot_rom p then compare_checksum (acquire (lock p cmd) cmd) cmd else (p, false)

pub set_pak_present : Pif → ℕ → Bool → Pif
set_pak_present p channel present =
    if ltb channel 4 then record p { pak_present = set p.pak_present channel present } else p

pub read : Pif → ℕ → ℕ
read p off = get_or p.ram off 0

pub write : Pif → ℕ → ℕ → Pif
write p off val = if ltb off pif_ram_len then record p { ram = set p.ram off val } else p

pub load : Pif → List ℕ → Pif
load p bytes = record p { ram = bytes }

-- One digit of the checksum of a block, then eight, then all bytes.
pub crc_step : ℕ → ℕ
crc_step crc =
    let shifted = crc * 2 % 2 ^ 8 in if any_set crc 0x80 then bit_xor shifted 0x85 else shifted

pub crc_steps : ℕ → ℕ → ℕ
crc_steps zero crc = crc
crc_steps (suc n) crc = crc_steps n (crc_step crc)

pub crc_from : ℕ → List ℕ → ℕ
crc_from crc [] = crc
crc_from crc (byte ∷ bytes) = crc_from (crc_steps 8 (bit_xor crc byte)) bytes

pub data_crc : List ℕ → ℕ
data_crc bytes = crc_from 0 bytes

pub mark_no_device : Pif → ℕ → Pif
mark_no_device p rx_byte =
    if ltb rx_byte pif_ram_len
    then record p { ram = set p.ram rx_byte (bit_or (get_or p.ram rx_byte 0) 0x80) }
    else p
