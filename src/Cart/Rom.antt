-- ===== src/Cart/Rom.antt =====
-- The cartridge: crates/rustyn64-cart/src/lib.rs. The image formats, the header, the fingerprint of
-- the boot code, and the bytes that the peripheral interface sees.
pub mod Formats
mod Tests
use rusty_n.Base.{ℕ, zero, suc, ◌-◌, ◌*◌, ◌/◌, ◌^◌, bit_and, bit_xor}
use rusty_n.Base.{Bool, true, false, Option, none, some, List, [], ◌∷◌, ◌&&◌, ◌||◌, not}
use rusty_n.Base.{
  ◌==◌, ltb, leb, if◌then◌else◌, any_set, add32, not32, u8, length, get_or, read_block,
}
use rusty_n.Cart.Save.{SaveType, SaveDevice, save_pi_base}
use rusty_n.Cart.Save as Save
use rusty_n.Cart.Pif.{Pif, set_pak_present}
use rusty_n.Cart.Pif as Pif

pub data RomFormat : Type 0 where
  z64_big_endian n64_little_endian v64_byte_swapped : RomFormat

pub data CartError : Type 0 where
  short_header unknown_format : CartError

pub data Cic : Type 0 where
  cic6101 cic6102 cic6103 cic6105 cic6106 : Cic

pub data Result (A : Type 0) : Type 0 where
  ok : A → Result A
  err : CartError → Result A

-- Whether the first four bytes are the given ones.
pub starts_with : List ℕ → ℕ → ℕ → ℕ → ℕ → Bool
starts_with (a ∷ b ∷ c ∷ d ∷ rest) w x y z = (a == w) && ((b == x) && ((c == y) && (d == z)))
starts_with _ w x y z = false

pub detect : List ℕ → Option RomFormat
detect magic =
    if starts_with magic 0x80 0x37 0x12 0x40
    then some z64_big_endian
    else if starts_with magic 0x40 0x12 0x37 0x80
    then some n64_little_endian
    else if starts_with magic 0x37 0x80 0x40 0x12
    then some v64_byte_swapped
    else none

-- The bytes of each whole pair exchanged, and of each whole word turned round.
pub swap_pairs : List ℕ → List ℕ
swap_pairs (a ∷ b ∷ rest) = b ∷ a ∷ swap_pairs rest
swap_pairs bytes = bytes

pub swap_words : List ℕ → List ℕ
swap_words (a ∷ b ∷ c ∷ d ∷ rest) = d ∷ c ∷ b ∷ a ∷ swap_words rest
swap_words bytes = bytes

pub normalize_to_big_endian : List ℕ → RomFormat → List ℕ
normalize_to_big_endian raw z64_big_endian = raw
normalize_to_big_endian raw v64_byte_swapped = swap_pairs raw
normalize_to_big_endian raw n64_little_endian = swap_words raw

-- The checksum of the boot code: eight digits for each byte.
pub crc_digits : ℕ → ℕ → ℕ
crc_digits zero crc = crc
crc_digits (suc n) crc =
    crc_digits n (if any_set crc 1 then bit_xor 0xedb8_8320 (crc / 2) else crc / 2)

pub crc_bytes : ℕ → List ℕ → ℕ
crc_bytes crc [] = crc
crc_bytes crc (byte ∷ rest) = crc_bytes (crc_digits 8 (bit_xor crc byte)) rest

pub crc32 : List ℕ → ℕ
crc32 bytes = not32 (crc_bytes 0xffff_ffff bytes)

pub cic_of_crc : ℕ → Cic
cic_of_crc crc =
    if (crc == 0x6170_a4a1)
      || ((crc == 0x009e_9ea3)
          || ((crc == 0xcd19_fef1) || ((crc == 0xb98c_ed9a) || (crc == 0xe71c_2766))))
    then cic6101
    else if crc == 0x0b05_0ee0
    then cic6103
    else if crc == 0x98bc_2c86
    then cic6105
    else if crc == 0xacc8_580a
    then cic6106
    else cic6102

pub from_ipl3 : List ℕ → Cic
from_ipl3 rom =
    if ltb (length rom) 0x1000 then cic6102 else cic_of_crc (crc32 (read_block rom 0x40 0xfc0 0))

pub record CicBootSecrets : Type 0 where
  pub ipl2_seed : ℕ
  pub ipl3_seed : ℕ
  pub ipl2_checksum : List ℕ

pub boot_secrets : Cic → CicBootSecrets
boot_secrets cic6101 = record {
  ipl2_seed = 0x3f;
  ipl3_seed = 0x3f;
  ipl2_checksum = 0x45 ∷ 0xcc ∷ 0x73 ∷ 0xee ∷ 0x31 ∷ 0x7a ∷ [];
}
boot_secrets cic6102 = record {
  ipl2_seed = 0x3f;
  ipl3_seed = 0x3f;
  ipl2_checksum = 0xa5 ∷ 0x36 ∷ 0xc0 ∷ 0xf1 ∷ 0xd8 ∷ 0x59 ∷ [];
}
boot_secrets cic6103 = record {
  ipl2_seed = 0x78;
  ipl3_seed = 0x78;
  ipl2_checksum = 0x58 ∷ 0x6f ∷ 0xd4 ∷ 0x70 ∷ 0x98 ∷ 0x67 ∷ [];
}
boot_secrets cic6105 = record {
  ipl2_seed = 0x91;
  ipl3_seed = 0x91;
  ipl2_checksum = 0x86 ∷ 0x18 ∷ 0xa4 ∷ 0x5b ∷ 0xc2 ∷ 0xd3 ∷ [];
}
boot_secrets cic6106 = record {
  ipl2_seed = 0x85;
  ipl3_seed = 0x85;
  ipl2_checksum = 0x2b ∷ 0xba ∷ 0xd4 ∷ 0xe6 ∷ 0xeb ∷ 0x74 ∷ [];
}

pub record RomHeader : Type 0 where
  pub title : List ℕ
  pub game_code : List ℕ
  pub save_type : SaveType
  pub cic : Cic

pub parse : List ℕ → Result RomHeader
parse rom =
    if ltb (length rom) 0x40
    then err short_header
    else ok (record {
      title = read_block rom 0x20 20 0;
      game_code = read_block rom 0x3b 4 0;
      save_type = SaveType.no_save;
      cic = from_ipl3 rom;
    })

pub record Cart : Type 0 where
  pub rom : List ℕ
  pub header : RomHeader
  pub save : SaveDevice
  pub pif : Pif

abbrev pub rom_pi_base : ℕ
rom_pi_base = 0x1000_0000

abbrev pub flash_cir : ℕ
flash_cir = 0x0801_0000

abbrev is_pak : SaveType → Bool
is_pak SaveType.controller_pak = true
is_pak _ = false

pub insert : List ℕ → Result RomHeader → Result Cart
insert rom (err e) = err e
insert rom (ok header) = ok (record {
  rom = rom;
  header = header;
  save = Save.new header.save_type;
  pif = set_pak_present Pif.new 0 (is_pak header.save_type);
})

pub load_as : List ℕ → Option RomFormat → Result Cart
load_as raw none = err unknown_format
load_as raw (some format) = let rom = normalize_to_big_endian raw format in insert rom (parse rom)

pub load : List ℕ → Result Cart
load raw = load_as raw (detect raw)

-- Whether an address is in the window of the save memory.
abbrev in_save_window : ℕ → Bool
in_save_window addr = leb save_pi_base addr && ltb addr rom_pi_base

abbrev is_cir : ℕ → Bool
is_cir addr = bit_and addr (not32 3) == flash_cir

-- A byte of the image; an address below it is out of range.
pub rom_byte : Cart → ℕ → ℕ
rom_byte c addr = if ltb addr rom_pi_base then 0 else get_or c.rom (addr - rom_pi_base) 0

abbrev answered : Option ℕ → ℕ → ℕ
answered none v = v
answered (some b) v = b

pub pi_read : Cart → ℕ → ℕ
pi_read c addr =
    if in_save_window addr
    then answered (Save.pi_read c.save addr) (rom_byte c addr)
    else rom_byte c addr

pub pi_write : Cart → ℕ → ℕ → Cart
pi_write c addr val =
    if in_save_window addr && not (is_cir addr)
    then record c { save = Save.pi_write c.save addr val }
    else c

-- Byte `i` of a word, the highest first.
abbrev pub byte_of_word : ℕ → ℕ → ℕ
byte_of_word word i = u8 (word / 2 ^ (8 * (3 - i)))

pub pi_write_word : Cart → ℕ → ℕ → Cart
pi_write_word c addr word =
    if is_cir addr
    then record c { save = Save.flash_cir c.save word }
    else pi_write
        (pi_write
          (pi_write (pi_write c addr (byte_of_word word 0)) (add32 addr 1) (byte_of_word word 1))
          (add32 addr 2) (byte_of_word word 2))
        (add32 addr 3) (byte_of_word word 3)
