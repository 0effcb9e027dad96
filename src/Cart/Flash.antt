-- ===== src/Cart/Flash.antt =====
-- The FlashRAM chip: `FlashRam` of crates/rustyn64-cart/src/save.rs.
pub mod Invariant
pub mod Program
pub mod Rewrite
use rusty_n.Base.{ℕ, zero, suc, ◌+◌, ◌-◌, ◌*◌, ◌/◌, ◌%◌, ◌^◌, min, bit_and}
use rusty_n.Base.{Bool, true, false, Option, none, some, List, [], ◌∷◌, ◌&&◌}
use rusty_n.Base.{ltb, leb, ◌==◌, if◌then◌else◌, shr, length, get_or, set, replicate, map_from}

abbrev pub flash_size : ℕ
flash_size = 128 * 1024

abbrev pub flash_page : ℕ
flash_page = 128

abbrev pub flash_sector_pages : ℕ
flash_sector_pages = 128

abbrev pub flash_sector : ℕ
flash_sector = flash_sector_pages * flash_page

pub data FlashMode : Type 0 where
  read_array status_mode silicon_id load_page : FlashMode

pub record FlashRam : Type 0 where
  pub array : List ℕ
  pub page_buffer : List ℕ
  pub mode : FlashMode
  pub erase_sector : Option ℕ
  pub chip_erase : Bool
  pub status : ℕ

abbrev pub flash_status_erase_ok : ℕ
flash_status_erase_ok = 0x08

abbrev pub flash_status_program_ok : ℕ
flash_status_program_ok = 0x04

pub new : FlashRam
new = record {
  array = replicate flash_size 0xff;
  page_buffer = replicate flash_page 0xff;
  mode = read_array;
  erase_sector = none;
  chip_erase = false;
  status = 0;
}

-- Is index `i` in `lo..hi`?
abbrev pub in_range : ℕ → ℕ → ℕ → Bool
in_range lo hi i = leb lo i && ltb i hi

-- `array[lo..hi].fill(0xFF)`
pub fill : ℕ → ℕ → List ℕ → List ℕ
fill lo hi array = map_from (λ i a. if in_range lo hi i then 0xff else a) 0 array

-- The pending erase: of the chip, of a sector, or none. The end of the sector is cut to the array.
pub erased : List ℕ → Option ℕ → List ℕ
erased array (some base) = fill base (min (base + flash_sector) (length array)) array
erased array none = array

-- Sector erase setup: the page is rounded down to its sector, and the sector cut to the last one.
pub setup_sector : FlashRam → ℕ → FlashRam
setup_sector f cmd =
    let sector = min (bit_and cmd 0xffff / flash_sector_pages) (flash_size / flash_sector - 1) in
    record f { chip_erase = false; erase_sector = some (sector * flash_sector) }

pub execute_erase : FlashRam → FlashRam
execute_erase f = record f {
  array = if f.chip_erase then map_from (λ i a. 0xff) 0 f.array else erased f.array f.erase_sector;
  chip_erase = false;
  erase_sector = none;
  status = flash_status_erase_ok;
  mode = status_mode;
}

-- `array[base..base + FLASH_PAGE]` zipped with the page buffer, each byte `&=` its partner.
pub program_at : ℕ → List ℕ → List ℕ → List ℕ
program_at base page array =
    map_from
      (λ i a.
        if in_range base (base + flash_page) i then bit_and a (get_or page (i - base) 0) else a)
      0 array

pub program_page : FlashRam → ℕ → FlashRam
program_page f cmd =
    let base = bit_and cmd 0xffff * flash_page in
    record f {
      array =
          if leb (base + flash_page) (length f.array)
          then program_at base f.page_buffer f.array
          else f.array;
      status = flash_status_program_ok;
      mode = status_mode;
    }

-- A write of the command register.
pub write_cir : FlashRam → ℕ → FlashRam
write_cir f cmd =
    let op = shr cmd 24 in
    if op == 0xf0
    then record f { mode = read_array }
    else if op == 0xe1
    then record f { mode = silicon_id }
    else if op == 0xb4
    then record f { mode = load_page; page_buffer = replicate flash_page 0xff }
    else if op == 0x3c
    then record f { chip_erase = true; erase_sector = none }
    else if op == 0x4b
    then setup_sector f cmd
    else if op == 0x78
    then execute_erase f
    else if op == 0xa5
    then program_page f cmd
    else f

abbrev silicon : List ℕ
silicon = 0x11 ∷ 0x11 ∷ 0x80 ∷ 0x00 ∷ 0xc2 ∷ 0x00 ∷ 0x1d ∷ 0x00 ∷ []

read_in : FlashMode → FlashRam → ℕ → ℕ
read_in read_array f off = get_or f.array off 0xff
read_in status_mode f off = if bit_and off 1 == 1 then f.status else 0
read_in silicon_id f off = get_or silicon (bit_and off 7) 0
read_in load_page f off = get_or f.page_buffer (bit_and off (flash_page - 1)) 0xff

-- A byte read at offset `off` of the base window.
pub read : FlashRam → ℕ → ℕ
unfolding read_in
read f off = read_in f.mode f off

write_in : FlashMode → FlashRam → ℕ → ℕ → FlashRam
write_in load_page f off val = record f {
  page_buffer = set f.page_buffer (bit_and off (flash_page - 1)) val;
}
write_in _ f off val = f

-- A byte written at offset `off` of the base window: it reaches the page buffer, in one mode.
pub write : FlashRam → ℕ → ℕ → FlashRam
unfolding write_in
write f off val = write_in f.mode f off val

-- What the cartridge bus does to the chip: a command word, or a byte to the window.
pub data FlashOp : Type 0 where
  command : ℕ → FlashOp
  byte : ℕ → ℕ → FlashOp

pub run : FlashRam → List FlashOp → FlashRam
run f [] = f
run f (command c ∷ ops) = run (write_cir f c) ops
run f (byte off val ∷ ops) = run (write f off val) ops
