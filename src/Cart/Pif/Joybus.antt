-- ===== src/Cart/Pif/Joybus.antt =====
-- The commands of the joybus: `run_channel` of crates/rustyn64-cart/src/pif.rs, one function for each
-- of its cases. A frame has its command at `cmd` and its answer at `resp`, in the RAM.
pub mod Answers
pub mod Storage
use rusty_n.Base.{ℕ, ◌+◌, ◌-◌, ◌*◌, ◌/◌, ◌%◌, ◌^◌, bit_and, min}
use rusty_n.Base.{Bool, true, false, not, ◌&&◌, ◌||◌, List, [], ◌∷◌}
use rusty_n.Base.{
  if◌then◌else◌, ◌==◌, ltb, leb, length, get_or, set, replicate, read_block, write_block,
}
use rusty_n.Cart.Pif.{Pif, data_crc, mark_no_device}
use rusty_n.Cart.Save.{SaveDevice, eeprom_read_block, eeprom_write_block, cpak_read, cpak_write}

-- The places of a frame, and the lengths of its two parts.
pub record Frame : Type 0 where
  pub channel : ℕ
  pub rx_byte : ℕ
  pub cmd : ℕ
  pub tx_len : ℕ
  pub resp : ℕ
  pub rx_len : ℕ

abbrev pak_at : Pif → ℕ → Bool
pak_at p channel = get_or p.pak_present channel false

-- The answer with bytes stored from `resp` on.
abbrev respond : Pif → ℕ → List ℕ → Pif
respond p resp bytes = record p { ram = write_block p.ram resp bytes }

abbrev to_be_bytes : ℕ → List ℕ
to_be_bytes w = w / 2 ^ 24 % 2 ^ 8 ∷ w / 2 ^ 16 % 2 ^ 8 ∷ w / 2 ^ 8 % 2 ^ 8 ∷ w % 2 ^ 8 ∷ []

pub identify : Pif → Frame → Pif
identify p f =
    if leb 3 f.rx_len
    then respond p f.resp (0x05 ∷ 0x00 ∷ (if pak_at p f.channel then 0x01 else 0x02) ∷ [])
    else p

pub buttons : Pif → Frame → List ℕ → Pif
buttons p f controllers =
    respond p f.resp
      (read_block (to_be_bytes (get_or controllers f.channel 0)) 0 (min f.rx_len 4) 0)

-- The address in the two bytes behind the command, without the digits of its own checksum.
pub pak_address : Pif → Frame → ℕ
pak_address p f = bit_and (get_or p.ram (f.cmd + 1) 0 * 2 ^ 8 + get_or p.ram (f.cmd + 2) 0) 0xffe0

abbrev pak_crc : Pif → ℕ → List ℕ → ℕ
pak_crc p channel block = if pak_at p channel then data_crc block else 255 - data_crc block

-- The block that a read of the pak gives: zeros without a pak.
pub pak_block : Pif → Frame → SaveDevice → List ℕ
pak_block p f save =
    let zeros = replicate 32 0 in
    if pak_at p f.channel then cpak_read save (pak_address p f) zeros else zeros

pub pak_read : Pif → Frame → SaveDevice → Pif
pak_read p f save =
    let block = pak_block p f save in
    let copied = respond p f.resp (read_block block 0 (min f.rx_len 32) 0) in
    if leb 33 f.rx_len
    then record copied { ram = set copied.ram (f.resp + 32) (pak_crc p f.channel block) }
    else copied

pub pak_write : Pif → Frame → SaveDevice → Pif × SaveDevice
pak_write p f save =
    let block = read_block p.ram (f.cmd + 3) 32 0 in
    let saved = cpak_write save (pak_address p f) block in
    (
      (if leb 1 f.rx_len
          then record p { ram = set p.ram f.resp (pak_crc p f.channel block) }
          else p),
      (if pak_at p f.channel then saved else save),
    )

pub eeprom_identify : Pif → Frame → SaveDevice → Pif
eeprom_identify p f (SaveDevice.eeprom store) =
    if leb 3 f.rx_len
    then respond p f.resp (0x00 ∷ (if ltb 512 (length store) then 0xc0 else 0x80) ∷ 0x00 ∷ [])
    else p
eeprom_identify p f _ = mark_no_device p f.rx_byte

pub eeprom_read : Pif → Frame → SaveDevice → Pif
eeprom_read p f save =
    let block = eeprom_read_block save (get_or p.ram (f.cmd + 1) 0) (replicate 8 0) in
    respond p f.resp (read_block block 0 (min f.rx_len 8) 0)

pub eeprom_write : Pif → Frame → SaveDevice → Pif × SaveDevice
eeprom_write p f save =
    let bytes = read_block p.ram (f.cmd + 2) 8 0 in
    (
      (if leb 1 f.rx_len then record p { ram = set p.ram f.resp 0 } else p),
      eeprom_write_block save (get_or p.ram (f.cmd + 1) 0) bytes,
    )

abbrev pub is_eeprom : SaveDevice → Bool
is_eeprom (SaveDevice.eeprom store) = true
is_eeprom _ = false

-- The commands of the controller ports, and those of the cartridge's port.
pub run_controller : Pif → Frame → List ℕ → SaveDevice → Pif × SaveDevice
run_controller p f controllers save =
    let command = get_or p.ram f.cmd 0 in
    if (command == 0) || (command == 0xff)
    then (identify p f, save)
    else if command == 1
    then (buttons p f controllers, save)
    else if (command == 2) && leb 3 f.tx_len
    then (pak_read p f save, save)
    else if (command == 3) && leb 35 f.tx_len
    then pak_write p f save
    else (mark_no_device p f.rx_byte, save)

pub run_cartridge : Pif → Frame → SaveDevice → Pif × SaveDevice
run_cartridge p f save =
    let command = get_or p.ram f.cmd 0 in
    if (command == 0) || (command == 0xff)
    then (eeprom_identify p f save, save)
    else if (command == 4) && (leb 2 f.tx_len && is_eeprom save)
    then (eeprom_read p f save, save)
    else if (command == 5) && (leb 10 f.tx_len && is_eeprom save)
    then eeprom_write p f save
    else (mark_no_device p f.rx_byte, save)

pub run_channel : Pif → Frame → List ℕ → SaveDevice → Pif × SaveDevice
run_channel p f controllers save =
    if f.tx_len == 0
    then (p, save)
    else if ltb f.channel 4
    then run_controller p f controllers save
    else if f.channel == 4
    then run_cartridge p f save
    else (mark_no_device p f.rx_byte, save)
