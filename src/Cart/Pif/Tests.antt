-- ===== src/Cart/Pif/Tests.antt =====
-- Tests of the peripheral interface's model.
use rusty_n.Base.{
  ℕ, ◌+◌, ◌≡◌, ◌↔◌, refl, arith, true, false, List, [], ◌∷◌, none, some, any_set, length,
  length-replicate, replicate, read_block,
}
use rusty_n.Cart.Pif.{Pif, boot_command, has_boot_rom, read, write, cmd_byte, pif_ram_len}
use rusty_n.Cart.Pif.Boot.{boot_command_verdict}
use rusty_n.Cart.Pif.Frames.{finished, rounds, start, execute, Walk}
use rusty_n.Cart.Pif.Frames.Ports.{execute_once}
use rusty_n.Cart.Pif.Frames.Rounds.{rounds_end}
use rusty_n.Cart.Pif.Joybus.{Frame, run_channel}
use rusty_n.Cart.Pif.Joybus.Storage.{eeprom_frames}
use rusty_n.Cart.Save.{SaveDevice}

-- An identify command for the first port, and the end of the list.
abbrev poll : List ℕ
poll =
    1 ∷ 3 ∷ 0 ∷ 0 ∷ 0 ∷ 0 ∷ 254 ∷ 0 ∷ 0 ∷ 0 ∷ 0 ∷ 0 ∷ 0 ∷ 0 ∷ 0 ∷ 0 ∷ 0 ∷ 0 ∷ 0 ∷ 0 ∷ 0 ∷ 0 ∷ 0 ∷ 0
    ∷ 0 ∷ 0 ∷ 0 ∷ 0 ∷ 0 ∷ 0 ∷ 0 ∷ 0 ∷ 0 ∷ 0 ∷ 0 ∷ 0 ∷ 0 ∷ 0 ∷ 0 ∷ 0 ∷ 0 ∷ 0 ∷ 0 ∷ 0 ∷ 0 ∷ 0 ∷ 0 ∷ 0
    ∷ 0 ∷ 0 ∷ 0 ∷ 0 ∷ 0 ∷ 0 ∷ 0 ∷ 0 ∷ 0 ∷ 0 ∷ 0 ∷ 0 ∷ 0 ∷ 0 ∷ 0 ∷ 1 ∷ []

-- A write and a read of block 3 of the EEPROM.
abbrev write_command : List ℕ
write_command =
    10 ∷ 1 ∷ 5 ∷ 3 ∷ 1 ∷ 18 ∷ 35 ∷ 52 ∷ 69 ∷ 86 ∷ 103 ∷ 120 ∷ 254 ∷ 0 ∷ 0 ∷ 0 ∷ 0 ∷ 0 ∷ 0 ∷ 0 ∷ 0
    ∷ 0 ∷ 0 ∷ 0 ∷ 0 ∷ 0 ∷ 0 ∷ 0 ∷ 0 ∷ 0 ∷ 0 ∷ 0 ∷ 0 ∷ 0 ∷ 0 ∷ 0 ∷ 0 ∷ 0 ∷ 0 ∷ 0 ∷ 0 ∷ 0 ∷ 0 ∷ 0 ∷ 0
    ∷ 0 ∷ 0 ∷ 0 ∷ 0 ∷ 0 ∷ 0 ∷ 0 ∷ 0 ∷ 0 ∷ 0 ∷ 0 ∷ 0 ∷ 0 ∷ 0 ∷ 0 ∷ 0 ∷ 0 ∷ 0 ∷ 1 ∷ []

abbrev read_command : List ℕ
read_command =
    2 ∷ 8 ∷ 4 ∷ 3 ∷ 0 ∷ 0 ∷ 0 ∷ 0 ∷ 0 ∷ 0 ∷ 0 ∷ 0 ∷ 254 ∷ 0 ∷ 0 ∷ 0 ∷ 0 ∷ 0 ∷ 0 ∷ 0 ∷ 0 ∷ 0 ∷ 0 ∷ 0
    ∷ 0 ∷ 0 ∷ 0 ∷ 0 ∷ 0 ∷ 0 ∷ 0 ∷ 0 ∷ 0 ∷ 0 ∷ 0 ∷ 0 ∷ 0 ∷ 0 ∷ 0 ∷ 0 ∷ 0 ∷ 0 ∷ 0 ∷ 0 ∷ 0 ∷ 0 ∷ 0 ∷ 0
    ∷ 0 ∷ 0 ∷ 0 ∷ 0 ∷ 0 ∷ 0 ∷ 0 ∷ 0 ∷ 0 ∷ 0 ∷ 0 ∷ 0 ∷ 0 ∷ 0 ∷ 0 ∷ 1 ∷ []

-- The checksum 1 to 6, the lockout and the request for the checksum.
abbrev handshake : List ℕ
handshake =
    0 ∷ 0 ∷ 0 ∷ 0 ∷ 0 ∷ 0 ∷ 0 ∷ 0 ∷ 0 ∷ 0 ∷ 0 ∷ 0 ∷ 0 ∷ 0 ∷ 0 ∷ 0 ∷ 0 ∷ 0 ∷ 0 ∷ 0 ∷ 0 ∷ 0 ∷ 0 ∷ 0
    ∷ 0 ∷ 0 ∷ 0 ∷ 0 ∷ 0 ∷ 0 ∷ 0 ∷ 0 ∷ 0 ∷ 0 ∷ 0 ∷ 0 ∷ 0 ∷ 0 ∷ 0 ∷ 0 ∷ 0 ∷ 0 ∷ 0 ∷ 0 ∷ 0 ∷ 0 ∷ 0 ∷ 0
    ∷ 0 ∷ 0 ∷ 1 ∷ 2 ∷ 3 ∷ 4 ∷ 5 ∷ 6 ∷ 0 ∷ 0 ∷ 0 ∷ 0 ∷ 0 ∷ 0 ∷ 0 ∷ 48 ∷ []

abbrev port : List ℕ → Pif
port ram = record {
  ram = ram;
  pak_present = true ∷ false ∷ false ∷ false ∷ [];
  connected = true ∷ false ∷ false ∷ false ∷ [];
  boot_rom = some [];
  boot_checksum = some (1 ∷ 2 ∷ 3 ∷ 4 ∷ 5 ∷ 6 ∷ []);
  boot_acquired = none;
  rom_locked = false;
}

rounds_end_example :
    (finished (rounds cmd_byte [] (start (port poll) SaveDevice.no_save)) ≡ true)
    × (rounds (cmd_byte + 5) [] (start (port poll) SaveDevice.no_save)
        ≡ rounds cmd_byte [] (start (port poll) SaveDevice.no_save))
rounds_end_example = rounds_end (port poll) [] SaveDevice.no_save 5

abbrev after_poll : Walk
after_poll = record {
  pif = port poll;
  save = SaveDevice.no_save;
  i = 6;
  channel = 1;
  stopped = false;
}

execute_once_example :
    (length (execute (port poll) [] SaveDevice.no_save).0.ram ≡ pif_ram_len)
    × (execute (execute (port poll) [] SaveDevice.no_save).0 (7 ∷ []) SaveDevice.no_save
        ≡ ((execute (port poll) [] SaveDevice.no_save).0, SaveDevice.no_save))
execute_once_example =
    execute_once (port poll) [] (7 ∷ []) SaveDevice.no_save SaveDevice.no_save refl

-- The same command at the second port, which is empty.
abbrev second : Frame
second = record { channel = 1; rx_byte = 1; cmd = 2; tx_len = 1; resp = 3; rx_len = 3 }

poll_size : length poll ≡ 64
poll_size = refl

abbrev pak_frame : Frame
pak_frame = record { channel = 0; rx_byte = 1; cmd = 2; tx_len = 3; resp = 5; rx_len = 33 }

abbrev store_frame : Frame
store_frame = record { channel = 4; rx_byte = 1; cmd = 2; tx_len = 10; resp = 12; rx_len = 1 }

abbrev load_frame : Frame
load_frame = record { channel = 4; rx_byte = 1; cmd = 2; tx_len = 2; resp = 4; rx_len = 8 }

read_command_size : length read_command ≡ 64
read_command_size = refl

abbrev chip : List ℕ
chip = replicate 512 0

chip_size : length chip ≡ 512
chip_size = length-replicate 512 0

eeprom_frames_example :
    read_block
      (run_channel
        (port read_command)
        load_frame
        []
        (run_channel (port write_command) store_frame [] (SaveDevice.eeprom chip)).1).0.ram
      4
      8
      0
    ≡ read_block write_command (2 + 2) 8 0
eeprom_frames_example =
    eeprom_frames (port write_command) (port read_command) store_frame load_frame [] [] chip
      (refl, (refl, omega arith)) (refl, (refl, (omega arith, omega arith)))
      (omega (arith, read_command_size)) refl (omega (arith, chip_size)) (omega (arith, chip_size))

boots : has_boot_rom (port handshake) ≡ true
unfolding has_boot_rom
boots = refl

asks_for_checksum :
    (any_set (read (port handshake) cmd_byte) 0x20 ≡ true)
    × (any_set (read (port handshake) cmd_byte) 0x40 ≡ false)
unfolding read
asks_for_checksum = (refl, refl)

boot_command_verdict_example :
    ((boot_command (port handshake)).1 ≡ false)
    × (read_block (boot_command (port handshake)).0.ram 0x32 6 0 ≡ replicate 6 0)
    × (any_set (read (boot_command (port handshake)).0 cmd_byte) 0x80 ≡ true)
    × (((boot_command (write (boot_command (port handshake)).0 cmd_byte 0x40)).1 ≡ false)
        ↔ (read_block handshake 0x32 6 0 ≡ 1 ∷ 2 ∷ 3 ∷ 4 ∷ 5 ∷ 6 ∷ []))
boot_command_verdict_example =
    boot_command_verdict (port handshake) (1 ∷ 2 ∷ 3 ∷ 4 ∷ 5 ∷ 6 ∷ []) 0x40 refl boots refl
      asks_for_checksum.0 asks_for_checksum.1 refl refl
