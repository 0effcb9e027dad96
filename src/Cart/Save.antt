-- ===== src/Cart/Save.antt =====
-- The save backends: `SaveDevice` of crates/rustyn64-cart/src/save.rs, `SaveType` of lib.rs.
pub mod RoundTrip
use rusty_n.Base.{ℕ, zero, suc, ◌+◌, ◌-◌, ◌*◌, ◌/◌, ◌%◌, ◌^◌}
use rusty_n.Base.{Bool, true, false, Option, none, some, List, [], ◌∷◌}
use rusty_n.Base.{sub32, get_or, set, replicate, read_block, write_block}
use rusty_n.Cart.Flash
use rusty_n.Cart.Flash.{FlashRam}

pub data SaveType : Type 0 where
  no_save eeprom4k eeprom16k sram flash_ram controller_pak : SaveType

-- The size of the backing store in bytes.
abbrev pub size_bytes : SaveType → ℕ
size_bytes SaveType.no_save = 0
size_bytes SaveType.eeprom4k = 512
size_bytes SaveType.eeprom16k = 2 * 1024
size_bytes SaveType.sram = 32 * 1024
size_bytes SaveType.flash_ram = 128 * 1024
size_bytes SaveType.controller_pak = 32 * 1024

pub data SaveDevice : Type 0 where
  no_save : SaveDevice
  eeprom : List ℕ → SaveDevice
  sram : List ℕ → SaveDevice
  flash : FlashRam → SaveDevice
  controller_pak : List ℕ → SaveDevice

abbrev pub save_pi_base : ℕ
save_pi_base = 0x0800_0000

abbrev flat : ℕ → List ℕ
flat n = replicate n 0

pub new : SaveType → SaveDevice
new SaveType.no_save = no_save
new SaveType.eeprom4k = eeprom (flat 512)
new SaveType.eeprom16k = eeprom (flat (2 * 1024))
new SaveType.sram = sram (flat (32 * 1024))
new SaveType.flash_ram = flash Flash.new
new SaveType.controller_pak = controller_pak (flat (32 * 1024))

-- A read on the PI bus; `none` for a backend that is not on it.
pub pi_read : SaveDevice → ℕ → Option ℕ
pi_read (sram store) addr = some (get_or store (sub32 addr save_pi_base) 0)
pi_read (flash f) addr = some (Flash.read f (sub32 addr save_pi_base))
pi_read _ addr = none

pub pi_write : SaveDevice → ℕ → ℕ → SaveDevice
pi_write (sram store) addr val = sram (set store (sub32 addr save_pi_base) val)
pi_write (flash f) addr val = flash (Flash.write f (sub32 addr save_pi_base) val)
pi_write d addr val = d

pub flash_cir : SaveDevice → ℕ → SaveDevice
flash_cir (flash f) cmd = flash (Flash.write_cir f cmd)
flash_cir d cmd = d

-- The block that `out` holds afterwards: another backend leaves it alone.
pub eeprom_read_block : SaveDevice → ℕ → List ℕ → List ℕ
eeprom_read_block (eeprom store) block out = read_block store (block * 8) 8 0
eeprom_read_block _ block out = out

pub eeprom_write_block : SaveDevice → ℕ → List ℕ → SaveDevice
eeprom_write_block (eeprom store) block bytes = eeprom (write_block store (block * 8) bytes)
eeprom_write_block d block bytes = d

pub cpak_read : SaveDevice → ℕ → List ℕ → List ℕ
cpak_read (controller_pak store) addr out = read_block store addr 32 0
cpak_read _ addr out = out

pub cpak_write : SaveDevice → ℕ → List ℕ → SaveDevice
cpak_write (controller_pak store) addr bytes = controller_pak (write_block store addr bytes)
cpak_write d addr bytes = d

-- The bytes that the host keeps in the save file.
pub backing : SaveDevice → List ℕ
backing no_save = []
backing (eeprom s) = s
backing (sram s) = s
backing (controller_pak s) = s
backing (flash f) = f.array
