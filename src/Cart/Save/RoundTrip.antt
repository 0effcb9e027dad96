-- ===== src/Cart/Save/RoundTrip.antt =====
-- What is written to a backend is read back, and what else it holds is kept.
use rusty_n.Base.{ℕ, ◌+◌, ◌*◌, ◌%◌, ◌^◌, ◌≤◌, ◌<◌, ◌≡◌, refl, ap, ◌∙◌, sym, arith, ◌⊎◌}
use rusty_n.Base.{some, List, [], ◌∷◌, ◌&&◌, if◌then◌else◌, ◌==◌, ltb}
use rusty_n.Base.{sub32, read_block, write_block, length, length-set, length-write_block}
use rusty_n.Base.{
  read_block-write_block, write_block_outside, get_or-read_block, length-read_block, get_or_ext,
  get_or-set_self, set_beyond, get_or-set_ne, length-replicate,
}
use rusty_n.Cart.Flash.Invariant.{new-IsValid, length-write_cir, array-write}
use rusty_n.Cart.Save.{
  SaveType, size_bytes, SaveDevice, no_save, eeprom, sram, flash, controller_pak,
}
use rusty_n.Cart.Save.{
  save_pi_base, new, pi_read, pi_write, flash_cir, eeprom_read_block, eeprom_write_block,
}
use rusty_n.Cart.Save.{cpak_read, cpak_write, backing}

-- A block write is not seen by a read of a block that does not meet it.
pub read_block_apart :
    (xs ys : List ℕ) (base other n : ℕ)
    → (other + n ≤ base) ⊎ (base + length ys ≤ other)
    → read_block (write_block xs base ys) other n 0 ≡ read_block xs other n 0
read_block_apart xs ys base other n apart =
    get_or_ext _ _ 0 (length-read_block n _ other 0 ∙ sym (length-read_block n xs other 0)) λ i lt.
      let lt' : i < n = omega (arith, length-read_block n (write_block xs base ys) other 0) in
      get_or-read_block n (write_block xs base ys) other i 0 lt'
      ∙ (write_block_outside ys xs base (other + i) 0 (omega arith)
          ∙ sym (get_or-read_block n xs other i 0 lt'))

write_block_beyond : (ys xs : List ℕ) (base : ℕ) → length xs ≤ base → write_block xs base ys ≡ xs
unfolding write_block
write_block_beyond [] xs base h = refl
write_block_beyond (y ∷ ys) xs base h =
    ap (λ (zs : List ℕ). write_block zs (base + 1) ys) (set_beyond xs base y h)
    ∙ write_block_beyond ys xs (base + 1) (omega arith)

-- On an EEPROM of whole blocks, a block read after a block write gives the written bytes if it is
-- the same block and lies in the store, and what it gave before otherwise.
pub eeprom_read-write :
    (store bytes out : List ℕ) (b c : ℕ)
    → length store % 8 ≡ 0
    → length bytes ≡ 8
    → eeprom_read_block (eeprom_write_block (eeprom store) b bytes) c out ≡ (
        if (b == c) && ltb (b * 8) (length store)
        then bytes
        else eeprom_read_block (eeprom store) c out)
unfolding eeprom_read_block eeprom_write_block
eeprom_read-write store bytes out b c whole e = ground (
  arith,
  same,
  write_block_beyond bytes store (b * 8),
  read_block_apart store bytes (b * 8) (c * 8) 8,
)
  where
    same :
        b ≡ c
        → b * 8 < length store
        → read_block (write_block store (b * 8) bytes) (c * 8) 8 0 ≡ bytes
    same p h =
        ap (λ (t : ℕ). read_block (write_block store (b * 8) bytes) (t * 8) 8 0) (sym p)
        ∙ (ap (λ (n : ℕ). read_block (write_block store (b * 8) bytes) (b * 8) n 0) (sym e)
            ∙ read_block-write_block bytes store (b * 8) 0 (omega arith))

-- A Controller Pak block read after a block write gives the written bytes at the same address, and
-- what it gave before at an address whose 32 bytes do not meet them.
pub cpak_read-write :
    (store bytes out : List ℕ) (a c : ℕ)
    → length bytes ≡ 32
    → a + 32 ≤ length store
    → (cpak_read (cpak_write (controller_pak store) a bytes) a out ≡ bytes)
      × ((c + 32 ≤ a) ⊎ (a + 32 ≤ c)
          → cpak_read (cpak_write (controller_pak store) a bytes) c out
            ≡ cpak_read (controller_pak store) c out)
unfolding cpak_read cpak_write
cpak_read-write store bytes out a c e h = (
  ap (λ (n : ℕ). read_block (write_block store a bytes) a n 0) (sym e)
      ∙ read_block-write_block bytes store a 0 (omega arith),
  λ apart. read_block_apart store bytes a c 32 (omega arith),
)

-- An SRAM byte written on the PI bus is read back at its address if that lies in the store, and
-- every other address reads as before.
pub pi_read-pi_write :
    (store : List ℕ) (a b v : ℕ)
    → a < 2 ^ 32
    → b < 2 ^ 32
    → pi_read (pi_write (sram store) a v) b ≡ (
        if (a == b) && ltb (sub32 a save_pi_base) (length store)
        then some v
        else pi_read (sram store) b)
unfolding pi_read pi_write
pi_read-pi_write store a b v ha hb = ground (
  arith,
  get_or-set_self store (sub32 a save_pi_base) v 0,
  get_or-set_ne store (sub32 a save_pi_base) (sub32 b save_pi_base) v 0,
  set_beyond store (sub32 a save_pi_base) v,
)

-- What the guest does to a backend.
pub data Access : Type 0 where
  bus_write : ℕ → ℕ → Access
  bus_command : ℕ → Access
  block_write : ℕ → List ℕ → Access
  pak_write : ℕ → List ℕ → Access

pub access : SaveDevice → Access → SaveDevice
access d (bus_write a v) = pi_write d a v
access d (bus_command c) = flash_cir d c
access d (block_write b bytes) = eeprom_write_block d b bytes
access d (pak_write a bytes) = cpak_write d a bytes

pub run : SaveDevice → List Access → SaveDevice
run d [] = d
run d (x ∷ xs) = run (access d x) xs

length-access : (d : SaveDevice) (x : Access) → length (backing (access d x)) ≡ length (backing d)
unfolding access pi_write flash_cir eeprom_write_block cpak_write backing
length-access no_save (bus_write a v) = refl
length-access no_save (bus_command c) = refl
length-access no_save (block_write b bytes) = refl
length-access no_save (pak_write a bytes) = refl
length-access (sram s) (bus_write a v) = length-set s _ v
length-access (flash f) (bus_write a v) = ap length (array-write f _ v)
length-access (flash f) (bus_command c) = length-write_cir f c
length-access (eeprom s) (block_write b bytes) = length-write_block bytes s (b * 8)
length-access (controller_pak s) (pak_write a bytes) = length-write_block bytes s a
length-access (eeprom s) _ = refl
length-access (sram s) _ = refl
length-access (flash f) _ = refl
length-access (controller_pak s) _ = refl

length-new : (t : SaveType) → length (backing (new t)) ≡ size_bytes t
unfolding new backing
length-new SaveType.no_save = refl
length-new SaveType.eeprom4k = length-replicate {A = ℕ} 512 0
length-new SaveType.eeprom16k = length-replicate {A = ℕ} (2 * 1024) 0
length-new SaveType.sram = length-replicate {A = ℕ} (32 * 1024) 0
length-new SaveType.flash_ram = new-IsValid.size
length-new SaveType.controller_pak = length-replicate {A = ℕ} (32 * 1024) 0

length-run : (d : SaveDevice) (xs : List Access) → length (backing (run d xs)) ≡ length (backing d)
unfolding run
length-run d [] = refl
length-run d (x ∷ xs) = length-run (access d x) xs ∙ length-access d x

-- Whatever the guest writes to a backend, over whichever path, the save file keeps the size of its
-- save type.
pub backing-size :
    (t : SaveType) (xs : List Access) → length (backing (run (new t) xs)) ≡ size_bytes t
backing-size t xs = length-run (new t) xs ∙ length-new t

pub length-cpak_read :
    (d : SaveDevice) (addr : ℕ) (out : List ℕ)
    → length out ≡ 32
    → length (cpak_read d addr out) ≡ 32
unfolding cpak_read
length-cpak_read (controller_pak store) addr out h = length-read_block 32 store addr 0
length-cpak_read (eeprom store) addr out h = h
length-cpak_read (sram store) addr out h = h
length-cpak_read (flash chip) addr out h = h
length-cpak_read no_save addr out h = h

pub eeprom_write_lem :
    (store : List ℕ) (block : ℕ) (bytes : List ℕ)
    → eeprom_write_block (eeprom store) block bytes ≡ eeprom (write_block store (block * 8) bytes)
unfolding eeprom_write_block
eeprom_write_lem store block bytes = refl

pub length-eeprom_read_block :
    (store : List ℕ) (block : ℕ) (out : List ℕ)
    → length (eeprom_read_block (eeprom store) block out) ≡ 8
unfolding eeprom_read_block
length-eeprom_read_block store block out = length-read_block 8 store (block * 8) 0
