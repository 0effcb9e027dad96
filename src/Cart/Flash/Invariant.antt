-- ===== src/Cart/Flash/Invariant.antt =====
-- The chip keeps its geometry, and its bytes are bytes, under every command.
use rusty_n.Base.{ℕ, ◌+◌, ◌-◌, ◌%◌, ◌≤◌, ◌<◌, ◌≡◌, refl, ◌∙◌, arith}
use rusty_n.Base.{true, Option, none, some, List, [], ◌∷◌}
use rusty_n.Base.{if_keeps, length, get_or, replicate, All}
use rusty_n.Base.{length-set, length-replicate, length-map_from, All-set, All-replicate}
use rusty_n.Base.{All-map_from, bit_and-le}
use rusty_n.Cart.Flash.{FlashRam, FlashMode, read_array, silicon_id, load_page}
use rusty_n.Cart.Flash.{flash_size, flash_page, flash_sector, new, fill, erased, setup_sector}
use rusty_n.Cart.Flash.{
  execute_erase, program_at, program_page, write_cir, write_in, write, FlashOp, command, byte, run,
}

abbrev pub IsByte : ℕ → Type 0
IsByte b = b < 256

-- A pending sector erase covers one of the eight sectors.
abbrev pub IsSector : Option ℕ → Type 0
IsSector none = Unit
IsSector (some base) = (base % flash_sector ≡ 0) × (base + flash_sector ≤ flash_size)

pub record IsValid (f : FlashRam) : Type 0 where
  pub size : length f.array ≡ flash_size
  pub page_size : length f.page_buffer ≡ flash_page
  pub bytes : All IsByte f.array
  pub page_bytes : All IsByte f.page_buffer
  pub sector : IsSector f.erase_sector

pub new-IsValid : IsValid new
unfolding new
new-IsValid = record {
  size = length-replicate flash_size 0xff;
  page_size = length-replicate flash_page 0xff;
  bytes = All-replicate IsByte flash_size 0xff (omega arith);
  page_bytes = All-replicate IsByte flash_page 0xff (omega arith);
  sector = tt;
}

fill-IsByte : (lo hi : ℕ) (xs : List ℕ) → All IsByte xs → All IsByte (fill lo hi xs)
unfolding fill
fill-IsByte lo hi xs h = All-map_from IsByte _ 0 xs (λ i x hx. ground arith) h

pub length-fill : (lo hi : ℕ) (xs : List ℕ) → length (fill lo hi xs) ≡ length xs
unfolding fill
length-fill lo hi xs = length-map_from _ 0 xs

length-erased : (array : List ℕ) (o : Option ℕ) → length (erased array o) ≡ length array
unfolding erased
length-erased array none = refl
length-erased array (some base) = length-fill base _ array

erased_lem :
    (array : List ℕ) (o : Option ℕ)
    → All IsByte array
    → (length (erased array o) ≡ length array) × All IsByte (erased array o)
unfolding erased
erased_lem array none h = (refl, h)
erased_lem array (some base) h = (length-fill base _ array, fill-IsByte base _ array h)

length-program_at : (base : ℕ) (page xs : List ℕ) → length (program_at base page xs) ≡ length xs
unfolding program_at
length-program_at base page xs = length-map_from _ 0 xs

program_at-IsByte :
    (base : ℕ) (page xs : List ℕ) → All IsByte xs → All IsByte (program_at base page xs)
unfolding program_at
program_at-IsByte base page xs h =
    All-map_from IsByte _ 0 xs (λ i x hx. ground (arith, bit_and-le x (get_or page (i - base) 0))) h

execute_erase-IsValid : (f : FlashRam) → IsValid f → IsValid (execute_erase f)
unfolding execute_erase
execute_erase-IsValid f v =
    let part = erased_lem f.array f.erase_sector v.bytes in
    record {
      size =
          if_keeps (λ (xs : List ℕ). length xs ≡ flash_size) f.chip_erase _ _
            (length-map_from _ 0 f.array ∙ v.size) (part.0 ∙ v.size);
      page_size = v.page_size;
      bytes =
          if_keeps (All IsByte) f.chip_erase _ _
            (All-map_from IsByte _ 0 f.array (λ i x hx. omega arith) v.bytes) part.1;
      page_bytes = v.page_bytes;
      sector = tt;
    }

setup_sector-IsValid : (f : FlashRam) (cmd : ℕ) → IsValid f → IsValid (setup_sector f cmd)
unfolding setup_sector
setup_sector-IsValid f cmd v = record {
  size = v.size;
  page_size = v.page_size;
  bytes = v.bytes;
  page_bytes = v.page_bytes;
  sector = (omega arith, omega arith);
}

pub length-program_page :
    (f : FlashRam) (cmd : ℕ) → length (program_page f cmd).array ≡ length f.array
unfolding program_page
length-program_page f cmd =
    if_keeps (λ (xs : List ℕ). length xs ≡ length f.array) _ _ _ (length-program_at _ _ f.array)
      refl

program_page-IsValid : (f : FlashRam) (cmd : ℕ) → IsValid f → IsValid (program_page f cmd)
unfolding program_page
program_page-IsValid f cmd v = record {
  size =
      if_keeps (λ (xs : List ℕ). length xs ≡ flash_size) _ _ _
        (length-program_at _ _ f.array ∙ v.size) v.size;
  page_size = v.page_size;
  bytes = if_keeps (All IsByte) _ _ _ (program_at-IsByte _ _ f.array v.bytes) v.bytes;
  page_bytes = v.page_bytes;
  sector = v.sector;
}

mode-IsValid : (f : FlashRam) (m : FlashMode) → IsValid f → IsValid (record f { mode = m })
mode-IsValid f m v = record {
  size = v.size;
  page_size = v.page_size;
  bytes = v.bytes;
  page_bytes = v.page_bytes;
  sector = v.sector;
}

chip-IsValid :
    (f : FlashRam) → IsValid f → IsValid (record f { chip_erase = true; erase_sector = none })
chip-IsValid f v = record {
  size = v.size;
  page_size = v.page_size;
  bytes = v.bytes;
  page_bytes = v.page_bytes;
  sector = tt;
}

load-IsValid :
    (f : FlashRam)
    → IsValid f
    → IsValid (record f { mode = load_page; page_buffer = replicate flash_page 0xff })
load-IsValid f v = record {
  size = v.size;
  page_size = length-replicate flash_page 0xff;
  bytes = v.bytes;
  page_bytes = All-replicate IsByte flash_page 0xff (omega arith);
  sector = v.sector;
}

pub write_cir-IsValid : (f : FlashRam) (cmd : ℕ) → IsValid f → IsValid (write_cir f cmd)
unfolding write_cir
write_cir-IsValid f cmd v = if_keeps IsValid _ _ _ (mode-IsValid f read_array v) (
    if_keeps IsValid _ _ _ (mode-IsValid f silicon_id v) (
      if_keeps IsValid _ _ _ (load-IsValid f v) (
        if_keeps IsValid _ _ _ (chip-IsValid f v) (
          if_keeps IsValid _ _ _ (setup_sector-IsValid f cmd v) (
            if_keeps IsValid _ _ _ (execute_erase-IsValid f v)
              (if_keeps IsValid _ _ _ (program_page-IsValid f cmd v) v))))))

write_in-IsValid :
    (m : FlashMode) (f : FlashRam) (off val : ℕ)
    → val < 256
    → IsValid f
    → IsValid (write_in m f off val)
unfolding write_in
write_in-IsValid load_page f off val hv v = record {
  size = v.size;
  page_size = length-set f.page_buffer _ val ∙ v.page_size;
  bytes = v.bytes;
  page_bytes = All-set IsByte f.page_buffer _ val hv v.page_bytes;
  sector = v.sector;
}
write_in-IsValid _ f off val hv v = v

pub write-IsValid : (f : FlashRam) (off val : ℕ) → val < 256 → IsValid f → IsValid (write f off val)
unfolding write
write-IsValid f off val hv v = write_in-IsValid f.mode f off val hv v

abbrev pub IsOp : FlashOp → Type 0
IsOp (command c) = Unit
IsOp (byte off val) = val < 256

-- From a valid chip, any sequence of command words and byte writes leaves a chip of 128 KiB of bytes
-- with a page buffer of 128, whose pending sector erase covers one whole sector of the array.
pub run-IsValid :
    (f : FlashRam) (ops : List FlashOp) → IsValid f → All IsOp ops → IsValid (run f ops)
unfolding run
run-IsValid f [] v h = v
run-IsValid f (command c ∷ ops) v h = run-IsValid (write_cir f c) ops (write_cir-IsValid f c v) h.1
run-IsValid f (byte off val ∷ ops) v h =
    run-IsValid (write f off val) ops (write-IsValid f off val h.0 v) h.1

length-execute_erase : (f : FlashRam) → length (execute_erase f).array ≡ length f.array
unfolding execute_erase
length-execute_erase f =
    if_keeps (λ (xs : List ℕ). length xs ≡ length f.array) f.chip_erase _ _
      (length-map_from _ 0 f.array) (length-erased f.array f.erase_sector)

-- No command and no byte write changes the size of the array, on any chip.
pub length-write_cir : (f : FlashRam) (c : ℕ) → length (write_cir f c).array ≡ length f.array
unfolding write_cir setup_sector
length-write_cir f c = ground (arith, length-execute_erase f, length-program_page f c)

array-write_in :
    (m : FlashMode) (f : FlashRam) (off val : ℕ) → (write_in m f off val).array ≡ f.array
unfolding write_in
array-write_in load_page f off val = refl
array-write_in _ f off val = refl

-- A byte write does not reach the array.
pub array-write : (f : FlashRam) (off val : ℕ) → (write f off val).array ≡ f.array
unfolding write
array-write f off val = array-write_in f.mode f off val
