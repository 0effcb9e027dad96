-- ===== src/Cart/Flash/Program.antt =====
-- What page programs and sector erases do to the array, byte by byte.
use rusty_n.Base.{ℕ, ◌+◌, ◌-◌, ◌*◌, ◌/◌, ◌%◌, ◌^◌, ◌≤◌, ◌<◌, ◌≡◌, ap, arith}
use rusty_n.Base.{Bool, false, List, [], ◌∷◌, bit_and, ◌&&◌}
use rusty_n.Base.{◌==◌, if◌then◌else◌, length, get_or, All}
use rusty_n.Base.{get_or-map_zero, bit, bit-bit_and, bit_and_low}
use rusty_n.Base.{leb}
use rusty_n.Cart.Flash.{FlashRam}
use rusty_n.Cart.Flash.{flash_size, flash_page, in_range, fill, setup_sector}
use rusty_n.Cart.Flash.{program_at, program_page, write_cir, write}
use rusty_n.Cart.Flash.{FlashOp, command, byte, run}
use rusty_n.Cart.Flash.Invariant.{IsValid, write_cir-IsValid, write-IsValid, IsOp, array-write}

pub fill_lem :
    (lo hi : ℕ) (xs : List ℕ) (i : ℕ)
    → i < length xs
    → get_or (fill lo hi xs) i 0 ≡ (if in_range lo hi i then 0xff else get_or xs i 0)
unfolding fill
fill_lem lo hi xs i h = get_or-map_zero _ xs i 0 h

program_at_lem :
    (base : ℕ) (page xs : List ℕ) (i : ℕ)
    → i < length xs
    → get_or (program_at base page xs) i 0 ≡ (
        if in_range base (base + flash_page) i
        then bit_and (get_or xs i 0) (get_or page (i - base) 0)
        else get_or xs i 0)
unfolding program_at
program_at_lem base page xs i h = get_or-map_zero _ xs i 0 h

within_page :
    (page : List ℕ) (c i : ℕ) → c ≡ i / 128 → get_or page (i - c * 128) 0 ≡ get_or page (i % 128) 0
within_page page c i e = ap (λ (t : ℕ). get_or page t 0) (omega arith)

-- A page program ANDs the page buffer into its page and leaves every other byte alone; one of a
-- page beyond the array changes nothing.
pub program_page_byte :
    (f : FlashRam) (cmd i : ℕ)
    → i < length f.array
    → get_or (program_page f cmd).array i 0 ≡ (
        if (cmd % 2 ^ 16 == i / 128) && leb ((cmd % 2 ^ 16 + 1) * 128) (length f.array)
        then bit_and (get_or f.array i 0) (get_or f.page_buffer (i % 128) 0)
        else get_or f.array i 0)
unfolding program_page
program_page_byte f cmd i h = ground (
  arith,
  bit_and_low 16 cmd,
  within_page f.page_buffer (cmd % 2 ^ 16) i,
  program_at_lem (cmd % 2 ^ 16 * 128) f.page_buffer f.array i h,
)

-- Does an operation erase?
abbrev pub erases : FlashOp → Bool
erases (command c) = c / 2 ^ 24 == 0x78
erases (byte off val) = false

-- What a command that does not erase does to the array.
array-write_cir :
    (f : FlashRam) (c : ℕ)
    → (c / 2 ^ 24 == 0x78) ≡ false
    → (write_cir f c).array ≡ (if c / 2 ^ 24 == 0xa5 then (program_page f c).array else f.array)
unfolding write_cir setup_sector
array-write_cir f c h = ground arith

bit_falls :
    (k : ℕ) (f : FlashRam) (c i : ℕ)
    → i < length f.array
    → (c / 2 ^ 24 == 0x78) ≡ false
    → bit k (get_or (write_cir f c).array i 0) ≤ bit k (get_or f.array i 0)
bit_falls k f c i hi h = rw (array-write_cir f c h) (
    ground (
      arith,
      program_page_byte f c i hi,
      bit-bit_and k (get_or f.array i 0) (get_or f.page_buffer (i % 128) 0),
    ))

-- An operation that erases nothing, and writes bytes.
abbrev pub IsQuiet : FlashOp → Type 0
IsQuiet op = IsOp op × (erases op ≡ false)

-- On a valid chip, no sequence of operations without an erase command sets a bit of the array
-- that was clear.
pub run_falls :
    (f : FlashRam) (ops : List FlashOp) (k i : ℕ)
    → IsValid f
    → All IsQuiet ops
    → i < flash_size
    → bit k (get_or (run f ops).array i 0) ≤ bit k (get_or f.array i 0)
unfolding run
run_falls f [] k i v h lt = omega arith
run_falls f (command c ∷ ops) k i v h lt = omega (
  arith,
  run_falls (write_cir f c) ops k i (write_cir-IsValid f c v) h.1 lt,
  bit_falls k f c i (omega (arith, v.size)) h.0.1,
)
run_falls f (byte off val ∷ ops) k i v h lt = omega (
  arith,
  run_falls (write f off val) ops k i (write-IsValid f off val h.0.0 v) h.1 lt,
  ap (λ (xs : List ℕ). bit k (get_or xs i 0)) (array-write f off val),
)
