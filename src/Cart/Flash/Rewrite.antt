-- ===== src/Cart/Flash/Rewrite.antt =====
-- Erase, load, program: how a game replaces a page, and what is read afterwards.
use rusty_n.Base.{ℕ, ◌+◌, ◌*◌, ◌/◌, ◌%◌, ◌≤◌, ◌<◌, min, ◌≡◌, refl, ap, ◌∙◌, arith}
use rusty_n.Base.{false, none, some, List, [], ◌∷◌, ◌++◌, bit_and}
use rusty_n.Base.{◌==◌, if◌then◌else◌, length, get_or, set, replicate, All}
use rusty_n.Base.{
  bit_and_low, bit_and_ones, bit_and_comm, write_block, length-replicate, get_or_default,
}
use rusty_n.Base.{write_block_inside, All-get_or}
use rusty_n.Cart.Flash.{FlashRam, read_array, status_mode, load_page}
use rusty_n.Cart.Flash.{flash_size, flash_page, flash_sector, fill, erased, setup_sector}
use rusty_n.Cart.Flash.{execute_erase, program_page, write_cir, write_in, write}
use rusty_n.Cart.Flash.{read, read_in, FlashOp, command, byte, run}
use rusty_n.Cart.Flash.Invariant.{IsValid, IsByte, length-fill, length-program_page}
use rusty_n.Cart.Flash.Program.{fill_lem, program_page_byte}

-- The bytes of a page, written to the window one after the other.
abbrev pub load : ℕ → List ℕ → List FlashOp
load k [] = []
load k (d ∷ ds) = byte k d ∷ load (k + 1) ds

-- Erase the sector of page `p`, load a page, program it, and go back to reading the array.
abbrev pub rewrite_page : ℕ → List ℕ → List FlashOp
rewrite_page p page =
    command (0x4b00_0000 + p)
    ∷ command 0x7800_0000
    ∷ command 0xb400_0000
    ∷ (load 0 page ++ (command (0xa500_0000 + p) ∷ command 0xf000_0000 ∷ []))

run-append : (f : FlashRam) (xs ys : List FlashOp) → run f (xs ++ ys) ≡ run (run f xs) ys
unfolding run
run-append f [] ys = refl
run-append f (command c ∷ xs) ys = run-append (write_cir f c) xs ys
run-append f (byte off val ∷ xs) ys = run-append (write f off val) xs ys

write_loading :
    (f : FlashRam) (off val : ℕ)
    → f.mode ≡ load_page
    → off < 128
    → write f off val ≡ record f { page_buffer = set f.page_buffer off val }
unfolding write write_in
write_loading f off val m h = ground (arith, bit_and_low 7 off)

run-load :
    (f : FlashRam) (k : ℕ) (ds : List ℕ)
    → f.mode ≡ load_page
    → k + length ds ≤ 128
    → run f (load k ds) ≡ record f { page_buffer = write_block f.page_buffer k ds }
unfolding run write_block
run-load f k [] m h = refl
run-load f k (d ∷ ds) m h =
    ap (λ (g : FlashRam). run g (load (k + 1) ds)) (write_loading f k d m (omega arith))
    ∙ run-load (record f { page_buffer = set f.page_buffer k d }) (k + 1) ds m (omega arith)

-- The chip once the sector of page `p` is erased.
abbrev after_erase : FlashRam → ℕ → FlashRam
after_erase f p = record f {
  array = fill (p / 128 * flash_sector) (p / 128 * flash_sector + flash_sector) f.array;
  chip_erase = false;
  erase_sector = none;
  status = 8;
  mode = status_mode;
}

setup_lem :
    (f : FlashRam) (p : ℕ)
    → p < 1024
    → write_cir f (0x4b00_0000 + p)
      ≡ record f { chip_erase = false; erase_sector = some (p / 128 * flash_sector) }
unfolding write_cir setup_sector
setup_lem f p h = ground (arith, bit_and_low 16 (0x4b00_0000 + p))

erase_lem :
    (f : FlashRam) (base : ℕ)
    → length f.array ≡ flash_size
    → base + flash_sector ≤ flash_size
    → write_cir (record f { chip_erase = false; erase_sector = some base }) 0x7800_0000 ≡ record f {
      array = fill base (base + flash_sector) f.array;
      chip_erase = false;
      erase_sector = none;
      status = 8;
      mode = status_mode;
    }
unfolding write_cir execute_erase erased
erase_lem f base size fits =
    ap
      (λ (hi : ℕ). record f {
        array = fill base hi f.array;
        chip_erase = false;
        erase_sector = none;
        status = 8;
        mode = status_mode;
      })
      last
  where
    last : min (base + flash_sector) (length f.array) ≡ base + flash_sector
    last = omega arith

erase_run :
    (f : FlashRam) (p : ℕ)
    → length f.array ≡ flash_size
    → p < 1024
    → write_cir (write_cir f (0x4b00_0000 + p)) 0x7800_0000 ≡ after_erase f p
erase_run f p size h =
    rw (setup_lem f p h) (erase_lem f (p / 128 * flash_sector) size (omega arith))

-- The chip once the page is loaded as well.
abbrev after_load : FlashRam → ℕ → List ℕ → FlashRam
after_load f p page = record f {
  array = fill (p / 128 * flash_sector) (p / 128 * flash_sector + flash_sector) f.array;
  page_buffer = write_block (replicate flash_page 0xff) 0 page;
  chip_erase = false;
  erase_sector = none;
  status = 8;
  mode = load_page;
}

run-load_erased :
    (f : FlashRam) (p : ℕ) (page : List ℕ)
    → length page ≡ flash_page
    → run (write_cir (after_erase f p) 0xb400_0000) (load 0 page) ≡ after_load f p page
unfolding write_cir
run-load_erased f p page e =
    run-load
      (record (after_erase f p) { mode = load_page; page_buffer = replicate flash_page 0xff }) 0
      page refl (omega arith)

program_command :
    (f : FlashRam) (p : ℕ)
    → p < 1024
    → write_cir f (0xa500_0000 + p) ≡ program_page f (0xa500_0000 + p)
unfolding write_cir
program_command f p h = ground arith

rewrite_run :
    (f : FlashRam) (p : ℕ) (page : List ℕ)
    → length f.array ≡ flash_size
    → length page ≡ flash_page
    → p < 1024
    → run f (rewrite_page p page)
      ≡ record (program_page (after_load f p page) (0xa500_0000 + p)) { mode = read_array }
unfolding run
rewrite_run f p page size e h =
    ap
      (λ (g : FlashRam).
        run (write_cir g 0xb400_0000)
          (load 0 page ++ (command (0xa500_0000 + p) ∷ command 0xf000_0000 ∷ [])))
      (erase_run f p size h)
    ∙ (run-append (write_cir (after_erase f p) 0xb400_0000) (load 0 page) _
        ∙ (ap (λ (g : FlashRam). write_cir (write_cir g (0xa500_0000 + p)) 0xf000_0000)
              (run-load_erased f p page e)
            ∙ (ap (λ (g : FlashRam). write_cir g 0xf000_0000)
                  (program_command (after_load f p page) p h)
                ∙ back _)))
  where
    back : (g : FlashRam) → write_cir g 0xf000_0000 ≡ record g { mode = read_array }
    back g = unfold write_cir in refl

ones_and : (x : ℕ) → x < 256 → bit_and 0xff x ≡ x
ones_and x h = bit_and_comm 0xff x ∙ bit_and_ones 8 x h

-- Erasing the sector of a page, loading 128 bytes and programming them makes the page read back
-- as those bytes, the rest of its sector as all ones, and every other byte as before.
pub read-rewrite_page :
    (f : FlashRam) (p : ℕ) (page : List ℕ) (i : ℕ)
    → IsValid f
    → p < 1024
    → length page ≡ flash_page
    → All IsByte page
    → i < flash_size
    → read (run f (rewrite_page p page)) i ≡ (
        if i / 128 == p
        then get_or page (i % 128) 0
        else if i / flash_sector == p / 128
        then 0xff
        else get_or f.array i 0)
unfolding read read_in
read-rewrite_page f p page i v h e b lt =
    ap (λ (g : FlashRam). read g i) (rewrite_run f p page v.size e h)
    ∙ (get_or_default (program_page g cmd).array i 0xff 0 (omega (arith, in_array))
        ∙ ground (
          arith,
          program_page_byte g cmd i,
          length-fill (p / 128 * flash_sector) (p / 128 * flash_sector + flash_sector) f.array,
          fill_lem (p / 128 * flash_sector) (p / 128 * flash_sector + flash_sector) f.array i,
          loaded,
          ones_and (get_or page (i % 128) 0) (All-get_or IsByte page (i % 128) 0 (omega arith) b),
        ))
  where
    g : FlashRam
    g = after_load f p page

    cmd : ℕ
    cmd = 0xa500_0000 + p

    in_array : i < length (program_page g cmd).array
    in_array = omega (
      arith,
      v.size,
      length-program_page g cmd,
      length-fill (p / 128 * flash_sector) (p / 128 * flash_sector + flash_sector) f.array,
    )

    loaded : get_or g.page_buffer (i % 128) 0 ≡ get_or page (i % 128) 0
    loaded =
        ap (λ (t : ℕ). get_or g.page_buffer t 0) (omega arith)
        ∙ write_block_inside page (replicate flash_page 0xff) 0 (i % 128) 0 (omega arith)
            (omega (arith, length-replicate {A = ℕ} flash_page 0xff))
