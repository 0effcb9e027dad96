-- ===== src/Cart/Rom/Tests.antt =====
-- The cartridge's image on a concrete input.
use rusty_n.Base.{length, get_or, ℕ, ◌+◌, ◌≡◌, refl, arith, List, ◌∷◌, replicate, true}
use rusty_n.Cart.Rom.{Cart, ok, starts_with, load, swap_pairs, swap_words, pi_read, rom_pi_base}
use rusty_n.Cart.Rom.Formats

abbrev image : List ℕ
image = 0x80 ∷ 0x37 ∷ 0x12 ∷ 0x40 ∷ replicate 60 7

image-starts_with : starts_with image 0x80 0x37 0x12 0x40 ≡ true
unfolding starts_with
image-starts_with = refl

load_formats_example :
    (c : Cart) × (load image ≡ ok c)
    × (pi_read c (rom_pi_base + 1) ≡ 0x37)
    × (load (swap_pairs image) ≡ ok c)
    × (length (swap_pairs image) ≡ 64)
    × (get_or (swap_pairs image) 1 0 ≡ 0x80)
    × (load (swap_words image) ≡ ok c)
    × (length (swap_words image) ≡ 64)
    × (get_or (swap_words image) 1 0 ≡ 0x12)
unfolding replicate
load_formats_example = Formats.load_formats image 1 image-starts_with (omega arith)
