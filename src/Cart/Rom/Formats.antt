-- ===== src/Cart/Rom/Formats.antt =====
-- The three byte orders of an image: detect, normalize_to_big_endian and Cart::load of
-- crates/rustyn64-cart/src/lib.rs.
use rusty_n.Base.{
  ℕ, zero, suc, leb, if◌then◌else◌, ◌*◌, ◌/◌, ◌%◌, ◌+◌, ◌-◌, ◌≤◌, ◌≡◌, refl, ap, ◌∙◌, arith,
}
use rusty_n.Base.{true, false, some, List, [], ◌∷◌, ltb}
use rusty_n.Base.{length, get_or}
use rusty_n.Base.{read_block, ltb_of_le}
use rusty_n.Cart.Save.{SaveType}
use rusty_n.Cart.Save as Save
use rusty_n.Cart.Pif.{set_pak_present}
use rusty_n.Cart.Pif as Pif
use rusty_n.Cart.Rom.{
  RomFormat, z64_big_endian, v64_byte_swapped, n64_little_endian, ok, Cart, starts_with, detect,
  swap_pairs, swap_words, normalize_to_big_endian, parse, insert, load_as, load, rom_byte, pi_read,
  rom_pi_base, from_ipl3,
}

swap_pairs-swap_pairs : (bytes : List ℕ) → swap_pairs (swap_pairs bytes) ≡ bytes
unfolding swap_pairs
swap_pairs-swap_pairs [] = refl
swap_pairs-swap_pairs (a ∷ []) = refl
swap_pairs-swap_pairs (a ∷ b ∷ rest) = ap (λ (t : List ℕ). a ∷ b ∷ t) (swap_pairs-swap_pairs rest)

swap_words-swap_words : (bytes : List ℕ) → swap_words (swap_words bytes) ≡ bytes
unfolding swap_words
swap_words-swap_words [] = refl
swap_words-swap_words (a ∷ []) = refl
swap_words-swap_words (a ∷ b ∷ []) = refl
swap_words-swap_words (a ∷ b ∷ c ∷ []) = refl
swap_words-swap_words (a ∷ b ∷ c ∷ d ∷ rest) =
    ap (λ (t : List ℕ). a ∷ b ∷ c ∷ d ∷ t) (swap_words-swap_words rest)

-- Where the byte at a place comes from, in an image of `n` bytes with the two bytes of each whole pair
-- exchanged, and with the four bytes of each whole word turned round.
abbrev pub in_pairs : ℕ → ℕ → ℕ
in_pairs n i = if leb (i / 2 * 2 + 2) n then i / 2 * 2 + (1 - i % 2) else i

abbrev pub in_words : ℕ → ℕ → ℕ
in_words n i = if leb (i / 4 * 4 + 4) n then i / 4 * 4 + (3 - i % 4) else i

length-swap_pairs : (rom : List ℕ) → length (swap_pairs rom) ≡ length rom
unfolding swap_pairs
length-swap_pairs [] = refl
length-swap_pairs (a ∷ []) = refl
length-swap_pairs (a ∷ b ∷ rest) = omega (arith, length-swap_pairs rest)

get_or-swap_pairs :
    (rom : List ℕ) (i : ℕ) → get_or (swap_pairs rom) i 0 ≡ get_or rom (in_pairs (length rom) i) 0
unfolding swap_pairs
get_or-swap_pairs [] i = refl
get_or-swap_pairs (a ∷ []) i = let e : in_pairs 1 i ≡ i = ground arith in rw e refl
get_or-swap_pairs (a ∷ b ∷ rest) zero =
    let e : in_pairs (length (a ∷ b ∷ rest)) 0 ≡ 1 = ground arith in rw e refl
get_or-swap_pairs (a ∷ b ∷ rest) (suc zero) =
    let e : in_pairs (length (a ∷ b ∷ rest)) 1 ≡ 0 = ground arith in rw e refl
get_or-swap_pairs (a ∷ b ∷ rest) (suc (suc i)) =
    let e : in_pairs (length (a ∷ b ∷ rest)) (suc (suc i)) ≡ suc (suc (in_pairs (length rest) i)) =
      ground arith in
    rw e (get_or-swap_pairs rest i)

length-swap_words : (rom : List ℕ) → length (swap_words rom) ≡ length rom
unfolding swap_words
length-swap_words [] = refl
length-swap_words (a ∷ []) = refl
length-swap_words (a ∷ b ∷ []) = refl
length-swap_words (a ∷ b ∷ c ∷ []) = refl
length-swap_words (a ∷ b ∷ c ∷ d ∷ rest) = omega (arith, length-swap_words rest)

get_or-swap_words :
    (rom : List ℕ) (i : ℕ) → get_or (swap_words rom) i 0 ≡ get_or rom (in_words (length rom) i) 0
unfolding swap_words
get_or-swap_words [] i = refl
get_or-swap_words (a ∷ []) i = let e : in_words 1 i ≡ i = ground arith in rw e refl
get_or-swap_words (a ∷ b ∷ []) i = let e : in_words 2 i ≡ i = ground arith in rw e refl
get_or-swap_words (a ∷ b ∷ c ∷ []) i = let e : in_words 3 i ≡ i = ground arith in rw e refl
get_or-swap_words (a ∷ b ∷ c ∷ d ∷ rest) zero =
    let e : in_words (length (a ∷ b ∷ c ∷ d ∷ rest)) 0 ≡ 3 = ground arith in rw e refl
get_or-swap_words (a ∷ b ∷ c ∷ d ∷ rest) (suc zero) =
    let e : in_words (length (a ∷ b ∷ c ∷ d ∷ rest)) 1 ≡ 2 = ground arith in rw e refl
get_or-swap_words (a ∷ b ∷ c ∷ d ∷ rest) (suc (suc zero)) =
    let e : in_words (length (a ∷ b ∷ c ∷ d ∷ rest)) 2 ≡ 1 = ground arith in rw e refl
get_or-swap_words (a ∷ b ∷ c ∷ d ∷ rest) (suc (suc (suc zero))) =
    let e : in_words (length (a ∷ b ∷ c ∷ d ∷ rest)) 3 ≡ 0 = ground arith in rw e refl
get_or-swap_words (a ∷ b ∷ c ∷ d ∷ rest) (suc (suc (suc (suc i)))) =
    let e : in_words (length (a ∷ b ∷ c ∷ d ∷ rest)) (suc (suc (suc (suc i))))
        ≡ suc (suc (suc (suc (in_words (length rest) i)))) =
      ground arith in
    rw e (get_or-swap_words rest i)

-- The magic number of each order.
detect_all :
    (rom : List ℕ)
    → starts_with rom 0x80 0x37 0x12 0x40 ≡ true
    → (detect rom ≡ some z64_big_endian)
      × (detect (swap_pairs rom) ≡ some v64_byte_swapped)
      × (detect (swap_words rom) ≡ some n64_little_endian)
unfolding detect starts_with swap_pairs swap_words
detect_all [] h = absurd (cc)
detect_all (a ∷ []) h = absurd (cc)
detect_all (a ∷ b ∷ []) h = absurd (cc)
detect_all (a ∷ b ∷ c ∷ []) h = absurd (cc)
detect_all (a ∷ b ∷ c ∷ d ∷ rest) h = (ground arith, ground arith, ground arith)

loads_as :
    (raw rom : List ℕ) (f : RomFormat)
    → detect raw ≡ some f
    → normalize_to_big_endian raw f ≡ rom
    → load raw ≡ insert rom (parse rom)
unfolding load load_as
loads_as raw rom f h e = rw (h, e) refl

-- The cartridge that an image makes.
abbrev cart_of : List ℕ → Cart
cart_of rom = record {
  rom = rom;
  header = record {
    title = read_block rom 0x20 20 0;
    game_code = read_block rom 0x3b 4 0;
    save_type = SaveType.no_save;
    cic = from_ipl3 rom;
  };
  save = Save.new SaveType.no_save;
  pif = set_pak_present Pif.new 0 false;
}

inserted : (rom : List ℕ) → 64 ≤ length rom → insert rom (parse rom) ≡ ok (cart_of rom)
unfolding insert parse
inserted rom le = let long : ltb (length rom) 0x40 ≡ false = ltb_of_le _ _ le in rw long refl

-- An image of at least 64 bytes with the magic number of the big-endian order is loaded, and its
-- bytes stand on the bus of the peripheral interface from the base address of the image on. The
-- same cartridge is loaded from the image in each of the two other orders: these have its length,
-- and at every place the byte of the other place of the pair, or of the mirrored place of the word,
-- where the pair or the word is whole, and else the byte of the place itself.
pub load_formats :
    (rom : List ℕ) (i : ℕ)
    → starts_with rom 0x80 0x37 0x12 0x40 ≡ true
    → 64 ≤ length rom
    → (c : Cart) × (load rom ≡ ok c)
      × (pi_read c (rom_pi_base + i) ≡ get_or rom i 0)
      × (load (swap_pairs rom) ≡ ok c)
      × (length (swap_pairs rom) ≡ length rom)
      × (get_or (swap_pairs rom) i 0 ≡ get_or rom (in_pairs (length rom) i) 0)
      × (load (swap_words rom) ≡ ok c)
      × (length (swap_words rom) ≡ length rom)
      × (get_or (swap_words rom) i 0 ≡ get_or rom (in_words (length rom) i) 0)
unfolding pi_read rom_byte normalize_to_big_endian
load_formats rom i h le =
    let magic = detect_all rom h in
    let made = inserted rom le in
    (
      cart_of rom,
      loads_as rom rom z64_big_endian magic.0 refl ∙ made,
      ground (arith, ap (λ (k : ℕ). get_or rom k 0) (same i)),
      loads_as (swap_pairs rom) rom v64_byte_swapped magic.1 (swap_pairs-swap_pairs rom) ∙ made,
      length-swap_pairs rom,
      get_or-swap_pairs rom i,
      loads_as (swap_words rom) rom n64_little_endian magic.2 (swap_words-swap_words rom) ∙ made,
      length-swap_words rom,
      get_or-swap_words rom i,
    )
  where
    same : (k : ℕ) → rom_pi_base + k - rom_pi_base ≡ k
    same k = omega arith
