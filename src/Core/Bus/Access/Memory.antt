-- ===== src/Core/Bus/Access/Memory.antt =====
-- Words and bytes in the main memory: write_u32, read_u32 and read_u8 of
-- crates/rustyn64-core/src/bus.rs.
use rusty_n.Base.{ℕ, ◌+◌, ◌-◌, ◌*◌, ◌/◌, ◌%◌, ◌^◌, ◌≤◌, ◌<◌, ◌≡◌, refl, ap, ◌∙◌, arith}
use rusty_n.Base.{true, false, some, ◌==◌, ltb, leb, if◌then◌else◌}
use rusty_n.Base.{
  zero, suc, sym, Bool-cases, eq_of_==, ◌⊎◌, inl, inr, bit_and_low, bit_and-le, not32,
}
use rusty_n.Rsp.Su.{update}
use rusty_n.Cart.Rom.{byte_of_word}
use rusty_n.Core.Bus.{Bus, rdram_size, rdram_offset}
use rusty_n.Core.Bus.Access.{
  read_u8, read_u32, be_word, is_pi_bus, is_isviewer, is_sp_register, is_register, is_mi_register,
  is_dp_register, is_vi_register, is_ai_register, is_ri_register, is_si_register, is_pif,
  is_pi_register, word_of, sp_pc,
}
use rusty_n.Core.Bus.Access.Store.{write_u32}

pub offset_lem : (a : ℕ) → a < rdram_size → rdram_offset a ≡ some a
unfolding rdram_offset
offset_lem a h = ground (arith, bit_and_low 29 a)

word_lem :
    (v : ℕ)
    → v < 2 ^ 32
    → be_word (byte_of_word v 0) (byte_of_word v 1) (byte_of_word v 2) (byte_of_word v 3) ≡ v
word_lem v h = omega arith

-- No device has an address of the main memory.
outside :
    (a : ℕ)
    → a < rdram_size
    → (is_pi_bus a ≡ false)
      × (is_sp_register a ≡ false)
      × (is_register a ≡ false)
      × (is_pif a ≡ false)
      × ((word_of a == sp_pc) ≡ false)
      × (is_isviewer a ≡ false)
      × (is_pi_register a ≡ false)
unfolding is_pi_bus is_isviewer is_sp_register is_mi_register is_dp_register is_vi_register
    is_ai_register is_ri_register is_si_register is_pif is_pi_register
outside a h = (
  ground arith,
  ground arith,
  ground arith,
  ground arith,
  ground (arith, bit_and-le a (not32 3)),
  ground arith,
  ground arith,
)

-- The memory after a store of a word.
abbrev put : (ℕ → ℕ) → ℕ → ℕ → ℕ → ℕ
put mem a v =
    update
      (update (update (update mem a (byte_of_word v 0)) (a + 1) (byte_of_word v 1)) (a + 2)
        (byte_of_word v 2))
      (a + 3) (byte_of_word v 3)

abbrev word_at : (ℕ → ℕ) → ℕ → ℕ
word_at mem c = be_word (mem c) (mem (c + 1)) (mem (c + 2)) (mem (c + 3))

be_words : {a b c d w x y z : ℕ} → a ≡ w → b ≡ x → c ≡ y → d ≡ z → be_word a b c d ≡ be_word w x y z
be_words p q r s = rw (p, q, r, s) refl

-- A byte of a word elsewhere, and a byte of the word stored.
put_other : (mem : ℕ → ℕ) (a n v : ℕ) → (n < a) ⊎ (a + 3 < n) → put mem a v n ≡ mem n
put_other mem a n v h = ground (arith)

put_byte : (mem : ℕ → ℕ) (a v i : ℕ) → i < 4 → put mem a v (a + i) ≡ byte_of_word v i
put_byte mem a v zero h = ground arith
put_byte mem a v (suc zero) h = ground arith
put_byte mem a v (suc (suc zero)) h = ground arith
put_byte mem a v (suc (suc (suc zero))) h = ground arith
put_byte mem a v (suc (suc (suc (suc i)))) h = absurd (omega (arith, h))

put_same : (mem : ℕ → ℕ) (a v : ℕ) → v < 2 ^ 32 → word_at (put mem a v) a ≡ v
put_same mem a v h =
    let first : put mem a v a ≡ byte_of_word v 0 = ground arith in
    let second = put_byte mem a v 1 (omega arith) in
    let third = put_byte mem a v 2 (omega arith) in
    let fourth = put_byte mem a v 3 (omega arith) in
    be_words first second third fourth ∙ word_lem v h

put_apart :
    (mem : ℕ → ℕ) (a c v : ℕ)
    → a % 4 ≡ 0
    → c % 4 ≡ 0
    → (a == c) ≡ false
    → word_at (put mem a v) c ≡ word_at mem c
put_apart mem a c v ha hc ne =
    let apart : (n : ℕ) → c ≤ n → n < c + 4 → (n < a) ⊎ (a + 3 < n) =
      λ n ge lt. ground (arith, ne) in
    be_words (put_other mem a c v (apart c (omega arith) (omega arith)))
      (put_other mem a (c + 1) v (apart (c + 1) (omega arith) (omega arith)))
      (put_other mem a (c + 2) v (apart (c + 2) (omega arith) (omega arith)))
      (put_other mem a (c + 3) v (apart (c + 3) (omega arith) (omega arith)))

module _ {G : Type 0} (b : Bus G) (a : ℕ) (fits : a + 4 ≤ rdram_size) where
  stored : (v : ℕ) → write_u32 b a v ≡ record b { rdram = put b.rdram a v }
  unfolding write_u32
  stored v =
      let out = outside a (omega arith) in
      let here = offset_lem a (omega arith) in
      let room : ltb (a + 3) rdram_size ≡ true = ground arith in
      rw (out.0, out.1, out.2, out.3, out.4, out.5, out.6, here, room) refl

  loaded : (read_u32 b a).1 ≡ word_at b.rdram a
  unfolding read_u32
  loaded =
      let out = outside a (omega arith) in
      let here = offset_lem a (omega arith) in
      let room : leb (a + 4) rdram_size ≡ true = ground arith in
      rw (out.0, out.1, out.2, out.3, here, room) refl

  loaded_byte : (i : ℕ) → i < 4 → (read_u8 b (a + i)).1 ≡ b.rdram (a + i)
  unfolding read_u8
  loaded_byte i h = let here = offset_lem (a + i) (omega arith) in rw here refl

-- A store of a word in the main memory, at an address that is a multiple of 4: a load of a word at
-- that address gives the value, a load at another multiple of 4 what it gave before, and the loads of
-- the four bytes give the bytes of the value, the highest first.
pub read-write_word :
    {G : Type 0} (b : Bus G) (a c v i : ℕ)
    → a % 4 ≡ 0
    → c % 4 ≡ 0
    → a + 4 ≤ rdram_size
    → c + 4 ≤ rdram_size
    → v < 2 ^ 32
    → i < 4
    → ((read_u32 (write_u32 b a v) c).1 ≡ (if a == c then v else (read_u32 b c).1))
      × ((read_u8 (write_u32 b a v) (a + i)).1 ≡ v / 2 ^ (8 * (3 - i)) % 2 ^ 8)
read-write_word b a c v i ha hc la lc lt below =
    let e = stored b a la v in
    let after = record b { rdram = put b.rdram a v } in
    let whole = word_lem v lt in
    rw e (
      elim (Bool-cases (a == c)) [
        | inl same ↦ rw same (
            ap (λ (n : ℕ). (read_u32 after n).1) (sym (eq_of_== a c same))
            ∙ (loaded after a la ∙ put_same b.rdram a v lt))
        | inr other ↦
            rw other
              (loaded after c lc ∙ (put_apart b.rdram a c v ha hc other ∙ sym (loaded b c lc)))
      ],
      loaded_byte after a la i below ∙ put_byte b.rdram a v i below,
    )
