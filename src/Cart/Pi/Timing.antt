-- ===== src/Cart/Pi/Timing.antt =====
-- The timing registers of the two domains: what a write leaves to be read.
use rusty_n.Base.{ℕ, ◌+◌, ◌*◌, ◌/◌, ◌%◌, ◌^◌, ◌<◌, ◌≡◌, refl, arith}
use rusty_n.Base.{Option, none, some, if◌then◌else◌, ◌&&◌}
use rusty_n.Base.{bit_and, bit_and_low, bit_and_field, ◌==◌, length, u8}
use rusty_n.Base.{get_or-set_self, get_or-set_ne, length-set}
use rusty_n.Cart.Pi.{Pi, read, write, pi_bsd_dom1_lat}
use rusty_n.Cart.Pi.{
  dom_field, field_write, field_read, timing_write, timing_read, word_addr, status_word,
}

-- Each timing array has its two cells.
pub record IsValid (p : Pi) : Type 0 where
  pub lat : length p.dom_lat ≡ 2
  pub pwd : length p.dom_pwd ≡ 2
  pub pgs : length p.dom_pgs ≡ 2
  pub rls : length p.dom_rls ≡ 2

-- What a field of kind `f` keeps of a value: 8 bits of LAT and PWD, 4 of PGS, 2 of RLS.
abbrev pub kept : ℕ → ℕ → ℕ
kept f v = if f == 2 then v % 16 else if f == 3 then v % 4 else v % 256

field_read-field_write :
    (p : Pi) (d f v e g : ℕ)
    → IsValid p
    → d < 2
    → f < 4
    → g < 4
    → field_read (field_write p d f v) e g
      ≡ (if (d == e) && (f == g) then kept f v else field_read p e g)
unfolding field_read field_write
field_read-field_write p d f v e g h hd hf hg = ground (
  arith,
  bit_and_low 4 v,
  bit_and_low 2 v,
  bit_and_low 4 (v % 16),
  bit_and_low 2 (v % 4),
  get_or-set_self p.dom_lat d (v % 256) 0,
  get_or-set_self p.dom_pwd d (v % 256) 0,
  get_or-set_self p.dom_pgs d (v % 16) 0,
  get_or-set_self p.dom_rls d (v % 4) 0,
  get_or-set_ne p.dom_lat d e (v % 256) 0,
  get_or-set_ne p.dom_pwd d e (v % 256) 0,
  get_or-set_ne p.dom_pgs d e (v % 16) 0,
  get_or-set_ne p.dom_rls d e (v % 4) 0,
)

word_addr_lem : (a : ℕ) → word_addr a ≡ a / 4 % 2 ^ 30 * 4
word_addr_lem a = bit_and_field 2 30 a

word_addr_again : (a : ℕ) → word_addr (word_addr a) ≡ word_addr a
word_addr_again a = omega (arith, word_addr_lem a, word_addr_lem (word_addr a))

-- The address of timing register `k`: four of domain 1, then four of domain 2.
abbrev pub timing_addr : ℕ → ℕ
timing_addr k = pi_bsd_dom1_lat + 4 * k

dom_field-timing :
    (a k : ℕ) → k < 8 → word_addr a ≡ timing_addr k → dom_field (word_addr a) ≡ some (k / 4, k % 4)
unfolding dom_field
dom_field-timing a k hk e = ground (arith, word_addr_again a)

dom_field-inv :
    (b d f : ℕ)
    → dom_field (word_addr b) ≡ some (d, f)
    → (d < 2) × (f < 4) × (word_addr b ≡ timing_addr (4 * d + f))
unfolding dom_field
dom_field-inv b d f e = ground (arith, word_addr_again b, word_addr_lem b)

-- The registers that are no timing registers, which a timing write leaves alone.
field_write_rest :
    (p : Pi) (d f v : ℕ)
    → ((field_write p d f v).dram_addr ≡ p.dram_addr)
      × ((field_write p d f v).cart_addr ≡ p.cart_addr)
      × (status_word (field_write p d f v) ≡ status_word p)
unfolding field_write status_word
field_write_rest p d f v = ground arith

write-timing :
    (p : Pi) (a k v : ℕ)
    → k < 8
    → word_addr a ≡ timing_addr k
    → (write p a v).0 ≡ field_write p (k / 4) (k % 4) v
unfolding write timing_write
write-timing p a k v hk e = ground (arith, dom_field-timing a k hk e)

-- A value written to timing register `k` is read back at that register, cut to the width of its
-- field, and every other address of the interface reads as before.
pub read-write_timing :
    (p : Pi) (a k v b : ℕ)
    → IsValid p
    → k < 8
    → word_addr a ≡ timing_addr k
    → read (write p a v).0 b ≡ (if word_addr a == word_addr b then kept (k % 4) v else read p b)
read-write_timing p a k v b h hk e =
    rw (write-timing p a k v hk e) (split (dom_field (word_addr b)) refl)
  where
    split :
        (o : Option (ℕ × ℕ))
        → dom_field (word_addr b) ≡ o
        → read (field_write p (k / 4) (k % 4) v) b
          ≡ (if word_addr a == word_addr b then kept (k % 4) v else read p b)
    split none q =
        unfold read timing_read in
        ground (arith, field_write_rest p (k / 4) (k % 4) v, dom_field-timing b k hk)
    split (some (d, f)) q =
        unfold read timing_read in
        ground (
          arith,
          field_write_rest p (k / 4) (k % 4) v,
          dom_field-inv b d f q,
          field_read-field_write p (k / 4) (k % 4) v d f h,
        )

-- Writing a timing register keeps the arrays at two cells.
pub field_write-IsValid : (p : Pi) (d f v : ℕ) → IsValid p → IsValid (field_write p d f v)
unfolding field_write
field_write-IsValid p d f v h = ground (
  arith,
  length-set p.dom_lat d (v % 256),
  length-set p.dom_pwd d (v % 256),
  length-set p.dom_pgs d (u8 (bit_and v 0xf)),
  length-set p.dom_rls d (u8 (bit_and v 0x3)),
)
