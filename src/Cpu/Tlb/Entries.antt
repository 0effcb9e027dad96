-- ===== src/Cpu/Tlb/Entries.antt =====
-- What an entry keeps of the registers it was written from: `page_from`, `lo_from`, `write_entry`
-- and `read_entry` of crates/rustyn64-cpu/src/tlb.rs.
use rusty_n.Base.{ℕ, ◌+◌, ◌*◌, ◌/◌, ◌%◌, ◌^◌, ◌≤◌, ◌<◌, ◌≡◌, refl, ap, ap₂, ◌∙◌, sym, arith}
use rusty_n.Base.{Bool, true, false, not, ◌&&◌, if◌then◌else◌, ◌==◌, bit_and, bit_or, shl, shr, u32}
use rusty_n.Base.{bit_and_low, bit_or_disjoint, get_or-set_self, length}
use rusty_n.Cpu.Tlb.{
  PageEntry, Entry, Tlb, Cop0, page_from, lo_from, bit_of, entry, write_entry, read_entry,
  entry_from, no_entry, canonical_page_mask,
}

or_at : (k q r x : ℕ) → x ≡ q * 2 ^ k → r < 2 ^ k → bit_or x r ≡ x + r
or_at k q r x e h =
    ap (λ (t : ℕ). bit_or t r) e ∙ (bit_or_disjoint k q r h ∙ ap (λ (t : ℕ). t + r) (sym e))

bit_of-le : (b : Bool) → bit_of b ≤ 1
bit_of-le true = omega arith
bit_of-le false = omega arith

-- The encoded page as a sum of its fields.
fields_lem :
    (pfn c d v g : ℕ)
    → c < 8
    → d ≤ 1
    → v ≤ 1
    → g ≤ 1
    → bit_or (bit_or (bit_or (bit_or (shl pfn 6) (shl c 3)) (shl d 2)) (shl v 1)) g
      ≡ pfn * 64 + c * 8 + d * 4 + v * 2 + g
fields_lem pfn c d v g hc hd hv hg =
    ap (λ (t : ℕ). bit_or (bit_or (bit_or t (shl d 2)) (shl v 1)) g)
      (or_at 6 pfn (shl c 3) (shl pfn 6) refl (omega arith))
    ∙ (ap (λ (t : ℕ). bit_or (bit_or t (shl v 1)) g)
          (or_at 3 (pfn * 8 + c) (shl d 2) (shl pfn 6 + shl c 3) (omega arith) (omega arith))
        ∙ (ap (λ (t : ℕ). bit_or t g)
              (or_at 2 (pfn * 16 + c * 2 + d) (shl v 1) (shl pfn 6 + shl c 3 + shl d 2)
                (omega arith) (omega arith))
            ∙ (or_at 1 (pfn * 32 + c * 4 + d * 2 + v) g (shl pfn 6 + shl c 3 + shl d 2 + shl v 1)
                  (omega arith) (omega arith)
                ∙ omega arith)))

pub lo_from_lem :
    (p : PageEntry) (global : Bool)
    → p.c < 8
    → lo_from p global
      ≡ p.pfn * 64 + p.c * 8 + bit_of p.dirty * 4 + bit_of p.valid * 2 + bit_of global
unfolding lo_from
lo_from_lem p global h =
    fields_lem p.pfn p.c (bit_of p.dirty) (bit_of p.valid) (bit_of global) h (bit_of-le p.dirty)
      (bit_of-le p.valid) (bit_of-le global)

-- A flag is read back from a word in which it is the digit of a power of two.
flag_back : (b : Bool) (x : ℕ) → x % 2 ≡ bit_of b → not (bit_and x 1 == 0) ≡ b
flag_back true x h = ap (λ (t : ℕ). not (t == 0)) (bit_and_low 1 x ∙ h)
flag_back false x h = ap (λ (t : ℕ). not (t == 0)) (bit_and_low 1 x ∙ h)

page_ext :
    (p q : PageEntry) → p.pfn ≡ q.pfn → p.c ≡ q.c → p.dirty ≡ q.dirty → p.valid ≡ q.valid → p ≡ q
page_ext p q a b c d =
    ap₂ (λ (x y : ℕ). record { pfn = x; c = y; dirty = p.dirty; valid = p.valid }) a b
    ∙ ap₂ (λ (x y : Bool). record { pfn = q.pfn; c = q.c; dirty = x; valid = y }) c d

-- A word that is the sum of fields that fit.
abbrev Fits : ℕ → ℕ → ℕ → ℕ → ℕ → ℕ → Type 0
Fits pfn c d v g w =
    (w ≡ pfn * 64 + c * 8 + d * 4 + v * 2 + g)
    × (pfn < 2 ^ 20)
    × (c < 8)
    × (d ≤ 1)
    × (v ≤ 1)
    × (g ≤ 1)

field_pfn : (pfn c d v g w : ℕ) → Fits pfn c d v g w → shr w 6 % 2 ^ 20 ≡ pfn
field_pfn pfn c d v g w (e, hp, hc, hd, hv, hg) = omega arith

field_c : (pfn c d v g w : ℕ) → Fits pfn c d v g w → shr w 3 % 2 ^ 3 ≡ c
field_c pfn c d v g w (e, hp, hc, hd, hv, hg) = omega arith

-- A page whose frame number and attribute fit their fields is decoded as it was encoded, whichever
-- way the global bit is set.
pub page_from-lo_from :
    (p : PageEntry) (global : Bool) → p.pfn < 2 ^ 20 → p.c < 8 → page_from (lo_from p global) ≡ p
unfolding page_from
page_from-lo_from p global hp hc =
    page_ext (page_from (lo_from p global)) p
      (bit_and_low 20 (shr (lo_from p global) 6)
        ∙ field_pfn p.pfn p.c (bit_of p.dirty) (bit_of p.valid) (bit_of global) (lo_from p global)
            fits)
      (bit_and_low 3 (shr (lo_from p global) 3)
        ∙ field_c p.pfn p.c (bit_of p.dirty) (bit_of p.valid) (bit_of global) (lo_from p global)
            fits)
      (flag_back p.dirty (shr (lo_from p global) 2) (
        omega
          (arith, lo_from_lem p global hc, bit_of-le p.dirty, bit_of-le p.valid, bit_of-le global)))
      (flag_back p.valid (shr (lo_from p global) 1)
        (omega (arith, lo_from_lem p global hc, bit_of-le p.valid, bit_of-le global)))
  where
    fits : Fits p.pfn p.c (bit_of p.dirty) (bit_of p.valid) (bit_of global) (lo_from p global)
    fits = (lo_from_lem p global hc, hp, hc, bit_of-le p.dirty, bit_of-le p.valid, bit_of-le global)

flag_of : (x : ℕ) → bit_of (not (bit_and x 1 == 0)) ≡ x % 2
flag_of x = ground (arith, bit_and_low 1 x)

-- Encoding a decoded page with the global bit of its word gives back the 26 low bits of the word.
pub lo_from-page_from : (lo : ℕ) → lo_from (page_from lo) (not (bit_and lo 1 == 0)) ≡ lo % 2 ^ 26
unfolding page_from
lo_from-page_from lo =
    lo_from_lem (page_from lo) (not (bit_and lo 1 == 0)) (omega (arith, bit_and_low 3 (shr lo 3)))
    ∙ omega (
      arith,
      bit_and_low 20 (shr lo 6),
      bit_and_low 3 (shr lo 3),
      flag_of (shr lo 2),
      flag_of (shr lo 1),
      flag_of lo,
    )

and_31 : (i : ℕ) → bit_and i 31 < 32
and_31 i = omega (arith, bit_and_low 5 i)

-- In a buffer of 32 entries, the entry at the index that was written is the one that the registers
-- describe.
pub entry-write_entry :
    (t : Tlb) (index : ℕ) (r : Cop0)
    → length t.entries ≡ 32
    → entry (write_entry t index r) index ≡ entry_from r
unfolding entry write_entry
entry-write_entry t index r h =
    get_or-set_self t.entries (bit_and index 31) (entry_from r) no_entry
      (omega (arith, and_31 index))

decoded : (lo : ℕ) (g : Bool) → lo_from (page_from lo) g ≡ lo % 2 ^ 26 / 2 * 2 + bit_of g
unfolding page_from
decoded lo g =
    lo_from_lem (page_from lo) g (omega (arith, bit_and_low 3 (shr lo 3)))
    ∙ omega (
      arith,
      bit_and_low 20 (shr lo 6),
      bit_and_low 3 (shr lo 3),
      flag_of (shr lo 2),
      flag_of (shr lo 1),
    )

both_global :
    (a b : ℕ)
    → bit_of (not (bit_and a 1 == 0) && not (bit_and b 1 == 0))
      ≡ (if a % 2 == 1 && b % 2 == 1 then 1 else 0)
both_global a b = ground (arith, bit_and_low 1 a, bit_and_low 1 b)

-- In a buffer of 32 entries, reading an entry back after it was written gives the page mask in its
-- canonical form, and the 26 low bits of both page words, with the global bit of both set only if it
-- was set in both.
pub read_entry-write_entry :
    (t : Tlb) (index : ℕ) (r s : Cop0)
    → length t.entries ≡ 32
    → ((read_entry (write_entry t index r) index s).page_mask
        ≡ canonical_page_mask (u32 r.page_mask))
      × ((read_entry (write_entry t index r) index s).entry_lo0
          ≡ r.entry_lo0 % 2 ^ 26 / 2 * 2
            + (if r.entry_lo0 % 2 == 1 && r.entry_lo1 % 2 == 1 then 1 else 0))
      × ((read_entry (write_entry t index r) index s).entry_lo1
          ≡ r.entry_lo1 % 2 ^ 26 / 2 * 2
            + (if r.entry_lo0 % 2 == 1 && r.entry_lo1 % 2 == 1 then 1 else 0))
unfolding read_entry entry_from
read_entry-write_entry t index r s h =
    let back = entry-write_entry t index r h in
    (
      ap (λ (e : Entry). e.page_mask) back,
      ap (λ (e : Entry). lo_from e.lo0 e.global) back
          ∙ omega (
            arith,
            decoded r.entry_lo0 (entry_from r).global,
            both_global r.entry_lo0 r.entry_lo1,
          ),
      ap (λ (e : Entry). lo_from e.lo1 e.global) back
          ∙ omega (
            arith,
            decoded r.entry_lo1 (entry_from r).global,
            both_global r.entry_lo0 r.entry_lo1,
          ),
    )
