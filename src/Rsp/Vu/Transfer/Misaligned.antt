-- ===== src/Rsp/Vu/Transfer/Misaligned.antt =====
-- LQV and LRV as a pair: vector_mem of crates/rustyn64-rsp/src/vu.rs.
use rusty_n.Base.{
  ℕ, zero, suc, ◌+◌, ◌-◌, ◌*◌, ◌/◌, ◌%◌, ◌^◌, ◌≤◌, ◌<◌, ◌≡◌, refl, sym, ap, ◌∙◌, arith,
}
use rusty_n.Base.{false, ◌&&◌, ◌==◌, ltb, leb, if◌then◌else◌, add32, bit_and, min}
use rusty_n.Base.{
  bit_or, bit_and_low, bit_or_split, bit_or_ones, bit_or-zero, ap₂, Bool-cases, inl, inr, subst,
  ◌≢◌,
}
use rusty_n.Rsp.Su.{r, dmem_read, low12}
use rusty_n.Rsp.Vu.{Rsp, vu_byte}
use rusty_n.Rsp.Vu.Bytes.{vu_byte-set_vu_byte}
use rusty_n.Rsp.Vu.Transfer.{effective, iterate, load_byte, left, right, vector_mem}

-- The data memory holds bytes.
abbrev pub HoldsBytes : Rsp → Type 0
HoldsBytes s = (x : ℕ) → dmem_read s x < 2 ^ 8

read_same : (a b : Rsp) (x : ℕ) → a.dmem ≡ b.dmem → dmem_read a x ≡ dmem_read b x
unfolding dmem_read
read_same a b x h = ap (λ (f : ℕ → ℕ). f (low12 x)) h

module _ (vt : ℕ) (byte_of at : ℕ → ℕ) where
  abbrev loads : ℕ → Rsp → Rsp
  loads n s = iterate (λ i. load_byte vt (byte_of i) (at i)) n s

  -- Loads change neither the data memory nor the registers of the scalar unit.
  loads_dmem : (n : ℕ) (s : Rsp) → (loads n s).dmem ≡ s.dmem
  unfolding iterate load_byte
  loads_dmem zero s = refl
  loads_dmem (suc n) s = loads_dmem n s

  loads_su : (n : ℕ) (s : Rsp) → (loads n s).su_regs ≡ s.su_regs
  unfolding iterate load_byte
  loads_su zero s = refl
  loads_su (suc n) s = loads_su n s

  -- A run of bytes from byte `first` on.
  loads_lem :
      (first n c : ℕ) (s : Rsp)
      → HoldsBytes s
      → first + n ≤ 16
      → c < 16
      → ((i : ℕ) → i < n → byte_of i ≡ first + i)
      → vu_byte (loads n s).vu vt c ≡ (
          if leb first c && ltb c (first + n)
          then dmem_read s (at (c - first))
          else vu_byte s.vu vt c)
  unfolding iterate load_byte
  loads_lem first zero c s bytes h hc e = ground arith
  loads_lem first (suc n) c s bytes h hc e =
      let s' = loads n s in
      let same : dmem_read s' (at n) ≡ dmem_read s (at n) =
        read_same s' s (at n) (loads_dmem n s) in
      let b : byte_of n ≡ first + n = e n (omega arith) in
      let ih = loads_lem first n c s bytes (omega arith) hc (λ i lt. e i (omega arith)) in
      rw (same, b)
        (vu_byte-set_vu_byte s'.vu vt (first + n) c (dmem_read s (at n)) (omega arith) hc
            (bytes (at n))
          ∙ ground (arith, ih))

-- `addr | 15` is the last byte before the next boundary.
boundary : (a : ℕ) → bit_or a 15 ≡ a / 2 ^ 4 * 2 ^ 4 + 15
boundary a =
    let e : a / 2 ^ 4 * 2 ^ 4 + a % 2 ^ 4 ≡ a = omega arith in
    ap (λ (t : ℕ). bit_or t 15) (sym e)
    ∙ (bit_or_split 4 (a / 2 ^ 4) (a % 2 ^ 4) 0 15 (omega arith) (omega arith)
        ∙ ap₂ (λ (x y : ℕ). x * 2 ^ 4 + y) (bit_or-zero (a / 2 ^ 4))
            (bit_or_ones 4 (a % 2 ^ 4) (omega arith)))

-- LQV from address `addr`, and LRV up to the address 16 bytes on, both from the first element.
left_lem :
    (s : Rsp) (vt addr c : ℕ)
    → HoldsBytes s
    → c < 16
    → vu_byte (left false addr vt 0 s).vu vt c
      ≡ (if ltb c (16 - addr % 16) then dmem_read s (add32 addr c) else vu_byte s.vu vt c)
unfolding left
left_lem s vt addr c bytes h =
    let size = min (bit_or addr 15 - addr) 15 in
    let e : size + 1 ≡ 16 - addr % 16 = omega (arith, boundary addr) in
    loads_lem vt (λ i. bit_and (0 + i) 15) (λ i. add32 addr i) 0 (size + 1) c s bytes
      (omega (arith, e)) h (λ i lt. bit_and_low 4 (0 + i) ∙ omega (arith, e))
    ∙ ground (arith, e)

same_byte : (s : Rsp) (x y : ℕ) → x % 2 ^ 12 ≡ y % 2 ^ 12 → dmem_read s x ≡ dmem_read s y
unfolding dmem_read
same_byte s x y h = ap s.dmem (bit_and_low 12 x ∙ (h ∙ sym (bit_and_low 12 y)))

-- The byte that LRV reads for byte `c` of the register.
turned :
    (addr c n : ℕ)
    → n ≡ addr % 16
    → 16 - n ≤ c
    → add32 (add32 addr 16 / 16 * 16) (c - (16 - n)) % 2 ^ 12 ≡ add32 addr c % 2 ^ 12
turned addr c n e h = omega arith

right_lem :
    (s : Rsp) (vt addr c : ℕ)
    → HoldsBytes s
    → c < 16
    → vu_byte (right false (add32 addr 16) vt 0 s).vu vt c
      ≡ (if ltb c (16 - addr % 16) then vu_byte s.vu vt c else dmem_read s (add32 addr c))
unfolding right
right_lem s vt addr c bytes h =
    let end = add32 addr 16 in
    let n = bit_and end 15 in
    let e : n ≡ addr % 16 = bit_and_low 4 end ∙ omega arith in
    elim (Bool-cases (ltb 0 n)) [
      | inr none_left ↦ rw none_left (ground (arith, e))
      | inl more ↦ rw more (
          loads_lem vt (λ i. 16 - n + 0 + i) (λ i. add32 (end / 16 * 16) i) (16 - n) (n - 0) c s
            bytes (omega (arith, e)) h (λ i lt. omega arith)
          ∙ ground (
            arith,
            e,
            same_byte s (add32 (end / 16 * 16) (c - (16 - n))) (add32 addr c),
            turned addr c n,
          ))
    ]

next_offset : (rs o : ℕ) → o < 127 → o ≢ 63 → effective rs (o + 1) 16 ≡ add32 (effective rs o 16) 16
unfolding effective
next_offset rs o h h' = ground (arith, bit_and_low 7 o, bit_and_low 7 (o + 1))

-- The first of the two changes neither the registers of the scalar unit nor the memory.
left_dmem : (s : Rsp) (vt addr : ℕ) → (left false addr vt 0 s).dmem ≡ s.dmem
unfolding left
left_dmem s vt addr =
    loads_dmem vt (λ i. bit_and (0 + i) 15) (λ i. add32 addr i)
      (min (bit_or addr 15 - addr) (15 - 0) + 1) s

left_r : (s : Rsp) (vt addr i : ℕ) → r (left false addr vt 0 s) i ≡ r s i
unfolding left r
left_r s vt addr i =
    ap (λ (f : ℕ → ℕ). if i == 0 then 0 else f i)
      (loads_su vt (λ i. bit_and (0 + i) 15) (λ i. add32 addr i)
        (min (bit_or addr 15 - addr) (15 - 0) + 1) s)

-- LQV, then LRV with the next offset, both from the first element, from a memory of bytes: together
-- they load the 16 bytes from the effective address on, wherever it stands within its line of 16
-- bytes and also around the end of the memory. The offset is a field of 7 bits whose successor is
-- the next offset: it is not 63 or 127, where the sign changes or the field ends.
pub misaligned_load :
    (s : Rsp) (base vt offset c : ℕ)
    → HoldsBytes s
    → offset < 127
    → offset ≢ 63
    → c < 16
    → vu_byte
        (vector_mem false 5 base vt 0 (offset + 1) (vector_mem false 4 base vt 0 offset s).0).0.vu
        vt
        c
      ≡ dmem_read s (add32 (effective (r s base) offset 16) c)
unfolding vector_mem
misaligned_load s base vt offset c bytes h h' hc =
    let addr = effective (r s base) offset 16 in
    let first = left false addr vt 0 s in
    let same = λ (x : ℕ). read_same first s x (left_dmem s vt addr) in
    let target : effective (r first base) (offset + 1) 16 ≡ add32 addr 16 =
      ap (λ (t : ℕ). effective t (offset + 1) 16) (left_r s vt addr base)
      ∙ next_offset (r s base) offset h h' in
    ap (λ (t : ℕ). vu_byte (right false t vt 0 first).vu vt c) target
    ∙ (right_lem first vt addr c (λ x. subst (λ (t : ℕ). t < 2 ^ 8) (sym (same x)) (bytes x)) hc
        ∙ ground (arith, left_lem s vt addr c bytes hc, same (add32 addr c)))
