-- ===== src/Rsp/Vu/Bytes.antt =====
-- The bytes of a vector register, and the moves that use them: crates/rustyn64-rsp/src/vu.rs.
use rusty_n.Base.{ℕ, ◌+◌, ◌*◌, ◌/◌, ◌%◌, ◌^◌, ◌<◌, ◌≡◌, ap, ap₂, ◌∙◌, arith}
use rusty_n.Base.{◌==◌, if◌then◌else◌, u8, u16, shl}
use rusty_n.Base.{bit_and, bit_or, bit_and_low, bit_and_field, bit_or_disjoint, bit_or_comm}
use rusty_n.Rsp.Vu.{Vu, Rsp, vu_byte, set_vu_byte, mfc2, mtc2}
use rusty_n.Rsp.Su.{sext}

-- A lane with its high or its low byte replaced.
high_byte :
    (lane v : ℕ)
    → v < 2 ^ 8
    → bit_or (bit_and lane 0x00ff) (u16 (shl v 8)) ≡ v * 2 ^ 8 + lane % 2 ^ 8
high_byte lane v h =
    let e : u16 (shl v 8) ≡ v * 2 ^ 8 = omega arith in
    ap (λ (t : ℕ). bit_or t (u16 (shl v 8))) (bit_and_low 8 lane)
    ∙ (ap (bit_or (lane % 2 ^ 8)) e
        ∙ (bit_or_comm (lane % 2 ^ 8) (v * 2 ^ 8)
            ∙ bit_or_disjoint 8 v (lane % 2 ^ 8) (omega arith)))

low_byte :
    (lane v : ℕ) → v < 2 ^ 8 → bit_or (bit_and lane 0xff00) v ≡ lane / 2 ^ 8 % 2 ^ 8 * 2 ^ 8 + v
low_byte lane v h =
    ap (λ (t : ℕ). bit_or t v) (bit_and_field 8 8 lane)
    ∙ bit_or_disjoint 8 (lane / 2 ^ 8 % 2 ^ 8) v h

-- A byte of a register after a write of one of its bytes.
pub vu_byte-set_vu_byte :
    (s : Vu) (reg b c v : ℕ)
    → b < 16
    → c < 16
    → v < 2 ^ 8
    → vu_byte (set_vu_byte s reg b v) reg c ≡ (if b == c then v else vu_byte s reg c)
unfolding vu_byte set_vu_byte
vu_byte-set_vu_byte s reg b c v hb hc hv = ground (
  arith,
  bit_and_low 4 b,
  bit_and_low 4 c,
  bit_and_low 1 b,
  bit_and_low 1 c,
  high_byte (s.vu_regs (bit_and reg 31) (bit_and b 15 / 2 ^ 1)) v,
  low_byte (s.vu_regs (bit_and reg 31) (bit_and b 15 / 2 ^ 1)) v,
)

byte_lt : (s : Vu) (reg c : ℕ) → vu_byte s reg c < 2 ^ 8
unfolding vu_byte
byte_lt s reg c = ground arith

mtc2_high :
    (s : Vu) (vs elem x : ℕ) → elem < 16 → vu_byte (mtc2 s x vs elem) vs elem ≡ x / 2 ^ 8 % 2 ^ 8
unfolding mtc2
mtc2_high s vs elem x h =
    let hi = u8 (x / 2 ^ 8) in
    let first = set_vu_byte s vs elem hi in
    ground (
      arith,
      vu_byte-set_vu_byte s vs elem elem hi,
      vu_byte-set_vu_byte first vs (elem + 1) elem (u8 x),
    )

mtc2_low :
    (s : Vu) (vs elem x : ℕ)
    → elem < 16
    → vu_byte (mtc2 s x vs elem) vs (bit_and (elem + 1) 15)
      ≡ (if elem == 15 then vu_byte s vs 0 else x % 2 ^ 8)
unfolding mtc2
mtc2_low s vs elem x h =
    let hi = u8 (x / 2 ^ 8) in
    let first = set_vu_byte s vs elem hi in
    let next : bit_and (elem + 1) 15 ≡ (elem + 1) % 16 = bit_and_low 4 (elem + 1) in
    rw next (
      ground (
        arith,
        vu_byte-set_vu_byte s vs elem ((elem + 1) % 16) hi,
        vu_byte-set_vu_byte first vs (elem + 1) ((elem + 1) % 16) (u8 x),
      ))

-- MTC2, then MFC2 at the same byte: the low 16 bits of the value, sign-extended, where two bytes
-- are written. At the last byte the second byte of the pair is byte 0 of the register, which MTC2
-- leaves as it was.
pub mfc2-mtc2 :
    (s : Rsp) (rt vs elem x : ℕ)
    → elem < 16
    → (mfc2 (record s { vu = mtc2 s.vu x vs elem }) rt vs elem).1
      ≡ sext (x / 2 ^ 8 % 2 ^ 8 * 2 ^ 8 + (if elem == 15 then vu_byte s.vu vs 0 else x % 2 ^ 8))
unfolding mfc2
mfc2-mtc2 s rt vs elem x h =
    let pair = if elem == 15 then vu_byte s.vu vs 0 else x % 2 ^ 8 in
    ap₂ (λ (a b : ℕ). sext (bit_or (a * 2 ^ 8) b)) (mtc2_high s.vu vs elem x h)
      (mtc2_low s.vu vs elem x h)
    ∙ ap sext (bit_or_disjoint 8 (x / 2 ^ 8 % 2 ^ 8) pair (ground (arith, byte_lt s.vu vs 0)))
