-- ===== src/Rsp/Vu/Multiply.antt =====
-- The multiply family of the vector unit: multiply_lane of crates/rustyn64-rsp/src/vu.rs. It reads
-- and writes the accumulator of its own lane alone, so it is a function of that.
pub mod Product
use rusty_n.Base.{ℕ, ◌+◌, ◌-◌, ◌*◌, ◌/◌, ◌%◌, ◌^◌, bit_and, Bool, true, false, ◌||◌}
use rusty_n.Base.{◌==◌, ltb, if◌then◌else◌, u16, u64, add64, shl}
use rusty_n.Rsp.Vu.{signed16, shr64, clamp_signed, clamp_unsigned, extract_low, acc_signed, acc_of}

-- The product of VMUDH, which stands 16 bits higher, and the product that VMULQ rounds up.
abbrev pub high_product : ℕ → ℕ → ℕ
high_product s t = u64 (shl (u64 (signed16 s * signed16 t)) 16)

abbrev pub quant_product : ℕ → ℕ → ℕ
quant_product s t =
    let product = u64 (signed16 s * signed16 t) in
    if ltb product (2 ^ 63) then product else add64 product 31

-- The new accumulator of the lane and its result, from the opcode, the accumulator and the operands.
pub multiply_lane : ℕ → ℕ → ℕ → ℕ → ℕ × ℕ
multiply_lane op acc s t =
    let ss = signed16 s in
    let ts = signed16 t in
    let doubled = u64 (ss * ts * 2) in
    let rounded = acc_of (add64 doubled 0x8000) in
    let held = acc_signed acc in
    let fraction = acc_of (add64 held doubled) in
    let low = s * t / 2 ^ 16 in
    let mid = u64 (ss * t) in
    let mixed = u64 (s * ts) in
    let quant = quant_product s t in
    let with_low = acc_of (add64 held low) in
    let with_mid = acc_of (add64 held mid) in
    let with_mixed = acc_of (add64 held mixed) in
    let with_high = acc_of (add64 held (high_product s t)) in
    if op == 0x00
    then (rounded, clamp_signed (shr64 (acc_signed rounded) 16))
    else if op == 0x01
    then (rounded, clamp_unsigned (shr64 (acc_signed rounded) 16))
    else if op == 0x04
    then (acc_of low, u16 low)
    else if op == 0x05
    then (acc_of mid, u16 (shr64 mid 16))
    else if op == 0x06
    then (acc_of mixed, u16 mixed)
    else if op == 0x07
    then (
      acc_of (high_product s t),
      clamp_signed (shr64 (acc_signed (acc_of (high_product s t))) 16),
    )
    else if op == 0x03
    then (acc_of (u64 (shl quant 16)), bit_and (clamp_signed (shr64 quant 1)) 0xfff0)
    else if op == 0x08
    then (fraction, clamp_signed (shr64 (acc_signed fraction) 16))
    else if op == 0x09
    then (fraction, clamp_unsigned (shr64 (acc_signed fraction) 16))
    else if op == 0x0c
    then (with_low, extract_low (acc_signed with_low))
    else if op == 0x0d
    then (with_mid, clamp_signed (shr64 (acc_signed with_mid) 16))
    else if op == 0x0e
    then (with_mixed, extract_low (acc_signed with_mixed))
    else if op == 0x0f
    then (with_high, clamp_signed (shr64 (acc_signed with_high) 16))
    else (acc, 0)
