-- ===== src/Rsp/Vu/Divide.antt =====
-- The reciprocals of the vector unit and the moves of one lane: crates/rustyn64-rsp/src/vu.rs. The
-- two tables are computed where an entry is read.
pub mod Root
use rusty_n.Base.{ℕ, zero, suc, ◌+◌, ◌-◌, ◌*◌, ◌/◌, ◌%◌, ◌^◌, bit_and, bit_or}
use rusty_n.Base.{Bool, true, false, ◌&&◌, ◌||◌, not}
use rusty_n.Base.{◌==◌, ltb, leb, if◌then◌else◌, u16, u32, add32, sub32, not32, shl}
use rusty_n.Rsp.Vu.{Vu, DivideLatch, vt_lane, set_lane, with_acc_low}

-- An entry of build_reciprocal.
pub reciprocal : ℕ → ℕ
reciprocal index = if index == 0 then 0xffff else u16 ((2 ^ 34 / (index + 512) + 1) / 2 ^ 8)

-- The number that the search compares with 2 ^ 44.
pub scaled_square : ℕ → ℕ → ℕ
scaled_square a b = a * (b + 1) * (b + 1)

-- The binary search of build_inverse_square_root between `lo` and `hi`.
pub search_root : ℕ → ℕ → ℕ → ℕ → ℕ
search_root zero a lo hi = lo
search_root (suc fuel) a lo hi =
    let mid = (lo + hi) / 2 in
    let below = leb (2 ^ 44) (scaled_square a mid) in
    let rest = search_root fuel a (if below then lo else mid + 1) (if below then mid else hi) in
    if ltb lo hi then rest else lo

-- The search halves an interval of 3 * 2 ^ 17 numbers.
abbrev pub root_fuel : ℕ
root_fuel = 20

-- `a`, which is halved at an odd index.
abbrev pub radicand : ℕ → ℕ
radicand index = if index % 2 == 1 then (index + 512) / 2 else index + 512

pub inverse_square_root : ℕ → ℕ
inverse_square_root index = u16 (search_root root_fuel (radicand index) (2 ^ 17) (2 ^ 19) / 2)

-- `magnitude., by a count of the digits.
pub digits_of : ℕ → ℕ → ℕ
digits_of zero n = 0
digits_of (suc fuel) n = let rest = digits_of fuel (n / 2) in if n == 0 then 0 else rest + 1

abbrev leading_zeros : ℕ → ℕ
leading_zeros n = 32 - digits_of 32 n

-- The input of 32 bits, and the magnitude that the table is read at.
pub divide_input : Vu → ℕ → Bool → ℕ
divide_input s lane long =
    if long && s.div.pending
    then bit_or (u32 (shl s.div.input 16)) lane
    else if ltb lane (2 ^ 15)
    then lane
    else lane + (2 ^ 32 - 2 ^ 16)

-- `input ^ mask`, and its sign: `-32768` is one of the numbers without a negation.
pub divide_magnitude : ℕ → ℕ
divide_magnitude input =
    if ltb input (2 ^ 31)
    then input
    else if ltb (2 ^ 32 - 2 ^ 15) input
    then not32 input + 1
    else not32 input

-- `(input ^ mask)` for the mask of the input's sign.
abbrev signed_as : ℕ → ℕ → ℕ
signed_as input v = if ltb input (2 ^ 31) then v else not32 v

pub divide_result : ℕ → Bool → ℕ
divide_result input sqrt =
    let magnitude = divide_magnitude input in
    let shift = leading_zeros magnitude in
    let index = bit_and (shl magnitude shift) 0x7fc0_0000 / 2 ^ 22 in
    let entry =
      if sqrt
      then inverse_square_root (bit_or (bit_and index 0x1fe) (bit_and shift 1))
      else reciprocal index in
    let r = bit_or 0x1_0000 entry * 2 ^ 14 in
    let back = if sqrt then (31 - shift) / 2 else 31 - shift in
    if magnitude == 0
    then 0x7fff_ffff
    else if input == 2 ^ 32 - 2 ^ 15
    then 0xffff_0000
    else signed_as input (r / 2 ^ back)

-- Every low slice of the accumulator becomes the operand.
pub acc_low_from_broadcast : Vu → ℕ → ℕ → Vu
acc_low_from_broadcast s element vt = record s {
  vu_acc = λ l. if ltb l 8 then with_acc_low (s.vu_acc l) (vt_lane s vt element l) else s.vu_acc l;
}

-- The state, and the lane's new value.
pub reciprocal_core : Vu → ℕ → ℕ → Bool → Bool → Vu × ℕ
reciprocal_core s element vt long sqrt =
    let lane = vt_lane s vt element (bit_and element 7) in
    let result = divide_result (divide_input s lane long) sqrt in
    (
      acc_low_from_broadcast
          (record s { div = record s.div { pending = false; output = u16 (result / 2 ^ 16) } })
          element vt,
      u16 result,
    )

-- The state after an instruction, and whether the opcode is one of this group.
pub vu_single_lane : Vu → ℕ → ℕ → ℕ → ℕ → ℕ → Vu × Bool
vu_single_lane s op element vt de_field vd =
    let de = bit_and de_field 7 in
    let (divided, quotient) =
      reciprocal_core s element vt ((op == 0x31) || (op == 0x35)) (leb 0x34 op) in
    let moved = acc_low_from_broadcast s element vt in
    let staged : DivideLatch = record {
      input = vt_lane s vt element (bit_and element 7);
      output = s.div.output;
      pending = true;
    } in
    if (op == 0x30) || ((op == 0x31) || ((op == 0x34) || (op == 0x35)))
    then (set_lane divided vd de quotient, true)
    else if (op == 0x32) || (op == 0x36)
    then (set_lane (record moved { div = staged }) vd de s.div.output, true)
    else if op == 0x33
    then (set_lane moved vd de (vt_lane s vt element de), true)
    else if (op == 0x37) || (op == 0x3f)
    then (s, true)
    else (s, false)
