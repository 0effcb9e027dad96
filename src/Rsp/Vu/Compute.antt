-- ===== src/Rsp/Vu/Compute.antt =====
-- The computational instructions of the vector unit: vu_compute of crates/rustyn64-rsp/src/vu.rs and
-- the arms of its match. A lane reads the operands and control registers of before the instruction,
-- and of the accumulator its own lane alone.
pub mod Lanes
pub mod Products
pub mod Carry
use rusty_n.Base.{ℕ, zero, suc, ◌+◌, ◌-◌, ◌*◌, ◌/◌, ◌%◌, ◌^◌, bit_and, bit_or, bit_xor}
use rusty_n.Base.{Bool, true, false, ◌&&◌, ◌||◌, not}
use rusty_n.Base.{◌==◌, ltb, leb, if◌then◌else◌, any_set, u16, u64, add64, sub64, not64}
use rusty_n.Rsp.Vu.{
  Control, Vu, vt_lane, set_lane, set_acc, with_acc_low, signed16, signed_lt64, shr64, clamp_signed,
  acc_signed, acc_of,
}
use rusty_n.Rsp.Vu.Multiply.{multiply_lane}
use rusty_n.Rsp.Vu.Round.{vrnd, vmacq, vzero}
use rusty_n.Rsp.Vu.Clip.{flag, vco_l, vco_h, vcc_l, clip, neg16, add16}

pub record LaneResult : Type 0 where
  pub acc : ℕ
  pub out : ℕ
  pub carry : Bool
  pub non_zero : Bool
  pub holds : Bool

-- A result that sets no flag.
abbrev plain : ℕ → ℕ → LaneResult
plain acc out = record { acc = acc; out = out; carry = false; non_zero = false; holds = false }

-- VADD and VSUB.
pub add_lane : ℕ → Control → ℕ → ℕ → ℕ → ℕ → LaneResult
add_lane op c lane acc s t =
    let carry = if vco_l c lane then 1 else 0 in
    let r =
      if op == 0x10
      then add64 (add64 (signed16 s) (signed16 t)) carry
      else sub64 (sub64 (signed16 s) (signed16 t)) carry in
    plain (with_acc_low acc (u16 r)) (clamp_signed r)

-- VADDC and VSUBC.
pub carry_lane : ℕ → ℕ → ℕ → ℕ → LaneResult
carry_lane op acc s t =
    let r = if op == 0x14 then s + t else sub64 s t in
    let low = u16 r in
    record {
      acc = with_acc_low acc low;
      out = low;
      carry = any_set (r / 2 ^ 16) 1;
      non_zero = (op == 0x15) && not (low == 0);
      holds = false;
    }

pub vabs_lane : ℕ → ℕ → ℕ → LaneResult
vabs_lane acc s t =
    if leb (2 ^ 15) s
    then (if t == 2 ^ 15
        then plain (with_acc_low acc 0x8000) 0x7fff
        else plain (with_acc_low acc (neg16 t)) (neg16 t))
    else if s == 0
    then plain (with_acc_low acc 0) 0
    else plain (with_acc_low acc t) t

-- The operand that a compare selects, and whether its predicate holds; VMRG has no predicate.
pub compare_lane : ℕ → Control → ℕ → ℕ → ℕ → ℕ × Bool
compare_lane op c lane s t =
    let carry = vco_l c lane in
    let non_zero = vco_h c lane in
    let less = signed_lt64 (signed16 s) (signed16 t) in
    let more = signed_lt64 (signed16 t) (signed16 s) in
    let cond =
      if op == 0x20
      then less || ((s == t) && (carry && non_zero))
      else if op == 0x21
      then not non_zero && (s == t)
      else if op == 0x22
      then not (s == t) || non_zero
      else more || ((s == t) && (not carry || not non_zero)) in
    if op == 0x27 then (if vcc_l c lane then s else t, false) else (if cond then s else t, cond)

-- VSAR reads a slice of the accumulator.
pub slice : ℕ → ℕ → ℕ
slice element acc =
    if element == 8
    then u16 (acc / 2 ^ 32)
    else if element == 9
    then u16 (acc / 2 ^ 16)
    else if element == 10
    then u16 acc
    else 0

pub logic : ℕ → ℕ → ℕ → ℕ
logic op s t =
    if op == 0x28
    then bit_and s t
    else if op == 0x29
    then 2 ^ 16 - 1 - bit_and s t
    else if op == 0x2a
    then bit_or s t
    else if op == 0x2b
    then 2 ^ 16 - 1 - bit_or s t
    else if op == 0x2c
    then bit_xor s t
    else 2 ^ 16 - 1 - bit_xor s t

abbrev is_compare : ℕ → Bool
is_compare op = (leb 0x20 op && leb op 0x23) || (op == 0x27)

pub lane_result : ℕ → ℕ → Control → ℕ → ℕ → ℕ → ℕ → LaneResult
lane_result op element c lane acc s t =
    let (product_acc, product) = multiply_lane op acc s t in
    let (picked, holds) = compare_lane op c lane s t in
    if leb op 0x0f
    then plain product_acc product
    else if leb op 0x11
    then add_lane op c lane acc s t
    else if op == 0x13
    then vabs_lane acc s t
    else if leb op 0x15
    then carry_lane op acc s t
    else if op == 0x1d
    then plain acc (slice element acc)
    else if is_compare op
    then record (plain (with_acc_low acc picked) picked) { holds = holds }
    else plain (with_acc_low acc (logic op s t)) (logic op s t)

-- The lanes below `n`, lowest first, and the flags that they leave.
pub record Computing : Type 0 where
  pub vu : Vu
  pub new_vco : ℕ
  pub compare_flags : ℕ

pub compute_lane : ℕ → ℕ → (ℕ → ℕ) → (ℕ → ℕ) → ℕ → ℕ → Computing → Computing
compute_lane op element sv tv vd n s =
    let done = lane_result op element s.vu.vu_ctrl n (s.vu.vu_acc n) (sv n) (tv n) in
    let carried = if done.carry then bit_or s.new_vco (2 ^ n) else s.new_vco in
    record {
      vu = set_lane (set_acc s.vu n done.acc) vd n done.out;
      new_vco = if done.non_zero then bit_or carried (2 ^ (n + 8)) else carried;
      compare_flags = if done.holds then bit_or s.compare_flags (2 ^ n) else s.compare_flags;
    }

pub compute_lanes : ℕ → ℕ → (ℕ → ℕ) → (ℕ → ℕ) → ℕ → Vu → ℕ → Computing
compute_lanes op element sv tv vd s zero = record { vu = s; new_vco = 0; compare_flags = 0 }
compute_lanes op element sv tv vd s (suc n) =
    compute_lane op element sv tv vd n (compute_lanes op element sv tv vd s n)

-- The control registers after the lanes.
pub flags_after : ℕ → Control → Computing → Control
flags_after op c done =
    let compared =
      if leb 0x20 op && leb op 0x23 then record c { vcc = done.compare_flags } else c in
    if is_compare op || ((op == 0x10) || (op == 0x11))
    then record compared { vco = 0 }
    else if (op == 0x14) || (op == 0x15)
    then record compared { vco = done.new_vco }
    else compared

abbrev is_reserved : ℕ → Bool
is_reserved op =
    (op == 0x12)
    || ((leb 0x16 op && leb op 0x1c)
        || ((op == 0x1e)
            || ((op == 0x1f) || ((op == 0x2e) || ((op == 0x2f) || (leb 0x38 op && leb op 0x3e))))))

abbrev is_single_lane : ℕ → Bool
is_single_lane op = (leb 0x30 op && leb op 0x37) || leb 0x3f op

-- The state after an instruction, and whether the opcode is one of this group.
pub vu_compute : Vu → ℕ → ℕ → ℕ → ℕ → ℕ → Vu × Bool
vu_compute s op element vs vt vd =
    let done = compute_lanes op element (s.vu_regs (bit_and vs 31)) (vt_lane s vt element) vd s 8 in
    if (op == 0x02) || (op == 0x0a)
    then (vrnd s (op == 0x02) element vs vt vd, true)
    else if op == 0x0b
    then (vmacq s vd, true)
    else if leb 0x24 op && leb op 0x26
    then (clip s op element vs vt vd, true)
    else if is_reserved op
    then (vzero s element vs vt vd, true)
    else if is_single_lane op
    then (s, false)
    else (record done.vu { vu_ctrl = flags_after op s.vu_ctrl done }, true)
