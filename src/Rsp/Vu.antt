-- ===== src/Rsp/Vu.antt =====
-- The vector unit: crates/rustyn64-rsp/src/vu.rs. The state, the bytes of a register, the moves and
-- the clamps are here; the children have the instructions. A register is a function of the lane,
-- and the signed 64-bit numbers of the accumulator are their two's complement words.
pub mod Bytes
pub mod Multiply
pub mod Clip
pub mod Round
pub mod Compute
pub mod Divide
pub mod Transfer
pub mod Cop2
mod Tests
use rusty_n.Base.{ℕ, zero, suc, ◌+◌, ◌-◌, ◌*◌, ◌/◌, ◌%◌, ◌^◌, bit_and, bit_or}
use rusty_n.Base.{Bool, true, false, Option, none, some, ◌&&◌, ◌||◌, not}
use rusty_n.Base.{◌==◌, ltb, leb, if◌then◌else◌, u8, u16, sext32, shl, shr}
use rusty_n.Base.{◌<◌, ◌≡◌, ap, ◌∙◌, arith, bit_and_low}
use rusty_n.Rsp.Su.{Su, set_r, sext}

pub record Control : Type 0 where
  pub vco : ℕ
  pub vcc : ℕ
  pub vce : ℕ

pub record DivideLatch : Type 0 where
  pub input : ℕ
  pub output : ℕ
  pub pending : Bool

pub record Vu : Type 0 where
  pub vu_regs : ℕ → ℕ → ℕ
  pub vu_acc : ℕ → ℕ
  pub vu_ctrl : Control
  pub div : DivideLatch

-- The whole processor.
abbrev pub Rsp : Type 0
Rsp = Su Vu

pub new : Vu
new = record {
  vu_regs = λ reg lane. 0;
  vu_acc = λ lane. 0;
  vu_ctrl = record { vco = 0; vcc = 0; vce = 0 };
  div = record { input = 0; output = 0; pending = false };
}

pub control_index : ℕ → ℕ
control_index vs = bit_and vs 3

-- Lane `lane` of register `reg` becomes `v`.
abbrev pub set_lane : Vu → ℕ → ℕ → ℕ → Vu
set_lane s reg lane v = record s {
  vu_regs = λ g l. if (g == bit_and reg 31) && (l == lane) then v else s.vu_regs g l;
}

pub vu_byte : Vu → ℕ → ℕ → ℕ
vu_byte s reg byte =
    let lane = s.vu_regs (bit_and reg 31) (shr (bit_and byte 15) 1) in
    if bit_and byte 1 == 0 then u8 (shr lane 8) else u8 lane

pub set_vu_byte : Vu → ℕ → ℕ → ℕ → Vu
set_vu_byte s reg byte val =
    let at = shr (bit_and byte 15) 1 in
    let lane = s.vu_regs (bit_and reg 31) at in
    set_lane s reg at (
      if bit_and byte 1 == 0
      then bit_or (bit_and lane 0x00ff) (u16 (shl val 8))
      else bit_or (bit_and lane 0xff00) val)

-- The moves between the two units. The value that MFC2 and CFC2 return is what they write.
pub mfc2 : Rsp → ℕ → ℕ → ℕ → Rsp × ℕ
mfc2 s rt vs elem =
    let hi = vu_byte s.vu vs elem in
    let lo = vu_byte s.vu vs (bit_and (elem + 1) 15) in
    let v = sext (bit_or (shl hi 8) lo) in (set_r s rt v, v)

pub mtc2 : Vu → ℕ → ℕ → ℕ → Vu
mtc2 s value vs elem =
    let first = set_vu_byte s vs elem (u8 (shr value 8)) in
    if elem == 15 then first else set_vu_byte first vs (elem + 1) (u8 value)

pub cfc2 : Rsp → ℕ → ℕ → Rsp × ℕ
cfc2 s rt vs =
    let c = s.vu.vu_ctrl in
    let i = control_index vs in
    let v = sext (if i == 0 then c.vco else if i == 1 then c.vcc else c.vce) in (set_r s rt v, v)

pub ctc2 : Vu → ℕ → ℕ → Vu
ctc2 s value vs =
    let v = u16 value in
    let c = s.vu_ctrl in
    let i = control_index vs in
    record s {
      vu_ctrl =
          if i == 0
          then record c { vco = v }
          else if i == 1
          then record c { vcc = v }
          else record c { vce = u8 v };
    }

-- The lane of `vt` that the element field selects for a lane.
pub source_lane : ℕ → ℕ → ℕ
source_lane element lane =
    if leb element 1
    then lane
    else if element == 2
    then lane / 2 * 2
    else if element == 3
    then bit_or (lane / 2 * 2) 1
    else if leb element 7
    then bit_or (lane / 4 * 4) (element - 4)
    else element - 8

pub vt_lane : Vu → ℕ → ℕ → ℕ → ℕ
vt_lane s vt element lane = s.vu_regs (bit_and vt 31) (bit_and (source_lane element lane) 7)

-- `v as i16 as i64`, and `a < b` on 64-bit words as signed numbers.
abbrev pub signed16 : ℕ → ℕ
signed16 v = if ltb v (2 ^ 15) then v else v + (2 ^ 64 - 2 ^ 16)

abbrev pub signed_lt64 : ℕ → ℕ → Bool
signed_lt64 a b = ltb ((a + 2 ^ 63) % 2 ^ 64) ((b + 2 ^ 63) % 2 ^ 64)

-- `a >> k` on a signed 64-bit number.
abbrev pub shr64 : ℕ → ℕ → ℕ
shr64 a k = if ltb a (2 ^ 63) then a / 2 ^ k else 2 ^ 64 - 1 - (2 ^ 64 - 1 - a) / 2 ^ k

pub clamp_signed : ℕ → ℕ
clamp_signed v =
    if signed_lt64 v (2 ^ 64 - 32768) then 0x8000 else if signed_lt64 32767 v then 0x7fff else u16 v

pub clamp_unsigned : ℕ → ℕ
clamp_unsigned v = if signed_lt64 v 0 then 0 else if signed_lt64 32767 v then 0xffff else u16 v

pub extract_low : ℕ → ℕ
extract_low acc =
    let mid = shr64 acc 16 in
    if signed_lt64 32767 mid
    then 0xffff
    else if signed_lt64 mid (2 ^ 64 - 32768)
    then 0
    else u16 acc

-- An accumulator lane of 48 bits as a signed number, and the lane that holds a number.
abbrev pub acc_signed : ℕ → ℕ
acc_signed a = if ltb (a % 2 ^ 48) (2 ^ 47) then a % 2 ^ 48 else a % 2 ^ 48 + (2 ^ 64 - 2 ^ 48)

abbrev pub acc_of : ℕ → ℕ
acc_of v = v % 2 ^ 48

abbrev pub set_acc : Vu → ℕ → ℕ → Vu
set_acc s lane v = record s { vu_acc = λ l. if l == lane then v else s.vu_acc l }

-- The low 16 bits of a lane replaced.
abbrev pub with_acc_low : ℕ → ℕ → ℕ
with_acc_low acc v = bit_or (bit_and acc 0xffff_ffff_0000) v

-- Without a broadcast a lane reads its own lane.
pub vt_lane_own : (s : Vu) (vt l : ℕ) → l < 8 → vt_lane s vt 0 l ≡ s.vu_regs (bit_and vt 31) l
unfolding vt_lane source_lane
vt_lane_own s vt l h = ap (λ (t : ℕ). s.vu_regs (bit_and vt 31) t) (bit_and_low 3 l ∙ omega arith)
