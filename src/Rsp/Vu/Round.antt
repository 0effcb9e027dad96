-- ===== src/Rsp/Vu/Round.antt =====
-- The vector instructions that round the accumulator, and the reserved opcodes: vrnd, vmacq and vzero
-- of crates/rustyn64-rsp/src/vu.rs.
use rusty_n.Base.{ℕ, zero, suc, ◌*◌, ◌/◌, ◌^◌, bit_and}
use rusty_n.Base.{Bool, ◌&&◌, ◌||◌, not}
use rusty_n.Base.{◌==◌, leb, if◌then◌else◌, any_set, u16, u64, add64, sub64, not64}
use rusty_n.Rsp.Vu.{
  Vu, vt_lane, set_lane, set_acc, with_acc_low, signed16, shr64, clamp_signed, acc_signed, acc_of,
}
use rusty_n.Rsp.Vu.Clip.{add16}

-- VRNDN and VRNDP: the field of `vs` says whether the operand stands 16 bits higher.
pub vrnd_lane : Bool → ℕ → ℕ → ℕ → ℕ
vrnd_lane positive vs_field acc t =
    let product = if any_set vs_field 1 then u64 (signed16 t * 2 ^ 16) else signed16 t in
    let held = acc_signed acc in
    let below = leb (2 ^ 63) held in
    if (positive && not below) || (not positive && below)
    then acc_of (add64 held product)
    else acc_of held

-- VMACQ moves the accumulator towards a multiple of 2 ^ 21.
pub vmacq_lane : ℕ → ℕ × ℕ
vmacq_lane acc =
    let held = acc_signed acc in
    let high = shr64 held 22 in
    let out =
      if any_set held 0x20_0000
      then held
      else if leb (2 ^ 63) high
      then add64 held 0x20_0000
      else if high == 0
      then held
      else sub64 held 0x20_0000 in
    let clamped =
      if leb (2 ^ 63) out
      then (if not64 out / 2 ^ 32 == 0 then u16 (shr64 out 17) else 0x8000)
      else if out / 2 ^ 32 == 0
      then u16 (out / 2 ^ 17)
      else 0x7fff in
    (acc_of out, bit_and clamped 0xfff0)

-- An instruction whose lanes have a new accumulator and a result each, without flags.
pub each_lane : (ℕ → ℕ → ℕ × ℕ) → ℕ → Vu → ℕ → Vu
each_lane f vd s zero = s
each_lane f vd s (suc n) =
    let before = each_lane f vd s n in
    let (acc, out) = f n (before.vu_acc n) in set_lane (set_acc before n acc) vd n out

pub vrnd : Vu → Bool → ℕ → ℕ → ℕ → ℕ → Vu
vrnd s positive element vs_field vt vd =
    let tv = vt_lane s vt element in
    each_lane
      (λ n acc.
        let rounded = vrnd_lane positive vs_field acc (tv n) in
        (rounded, clamp_signed (shr64 (acc_signed rounded) 16)))
      vd s 8

pub vmacq : Vu → ℕ → Vu
vmacq s vd = each_lane (λ n acc. vmacq_lane acc) vd s 8

-- The reserved opcodes: the sum stands in the accumulator, and the register becomes zero.
pub vzero : Vu → ℕ → ℕ → ℕ → ℕ → Vu
vzero s element vs vt vd =
    let sv = s.vu_regs (bit_and vs 31) in
    let tv = vt_lane s vt element in
    each_lane (λ n acc. (with_acc_low acc (add16 (sv n) (tv n)), 0)) vd s 8
