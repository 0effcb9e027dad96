-- ===== src/Rsp/Vu/Clip.antt =====
-- The clip compares of the vector unit, VCL, VCH and VCR: crates/rustyn64-rsp/src/vu.rs. A lane's
-- function takes the control registers and returns them with the lane's result.
use rusty_n.Base.{ℕ, zero, suc, ◌+◌, ◌-◌, ◌/◌, ◌%◌, ◌^◌, bit_and, bit_or}
use rusty_n.Base.{Bool, true, false, ◌&&◌, ◌||◌, not}
use rusty_n.Base.{◌==◌, ltb, leb, if◌then◌else◌, any_set}
use rusty_n.Rsp.Vu.{Control, Vu, vt_lane, set_lane, set_acc, with_acc_low}

-- `(reg >> n) & 1 != 0`
unfoldable pub flag : ℕ → ℕ → Bool
flag reg n = any_set (reg / 2 ^ n) 1

unfoldable pub vco_l : Control → ℕ → Bool
vco_l c n = flag c.vco n

pub vco_h : Control → ℕ → Bool
vco_h c n = flag c.vco (n + 8)

pub vcc_l : Control → ℕ → Bool
vcc_l c n = flag c.vcc n

pub vcc_h : Control → ℕ → Bool
vcc_h c n = flag c.vcc (n + 8)

pub vce_bit : Control → ℕ → Bool
vce_bit c n = flag c.vce n

pub set_flag : ℕ → ℕ → Bool → ℕ
set_flag reg n v = if v then bit_or reg (2 ^ n) else bit_and reg (2 ^ 16 - 1 - 2 ^ n)

pub set_vce : ℕ → ℕ → Bool → ℕ
set_vce reg n v = if v then bit_or reg (2 ^ n) else bit_and reg (2 ^ 8 - 1 - 2 ^ n)

-- `a < 0` on `i16`, and `a.wrapping_neg()`, `a.wrapping_add(b)` and `a.wrapping_sub(b)` on 16 bits.
abbrev pub negative16 : ℕ → Bool
negative16 a = leb (2 ^ 15) a

abbrev pub neg16 : ℕ → ℕ
neg16 a = (2 ^ 16 - a) % 2 ^ 16

abbrev pub add16 : ℕ → ℕ → ℕ
add16 a b = (a + b) % 2 ^ 16

abbrev pub sub16 : ℕ → ℕ → ℕ
sub16 a b = (a + 2 ^ 16 - b) % 2 ^ 16

-- `a < b` on `i16`
abbrev pub signed_lt16 : ℕ → ℕ → Bool
signed_lt16 a b = ltb ((a + 2 ^ 15) % 2 ^ 16) ((b + 2 ^ 15) % 2 ^ 16)

-- `(ss ^ ts) < 0`: the signs differ.
abbrev pub signs_differ : ℕ → ℕ → Bool
signs_differ s t = if negative16 s then not (negative16 t) else negative16 t

pub vch_lane : Control → ℕ → ℕ → ℕ → Control × ℕ
vch_lane c n s t =
    let sum = add16 s t in
    let le = negative16 sum || (sum == 0) in
    let difference = sub16 s t in
    let ge = not (negative16 difference) in
    if signs_differ s t
    then (
      record {
        vcc = set_flag (set_flag c.vcc n le) (n + 8) (negative16 t);
        vco =
            set_flag (set_flag c.vco n true) (n + 8) (not (sum == 0) && not (s == 2 ^ 16 - 1 - t));
        vce = set_vce c.vce n (sum == 2 ^ 16 - 1);
      },
      if le then neg16 t else s,
    )
    else (
      record {
        vcc = set_flag (set_flag c.vcc n (negative16 t)) (n + 8) ge;
        vco = set_flag (set_flag c.vco n false) (n + 8) (not (difference == 0));
        vce = set_vce c.vce n false;
      },
      if ge then t else s,
    )

pub vcl_lane : Control → ℕ → ℕ → ℕ → Control × ℕ
vcl_lane c n s t =
    let sum = add16 s t in
    let carry = not (s + t == sum) in
    let le = if vce_bit c n then (sum == 0) || not carry else (sum == 0) && not carry in
    let ge = leb t s in
    if vco_l c n
    then (if vco_h c n
        then (c, if vcc_l c n then neg16 t else s)
        else (record c { vcc = set_flag c.vcc n le }, if le then neg16 t else s))
    else if vco_h c n
    then (c, if vcc_h c n then t else s)
    else (record c { vcc = set_flag c.vcc (n + 8) ge }, if ge then t else s)

pub vcr_lane : Control → ℕ → ℕ → ℕ → Control × ℕ
vcr_lane c n s t =
    let le = ltb ((s + 2 ^ 15) % 2 ^ 16 + (t + 2 ^ 15) % 2 ^ 16) (2 ^ 16) in
    let ge = not (signed_lt16 s t) in
    if signs_differ s t
    then (
      record c { vcc = set_flag (set_flag c.vcc (n + 8) (negative16 t)) n le },
      if le then 2 ^ 16 - 1 - t else s,
    )
    else (
      record c { vcc = set_flag (set_flag c.vcc n (negative16 t)) (n + 8) ge },
      if ge then t else s,
    )

pub clip_lane : ℕ → Control → ℕ → ℕ → ℕ → Control × ℕ
clip_lane op c n s t =
    if op == 0x25
    then vch_lane c n s t
    else if op == 0x26
    then vcr_lane c n s t
    else vcl_lane c n s t

-- The lanes below `n`, lowest first, with the operands as they were before the instruction.
pub clip_lanes : ℕ → (ℕ → ℕ) → (ℕ → ℕ) → ℕ → Vu → ℕ → Vu
clip_lanes op sv tv vd s zero = s
clip_lanes op sv tv vd s (suc n) =
    let before = clip_lanes op sv tv vd s n in
    let (ctrl, out) = clip_lane op before.vu_ctrl n (sv n) (tv n) in
    set_lane (set_acc (record before { vu_ctrl = ctrl }) n (with_acc_low (before.vu_acc n) out)) vd
      n out

pub clip : Vu → ℕ → ℕ → ℕ → ℕ → ℕ → Vu
clip s op element vs vt vd =
    let done = clip_lanes op (s.vu_regs (bit_and vs 31)) (vt_lane s vt element) vd s 8 in
    if op == 0x25 then done else record done { vu_ctrl = record done.vu_ctrl { vco = 0; vce = 0 } }
