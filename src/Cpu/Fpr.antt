-- ===== src/Cpu/Fpr.antt =====
-- The floating-point register file: crates/rustyn64-cpu/src/fpr.rs. A flag says whether the status
-- register shows all 32 registers, or the 16 of even number with a half of each for odd ones.
pub mod Halves
mod Tests
use rusty_n.Base.{ℕ, ◌*◌, ◌/◌, ◌^◌, bit_and, bit_or, Bool, true, false, ◌&&◌, not, ◌==◌}
use rusty_n.Base.{if◌then◌else◌, any_set, shl, shr, u32, u64, not64}
use rusty_n.Cpu.Cop0.{update}

pub record Fpr : Type 0 where
  pub fgr : ℕ → ℕ

pub new : Fpr
new = record { fgr = λ n. 0 }

-- `(n & 31) as usize` and `i & !1`
abbrev pub index : ℕ → ℕ
index n = bit_and n 31

abbrev pub even : ℕ → ℕ
even i = bit_and i (not64 1)

-- The register that a whole access reaches.
abbrev pub seen : Bool → ℕ → ℕ
seen fr n = if fr then index n else even (index n)

abbrev pub is_high : Bool → ℕ → Bool
is_high fr n = not fr && (bit_and (index n) 1 == 1)

pub read_s : Fpr → ℕ → Bool → ℕ
read_s f n fr =
    let i = index n in
    if fr
    then u32 (f.fgr i)
    else if bit_and i 1 == 1
    then u32 (shr (f.fgr (even i)) 32)
    else u32 (f.fgr i)

pub write_s : Fpr → ℕ → Bool → ℕ → Fpr
write_s f n fr v =
    let e = seen fr n in
    let high = bit_or (bit_and (f.fgr e) 0xffff_ffff) (u64 (shl v 32)) in
    let low = bit_or (bit_and (f.fgr e) 0xffff_ffff_0000_0000) v in
    record f { fgr = update f.fgr e (if is_high fr n then high else low) }

-- The result of an instruction of single precision clears the other half.
pub write_s_arith : Fpr → ℕ → Bool → ℕ → Fpr
write_s_arith f n fr v = record f { fgr = update f.fgr (index n) v }

pub read_s_fs : Fpr → ℕ → Bool → ℕ
read_s_fs f n fr = u32 (f.fgr (seen fr n))

pub read_s_ft : Fpr → ℕ → Bool → ℕ
read_s_ft f n fr = u32 (f.fgr (index n))

pub read_d_fs : Fpr → ℕ → Bool → ℕ
read_d_fs f n fr = f.fgr (seen fr n)

pub read_d_ft : Fpr → ℕ → Bool → ℕ
read_d_ft f n fr = f.fgr (index n)

pub write_d_arith : Fpr → ℕ → Bool → ℕ → Fpr
write_d_arith f n fr v = record f { fgr = update f.fgr (index n) v }

pub read_d : Fpr → ℕ → Bool → ℕ
read_d f n fr = f.fgr (seen fr n)

pub write_d : Fpr → ℕ → Bool → ℕ → Fpr
write_d f n fr v = record f { fgr = update f.fgr (seen fr n) v }

pub read_raw : Fpr → ℕ → ℕ
read_raw f n = f.fgr (index n)

pub write_raw : Fpr → ℕ → ℕ → Fpr
write_raw f n v = record f { fgr = update f.fgr (index n) v }
