-- ===== src/Rsp/Vu/Cop2.antt =====
-- The vector instructions among the scalar unit's: cop2 and vector_memory of
-- crates/rustyn64-rsp/src/su.rs, which fill the parameter of its step.
use rusty_n.Base.{ℕ, ◌/◌, bit_and, ◌==◌, if◌then◌else◌, any_set}
use rusty_n.Rsp.Su.{Fields, StepResult, decode, r}
use rusty_n.Rsp.Su.Step.{su_step}
use rusty_n.Rsp.Vu.{Rsp, mfc2, mtc2, cfc2, ctc2}
use rusty_n.Rsp.Vu.Compute.{vu_compute}
use rusty_n.Rsp.Vu.Divide.{vu_single_lane}
use rusty_n.Rsp.Vu.Transfer.{vector_mem}

pub vector_memory : Rsp → Fields → Rsp
vector_memory s d =
    (vector_mem (d.op == 0x3a) d.rd d.rs d.rt (bit_and (d.sa / 2) 0xf) (bit_and d.imm 0x7f) s).0

pub cop2 : Rsp → Fields → Rsp
cop2 s d =
    let element = bit_and d.rs 0xf in
    let (single, done) = vu_single_lane s.vu d.funct element d.rt d.rd d.sa in
    let (computed, known) = vu_compute s.vu d.funct element d.rd d.rt d.sa in
    let elem = bit_and (d.sa / 2) 0xf in
    if any_set d.rs 0x10
    then record s { vu = if done then single else computed }
    else if d.rs == 0
    then (mfc2 s d.rt d.rd elem).0
    else if d.rs == 2
    then (cfc2 s d.rt d.rd).0
    else if d.rs == 4
    then record s { vu = mtc2 s.vu (r s d.rt) d.rd elem }
    else if d.rs == 6
    then record s { vu = ctc2 s.vu (r s d.rt) d.rd }
    else s

-- The parameter of the scalar unit, and a step of the whole processor.
pub vector : ℕ → Rsp → Rsp
vector word s = let d = decode word in if d.op == 0x12 then cop2 s d else vector_memory s d

pub step : Rsp → Rsp × StepResult
step s = su_step vector s
