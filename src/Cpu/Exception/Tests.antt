-- ===== src/Cpu/Exception/Tests.antt =====
-- Tests of the exceptions' model.
use rusty_n.Base.{
  ℕ, ◌-◌, ◌≡◌, refl, ap, arith, true, false, not, ◌&&◌, ◌==◌, ltb, leb, if◌then◌else◌, bit, any_set,
  add64,
}
use rusty_n.Cpu.Cop0.{read, reg_cause, reg_epc, reg_status}
use rusty_n.Cpu.Cop0.Tests.{quiet, handling, quiet_status, handling_status}
use rusty_n.Cpu.Exception.{Exception, dispatch, eret, exc_code_of, unit_of, exl, erl, base_of}
use rusty_n.Cpu.Exception.Cause.{dispatch-cause}
use rusty_n.Cpu.Exception.Return.{eret-dispatch, dispatch_nested, resume_at}

abbrev missed : Exception
missed = Exception.tlb_refill true false

dispatch-cause_example :
    bit 31 (read (dispatch quiet missed 0x8000_1000 true 0x1234).0 reg_cause) ≡ (
      if leb 2 31 && ltb 31 7
      then bit (31 - 2) (exc_code_of missed)
      else if leb 28 31 && ltb 31 30
      then bit (31 - 28) (unit_of missed)
      else if (31 == 31) && not (any_set (read quiet reg_status) exl)
      then (if true then 1 else 0)
      else bit 31 (read quiet reg_cause))
dispatch-cause_example = dispatch-cause quiet missed 0x8000_1000 true 0x1234 31 refl (omega arith)

eret-dispatch_example :
    (read (eret (dispatch quiet Exception.syscall 0x8000_1000 true 0).0).0 reg_status
      ≡ read quiet reg_status)
    × ((eret (dispatch quiet Exception.syscall 0x8000_1000 true 0).0).1
        ≡ resume_at 0x8000_1000 true)
eret-dispatch_example =
    eret-dispatch quiet Exception.syscall 0x8000_1000 true 0 refl
      (ap (λ (t : ℕ). any_set t exl) quiet_status) (ap (λ (t : ℕ). any_set t erl) quiet_status)
      (omega arith)

dispatch_nested_example :
    (read (dispatch handling missed 0x8000_1000 false 0x1234).0 reg_epc ≡ read handling reg_epc)
    × ((dispatch handling missed 0x8000_1000 false 0x1234).1.vector
        ≡ add64 (base_of (read handling reg_status)) 0x180)
dispatch_nested_example =
    dispatch_nested handling missed 0x8000_1000 false 0x1234 refl
      (ap (λ (t : ℕ). any_set t exl) handling_status)
