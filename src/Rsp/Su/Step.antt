-- ===== src/Rsp/Su/Step.antt =====
-- The instructions of the scalar unit: crates/rustyn64-rsp/src/su.rs.
pub mod Delay
use rusty_n.Base.{ℕ, zero, suc, ◌+◌, ◌-◌, ◌*◌, ◌/◌, ◌%◌, ◌^◌, bit_and, bit_or, bit_xor}
use rusty_n.Base.{Bool, true, false, Option, none, some, ◌&&◌, ◌||◌, not}
use rusty_n.Base.{◌==◌, ltb, leb, if◌then◌else◌, any_set, u8, u32, add32, sub32, not32, shl, shr}
use rusty_n.Rsp.Sp.{SpRegs, Dma, halted, set_pc, set_halted, set_broke, status_intbreak}
use rusty_n.Rsp.Sp as Sp
use rusty_n.Rsp.Su.{
  StepResult, no_result, Fields, decode, sext8, sext, Su, update, signed_lt, word_of,
  arithmetic_shr, low12, aligned, branch_target, next_pc, r, set_r, dmem_read, dmem_write,
  load_from, dmem_load, store_from, dmem_store, imem_word, addr_of, load, store,
}

module _ {V : Type 0} where
  pub cop0_read : Su V → ℕ → Su V × ℕ
  cop0_read s index =
      let (sp, v) = Sp.read s.sp index in
      if leb index 7
      then (record s { sp = sp }, v)
      else if leb index 15
      then (s, s.dp (index - 8))
      else (s, 0)

  pub cop0_write : Su V → ℕ → ℕ → Su V × StepResult
  cop0_write s index value =
      let (sp, dma) = Sp.write s.sp index value in
      if leb 8 index && leb index 15
      then (
        record s { dp = update s.dp (index - 8) value },
        record no_result { dp_write = some (index - 8, value) },
      )
      else if leb 16 index && leb index 31
      then (s, no_result)
      else (
        record s { sp = sp },
        record {
          dma = dma;
          interrupt_change = if index == 4 then Sp.interrupt_change value else none;
          dp_write = none;
        },
      )

  pub jump : Su V → ℕ → Su V
  jump s target = record s { branch = some target }

  pub branch_if : Su V → Bool → Fields → ℕ → Su V
  branch_if s taken d sequential = if taken then jump s (branch_target sequential d.imm) else s

  -- The instructions of opcode 0; the flag is set by BREAK.
  pub special : Su V → Fields → ℕ → Su V × Bool
  special s d sequential =
      let a = r s d.rs in
      let b = r s d.rt in
      let f = d.funct in
      let put : ℕ → Su V × Bool = λ v. (set_r s d.rd v, false) in
      if f == 0
      then put (u32 (shl b d.sa))
      else if f == 2
      then put (shr b d.sa)
      else if f == 3
      then put (arithmetic_shr b d.sa)
      else if f == 4
      then put (u32 (shl b (bit_and a 31)))
      else if f == 6
      then put (shr b (bit_and a 31))
      else if f == 7
      then put (arithmetic_shr b (bit_and a 31))
      else if f == 8
      then (jump s (aligned a), false)
      else if f == 9
      then (jump (set_r s d.rd (aligned (add32 sequential 4))) (aligned a), false)
      else if f == 13
      then (s, true)
      else if (f == 32) || (f == 33)
      then put (add32 a b)
      else if (f == 34) || (f == 35)
      then put (sub32 a b)
      else if f == 36
      then put (bit_and a b)
      else if f == 37
      then put (bit_or a b)
      else if f == 38
      then put (bit_xor a b)
      else if f == 39
      then put (not32 (bit_or a b))
      else if f == 42
      then put (word_of (signed_lt a b))
      else if f == 43
      then put (word_of (ltb a b))
      else (s, false)

  -- The branches of opcode 1 on the sign of a register.
  pub regimm : Su V → Fields → ℕ → Su V
  regimm s d sequential =
      let negative = leb (2 ^ 31) (r s d.rs) in
      let taken =
        if (d.rt == 0) || (d.rt == 16)
        then negative
        else if (d.rt == 1) || (d.rt == 17)
        then not negative
        else false in
      let linked = if any_set d.rt 16 then set_r s 31 (aligned (add32 sequential 4)) else s in
      branch_if linked taken d sequential

  -- The moves between the unit and the registers of the SP and the DP.
  pub cop0 : Su V → Fields → Su V × StepResult
  cop0 s d =
      let (read, v) = cop0_read s d.rd in
      if d.rs == 0
      then (set_r read d.rt v, no_result)
      else if d.rs == 4
      then cop0_write s d.rd (r s d.rt)
      else (s, no_result)

  -- The instructions with an opcode of their own that only change registers, memory and the branch.
  pub plain : (ℕ → Su V → Su V) → ℕ → Su V → Fields → ℕ → Su V
  plain vector word s d sequential =
      let a = r s d.rs in
      let b = r s d.rt in
      let op = d.op in
      let put = set_r s d.rt in
      let target = aligned (shl d.target 2) in
      if op == 1
      then regimm s d sequential
      else if op == 2
      then jump s target
      else if op == 3
      then jump (set_r s 31 (aligned (add32 sequential 4))) target
      else if op == 4
      then branch_if s (a == b) d sequential
      else if op == 5
      then branch_if s (not (a == b)) d sequential
      else if op == 6
      then branch_if s (leb (2 ^ 31) a || (a == 0)) d sequential
      else if op == 7
      then branch_if s (not (leb (2 ^ 31) a || (a == 0))) d sequential
      else if (op == 8) || (op == 9)
      then put (add32 a (sext d.imm))
      else if op == 10
      then put (word_of (signed_lt a (sext d.imm)))
      else if op == 11
      then put (word_of (ltb a (sext d.imm)))
      else if op == 12
      then put (bit_and a d.imm)
      else if op == 13
      then put (bit_or a d.imm)
      else if op == 14
      then put (bit_xor a d.imm)
      else if op == 15
      then put (u32 (shl d.imm 16))
      else if op == 32
      then put (sext8 (u8 (load s d 1)))
      else if op == 33
      then put (sext (load s d 2 % 2 ^ 16))
      else if (op == 35) || (op == 39)
      then put (load s d 4)
      else if op == 36
      then put (load s d 1)
      else if op == 37
      then put (load s d 2)
      else if op == 40
      then store s d 1
      else if op == 41
      then store s d 2
      else if op == 43
      then store s d 4
      else if (op == 18) || ((op == 50) || (op == 58))
      then vector word s
      else s

  -- One instruction, with its result and whether it is a BREAK.
  pub execute : (ℕ → Su V → Su V) → ℕ → Su V → ℕ → Su V × (StepResult × Bool)
  execute vector word s sequential =
      let d = decode word in
      let (special_state, halt) = special s d sequential in
      let (moved, out) = cop0 s d in
      if d.op == 0
      then (special_state, (no_result, halt))
      else if d.op == 16
      then (moved, (out, false))
      else (plain vector word s d sequential, (no_result, false))

  pub su_step : (ℕ → Su V → Su V) → Su V → Su V × StepResult
  su_step vector s =
      let pc = s.sp.pc in
      let sequential = aligned (add32 pc 4) in
      let (e, (out, halt)) =
        execute vector (imem_word s pc) (record s { branch = none }) sequential in
      let next = set_pc e.sp (next_pc s.branch sequential) in
      let stopped = set_broke (set_halted next true) true in
      let regs = update e.su_regs 0 0 in
      if halted s.sp
      then (s, no_result)
      else if halt
      then (
        record e { su_regs = regs; sp = stopped },
        record out {
          interrupt_change =
              if any_set stopped.status status_intbreak then some true else out.interrupt_change;
        },
      )
      else (record e { su_regs = regs; sp = next }, out)
