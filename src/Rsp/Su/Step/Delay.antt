-- ===== src/Rsp/Su/Step/Delay.antt =====
-- The program counter and the branch delay slot: `su_step` of crates/rustyn64-rsp/src/su.rs.
use rusty_n.Base.{ℕ, ◌*◌, ◌/◌, ◌%◌, ◌^◌, ◌≡◌, refl, ap, ◌∙◌, sym, arith, bit_and}
use rusty_n.Base.{
  Bool, false, Option, none, some, if◌then◌else◌, add32, shl, if_keeps, Bool-cases, inl, inr,
  bit_and_field,
}
use rusty_n.Rsp.Sp.{halted, set_pc}
use rusty_n.Rsp.Sp.Status.{pc-set_pc, pc_stopped}
use rusty_n.Rsp.Su.{Su, StepResult, imem_word, next_pc, aligned, decode}
use rusty_n.Rsp.Su.Step.{su_step, execute, plain, jump}

aligned_lem : (x : ℕ) → bit_and x 0xffc ≡ x / 4 % 2 ^ 10 * 4
aligned_lem x = bit_and_field 2 10 x

aligned_twice : (x : ℕ) → aligned (aligned x) ≡ aligned x
aligned_twice x = omega (arith, aligned_lem x, aligned_lem (aligned x))

module _ {V : Type 0} (vector : ℕ → Su V → Su V) where
  abbrev sequential_of : Su V → ℕ
  sequential_of s = aligned (add32 s.sp.pc 4)

  -- The registers of the state that a step leaves.
  step_pc :
      (s : Su V)
      → ((su_step vector s).0.sp.pc
          ≡ (if halted s.sp then s.sp.pc else aligned (next_pc s.branch (sequential_of s))))
        × ((su_step vector s).0.su_regs 0 ≡ (if halted s.sp then s.su_regs 0 else 0))
  unfolding su_step
  step_pc s =
      let seq = sequential_of s in
      let e = execute vector (imem_word s s.sp.pc) (record s { branch = none }) seq in
      let next = set_pc e.0.sp (next_pc s.branch seq) in
      let at = pc-set_pc e.0.sp (next_pc s.branch seq) in
      elim (Bool-cases (halted s.sp)) [
        | inl h ↦ rw h (refl, refl)
        | inr h ↦ rw h (
            if_keeps
              (λ (x : Su V × StepResult).
                (x.0.sp.pc ≡ aligned (next_pc s.branch seq)) × (x.0.su_regs 0 ≡ 0))
              e.1.1 _ _ (pc_stopped next ∙ at, refl) (at, refl))
      ]

  -- A running unit moves its program counter to the target of the branch before the instruction, or
  -- to the next word, whatever the instruction is; a halted one stays. Either way register 0 stays 0
  -- and the program counter a word address.
  pub su_step_pc :
      (s : Su V)
      → s.sp.pc ≡ aligned s.sp.pc
      → s.su_regs 0 ≡ 0
      → ((su_step vector s).0.sp.pc ≡ (
          if halted s.sp then s.sp.pc else aligned (next_pc s.branch (aligned (add32 s.sp.pc 4)))))
        × ((su_step vector s).0.sp.pc ≡ aligned (su_step vector s).0.sp.pc)
        × ((su_step vector s).0.su_regs 0 ≡ 0)
  su_step_pc s al z =
      let h = step_pc s in
      let target = next_pc s.branch (sequential_of s) in
      (
        h.0,
        ap (λ (t : ℕ). t) h.0
            ∙ (if_keeps (λ (t : ℕ). t ≡ aligned t) (halted s.sp) s.sp.pc (aligned target) al
                  (sym (aligned_twice target))
                ∙ ap aligned (sym h.0)),
        h.1 ∙ if_keeps (λ (t : ℕ). t ≡ 0) (halted s.sp) (s.su_regs 0) 0 z refl,
      )

  running :
      (s : Su V)
      → halted s.sp ≡ false
      → (su_step vector s).0.sp.pc ≡ aligned (next_pc s.branch (sequential_of s))
  running s on =
      (step_pc s).0
      ∙ ap (λ (b : Bool). if b then s.sp.pc else aligned (next_pc s.branch (sequential_of s))) on

  jump_branch :
      (s : Su V)
      → halted s.sp ≡ false
      → (decode (imem_word s s.sp.pc)).op ≡ 2
      → (su_step vector s).0.branch ≡ some (aligned (shl (decode (imem_word s s.sp.pc)).target 2))
  unfolding su_step execute plain jump
  jump_branch s on j = rw (on, j) refl

  -- A jump takes effect after one more instruction, which comes from the next word.
  pub jump_delay :
      (s : Su V)
      → halted s.sp ≡ false
      → s.branch ≡ none
      → (decode (imem_word s s.sp.pc)).op ≡ 2
      → halted (su_step vector s).0.sp ≡ false
      → ((su_step vector s).0.sp.pc ≡ aligned (add32 s.sp.pc 4))
        × ((su_step vector (su_step vector s).0).0.sp.pc
            ≡ aligned (shl (decode (imem_word s s.sp.pc)).target 2))
  jump_delay s on quiet j on2 = (
    running s on
        ∙ (ap (λ (b : Option ℕ). aligned (next_pc b (sequential_of s))) quiet
            ∙ aligned_twice (add32 s.sp.pc 4)),
    running (su_step vector s).0 on2
        ∙ (ap (λ (b : Option ℕ). aligned (next_pc b (sequential_of (su_step vector s).0)))
              (jump_branch s on j)
            ∙ aligned_twice (shl (decode (imem_word s s.sp.pc)).target 2)),
  )
