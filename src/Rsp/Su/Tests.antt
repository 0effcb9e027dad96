-- ===== src/Rsp/Su/Tests.antt =====
-- Tests of the scalar unit's model.
use rusty_n.Base.{ℕ, ◌%◌, ◌≡◌, refl, some, add32, if◌then◌else◌}
use rusty_n.Rsp.Sp
use rusty_n.Rsp.Su.{Su, next_pc, aligned}
use rusty_n.Rsp.Su.Step.{su_step}
use rusty_n.Rsp.Su.Step.Delay.{su_step_pc}

-- A running unit at address 16, behind a branch to 0x40, without vector instructions.
abbrev running : Su ℕ
running = record {
  su_regs = λ n. 0;
  dmem = λ n. n % 256;
  imem = λ n. 0;
  sp = record Sp.new { status = 0; pc = 16 };
  dp = λ n. 0;
  branch = some 0x40;
  vu = 0;
}

su_step_pc_example :
    ((su_step (λ w s. s) running).0.sp.pc
      ≡ (if Sp.halted running.sp then 16 else aligned (next_pc (some 0x40) (aligned (add32 16 4)))))
    × ((su_step (λ w s. s) running).0.sp.pc ≡ aligned (su_step (λ w s. s) running).0.sp.pc)
    × ((su_step (λ w s. s) running).0.su_regs 0 ≡ 0)
su_step_pc_example = su_step_pc (λ w s. s) running refl refl
