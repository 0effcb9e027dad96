-- ===== src/Core/Scheduler/Tests.antt =====
-- Tests of the scheduler's model.
use rusty_n.Base.{ℕ, ◌+◌, ◌-◌, ◌*◌, ◌≡◌, arith, false}
use rusty_n.Core.Scheduler.{Machine, System, run_until, run_until_fast}
use rusty_n.Core.Scheduler.Ticks.{advance, run_until_ticks}
use rusty_n.Core.Scheduler.Fast.{run_until_fast_lem}

-- A machine that keeps a record of what ran, and when.
abbrev trace : Machine ℕ
trace = record {
  tick_at = λ count x. x * 1000 + count;
  step_rcp = λ tick x. x * 1000 + 500 + tick;
  boot_nmi_halt = λ x. false;
}

abbrev started : System ℕ
started = record { machine = 0; master_ticks = 4; phases = record { cpu = 1; rcp = 2 } }

run_until_fast_lem_example : run_until_fast trace started 30 ≡ run_until trace started 30
run_until_fast_lem_example = run_until_fast_lem trace started 30

run_until_ticks_example : run_until trace started 30 ≡ advance trace (30 - 4) started
run_until_ticks_example = run_until_ticks trace started 30 (omega arith)
