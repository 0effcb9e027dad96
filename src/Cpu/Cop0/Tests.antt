-- ===== src/Cpu/Cop0/Tests.antt =====
-- Tests of the control registers' model.
use rusty_n.Base.{ℕ, ◌≤◌, ◌<◌, ◌≡◌, ◌↔◌, refl, arith, true, false, ◌==◌, if◌then◌else◌, u32}
use rusty_n.Cpu.Cop0.{
  Cop0, read, is_unused, arch_mask, tick_random_by, timer_edge, reg_compare, reg_context,
  reg_status,
}
use rusty_n.Cpu.Cop0.Random.{ticks, tick_random_by-ticks}
use rusty_n.Cpu.Cop0.Timer.{WasSampledAt, count_at, timer_edge_iff}

-- Registers of zeros, at tick 10, the timer sampled at tick 4.
abbrev pub quiet : Cop0
quiet = record {
  regs = λ n. 0;
  now = 10;
  count_epoch_value = 0;
  count_epoch_tick = 0;
  last_count = 4;
  ec = 7;
  write_latch = 0;
}

-- The same inside a handler.
abbrev pub handling : Cop0
handling = record quiet { regs = λ n. if n == 12 then 2 else 0 }

pub quiet_status : read quiet reg_status ≡ 0
unfolding read is_unused arch_mask
quiet_status = refl

pub handling_status : read handling reg_status ≡ 2
unfolding read is_unused arch_mask
handling_status = refl

sampled_at_4 : WasSampledAt quiet 4
unfolding count_at
sampled_at_4 = record {
  epoch = omega arith;
  forward = omega arith;
  recent = omega arith;
  clock = omega arith;
  sampled = refl;
}

timer_edge_iff_example :
    ((timer_edge quiet).1 ≡ true)
    ↔ ((tick : ℕ) × (4 < tick) × (tick ≤ 10) × (count_at quiet tick ≡ u32 (quiet.regs reg_compare)))
timer_edge_iff_example = timer_edge_iff quiet 4 sampled_at_4

tick_random_by-ticks_example : tick_random_by quiet 40 ≡ ticks 40 quiet
tick_random_by-ticks_example = tick_random_by-ticks quiet 40 (omega arith)

context_used : is_unused reg_context ≡ false
unfolding is_unused
context_used = refl
