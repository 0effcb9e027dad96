-- ===== src/Rdp/Tests.antt =====
-- The command queue of the display processor on a concrete list of commands.
use rusty_n.Base.{ℕ, ◌+◌, refl, arith, List, ◌==◌, if◌then◌else◌}
use rusty_n.Rdp.{Rdp, is_running}
use rusty_n.Rdp.Drain

-- A rectangle, whose drawing turns the command after it into a pipe sync, and full syncs.
abbrev words : ℕ → ℕ → ℕ
words color address =
    if address == 0x1000
    then 0x3600_0000
    else if address == 0x1008
    then (if color == 0 then 0x2900_0000 else 0x2700_0000)
    else 0x2900_0000

-- The memory drawn into is one colour.
abbrev draw : ℕ → ℕ → ℕ → ℕ → ℕ → ℕ
draw opcode hi lo base color = color + hi

abbrev waiting : Rdp ℕ
waiting = record {
  cmd_start = 0x1000;
  cmd_end = 0x1018;
  cmd_current = 0x1000;
  status = 0;
  stall = 0;
  commands_processed = 0;
  rest = 0;
}

drain_example :
    (ops : List ℕ) × (stop : ℕ) × (last : ℕ) × Drain.Drained words draw waiting ops stop last
unfolding is_running
drain_example = Drain.drain words draw waiting refl refl (omega arith)
