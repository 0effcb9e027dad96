-- ===== src/Core/Scheduler.antt =====
-- The scheduler: `System` of crates/rustyn64-core/src/scheduler.rs. What a processor cycle and an RCP
-- cycle do to the machine is a parameter: a processor cycle depends on the count register's ticks, an
-- RCP cycle on the master clock. Clock values stand for those that fit in 64 bits with a period to
-- spare.
pub mod Ticks
pub mod Fast
mod Tests
use rusty_n.Base.{ℕ, zero, suc, ◌+◌, ◌-◌, ◌*◌, ◌/◌, ◌%◌, Bool, true, false, not, ◌&&◌, ◌||◌}
use rusty_n.Base.{List, [], ◌∷◌, ◌==◌, ltb, leb, if◌then◌else◌}

abbrev pub cpu_divider : ℕ
cpu_divider = 2

abbrev pub rcp_divider : ℕ
rcp_divider = 3

-- The least common multiple of the two dividers.
abbrev pub edge_period : ℕ
edge_period = 6

abbrev pub count_divider : ℕ
count_divider = 4

pub record Phases : Type 0 where
  pub cpu : ℕ
  pub rcp : ℕ

pub record System (M : Type 0) : Type 0 where
  pub machine : M
  pub master_ticks : ℕ
  pub phases : Phases

pub is_edge : ℕ → ℕ → ℕ → Bool
is_edge tick phase divider = (tick + phase) % divider == 0

pub next_edge_after : ℕ → ℕ → ℕ → ℕ
next_edge_after tick phase divider =
    let next = tick + 1 in
    let rem = (next + phase) % divider in if rem == 0 then next else next + (divider - rem)

module _ {M : Type 0} where
  pub cpu_cycles : System M → ℕ
  cpu_cycles s = (s.master_ticks + s.phases.cpu) / cpu_divider

  pub rcp_cycles : System M → ℕ
  rcp_cycles s = (s.master_ticks + s.phases.rcp) / rcp_divider

  pub count_ticks : System M → ℕ
  count_ticks s = (s.master_ticks + s.phases.cpu) / count_divider

  pub next_edge : System M → ℕ
  next_edge s =
      let next_cpu = next_edge_after s.master_ticks s.phases.cpu cpu_divider in
      let next_rcp = next_edge_after s.master_ticks s.phases.rcp rcp_divider in
      if ltb next_cpu next_rcp then next_cpu else next_rcp

  -- `self.master_ticks = tick`
  abbrev pub at : System M → ℕ → System M
  at s tick = record s { master_ticks = tick }

-- What the scheduler drives: a cycle of the processor at a count, a cycle of the RCP at a tick, and
-- whether the boot code halted the processor.
pub record Machine (M : Type 0) : Type 0 where
  pub tick_at : ℕ → M → M
  pub step_rcp : ℕ → M → M
  pub boot_nmi_halt : M → Bool

-- The edges of the ticks behind tick `i` after `start`, `n` of them.
pub pattern_from : ℕ → Phases → ℕ → ℕ → List (Bool × Bool)
pattern_from start p i zero = []
pattern_from start p i (suc n) =
    (is_edge (start + i + 1) p.cpu cpu_divider, is_edge (start + i + 1) p.rcp rcp_divider)
    ∷ pattern_from start p (i + 1) n

module _ {M : Type 0} (m : Machine M) where
  pub step_domains : System M → Bool → Bool → System M
  step_domains s cpu rcp =
      let a =
        if cpu && not (m.boot_nmi_halt s.machine)
        then record s { machine = m.tick_at (count_ticks s) s.machine }
        else s in
      if rcp then record a { machine = m.step_rcp a.master_ticks a.machine } else a

  pub step_due_here : System M → System M
  step_due_here s =
      step_domains s (is_edge s.master_ticks s.phases.cpu cpu_divider)
        (is_edge s.master_ticks s.phases.rcp rcp_divider)

  pub step_to_next_edge : System M → System M
  step_to_next_edge s = step_due_here (at s (next_edge s))

  -- The loop over the edges up to `target`, `fuel` rounds at most.
  pub edges : ℕ → System M → ℕ → System M
  edges zero s target = s
  edges (suc fuel) s target =
      let rest = edges fuel (step_to_next_edge s) target in
      if leb (next_edge s) target then rest else s

  -- Each round moves the clock on, so as many rounds as ticks are enough.
  pub run_until : System M → ℕ → System M
  run_until s target =
      let t = edges (target - s.master_ticks) s target in
      if ltb t.master_ticks target then at t target else t

  pub slot : System M → ℕ → ℕ → Bool × Bool → System M
  slot s base i (cpu, rcp) = if cpu || rcp then step_domains (at s (base + i + 1)) cpu rcp else s

  -- One period replayed from the pattern.
  pub replay : System M → ℕ → ℕ → List (Bool × Bool) → System M
  replay s base i [] = s
  replay s base i (p ∷ ps) = replay (slot s base i p) base (i + 1) ps

  -- The whole periods from `base` up to `target`, `fuel` of them at most.
  pub blocks : ℕ → System M → ℕ → ℕ → List (Bool × Bool) → System M
  blocks zero s base target pattern = s
  blocks (suc fuel) s base target pattern =
      let rest = blocks fuel (replay s base 0 pattern) (base + edge_period) target pattern in
      if leb (base + edge_period) target then rest else s

  pub run_until_fast : System M → ℕ → System M
  run_until_fast s target =
      let pattern = pattern_from s.master_ticks s.phases 0 edge_period in
      let t = blocks (target - s.master_ticks) s s.master_ticks target pattern in
      if leb target s.master_ticks then s else run_until t target
