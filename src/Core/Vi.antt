-- ===== src/Core/Vi.antt =====
-- The video interface's registers and scan position: crates/rustyn64-core/src/vi.rs.
pub mod Period
pub mod Scan
pub mod Timeline
mod Tests
use rusty_n.Base.{ℕ, zero, suc, ◌+◌, ◌-◌, ◌*◌, ◌/◌, ◌%◌, ◌^◌, bit_and}
use rusty_n.Base.{Bool, true, false, List, [], ◌∷◌, ◌&&◌, ◌||◌, not}
use rusty_n.Base.{ltb, leb, ◌==◌, if◌then◌else◌, u32, u64, get_or, set, replicate}

abbrev pub master_hz : ℕ
master_hz = 187_500_000

abbrev pub vi_ctrl : ℕ
vi_ctrl = 0

abbrev pub vi_v_intr : ℕ
vi_v_intr = 3

abbrev pub vi_v_current : ℕ
vi_v_current = 4

abbrev pub vi_v_total : ℕ
vi_v_total = 6

abbrev pub vi_reg_count : ℕ
vi_reg_count = 16

abbrev pub vi_field_hz : ℕ
vi_field_hz = 60

abbrev pub vi_field_hz_pal : ℕ
vi_field_hz_pal = 50

abbrev pub vi_max_halflines : ℕ
vi_max_halflines = 1024

abbrev pub vi_min_ticks_per_halfline : ℕ
vi_min_ticks_per_halfline = master_hz / (vi_field_hz * vi_max_halflines)

abbrev pub vi_pal_v_total_threshold : ℕ
vi_pal_v_total_threshold = 550

pub record Vi : Type 0 where
  pub regs : List ℕ
  pub v_current : ℕ
  pub acc : ℕ
  pub prev_ticks : ℕ

pub new : Vi
new = record { regs = replicate vi_reg_count 0; v_current = 0; acc = 0; prev_ticks = 0 }

pub reset_scan : Vi → Vi
reset_scan vi = record vi { v_current = 0; acc = 0; prev_ticks = 0 }

pub total_halflines : Vi → ℕ
total_halflines vi = bit_and (get_or vi.regs vi_v_total 0) 0x3ff + 1

pub field_hz : Vi → ℕ
field_hz vi =
    if ltb vi_pal_v_total_threshold (bit_and (get_or vi.regs vi_v_total 0) 0x3ff)
    then vi_field_hz_pal
    else vi_field_hz

pub ticks_per_halfline : Vi → ℕ
ticks_per_halfline vi = master_hz / (field_hz vi * total_halflines vi)

-- The half-line after `v` in a field of `halflines`.
abbrev pub next_line : ℕ → ℕ → ℕ
next_line halflines v = u32 (v + 1) % halflines

-- The half-line of the interrupt, and whether the interface is on.
abbrev pub v_intr : Vi → ℕ
v_intr vi = bit_and (get_or vi.regs vi_v_intr 0) 0x3ff

abbrev pub on : Vi → Bool
on vi = not (bit_and (get_or vi.regs vi_ctrl 0) 3 == 0)

-- The loop of `tick`, on fuel: the position, the remainder, and whether the interrupt fired.
pub scan : ℕ → ℕ → Vi → Bool → Vi × Bool
scan zero per vi fired = (vi, fired)
scan (suc fuel) per vi fired =
    let next = next_line (total_halflines vi) vi.v_current in
    let rest =
      scan fuel per (record vi { acc = vi.acc - per; v_current = next })
        (fired || (on vi && next == v_intr vi)) in
    if leb per vi.acc then rest else (vi, fired)

-- The part of `tick` past the early return. Each round takes a period off, so a quotient is enough fuel.
pub advance : Vi → ℕ → Vi × Bool
advance vi acc =
    let per = ticks_per_halfline vi in
    if per == 0 then (vi, false) else scan (acc / per) per (record vi { acc = acc }) false

pub tick : Vi → ℕ → Vi × Bool
tick vi master_ticks =
    let now = record vi { prev_ticks = master_ticks } in
    let acc = u64 (vi.acc + (master_ticks - vi.prev_ticks)) in
    if ltb acc vi_min_ticks_per_halfline then (record now { acc = acc }, false) else advance now acc

pub read : Vi → ℕ → ℕ
read vi word_offset =
    let idx = bit_and word_offset 0xf in
    if idx == vi_v_current then vi.v_current else get_or vi.regs idx 0

-- The second part of the result acknowledges the interrupt.
unfoldable pub write : Vi → ℕ → ℕ → Vi × Bool
write vi word_offset value =
    let idx = bit_and word_offset 0xf in
    if idx == vi_v_current then (vi, true) else (record vi { regs = set vi.regs idx value }, false)
