-- ===== src/Core/Vi/Period.antt =====
-- The length of a half-line: `total_halflines`, `field_hz` and `ticks_per_halfline` of
-- crates/rustyn64-core/src/vi.rs.
use rusty_n.Base.{ℕ, ◌*◌, ◌≤◌, ◌<◌, arith}
use rusty_n.Base.{bit_and, bit_and_low, get_or}
use rusty_n.Core.Vi.{Vi, total_halflines, field_hz, ticks_per_halfline, vi_min_ticks_per_halfline}
use rusty_n.Core.Vi.{vi_v_total, vi_max_halflines}
use native.Mathlib.Nat.{le-div_iff_mul-le, mul-le-mul}

low_ten : (a : ℕ) → bit_and a 0x3ff < 1024
low_ten a = omega (arith, bit_and_low 10 a)

pub total_halflines_pos : (vi : Vi) → 0 < total_halflines vi
unfolding total_halflines
total_halflines_pos vi = omega arith

pub total_halflines-le : (vi : Vi) → total_halflines vi ≤ vi_max_halflines
unfolding total_halflines
total_halflines-le vi = omega (arith, low_ten (get_or vi.regs vi_v_total 0))

product_pos : (a b : ℕ) → 0 < a → 0 < b → 0 < a * b
product_pos a b ha hb = mul-le-mul ha hb

field_hz-le : (vi : Vi) → field_hz vi ≤ 60
unfolding field_hz
field_hz-le vi = ground arith

field_hz_pos : (vi : Vi) → 0 < field_hz vi
unfolding field_hz
field_hz_pos vi = ground arith

-- Whatever the registers hold, a half-line is no shorter than the bound of the early return of `tick`.
pub ticks_per_halfline-ge : (vi : Vi) → vi_min_ticks_per_halfline ≤ ticks_per_halfline vi
unfolding ticks_per_halfline
ticks_per_halfline-ge vi =
    (le-div_iff_mul-le (
        product_pos (field_hz vi) (total_halflines vi) (field_hz_pos vi)
          (total_halflines_pos vi))).1
      (omega (arith, mul-le-mul (field_hz-le vi) (total_halflines-le vi)))
