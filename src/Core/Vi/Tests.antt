-- ===== src/Core/Vi/Tests.antt =====
-- Tests of the video interface's model.
use rusty_n.Base.{◌≤◌, ◌<◌, ◌≡◌, ◌↔◌, refl, arith}
use rusty_n.Base.{true, ◌∷◌, replicate}
use rusty_n.Core.Vi
use rusty_n.Core.Vi.{total_halflines, field_hz, ticks_per_halfline, scan, advance, tick}
use rusty_n.Core.Vi.Period
use rusty_n.Core.Vi.Scan
use rusty_n.Core.Vi.Timeline

-- An NTSC field of 525 half-lines with the interrupt at half-line 2, switched on.
abbrev ntsc : Vi.Vi
ntsc = record {
  regs = 2 ∷ 0 ∷ 0 ∷ 2 ∷ 0 ∷ 0 ∷ 524 ∷ replicate 9 0;
  v_current = 0;
  acc = 0;
  prev_ticks = 0;
}

ntsc_in_field : ntsc.v_current < total_halflines ntsc
unfolding total_halflines
ntsc_in_field = omega arith

ticks_per_halfline-ge_example : 3051 ≤ ticks_per_halfline ntsc
ticks_per_halfline-ge_example = Period.ticks_per_halfline-ge ntsc

tick_fires_example :
    ((tick ntsc 12_000).1 ≡ true) ↔ Scan.Meets ntsc (Timeline.halflines_passed ntsc 12_000)
tick_fires_example = Timeline.tick_fires ntsc 12_000 (omega arith) ntsc_in_field

-- A little over two half-lines of 5952 ticks reach the programmed half-line.
tick_run : (tick ntsc 12_000).1 ≡ true
unfolding tick advance scan ticks_per_halfline total_halflines field_hz
tick_run = refl
