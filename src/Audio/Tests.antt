-- ===== src/Audio/Tests.antt =====
-- Tests of the audio interface's model.
use rusty_n.Base.{ℕ, ◌+◌, ◌≤◌, ◌≡◌, refl, arith}
use rusty_n.Base.{true, List, [], ◌∷◌, ◌++◌}
use rusty_n.Audio.{Audio, new, period_ticks, recompute_rate}
use rusty_n.Audio.Queue.{
  Event, access, sample, run, interrupts, transfers, waiting, interrupts_balance,
}
use rusty_n.Audio.Schedule.{IsOnTime, tick-IsOnTime}
use rusty_n.Audio.Playback.{IsPlaying, emits, words, emits-words}

-- A memory that holds its addresses.
abbrev echo : ℕ → ℕ
echo addr = addr

-- Two transfers are queued and a third is refused; samples are taken in between.
abbrev refill : List Event
refill =
    access 2 1
    ∷ access 0 0x1ff8
    ∷ access 1 8
    ∷ access 0 0x4000
    ∷ access 1 16
    ∷ access 1 24
    ∷ sample
    ∷ sample
    ∷ sample
    ∷ []

interrupts_balance_example :
    ((run echo new refill).dma_count ≤ 2)
    × (interrupts echo new refill + waiting (run echo new refill)
        ≡ transfers echo new refill + waiting new)
unfolding new recompute_rate
interrupts_balance_example = interrupts_balance echo new refill (omega arith)

-- The first of two transfers, with one word left at the end of a page, and a sample scheduled.
abbrev at_page_end : Audio
at_page_end = record {
  dma_addr = (0x1ffc, 0x4000);
  dma_len = (4, 16);
  dma_count = 2;
  addr_carry = 0;
  dma_enable = true;
  dac_rate = 1103;
  bit_rate = 0;
  clock = 48_681_812;
  sample_rate = 44_095;
  next_sample_tick = 4252;
  last_tick = 0;
  dac_hold = record { left = 0; right = 0 };
  underruns = 0;
  sink = [];
}

at_page_end-IsPlaying : IsPlaying at_page_end
at_page_end-IsPlaying = record { queued = omega arith; enabled = refl; left_over = omega arith }

period_at_page_end : period_ticks at_page_end ≡ 4252
unfolding period_ticks
period_at_page_end = refl

tick-IsOnTime_example : IsOnTime echo at_page_end 10_000
tick-IsOnTime_example =
    tick-IsOnTime echo at_page_end 10_000 (omega (arith, period_at_page_end)) (omega arith)
      (omega (arith, period_at_page_end))

-- Three words across the end of a page.
abbrev across : Audio
across = record at_page_end { dma_addr = (0x1ff8, 0); dma_len = (12, 0); dma_count = 1 }

emits-words_example : (emits echo 3 across).sink ≡ [] ++ words echo 0x1ff8 3
emits-words_example =
    emits-words echo 3 across
      (record { queued = omega arith; enabled = refl; left_over = omega arith }) (omega arith)
      (omega arith) (omega arith)
