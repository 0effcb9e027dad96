-- ===== src/Audio/Clock.antt =====
-- The sample clock: `recompute_rate`, `period_ticks` and `tick` of crates/rustyn64-audio/src/lib.rs.
use rusty_n.Base.{ℕ, zero, suc, ◌+◌, ◌*◌, ◌/◌, ◌^◌, ◌≤◌, ◌<◌, ◌≡◌, refl, ap, ap₂, ◌∙◌, sym, arith}
use rusty_n.Base.{
  Bool, true, false, List, [], ◌∷◌, ◌++◌, ◌&&◌, ltb, ◌==◌, if◌then◌else◌, length, bit_and,
  bit_and_low, if_keeps,
}
use rusty_n.Audio.{
  Audio, StereoSample, Region, ntsc, pal, video_clock, write_reg, write_length, enqueue,
  emit_sample, retire, play, idle, recompute_rate, period_ticks, set_region, new, saturating_add,
  samples, NeedsBus, count_raise, default_dac_hz,
}
use rusty_n.Audio.Queue.{Event, access, sample, step, run}
use native.Mathlib.Nat.{le-div_iff_mul-le, mul-suc, mul-zero}

-- The sample rate that a clock and a register value give.
abbrev pub rate_of : ℕ → ℕ → ℕ
rate_of clock rate =
    if clock == 0 then 0 else if rate == 0 then default_dac_hz else clock / (rate + 1)

-- A converter whose clock is a region's, and whose sample rate is derived from its registers.
pub record IsRunning (ai : Audio) : Type 0 where
  pub clocked : 48_681_812 ≤ ai.clock
  pub rate : ai.dac_rate < 2 ^ 14
  pub derived : ai.sample_rate ≡ rate_of ai.clock ai.dac_rate

rate_pos : (clock rate : ℕ) → 48_681_812 ≤ clock → rate < 2 ^ 14 → 0 < rate_of clock rate
rate_pos clock rate h k = ground (arith, quotient)
  where
    quotient : 1 ≤ clock / (rate + 1)
    quotient = (le-div_iff_mul-le (omega arith)).1 (omega arith)

pub IsRunning-period : (ai : Audio) → IsRunning ai → 0 < period_ticks ai
unfolding period_ticks
IsRunning-period ai h = ground (arith, rate_pos ai.clock ai.dac_rate h.clocked h.rate, h.derived)

rate_low : (a : ℕ) → bit_and a 0x3fff < 2 ^ 14
rate_low a = omega (arith, bit_and_low 14 a)

write_reg_rates :
    (ai : Audio) (index val : ℕ)
    → ((write_reg ai index val).0.clock ≡ ai.clock)
      × ((write_reg ai index val).0.dac_rate
          ≡ (if index == 4 then bit_and val 0x3fff else ai.dac_rate))
      × ((write_reg ai index val).0.sample_rate
          ≡ (if index == 4 then rate_of ai.clock (bit_and val 0x3fff) else ai.sample_rate))
unfolding write_reg write_length enqueue recompute_rate
write_reg_rates ai index val = (ground arith, ground arith, ground arith)

write_reg-IsRunning :
    (ai : Audio) (index val : ℕ) → IsRunning ai → IsRunning (write_reg ai index val).0
write_reg-IsRunning ai index val h =
    let rates = write_reg_rates ai index val in
    record {
      clocked = omega (arith, h.clocked, rates.0);
      rate = ground (arith, h.rate, rates.1, rate_low val);
      derived = rates.2 ∙ (if_rate (index == 4) ∙ sym (ap₂ rate_of rates.0 rates.1));
    }
  where
    if_rate :
        (b : Bool)
        → (if b then rate_of ai.clock (bit_and val 0x3fff) else ai.sample_rate)
          ≡ rate_of ai.clock (if b then bit_and val 0x3fff else ai.dac_rate)
    if_rate true = refl
    if_rate false = h.derived

emit_sample_rates :
    (read : ℕ → ℕ) (ai : Audio)
    → ((emit_sample read ai).0.clock ≡ ai.clock)
      × ((emit_sample read ai).0.dac_rate ≡ ai.dac_rate)
      × ((emit_sample read ai).0.sample_rate ≡ ai.sample_rate)
unfolding emit_sample retire play idle
emit_sample_rates read ai = (ground arith, ground arith, ground arith)

emit_sample-IsRunning :
    (read : ℕ → ℕ) (ai : Audio) → IsRunning ai → IsRunning (emit_sample read ai).0
emit_sample-IsRunning read ai h =
    let rates = emit_sample_rates read ai in
    record {
      clocked = omega (arith, h.clocked, rates.0);
      rate = omega (arith, h.rate, rates.1);
      derived = rates.2 ∙ (h.derived ∙ sym (ap₂ rate_of rates.0 rates.1));
    }

pub set_region-IsRunning :
    (ai : Audio) (region : Region) → IsRunning ai → IsRunning (set_region ai region)
unfolding set_region recompute_rate video_clock
set_region-IsRunning ai ntsc h = record { clocked = omega arith; rate = h.rate; derived = refl }
set_region-IsRunning ai pal h = record { clocked = omega arith; rate = h.rate; derived = refl }

pub new-IsRunning : IsRunning new
unfolding new recompute_rate
new-IsRunning = record { clocked = omega arith; rate = omega arith; derived = refl }

run-IsRunning :
    (read : ℕ → ℕ) (ai : Audio) (es : List Event) → IsRunning ai → IsRunning (run read ai es)
unfolding run step
run-IsRunning read ai [] h = h
run-IsRunning read ai (access index val ∷ es) h =
    run-IsRunning read (write_reg ai index val).0 es (write_reg-IsRunning ai index val h)
run-IsRunning read ai (sample ∷ es) h =
    run-IsRunning read (emit_sample read ai).0 es (emit_sample-IsRunning read ai h)

-- From power-on in either region, after any register writes and samples, the sample period is not
-- zero: the converter never stops.
period-run :
    (read : ℕ → ℕ) (region : Region) (es : List Event)
    → 0 < period_ticks (run read (set_region new region) es)
period-run read region es =
    IsRunning-period (run read (set_region new region) es) (
      run-IsRunning read (set_region new region) es (set_region-IsRunning new region new-IsRunning))

pub round :
    (read : ℕ → ℕ) (fuel : ℕ) (proof : NeedsBus) (ai : Audio) (raises : ℕ)
    → ai.next_sample_tick ≤ proof.now
    → samples read (suc fuel) proof ai raises
      ≡ samples read fuel proof
          (record (emit_sample read ai).0 {
            next_sample_tick = saturating_add (emit_sample read ai).0.next_sample_tick proof.period;
          })
          (count_raise raises (emit_sample read ai).1)
unfolding samples
round read fuel proof ai raises h = ground arith

length-snoc : (xs : List StereoSample) (x : StereoSample) → length (xs ++ x ∷ []) ≡ length xs + 1
length-snoc [] x = refl
length-snoc (y ∷ ys) x = ap suc (length-snoc ys x) ∙ omega arith

retire_schedule :
    (ai : Audio)
    → ((retire ai).0.next_sample_tick ≡ ai.next_sample_tick) × ((retire ai).0.sink ≡ ai.sink)
unfolding retire
retire_schedule ai = (ground arith, ground arith)

emit_sample_schedule :
    (read : ℕ → ℕ) (ai : Audio)
    → ((emit_sample read ai).0.next_sample_tick ≡ ai.next_sample_tick)
      × (length (emit_sample read ai).0.sink ≡ length ai.sink + 1)
unfolding emit_sample play idle
emit_sample_schedule read ai =
    let playing = ltb 0 ai.dma_count && (ltb 0 ai.dma_len.0 && ai.dma_enable) in
    let next = if playing then play read ai else idle ai in
    let kept = retire_schedule next in
    (
      kept.0
          ∙ if_keeps (λ (a : Audio). a.next_sample_tick ≡ ai.next_sample_tick) playing
              (play read ai) (idle ai) refl refl,
      ap length kept.1
          ∙ if_keeps (λ (a : Audio). length a.sink ≡ length ai.sink + 1) playing (play read ai)
              (idle ai) (length-snoc ai.sink (play read ai).dac_hold)
              (length-snoc ai.sink (idle ai).dac_hold),
    )

pub samples_due :
    (read : ℕ → ℕ) (fuel : ℕ) (proof : NeedsBus) (ai : Audio) (raises : ℕ)
    → 0 < proof.period
    → ai.next_sample_tick + proof.period * fuel ≤ proof.now + proof.period
    → proof.now + proof.period < 2 ^ 64
    → ((samples read fuel proof ai raises).0.next_sample_tick
        ≡ ai.next_sample_tick + proof.period * fuel)
      × (length (samples read fuel proof ai raises).0.sink ≡ length ai.sink + fuel)
unfolding samples
samples_due read zero proof ai raises p h bound =
    (omega (arith, mul-zero proof.period), omega arith)
samples_due read (suc fuel) proof ai raises p h bound =
    let emitted = emit_sample_schedule read ai in
    let start = record (emit_sample read ai).0 {
      next_sample_tick = saturating_add (emit_sample read ai).0.next_sample_tick proof.period;
    } in
    let opened = round read fuel proof ai raises (omega (arith, mul-suc proof.period fuel)) in
    let rest =
      samples_due read fuel proof start (count_raise raises (emit_sample read ai).1) p
        (omega (arith, emitted.0, mul-suc proof.period fuel)) bound in
    (
      ap (λ (t : Audio × ℕ). t.0.next_sample_tick) opened
          ∙ (rest.0 ∙ omega (arith, emitted.0, mul-suc proof.period fuel)),
      ap (λ (t : Audio × ℕ). length t.0.sink) opened ∙ (rest.1 ∙ omega (arith, emitted.1)),
    )
