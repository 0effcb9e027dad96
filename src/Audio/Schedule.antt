-- ===== src/Audio/Schedule.antt =====
-- How many samples a step takes: `tick` of crates/rustyn64-audio/src/lib.rs.
use rusty_n.Base.{
  ℕ, ◌+◌, ◌-◌, ◌*◌, ◌/◌, ◌^◌, ◌≤◌, ◌<◌, ◌≡◌, ◌⊎◌, inl, inr, refl, ap, subst, ◌∙◌, sym, arith,
}
use rusty_n.Base.{none, some, leb, if◌then◌else◌, length}
use rusty_n.Audio.{Audio, period_ticks, tick, tick_with_bus, tick_without_bus, finish}
use rusty_n.Audio.Clock.{samples_due}
use native.Mathlib.Nat.{mul-suc, mul-zero, mul-div-le, lt-mul-div-succ}

-- The samples that are due at a time, given the tick of the first.
pub due : ℕ → ℕ → ℕ → ℕ
due next now period = if leb next now then (now - next) / period + 1 else 0

due_before : (next now period : ℕ) → now < next → due next now period ≡ 0
unfolding due
due_before next now period h = ground arith

due_at : (next now period : ℕ) → next ≤ now → due next now period ≡ (now - next) / period + 1
unfolding due
due_at next now period h = ground arith

ahead :
    (ai : Audio) (now : ℕ)
    → now < ai.next_sample_tick
    → tick_without_bus ai now ≡ (record ai { last_tick = now }, none)
unfolding tick_without_bus
ahead ai now h = ground arith

period_stamped :
    (ai : Audio) (now : ℕ) → period_ticks (record ai { last_tick = now }) ≡ period_ticks ai
unfolding period_ticks
period_stamped ai now = refl

behind :
    (ai : Audio) (now : ℕ)
    → 0 < period_ticks ai
    → 0 < ai.next_sample_tick
    → ai.next_sample_tick ≤ now
    → tick_without_bus ai now
      ≡ (record ai { last_tick = now }, some (record { period = period_ticks ai; now = now }))
unfolding tick_without_bus
behind ai now p s h = ground (arith, period_stamped ai now)

-- After the step the schedule has moved by the samples due, each of them is in the stream, and the
-- next one lies ahead.
abbrev pub IsOnTime : (ℕ → ℕ) → Audio → ℕ → Type 0
IsOnTime read ai now =
    let n = due ai.next_sample_tick now (period_ticks ai) in
    ((tick read ai now).0.next_sample_tick ≡ ai.next_sample_tick + period_ticks ai * n)
    × (length (tick read ai now).0.sink ≡ length ai.sink + n)
    × (now < (tick read ai now).0.next_sample_tick)

ahead-IsOnTime :
    (read : ℕ → ℕ) (ai : Audio) (now : ℕ) → now < ai.next_sample_tick → IsOnTime read ai now
unfolding tick finish
ahead-IsOnTime read ai now h =
    let none_due = due_before ai.next_sample_tick now (period_ticks ai) h in
    let step = ap (finish read) (ahead ai now h) in
    (
      ap (λ (t : Audio × ℕ). t.0.next_sample_tick) step
          ∙ (omega (arith, mul-zero (period_ticks ai))
              ∙ ap (λ (t : ℕ). ai.next_sample_tick + period_ticks ai * t) (sym none_due)),
      ap (λ (t : Audio × ℕ). length t.0.sink) step ∙ omega (arith, none_due),
      subst (λ (t : Audio × ℕ). now < t.0.next_sample_tick) (sym step) h,
    )

behind-IsOnTime :
    (read : ℕ → ℕ) (ai : Audio) (now : ℕ)
    → 0 < period_ticks ai
    → 0 < ai.next_sample_tick
    → now + period_ticks ai < 2 ^ 64
    → ai.next_sample_tick ≤ now
    → IsOnTime read ai now
unfolding tick finish tick_with_bus
behind-IsOnTime read ai now p s bound h =
    let n = (now - ai.next_sample_tick) / period_ticks ai in
    let all_due = due_at ai.next_sample_tick now (period_ticks ai) h in
    let step = ap (finish read) (behind ai now p s h) in
    let result =
      samples_due read (n + 1) (record { period = period_ticks ai; now = now })
        (record ai { last_tick = now }) 0 p
        (omega (
          arith,
          mul-suc (period_ticks ai) n,
          mul-div-le (now - ai.next_sample_tick) (period_ticks ai),
        ))
        bound in
    (
      ap (λ (t : Audio × ℕ). t.0.next_sample_tick) step
          ∙ (result.0 ∙ ap (λ (t : ℕ). ai.next_sample_tick + period_ticks ai * t) (sym all_due)),
      ap (λ (t : Audio × ℕ). length t.0.sink) step ∙ (result.1 ∙ omega (arith, all_due)),
      subst (λ (t : Audio × ℕ). now < t.0.next_sample_tick) (sym step)
          (omega (arith, result.0, lt-mul-div-succ (now - ai.next_sample_tick) p)),
    )

-- With a running converter whose next sample is scheduled, at a time whose successor by a period is
-- below 2^64, a step emits one sample for every period from the scheduled tick up to that time, moves the
-- schedule by as many periods, and leaves the next sample ahead of the time.
pub tick-IsOnTime :
    (read : ℕ → ℕ) (ai : Audio) (now : ℕ)
    → 0 < period_ticks ai
    → 0 < ai.next_sample_tick
    → now + period_ticks ai < 2 ^ 64
    → IsOnTime read ai now
tick-IsOnTime read ai now p s bound = elim (cases ai.next_sample_tick) [
  | inl h ↦ ahead-IsOnTime read ai now h
  | inr h ↦ behind-IsOnTime read ai now p s bound h
]
  where
    cases : (next : ℕ) → (now < next) ⊎ (next ≤ now)
    cases next = omega arith
