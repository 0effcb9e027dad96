-- ===== src/Audio.antt =====
-- The audio interface: crates/rustyn64-audio/src/lib.rs.
pub mod Queue
pub mod Clock
pub mod Schedule
pub mod Playback
mod Tests
use rusty_n.Base.{ℕ, zero, suc, ◌+◌, ◌-◌, ◌*◌, ◌/◌, ◌%◌, ◌^◌, min, max, bit_and, bit_or}
use rusty_n.Base.{Bool, true, false, Option, none, some, List, [], ◌∷◌, ◌++◌, ◌&&◌, not}
use rusty_n.Base.{ltb, leb, ◌==◌, if◌then◌else◌, u32, u64, add32, sub32, not32, shl, shr}

abbrev pub master_hz : ℕ
master_hz = 187_500_000

abbrev pub video_clock_ntsc : ℕ
video_clock_ntsc = 48_681_812

abbrev pub video_clock_pal : ℕ
video_clock_pal = 49_656_530

pub data Region : Type 0 where
  ntsc pal : Region

pub video_clock : Region → ℕ
video_clock ntsc = video_clock_ntsc
video_clock pal = video_clock_pal

abbrev one_of : List ℕ → ℕ → Bool
one_of [] code = false
one_of (c ∷ cs) code = if code == c then true else one_of cs code

-- The ASCII codes of D F H I L P S U W X Y Z.
abbrev pub pal_codes : List ℕ
pal_codes = 0x44 ∷ 0x46 ∷ 0x48 ∷ 0x49 ∷ 0x4c ∷ 0x50 ∷ 0x53 ∷ 0x55 ∷ 0x57 ∷ 0x58 ∷ 0x59 ∷ 0x5a ∷ []

pub from_destination_code : ℕ → Region
from_destination_code code = if one_of pal_codes code then pal else ntsc

-- A frame: the two channels are 16-bit words in two's complement.
pub record StereoSample : Type 0 where
  pub left : ℕ
  pub right : ℕ

pub data AiIrq : Type 0 where
  no_irq raise lower : AiIrq

pub record Audio : Type 0 where
  pub dma_addr : ℕ × ℕ
  pub dma_len : ℕ × ℕ
  pub dma_count : ℕ
  pub addr_carry : ℕ
  pub dma_enable : Bool
  pub dac_rate : ℕ
  pub bit_rate : ℕ
  pub clock : ℕ
  pub sample_rate : ℕ
  pub next_sample_tick : ℕ
  pub last_tick : ℕ
  pub dac_hold : StereoSample
  pub underruns : ℕ
  pub sink : List StereoSample

abbrev pub page : ℕ
page = 0x2000

abbrev pub default_dac_hz : ℕ
default_dac_hz = 44_100

pub recompute_rate : Audio → Audio
recompute_rate ai = record ai {
  sample_rate =
      if ai.clock == 0
      then 0
      else if ai.dac_rate == 0
      then default_dac_hz
      else ai.clock / (ai.dac_rate + 1);
}

pub new : Audio
new = recompute_rate (record {
  dma_addr = (0, 0);
  dma_len = (0, 0);
  dma_count = 0;
  addr_carry = 0;
  dma_enable = false;
  dac_rate = 0;
  bit_rate = 0;
  clock = video_clock_ntsc;
  sample_rate = 0;
  next_sample_tick = 0;
  last_tick = 0;
  dac_hold = record { left = 0; right = 0 };
  underruns = 0;
  sink = [];
})

pub set_region : Audio → Region → Audio
set_region ai region = recompute_rate (record ai { clock = video_clock region })

pub drain : Audio → Audio × List StereoSample
drain ai = (record ai { sink = [] }, ai.sink)

-- `a.saturating_add(b)` and `a.saturating_mul(b)` on u64
abbrev pub saturating_add : ℕ → ℕ → ℕ
saturating_add a b = min (a + b) (2 ^ 64 - 1)

abbrev pub saturating_mul : ℕ → ℕ → ℕ
saturating_mul a b = min (a * b) (2 ^ 64 - 1)

-- `s |= bits` under a condition
abbrev or_if : Bool → ℕ → ℕ → ℕ
or_if b bits s = if b then bit_or s bits else s

-- The count and word-clock bits, from the video-clock ticks and half of the rate.
count_bits : ℕ → ℕ → ℕ → ℕ
count_bits vi_ticks half s =
    let phase = vi_ticks % (half * 2) in
    let count = if ltb phase half then half - phase else half * 2 - phase in
    or_if (leb half phase) (2 ^ 19) (bit_or s (shl (bit_and (u32 count) 0x3fff) 1))

-- The readbacks that a bit rate of 0 stops.
clock_bits : Audio → ℕ → ℕ
clock_bits ai s =
    let vi_ticks = saturating_mul ai.last_tick ai.clock / master_hz in
    let half = ai.dac_rate / 2 in
    let counted = if half == 0 then s else count_bits vi_ticks half s in
    or_if (bit_and (vi_ticks / (ai.bit_rate + 1)) 1 == 1) (2 ^ 16) counted

pub status : Audio → ℕ
status ai =
    let full = or_if (ltb 1 ai.dma_count) (2 ^ 0) (or_if (ltb 1 ai.dma_count) (2 ^ 31) 0) in
    let busy = or_if (ltb 0 ai.dma_count) (2 ^ 30) full in
    let enabled = or_if ai.dma_enable (2 ^ 25) (bit_or busy (2 ^ 24)) in
    let fixed = bit_or enabled (2 ^ 20) in if ai.bit_rate == 0 then fixed else clock_bits ai fixed

pub read_reg : Audio → ℕ → ℕ
read_reg ai index = if index == 3 then status ai else bit_and ai.dma_len.0 0x3_ffff

pub period_ticks : Audio → ℕ
period_ticks ai = if ai.sample_rate == 0 then 0 else max (master_hz / ai.sample_rate) 1

-- `slots[slot] = val`, for a slot of two
abbrev pub set_slot : ℕ → ℕ → ℕ × ℕ → ℕ × ℕ
set_slot slot val (front, back) = if slot == 0 then (val, back) else (front, val)

enqueue : Audio → ℕ → Audio
enqueue ai length = record ai {
  dma_len = set_slot ai.dma_count length ai.dma_len;
  dma_count = ai.dma_count + 1;
}

-- A length written with a slot free; the first buffer starts at once.
pub write_length : Audio → ℕ → Audio × AiIrq
write_length ai length =
    if ai.dma_count == 0
    then (
      record (enqueue ai length) {
        addr_carry = 0;
        next_sample_tick = saturating_add ai.last_tick (period_ticks ai);
      },
      raise,
    )
    else (enqueue ai length, no_irq)

unfoldable pub write_reg : Audio → ℕ → ℕ → Audio × AiIrq
write_reg ai index val =
    if index == 0
    then (
      if ltb ai.dma_count 2
          then record ai { dma_addr = set_slot ai.dma_count (bit_and val 0x00ff_fff8) ai.dma_addr }
          else ai,
      no_irq,
    )
    else if index == 1
    then (if ltb ai.dma_count 2 then write_length ai (bit_and val 0x0003_fff8) else (ai, no_irq))
    else if index == 2
    then (record ai { dma_enable = not (bit_and val 1 == 0) }, no_irq)
    else if index == 3
    then (ai, lower)
    else if index == 4
    then (recompute_rate (record ai { dac_rate = bit_and val 0x3fff }), no_irq)
    else if index == 5
    then (record ai { bit_rate = bit_and val 0xf }, no_irq)
    else (ai, no_irq)

-- `(x * 63 / 64) as i16`, which rounds to zero
decayed : ℕ → ℕ
decayed x = if ltb x (2 ^ 15) then x * 63 / 64 else (2 ^ 16 - (2 ^ 16 - x) * 63 / 64) % 2 ^ 16

-- The front address with the carry of the sample before.
pub carried : Audio → ℕ
carried ai =
    bit_or (add32 (bit_and ai.dma_addr.0 (not32 (page - 1))) (ai.addr_carry * page))
      (bit_and ai.dma_addr.0 (page - 1))

-- A sample fetched by `read`, and the front transfer one word further.
pub play : (ℕ → ℕ) → Audio → Audio
play read ai =
    let addr = carried ai in
    let word = read (bit_and addr 0x00ff_ffff) in
    let sample : StereoSample = record { left = shr word 16; right = word % 2 ^ 16 } in
    let low = add32 (bit_and addr (page - 1)) 4 in
    record ai {
      dac_hold = sample;
      sink = ai.sink ++ sample ∷ [];
      addr_carry = if leb page low then 1 else 0;
      dma_addr = (bit_or (bit_and addr (not32 (page - 1))) (bit_and low (page - 1)), ai.dma_addr.1);
      dma_len = (sub32 ai.dma_len.0 4, ai.dma_len.1);
    }

pub idle : Audio → Audio
idle ai =
    let hold : StereoSample = record {
      left = decayed ai.dac_hold.left;
      right = decayed ai.dac_hold.right;
    } in
    record ai { dac_hold = hold; sink = ai.sink ++ hold ∷ [] }

-- A drained transfer leaves the queue; the one behind it starts, with an interrupt.
pub retire : Audio → Audio × Bool
retire ai =
    if ltb 0 ai.dma_count && ai.dma_len.0 == 0
    then (if ltb 1 ai.dma_count
        then (
          record ai {
            dma_count = ai.dma_count - 1;
            dma_addr = (ai.dma_addr.1, ai.dma_addr.1);
            dma_len = (ai.dma_len.1, ai.dma_len.1);
          },
          true,
        )
        else (
          record ai {
            dma_count = ai.dma_count - 1;
            underruns = if ai.dma_enable then u64 (ai.underruns + 1) else ai.underruns;
          },
          false,
        ))
    else (ai, false)

-- One output sample; the second part of the result is the interrupt raised on the bus.
pub emit_sample : (ℕ → ℕ) → Audio → Audio × Bool
emit_sample read ai =
    retire (
      if ltb 0 ai.dma_count && (ltb 0 ai.dma_len.0 && ai.dma_enable) then play read ai else idle ai)

-- The period and the time of a step that needs the bus.
pub record NeedsBus : Type 0 where
  pub period : ℕ
  pub now : ℕ

pub tick_without_bus : Audio → ℕ → Audio × Option NeedsBus
tick_without_bus ai now =
    let ai = record ai { last_tick = now } in
    let period = period_ticks ai in
    if not (ai.next_sample_tick == 0) && ltb now ai.next_sample_tick
    then (ai, none)
    else if period == 0
    then (ai, none)
    else if ai.next_sample_tick == 0
    then (record ai { next_sample_tick = saturating_add now period }, none)
    else (ai, some (record { period = period; now = now }))

abbrev pub count_raise : ℕ → Bool → ℕ
count_raise raises raised = if raised then raises + 1 else raises

-- The loop of `tick_with_bus`, on fuel, counting the interrupts.
pub samples : (ℕ → ℕ) → ℕ → NeedsBus → Audio → ℕ → Audio × ℕ
samples read zero proof ai raises = (ai, raises)
samples read (suc fuel) proof ai raises =
    let (next, raised) = emit_sample read ai in
    let rest =
      samples read fuel proof
        (record next { next_sample_tick = saturating_add next.next_sample_tick proof.period })
        (count_raise raises raised) in
    if leb ai.next_sample_tick proof.now then rest else (ai, raises)

-- The fuel is the number of samples due: each round adds a period, which is never 0 here.
pub tick_with_bus : (ℕ → ℕ) → Audio → NeedsBus → Audio × ℕ
tick_with_bus read ai proof =
    samples read ((proof.now - ai.next_sample_tick) / proof.period + 1) proof ai 0

finish : (ℕ → ℕ) → Audio × Option NeedsBus → Audio × ℕ
finish read (ai, none) = (ai, 0)
finish read (ai, some proof) = tick_with_bus read ai proof

pub tick : (ℕ → ℕ) → Audio → ℕ → Audio × ℕ
tick read ai now = finish read (tick_without_bus ai now)
