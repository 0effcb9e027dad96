-- ===== src/Audio/Queue.antt =====
-- The queue of two transfers and its interrupts: `write_reg` and `emit_sample` of
-- crates/rustyn64-audio/src/lib.rs.
use rusty_n.Base.{ℕ, ◌+◌, ◌-◌, ◌≤◌, ◌≡◌, refl, ap₂, ◌∙◌, arith}
use rusty_n.Base.{List, [], ◌∷◌, ◌&&◌, ltb, ◌==◌, if◌then◌else◌}
use rusty_n.Audio.{
  Audio, AiIrq, raise, write_reg, write_length, enqueue, emit_sample, retire, play, idle,
  recompute_rate, count_raise,
}

-- What happens to the interface: a register is written, or the converter takes a sample.
pub data Event : Type 0 where
  access : ℕ → ℕ → Event
  sample : Event

unfoldable pub step : (ℕ → ℕ) → Audio → Event → Audio
step read ai (access index val) = (write_reg ai index val).0
step read ai sample = (emit_sample read ai).0

unfoldable pub run : (ℕ → ℕ) → Audio → List Event → Audio
run read ai [] = ai
run read ai (e ∷ es) = run read (step read ai e) es

abbrev irq_raises : AiIrq → ℕ
irq_raises raise = 1
irq_raises _ = 0

-- The interrupts that an event raises.
pub raised : (ℕ → ℕ) → Audio → Event → ℕ
raised read ai (access index val) = irq_raises (write_reg ai index val).1
raised read ai sample = count_raise 0 (emit_sample read ai).1

-- The transfers that an event adds to the queue: a length is written while a slot is free.
pub accepted : Audio → Event → ℕ
accepted ai (access index val) = if index == 1 && ltb ai.dma_count 2 then 1 else 0
accepted ai sample = 0

pub interrupts : (ℕ → ℕ) → Audio → List Event → ℕ
interrupts read ai [] = 0
interrupts read ai (e ∷ es) = raised read ai e + interrupts read (step read ai e) es

pub transfers : (ℕ → ℕ) → Audio → List Event → ℕ
transfers read ai [] = 0
transfers read ai (e ∷ es) = accepted ai e + transfers read (step read ai e) es

-- The transfers behind the one that plays.
abbrev pub waiting : Audio → ℕ
waiting ai = ai.dma_count - 1

write_reg_count :
    (ai : Audio) (index val : ℕ)
    → (write_reg ai index val).0.dma_count
      ≡ (if index == 1 && ltb ai.dma_count 2 then ai.dma_count + 1 else ai.dma_count)
unfolding write_reg write_length enqueue recompute_rate
write_reg_count ai index val = ground arith

write_reg_raises :
    (ai : Audio) (index val : ℕ)
    → irq_raises (write_reg ai index val).1 ≡ (if index == 1 && ai.dma_count == 0 then 1 else 0)
unfolding write_reg write_length
write_reg_raises ai index val = ground arith

emit_sample_queue :
    (read : ℕ → ℕ) (ai : Audio)
    → ai.dma_count ≤ 2
    → ((emit_sample read ai).0.dma_count ≤ 2)
      × (count_raise 0 (emit_sample read ai).1 + ((emit_sample read ai).0.dma_count - 1)
          ≡ ai.dma_count - 1)
unfolding emit_sample retire play idle
emit_sample_queue read ai h = ground arith

access_balance :
    (c index : ℕ)
    → c ≤ 2
    → ((if index == 1 && ltb c 2 then c + 1 else c) ≤ 2)
      × ((if index == 1 && c == 0 then 1 else 0)
            + ((if index == 1 && ltb c 2 then c + 1 else c) - 1)
          ≡ (if index == 1 && ltb c 2 then 1 else 0) + (c - 1))
access_balance c index h = ground arith

step_balance :
    (read : ℕ → ℕ) (ai : Audio) (e : Event)
    → ai.dma_count ≤ 2
    → ((step read ai e).dma_count ≤ 2)
      × (raised read ai e + waiting (step read ai e) ≡ accepted ai e + waiting ai)
unfolding step raised accepted
step_balance read ai (access index val) h =
    let balance = access_balance ai.dma_count index h in
    (
      omega (arith, write_reg_count ai index val, balance.0),
      ap₂ (λ (r c : ℕ). r + (c - 1)) (write_reg_raises ai index val) (write_reg_count ai index val)
          ∙ balance.1,
    )
step_balance read ai sample h =
    let queue = emit_sample_queue read ai h in (queue.0, omega (arith, queue.1))

-- With at most two transfers queued, over any sequence of register writes and samples at most two
-- stay queued, and the interrupts raised are as many as the transfers that started: those accepted
-- and those that waited before, less those that still wait.
pub interrupts_balance :
    (read : ℕ → ℕ) (ai : Audio) (es : List Event)
    → ai.dma_count ≤ 2
    → ((run read ai es).dma_count ≤ 2)
      × (interrupts read ai es + waiting (run read ai es) ≡ transfers read ai es + waiting ai)
unfolding run interrupts transfers
interrupts_balance read ai [] h = (h, refl)
interrupts_balance read ai (e ∷ es) h =
    let now = step_balance read ai e h in
    let later = interrupts_balance read (step read ai e) es now.0 in
    (later.0, omega (arith, now.1, later.1))
