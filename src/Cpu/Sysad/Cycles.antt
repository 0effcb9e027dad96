-- ===== src/Cpu/Sysad/Cycles.antt =====
-- How long a transaction takes: `step` and `total_cycles` of crates/rustyn64-cpu/src/sysad.rs.
use rusty_n.Base.{ℕ, zero, suc, ◌+◌, ◌-◌, ◌^◌, ◌≤◌, ◌<◌, ◌≡◌, refl, ap, ◌∙◌, arith}
use rusty_n.Base.{Bool, true, false, ltb, ◌==◌, if◌then◌else◌, min}
use rusty_n.Cpu.Sysad.{
  Phase, data_cycle, Width, single32, single64, block128, block256, bytes, beats, Transaction,
  begin, end_phase, step, total_cycles,
}

-- Does the transaction complete in exactly the cycle `n`, and in none before it?
pub completes_at : ℕ → Transaction → ℕ → Bool
completes_at zero t service = false
completes_at (suc n) t service =
    let rest = completes_at n (step t service).0 service in
    if (step t service).1 then n == 0 else rest

beats_pos : (w : Width) → (0 < beats w) × (beats w ≤ 8)
unfolding beats bytes
beats_pos single32 = (omega arith, omega arith)
beats_pos single64 = (omega arith, omega arith)
beats_pos block128 = (omega arith, omega arith)
beats_pos block256 = (omega arith, omega arith)

step_data :
    (t : Transaction) (service : ℕ)
    → t.phase ≡ data_cycle
    → 1 < t.remaining
    → step t service ≡ (record t { remaining = t.remaining - 1 }, false)
unfolding step
step_data t service e h =
    ap
      (λ (b : Bool).
        if b
        then (record t { remaining = t.remaining - 1 }, false)
        else end_phase t.phase (record t { remaining = t.remaining - 1 }) service)
      (more t.remaining h)
  where
    more : (r : ℕ) → 1 < r → ltb 0 (r - 1) ≡ true
    more r h = ground arith

step_last :
    (t : Transaction) (service : ℕ)
    → t.remaining ≡ 1
    → step t service ≡ end_phase t.phase (record t { remaining = t.remaining - 1 }) service
unfolding step
step_last t service h =
    ap
      (λ (b : Bool).
        if b
        then (record t { remaining = t.remaining - 1 }, false)
        else end_phase t.phase (record t { remaining = t.remaining - 1 }) service)
      (last t.remaining h)
  where
    last : (r : ℕ) → r ≡ 1 → ltb 0 (r - 1) ≡ false
    last r h = ground arith

data_phase :
    (n : ℕ) (t : Transaction) (service : ℕ)
    → t.phase ≡ data_cycle
    → t.remaining ≡ suc n
    → completes_at (suc n) t service ≡ true
unfolding completes_at end_phase
data_phase zero t service e h =
    ap (λ (u : Transaction × Bool). if u.1 then 0 == 0 else false)
      (step_last t service h
        ∙ ap (λ (p : Phase). end_phase p (record t { remaining = t.remaining - 1 }) service) e)
data_phase (suc n) t service e h =
    ap (λ (u : Transaction × Bool). if u.1 then suc n == 0 else completes_at (suc n) u.0 service)
      (step_data t service e (omega arith))
    ∙ data_phase n (record t { remaining = t.remaining - 1 }) service e (omega arith)

-- The transaction once its address cycle is over.
abbrev waiting : ℕ → Width → Bool → ℕ → Transaction
waiting addr width is_write service = record {
  addr = addr;
  width = width;
  is_write = is_write;
  phase = data_cycle;
  remaining = min (service + beats width) (2 ^ 32 - 1);
}

address_cycle :
    (n addr : ℕ) (width : Width) (is_write : Bool) (service : ℕ)
    → completes_at (suc n) (begin addr width is_write) service
      ≡ completes_at n (waiting addr width is_write service) service
unfolding completes_at step begin end_phase
address_cycle n addr width is_write service = refl

-- With a latency that keeps the sum of the cycles below 2^32, a transaction of any width completes in
-- exactly the cycle that total_cycles gives, and in none before it.
pub completes_at-total_cycles :
    (addr : ℕ) (width : Width) (is_write : Bool) (service : ℕ)
    → service + 9 < 2 ^ 32
    → completes_at (total_cycles width service) (begin addr width is_write) service ≡ true
unfolding total_cycles
completes_at-total_cycles addr width is_write service h =
    let last = service + beats width - 1 in
    ap (λ (n : ℕ). completes_at n (begin addr width is_write) service)
      (omega (arith, beats_pos width))
    ∙ (address_cycle (suc last) addr width is_write service
        ∙ data_phase last (waiting addr width is_write service) service refl
            (omega (arith, beats_pos width)))
