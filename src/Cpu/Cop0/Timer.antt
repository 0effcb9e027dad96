-- ===== src/Cpu/Cop0/Timer.antt =====
-- The count and compare registers: `timer_edge` of crates/rustyn64-cpu/src/cop0.rs.
use rusty_n.Base.{ℕ, ◌+◌, ◌-◌, ◌%◌, ◌^◌, ◌≤◌, ◌<◌, ◌≡◌, ap, ap₂, ◌∙◌, sym, arith, ◌↔◌, ◌≢◌}
use rusty_n.Base.{Bool, true, not, ◌&&◌, leb, ◌==◌, sub32, u32}
use rusty_n.Cpu.Cop0.{Cop0, count, timer_edge, count_ticks_until_timer_match, reg_compare, set_now}

-- The count at a tick of the clock.
unfoldable pub count_at : Cop0 → ℕ → ℕ
count_at c tick = (c.count_epoch_value + (tick - c.count_epoch_tick)) % 2 ^ 32

-- The clock is past the last write of the count, and past the time of the last sample, by less than
-- a turn of the count.
pub record WasSampledAt (c : Cop0) (sample : ℕ) : Type 0 where
  pub epoch : c.count_epoch_tick ≤ sample
  pub forward : sample ≤ c.now
  pub recent : c.now - sample < 2 ^ 32
  pub clock : c.now < 2 ^ 64
  pub sampled : c.last_count ≡ count_at c sample

count_lem : (c : Cop0) → c.count_epoch_tick ≤ c.now → c.now < 2 ^ 64 → count c ≡ count_at c c.now
unfolding count count_at
count_lem c h k = omega arith

module _ (start d goal : ℕ) where
  abbrev traveled : ℕ
  traveled = sub32 ((start + d) % 2 ^ 32) (start % 2 ^ 32)

  abbrev distance : ℕ
  distance = sub32 goal (start % 2 ^ 32)

  -- The test of the edge, between counts that are `d` ticks apart.
  abbrev passed : Bool
  passed = not (traveled == 0) && (not (distance == 0) && leb distance traveled)

  passed_only :
      goal < 2 ^ 32
      → d < 2 ^ 32
      → passed ≡ true
      → (k : ℕ) × (0 < k) × (k ≤ d) × ((start + k) % 2 ^ 32 ≡ goal)
  passed_only hg hd e = (distance, ground arith, ground arith, omega arith)

  passed_if :
      goal < 2 ^ 32
      → d < 2 ^ 32
      → (k : ℕ) → 0 < k
      → k ≤ d
      → (start + k) % 2 ^ 32 ≡ goal
      → passed ≡ true
  passed_if hg hd k above below at = ground arith

timer_edge_lem :
    (c : Cop0) (sample : ℕ)
    → WasSampledAt c sample
    → (timer_edge c).1
      ≡ passed
          (c.count_epoch_value + (sample - c.count_epoch_tick))
          (c.now - sample)
          (u32 (c.regs reg_compare))
unfolding timer_edge count_at
timer_edge_lem c sample h =
    ap₂
      (λ (now last : ℕ).
        let traveled = sub32 now last in
        let to_compare = sub32 (u32 (c.regs reg_compare)) last in
        not (traveled == 0) && (not (to_compare == 0) && leb to_compare traveled))
      (count_lem c (omega (arith, h.epoch, h.forward)) h.clock
        ∙ ap (λ (t : ℕ). t % 2 ^ 32) (omega (arith, h.epoch, h.forward)))
      h.sampled

-- When the clock was sampled less than a turn of the count ago, the timer reports an edge exactly if
-- the count stood at the compare value at some tick after the sample, up to now.
pub timer_edge_iff :
    (c : Cop0) (sample : ℕ)
    → WasSampledAt c sample
    → ((timer_edge c).1 ≡ true) ↔ (
        (tick : ℕ) × (sample < tick)
        × (tick ≤ c.now)
        × (count_at c tick ≡ u32 (c.regs reg_compare)))
unfolding count_at
timer_edge_iff c sample h =
    let start = c.count_epoch_value + (sample - c.count_epoch_tick) in
    let goal = u32 (c.regs reg_compare) in
    let small : goal < 2 ^ 32 = omega arith in
    (
      (λ e.
          let found =
            passed_only start (c.now - sample) goal small h.recent
              (sym (timer_edge_lem c sample h) ∙ e) in
          (
            sample + found.0,
            omega (arith, found.1),
            omega (arith, found.2, h.forward),
            ap (λ (t : ℕ). t % 2 ^ 32) (omega (arith, h.epoch)) ∙ found.3,
          )),
      (λ at.
          timer_edge_lem c sample h
          ∙ passed_if start (c.now - sample) goal small h.recent (at.0 - sample)
              (omega (arith, at.1)) (omega (arith, at.1, at.2))
              (ap (λ (t : ℕ). t % 2 ^ 32) (omega (arith, h.epoch, at.1)) ∙ at.3)),
    )

passed_until :
    (start d goal : ℕ)
    → goal < 2 ^ 32
    → start % 2 ^ 32 ≢ goal
    → d ≤ distance start d goal
    → passed start d goal ≡ (d == distance start d goal)
passed_until start d goal hg off le = ground arith

until_lem :
    (c : Cop0)
    → c.last_count ≡ count_at c c.now
    → count_at c c.now ≢ u32 (c.regs reg_compare)
    → count_ticks_until_timer_match c
      ≡ distance (c.count_epoch_value + (c.now - c.count_epoch_tick)) 0 (u32 (c.regs reg_compare))
unfolding count_at count_ticks_until_timer_match
until_lem c e off = ground arith

-- When the clock was just sampled and the count is not at the compare value, the timer reports no edge
-- while the clock moves by less than the ticks that `count_ticks_until_timer_match` gives, and one
-- when it has moved by them.
pub timer_edge-until :
    (c : Cop0) (d : ℕ)
    → WasSampledAt c c.now
    → c.now + 2 ^ 32 < 2 ^ 64
    → count_at c c.now ≢ u32 (c.regs reg_compare)
    → d ≤ count_ticks_until_timer_match c
    → (timer_edge (set_now c (c.now + d))).1 ≡ (d == count_ticks_until_timer_match c)
unfolding count_at set_now
timer_edge-until c d h room off le =
    let start = c.count_epoch_value + (c.now - c.count_epoch_tick) in
    let goal = u32 (c.regs reg_compare) in
    let until = until_lem c h.sampled off in
    let sampled : WasSampledAt (record c { now = c.now + d }) c.now = record {
      epoch = h.epoch;
      forward = omega arith;
      recent = omega (arith, until);
      clock = omega (arith, until);
      sampled = h.sampled;
    } in
    timer_edge_lem (record c { now = c.now + d }) c.now sampled
    ∙ (ap (λ (t : ℕ). passed start t goal) (omega arith)
        ∙ (passed_until start d goal (omega arith) off (omega (arith, until))
            ∙ sym (ap (λ (t : ℕ). d == t) until)))
