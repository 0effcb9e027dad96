-- ===== src/Core/Vi/Timeline.antt =====
-- The scan position over time: `Vi::tick` of crates/rustyn64-core/src/vi.rs.
use rusty_n.Base.{ℕ, ◌+◌, ◌-◌, ◌/◌, ◌%◌, ◌^◌, ◌≤◌, ◌<◌, ◌≡◌, ap, ap₂, ◌∙◌, sym, arith}
use rusty_n.Base.{
  Bool, true, false, ltb, if◌then◌else◌, ==_ne, ltb_of_lt, ltb_of_le, inl, inr, ◌↔◌, ◌⊎◌,
}
use rusty_n.Core.Vi.{
  Vi, total_halflines, ticks_per_halfline, vi_min_ticks_per_halfline, scan, tick, advance, field_hz,
}
use rusty_n.Core.Vi.Period.{ticks_per_halfline-ge, total_halflines_pos}
use rusty_n.Core.Vi.Scan.{Meets, scan_state, fired_only, fired_at}
use native.Mathlib.Nat.{
  div-eq_of_lt, mod-eq-sub-mul-div, mul-div-le, mod-add-mod, mul-add-div, div-add-mod, mod-lt,
  mod-le,
}

-- The ticks that `tick` has to account for.
abbrev pub elapsed : Vi → ℕ → ℕ
elapsed vi now = vi.acc + (now - vi.prev_ticks)

-- The half-lines that pass in them.
abbrev pub halflines_passed : Vi → ℕ → ℕ
halflines_passed vi now = elapsed vi now / ticks_per_halfline vi

-- The interface as the loop of `tick` finds it.
abbrev pub loaded : Vi → ℕ → Vi
loaded vi now = record vi { acc = elapsed vi now; prev_ticks = now }

advance_lem :
    (vi : Vi) (now acc : ℕ)
    → advance (record vi { prev_ticks = now }) acc
      ≡ scan
          (acc / ticks_per_halfline vi)
          (ticks_per_halfline vi)
          (record vi { acc = acc; prev_ticks = now })
          false
unfolding advance ticks_per_halfline field_hz total_halflines
advance_lem vi now acc =
    ap
      (λ (b : Bool).
        if b
        then (record vi { prev_ticks = now }, false)
        else scan (acc / ticks_per_halfline vi) (ticks_per_halfline vi)
            (record vi { acc = acc; prev_ticks = now }) false)
      (==_ne (ticks_per_halfline vi) 0 (λ e. omega (arith, e, ticks_per_halfline-ge vi)))

-- Below the bound of the early return the loop would not run.
skip_lem :
    (vi : Vi) (now acc : ℕ)
    → acc < vi_min_ticks_per_halfline
    → scan
        (acc / ticks_per_halfline vi)
        (ticks_per_halfline vi)
        (record vi { acc = acc; prev_ticks = now })
        false
      ≡ (record vi { acc = acc; prev_ticks = now }, false)
unfolding scan
skip_lem vi now acc h =
    ap (λ (n : ℕ). scan n (ticks_per_halfline vi) (record vi { acc = acc; prev_ticks = now }) false)
      (div-eq_of_lt (omega (arith, ticks_per_halfline-ge vi)))

either_way :
    (vi : Vi) (now acc : ℕ)
    → (if ltb acc vi_min_ticks_per_halfline
        then (record vi { acc = acc; prev_ticks = now }, false)
        else advance (record vi { prev_ticks = now }) acc)
      ≡ scan
          (acc / ticks_per_halfline vi)
          (ticks_per_halfline vi)
          (record vi { acc = acc; prev_ticks = now })
          false
either_way vi now acc = elim (cases acc) [
  | inl small ↦
      ap
        (λ (b : Bool).
          if b
          then (record vi { acc = acc; prev_ticks = now }, false)
          else advance (record vi { prev_ticks = now }) acc)
        (ltb_of_lt acc vi_min_ticks_per_halfline small)
      ∙ sym (skip_lem vi now acc small)
  | inr large ↦
      ap
        (λ (b : Bool).
          if b
          then (record vi { acc = acc; prev_ticks = now }, false)
          else advance (record vi { prev_ticks = now }) acc)
        (ltb_of_le acc vi_min_ticks_per_halfline large)
      ∙ advance_lem vi now acc
]
  where
    cases : (a : ℕ) → (a < vi_min_ticks_per_halfline) ⊎ (vi_min_ticks_per_halfline ≤ a)
    cases a = omega arith

-- While the remainder and the elapsed ticks have a sum below 2^64, a tick is the loop over the
-- half-lines in that sum, whether the early return is taken or not.
pub tick-scan :
    (vi : Vi) (now : ℕ)
    → elapsed vi now < 2 ^ 64
    → tick vi now ≡ scan (halflines_passed vi now) (ticks_per_halfline vi) (loaded vi now) false
unfolding tick
tick-scan vi now h =
    ap
      (λ (acc : ℕ).
        if ltb acc vi_min_ticks_per_halfline
        then (record vi { acc = acc; prev_ticks = now }, false)
        else advance (record vi { prev_ticks = now }) acc)
      (omega arith)
    ∙ either_way vi now (elapsed vi now)

-- Where the clock puts the interface: the position moves by the half-lines passed, around the field.
pub at_clock : Vi → ℕ → Vi
at_clock vi now = record vi {
  acc = elapsed vi now % ticks_per_halfline vi;
  v_current = (vi.v_current + halflines_passed vi now) % total_halflines vi;
  prev_ticks = now;
}

-- While the remainder and the elapsed ticks have a sum below 2^64 and the position is in the field,
-- a tick keeps the registers, moves the position around the field by the half-lines that passed,
-- and leaves the remainder of the sum by the length of a half-line.
pub tick-at_clock :
    (vi : Vi) (now : ℕ)
    → elapsed vi now < 2 ^ 64
    → vi.v_current < total_halflines vi
    → (tick vi now).0 ≡ at_clock vi now
unfolding at_clock total_halflines
tick-at_clock vi now h k =
    ap (λ (t : Vi × Bool). t.0) (tick-scan vi now h)
    ∙ (scan_state (halflines_passed vi now) (ticks_per_halfline vi) (loaded vi now) false
          (mul-div-le (elapsed vi now) (ticks_per_halfline vi)) k
        ∙ ap
            (λ (a : ℕ). record vi {
              acc = a;
              v_current = (vi.v_current + halflines_passed vi now) % total_halflines vi;
              prev_ticks = now;
            })
            (sym (mod-eq-sub-mul-div (elapsed vi now) (ticks_per_halfline vi))))

-- While the remainder and the elapsed ticks have a sum below 2^64 and the position is in the field,
-- a tick reports the interrupt exactly when the interface is on and one of the half-lines that
-- passed is the programmed one, however many passed.
pub tick_fires :
    (vi : Vi) (now : ℕ)
    → elapsed vi now < 2 ^ 64
    → vi.v_current < total_halflines vi
    → ((tick vi now).1 ≡ true) ↔ Meets vi (halflines_passed vi now)
unfolding total_halflines
tick_fires vi now h k = (
  (λ e.
      elim (fired_only (halflines_passed vi now) (ticks_per_halfline vi) (loaded vi now) false
        (mul-div-le (elapsed vi now) (ticks_per_halfline vi)) k
        (sym (ap (λ (t : Vi × Bool). t.1) (tick-scan vi now h)) ∙ e)) [
          | inl never ↦ ground arith
          | inr meets ↦ meets
        ]),
  (λ meets.
      ap (λ (t : Vi × Bool). t.1) (tick-scan vi now h)
      ∙ fired_at (halflines_passed vi now) (ticks_per_halfline vi) (loaded vi now) false
          (mul-div-le (elapsed vi now) (ticks_per_halfline vi)) k (inr meets)),
)

add_div : (p x d : ℕ) → 0 < p → x / p + (x % p + d) / p ≡ (x + d) / p
add_div p x d h =
    sym (mul-add-div h (x / p) (x % p + d)) ∙ ap (λ (t : ℕ). t / p) (omega (arith, div-add-mod x p))

at_clock-at_clock :
    (vi : Vi) (earlier later : ℕ)
    → vi.prev_ticks ≤ earlier
    → earlier ≤ later
    → at_clock (at_clock vi earlier) later ≡ at_clock vi later
unfolding at_clock ticks_per_halfline total_halflines field_hz
at_clock-at_clock vi earlier later before after =
    ap₂ (λ (a v : ℕ). record vi { acc = a; v_current = v; prev_ticks = later })
      (mod-add-mod (elapsed vi earlier) (ticks_per_halfline vi) (later - earlier)
        ∙ ap (λ (t : ℕ). t % ticks_per_halfline vi) (omega arith))
      (mod-add-mod (vi.v_current + halflines_passed vi earlier) (total_halflines vi)
          ((elapsed vi earlier % ticks_per_halfline vi + (later - earlier)) / ticks_per_halfline vi)
        ∙ ap (λ (t : ℕ). t % total_halflines vi)
            (omega (
              arith,
              add_div (ticks_per_halfline vi) (elapsed vi earlier) (later - earlier)
                  (omega (arith, ticks_per_halfline-ge vi)),
              ap (λ (t : ℕ). t / ticks_per_halfline vi) (sum vi.acc vi.prev_ticks before),
            )))
  where
    sum : (a p : ℕ) → p ≤ earlier → a + (earlier - p) + (later - earlier) ≡ a + (later - p)
    sum a p = omega arith

-- While the remainder and the ticks elapsed at the later time have a sum below 2^64 and the position
-- is in the field, a tick at a time in between does not change the state that the later tick leaves.
pub tick-tick :
    (vi : Vi) (earlier later : ℕ)
    → vi.prev_ticks ≤ earlier
    → earlier ≤ later
    → elapsed vi later < 2 ^ 64
    → vi.v_current < total_halflines vi
    → (tick (tick vi earlier).0 later).0 ≡ (tick vi later).0
unfolding at_clock total_halflines
tick-tick vi earlier later before after h k =
    ap (λ (v : Vi). (tick v later).0) (tick-at_clock vi earlier (omega arith) k)
    ∙ (tick-at_clock (at_clock vi earlier) later
          (omega (arith, mod-le (elapsed vi earlier) (ticks_per_halfline vi)))
          (mod-lt (vi.v_current + halflines_passed vi earlier) (total_halflines_pos vi))
        ∙ (at_clock-at_clock vi earlier later before after ∙ sym (tick-at_clock vi later h k)))
