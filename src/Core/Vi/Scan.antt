-- ===== src/Core/Vi/Scan.antt =====
-- The loop of `Vi::tick`, crates/rustyn64-core/src/vi.rs.
use rusty_n.Base.{ℕ, zero, suc, ◌+◌, ◌-◌, ◌*◌, ◌%◌, ◌≤◌, ◌<◌, ◌≡◌, refl, ap, ap₂, ◌∙◌, sym, arith}
use rusty_n.Base.{Bool, true, false, ◌&&◌, ◌||◌, u32, ◌==◌, ◌⊎◌, inl, inr, ==_refl, eq_of_==}
use rusty_n.Core.Vi.{Vi, total_halflines, scan, next_line, on, v_intr}
use rusty_n.Core.Vi.Period.{total_halflines-le, total_halflines_pos}
use native.Mathlib.Nat.{mod-add-mod, mod-eq_of_lt, mod-lt, mul-suc, mul-zero}

-- A position below the length of the field, so that the sum of `next_line` does not wrap.
pub next_line_lem :
    (halflines v : ℕ)
    → v < halflines
    → halflines ≤ 1024
    → next_line halflines v ≡ (v + 1) % halflines
next_line_lem halflines v h k = ap (λ (t : ℕ). t % halflines) (omega arith)

-- The interface after one round of the loop.
abbrev pub stepped : Vi → ℕ → Vi
stepped vi per = record vi {
  acc = vi.acc - per;
  v_current = next_line (total_halflines vi) vi.v_current;
}

-- Whether the round lands on the interrupt's half-line.
abbrev pub lands : Vi → Bool
lands vi = on vi && next_line (total_halflines vi) vi.v_current == v_intr vi

scan_round :
    (fuel per : ℕ) (vi : Vi) (fired : Bool)
    → per ≤ vi.acc
    → scan (suc fuel) per vi fired ≡ scan fuel per (stepped vi per) (fired || lands vi)
unfolding scan
scan_round fuel per vi fired h = ground arith

total_halflines-stepped :
    (vi : Vi) (per : ℕ) → total_halflines (stepped vi per) ≡ total_halflines vi
unfolding total_halflines
total_halflines-stepped vi per = refl

stepped-lt : (vi : Vi) (per : ℕ) → (stepped vi per).v_current < total_halflines (stepped vi per)
unfolding total_halflines
stepped-lt vi per = mod-lt (u32 (vi.v_current + 1)) (total_halflines_pos vi)

abbrev pub rest_state : Vi → ℕ → ℕ → Vi
rest_state vi per fuel = record vi {
  acc = vi.acc - per * fuel;
  v_current = (vi.v_current + fuel) % total_halflines vi;
}

-- The position `j` half-lines after the next one.
next_line-add :
    (vi : Vi) (j : ℕ)
    → vi.v_current < total_halflines vi
    → (next_line (total_halflines vi) vi.v_current + j) % total_halflines vi
      ≡ (vi.v_current + suc j) % total_halflines vi
next_line-add vi j k =
    ap (λ (t : ℕ). (t + j) % total_halflines vi)
      (next_line_lem (total_halflines vi) vi.v_current k (total_halflines-le vi))
    ∙ (mod-add-mod (vi.v_current + 1) (total_halflines vi) j
        ∙ ap (λ (t : ℕ). t % total_halflines vi) (omega arith))

rest_state-stepped :
    (fuel per : ℕ) (vi : Vi)
    → vi.v_current < total_halflines vi
    → rest_state (stepped vi per) per fuel ≡ rest_state vi per (suc fuel)
unfolding total_halflines
rest_state-stepped fuel per vi k =
    ap₂ (λ (a v : ℕ). record vi { acc = a; v_current = v }) (omega (arith, mul-suc per fuel))
      (next_line-add vi fuel k)

pub rest_state-zero :
    (per : ℕ) (vi : Vi) → vi.v_current < total_halflines vi → vi ≡ rest_state vi per 0
rest_state-zero per vi k =
    ap₂ (λ (a v : ℕ). record vi { acc = a; v_current = v }) (omega (arith, mul-zero per))
      (sym (mod-eq_of_lt (omega arith)) ∙ ap (λ (t : ℕ). t % total_halflines vi) (omega arith))

pub scan_state :
    (fuel per : ℕ) (vi : Vi) (fired : Bool)
    → per * fuel ≤ vi.acc
    → vi.v_current < total_halflines vi
    → (scan fuel per vi fired).0 ≡ rest_state vi per fuel
unfolding scan
scan_state zero per vi fired h k = rest_state-zero per vi k
scan_state (suc fuel) per vi fired h k =
    ap (λ (t : Vi × Bool). t.0) (scan_round fuel per vi fired (omega (arith, mul-suc per fuel)))
    ∙ (scan_state fuel per (stepped vi per) (fired || lands vi) (omega (arith, mul-suc per fuel))
          (stepped-lt vi per)
        ∙ rest_state-stepped fuel per vi k)

-- Some of the next `fuel` half-lines is the interrupt's, and the interface is on.
abbrev pub Meets : Vi → ℕ → Type 0
Meets vi fuel =
    (on vi ≡ true)
    × ((k : ℕ) × (k < fuel) × ((vi.v_current + suc k) % total_halflines vi ≡ v_intr vi))

or_cases : (a b : Bool) → (a || b) ≡ true → (a ≡ true) ⊎ (b ≡ true)
or_cases true b h = inl refl
or_cases false b h = inr h

or_right : (a b : Bool) → b ≡ true → (a || b) ≡ true
or_right true b h = refl
or_right false b h = h

and_both : (a b : Bool) → (a && b) ≡ true → (a ≡ true) × (b ≡ true)
and_both true b h = (refl, h)
and_both false b h = ground arith

and_intro : (a b : Bool) → a ≡ true → b ≡ true → (a && b) ≡ true
and_intro a b h k = ap₂ ◌&&◌ h k

lands-Meets :
    (vi : Vi) (fuel : ℕ) → vi.v_current < total_halflines vi → lands vi ≡ true → Meets vi (suc fuel)
lands-Meets vi fuel k h =
    let both = and_both (on vi) (next_line (total_halflines vi) vi.v_current == v_intr vi) h in
    (
      both.0,
      (
        0,
        omega arith,
        sym (next_line_lem (total_halflines vi) vi.v_current k (total_halflines-le vi))
            ∙ eq_of_== (next_line (total_halflines vi) vi.v_current) (v_intr vi) both.1,
      ),
    )

Meets-stepped :
    (vi : Vi) (fuel per : ℕ)
    → vi.v_current < total_halflines vi
    → Meets (stepped vi per) fuel
    → Meets vi (suc fuel)
unfolding total_halflines
Meets-stepped vi fuel per k (live, (j, below, at)) =
    (live, (suc j, omega arith, sym (next_line-add vi (suc j) k) ∙ at))

-- Either the first round meets the half-line, or a later one does.
Meets-split :
    (vi : Vi) (fuel per : ℕ)
    → vi.v_current < total_halflines vi
    → Meets vi (suc fuel)
    → (lands vi ≡ true) ⊎ Meets (stepped vi per) fuel
unfolding total_halflines
Meets-split vi fuel per k (live, (zero, below, at)) = inl (
    and_intro (on vi) (next_line (total_halflines vi) vi.v_current == v_intr vi) live (
      ap (λ (t : ℕ). t == v_intr vi)
        (next_line_lem (total_halflines vi) vi.v_current k (total_halflines-le vi) ∙ at)
      ∙ ==_refl (v_intr vi)))
Meets-split vi fuel per k (live, (suc j, below, at)) =
    inr (live, (j, omega arith, next_line-add vi (suc j) k ∙ at))

pub fired_only :
    (fuel per : ℕ) (vi : Vi) (fired : Bool)
    → per * fuel ≤ vi.acc
    → vi.v_current < total_halflines vi
    → (scan fuel per vi fired).1 ≡ true
    → (fired ≡ true) ⊎ Meets vi fuel
unfolding scan
fired_only zero per vi fired h k e = inl e
fired_only (suc fuel) per vi fired h k e =
    elim (fired_only fuel per (stepped vi per) (fired || lands vi) (omega (arith, mul-suc per fuel))
      (stepped-lt vi per)
      (sym (
          ap (λ (t : Vi × Bool). t.1)
            (scan_round fuel per vi fired (omega (arith, mul-suc per fuel))))
        ∙ e)) [
          | inl now ↦ elim (or_cases fired (lands vi) now) [
            | inl before ↦ inl before
            | inr here ↦ inr (lands-Meets vi fuel k here)
          ]
          | inr later ↦ inr (Meets-stepped vi fuel per k later)
        ]

none-Meets : (vi : Vi) → Meets vi 0 → (P : Bool) → P ≡ true
none-Meets vi (live, (j, below, at)) P = ground arith

starts :
    (fuel per : ℕ) (vi : Vi) (fired : Bool)
    → vi.v_current < total_halflines vi
    → (fired ≡ true) ⊎ Meets vi (suc fuel)
    → ((fired || lands vi) ≡ true) ⊎ Meets (stepped vi per) fuel
starts fuel per vi fired k (inl before) = inl (ap (λ (t : Bool). t || lands vi) before)
starts fuel per vi fired k (inr meets) = elim (Meets-split vi fuel per k meets) [
  | inl here ↦ inl (or_right fired (lands vi) here)
  | inr later ↦ inr later
]

pub fired_at :
    (fuel per : ℕ) (vi : Vi) (fired : Bool)
    → per * fuel ≤ vi.acc
    → vi.v_current < total_halflines vi
    → (fired ≡ true) ⊎ Meets vi fuel
    → (scan fuel per vi fired).1 ≡ true
unfolding scan
fired_at zero per vi fired h k (inl e) = e
fired_at zero per vi fired h k (inr m) = none-Meets vi m fired
fired_at (suc fuel) per vi fired h k m =
    ap (λ (t : Vi × Bool). t.1) (scan_round fuel per vi fired (omega (arith, mul-suc per fuel)))
    ∙ fired_at fuel per (stepped vi per) (fired || lands vi) (omega (arith, mul-suc per fuel))
        (stepped-lt vi per) (starts fuel per vi fired k m)
