-- ===== src/Core/Scheduler/Ticks.antt =====
-- The scheduler against a clock that visits every tick: `run_until` of
-- crates/rustyn64-core/src/scheduler.rs.
use rusty_n.Base.{ℕ, zero, suc, ◌+◌, ◌-◌, ◌≤◌, ◌<◌, ◌≡◌, refl, ap, ◌∙◌, sym, arith, inl, inr}
use rusty_n.Base.{
  Bool, true, false, not, ◌&&◌, ltb, leb, if◌then◌else◌, if_keeps, if_keeps_when, Bool-cases,
}
use rusty_n.Core.Scheduler.{
  Machine, System, Phases, at, is_edge, count_ticks, next_edge, next_edge_after, step_domains,
  step_due_here, step_to_next_edge, edges, run_until,
}

-- Nothing is due at a tick.
abbrev pub IsIdle : Phases → ℕ → Type 0
IsIdle p tick = (is_edge tick p.cpu 2 ≡ false) × (is_edge tick p.rcp 3 ≡ false)

module _ {M : Type 0} (m : Machine M) where
  -- One tick of the master clock, and what is due there.
  pub tick_once : System M → System M
  tick_once s = step_due_here m (at s (s.master_ticks + 1))

  -- The reference: `n` ticks, one at a time.
  pub advance : ℕ → System M → System M
  advance zero s = s
  advance (suc n) s = advance n (tick_once s)

  pub advance_add : (j n : ℕ) (s : System M) → advance (j + n) s ≡ advance n (advance j s)
  unfolding advance
  advance_add zero n s = let e : 0 + n ≡ n = omega arith in ap (λ (t : ℕ). advance t s) e
  advance_add (suc j) n s =
      let e : suc j + n ≡ suc (j + n) = omega arith in
      ap (λ (t : ℕ). advance t s) e ∙ advance_add j n (tick_once s)

  pub advance_zero : (s : System M) → advance 0 s ≡ s
  unfolding advance
  advance_zero s = refl

  pub advance_one : (s : System M) → advance 1 s ≡ tick_once s
  unfolding advance
  advance_one s = refl

  pub tick_due :
      (s : System M)
      → tick_once s
        ≡ step_domains m
            (at s (s.master_ticks + 1))
            (is_edge (s.master_ticks + 1) s.phases.cpu 2)
            (is_edge (s.master_ticks + 1) s.phases.rcp 3)
  unfolding tick_once step_due_here
  tick_due s = refl

  -- A step keeps the clock and the phases.
  pub step_clock :
      (s : System M) (cpu rcp : Bool)
      → ((step_domains m s cpu rcp).master_ticks ≡ s.master_ticks)
        × ((step_domains m s cpu rcp).phases ≡ s.phases)
  unfolding step_domains
  step_clock s cpu rcp =
      let P = λ (x : System M). (x.master_ticks ≡ s.master_ticks) × (x.phases ≡ s.phases) in
      let inner =
        if_keeps P (cpu && not (m.boot_nmi_halt s.machine))
          (record s { machine = m.tick_at (count_ticks s) s.machine }) s (refl, refl)
          (refl, refl) in
      if_keeps P rcp _ _ inner inner

  pub tick_idle :
      (s : System M)
      → IsIdle s.phases (s.master_ticks + 1)
      → tick_once s ≡ at s (s.master_ticks + 1)
  unfolding tick_once step_due_here step_domains
  tick_idle s h = rw (h.0, h.1) refl

  pub advance_idle :
      (n : ℕ) (s : System M)
      → ((tick : ℕ) → s.master_ticks < tick → tick ≤ s.master_ticks + n → IsIdle s.phases tick)
      → advance n s ≡ at s (s.master_ticks + n)
  unfolding advance
  advance_idle zero s h = let e : s.master_ticks ≡ s.master_ticks + 0 = omega arith in ap (at s) e
  advance_idle (suc n) s h =
      let e : s.master_ticks + 1 + n ≡ s.master_ticks + suc n = omega arith in
      ap (advance n) (tick_idle s (h (s.master_ticks + 1) (omega arith) (omega arith)))
      ∙ (advance_idle n (at s (s.master_ticks + 1)) (λ tick a b. h tick (omega arith) (omega arith))
          ∙ ap (at s) e)

  next_edge_idle :
      (s : System M)
      → (s.master_ticks < next_edge s)
        × ((tick : ℕ) → s.master_ticks < tick → tick < next_edge s → IsIdle s.phases tick)
  unfolding next_edge next_edge_after is_edge
  next_edge_idle s = (ground arith, λ tick a b. (ground arith, ground arith))

  -- `run_until` without its loop.
  abbrev settle : System M → ℕ → System M
  settle t target = if ltb t.master_ticks target then at t target else t

  settle_idle :
      (s : System M) (target : ℕ)
      → s.master_ticks ≤ target
      → target < next_edge s
      → settle s target ≡ advance (target - s.master_ticks) s
  settle_idle s target le lt =
      let e : s.master_ticks + (target - s.master_ticks) ≡ target = omega arith in
      let ticks =
        advance_idle (target - s.master_ticks) s
          (λ tick a b. (next_edge_idle s).1 tick a (omega arith)) in
      if_keeps_when (λ (t : System M). t ≡ advance (target - s.master_ticks) s)
        (ltb s.master_ticks target) _ _ (λ h. sym (ticks ∙ ap (at s) e))
        (λ h.
          let same : s.master_ticks ≡ target = ground arith in
          sym (ticks ∙ ap (at s) (e ∙ sym same)))

  next_edge_ticks :
      (s : System M) → step_to_next_edge m s ≡ advance (next_edge s - s.master_ticks) s
  unfolding step_to_next_edge tick_once advance
  next_edge_ticks s =
      let idle_to = next_edge_idle s in
      let n = next_edge s - s.master_ticks - 1 in
      let e : n + 1 ≡ next_edge s - s.master_ticks = omega (arith, idle_to.0) in
      let f : next_edge s ≡ s.master_ticks + n + 1 = omega (arith, idle_to.0) in
      ap (λ (t : ℕ). step_due_here m (at s t)) f
      ∙ (sym (
            ap tick_once
              (advance_idle n s (λ tick a b. idle_to.1 tick a (omega (arith, idle_to.0)))))
          ∙ (sym (advance_add n 1 s) ∙ ap (λ (t : ℕ). advance t s) e))

  step_moves : (s : System M) → (step_to_next_edge m s).master_ticks ≡ next_edge s
  unfolding step_to_next_edge step_due_here
  step_moves s = (step_clock (at s (next_edge s)) _ _).0

  edges_ticks :
      (fuel : ℕ) (s : System M) (target : ℕ)
      → s.master_ticks ≤ target
      → target ≤ s.master_ticks + fuel
      → settle (edges m fuel s target) target ≡ advance (target - s.master_ticks) s
  unfolding edges
  edges_ticks zero s target le h = settle_idle s target le (omega (arith, (next_edge_idle s).0))
  edges_ticks (suc fuel) s target le h =
      let onward = (next_edge_idle s).0 in
      let next = step_to_next_edge m s in
      let moved = step_moves s in
      elim (Bool-cases (leb (next_edge s) target)) [
        | inl due ↦ rw due (
            edges_ticks fuel next target (ground (arith, moved)) (omega (arith, moved, onward))
            ∙ (ap (λ (t : ℕ). advance (target - t) next) moved
                ∙ (ap (advance (target - next_edge s)) (next_edge_ticks s)
                    ∙ (sym (advance_add (next_edge s - s.master_ticks) (target - next_edge s) s)
                        ∙ ap (λ (t : ℕ). advance t s) (later s target onward due)))))
        | inr early ↦ rw early (settle_idle s target le (ground arith))
      ]
    where
      later :
          (s : System M) (target : ℕ)
          → s.master_ticks < next_edge s
          → leb (next_edge s) target ≡ true
          → next_edge s - s.master_ticks + (target - next_edge s) ≡ target - s.master_ticks
      later s target a b = ground arith

  -- A run up to a tick that is not past is as many single ticks of the master clock, each with the
  -- cycles that are due there: no edge is missed and none is run twice.
  pub run_until_ticks :
      (s : System M) (target : ℕ)
      → s.master_ticks ≤ target
      → run_until m s target ≡ advance (target - s.master_ticks) s
  unfolding run_until
  run_until_ticks s target le = edges_ticks (target - s.master_ticks) s target le (omega arith)

  -- A run up to a tick that is not ahead does nothing.
  pub run_until_past :
      (s : System M) (target : ℕ) → target ≤ s.master_ticks → run_until m s target ≡ s
  unfolding run_until edges
  run_until_past s target le =
      let e : target - s.master_ticks ≡ 0 = omega arith in
      ap (λ (fuel : ℕ). settle (edges m fuel s target) target) e
      ∙ if_keeps_when (λ (t : System M). t ≡ s) (ltb s.master_ticks target) _ _
          (λ h. absurd (ground arith)) (λ h. refl)
