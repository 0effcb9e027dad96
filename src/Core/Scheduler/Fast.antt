-- ===== src/Core/Scheduler/Fast.antt =====
-- The replayed pattern of edges: `run_until_fast` of crates/rustyn64-core/src/scheduler.rs.
use rusty_n.Base.{
  ℕ, zero, suc, ◌+◌, ◌-◌, ◌*◌, ◌≤◌, ◌<◌, ◌≡◌, refl, ap, ap₂, subst, ◌∙◌, sym, arith, ◌⊎◌, inl, inr,
}
use rusty_n.Base.{Bool, ◌||◌, leb, if_keeps_when, List, ◌∷◌}
use rusty_n.Core.Scheduler.{
  Machine, System, Phases, at, is_edge, step_domains, run_until, run_until_fast, pattern_from, slot,
  replay, blocks, edge_period,
}
use rusty_n.Core.Scheduler.Ticks.{
  advance, advance_add, advance_zero, advance_one, advance_idle, tick_idle, tick_due, IsIdle,
  run_until_ticks, run_until_past, step_clock,
}

-- The pattern repeats.
edge_period_2 : (t j ph : ℕ) → is_edge (t + 6 * j) ph 2 ≡ is_edge t ph 2
unfolding is_edge
edge_period_2 t j ph = ground arith

edge_period_3 : (t j ph : ℕ) → is_edge (t + 6 * j) ph 3 ≡ is_edge t ph 3
unfolding is_edge
edge_period_3 t j ph = ground arith

pattern_shift :
    (n start j i : ℕ) (p : Phases) → pattern_from start p i n ≡ pattern_from (start + 6 * j) p i n
unfolding pattern_from
pattern_shift zero start j i p = refl
pattern_shift (suc n) start j i p =
    let e : start + i + 1 + 6 * j ≡ start + 6 * j + i + 1 = omega arith in
    ap₂ (λ (x : Bool × Bool) (xs : List (Bool × Bool)). x ∷ xs)
      (ap₂ (λ (x y : Bool). (x, y))
        (sym (edge_period_2 (start + i + 1) j p.cpu) ∙ ap (λ (t : ℕ). is_edge t p.cpu 2) e)
        (sym (edge_period_3 (start + i + 1) j p.rcp) ∙ ap (λ (t : ℕ). is_edge t p.rcp 3) e))
      (pattern_shift n start j (i + 1) p)

module _ {M : Type 0} (m : Machine M) where
  -- A clock that stands at the last edge up to `base`.
  record Lags (s : System M) (base : ℕ) : Type 0 where
    behind : s.master_ticks ≤ base
    quiet : (tick : ℕ) → s.master_ticks < tick → tick ≤ base → IsIdle s.phases tick

  -- A run of `n` ticks from tick `t` on, which left the clock at its last edge.
  record Ran (s : System M) (t n : ℕ) (r : System M) : Type 0 where
    lags : Lags r (t + n)
    same : at r (t + n) ≡ advance m n (at s t)
    phases : r.phases ≡ s.phases

  nothing-Ran : (s : System M) (t : ℕ) → Lags s t → Ran s t 0 s
  nothing-Ran s t h =
      let e : t ≡ t + 0 = omega arith in
      record {
        lags = subst (Lags s) e h;
        same = ap (at s) (sym e) ∙ sym (advance_zero m (at s t));
        phases = refl;
      }

  Ran-trans : (s x r : System M) (t j n : ℕ) → Ran s t j x → Ran x (t + j) n r → Ran s t (j + n) r
  Ran-trans s x r t j n a b =
      let e : t + j + n ≡ t + (j + n) = omega arith in
      record {
        lags = subst (Lags r) e b.lags;
        same =
            ap (at r) (sym e)
            ∙ (b.same ∙ (ap (advance m n) a.same ∙ sym (advance_add m j n (at s t))));
        phases = b.phases ∙ a.phases;
      }

  due-Ran :
      (s : System M) (t : ℕ) (c r : Bool)
      → c ≡ is_edge (t + 1) s.phases.cpu 2
      → r ≡ is_edge (t + 1) s.phases.rcp 3
      → Ran s t 1 (step_domains m (at s (t + 1)) c r)
  due-Ran s t c r ec er =
      let x = step_domains m (at s (t + 1)) c r in
      let clock = step_clock m (at s (t + 1)) c r in
      record {
        lags = record {
          behind = omega (arith, clock.0);
          quiet = λ tick a b. absurd (omega (arith, clock.0));
        };
        same =
            ap (at x) (sym clock.0)
            ∙ (ap₂ (λ (u v : Bool). step_domains m (at s (t + 1)) u v) ec er
                ∙ (sym (tick_due m (at s t)) ∙ sym (advance_one m (at s t))));
        phases = clock.1;
      }

  quiet-Ran : (s : System M) (t : ℕ) → Lags s t → IsIdle s.phases (t + 1) → Ran s t 1 s
  quiet-Ran s t h none = record {
    lags = record {
      behind = omega (arith, h.behind);
      quiet = λ tick a b. elim (cases_le tick t b) [
        | inl le ↦ h.quiet tick a le
        | inr last ↦ subst (IsIdle s.phases) (sym last) none
      ];
    };
    same = sym (tick_idle m (at s t) none) ∙ sym (advance_one m (at s t));
    phases = refl;
  }
    where
      cases_le : (x y : ℕ) → x ≤ y + 1 → (x ≤ y) ⊎ (x ≡ y + 1)
      cases_le x y le = omega arith

  slot-Ran :
      (s : System M) (base i : ℕ) (c r : Bool)
      → c ≡ is_edge (base + i + 1) s.phases.cpu 2
      → r ≡ is_edge (base + i + 1) s.phases.rcp 3
      → Lags s (base + i)
      → Ran s (base + i) 1 (slot m s base i (c, r))
  unfolding slot
  slot-Ran s base i c r ec er h =
      if_keeps_when (Ran s (base + i) 1) (c || r) _ _ (λ due. due-Ran s (base + i) c r ec er)
        (λ none.
          quiet-Ran s (base + i) h (ground (arith, none, ec, er), ground (arith, none, ec, er)))

  replay-Ran :
      (n : ℕ) (s : System M) (base i : ℕ) (p : Phases)
      → s.phases ≡ p
      → Lags s (base + i)
      → Ran s (base + i) n (replay m s base i (pattern_from base p i n))
  unfolding replay pattern_from
  replay-Ran zero s base i p e h = nothing-Ran s (base + i) h
  replay-Ran (suc n) s base i p e h =
      let c = is_edge (base + i + 1) p.cpu 2 in
      let r = is_edge (base + i + 1) p.rcp 3 in
      let x = slot m s base i (c, r) in
      let first =
        slot-Ran s base i c r (ap (λ (q : Phases). is_edge (base + i + 1) q.cpu 2) (sym e))
          (ap (λ (q : Phases). is_edge (base + i + 1) q.rcp 3) (sym e)) h in
      let at_next : base + i + 1 ≡ base + (i + 1) = omega arith in
      let rest =
        replay-Ran n x base (i + 1) p (first.phases ∙ e) (subst (Lags x) at_next first.lags) in
      let last = replay m x base (i + 1) (pattern_from base p (i + 1) n) in
      let count : 1 + n ≡ suc n = omega arith in
      subst (λ (k : ℕ). Ran s (base + i) k last) count
        (Ran-trans s x last (base + i) 1 n first
          (subst (λ (t : ℕ). Ran x t n last) (sym at_next) rest))

  period-Ran :
      (j : ℕ) (s : System M) (start : ℕ) (p : Phases)
      → s.phases ≡ p
      → Lags s (start + 6 * j)
      → Ran s (start + 6 * j) 6 (replay m s (start + 6 * j) 0 (pattern_from start p 0 edge_period))
  period-Ran j s start p e h =
      let base = start + 6 * j in
      let zero_on : base ≡ base + 0 = omega arith in
      let ran = replay-Ran 6 s base 0 p e (subst (Lags s) zero_on h) in
      subst (λ (ps : List (Bool × Bool)). Ran s base 6 (replay m s base 0 ps))
        (sym (pattern_shift 6 start j 0 p))
        (subst (λ (t : ℕ). Ran s t 6 (replay m s base 0 (pattern_from base p 0 6))) (sym zero_on)
          ran)

  lag_run :
      (r : System M) (base target : ℕ)
      → Lags r base
      → base ≤ target
      → run_until m r target ≡ advance m (target - base) (at r base)
  lag_run r base target h le =
      let e : target - r.master_ticks ≡ base - r.master_ticks + (target - base) =
        omega (arith, h.behind) in
      let to_base : r.master_ticks + (base - r.master_ticks) ≡ base = omega (arith, h.behind) in
      run_until_ticks m r target (omega (arith, h.behind))
      ∙ (ap (λ (t : ℕ). advance m t r) e
          ∙ (advance_add m (base - r.master_ticks) (target - base) r
              ∙ ap (advance m (target - base)) (
                  advance_idle m (base - r.master_ticks) r
                    (λ tick a b. h.quiet tick a (omega (arith, to_base)))
                  ∙ ap (at r) to_base)))

  -- The blocks of a run: how many ticks they took, within the target.
  blocks-Ran :
      (fuel j : ℕ) (s : System M) (start target : ℕ) (p : Phases)
      → s.phases ≡ p
      → start + 6 * j ≤ target
      → Lags s (start + 6 * j)
      → (n : ℕ) × (start + 6 * j + n ≤ target)
        × Ran s
            (start + 6 * j)
            n
            (blocks m fuel s (start + 6 * j) target (pattern_from start p 0 edge_period))
  unfolding blocks
  blocks-Ran zero j s start target p e le h = (0, omega arith, nothing-Ran s (start + 6 * j) h)
  blocks-Ran (suc fuel) j s start target p e le h =
      let base = start + 6 * j in
      let pattern = pattern_from start p 0 edge_period in
      let x = replay m s base 0 pattern in
      let first = period-Ran j s start p e h in
      let on : base + 6 ≡ start + 6 * suc j = omega arith in
      if_keeps_when (λ (r : System M). (n : ℕ) × (base + n ≤ target) × Ran s base n r)
        (leb (base + 6) target) _ _
        (λ due.
          let rest =
            blocks-Ran fuel (suc j) x start target p (first.phases ∙ e) (ground (arith, due))
              (subst (Lags x) on first.lags) in
          let there =
            subst
              (λ (t : ℕ). (n : ℕ) × (t + n ≤ target) × Ran x t n (blocks m fuel x t target pattern))
              (sym on) rest in
          (
            6 + there.0,
            omega (arith, there.1),
            Ran-trans s x (blocks m fuel x (base + 6) target pattern) base 6 there.0 first there.2,
          ))
        (λ early. (0, omega arith, nothing-Ran s base h))

  -- The run with the replayed pattern is the run edge by edge, from any clock and phases and to any
  -- target: the machine, the clock and the phases are the same.
  pub run_until_fast_lem :
      (s : System M) (target : ℕ) → run_until_fast m s target ≡ run_until m s target
  unfolding run_until_fast
  run_until_fast_lem s target =
      if_keeps_when (λ (r : System M). r ≡ run_until m s target) (leb target s.master_ticks) _ _
        (λ past. sym (run_until_past m s target (ground (arith, past))))
        (λ ahead.
          let here = s.master_ticks in
          let start : here ≡ here + 6 * 0 = omega arith in
          let pattern = pattern_from here s.phases 0 edge_period in
          let le : here ≤ target = ground (arith, ahead) in
          let lags : Lags s here = record {
            behind = omega arith;
            quiet = λ tick a b. absurd (omega arith);
          } in
          let ran =
            subst
              (λ (t : ℕ).
                (n : ℕ) × (t + n ≤ target)
                × Ran s t n (blocks m (target - here) s t target pattern))
              (sym start)
              (blocks-Ran (target - here) 0 s here target s.phases refl (omega arith)
                (subst (Lags s) start lags)) in
          let t = blocks m (target - here) s here target pattern in
          let total : ran.0 + (target - (here + ran.0)) ≡ target - here = omega (arith, ran.1) in
          lag_run t (here + ran.0) target ran.2.lags ran.1
          ∙ (ap (advance m (target - (here + ran.0))) ran.2.same
              ∙ (sym (advance_add m ran.0 (target - (here + ran.0)) s)
                  ∙ (ap (λ (n : ℕ). advance m n s) total ∙ sym (run_until_ticks m s target le)))))
