-- ===== src/Rdp/Drain.antt =====
-- The queue of commands runs empty: Rdp::tick of crates/rustyn64-rdp/src/lib.rs.
use rusty_n.Base.{ℕ, zero, suc, ◌+◌, ◌-◌, ◌*◌, ◌%◌, ◌^◌, ◌≤◌, ◌<◌, ◌≡◌, refl, ap, ap₂, ◌∙◌, arith}
use rusty_n.Base.{Bool, true, false, List, [], ◌∷◌, ◌==◌, ltb, leb, if◌then◌else◌}
use rusty_n.Base.{add32, Bool-cases, inl, inr, ◌||◌}
use rusty_n.Rdp.{
  Rdp, opcode_of, command_len_words, is_running, stall_of, sync_full, tick_without_bus, dispatch,
  tick_with_bus, tick,
}

-- The steps that a list of commands takes: one for each, and the stalls.
pub steps_of : List ℕ → ℕ
steps_of [] = 0
steps_of (op ∷ ops) = 1 + stall_of op + steps_of ops

-- How often the interrupt is raised.
pub raises_of : List ℕ → ℕ
raises_of [] = 0
raises_of (op ∷ ops) = (if op == sync_full then 1 else 0) + raises_of ops

len_pos : (op : ℕ) → 8 ≤ command_len_words op * 8
unfolding command_len_words
len_pos op = ground arith

module _ {G : Type 0} (words : G → ℕ → ℕ) (draw : ℕ → ℕ → ℕ → ℕ → G → G) where
  -- `n` steps, with the number of interrupts raised.
  pub run : ℕ → Rdp G → Rdp G × ℕ
  run zero d = (d, 0)
  run (suc n) d =
      let (next, raised) = tick words draw d in
      let (last, count) = run n next in (last, (if raised then 1 else 0) + count)

  run-run :
      (m n : ℕ) (d : Rdp G)
      → ((run (m + n) d).0 ≡ (run n (run m d).0).0)
        × ((run (m + n) d).1 ≡ (run m d).1 + (run n (run m d).0).1)
  unfolding run
  run-run zero n d = let e : 0 + n ≡ n = omega arith in rw e (refl, omega arith)
  run-run (suc m) n d =
      let e : suc m + n ≡ suc (m + n) = omega arith in
      let ih = run-run m n (tick words draw d).0 in rw e (ih.0, omega (arith, ih.1))

  -- The stall runs off, one cycle for each step.
  stall_tick :
      (n : ℕ) (d : Rdp G)
      → is_running d.status ≡ true
      → d.stall ≡ suc n
      → tick words draw d ≡ (record d { stall = n }, false)
  unfolding tick tick_without_bus
  stall_tick n d h e =
      let pos : ltb 0 (suc n) ≡ true = ground arith in
      let less : suc n - 1 ≡ n = omega arith in rw (h, e, pos, less) refl

  stalled :
      (n : ℕ) (d : Rdp G)
      → is_running d.status ≡ true
      → d.stall ≡ n
      → ((run n d).0 ≡ record d { stall = 0 }) × ((run n d).1 ≡ 0)
  unfolding run tick tick_without_bus
  stalled zero d h e = (ap (λ (s : ℕ). record d { stall = s }) e, refl)
  stalled (suc n) d h e =
      let less = record d { stall = n } in
      let ih = stalled n less h refl in
      let step = stall_tick n d h e in rw step (ih.0, omega (arith, ih.1))

  -- A step, a stall that leads to a state, and what follows from there.
  step_then :
      (s n : ℕ) (d last : Rdp G) (after : Rdp G × Bool)
      → tick words draw d ≡ after
      → (run s after.0).0 ≡ last
      → (run s after.0).1 ≡ 0
      → ((run (1 + s + n) d).0 ≡ (run n last).0)
        × ((run (1 + s + n) d).1 ≡ (if after.1 then 1 else 0) + (run n last).1)
  unfolding run
  step_then s n d last after took rests quiet =
      let whole = run-run (suc s) n d in
      let sum : 1 + s + n ≡ suc s + n = omega arith in
      let here : (run s (tick words draw d).0).0 ≡ last = rw took rests in
      let count : (if (tick words draw d).1 then 1 else 0) + (run s (tick words draw d).0).1
          ≡ (if after.1 then 1 else 0) =
        rw (took, quiet) (omega arith) in
      rw sum (
        whole.0 ∙ ap (λ (e : Rdp G). (run n e).0) here,
        whole.1 ∙ ap₂ (λ (a : ℕ) (e : Rdp G). a + (run n e).1) count here,
      )

  -- What a command at an address does to the rest of the chip and the memory.
  pub effect : ℕ → ℕ → G → G
  effect op cur g =
      if (op == 0x26) || ((op == 0x27) || (op == 0x28))
      then g
      else if op == sync_full
      then g
      else draw op (words g cur) (words g (add32 cur 4)) cur g

  -- From an address on and with the memory as it is, the commands found one after the other have
  -- these opcodes, each read from the memory that the ones before it left, and lead to an address
  -- and a memory.
  pub Fetched : G → ℕ → List ℕ → ℕ → G → Type 0
  Fetched g cur [] stop last = (cur ≡ stop) × (g ≡ last)
  Fetched g cur (op ∷ ops) stop last =
      (opcode_of (words g cur) ≡ op)
      × Fetched (effect op cur g) (cur + command_len_words op * 8) ops stop last

  -- No whole command is left before the end.
  abbrev pub IsSpent : G → ℕ → ℕ → Type 0
  IsSpent g stop end = end - stop < command_len_words (opcode_of (words g stop)) * 8

  dispatched :
      (d : Rdp G) (op hi lo base : ℕ)
      → d.stall ≡ 0
      → ((dispatch words draw d op hi lo base).0.cmd_current ≡ d.cmd_current)
        × ((dispatch words draw d op hi lo base).0.cmd_end ≡ d.cmd_end)
        × ((dispatch words draw d op hi lo base).0.status ≡ d.status)
        × ((dispatch words draw d op hi lo base).0.stall ≡ stall_of op)
        × ((dispatch words draw d op hi lo base).1 ≡ (op == sync_full))
        × ((dispatch words draw d op hi lo base).0.rest ≡ (
            if (op == 0x26) || ((op == 0x27) || (op == 0x28))
            then d.rest
            else if op == sync_full
            then d.rest
            else draw op hi lo base d.rest))
  unfolding dispatch stall_of
  dispatched d op hi lo base e =
      (ground arith, ground arith, ground arith, ground (arith, e), ground (arith), ground (arith))

  -- The state that a command is dispatched in.
  abbrev taken : Rdp G → ℕ → Rdp G
  taken d op = record d {
    cmd_current = d.cmd_current + command_len_words op * 8;
    commands_processed = (d.commands_processed + 1) % 2 ^ 64;
  }

  one :
      (d : Rdp G) (op : ℕ)
      → is_running d.status ≡ true
      → d.stall ≡ 0
      → opcode_of (words d.rest d.cmd_current) ≡ op
      → d.cmd_current + command_len_words op * 8 ≤ d.cmd_end
      → d.cmd_end < 2 ^ 32
      → tick words draw d
        ≡ dispatch words draw
            (taken d op)
            op
            (words d.rest d.cmd_current)
            (words d.rest (add32 d.cmd_current 4))
            d.cmd_current
  unfolding tick tick_without_bus tick_with_bus
  one d op h e o le lt =
      let pos : 8 ≤ command_len_words op * 8 = len_pos op in
      let some_left : leb d.cmd_end d.cmd_current ≡ false = ground (arith, pos) in
      let fits : ltb (d.cmd_end - d.cmd_current) (command_len_words op * 8) ≡ false =
        ground arith in
      let wrap : add32 d.cmd_current (command_len_words op * 8)
          ≡ d.cmd_current + command_len_words op * 8 =
        omega arith in
      rw (h, e, some_left, o, fits, wrap) refl

  -- What a run of the queue amounts to.
  abbrev pub Drained : Rdp G → List ℕ → ℕ → G → Type 0
  Drained d ops stop last =
      Fetched d.rest d.cmd_current ops stop last
      × IsSpent last stop d.cmd_end
      × ((run (steps_of ops) d).0.cmd_current ≡ stop)
      × ((run (steps_of ops) d).0.rest ≡ last)
      × ((run (steps_of ops) d).0.stall ≡ 0)
      × ((run (steps_of ops) d).1 ≡ raises_of ops)

  -- The state after a command and its stall.
  abbrev next : Rdp G → ℕ → Rdp G
  next d op =
      record (dispatch words draw (taken d op) op (words d.rest d.cmd_current)
        (words d.rest (add32 d.cmd_current 4)) d.cmd_current).0 { stall = 0 }

  next_lem :
      (d : Rdp G) (op : ℕ)
      → d.stall ≡ 0
      → ((next d op).cmd_current ≡ d.cmd_current + command_len_words op * 8)
        × ((next d op).cmd_end ≡ d.cmd_end)
        × ((next d op).status ≡ d.status)
        × ((next d op).rest ≡ effect op d.cmd_current d.rest)
  unfolding effect
  next_lem d op e =
      let hi = words d.rest d.cmd_current in
      let lo = words d.rest (add32 d.cmd_current 4) in
      let facts = dispatched (taken d op) op hi lo d.cmd_current e in
      (facts.0, facts.1, facts.2, facts.5)

  one_more :
      (d : Rdp G) (op : ℕ) (ops : List ℕ) (stop : ℕ) (last : G)
      → is_running d.status ≡ true
      → d.stall ≡ 0
      → opcode_of (words d.rest d.cmd_current) ≡ op
      → d.cmd_current + command_len_words op * 8 ≤ d.cmd_end
      → d.cmd_end < 2 ^ 32
      → Drained (next d op) ops stop last
      → Drained d (op ∷ ops) stop last
  unfolding Fetched steps_of raises_of
  one_more d op ops stop last h e o le lt ih =
      let hi = words d.rest d.cmd_current in
      let lo = words d.rest (add32 d.cmd_current 4) in
      let took = one d op h e o le lt in
      let facts = dispatched (taken d op) op hi lo d.cmd_current e in
      let after = dispatch words draw (taken d op) op hi lo d.cmd_current in
      let pause = stalled (stall_of op) after.0 (ap is_running facts.2 ∙ h) facts.3 in
      let new = next_lem d op e in
      let whole = step_then (stall_of op) (steps_of ops) d (next d op) after took pause.0 pause.1 in
      let fetched : Fetched (effect op d.cmd_current d.rest)
          (d.cmd_current + command_len_words op * 8) ops stop last =
        rw (← new.3, ← new.0) ih.0 in
      (
        (o, fetched),
        rw (← new.1) ih.1,
        ap (λ (x : Rdp G). x.cmd_current) whole.0 ∙ ih.2,
        ap (λ (x : Rdp G). x.rest) whole.0 ∙ ih.3,
        ap (λ (x : Rdp G). x.stall) whole.0 ∙ ih.4,
        rw (whole.1) (rw (facts.4, ih.5) refl),
      )

  drained :
      (fuel : ℕ) (d : Rdp G)
      → is_running d.status ≡ true
      → d.stall ≡ 0
      → d.cmd_end < 2 ^ 32
      → d.cmd_end - d.cmd_current ≤ fuel
      → (ops : List ℕ) × (stop : ℕ) × (last : G) × Drained d ops stop last
  unfolding run steps_of raises_of Fetched
  drained zero d h e lt enough =
      let pos = len_pos (opcode_of (words d.rest d.cmd_current)) in
      ([], d.cmd_current, d.rest, ((refl, refl), omega (arith, pos, enough), refl, refl, e, refl))
  drained (suc fuel) d h e lt enough =
      let op = opcode_of (words d.rest d.cmd_current) in
      let len = command_len_words op * 8 in
      let pos = len_pos op in
      let new = next_lem d op e in
      elim (Bool-cases (ltb (d.cmd_end - d.cmd_current) len)) [
        | inl short ↦
            ([], d.cmd_current, d.rest, ((refl, refl), ground (arith, short), refl, refl, e, refl))
        | inr whole ↦
            let le : d.cmd_current + len ≤ d.cmd_end = ground (arith, pos, whole) in
            let ih =
              drained fuel (next d op) (ap is_running new.2 ∙ h) refl (rw (new.1) lt)
                (omega (arith, new.0, new.1, pos, le, enough)) in
            (op ∷ ih.0, ih.1, ih.2, one_more d op ih.0 ih.1 ih.2 h e refl le lt ih.3)
      ]

  -- The queue of a chip that runs and is not stalled, with an end address of 32 bits, runs until
  -- no whole command is left before that address: from the command pointer on there are commands,
  -- each read from the memory as the drawing of the ones before it left it, which the chip takes
  -- in order. After one step for each and the cycles of the stalls, the pointer stands behind
  -- them, the rest of the chip and the memory are as they left them, no stall is left, and the
  -- interrupt has been raised once for each full sync. Nothing is supposed of the drawing, which
  -- may change the commands.
  pub drain :
      (d : Rdp G)
      → is_running d.status ≡ true
      → d.stall ≡ 0
      → d.cmd_end < 2 ^ 32
      → (ops : List ℕ) × (stop : ℕ) × (last : G) × Drained d ops stop last
  drain d h e lt = drained (d.cmd_end - d.cmd_current) d h e lt (omega arith)
