-- ===== src/Cpu/Cop0/Random.antt =====
-- The random register: `tick_random` and `tick_random_by` of crates/rustyn64-cpu/src/cop0.rs.
use rusty_n.Base.{
  ℕ, zero, suc, ◌+◌, ◌-◌, ◌%◌, ◌≤◌, ◌<◌, ◌≡◌, refl, ap, subst, ◌∙◌, sym, arith, ◌⊎◌, inl, inr,
}
use rusty_n.Base.{leb, ◌==◌, if◌then◌else◌, bit_and, bit_and_low, sub32, u32}
use rusty_n.Cpu.Cop0.{Cop0, update, set_random, tick_random, tick_random_by, reg_random, reg_wired}
use mathlib.Core.Path.{fun_ext}
use native.Mathlib.Nat.{suc-mod, mod_self, mod-eq_of_lt, mod-lt, zero-mod}

low_six : (x : ℕ) → bit_and x 0x3f ≡ x % 64
low_six x = bit_and_low 6 x

-- The value that one cycle leaves, and the value that `n` cycles leave, of six-bit registers.
once : ℕ → ℕ → ℕ
once wired cur = if cur == wired then 31 else bit_and (sub32 cur 1) 0x3f

at_once : ℕ → ℕ → ℕ → ℕ
at_once wired cur n =
    let d = bit_and (sub32 cur wired) 0x3f in
    let cycle = bit_and (sub32 31 wired) 0x3f + 1 in
    let into = (n - d - 1) % cycle in
    if leb n d then bit_and (sub32 cur (u32 n)) 0x3f else bit_and (sub32 31 (u32 into)) 0x3f

cycle_next : (m c : ℕ) → 0 < c → suc m % c ≡ (if m % c + 1 == c then 0 else m % c + 1)
cycle_next m c h = suc-mod m c ∙ elim (cases (m % c) (mod-lt m h)) [
  | inl last ↦ ap (λ (t : ℕ). t % c) last ∙ (mod_self c ∙ ground arith)
  | inr more ↦ mod-eq_of_lt more ∙ ground arith
]
  where
    cases : (r : ℕ) → r < c → (suc r ≡ c) ⊎ (suc r < c)
    cases r k = omega arith

at_once_zero : (wired cur : ℕ) → cur < 64 → at_once wired cur 0 ≡ cur
unfolding at_once
at_once_zero wired cur h =
    ground (arith, low_six cur, low_six (sub32 cur wired), low_six (sub32 cur (u32 0)))

distance : (a b : ℕ) → a < 64 → b < 64 → bit_and (sub32 a b) 0x3f ≡ (a + 64 - b) % 64
distance a b h k = low_six (sub32 a b) ∙ omega arith

-- The value after `n` cycles, from the distance `d` down to the wired value and the length `c` of the
-- cycle from 31 down to it.
value : ℕ → ℕ → ℕ → ℕ → ℕ
value cur d c n =
    if leb n d
    then bit_and (sub32 cur (u32 n)) 0x3f
    else bit_and (sub32 31 (u32 ((n - d - 1) % c))) 0x3f

value_down : (cur d c n : ℕ) → cur < 64 → d < 64 → n ≤ d → value cur d c n ≡ (cur + 64 - n) % 64
unfolding value
value_down cur d c n hc hd h = ground (arith, low_six (sub32 cur (u32 n)))

value_around : (cur d c m : ℕ) → 0 < c → c ≤ 64 → value cur d c (suc (d + m)) ≡ (95 - m % c) % 64
unfolding value
value_around cur d c m hc h = ground (arith, low_six (sub32 31 (u32 (m % c))), into, mod-lt m hc)
  where
    into : (suc (d + m) - d - 1) % c ≡ m % c
    into = ap (λ (t : ℕ). t % c) (omega arith)

once_lem :
    (wired cur : ℕ)
    → wired < 64
    → cur < 64
    → once wired cur ≡ (if cur == wired then 31 else (cur + 63) % 64)
unfolding once
once_lem wired cur hw hc = ground (arith, low_six (sub32 cur 1))

module _ (wired cur d c : ℕ) (hw : wired < 64) (hc : cur < 64) (hd : d ≡ (cur + 64 - wired) % 64)
    (hl : c ≡ (95 - wired) % 64 + 1) where
  value_above : (n : ℕ) → n < d → value cur d c (suc n) ≡ once wired (value cur d c n)
  value_above n above =
      value_down cur d c (suc n) hc (omega arith) (omega arith)
      ∙ sym (
          ap (once wired) (value_down cur d c n hc (omega arith) (omega arith))
          ∙ (once_lem wired ((cur + 64 - n) % 64) hw (omega arith) ∙ ground arith))

  value_at : (n : ℕ) → n ≡ d → value cur d c (suc n) ≡ once wired (value cur d c n)
  value_at n at =
      let first : value cur d c (suc n) ≡ 31 =
        ap (λ (t : ℕ). value cur d c (suc t)) (omega arith)
        ∙ (value_around cur d c 0 (omega arith) (omega arith) ∙ omega (arith, zero-mod c)) in
      first
      ∙ sym (
          ap (once wired) (value_down cur d c n hc (omega arith) (omega arith))
          ∙ (once_lem wired ((cur + 64 - n) % 64) hw (omega arith) ∙ ground arith))

  value_below :
      (m : ℕ) → value cur d c (suc (suc (d + m))) ≡ once wired (value cur d c (suc (d + m)))
  value_below m =
      ap (λ (t : ℕ). value cur d c (suc t)) (omega arith)
      ∙ (value_around cur d c (suc m) (omega arith) (omega arith)
          ∙ sym (
              ap (once wired) (value_around cur d c m (omega arith) (omega arith))
              ∙ (once_lem wired ((95 - m % c) % 64) hw (omega arith)
                  ∙ ground (arith, cycle_next m c, mod-lt m {m = c}))))

  value-suc : (n : ℕ) → value cur d c (suc n) ≡ once wired (value cur d c n)
  value-suc n = elim (cases n) [
    | inl above ↦ value_above n above
    | inr (inl at) ↦ value_at n at
    | inr (inr below) ↦
        subst (λ (t : ℕ). value cur d c (suc t) ≡ once wired (value cur d c t)) (omega arith)
          (value_below (n - suc d))
  ]
    where
      cases : (n : ℕ) → (n < d) ⊎ ((n ≡ d) ⊎ (d < n))
      cases n = omega arith

at_once-suc :
    (wired cur n : ℕ)
    → wired < 64
    → cur < 64
    → at_once wired cur (suc n) ≡ once wired (at_once wired cur n)
unfolding at_once value
at_once-suc wired cur n hw hc =
    value-suc wired cur (bit_and (sub32 cur wired) 0x3f) (bit_and (sub32 31 wired) 0x3f + 1) hw hc
      (distance cur wired hc hw) (omega (arith, distance 31 wired (omega arith) hw)) n

-- `n` single cycles.
pub ticks : ℕ → Cop0 → Cop0
ticks zero c = c
ticks (suc n) c = tick_random (ticks n c)

update_twice : (regs : ℕ → ℕ) (i a b : ℕ) → update (update regs i a) i b ≡ update regs i b
update_twice regs i a b = fun_ext (λ n. ground arith)

update_same : (regs : ℕ → ℕ) (i : ℕ) → update regs i (regs i) ≡ regs
update_same regs i = fun_ext (λ n. ground (arith, ap regs))

-- The two ticks in terms of the register values.
tick_random_lem :
    (c : Cop0)
    → tick_random c
      ≡ set_random c (once (bit_and (c.regs reg_wired) 0x3f) (bit_and (c.regs reg_random) 0x3f))
unfolding tick_random once
tick_random_lem c = refl

tick_random_by_lem :
    (c : Cop0) (n : ℕ)
    → tick_random_by c n
      ≡ set_random c
          (at_once (bit_and (c.regs reg_wired) 0x3f) (bit_and (c.regs reg_random) 0x3f) n)
unfolding tick_random_by at_once
tick_random_by_lem c n = refl

at_once-lt : (wired cur n : ℕ) → at_once wired cur n < 64
unfolding at_once
at_once-lt wired cur n =
    let d = bit_and (sub32 cur wired) 0x3f in
    let into = (n - d - 1) % (bit_and (sub32 31 wired) 0x3f + 1) in
    ground (arith, low_six (sub32 cur (u32 n)), low_six (sub32 31 (u32 into)))

tick_random_by-suc :
    (c : Cop0) (n : ℕ) → tick_random_by c (suc n) ≡ tick_random (tick_random_by c n)
tick_random_by-suc c n =
    let wired = bit_and (c.regs reg_wired) 0x3f in
    let cur = bit_and (c.regs reg_random) 0x3f in
    let v = at_once wired cur n in
    let settled : bit_and v 0x3f ≡ v = low_six v ∙ mod-eq_of_lt (at_once-lt wired cur n) in
    let next : at_once wired cur (suc n) ≡ once wired (bit_and v 0x3f) =
      at_once-suc wired cur n (omega (arith, low_six (c.regs reg_wired)))
        (omega (arith, low_six (c.regs reg_random)))
      ∙ ap (once wired) (sym settled) in
    tick_random_by_lem c (suc n)
    ∙ (ap (set_random c) next
        ∙ (ap (λ (r : ℕ → ℕ). record c { regs = r })
              (sym (update_twice c.regs reg_random v (once wired (bit_and v 0x3f))))
            ∙ sym (ap tick_random (tick_random_by_lem c n) ∙ tick_random_lem (set_random c v))))

-- From a random register below 64, the closed form for `n` cycles leaves what `n` single cycles
-- leave, however the cycles wrap around between 31 and the wired value.
pub tick_random_by-ticks :
    (c : Cop0) (n : ℕ) → c.regs reg_random < 64 → tick_random_by c n ≡ ticks n c
unfolding ticks
tick_random_by-ticks c zero h =
    let wired = bit_and (c.regs reg_wired) 0x3f in
    let cur = bit_and (c.regs reg_random) 0x3f in
    let same : at_once wired cur 0 ≡ c.regs reg_random =
      at_once_zero wired cur (omega (arith, low_six (c.regs reg_random)))
      ∙ (low_six (c.regs reg_random) ∙ mod-eq_of_lt h) in
    tick_random_by_lem c 0
    ∙ (ap (set_random c) same
        ∙ ap (λ (r : ℕ → ℕ). record c { regs = r }) (update_same c.regs reg_random))
tick_random_by-ticks c (suc n) h =
    tick_random_by-suc c n ∙ ap tick_random (tick_random_by-ticks c n h)
