-- ===== src/Rsp/Sp/Status.antt =====
-- The flag word under writes in the set and clear layout.
use rusty_n.Base.{ℕ, zero, suc, ◌+◌, ◌-◌, ◌*◌, ◌^◌, ◌≤◌, ◌<◌, ◌≡◌, refl, ap, arith, bit_and}
use rusty_n.Base.{true, false, none, some, ◌&&◌, if◌then◌else◌, ◌==◌, ltb, leb}
use rusty_n.Base.{bit, bit-bit_and, bit-bit_or, bit-pow, bit-not32, any_set_pow, bit-lt-two, not32}
use native.Mathlib.Numerals.{towards_suc}
use rusty_n.Rsp.Sp.{
  apply, signals, clear_broke, write_status, interrupt_change, status_halted, status_sstep,
  status_intbreak, status_sig0, SpRegs, set_pc, set_broke, set_halted,
}

-- A flag under its clear digit and its set digit: both together leave it alone.
abbrev pub next_flag : ℕ → ℕ → ℕ → ℕ
next_flag clr set b =
    if (clr == 1) && (set == 1) then b else if clr == 1 then 0 else if set == 1 then 1 else b

apply_lem :
    (status val c d j k : ℕ)
    → j < 32
    → k < 32
    → bit k (apply status val (2 ^ c) (2 ^ d) (2 ^ j))
      ≡ (if k == j then next_flag (bit c val) (bit d val) (bit k status) else bit k status)
unfolding apply
apply_lem status val c d j k hj hk = ground (
  arith,
  any_set_pow c val,
  any_set_pow d val,
  bit-bit_and k status (not32 (2 ^ j)),
  bit-bit_or k status (2 ^ j),
  bit-pow k j hk hj,
  bit-not32 k j hk hj,
  bit-lt-two k status,
)

clear_broke_lem :
    (status val k : ℕ)
    → k < 32
    → bit k (clear_broke status val)
      ≡ (if k == 1 then (if bit 2 val == 1 then 0 else bit k status) else bit k status)
unfolding clear_broke
clear_broke_lem status val k hk = ground (
  arith,
  any_set_pow 2 val,
  bit-bit_and k status (not32 (2 ^ 1)),
  bit-not32 k 1 hk (omega arith),
  bit-lt-two k status,
)

signal_flag : (n : ℕ) → status_sig0 * 2 ^ n ≡ 2 ^ (n + 7)
signal_flag n = simp towards_suc (omega arith)

signal_lem :
    (status val n k : ℕ)
    → n < 8
    → k < 32
    → bit k (apply status val (2 ^ (9 + 2 * n)) (2 ^ (10 + 2 * n)) (status_sig0 * 2 ^ n)) ≡ (
        if k == n + 7
        then next_flag (bit (9 + 2 * n) val) (bit (10 + 2 * n) val) (bit k status)
        else bit k status)
signal_lem status val n k hn hk =
    rw (signal_flag n) (apply_lem status val (9 + 2 * n) (10 + 2 * n) (n + 7) k (omega arith) hk)

digit_of : (val i j : ℕ) → i ≡ j → bit i val ≡ bit j val
digit_of val i j e = ap (λ (t : ℕ). bit t val) e

signals_lem :
    (rounds n status val k : ℕ)
    → n + rounds ≤ 8
    → k < 32
    → bit k (signals rounds n status val) ≡ (
        if leb (n + 7) k && ltb k (n + rounds + 7)
        then next_flag (bit (2 * k - 5) val) (bit (2 * k - 4) val) (bit k status)
        else bit k status)
unfolding signals
signals_lem zero n status val k hn hk = ground arith
signals_lem (suc rounds) n status val k hn hk = ground (
  arith,
  signals_lem rounds (n + 1)
      (apply status val (2 ^ (9 + 2 * n)) (2 ^ (10 + 2 * n)) (status_sig0 * 2 ^ n)) val k,
  signal_lem status val n k,
  digit_of val (2 * k - 5) (9 + 2 * n),
  digit_of val (2 * k - 4) (10 + 2 * n),
)

-- The next value of digit `k` of the flag word, from its value and the word written: HALTED,
-- SSTEP and INTBREAK have their command pairs at 0, 5 and 7, signal `n` at `9 + 2 * n`, BROKE has
-- a clear command at 2 alone, and no other digit has a command.
abbrev pub next_digit : ℕ → ℕ → ℕ → ℕ
next_digit k val b =
    if k == 0
    then next_flag (bit 0 val) (bit 1 val) b
    else if k == 1
    then (if bit 2 val == 1 then 0 else b)
    else if k == 5
    then next_flag (bit 5 val) (bit 6 val) b
    else if k == 6
    then next_flag (bit 7 val) (bit 8 val) b
    else if leb 7 k && ltb k 15
    then next_flag (bit (2 * k - 5) val) (bit (2 * k - 4) val) b
    else b

-- Each of the 32 digits of the flag word obeys its own commands, whatever the other digits do: a
-- clear and a set together change nothing, BROKE is only ever cleared, and the busy and full
-- flags and the unused digits do not change.
pub bit-write_status :
    (status val k : ℕ) → k < 32 → bit k (write_status status val) ≡ next_digit k val (bit k status)
unfolding write_status
bit-write_status status val k hk =
    let s1 = apply status val (2 ^ 0) (2 ^ 1) status_halted in
    let s2 = clear_broke s1 val in
    let s3 = apply s2 val (2 ^ 5) (2 ^ 6) status_sstep in
    let s4 = apply s3 val (2 ^ 7) (2 ^ 8) status_intbreak in
    ground (
      arith,
      apply_lem status val 0 1 0 k (omega arith) hk,
      clear_broke_lem s1 val k hk,
      apply_lem s2 val 5 6 5 k (omega arith) hk,
      apply_lem s3 val 7 8 6 k (omega arith) hk,
      signals_lem 8 0 s4 val k (omega arith) hk,
    )

-- The interrupt commands of a status write: a clear alone acknowledges, a set alone raises, and
-- both or neither leave the line alone.
pub interrupt_change_lem :
    (val : ℕ)
    → interrupt_change val
      ≡ (if bit 3 val == bit 4 val then none else if bit 4 val == 1 then some true else some false)
unfolding interrupt_change
interrupt_change_lem val =
    ground (arith, any_set_pow 3 val, any_set_pow 4 val, bit-lt-two 3 val, bit-lt-two 4 val)

-- The program counter register takes a word address, and the flags leave it alone.
pub pc-set_pc : (s : SpRegs) (pc : ℕ) → (set_pc s pc).pc ≡ bit_and pc 0xffc
unfolding set_pc
pc-set_pc s pc = refl

pub pc_stopped : (s : SpRegs) → (set_broke (set_halted s true) true).pc ≡ s.pc
unfolding set_broke set_halted
pc_stopped s = refl
