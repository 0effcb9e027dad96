-- ===== src/Cpu/Alu/Overflow.antt =====
-- The trapping additions and subtractions of crates/rustyn64-cpu/src/alu.rs.
use rusty_n.Base.{ℕ, ◌+◌, ◌%◌, ◌^◌, ◌<◌, ◌≡◌, ap, arith}
use rusty_n.Base.{
  Bool, true, false, ◌&&◌, ◌||◌, not, ltb, leb, if◌then◌else◌, u32, sext32, add32, sub32, add64,
  sub64,
}
use rusty_n.Cpu.Alu.{Computed, ok, err, add, addu, sub, subu, dadd, daddu, dsub, dsubu}
use rusty_n.Cpu.Exception.{Exception}

-- The sign digit of the low 32 bits of a register, and of all 64.
abbrev pub sign32 : ℕ → Bool
sign32 a = leb (2 ^ 31) (u32 a)

abbrev pub sign64 : ℕ → Bool
sign64 a = leb (2 ^ 63) a

abbrev pub same : Bool → Bool → Bool
same true b = b
same false b = not b

-- The result of the wrapping operation, or the exception where the test is positive.
abbrev pub unless : Bool → ℕ → Computed
unless overflows r = if overflows then err Exception.overflow else ok r

-- The range of a biased sum or difference, and the rule of signs.
add_rule32 :
    (x y : ℕ)
    → x < 2 ^ 32
    → y < 2 ^ 32
    → (ltb ((x + 2 ^ 31) % 2 ^ 32 + (y + 2 ^ 31) % 2 ^ 32) (2 ^ 31)
        || leb (2 ^ 31 + 2 ^ 32) ((x + 2 ^ 31) % 2 ^ 32 + (y + 2 ^ 31) % 2 ^ 32))
      ≡ same (leb (2 ^ 31) x) (leb (2 ^ 31) y)
        && not (same (leb (2 ^ 31) x) (leb (2 ^ 31) (u32 (sext32 (add32 x y)))))
add_rule32 x y hx hy = ground arith

sub_rule32 :
    (x y : ℕ)
    → x < 2 ^ 32
    → y < 2 ^ 32
    → (ltb ((x + 2 ^ 31) % 2 ^ 32 + 2 ^ 31) ((y + 2 ^ 31) % 2 ^ 32)
        || leb ((y + 2 ^ 31) % 2 ^ 32 + 2 ^ 31) ((x + 2 ^ 31) % 2 ^ 32))
      ≡ not (same (leb (2 ^ 31) x) (leb (2 ^ 31) y))
        && not (same (leb (2 ^ 31) x) (leb (2 ^ 31) (u32 (sext32 (sub32 x y)))))
sub_rule32 x y hx hy = ground arith

add_rule64 :
    (x y : ℕ)
    → x < 2 ^ 64
    → y < 2 ^ 64
    → (ltb ((x + 2 ^ 63) % 2 ^ 64 + (y + 2 ^ 63) % 2 ^ 64) (2 ^ 63)
        || leb (2 ^ 63 + 2 ^ 64) ((x + 2 ^ 63) % 2 ^ 64 + (y + 2 ^ 63) % 2 ^ 64))
      ≡ same (leb (2 ^ 63) x) (leb (2 ^ 63) y)
        && not (same (leb (2 ^ 63) x) (leb (2 ^ 63) (add64 x y)))
add_rule64 x y hx hy = ground arith

sub_rule64 :
    (x y : ℕ)
    → x < 2 ^ 64
    → y < 2 ^ 64
    → (ltb ((x + 2 ^ 63) % 2 ^ 64 + 2 ^ 63) ((y + 2 ^ 63) % 2 ^ 64)
        || leb ((y + 2 ^ 63) % 2 ^ 64 + 2 ^ 63) ((x + 2 ^ 63) % 2 ^ 64))
      ≡ not (same (leb (2 ^ 63) x) (leb (2 ^ 63) y))
        && not (same (leb (2 ^ 63) x) (leb (2 ^ 63) (sub64 x y)))
sub_rule64 x y hx hy = ground arith

-- A trapping sum is the wrapping sum, and an overflow exception exactly if the operands have one sign
-- and the wrapping sum the other; a trapping difference is the wrapping difference, and an overflow
-- exception exactly if the operands differ in sign and so do the first operand and the difference.
pub overflow_signs :
    (a b : ℕ)
    → a < 2 ^ 64
    → b < 2 ^ 64
    → (add a b
        ≡ unless
            (same (sign32 a) (sign32 b) && not (same (sign32 a) (sign32 (addu a b))))
            (addu a b))
      × (sub a b
          ≡ unless
              (not (same (sign32 a) (sign32 b)) && not (same (sign32 a) (sign32 (subu a b))))
              (subu a b))
      × (dadd a b
          ≡ unless
              (same (sign64 a) (sign64 b) && not (same (sign64 a) (sign64 (daddu a b))))
              (daddu a b))
      × (dsub a b
          ≡ unless
              (not (same (sign64 a) (sign64 b)) && not (same (sign64 a) (sign64 (dsubu a b))))
              (dsubu a b))
unfolding add addu sub subu dadd daddu dsub dsubu
overflow_signs a b ha hb =
    let x : u32 a < 2 ^ 32 = omega arith in
    let y : u32 b < 2 ^ 32 = omega arith in
    (
      ap (λ (t : Bool). unless t (addu a b)) (add_rule32 (u32 a) (u32 b) x y),
      ap (λ (t : Bool). unless t (subu a b)) (sub_rule32 (u32 a) (u32 b) x y),
      ap (λ (t : Bool). unless t (daddu a b)) (add_rule64 a b ha hb),
      ap (λ (t : Bool). unless t (dsubu a b)) (sub_rule64 a b ha hb),
    )
