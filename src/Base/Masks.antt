-- ===== src/Base/Masks.antt =====
-- Masks, fields and flags of machine words.
use Prim.Native.Nat.{ℕ, zero, suc, ◌+◌, ◌-◌, ◌*◌, ◌/◌, ◌%◌, ◌^◌, ◌≤◌, ◌<◌}
use Prim.Native.Nat.{bit_and, bit_or, bit_and-bitwise, bit_or-bitwise}
use mathlib.Core.Path.{◌≡◌, refl, sym, ap, ap₂, ◌∙◌}
use mathlib.Core.Bool.{Bool, true, false}
use native.Mathlib.Nat.{pow-suc, one-le-pow, div-add-mod}
use native.Mathlib.Omega.{arith}
use rusty_n.Base.Tests.{ltb, ◌==◌, if◌then◌else◌, eq_of_==}
use rusty_n.Base.Bits.{halving, double}
use rusty_n.Base.Bits.{
  not32, bit_and_step, bit_or_step, bit, bit_and-zero, bit_or-zero, bit_and_split, bit_or_split,
  bit_and_ones,
}

-- A word as its digits from `k` on and its `k` lowest digits.
pub split_at : (k a : ℕ) → a / 2 ^ k * 2 ^ k + a % 2 ^ k ≡ a
split_at k a = ground (arith, div-add-mod a (2 ^ k))

pub mod_pow-lt : (k a : ℕ) → a % 2 ^ k < 2 ^ k
mod_pow-lt k a = omega (arith, one-le-pow k 2)

-- A mask of the `k` lowest digits is the remainder by `2 ^ k`.
pub bit_and_low : (k a : ℕ) → bit_and a (2 ^ k - 1) ≡ a % 2 ^ k
bit_and_low k a =
    ap₂ bit_and (sym (split_at k a)) (omega arith)
    ∙ (bit_and_split k (a / 2 ^ k) (a % 2 ^ k) 0 (2 ^ k - 1) (mod_pow-lt k a)
          (omega (arith, one-le-pow k 2))
        ∙ omega (
          arith,
          bit_and_ones k (a % 2 ^ k) (mod_pow-lt k a),
          bit_and-zero (a / 2 ^ k),
          ap (λ (t : ℕ). t * 2 ^ k) (bit_and-zero (a / 2 ^ k)),
        ))

-- A mask whose `k` lowest digits are 0 works on the digits above them.
pub bit_and_high : (k a m : ℕ) → bit_and a (m * 2 ^ k) ≡ bit_and (a / 2 ^ k) m * 2 ^ k
bit_and_high k a m =
    ap₂ bit_and (sym (split_at k a)) (omega arith)
    ∙ (bit_and_split k (a / 2 ^ k) (a % 2 ^ k) m 0 (mod_pow-lt k a) (omega (arith, one-le-pow k 2))
        ∙ omega (arith, bit_and-zero (a % 2 ^ k)))

-- A mask of the digits from `k` to `k + w - 1` aligns down and truncates.
pub bit_and_field : (k w a : ℕ) → bit_and a ((2 ^ w - 1) * 2 ^ k) ≡ a / 2 ^ k % 2 ^ w * 2 ^ k
bit_and_field k w a =
    bit_and_high k a (2 ^ w - 1) ∙ ap (λ (t : ℕ). t * 2 ^ k) (bit_and_low w (a / 2 ^ k))

-- `(q << k) | r` is a sum when `r` has `k` digits.
pub bit_or_disjoint : (k q r : ℕ) → r < 2 ^ k → bit_or (q * 2 ^ k) r ≡ q * 2 ^ k + r
bit_or_disjoint k q r h =
    ap₂ bit_or p p'
    ∙ (bit_or_split k q 0 0 r (omega (arith, one-le-pow k 2)) h
        ∙ omega (arith, bit_or-bitwise 0 r, ap (λ (t : ℕ). t * 2 ^ k) (bit_or-zero q)))
  where
    p : q * 2 ^ k ≡ q * 2 ^ k + 0
    p = omega arith

    p' : r ≡ 0 * 2 ^ k + r
    p' = omega arith

pub bit_and_comm : (a b : ℕ) → bit_and a b ≡ bit_and b a
bit_and_comm a b =
    halving (λ n. (c : ℕ) → bit_and n c ≡ bit_and c n)
      (λ c. omega (arith, bit_and-bitwise 0 c, bit_and-zero c))
      (λ n ih c. omega (arith, bit_and_step (suc n) c, bit_and_step c (suc n), ih (c / 2))) a a
      (omega arith) b

pub bit_or_comm : (a b : ℕ) → bit_or a b ≡ bit_or b a
bit_or_comm a b =
    halving (λ n. (c : ℕ) → bit_or n c ≡ bit_or c n)
      (λ c. omega (arith, bit_or-bitwise 0 c, bit_or-zero c))
      (λ n ih c. omega (arith, bit_or_step (suc n) c, bit_or_step c (suc n), ih (c / 2))) a a
      (omega arith) b

-- A mask applied twice is the mask.
pub bit_and_idem : (a m : ℕ) → bit_and (bit_and a m) m ≡ bit_and a m
bit_and_idem a m =
    halving (λ n. (c : ℕ) → bit_and (bit_and n c) c ≡ bit_and n c)
      (λ c. ap (λ (t : ℕ). bit_and t c) (zero_and c) ∙ omega arith)
      (λ n ih c.
        let x = bit_and (suc n) c in
        omega (
          arith,
          bit_and_step (suc n) c,
          bit_and_step x c,
          ih (c / 2),
          ap (λ (t : ℕ). bit_and t (c / 2)) (half_lem n c),
        ))
      a a (omega arith) m
  where
    zero_and : (c : ℕ) → bit_and 0 c ≡ 0
    zero_and c = omega (arith, bit_and-bitwise 0 c)

    half_lem : (n c : ℕ) → bit_and (suc n) c / 2 ≡ bit_and (suc n / 2) (c / 2)
    half_lem n c = omega (arith, bit_and_step (suc n) c)

-- The digits of `a << j`, and of a word beyond its size.
pub bit-shl : (j k a : ℕ) → bit k (a * 2 ^ j) ≡ (if ltb k j then 0 else bit (k - j) a)
bit-shl zero k a =
    let e : a * 2 ^ 0 ≡ a = omega arith in
    let f : bit k a ≡ (if ltb k 0 then 0 else bit (k - 0) a) = ground arith in ap (bit k) e ∙ f
bit-shl (suc j) zero a = ground (arith, double a j)
bit-shl (suc j) (suc k) a =
    let e : a * 2 ^ suc j / 2 ≡ a * 2 ^ j = omega (arith, double a j) in
    ap (bit k) e ∙ (bit-shl j k a ∙ ground arith)

pub bit_beyond : (j k a : ℕ) → a < 2 ^ j → j ≤ k → bit k a ≡ 0
bit_beyond zero zero a h le = omega arith
bit_beyond (suc j) zero a h le = absurd (omega arith)
bit_beyond zero (suc k) a h le = bit_beyond zero k (a / 2) (omega arith) (omega arith)
bit_beyond (suc j) (suc k) a h le =
    bit_beyond j k (a / 2) (omega (arith, pow-suc 2 j)) (omega arith)

-- Every value below a bound, tested by evaluation.
unfoldable pub every : ℕ → (ℕ → Bool) → Bool
every zero p = true
every (suc n) p = if p n then every n p else false

pub every_lem : (n : ℕ) (p : ℕ → Bool) (x : ℕ) → every n p ≡ true → x < n → p x ≡ true
unfolding every
every_lem zero p x h lt = absurd (omega arith)
every_lem (suc n) p x h lt = ground (arith, every_lem n p x)

abbrev pow_test : ℕ → ℕ → Bool
pow_test j k = bit k (2 ^ j) == (if k == j then 1 else 0)

abbrev not_test : ℕ → ℕ → Bool
not_test j k = bit k (not32 (2 ^ j)) == (if k == j then 0 else 1)

pow_table : every 32 (λ j. every 32 (pow_test j)) ≡ true
unfolding every
pow_table = refl

not_table : every 32 (λ j. every 32 (not_test j)) ≡ true
unfolding every
not_table = refl

-- The digits of a flag, and of the mask that clears it, in a 32-bit word.
pub bit-pow : (k j : ℕ) → k < 32 → j < 32 → bit k (2 ^ j) ≡ (if k == j then 1 else 0)
bit-pow k j hk hj =
    eq_of_== _ _
      (every_lem 32 (pow_test j) k (every_lem 32 (λ i. every 32 (pow_test i)) j pow_table hj) hk)

pub bit-not32 : (k j : ℕ) → k < 32 → j < 32 → bit k (not32 (2 ^ j)) ≡ (if k == j then 0 else 1)
bit-not32 k j hk hj =
    eq_of_== _ _
      (every_lem 32 (not_test j) k (every_lem 32 (λ i. every 32 (not_test i)) j not_table hj) hk)
