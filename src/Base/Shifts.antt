-- ===== src/Base/Shifts.antt =====
-- The binary digits of shifted words, of remainders and of complements.
use Prim.Native.Nat.{ℕ, zero, suc, ◌+◌, ◌-◌, ◌*◌, ◌/◌, ◌%◌, ◌^◌, ◌<◌}
use mathlib.Core.Path.{◌≡◌, sym, ap, ◌∙◌}
use native.Mathlib.Nat.{pow-suc, one-le-pow, div-div-eq-div-mul}
use native.Mathlib.Omega.{arith}
use rusty_n.Base.Tests.{ltb, if◌then◌else◌}
use rusty_n.Base.Bits.{bit, bit-lt-two, bit-bit_and}
use rusty_n.Base.Masks.{bit_and_low}

half_shift : (s a : ℕ) → a / 2 ^ suc s ≡ a / 2 / 2 ^ s
half_shift s a =
    let e : 2 ^ suc s ≡ 2 * 2 ^ s = omega (arith, pow-suc 2 s) in
    ap (λ (t : ℕ). a / t) e ∙ sym (div-div-eq-div-mul a 2 (2 ^ s))

-- `a >> s`
pub bit-shr : (s k a : ℕ) → bit k (a / 2 ^ s) ≡ bit (k + s) a
bit-shr zero k a =
    let e : a / 2 ^ 0 ≡ a = omega arith in
    let f : k + 0 ≡ k = omega arith in ap (bit k) e ∙ ap (λ (t : ℕ). bit t a) (sym f)
bit-shr (suc s) k a =
    let f : suc (k + s) ≡ k + suc s = omega arith in
    ap (bit k) (half_shift s a) ∙ (bit-shr s k (a / 2) ∙ ap (λ (t : ℕ). bit t a) f)

-- The mask of the `n` lowest digits.
pub bit_ones : (n k : ℕ) → bit k (2 ^ n - 1) ≡ (if ltb k n then 1 else 0)
bit_ones zero zero = ground arith
bit_ones zero (suc k) =
    let e : (2 ^ 0 - 1) / 2 ≡ 2 ^ 0 - 1 = omega arith in
    ap (bit k) e ∙ (bit_ones zero k ∙ ground arith)
bit_ones (suc n) zero = ground (arith, pow-suc 2 n, one-le-pow n 2)
bit_ones (suc n) (suc k) =
    let e : (2 ^ suc n - 1) / 2 ≡ 2 ^ n - 1 = omega (arith, pow-suc 2 n, one-le-pow n 2) in
    ap (bit k) e ∙ (bit_ones n k ∙ ground arith)

-- A word truncated to `n` digits.
pub bit-mod_pow : (n k a : ℕ) → bit k (a % 2 ^ n) ≡ (if ltb k n then bit k a else 0)
bit-mod_pow n k a =
    ap (bit k) (sym (bit_and_low n a))
    ∙ (bit-bit_and k a (2 ^ n - 1) ∙ ground (arith, bit_ones n k, bit-lt-two k a))

-- The complement of a word of `n` digits.
pub bit_complement : (n k x : ℕ) → x < 2 ^ n → k < n → bit k (2 ^ n - 1 - x) ≡ 1 - bit k x
bit_complement zero k x h lt = absurd (omega arith)
bit_complement (suc n) zero x h lt = omega (arith, pow-suc 2 n)
bit_complement (suc n) (suc k) x h lt =
    let e : (2 ^ suc n - 1 - x) / 2 ≡ 2 ^ n - 1 - x / 2 = omega (arith, pow-suc 2 n) in
    ap (bit k) e ∙ bit_complement n k (x / 2) (omega (arith, pow-suc 2 n)) (omega arith)
