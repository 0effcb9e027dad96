-- ===== src/Base/Bits.antt =====
-- Machine words as natural numbers, and the binary digits of `&` and `|`.
use Prim.Native.Nat.{ℕ, zero, suc, ◌+◌, ◌-◌, ◌*◌, ◌/◌, ◌%◌, ◌^◌, ◌≤◌, ◌<◌, min, max}
use Prim.Native.Nat.{bit_and, bit_or, digits, bit_and-bitwise, bit_or-bitwise}
use mathlib.Core.Path.{◌≡◌, refl, ap, ap₂, ◌∙◌}
use mathlib.Core.Bool.{Bool, true, false}
use native.Mathlib.Nat.{pow-suc, one-le-pow}
use native.Mathlib.Omega.{arith}
use rusty_n.Base.Tests.{ltb, ◌==◌, if◌then◌else◌}

-- The casts `as u8`, `as u16`, `as u32` and `as u64`.
abbrev pub u8 : ℕ → ℕ
u8 n = n % 2 ^ 8

abbrev pub u16 : ℕ → ℕ
u16 n = n % 2 ^ 16

abbrev pub u32 : ℕ → ℕ
u32 n = n % 2 ^ 32

abbrev pub u64 : ℕ → ℕ
u64 n = n % 2 ^ 64

-- `a.wrapping_add(b)` and `a.wrapping_sub(b)` on `u32`.
abbrev pub add32 : ℕ → ℕ → ℕ
add32 a b = (a + b) % 2 ^ 32

abbrev pub sub32 : ℕ → ℕ → ℕ
sub32 a b = (a + 2 ^ 32 - b) % 2 ^ 32

-- `a << k` before truncation, `a >> k` and `!a` on `u32`.
abbrev pub shl : ℕ → ℕ → ℕ
shl a k = a * 2 ^ k

abbrev pub shr : ℕ → ℕ → ℕ
shr a k = a / 2 ^ k

abbrev pub not32 : ℕ → ℕ
not32 a = 2 ^ 32 - 1 - a

-- `!a` and the wrapping sum and difference on `u64`.
abbrev pub not64 : ℕ → ℕ
not64 a = 2 ^ 64 - 1 - a

abbrev pub add64 : ℕ → ℕ → ℕ
add64 a b = (a + b) % 2 ^ 64

abbrev pub sub64 : ℕ → ℕ → ℕ
sub64 a b = (a + 2 ^ 64 - b) % 2 ^ 64

-- `v as i32 as i64 as u64`, for a word of 32 bits.
abbrev pub sext32 : ℕ → ℕ
sext32 v = if ltb v (2 ^ 31) then v else v + (2 ^ 64 - 2 ^ 32)

-- `w & m != 0`
abbrev pub any_set : ℕ → ℕ → Bool
any_set w m = if bit_and w m == 0 then false else true

-- A recursion on digits has fuel to spare once the fuel reaches the number.
digits_more :
    (z : ℕ → ℕ) (f : ℕ → ℕ → ℕ) (p q a b : ℕ) → a ≤ p → a ≤ q → digits z f p a b ≡ digits z f q a b
digits_more z f zero zero a b hp hq = refl
digits_more z f zero (suc q) zero b hp hq = refl
digits_more z f (suc p) zero zero b hp hq = refl
digits_more z f (suc p) (suc q) zero b hp hq = refl
digits_more z f zero (suc q) (suc a) b hp hq = absurd (omega arith)
digits_more z f (suc p) zero (suc a) b hp hq = absurd (omega arith)
digits_more z f (suc p) (suc q) (suc a) b hp hq =
    ap (λ (t : ℕ). t * 2 + f (suc a % 2) (b % 2))
      (digits_more z f p q (suc a / 2) (b / 2) (omega arith) (omega arith))

pub bit_and_step : (a b : ℕ) → bit_and a b ≡ bit_and (a / 2) (b / 2) * 2 + min (a % 2) (b % 2)
bit_and_step zero b = omega (arith, bit_and-bitwise 0 b, bit_and-bitwise 0 (b / 2))
bit_and_step (suc a) b = omega (
  arith,
  bit_and-bitwise (suc a) b,
  bit_and-bitwise (suc a / 2) (b / 2),
  digits_more (λ y. 0) min a (suc a / 2) (suc a / 2) (b / 2) (omega arith) (omega arith),
)

pub bit_or_step : (a b : ℕ) → bit_or a b ≡ bit_or (a / 2) (b / 2) * 2 + max (a % 2) (b % 2)
bit_or_step zero b = omega (arith, bit_or-bitwise 0 b, bit_or-bitwise 0 (b / 2))
bit_or_step (suc a) b = omega (
  arith,
  bit_or-bitwise (suc a) b,
  bit_or-bitwise (suc a / 2) (b / 2),
  digits_more (λ y. y) max a (suc a / 2) (suc a / 2) (b / 2) (omega arith) (omega arith),
)

-- Binary digit `k` of a word, lowest first.
abbrev pub bit : ℕ → ℕ → ℕ
bit zero w = w % 2
bit (suc k) w = bit k (w / 2)

pub bit-lt-two : (k w : ℕ) → bit k w < 2
bit-lt-two zero w = omega arith
bit-lt-two (suc k) w = bit-lt-two k (w / 2)

pub bit-bit_and : (k a b : ℕ) → bit k (bit_and a b) ≡ min (bit k a) (bit k b)
bit-bit_and zero a b = omega (arith, bit_and_step a b)
bit-bit_and (suc k) a b =
    ap (λ (t : ℕ). bit k t) (omega (arith, bit_and_step a b)) ∙ bit-bit_and k (a / 2) (b / 2)

pub bit-bit_or : (k a b : ℕ) → bit k (bit_or a b) ≡ max (bit k a) (bit k b)
bit-bit_or zero a b = omega (arith, bit_or_step a b)
bit-bit_or (suc k) a b =
    ap (λ (t : ℕ). bit k t) (omega (arith, bit_or_step a b)) ∙ bit-bit_or k (a / 2) (b / 2)

-- Words of `n` digits that agree in every digit are equal.
pub bit_ext : (n a b : ℕ) → a < 2 ^ n → b < 2 ^ n → ((k : ℕ) → k < n → bit k a ≡ bit k b) → a ≡ b
bit_ext zero a b ha hb h = omega arith
bit_ext (suc n) a b ha hb h = omega (
  arith,
  h 0 (omega arith),
  bit_ext n (a / 2) (b / 2) (omega (arith, pow-suc 2 n)) (omega (arith, pow-suc 2 n))
      (λ k lt. h (suc k) (omega arith)),
)

-- Strong induction on a word, from its half.
pub halving {ℓ} :
    (P : ℕ → Type ℓ) → P 0 → ((a : ℕ) → P (suc a / 2) → P (suc a)) → (fuel a : ℕ) → a ≤ fuel → P a
halving P base step fuel zero h = base
halving P base step zero (suc a) h = absurd (omega arith)
halving P base step (suc fuel) (suc a) h =
    step a (halving P base step fuel (suc a / 2) (omega arith))

pub bit_and-zero : (a : ℕ) → bit_and a 0 ≡ 0
bit_and-zero a =
    halving (λ n. bit_and n 0 ≡ 0) refl (λ n ih. omega (arith, bit_and_step (suc n) 0)) a a
      (omega arith)

pub bit_or-zero : (a : ℕ) → bit_or a 0 ≡ a
bit_or-zero a =
    halving (λ n. bit_or n 0 ≡ n) refl (λ n ih. omega (arith, bit_or_step (suc n) 0)) a a
      (omega arith)

-- `a & b` is at most `a`.
pub bit_and-le : (a b : ℕ) → bit_and a b ≤ a
bit_and-le a b =
    halving (λ n. (c : ℕ) → bit_and n c ≤ n) (λ c. omega (arith, bit_and-bitwise 0 c))
      (λ n ih c. omega (arith, bit_and_step (suc n) c, ih (c / 2))) a a (omega arith) b

-- `a | b` needs no digit that neither `a` nor `b` needs.
pub bit_or-lt : (n a b : ℕ) → a < 2 ^ n → b < 2 ^ n → bit_or a b < 2 ^ n
bit_or-lt zero a b ha hb =
    let e : a ≡ 0 = omega arith in let f : b ≡ 0 = omega arith in rw (e, f) (omega arith)
bit_or-lt (suc n) a b ha hb = omega (
  arith,
  bit_or_step a b,
  pow-suc 2 n,
  bit_or-lt n (a / 2) (b / 2) (omega (arith, pow-suc 2 n)) (omega (arith, pow-suc 2 n)),
)

-- A mask of one digit reads that digit.
pub bit_and_pow : (k w : ℕ) → bit_and w (2 ^ k) ≡ bit k w * 2 ^ k
bit_and_pow zero w = omega (arith, bit_and_step w 1, bit_and-zero (w / 2))
bit_and_pow (suc k) w = omega (
  arith,
  bit_and_step w (2 ^ suc k),
  ap (λ (t : ℕ). bit_and (w / 2) t) (half_pow k),
  bit_and_pow k (w / 2),
  pow-suc 2 k,
  ap (λ (t : ℕ). bit k (w / 2) * t) (pow-suc 2 k),
)
  where
    half_pow : (n : ℕ) → 2 ^ suc n / 2 ≡ 2 ^ n
    half_pow n = omega (arith, pow-suc 2 n)

pub any_set_pow : (k w : ℕ) → any_set w (2 ^ k) ≡ (bit k w == 1)
any_set_pow k w = ground (arith, bit_and_pow k w, bit-lt-two k w, one-le-pow k 2)

pub double : (q k : ℕ) → q * 2 ^ suc k ≡ 2 * (q * 2 ^ k)
double q k = omega (arith, ap (λ (t : ℕ). q * t) (pow-suc 2 k))

half_split : (k q r : ℕ) → (q * 2 ^ suc k + r) / 2 ≡ q * 2 ^ k + r / 2
half_split k q r = omega (arith, double q k)

-- `&` works on the low `k` digits and on the digits above them apart.
pub bit_and_split :
    (k q r m t : ℕ)
    → r < 2 ^ k
    → t < 2 ^ k
    → bit_and (q * 2 ^ k + r) (m * 2 ^ k + t) ≡ bit_and q m * 2 ^ k + bit_and r t
bit_and_split zero q r m t hr ht =
    let e : r ≡ 0 = omega arith in
    let f : t ≡ 0 = omega arith in rw (e, f, one_digit q, one_digit m) (omega arith)
  where
    one_digit : (x : ℕ) → x * 2 ^ 0 + 0 ≡ x
    one_digit x = omega arith
bit_and_split (suc k) q r m t hr ht = omega (
  arith,
  bit_and_step (q * 2 ^ suc k + r) (m * 2 ^ suc k + t),
  ap₂ bit_and (half_split k q r) (half_split k m t),
  bit_and_split k q (r / 2) m (t / 2) (omega (arith, pow-suc 2 k)) (omega (arith, pow-suc 2 k)),
  bit_and_step r t,
  double q k,
  double m k,
  double (bit_and q m) k,
)

-- So does `|`.
pub bit_or_split :
    (k q r m t : ℕ)
    → r < 2 ^ k
    → t < 2 ^ k
    → bit_or (q * 2 ^ k + r) (m * 2 ^ k + t) ≡ bit_or q m * 2 ^ k + bit_or r t
bit_or_split zero q r m t hr ht =
    let e : r ≡ 0 = omega arith in
    let f : t ≡ 0 = omega arith in rw (e, f, one_digit q, one_digit m) (omega arith)
  where
    one_digit : (x : ℕ) → x * 2 ^ 0 + 0 ≡ x
    one_digit x = omega arith
bit_or_split (suc k) q r m t hr ht = omega (
  arith,
  bit_or_step (q * 2 ^ suc k + r) (m * 2 ^ suc k + t),
  ap₂ bit_or (half_split k q r) (half_split k m t),
  bit_or_split k q (r / 2) m (t / 2) (omega (arith, pow-suc 2 k)) (omega (arith, pow-suc 2 k)),
  bit_or_step r t,
  double q k,
  double m k,
  double (bit_or q m) k,
)

pub bit_and_ones : (k r : ℕ) → r < 2 ^ k → bit_and r (2 ^ k - 1) ≡ r
bit_and_ones zero r h = let e : r ≡ 0 = omega arith in rw e refl
bit_and_ones (suc k) r h = omega (
  arith,
  bit_and_step r (2 ^ suc k - 1),
  ap (λ (t : ℕ). bit_and (r / 2) t) half_ones,
  bit_and_ones k (r / 2) (omega (arith, pow-suc 2 k)),
  pow-suc 2 k,
  one-le-pow k 2,
)
  where
    half_ones : (2 ^ suc k - 1) / 2 ≡ 2 ^ k - 1
    half_ones = omega (arith, pow-suc 2 k, one-le-pow k 2)

pub bit_or_ones : (k r : ℕ) → r < 2 ^ k → bit_or r (2 ^ k - 1) ≡ 2 ^ k - 1
bit_or_ones zero r h = let e : r ≡ 0 = omega arith in rw e refl
bit_or_ones (suc k) r h = omega (
  arith,
  bit_or_step r (2 ^ suc k - 1),
  ap (λ (t : ℕ). bit_or (r / 2) t) half_ones,
  bit_or_ones k (r / 2) (omega (arith, pow-suc 2 k)),
  pow-suc 2 k,
  one-le-pow k 2,
)
  where
    half_ones : (2 ^ suc k - 1) / 2 ≡ 2 ^ k - 1
    half_ones = omega (arith, pow-suc 2 k, one-le-pow k 2)
