-- ===== src/Cpu/Mem/Unaligned.antt =====
-- Unaligned doublewords in two halves: crates/rustyn64-cpu/src/mem.rs.
use rusty_n.Base.{ℕ, ◌+◌, ◌-◌, ◌*◌, ◌/◌, ◌^◌, ◌<◌, ◌≡◌, ap, arith, bit_and, bit_or}
use rusty_n.Base.{
  ltb, if◌then◌else◌, u64, bit, bit-bit_and, bit-bit_or, bit-shl, bit-shr, bit_ones, bit-mod_pow,
  bit_complement, bit_ext, bit-lt-two, bit_or-lt, bit_and-le, bit_beyond,
}
use native.Mathlib.Nat.{div-le_self}
use rusty_n.Cpu.Mem.{ldl, ldr, sdl, sdr, low_mask, high_mask64}

low_digit : (s k : ℕ) → bit k (low_mask s) ≡ (if ltb k s then 1 else 0)
low_digit s k = ground (arith, bit_ones s k, zero_digit k)
  where
    zero_digit : (i : ℕ) → bit i 0 ≡ 0
    zero_digit i = bit_beyond 0 i 0 (omega arith) (omega arith)

high_digit : (s k : ℕ) → k < 64 → bit k (high_mask64 s) ≡ (if ltb k (64 - s) then 0 else 1)
high_digit s k h = ground (
  arith,
  bit_complement 64 k ((2 ^ 64 - 1) / 2 ^ s),
  bit-shr s k (2 ^ 64 - 1),
  bit_ones 64 (k + s),
  bit_beyond 0 k 0,
)

shifted_in :
    (k s x old mask : ℕ)
    → k < 64
    → bit k mask ≡ (if ltb k s then 1 else 0)
    → bit k (bit_or (u64 (x * 2 ^ s)) (bit_and old mask))
      ≡ (if ltb k s then bit k old else bit (k - s) x)
shifted_in k s x old mask h m = ground (
  arith,
  bit-bit_or k (u64 (x * 2 ^ s)) (bit_and old mask),
  bit-mod_pow 64 k (x * 2 ^ s),
  bit-shl s k x,
  bit-bit_and k old mask,
  bit-lt-two k old,
  bit-lt-two (k - s) x,
)

shifted_out :
    (k s x old mask : ℕ)
    → k < 64
    → x < 2 ^ 64
    → bit k mask ≡ (if ltb k (64 - s) then 0 else 1)
    → bit k (bit_or (x / 2 ^ s) (bit_and old mask))
      ≡ (if ltb k (64 - s) then bit (k + s) x else bit k old)
shifted_out k s x old mask h hx m = ground (
  arith,
  bit-bit_or k (x / 2 ^ s) (bit_and old mask),
  bit-shr s k x,
  bit_beyond 64 (k + s) x,
  bit-bit_and k old mask,
  bit-lt-two k old,
  bit-lt-two (k + s) x,
)

bit-ldl :
    (rt d b k : ℕ)
    → k < 64
    → bit k (ldl rt d b) ≡ (if ltb k (b * 8) then bit k rt else bit (k - b * 8) d)
unfolding ldl
bit-ldl rt d b k h = shifted_in k (b * 8) d rt (low_mask (b * 8)) h (low_digit (b * 8) k)

bit-sdr :
    (rt d b k : ℕ)
    → k < 64
    → bit k (sdr rt d b) ≡ (if ltb k ((7 - b) * 8) then bit k d else bit (k - (7 - b) * 8) rt)
unfolding sdr
bit-sdr rt d b k h =
    let s = (7 - b) * 8 in
    ground (
      arith,
      bit-bit_or k (bit_and d (low_mask s)) (u64 (rt * 2 ^ s)),
      bit-bit_or k (u64 (rt * 2 ^ s)) (bit_and d (low_mask s)),
      shifted_in k s rt d (low_mask s) h (low_digit s k),
    )

bit-ldr :
    (rt d b k : ℕ)
    → k < 64
    → d < 2 ^ 64
    → bit k (ldr rt d b) ≡ (if ltb k (64 - (7 - b) * 8) then bit (k + (7 - b) * 8) d else bit k rt)
unfolding ldr
bit-ldr rt d b k h hd =
    shifted_out k ((7 - b) * 8) d rt (high_mask64 ((7 - b) * 8)) h hd (high_digit ((7 - b) * 8) k h)

bit-sdl :
    (rt d b k : ℕ)
    → k < 64
    → rt < 2 ^ 64
    → bit k (sdl rt d b) ≡ (if ltb k (64 - b * 8) then bit (k + b * 8) rt else bit k d)
unfolding sdl
bit-sdl rt d b k h hr =
    let s = b * 8 in
    ground (
      arith,
      bit-bit_or k (bit_and d (high_mask64 s)) (rt / 2 ^ s),
      bit-bit_or k (rt / 2 ^ s) (bit_and d (high_mask64 s)),
      shifted_out k s rt d (high_mask64 s) h hr (high_digit s k h),
    )

sdr-lt : (rt d b : ℕ) → d < 2 ^ 64 → sdr rt d b < 2 ^ 64
unfolding sdr
sdr-lt rt d b h =
    bit_or-lt 64 _ _ (omega (arith, bit_and-le d (low_mask ((7 - b) * 8)))) (omega arith)

ldl-lt : (rt d b : ℕ) → rt < 2 ^ 64 → ldl rt d b < 2 ^ 64
unfolding ldl
ldl-lt rt d b h = bit_or-lt 64 _ _ (omega arith) (omega (arith, bit_and-le rt (low_mask (b * 8))))

ldr-lt : (rt d b : ℕ) → rt < 2 ^ 64 → d < 2 ^ 64 → ldr rt d b < 2 ^ 64
unfolding ldr
ldr-lt rt d b h k =
    bit_or-lt 64 _ _ (omega (arith, div-le_self d (2 ^ ((7 - b) * 8))))
      (omega (arith, bit_and-le rt (high_mask64 ((7 - b) * 8))))

-- A doubleword that the two unaligned stores put across two aligned ones, at any offset but 0, is what
-- the two unaligned loads at that offset read, whatever the memory and the register held before.
pub unaligned_double :
    (rt old d1 d2 b : ℕ)
    → rt < 2 ^ 64
    → old < 2 ^ 64
    → d2 < 2 ^ 64
    → b < 7
    → ldr (ldl old (sdl rt d1 (b + 1)) (b + 1)) (sdr rt d2 b) b ≡ rt
unaligned_double rt old d1 d2 b hr ho hd hb =
    let left = ldl old (sdl rt d1 (b + 1)) (b + 1) in
    let right = sdr rt d2 b in
    bit_ext 64 (ldr left right b) rt
      (ldr-lt left right b (ldl-lt old (sdl rt d1 (b + 1)) (b + 1) ho) (sdr-lt rt d2 b hd)) hr
      λ k lt. ground (
        arith,
        bit-ldr left right b k lt (sdr-lt rt d2 b hd),
        bit-sdr rt d2 b (k + (7 - b) * 8),
        bit-ldl old (sdl rt d1 (b + 1)) (b + 1) k lt,
        bit-sdl rt d1 (b + 1) (k - (b + 1) * 8),
        ap (λ (t : ℕ). bit t rt) {x = k + (7 - b) * 8 - (7 - b) * 8} {y = k},
        ap (λ (t : ℕ). bit t rt) {x = k - (b + 1) * 8 + (b + 1) * 8} {y = k},
      )
