-- ===== src/Cpu/Alu/Products.antt =====
-- Products and quotients of crates/rustyn64-cpu/src/alu.rs.
use rusty_n.Base.{ℕ, ◌+◌, ◌*◌, ◌/◌, ◌%◌, ◌^◌, ◌≤◌, ◌<◌, ◌≡◌, ◌≢◌, ap₂, ◌∙◌, arith}
use rusty_n.Base.{false, ◌==◌, u32, u64, sext32}
use rusty_n.Cpu.Alu.{multu, dmultu, divu, ddivu}
use native.Mathlib.Nat.{div-add-mod', mod-lt, div-le_self}

back32 : (x : ℕ) → x < 2 ^ 32 → u32 (sext32 x) ≡ x
back32 x h = ground arith

pub product_small : (x y n : ℕ) → x < n → y < n → x * y < n * n
product_small x y n hx hy = grind arith

-- The two halves of an unsigned product make the product of the operands.
pub unsigned_product :
    (a b : ℕ)
    → a < 2 ^ 64
    → b < 2 ^ 64
    → (u32 (multu a b).hi * 2 ^ 32 + u32 (multu a b).lo ≡ u32 a * u32 b)
      × ((dmultu a b).hi * 2 ^ 64 + (dmultu a b).lo ≡ a * b)
unfolding multu dmultu
unsigned_product a b ha hb =
    let s = product_small (u32 a) (u32 b) (2 ^ 32) (omega arith) (omega arith) in
    let l = product_small a b (2 ^ 64) ha hb in
    (
      ap₂ (λ (h k : ℕ). h * 2 ^ 32 + k) (back32 (u32 (u64 (u32 a * u32 b) / 2 ^ 32)) (omega arith))
            (back32 (u32 (u64 (u32 a * u32 b))) (omega arith))
          ∙ omega (arith, s),
      omega (arith, l),
    )

euclid : (n d : ℕ) → d ≢ 0 → (n / d * d + n % d ≡ n) × ((n % d < d) × (n / d ≤ n))
euclid n d h = (div-add-mod' n d, (mod-lt n (omega arith), div-le_self n d))

-- An unsigned quotient and remainder by a divisor other than 0 give back the dividend, and the
-- remainder is below the divisor.
pub unsigned_quotient :
    (n d : ℕ)
    → (u32 d ≢ 0
        → (u32 (divu n d).lo * u32 d + u32 (divu n d).hi ≡ u32 n) × (u32 (divu n d).hi < u32 d))
      × (d ≢ 0 → ((ddivu n d).lo * d + (ddivu n d).hi ≡ n) × ((ddivu n d).hi < d))
unfolding divu ddivu
unsigned_quotient n d = (
  λ h.
      let e = euclid (u32 n) (u32 d) h in
      let test : (u32 d == 0) ≡ false = ground arith in
      let q = back32 (u32 n / u32 d) (omega (arith, e)) in
      let r = back32 (u32 n % u32 d) (omega (arith, e)) in
      rw test (ap₂ (λ (x y : ℕ). x * u32 d + y) q r ∙ e.0, omega (arith, r, e)),
  λ h. let test : (d == 0) ≡ false = ground arith in let e = euclid n d h in rw test (e.0, e.1.0),
)
