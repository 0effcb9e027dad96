-- ===== src/Rsp/Vu/Multiply/Product.antt =====
-- Products of 32 bits from the four multiplications of 16 bits: multiply_lane of
-- crates/rustyn64-rsp/src/vu.rs.
use rusty_n.Base.{ℕ, ◌+◌, ◌-◌, ◌*◌, ◌/◌, ◌%◌, ◌^◌, ◌<◌, ◌≡◌, sym, ap, ap₂, ◌∙◌, arith}
use rusty_n.Base.{ltb, if◌then◌else◌, u64, add64, sext32}
use rusty_n.Rsp.Vu.{signed16, acc_signed, acc_of}
use rusty_n.Rsp.Vu.Multiply.{multiply_lane, high_product}
use native.Mathlib.Nat.{add-mul-mod_self_right}

-- A product of words does not see multiples of the modulus.
congruent : (a b p q m : ℕ) → (a + p * m) * (b + q * m) % m ≡ a * b % m
congruent a b p q m =
    let e : (a + p * m) * (b + q * m) ≡ a * b + (p * (b + q * m) + a * q) * m = grind arith in
    ap (λ (t : ℕ). t % m) e ∙ add-mul-mod_self_right (a * b) (p * (b + q * m) + a * q) m

expand :
    (x y a b : ℕ)
    → (x * 2 ^ 16 + a) * (y * 2 ^ 16 + b) ≡ x * y * 2 ^ 32 + (x * b + a * y) * 2 ^ 16 + a * b
expand x y a b = grind arith

acc_step : (acc p : ℕ) → acc_of (add64 (acc_signed acc) (u64 p)) ≡ (acc + p) % 2 ^ 48
acc_step acc p = ground arith

acc_step_high :
    (acc s t : ℕ)
    → acc_of (add64 (acc_signed acc) (high_product s t))
      ≡ (acc + signed16 s * signed16 t * 2 ^ 16) % 2 ^ 48
acc_step_high acc s t =
    let e : high_product s t ≡ u64 (signed16 s * signed16 t * 2 ^ 16) = omega arith in
    ap (λ (p : ℕ). acc_of (add64 (acc_signed acc) p)) e
    ∙ acc_step acc (signed16 s * signed16 t * 2 ^ 16)

-- The two halves of a signed word of 32 bits, up to a multiple of 2 ^ 64.
halves :
    (h l : ℕ)
    → h < 2 ^ 16
    → l < 2 ^ 16
    → signed16 h * 2 ^ 16 + l
      ≡ sext32 (h * 2 ^ 16 + l) + (if ltb h (2 ^ 15) then 0 else 2 ^ 16 - 1) * 2 ^ 64
halves h l hh hl = ground arith

-- The accumulator of a lane after VMUDL, VMADM, VMADN and VMADH.
unfoldable pub four_products : ℕ → ℕ → ℕ → ℕ → ℕ → ℕ
four_products acc ah al bh bl =
    let low = (multiply_lane 0x04 acc al bl).0 in
    let mid = (multiply_lane 0x0d low ah bl).0 in
    let both = (multiply_lane 0x0e mid al bh).0 in (multiply_lane 0x0f both ah bh).0

sum_lem :
    (acc ah al bh bl : ℕ)
    → four_products acc ah al bh bl
      ≡ (al * bl / 2 ^ 16
          + signed16 ah * bl
          + al * signed16 bh
          + signed16 ah * signed16 bh * 2 ^ 16)
        % 2 ^ 48
unfolding four_products multiply_lane
sum_lem acc ah al bh bl =
    let low = acc_of (al * bl / 2 ^ 16) in
    let mid = (low + signed16 ah * bl) % 2 ^ 48 in
    let both = (mid + al * signed16 bh) % 2 ^ 48 in
    ap (λ (t : ℕ). acc_of (add64 (acc_signed t) (high_product ah bh)))
      (ap (λ (t : ℕ). acc_of (add64 (acc_signed t) (u64 (al * signed16 bh))))
          (acc_step low (signed16 ah * bl))
        ∙ acc_step mid (al * signed16 bh))
    ∙ (acc_step_high both ah bh ∙ omega arith)

-- The accumulator holds the product of the two signed words, without its low 16 bits.
pub four_products_lem :
    (acc ah al bh bl : ℕ)
    → ah < 2 ^ 16
    → al < 2 ^ 16
    → bh < 2 ^ 16
    → bl < 2 ^ 16
    → four_products acc ah al bh bl
      ≡ u64 (sext32 (ah * 2 ^ 16 + al) * sext32 (bh * 2 ^ 16 + bl)) / 2 ^ 16
four_products_lem acc ah al bh bl pa pa' pb pb' =
    let x = signed16 ah in
    let y = signed16 bh in
    let a = sext32 (ah * 2 ^ 16 + al) in
    let b = sext32 (bh * 2 ^ 16 + bl) in
    let p = if ltb ah (2 ^ 15) then 0 else 2 ^ 16 - 1 in
    let q = if ltb bh (2 ^ 15) then 0 else 2 ^ 16 - 1 in
    let split : (x * 2 ^ 16 + al) * (y * 2 ^ 16 + bl) ≡ (a + p * 2 ^ 64) * (b + q * 2 ^ 64) =
      ap₂ (λ (m n : ℕ). m * n) (halves ah al pa pa') (halves bh bl pb pb') in
    sum_lem acc ah al bh bl
    ∙ (shift_sum (al * bl) (x * bl) (al * y) (x * y)
        ∙ ap (λ (t : ℕ). u64 t / 2 ^ 16) (sym (expand x y al bl) ∙ split)
        ∙ ap (λ (t : ℕ). t / 2 ^ 16) (congruent a b p q (2 ^ 64)))
  where
    shift_sum :
        (low mid mid' high : ℕ)
        → (low / 2 ^ 16 + mid + mid' + high * 2 ^ 16) % 2 ^ 48
          ≡ u64 (high * 2 ^ 32 + (mid + mid') * 2 ^ 16 + low) / 2 ^ 16
    shift_sum low mid mid' high = omega arith
