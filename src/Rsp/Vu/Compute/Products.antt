-- ===== src/Rsp/Vu/Compute/Products.antt =====
-- The four multiplications as instructions on whole registers: vu_compute of
-- crates/rustyn64-rsp/src/vu.rs.
use rusty_n.Base.{ℕ, ◌+◌, ◌*◌, ◌/◌, ◌^◌, ◌<◌, ◌≡◌, ◌≢◌, refl, ◌∙◌}
use rusty_n.Base.{u64, sext32, bit_and}
use rusty_n.Rsp.Vu.{Vu}
use rusty_n.Rsp.Vu.Multiply.Product.{four_products, four_products_lem}
use rusty_n.Rsp.Vu.Compute.{lane_result}
use rusty_n.Rsp.Vu.Compute.Lanes.{run_op, lane_of, op_result, op_acc, op_keeps}

-- VMUDL, VMADM, VMADN and VMADH on two pairs of registers that hold the halves of words.
abbrev pub multiply_words : Vu → ℕ → ℕ → ℕ → ℕ → ℕ → Vu
multiply_words s ah al bh bl vd =
    run_op (run_op (run_op (run_op s 0x04 al bl vd) 0x0d ah bl vd) 0x0e al bh vd) 0x0f ah bh vd

module _ (s : Vu) (ah al bh bl vd l : ℕ) (lane : l < 8) where
  run_lem :
      bit_and ah 31 ≢ bit_and vd 31
      → bit_and al 31 ≢ bit_and vd 31
      → bit_and bh 31 ≢ bit_and vd 31
      → bit_and bl 31 ≢ bit_and vd 31
      → (multiply_words s ah al bh bl vd).vu_acc l
        ≡ four_products
            (s.vu_acc l)
            (lane_of s ah l)
            (lane_of s al l)
            (lane_of s bh l)
            (lane_of s bl l)
  unfolding four_products op_result lane_result
  run_lem pa pa' pb pb' =
      let s1 = run_op s 0x04 al bl vd in
      let s2 = run_op s1 0x0d ah bl vd in
      let s3 = run_op s2 0x0e al bh vd in
      let kept1 =
        λ (g : ℕ) (h : bit_and g 31 ≢ bit_and vd 31). op_keeps s 0x04 al bl vd l lane g h refl in
      let kept2 =
        λ (g : ℕ) (h : bit_and g 31 ≢ bit_and vd 31). op_keeps s1 0x0d ah bl vd l lane g h refl in
      let kept3 =
        λ (g : ℕ) (h : bit_and g 31 ≢ bit_and vd 31). op_keeps s2 0x0e al bh vd l lane g h refl in
      let e1 = op_acc s 0x04 al bl vd l lane refl in
      let e2 = op_acc s1 0x0d ah bl vd l lane refl in
      let e3 = op_acc s2 0x0e al bh vd l lane refl in
      let e4 = op_acc s3 0x0f ah bh vd l lane refl in
      cc (
        e1,
        e2,
        e3,
        e4,
        kept1 ah pa,
        kept1 al pa',
        kept1 bh pb,
        kept1 bl pb',
        kept2 ah pa,
        kept2 al pa',
        kept2 bh pb,
        kept3 ah pa,
        kept3 bh pb,
      )

  -- After the four multiplications, with a target register other than the operands, the
  -- accumulator of each lane is the product of the two signed words of 32 bits, without its low 16
  -- bits.
  pub multiply_words_lem :
      bit_and ah 31 ≢ bit_and vd 31
      → bit_and al 31 ≢ bit_and vd 31
      → bit_and bh 31 ≢ bit_and vd 31
      → bit_and bl 31 ≢ bit_and vd 31
      → lane_of s ah l < 2 ^ 16
      → lane_of s al l < 2 ^ 16
      → lane_of s bh l < 2 ^ 16
      → lane_of s bl l < 2 ^ 16
      → (multiply_words s ah al bh bl vd).vu_acc l
        ≡ u64 (
            sext32 (lane_of s ah l * 2 ^ 16 + lane_of s al l)
            * sext32 (lane_of s bh l * 2 ^ 16 + lane_of s bl l))
          / 2 ^ 16
  multiply_words_lem pa pa' pb pb' xa xa' xb xb' =
      run_lem pa pa' pb pb'
      ∙ four_products_lem (s.vu_acc l) (lane_of s ah l) (lane_of s al l) (lane_of s bh l)
          (lane_of s bl l) xa xa' xb xb'
