-- ===== src/Rsp/Vu/Compute/Carry.antt =====
-- Sums and differences of 32 bits from pairs of instructions on 16 bits, VADDC with VADD and VSUBC
-- with VSUB: vu_compute of crates/rustyn64-rsp/src/vu.rs.
use rusty_n.Base.{ℕ, ◌+◌, ◌-◌, ◌*◌, ◌/◌, ◌%◌, ◌^◌, ◌<◌, ◌≡◌, ◌≢◌, refl, ap, ◌∙◌, arith}
use rusty_n.Base.{min, max, ◌==◌, ltb, leb, if◌then◌else◌, u16, bit_and, bit_or}
use rusty_n.Base.{add64, sub64, bit, bit-shr, any_set_pow, bit_and_field, bit_or_disjoint}
use rusty_n.Base.{◌⊎◌, inl, inr}
use rusty_n.Rsp.Vu.{Vu, Control, with_acc_low, signed16, clamp_signed}
use rusty_n.Rsp.Vu.Clip.{flag, vco_l}
use rusty_n.Rsp.Vu.Compute.{lane_result, add_lane, carry_lane, flags_after, vu_compute}
use rusty_n.Rsp.Vu.Compute.Lanes.{run_op, lane_of, op_result, op_acc, op_out, op_keeps, op_carry}

flag_lem : (reg n : ℕ) → flag reg n ≡ (bit n reg == 1)
unfolding flag
flag_lem reg n =
    let e : 0 + n ≡ n = omega arith in
    any_set_pow 0 (reg / 2 ^ n)
    ∙ (ap (λ (t : ℕ). t == 1) (bit-shr n 0 reg) ∙ ap (λ (t : ℕ). bit t reg == 1) e)

acc_low_lem : (acc v : ℕ) → v < 2 ^ 16 → with_acc_low acc v ≡ acc / 2 ^ 16 % 2 ^ 32 * 2 ^ 16 + v
acc_low_lem acc v h =
    ap (λ (t : ℕ). bit_or t v) (bit_and_field 16 32 acc)
    ∙ bit_or_disjoint 16 (acc / 2 ^ 16 % 2 ^ 32) v h

-- The low halves: the sum or difference, and its carry or borrow.
low_half :
    (op acc s t : ℕ)
    → s < 2 ^ 16
    → t < 2 ^ 16
    → ((carry_lane 0x14 acc s t).out ≡ (s + t) % 2 ^ 16)
      × ((carry_lane 0x14 acc s t).carry ≡ leb (2 ^ 16) (s + t))
      × ((carry_lane 0x15 acc s t).out ≡ (s + 2 ^ 16 - t) % 2 ^ 16)
      × ((carry_lane 0x15 acc s t).carry ≡ ltb s t)
unfolding carry_lane
low_half op acc s t hs ht = (
  omega arith,
  any_set_pow 0 ((s + t) / 2 ^ 16) ∙ ground arith,
  omega arith,
  any_set_pow 0 (sub64 s t / 2 ^ 16) ∙ ground arith,
)

-- The high halves, in the accumulator, with the carry or borrow.
high_half :
    (c : Control) (lane acc s t : ℕ)
    → s < 2 ^ 16
    → t < 2 ^ 16
    → ((add_lane 0x10 c lane acc s t).acc % 2 ^ 16
        ≡ (s + t + (if vco_l c lane then 1 else 0)) % 2 ^ 16)
      × ((add_lane 0x11 c lane acc s t).acc % 2 ^ 16
          ≡ (s + 2 ^ 17 - t - (if vco_l c lane then 1 else 0)) % 2 ^ 16)
unfolding add_lane
high_half c lane acc s t hs ht =
    let carry = if vco_l c lane then 1 else 0 in
    let sum = add64 (add64 (signed16 s) (signed16 t)) carry in
    let difference = sub64 (sub64 (signed16 s) (signed16 t)) carry in
    (
      ap (λ (t : ℕ). t % 2 ^ 16) (acc_low_lem acc (u16 sum) (omega arith)) ∙ ground arith,
      ap (λ (t : ℕ). t % 2 ^ 16) (acc_low_lem acc (u16 difference) (omega arith)) ∙ ground arith,
    )

-- A signed halfword, biased so that it is not negative; and what a register gets for a sum of two of
-- them, whose bias is then twice as much: the value in the range of a signed halfword that is next.
abbrev pub biased16 : ℕ → ℕ
biased16 x = (x + 2 ^ 15) % 2 ^ 16

abbrev pub saturated : ℕ → ℕ
saturated x = min (max x (2 ^ 15)) (2 ^ 15 + 2 ^ 16 - 1) % 2 ^ 16

high_target :
    (c : Control) (lane acc s t : ℕ)
    → s < 2 ^ 16
    → t < 2 ^ 16
    → ((add_lane 0x10 c lane acc s t).out
        ≡ saturated (biased16 s + biased16 t + (if vco_l c lane then 1 else 0)))
      × ((add_lane 0x11 c lane acc s t).out
          ≡ saturated (biased16 s + 2 ^ 16 - biased16 t - (if vco_l c lane then 1 else 0)))
unfolding add_lane clamp_signed
high_target c lane acc s t hs ht = (ground arith, ground arith)

-- VADDC on the low halves, then VADD on the high halves; and VSUBC, then VSUB.
abbrev pub add_words : Vu → ℕ → ℕ → ℕ → ℕ → ℕ → ℕ → Vu
add_words s ah al bh bl dh dl = run_op (run_op s 0x14 al bl dl) 0x10 ah bh dh

abbrev pub sub_words : Vu → ℕ → ℕ → ℕ → ℕ → ℕ → ℕ → Vu
sub_words s ah al bh bl dh dl = run_op (run_op s 0x15 al bl dl) 0x11 ah bh dh

-- The word whose low half an instruction left in a register, and whose high half the accumulator
-- holds.
abbrev pub word_at : Vu → ℕ → ℕ → ℕ
word_at s dl l = s.vu_acc l % 2 ^ 16 * 2 ^ 16 + lane_of s dl l

module _ (s : Vu) (ah al bh bl dh dl l : ℕ) (lane : l < 8) where
  -- What the first instruction leaves for the second, and the second for the reader.
  after_first :
      (op : ℕ)
      → (op ≡ 0x14) ⊎ (op ≡ 0x15)
      → vco_l (run_op s op al bl dl).vu_ctrl l ≡ (op_result s op al bl dl l lane).carry
  unfolding vco_l
  after_first op h =
      flag_lem (run_op s op al bl dl).vu_ctrl.vco l
      ∙ ground (arith, op_carry s op al bl dl l lane h)

  add_lem :
      bit_and ah 31 ≢ bit_and dl 31
      → bit_and bh 31 ≢ bit_and dl 31
      → bit_and dl 31 ≢ bit_and dh 31
      → lane_of s ah l < 2 ^ 16
      → lane_of s al l < 2 ^ 16
      → lane_of s bh l < 2 ^ 16
      → lane_of s bl l < 2 ^ 16
      → word_at (add_words s ah al bh bl dh dl) dl l
        ≡ (lane_of s ah l * 2 ^ 16 + lane_of s al l + (lane_of s bh l * 2 ^ 16 + lane_of s bl l))
          % 2 ^ 32
  unfolding op_result lane_result
  add_lem pa pb pd xa xa' xb xb' =
      let s1 = run_op s 0x14 al bl dl in
      let low = low_half 0 (s.vu_acc l) (lane_of s al l) (lane_of s bl l) xa' xb' in
      let e1 = op_keeps s 0x14 al bl dl l lane ah pa refl in
      let e2 = op_keeps s 0x14 al bl dl l lane bh pb refl in
      let out = op_out s 0x14 al bl dl l lane refl in
      let kept = op_keeps s1 0x10 ah bh dh l lane dl pd refl in
      let acc = op_acc s1 0x10 ah bh dh l lane refl in
      let high =
        high_half s1.vu_ctrl l (s1.vu_acc l) (lane_of s1 ah l) (lane_of s1 bh l) (omega (arith, e1))
          (omega (arith, e2)) in
      let carry = after_first 0x14 (inl refl) in
      let both = ap (λ (t : ℕ). t % 2 ^ 16) acc ∙ high.0 in
      let least = kept ∙ (out ∙ low.0) in ground (arith, both, least, carry, low.1, e1, e2)

  sub_lem :
      bit_and ah 31 ≢ bit_and dl 31
      → bit_and bh 31 ≢ bit_and dl 31
      → bit_and dl 31 ≢ bit_and dh 31
      → lane_of s ah l < 2 ^ 16
      → lane_of s al l < 2 ^ 16
      → lane_of s bh l < 2 ^ 16
      → lane_of s bl l < 2 ^ 16
      → word_at (sub_words s ah al bh bl dh dl) dl l
        ≡ (lane_of s ah l * 2 ^ 16
            + lane_of s al l
            + 2 ^ 32
            - (lane_of s bh l * 2 ^ 16 + lane_of s bl l))
          % 2 ^ 32
  unfolding op_result lane_result
  sub_lem pa pb pd xa xa' xb xb' =
      let s1 = run_op s 0x15 al bl dl in
      let low = low_half 0 (s.vu_acc l) (lane_of s al l) (lane_of s bl l) xa' xb' in
      let e1 = op_keeps s 0x15 al bl dl l lane ah pa refl in
      let e2 = op_keeps s 0x15 al bl dl l lane bh pb refl in
      let out = op_out s 0x15 al bl dl l lane refl in
      let kept = op_keeps s1 0x11 ah bh dh l lane dl pd refl in
      let acc = op_acc s1 0x11 ah bh dh l lane refl in
      let high =
        high_half s1.vu_ctrl l (s1.vu_acc l) (lane_of s1 ah l) (lane_of s1 bh l) (omega (arith, e1))
          (omega (arith, e2)) in
      let carry = after_first 0x15 (inr refl) in
      let both = ap (λ (t : ℕ). t % 2 ^ 16) acc ∙ high.1 in
      let least = kept ∙ (out ∙ low.2) in ground (arith, both, least, carry, low.3, e1, e2)

  add_target :
      bit_and ah 31 ≢ bit_and dl 31
      → bit_and bh 31 ≢ bit_and dl 31
      → lane_of s ah l < 2 ^ 16
      → lane_of s al l < 2 ^ 16
      → lane_of s bh l < 2 ^ 16
      → lane_of s bl l < 2 ^ 16
      → lane_of (add_words s ah al bh bl dh dl) dh l
        ≡ saturated (
            biased16 (lane_of s ah l)
            + biased16 (lane_of s bh l)
            + (lane_of s al l + lane_of s bl l) / 2 ^ 16)
  unfolding op_result lane_result
  add_target pa pb xa xa' xb xb' =
      let s1 = run_op s 0x14 al bl dl in
      let low = low_half 0 (s.vu_acc l) (lane_of s al l) (lane_of s bl l) xa' xb' in
      let e1 = op_keeps s 0x14 al bl dl l lane ah pa refl in
      let e2 = op_keeps s 0x14 al bl dl l lane bh pb refl in
      let out = op_out s1 0x10 ah bh dh l lane refl in
      let high =
        high_target s1.vu_ctrl l (s1.vu_acc l) (lane_of s1 ah l) (lane_of s1 bh l)
          (omega (arith, e1)) (omega (arith, e2)) in
      let carry = after_first 0x14 (inl refl) in
      out ∙ (high.0 ∙ ap saturated (ground (arith, carry, low.1, e1, e2)))

  sub_target :
      bit_and ah 31 ≢ bit_and dl 31
      → bit_and bh 31 ≢ bit_and dl 31
      → lane_of s ah l < 2 ^ 16
      → lane_of s al l < 2 ^ 16
      → lane_of s bh l < 2 ^ 16
      → lane_of s bl l < 2 ^ 16
      → lane_of (sub_words s ah al bh bl dh dl) dh l
        ≡ saturated (
            biased16 (lane_of s ah l)
            + 2 ^ 16
            - biased16 (lane_of s bh l)
            - (if ltb (lane_of s al l) (lane_of s bl l) then 1 else 0))
  unfolding op_result lane_result
  sub_target pa pb xa xa' xb xb' =
      let s1 = run_op s 0x15 al bl dl in
      let low = low_half 0 (s.vu_acc l) (lane_of s al l) (lane_of s bl l) xa' xb' in
      let e1 = op_keeps s 0x15 al bl dl l lane ah pa refl in
      let e2 = op_keeps s 0x15 al bl dl l lane bh pb refl in
      let out = op_out s1 0x11 ah bh dh l lane refl in
      let high =
        high_target s1.vu_ctrl l (s1.vu_acc l) (lane_of s1 ah l) (lane_of s1 bh l)
          (omega (arith, e1)) (omega (arith, e2)) in
      let carry = after_first 0x15 (inr refl) in
      out ∙ (high.1 ∙ ap saturated (ground (arith, carry, low.3, e1, e2)))

  -- VADDC on the low halves and then VADD on the high halves of two words, and VSUBC and then VSUB,
  -- where the target of the first is neither a source nor the target of the second, and the source
  -- lanes are halfwords: the target of the first holds the low half of the sum or difference of 32
  -- bits, and the lowest 16 bits of the accumulator its high half, also where the result wraps
  -- around. The target of the second holds the sum or difference of the signed high halves with the
  -- carry or borrow of the low halves, cut off at the ends of the range of a signed halfword. The
  -- carry flags are cleared.
  pub words_lem :
      bit_and ah 31 ≢ bit_and dl 31
      → bit_and bh 31 ≢ bit_and dl 31
      → bit_and dl 31 ≢ bit_and dh 31
      → lane_of s ah l < 2 ^ 16
      → lane_of s al l < 2 ^ 16
      → lane_of s bh l < 2 ^ 16
      → lane_of s bl l < 2 ^ 16
      → (word_at (add_words s ah al bh bl dh dl) dl l
          ≡ (lane_of s ah l * 2 ^ 16 + lane_of s al l + (lane_of s bh l * 2 ^ 16 + lane_of s bl l))
            % 2 ^ 32)
        × (word_at (sub_words s ah al bh bl dh dl) dl l
            ≡ (lane_of s ah l * 2 ^ 16
                + lane_of s al l
                + 2 ^ 32
                - (lane_of s bh l * 2 ^ 16 + lane_of s bl l))
              % 2 ^ 32)
        × (lane_of (add_words s ah al bh bl dh dl) dh l
            ≡ saturated (
                biased16 (lane_of s ah l)
                + biased16 (lane_of s bh l)
                + (lane_of s al l + lane_of s bl l) / 2 ^ 16))
        × (lane_of (sub_words s ah al bh bl dh dl) dh l
            ≡ saturated (
                biased16 (lane_of s ah l)
                + 2 ^ 16
                - biased16 (lane_of s bh l)
                - (if ltb (lane_of s al l) (lane_of s bl l) then 1 else 0)))
        × ((add_words s ah al bh bl dh dl).vu_ctrl.vco ≡ 0)
        × ((sub_words s ah al bh bl dh dl).vu_ctrl.vco ≡ 0)
  unfolding vu_compute flags_after
  words_lem pa pb pd xa xa' xb xb' = (
    add_lem pa pb pd xa xa' xb xb',
    sub_lem pa pb pd xa xa' xb xb',
    add_target pa pb xa xa' xb xb',
    sub_target pa pb xa xa' xb xb',
    refl,
    refl,
  )
