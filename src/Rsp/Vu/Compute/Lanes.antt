-- ===== src/Rsp/Vu/Compute/Lanes.antt =====
-- What vu_compute of crates/rustyn64-rsp/src/vu.rs does to each lane: a lane's function of the
-- operands before the instruction.
use rusty_n.Base.{ℕ, zero, suc, ◌+◌, ◌^◌, ◌≤◌, ◌<◌, ◌≡◌, ◌≢◌, refl, ap, arith, bit_or, bit_and}
use rusty_n.Base.{Bool, true, ◌&&◌, ◌||◌, ◌==◌, ltb, if◌then◌else◌, bit}
use rusty_n.Base.{bit-bit_or, bit-pow, bit-lt-two}
use rusty_n.Base.{◌⊎◌, leb}
use rusty_n.Rsp.Vu.{Vu, vt_lane, vt_lane_own}
use rusty_n.Rsp.Vu.Compute.{
  LaneResult, lane_result, compute_lane, compute_lanes, vu_compute, flags_after,
}

bit_zero : (k : ℕ) → bit k 0 ≡ 0
bit_zero zero = refl
bit_zero (suc k) = bit_zero k

module _ (op element : ℕ) (sv tv : ℕ → ℕ) (vd : ℕ) (s : Vu) where
  unfoldable pub result_at : ℕ → LaneResult
  result_at l = lane_result op element s.vu_ctrl l (s.vu_acc l) (sv l) (tv l)

  lanes_ctrl : (n : ℕ) → (compute_lanes op element sv tv vd s n).vu.vu_ctrl ≡ s.vu_ctrl
  unfolding compute_lanes compute_lane
  lanes_ctrl zero = refl
  lanes_ctrl (suc n) = lanes_ctrl n

  pub lanes_acc :
      (n l : ℕ)
      → (compute_lanes op element sv tv vd s n).vu.vu_acc l
        ≡ (if ltb l n then (result_at l).acc else s.vu_acc l)
  unfolding compute_lanes compute_lane result_at
  lanes_acc zero l = ground arith
  lanes_acc (suc n) l = ground (arith, lanes_acc n l, lanes_acc n n, lanes_ctrl n)

  pub lanes_regs :
      (n g l : ℕ)
      → (compute_lanes op element sv tv vd s n).vu.vu_regs g l
        ≡ (if (g == bit_and vd 31) && ltb l n then (result_at l).out else s.vu_regs g l)
  unfolding compute_lanes compute_lane result_at
  lanes_regs zero g l = ground arith
  lanes_regs (suc n) g l = ground (arith, lanes_regs n g l, lanes_acc n n, lanes_ctrl n)

  -- The carries that VADDC and VSUBC leave, one digit for each lane.
  pub lanes_carry :
      (n k : ℕ)
      → n ≤ 8
      → k < 8
      → bit k (compute_lanes op element sv tv vd s n).new_vco
        ≡ (if ltb k n && (result_at k).carry then 1 else 0)
  unfolding compute_lanes compute_lane result_at
  lanes_carry zero k h hk = ground (arith, bit_zero k)
  lanes_carry (suc n) k h hk =
      let before = compute_lanes op element sv tv vd s n in
      ground (
        arith,
        lanes_carry n k,
        lanes_acc n n,
        lanes_ctrl n,
        bit-bit_or k before.new_vco (2 ^ n),
        bit-bit_or k before.new_vco (2 ^ (n + 8)),
        bit-bit_or k (bit_or before.new_vco (2 ^ n)) (2 ^ (n + 8)),
        bit-pow k n,
        bit-pow k (n + 8),
        bit-lt-two k before.new_vco,
      )

-- The opcodes up to 0x15 that vu_compute works on lane by lane.
abbrev pub is_per_lane : ℕ → Bool
is_per_lane op =
    leb op 1
    || ((leb 3 op && leb op 9) || ((leb 12 op && leb op 17) || (leb 0x13 op && leb op 0x15)))

-- An instruction without a broadcast.
abbrev pub run_op : Vu → ℕ → ℕ → ℕ → ℕ → Vu
run_op s op vs vt vd = (vu_compute s op 0 vs vt vd).0

-- The register `g` as an instruction reads it.
abbrev pub lane_of : Vu → ℕ → ℕ → ℕ
lane_of s g l = s.vu_regs (bit_and g 31) l

module _ (s : Vu) (op vs vt vd l : ℕ) (lane : l < 8) where
  -- The lane's result, from the registers and flags of before.
  unfoldable pub op_result : LaneResult
  op_result = lane_result op 0 s.vu_ctrl l (s.vu_acc l) (lane_of s vs l) (lane_of s vt l)

  result_lem : result_at op 0 (s.vu_regs (bit_and vs 31)) (vt_lane s vt 0) vd s l ≡ op_result
  unfolding result_at op_result
  result_lem =
      ap (λ (t : ℕ). lane_result op 0 s.vu_ctrl l (s.vu_acc l) (lane_of s vs l) t)
        (vt_lane_own s vt l lane)

  pub op_acc : is_per_lane op ≡ true → (run_op s op vs vt vd).vu_acc l ≡ op_result.acc
  unfolding vu_compute
  op_acc h =
      ground
        (arith, lanes_acc op 0 (s.vu_regs (bit_and vs 31)) (vt_lane s vt 0) vd s 8 l, result_lem)

  pub op_out :
      is_per_lane op ≡ true → (run_op s op vs vt vd).vu_regs (bit_and vd 31) l ≡ op_result.out
  unfolding vu_compute
  op_out h = ground (
    arith,
    lanes_regs op 0 (s.vu_regs (bit_and vs 31)) (vt_lane s vt 0) vd s 8 (bit_and vd 31) l,
    result_lem,
  )

  -- The other registers stay.
  pub op_keeps :
      (g : ℕ)
      → bit_and g 31 ≢ bit_and vd 31
      → is_per_lane op ≡ true
      → lane_of (run_op s op vs vt vd) g l ≡ lane_of s g l
  unfolding vu_compute
  op_keeps g other h =
      ground (
        arith,
        lanes_regs op 0 (s.vu_regs (bit_and vs 31)) (vt_lane s vt 0) vd s 8 (bit_and g 31) l,
      )

  pub op_carry :
      (op ≡ 0x14) ⊎ (op ≡ 0x15)
      → bit l (run_op s op vs vt vd).vu_ctrl.vco ≡ (if op_result.carry then 1 else 0)
  unfolding vu_compute flags_after
  op_carry h =
      ground
        (arith, lanes_carry op 0 (s.vu_regs (bit_and vs 31)) (vt_lane s vt 0) vd s 8 l, result_lem)
