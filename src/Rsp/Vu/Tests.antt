-- ===== src/Rsp/Vu/Tests.antt =====
-- Tests of the vector unit's model.
use rusty_n.Base.{ℕ, ◌+◌, ◌-◌, ◌*◌, ◌/◌, ◌%◌, ◌^◌, ◌≤◌, ◌<◌, ◌≡◌, arith, none, false}
use rusty_n.Base.{◌==◌, if◌then◌else◌, u64, sext32, add32}
use rusty_n.Rsp.Sp
use rusty_n.Rsp.Su.{sext, r, dmem_read}
use rusty_n.Rsp.Vu.{Vu, Rsp, vu_byte, mfc2, mtc2}
use rusty_n.Rsp.Vu.Bytes.{mfc2-mtc2}
use rusty_n.Rsp.Vu.Compute.Products.{multiply_words, multiply_words_lem}
use rusty_n.Rsp.Vu.Compute.Lanes.{lane_of}
use rusty_n.Rsp.Vu.Compute.Carry.{add_words, sub_words, word_at, words_lem}
use rusty_n.Rsp.Vu.Divide.{inverse_square_root}
use rusty_n.Rsp.Vu.Divide.Root.{inverse_square_root_lem}
use rusty_n.Rsp.Vu.Transfer.{effective, vector_mem}
use rusty_n.Rsp.Vu.Transfer.Misaligned.{misaligned_load}
use native.Mathlib.Nat.{mul-le-mul}

-- Registers 1 and 2 hold the halves of -32768, registers 3 and 4 those of 0x1_4000.
abbrev sample : Vu
sample = record {
  vu_regs = λ g l.
      if g == 1
      then 0xffff
      else if g == 2
      then 0x8000
      else if g == 3
      then 1
      else if g == 4
      then 0x4000
      else 0;
  vu_acc = λ l. 7;
  vu_ctrl = record { vco = 0xff; vcc = 0; vce = 0 };
  div = record { input = 0; output = 0; pending = false };
}

abbrev running : Rsp
running = record {
  su_regs = λ n. 8;
  dmem = λ n. n % 256;
  imem = λ n. 0;
  sp = Sp.new;
  dp = λ n. 0;
  branch = none;
  vu = sample;
}

multiply_words_lem_example :
    (multiply_words sample 1 2 3 4 5).vu_acc 6
    ≡ u64 (sext32 (0xffff * 2 ^ 16 + 0x8000) * sext32 (1 * 2 ^ 16 + 0x4000)) / 2 ^ 16
multiply_words_lem_example =
    multiply_words_lem sample 1 2 3 4 5 6 (omega arith) (omega arith) (omega arith) (omega arith)
      (omega arith) (omega arith) (omega arith) (omega arith) (omega arith)

words_lem_example :
    (word_at (add_words sample 1 2 3 4 6 5) 5 6
      ≡ (0xffff * 2 ^ 16 + 0x8000 + (1 * 2 ^ 16 + 0x4000)) % 2 ^ 32)
    × (word_at (sub_words sample 1 2 3 4 6 5) 5 6
        ≡ (0xffff * 2 ^ 16 + 0x8000 + 2 ^ 32 - (1 * 2 ^ 16 + 0x4000)) % 2 ^ 32)
    × (lane_of (add_words sample 1 2 3 4 6 5) 6 6 ≡ 0)
    × (lane_of (sub_words sample 1 2 3 4 6 5) 6 6 ≡ 0xfffe)
    × ((add_words sample 1 2 3 4 6 5).vu_ctrl.vco ≡ 0)
    × ((sub_words sample 1 2 3 4 6 5).vu_ctrl.vco ≡ 0)
words_lem_example =
    words_lem sample 1 2 3 4 6 5 6 (omega arith) (omega arith) (omega arith) (omega arith)
      (omega arith) (omega arith) (omega arith) (omega arith)

small_square : (c : ℕ) → c < 262143 → 256 * (c + 1) * (c + 1) < 2 ^ 44
small_square c h =
    let row : 256 * (c + 1) ≤ 256 * 262143 = omega arith in
    let root : 256 * (c + 1) * (c + 1) ≤ 256 * 262143 * 262143 =
      mul-le-mul {m₂ = 262143} row (omega arith) in
    omega (arith, root)

inverse_square_root_lem_example : inverse_square_root 1 + 2 ^ 16 ≡ 262143 / 2
inverse_square_root_lem_example =
    inverse_square_root_lem 1 262143 (omega arith) (omega arith) (omega arith)
      (λ c le lt. small_square c lt)

-- A load at address 24 - 3 * 16, so that it runs around the end of the memory.
misaligned_load_example :
    vu_byte (vector_mem false 5 4 9 0 126 (vector_mem false 4 4 9 0 125 running).0).0.vu 9 11
    ≡ dmem_read running (add32 (effective (r running 4) 125 16) 11)
unfolding dmem_read
misaligned_load_example =
    misaligned_load running 4 9 125 11 (λ x. omega arith) (omega arith) (omega arith) (omega arith)

mfc2-mtc2_example :
    (mfc2 (record running { vu = mtc2 running.vu 0x8123 4 7 }) 3 4 7).1
    ≡ sext (0x8123 / 2 ^ 8 % 2 ^ 8 * 2 ^ 8 + 0x8123 % 2 ^ 8)
mfc2-mtc2_example = mfc2-mtc2 running 3 4 7 0x8123 (omega arith)
