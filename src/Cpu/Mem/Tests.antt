-- ===== src/Cpu/Mem/Tests.antt =====
-- Tests of the integer unit's model.
use rusty_n.Base.{ℕ, ◌+◌, ◌≡◌, arith, not, ◌&&◌}
use rusty_n.Cpu.Alu.{add, addu, sub, subu, dadd, daddu, dsub, dsubu}
use rusty_n.Cpu.Alu.Overflow.{sign32, sign64, same, unless, overflow_signs}
use rusty_n.Cpu.Mem.{ldl, ldr, sdl, sdr}
use rusty_n.Cpu.Mem.Unaligned.{unaligned_double}

abbrev a : ℕ
a = 0x7fff_ffff

abbrev b : ℕ
b = 1

overflow_signs_example :
    (add a b
      ≡ unless (same (sign32 a) (sign32 b) && not (same (sign32 a) (sign32 (addu a b)))) (addu a b))
    × (sub a b
        ≡ unless
            (not (same (sign32 a) (sign32 b)) && not (same (sign32 a) (sign32 (subu a b))))
            (subu a b))
    × (dadd a b
        ≡ unless
            (same (sign64 a) (sign64 b) && not (same (sign64 a) (sign64 (daddu a b))))
            (daddu a b))
    × (dsub a b
        ≡ unless
            (not (same (sign64 a) (sign64 b)) && not (same (sign64 a) (sign64 (dsubu a b))))
            (dsubu a b))
overflow_signs_example = overflow_signs a b (omega arith) (omega arith)

unaligned_double_example :
    ldr (ldl 9 (sdl 0x0123_4567_89ab_cdef 5 (2 + 1)) (2 + 1)) (sdr 0x0123_4567_89ab_cdef 7 2) 2
    ≡ 0x0123_4567_89ab_cdef
unaligned_double_example =
    unaligned_double 0x0123_4567_89ab_cdef 9 5 7 2 (omega arith) (omega arith) (omega arith)
      (omega arith)
