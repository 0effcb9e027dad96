-- ===== src/Cpu/Fpr/Tests.antt =====
-- The floating-point registers on concrete inputs.
use rusty_n.Base.{◌*◌, ◌+◌, ◌^◌, ◌≡◌, arith, false}
use rusty_n.Cpu.Fpr.{Fpr, read_s, write_s}
use rusty_n.Cpu.Fpr.Halves

abbrev numbered : Fpr
numbered = record { fgr = λ n. n * (2 ^ 32 + 1) }

read_s-write_s_example : read_s (write_s numbered 5 false 77) 4 false ≡ read_s numbered 4 false
read_s-write_s_example = Halves.read_s-write_s numbered 5 4 77 false (omega arith)
