-- ===== src/Rsp/Tests.antt =====
-- Runs of the SP registers on concrete inputs, and their theorems there.
use rusty_n.Base.{◌≤◌, ◌≡◌, refl, arith, List, [], ◌∷◌, bit}
use rusty_n.Rsp.Sp
use rusty_n.Rsp.Sp.Status
use rusty_n.Rsp.Sp.Semaphore

-- Clear HALTED, clear and set SSTEP at once, set signal 3.
bit-write_status_example : bit 10 (Sp.write_status 0x61 0x1_0061) ≡ 1
bit-write_status_example = Status.bit-write_status 0x61 0x1_0061 10 (omega arith)

write_status_run : Sp.write_status 0x61 0x1_0061 ≡ 0x460
unfolding Sp.write_status Sp.apply Sp.clear_broke Sp.signals
write_status_run = refl

abbrev contenders : List Semaphore.Access
contenders = Semaphore.load 7 ∷ Semaphore.store 4 2 ∷ Semaphore.load 7 ∷ Semaphore.load 15 ∷ []

acquisitions_once_example : Semaphore.acquisitions Sp.new contenders ≤ 1
acquisitions_once_example =
    Semaphore.acquisitions_once Sp.new contenders (tt, (omega arith, (tt, (tt, tt))))

abbrev staging : List Semaphore.Access
staging = Semaphore.store 0 0x1235 ∷ Semaphore.store 1 0x2000 ∷ Semaphore.load 0 ∷ []
