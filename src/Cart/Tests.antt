-- ===== src/Cart/Tests.antt =====
-- Runs of the cartridge components on concrete inputs, and their theorems there.
use rusty_n.Base.{ℕ, ◌+◌, ◌*◌, ◌<◌, ◌≡◌, arith, Bool, true, false, List, [], ◌∷◌}
use rusty_n.Base.{get_or, replicate, length, length-replicate, All-replicate}
use rusty_n.Cart.Pi
use rusty_n.Cart.Pi.Transfers
use rusty_n.Cart.Pi.Timing
use rusty_n.Cart.Flash
use rusty_n.Cart.Flash.{FlashOp, command, byte}
use rusty_n.Cart.Flash.Invariant
use rusty_n.Cart.Flash.Rewrite
use rusty_n.Cart.Save.RoundTrip

abbrev set_up : Pi.Pi
set_up = record Pi.new { dram_addr = 0x1000; cart_addr = 0x1000_0000 }

abbrev two_blocks : List (Bool × ℕ)
two_blocks = (true, 0x0f) ∷ (false, 0x01) ∷ []

abbrev copy_and_acknowledge : List Transfers.Event
copy_and_acknowledge =
    Transfers.store 0x0460_000c 7 ∷ Transfers.done ∷ Transfers.store 0x0460_0010 2 ∷ []

new-IsValid : Timing.IsValid Pi.new
new-IsValid = omega arith

abbrev page : List ℕ
page = replicate 128 0x5a

abbrev some_ops : List FlashOp
some_ops = command 0xb400_0000 ∷ byte 3 0x0f ∷ command 0xa500_0002 ∷ []

run-IsValid_example : Invariant.IsValid (Flash.run Flash.new some_ops)
run-IsValid_example =
    Invariant.run-IsValid Flash.new some_ops Invariant.new-IsValid (tt, (omega arith, (tt, tt)))

size_of_new : length Flash.new.array ≡ 128 * 1024
size_of_new = Invariant.new-IsValid.size

read-rewrite_page_example :
    Flash.read (Flash.run Flash.new (Rewrite.rewrite_page 130 page)) (130 * 128 + 5)
    ≡ get_or page 5 0
read-rewrite_page_example =
    Rewrite.read-rewrite_page Flash.new 130 page (130 * 128 + 5) Invariant.new-IsValid (omega arith)
      (length-replicate {A = ℕ} 128 0x5a)
      (All-replicate (λ (b : ℕ). b < 256) 128 0x5a (omega arith)) (omega arith)

abbrev store_of_zeros : List ℕ
store_of_zeros = 0 ∷ 0 ∷ 0 ∷ 0 ∷ 0 ∷ 0 ∷ 0 ∷ 0 ∷ []

abbrev block : List ℕ
block = 1 ∷ 2 ∷ 3 ∷ 4 ∷ 5 ∷ 6 ∷ 7 ∷ 8 ∷ []

abbrev four_blocks : List ℕ
four_blocks = replicate 64 0

abbrev pak_block : List ℕ
pak_block = replicate 32 0x5a

abbrev accesses : List RoundTrip.Access
accesses = RoundTrip.bus_write 0x0800_0000 1 ∷ RoundTrip.bus_command 0x7800_0000 ∷ []
