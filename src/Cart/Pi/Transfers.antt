-- ===== src/Cart/Pi/Transfers.antt =====
-- What a length write starts, how transfers chain, and when the interrupt is asserted.
use rusty_n.Base.{ℕ, ◌+◌, ◌%◌, ◌^◌, ◌<◌, ◌≡◌, refl, arith}
use rusty_n.Base.{Bool, true, false, Option, none, some, List, [], ◌∷◌, if◌then◌else◌}
use rusty_n.Base.{bit_and_low, add32, ◌==◌, any_set_pow, bit}
use rusty_n.Cart.Pi.{Pi, Transfer, write, start, started, complete, write_status}
use rusty_n.Cart.Pi.{
  dom_field, field_write, timing_write, word_addr, pi_rd_len, pi_wr_len, pi_status,
}

-- The transfer of `v % 2 ^ 24 + 1` bytes from the addresses that the registers hold.
abbrev pub block : Pi → ℕ → Bool → Transfer
block p v to_dram = record {
  dram = p.dram_addr;
  cart = p.cart_addr;
  len = v % 2 ^ 24 + 1;
  to_dram = to_dram;
}

-- A write starts a transfer exactly when it addresses one of the two length registers: to RDRAM
-- at the one named for a write, to the cartridge at the one named for a read, always of one byte
-- more than the low 24 bits of the value.
pub write-transfer :
    (p : Pi) (a v : ℕ)
    → (write p a v).1 ≡ (
        if word_addr a == pi_rd_len
        then some (block p v false)
        else if word_addr a == pi_wr_len
        then some (block p v true)
        else none)
unfolding write started start dom_field
write-transfer p a v = ground (arith, bit_and_low 24 v)

-- Length writes, each with its direction, one after the other.
pub transfers : Pi → List (Bool × ℕ) → List Transfer × Pi
transfers p [] = ([], p)
transfers p ((to_dram, v) ∷ rest) =
    let (p', t) = start p v to_dram in let (ts, q) = transfers p' rest in (t ∷ ts, q)

-- The blocks that start at the given addresses and lie end to end, modulo 2 ^ 32.
pub end_to_end : ℕ → ℕ → List (Bool × ℕ) → List Transfer
end_to_end d c [] = []
end_to_end d c ((to_dram, v) ∷ rest) =
    record { dram = d; cart = c; len = v % 2 ^ 24 + 1; to_dram = to_dram }
    ∷ end_to_end (add32 d (v % 2 ^ 24 + 1)) (add32 c (v % 2 ^ 24 + 1)) rest

-- The bytes that the transfers move in all.
pub total : List (Bool × ℕ) → ℕ
total [] = 0
total ((to_dram, v) ∷ rest) = v % 2 ^ 24 + 1 + total rest

start_lem :
    (p : Pi) (v : ℕ) (to_dram : Bool)
    → ((start p v to_dram).1 ≡ block p v to_dram)
      × ((start p v to_dram).0.dram_addr ≡ add32 p.dram_addr (v % 2 ^ 24 + 1))
      × ((start p v to_dram).0.cart_addr ≡ add32 p.cart_addr (v % 2 ^ 24 + 1))
unfolding start
start_lem p v to_dram = ground (arith, bit_and_low 24 v)

-- Consecutive length writes, in either direction and with no address written between them, move
-- blocks that lie end to end on both sides.
pub transfers_chain :
    (p : Pi) (vs : List (Bool × ℕ)) → (transfers p vs).0 ≡ end_to_end p.dram_addr p.cart_addr vs
unfolding transfers end_to_end
transfers_chain p [] = refl
transfers_chain p ((to_dram, v) ∷ rest) =
    let h = start_lem p v to_dram in rw (transfers_chain (start p v to_dram).0 rest, h.0, h.1, h.2)

-- Where they start below 2 ^ 32, both address registers are left past all the bytes moved.
pub transfers_advance :
    (p : Pi) (vs : List (Bool × ℕ))
    → p.dram_addr < 2 ^ 32
    → p.cart_addr < 2 ^ 32
    → ((transfers p vs).1.dram_addr ≡ add32 p.dram_addr (total vs))
      × ((transfers p vs).1.cart_addr ≡ add32 p.cart_addr (total vs))
unfolding transfers total
transfers_advance p [] hd hc = (omega arith, omega arith)
transfers_advance p ((to_dram, v) ∷ rest) hd hc =
    let h = start_lem p v to_dram in
    let ih = transfers_advance (start p v to_dram).0 rest (omega (arith, h)) (omega (arith, h)) in
    (omega (arith, h, ih), omega (arith, h, ih))

-- What reaches the interface: a register write, or the end of the copy.
pub data Event : Type 0 where
  store : ℕ → ℕ → Event
  done : Event

pub run : Pi → List Event → Pi
run p [] = p
run p (store a v ∷ es) = run (write p a v).0 es
run p (done ∷ es) = run (complete p) es

-- The interrupt line from the events alone: raised by the end of a copy, lowered by a
-- status write with bit 1, held by anything else.
pub line : Bool → List Event → Bool
line b [] = b
line b (done ∷ es) = line true es
line b (store a v ∷ es) =
    line (if word_addr a == pi_status then (if bit 1 v == 1 then false else b) else b) es

-- The busy flag from the events alone: raised by a length write, lowered by the end of a copy
-- and by a status write with bit 0.
pub occupied : Bool → List Event → Bool
occupied b [] = b
occupied b (done ∷ es) = occupied false es
occupied b (store a v ∷ es) =
    occupied
      (if word_addr a == pi_status
        then (if bit 0 v == 1 then false else b)
        else if word_addr a == pi_rd_len
        then true
        else if word_addr a == pi_wr_len
        then true
        else b)
      es

timing_write_flags :
    (p : Pi) (o : Option (ℕ × ℕ)) (v : ℕ)
    → ((timing_write p o v).busy ≡ p.busy) × ((timing_write p o v).interrupt ≡ p.interrupt)
unfolding timing_write field_write
timing_write_flags p none v = (refl, refl)
timing_write_flags p (some (d, f)) v = ground arith

write_flags :
    (p : Pi) (a v : ℕ)
    → ((write p a v).0.interrupt ≡ (
        if word_addr a == pi_status
        then (if bit 1 v == 1 then false else p.interrupt)
        else p.interrupt))
      × ((write p a v).0.busy ≡ (
          if word_addr a == pi_status
          then (if bit 0 v == 1 then false else p.busy)
          else if word_addr a == pi_rd_len
          then true
          else if word_addr a == pi_wr_len
          then true
          else p.busy))
unfolding write started start write_status
write_flags p a v =
    ground
      (arith, any_set_pow 0 v, any_set_pow 1 v, timing_write_flags p (dom_field (word_addr a)) v)

-- After any sequence of register writes and completed copies, the interrupt line and the busy
-- flag are what the events alone say they are.
pub run_flags :
    (p : Pi) (es : List Event)
    → ((run p es).interrupt ≡ line p.interrupt es) × ((run p es).busy ≡ occupied p.busy es)
unfolding run line occupied complete
run_flags p [] = (refl, refl)
run_flags p (store a v ∷ es) =
    let h = write_flags p a v in
    let ih = run_flags (write p a v).0 es in (rw (← h.0) ih.0, rw (← h.1) ih.1)
run_flags p (done ∷ es) = run_flags (complete p) es
