-- ===== src/Rsp/Sp/Transfer.antt =====
-- The transfer that a length write starts.
use rusty_n.Base.{ℕ, ◌+◌, ◌*◌, ◌/◌, ◌%◌, ◌^◌, ◌≤◌, ◌<◌, ◌≡◌, ◌≢◌, refl, ap, ◌∙◌, arith, bit_or}
use rusty_n.Base.{Bool, List, [], ◌∷◌, if◌then◌else◌, ◌==◌}
use rusty_n.Base.{bit_and_low, bit_and_field, bit_or_split, bit_or_ones, bit_or-zero}
use rusty_n.Rsp.Sp.{SpRegs, read, write, started, start_dma}
use rusty_n.Rsp.Sp.Semaphore.{Access, load, store}

-- `x | 7` fills the low three digits.
bit_or_seven : (x : ℕ) → bit_or x 7 ≡ x / 8 * 8 + 7
bit_or_seven x =
    ap (λ (t : ℕ). bit_or t 7) (omega arith)
    ∙ (bit_or_split 3 (x / 8) (x % 8) 0 7 (omega arith) (omega arith)
        ∙ omega (arith, bit_or_ones 3 (x % 8) (omega arith), bit_or-zero (x / 8)))

-- A length word asks for rows of whole doublewords: enough for its low 12 bits plus one, and fewer
-- than eight bytes more. The next 8 bits plus one count the rows, and the stride is a whole number
-- of doublewords. The addresses are the staged ones, and they become the visible ones.
pub start_dma_lem :
    (s : SpRegs) (w : ℕ) (to_dram : Bool)
    → let (s', d) = start_dma s w to_dram in
      (d.row_len % 8 ≡ 0)
      × (w % 2 ^ 12 + 1 ≤ d.row_len)
      × (d.row_len < w % 2 ^ 12 + 1 + 8)
      × (d.rows ≡ w / 2 ^ 12 % 2 ^ 8 + 1)
      × (d.skip ≡ w / 2 ^ 20 % 2 ^ 12 / 8 * 8)
      × (d.sp_addr ≡ s.pending_sp_addr)
      × (d.ram_addr ≡ s.pending_ram_addr)
      × (s'.sp_addr ≡ s.pending_sp_addr)
      × (s'.ram_addr ≡ s.pending_ram_addr)
      × (s'.semaphore ≡ s.semaphore)
unfolding start_dma
start_dma_lem s w to_dram = ground (
  arith,
  bit_and_low 12 w,
  bit_or_seven (w % 2 ^ 12),
  bit_and_low 8 (w / 2 ^ 12),
  bit_and_field 3 9 (w / 2 ^ 20),
)

pub run : SpRegs → List Access → SpRegs
run s [] = s
run s (load r ∷ xs) = run (read s r).0 xs
run s (store r v ∷ xs) = run (write s r v).0 xs

-- An access that starts no transfer.
abbrev pub IsStaging : Access → Type 0
IsStaging (load r) = Unit
IsStaging (store r v) = (r % 8 ≢ 2) × (r % 8 ≢ 3)

abbrev pub AllStaging : List Access → Type 0
AllStaging [] = Unit
AllStaging (x ∷ xs) = IsStaging x × AllStaging xs

-- The last address that the accesses store, or the one staged before them: 13 bits on the SP side,
-- 24 on the RDRAM side, both of whole doublewords.
abbrev pub staged_sp : ℕ → List Access → ℕ
staged_sp a [] = a
staged_sp a (load r ∷ xs) = staged_sp a xs
staged_sp a (store r v ∷ xs) = staged_sp (if r % 8 == 0 then v / 8 % 2 ^ 10 * 8 else a) xs

abbrev pub staged_ram : ℕ → List Access → ℕ
staged_ram a [] = a
staged_ram a (load r ∷ xs) = staged_ram a xs
staged_ram a (store r v ∷ xs) = staged_ram (if r % 8 == 1 then v / 8 % 2 ^ 21 * 8 else a) xs

read_addresses :
    (s : SpRegs) (r : ℕ)
    → ((read s r).0.sp_addr ≡ s.sp_addr)
      × ((read s r).0.ram_addr ≡ s.ram_addr)
      × ((read s r).0.pending_sp_addr ≡ s.pending_sp_addr)
      × ((read s r).0.pending_ram_addr ≡ s.pending_ram_addr)
unfolding read
read_addresses s r = ground arith

write_addresses :
    (s : SpRegs) (r v : ℕ)
    → r % 8 ≢ 2
    → r % 8 ≢ 3
    → ((write s r v).0.sp_addr ≡ s.sp_addr)
      × ((write s r v).0.ram_addr ≡ s.ram_addr)
      × ((write s r v).0.pending_sp_addr
          ≡ (if r % 8 == 0 then v / 8 % 2 ^ 10 * 8 else s.pending_sp_addr))
      × ((write s r v).0.pending_ram_addr
          ≡ (if r % 8 == 1 then v / 8 % 2 ^ 21 * 8 else s.pending_ram_addr))
unfolding write started
write_addresses s r v h2 h3 =
    ground (arith, bit_and_low 3 r, bit_and_field 3 10 v, bit_and_field 3 21 v)

run_addresses :
    (s : SpRegs) (xs : List Access)
    → AllStaging xs
    → ((run s xs).sp_addr ≡ s.sp_addr)
      × ((run s xs).ram_addr ≡ s.ram_addr)
      × ((run s xs).pending_sp_addr ≡ staged_sp s.pending_sp_addr xs)
      × ((run s xs).pending_ram_addr ≡ staged_ram s.pending_ram_addr xs)
unfolding run
run_addresses s [] h = (refl, refl, refl, refl)
run_addresses s (load r ∷ xs) h =
    let e = read_addresses s r in
    let ih = run_addresses (read s r).0 xs h.1 in
    (
      ih.0 ∙ e.0,
      ih.1 ∙ e.1,
      ih.2 ∙ ap (λ (t : ℕ). staged_sp t xs) e.2,
      ih.3 ∙ ap (λ (t : ℕ). staged_ram t xs) e.3,
    )
run_addresses s (store r v ∷ xs) h =
    let e = write_addresses s r v h.0.0 h.0.1 in
    let ih = run_addresses (write s r v).0 xs h.1 in
    (
      ih.0 ∙ e.0,
      ih.1 ∙ e.1,
      ih.2 ∙ ap (λ (t : ℕ). staged_sp t xs) e.2,
      ih.3 ∙ ap (λ (t : ℕ). staged_ram t xs) e.3,
    )

-- The address registers are double buffered: accesses that start no transfer leave the visible
-- addresses alone, however often they store new ones, and the transfer that a length write then
-- starts uses the addresses stored last.
pub double_buffered :
    (s : SpRegs) (xs : List Access) (w : ℕ) (to_dram : Bool)
    → AllStaging xs
    → ((read (run s xs) 0).1 ≡ s.sp_addr)
      × ((read (run s xs) 1).1 ≡ s.ram_addr)
      × ((start_dma (run s xs) w to_dram).1.sp_addr ≡ staged_sp s.pending_sp_addr xs)
      × ((start_dma (run s xs) w to_dram).1.ram_addr ≡ staged_ram s.pending_ram_addr xs)
unfolding read start_dma
double_buffered s xs w to_dram h = run_addresses s xs h
