-- ===== src/Cpu/Tests.antt =====
-- Runs of the processor's components on concrete inputs, and their theorems there.
use rusty_n.Base.{replicate, false, u32}
use rusty_n.Cpu.Cache.{icache_line, empty}
use rusty_n.Cpu.Cache.Icache
use rusty_n.Cpu.Tlb
use rusty_n.Cpu.Tlb.Lookup
use rusty_n.Cpu.Tlb.Pages
use rusty_n.Base.{zero, suc, get_or}
use rusty_n.Cpu.Tlb.Entries
use rusty_n.Base.{ℕ, ◌%◌, ◌<◌, ◌≡◌, refl, arith, true, List, [], ◌∷◌}
use rusty_n.Cpu.Cache.Dcache
use rusty_n.Cpu.Cache.Dcache.Coherence
use rusty_n.Cpu.Cache.Dcache.Refine

abbrev ram : Dcache.Memory
ram a = a % 251

ram-lt : (a : ℕ) → ram a < 256
ram-lt a = omega arith

cold : Coherence.IsCoherent Dcache.new ram
cold = Coherence.new-IsCoherent ram ram-lt

-- The second address evicts the first one's line, and the third access brings it back.
abbrev script : List Refine.Op
script = Refine.store 0x1004 4 0xdead_beef ∷ Refine.store 0x3004 2 7 ∷ Refine.load 0x1004 8 ∷ []

run_refines_example :
    Refine.run Dcache.new ram script ≡ Refine.flat_run (Coherence.view Dcache.new ram) script
run_refines_example =
    Refine.run_refines script Dcache.new ram (Coherence.view Dcache.new ram) cold (λ a h. refl)
      (omega arith)

abbrev cold_icache : Icache.Icache
cold_icache = record { lines = replicate 512 (empty icache_line) }

-- Two entries for the same page, of which the first is not valid.
abbrev doubled : Tlb.Tlb
doubled = record {
  entries =
      Tlb.no_entry
      ∷ record Tlb.no_entry { lo0 = record { pfn = 5; c = 3; dirty = false; valid = true } }
      ∷ [];
  itlb = [];
  itlb_lru = 0;
  shutdown = false;
}

doubled-IsSized : (n : ℕ) → Pages.IsSized (get_or doubled.entries n Tlb.no_entry) 12
doubled-IsSized zero = (omega arith, omega arith, refl, refl, omega arith, omega arith)
doubled-IsSized (suc zero) = (omega arith, omega arith, refl, refl, omega arith, omega arith)
doubled-IsSized (suc (suc n)) = (omega arith, omega arith, refl, refl, omega arith, omega arith)

lookup_lem_example :
    Tlb.lookup doubled 0x123 0 false ≡ (record doubled { shutdown = true }, Tlb.fault Tlb.refill)
unfolding Lookup.answer Lookup.answering
lookup_lem_example =
    Lookup.lookup_lem (λ n. 12) doubled 0x123 0 false refl doubled-IsSized (omega arith)

abbrev a_page : Tlb.PageEntry
a_page = record { pfn = 0x1234; c = 3; dirty = true; valid = true }

abbrev a_buffer : Tlb.Tlb
a_buffer = record doubled { entries = replicate 32 Tlb.no_entry }

abbrev registers : Tlb.Cop0
registers = record {
  index = 0;
  entry_hi = 0x2005;
  entry_lo0 = 0x48d1f;
  entry_lo1 = 0x48d5e;
  page_mask = 0x6000;
}

read_entry-write_entry_example :
    ((Tlb.read_entry (Tlb.write_entry a_buffer 3 registers) 3 registers).page_mask
      ≡ Tlb.canonical_page_mask (u32 registers.page_mask))
    × ((Tlb.read_entry (Tlb.write_entry a_buffer 3 registers) 3 registers).entry_lo0 ≡ 0x48d1e)
    × ((Tlb.read_entry (Tlb.write_entry a_buffer 3 registers) 3 registers).entry_lo1 ≡ 0x48d5e)
unfolding replicate
read_entry-write_entry_example = Entries.read_entry-write_entry a_buffer 3 registers registers refl
