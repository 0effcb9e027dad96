-- ===== src/Cpu/Tlb/Tests.antt =====
-- Runs of the TLB on concrete entries.
use rusty_n.Base.{◌≡◌, refl, true, false, [], ◌∷◌}
use rusty_n.Cpu.Tlb.{
  Tlb, Outcome, no_entry, lookup, settle, walk, matches, region_of, vpn2_of, offset_mask, page_of,
  page_size, pair_size, translate,
}

-- One entry of two pages of 4 KB, for any address space.
abbrev pub one_entry : Tlb
one_entry = record {
  entries =
      record no_entry {
        global = true;
        lo0 = record { pfn = 0x55; c = 3; dirty = true; valid = true };
      }
      ∷ [];
  itlb = [];
  itlb_lru = 0;
  shutdown = false;
}

pub one_entry_hits :
    (lookup one_entry 0x123 7 true).1 ≡ Outcome.hit (record { addr = 0x5_5123; uncached = false })
unfolding lookup settle walk matches region_of vpn2_of offset_mask page_of page_size pair_size
    translate
one_entry_hits = refl
