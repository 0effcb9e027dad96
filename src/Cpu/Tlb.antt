-- ===== src/Cpu/Tlb.antt =====
-- The translation lookaside buffer: crates/rustyn64-cpu/src/tlb.rs. The system control registers
-- that its instructions read and write are a record of their values.
pub mod Pages
pub mod Lookup
pub mod Entries
pub mod Tests
use rusty_n.Base.{ℕ, zero, suc, ◌+◌, ◌-◌, ◌*◌, ◌/◌, ◌%◌, ◌^◌, bit_and, bit_or}
use rusty_n.Base.{Bool, true, false, Option, none, some, List, [], ◌∷◌, ◌&&◌, ◌||◌, not}
use rusty_n.Base.{not64, ◌==◌, if◌then◌else◌, u32, u64, shl, shr, get_or, set, replicate}

abbrev pub va_mask : ℕ
va_mask = 0x0000_00ff_ffff_ffff

abbrev pub vpn2_mask : ℕ
vpn2_mask = 0x0000_00ff_ffff_e000

abbrev pub asid_mask : ℕ
asid_mask = 0xff

abbrev pub jtlb_entries : ℕ
jtlb_entries = 32

abbrev pub itlb_entries : ℕ
itlb_entries = 2

pub record PageEntry : Type 0 where
  pub pfn : ℕ
  pub c : ℕ
  pub dirty : Bool
  pub valid : Bool

pub record Entry : Type 0 where
  pub page_mask : ℕ
  pub vpn2 : ℕ
  pub asid : ℕ
  pub global : Bool
  pub region : ℕ
  pub lo0 : PageEntry
  pub lo1 : PageEntry

abbrev pub uncached : PageEntry → Bool
uncached p = p.c == 2

pub data TlbFault : Type 0 where
  refill invalid modified : TlbFault

pub record Translated : Type 0 where
  pub addr : ℕ
  pub uncached : Bool

-- `Result<Translated, TlbFault>`
pub data Outcome : Type 0 where
  hit : Translated → Outcome
  fault : TlbFault → Outcome

pub record Tlb : Type 0 where
  pub entries : List Entry
  pub itlb : List (Option ℕ)
  pub itlb_lru : ℕ
  pub shutdown : Bool

abbrev no_page : PageEntry
no_page = record { pfn = 0; c = 0; dirty = false; valid = false }

abbrev pub no_entry : Entry
no_entry = record {
  page_mask = 0;
  vpn2 = 0;
  asid = 0;
  global = false;
  region = 0;
  lo0 = no_page;
  lo1 = no_page;
}

-- The power-on entries from `i` on, `n` of them, each with a tag of its own.
pub power_on : ℕ → ℕ → List Entry
power_on i zero = []
power_on i (suc n) = record no_entry { vpn2 = shl (0x7ff_ffff - i) 13 } ∷ power_on (i + 1) n

pub new : Tlb
new = record {
  entries = power_on 0 jtlb_entries;
  itlb = replicate itlb_entries none;
  itlb_lru = 0;
  shutdown = false;
}

pub entry : Tlb → ℕ → Entry
entry t i = get_or t.entries (bit_and i (jtlb_entries - 1)) no_entry

pub pair_size : ℕ → ℕ
pair_size mask = bit_or mask 0x1fff + 1

pub page_size : ℕ → ℕ
page_size mask = shr (pair_size mask) 1

pub offset_mask : ℕ → ℕ
offset_mask page_mask = bit_or page_mask 0x1fff

pub region_of : ℕ → ℕ
region_of vaddr = bit_and (shr vaddr 62) 3

pub vpn2_of : ℕ → ℕ → ℕ
vpn2_of vaddr page_mask = bit_and (bit_and vaddr va_mask) (not64 (offset_mask page_mask))

pub matches : Entry → ℕ → ℕ → Bool
matches e vaddr asid =
    if not (region_of vaddr == e.region)
    then false
    else if not (vpn2_of vaddr e.page_mask == e.vpn2)
    then false
    else e.global || (e.asid == asid)

-- What the walk over the entries finds: nothing, one entry, or two that coincide.
pub data Walk : Type 0 where
  found : Option ℕ → Walk
  coincide : Walk

pub walk : List Entry → ℕ → ℕ → ℕ → Option ℕ → Walk
walk [] vaddr asid i seen = found seen
walk (e ∷ es) vaddr asid i none =
    walk es vaddr asid (i + 1) (if matches e vaddr asid then some i else none)
walk (e ∷ es) vaddr asid i (some j) =
    let rest = walk es vaddr asid (i + 1) (some j) in
    if matches e vaddr asid then coincide else rest

-- The half of the pair that an address selects.
pub page_of : Entry → ℕ → PageEntry
page_of e vaddr = if bit_and vaddr (page_size e.page_mask) == 0 then e.lo0 else e.lo1

pub translate : Entry → ℕ → Bool → Outcome
translate e vaddr store =
    let size = page_size e.page_mask in
    let page = page_of e vaddr in
    let offset = bit_and vaddr (size - 1) in
    let base = bit_and (shl page.pfn 12) (not64 (size - 1)) in
    if not page.valid
    then fault invalid
    else if store && not page.dirty
    then fault modified
    else hit (record { addr = u32 (bit_or base offset); uncached = uncached page })

settle : Tlb → ℕ → Bool → Walk → Tlb × Outcome
settle t vaddr store coincide = (record t { shutdown = true }, fault refill)
settle t vaddr store (found none) = (t, fault refill)
settle t vaddr store (found (some i)) = (t, translate (get_or t.entries i no_entry) vaddr store)

pub lookup : Tlb → ℕ → ℕ → Bool → Tlb × Outcome
lookup t vaddr asid store =
    if t.shutdown
    then (t, fault refill)
    else settle t vaddr store (walk t.entries vaddr asid 0 none)

-- The control registers that the buffer's instructions use.
pub record Cop0 : Type 0 where
  pub index : ℕ
  pub entry_hi : ℕ
  pub entry_lo0 : ℕ
  pub entry_lo1 : ℕ
  pub page_mask : ℕ

-- One round of `canonical_page_mask` for a pair of bits.
abbrev pub canonical_pair : ℕ → ℕ → ℕ → ℕ
canonical_pair mask pair out =
    if bit_and (shr mask (13 + 2 * pair + 1)) 1 == 0
    then out
    else bit_or out (3 * 2 ^ (13 + 2 * pair))

pub canonical_rounds : ℕ → ℕ → ℕ → ℕ → ℕ
canonical_rounds zero mask pair out = out
canonical_rounds (suc n) mask pair out =
    canonical_rounds n mask (pair + 1) (canonical_pair mask pair out)

pub canonical_page_mask : ℕ → ℕ
canonical_page_mask mask = canonical_rounds 6 mask 0 0

pub page_from : ℕ → PageEntry
page_from lo = record {
  pfn = bit_and (shr lo 6) 0x000f_ffff;
  c = bit_and (shr lo 3) 7;
  dirty = not (bit_and (shr lo 2) 1 == 0);
  valid = not (bit_and (shr lo 1) 1 == 0);
}

abbrev bit_of : Bool → ℕ
bit_of b = if b then 1 else 0

pub lo_from : PageEntry → Bool → ℕ
lo_from p global =
    bit_or
      (bit_or (bit_or (bit_or (shl p.pfn 6) (shl p.c 3)) (shl (bit_of p.dirty) 2))
        (shl (bit_of p.valid) 1))
      (bit_of global)

-- The entry that the registers describe.
pub entry_from : Cop0 → Entry
entry_from r =
    let mask = canonical_page_mask (u32 r.page_mask) in
    record {
      page_mask = mask;
      vpn2 = bit_and (bit_and r.entry_hi vpn2_mask) (not64 (offset_mask mask));
      asid = bit_and r.entry_hi asid_mask;
      global = not (bit_and r.entry_lo0 1 == 0) && not (bit_and r.entry_lo1 1 == 0);
      region = bit_and (shr r.entry_hi 62) 3;
      lo0 = page_from r.entry_lo0;
      lo1 = page_from r.entry_lo1;
    }

pub write_entry : Tlb → ℕ → Cop0 → Tlb
write_entry t index r = record t {
  entries = set t.entries (bit_and index (jtlb_entries - 1)) (entry_from r);
  itlb = replicate itlb_entries none;
}

pub read_entry : Tlb → ℕ → Cop0 → Cop0
read_entry t index r =
    let e = entry t index in
    record r {
      page_mask = e.page_mask;
      entry_hi = bit_or (bit_or (u64 (shl e.region 62)) e.vpn2) e.asid;
      entry_lo0 = lo_from e.lo0 e.global;
      entry_lo1 = lo_from e.lo1 e.global;
    }

-- The index of the first entry that matches, or bit 31.
pub probe_from : List Entry → ℕ → ℕ → ℕ → ℕ
probe_from [] hi asid i = 2 ^ 31
probe_from (e ∷ es) hi asid i =
    let rest = probe_from es hi asid (i + 1) in if matches e hi asid then i else rest

pub probe : Tlb → Cop0 → Cop0
probe t r = record r { index = probe_from t.entries r.entry_hi (bit_and r.entry_hi asid_mask) 0 }

pub any_match : List Entry → ℕ → ℕ → Bool
any_match [] vaddr asid = false
any_match (e ∷ es) vaddr asid = matches e vaddr asid || any_match es vaddr asid

pub jtlb_has_match : Tlb → ℕ → ℕ → Bool
jtlb_has_match t vaddr asid = not t.shutdown && any_match t.entries vaddr asid

-- The slots of the micro buffer from `slot` on, `n` of them, until one hits.
probe_slots : Tlb → ℕ → ℕ → ℕ → ℕ → Tlb × Bool
probe_slots t vaddr asid slot zero = (t, false)
probe_slots t vaddr asid slot (suc n) =
    let rest = probe_slots t vaddr asid (slot + 1) n in
    if slot_hits t vaddr asid (get_or t.itlb slot none)
    then (record t { itlb_lru = 1 - slot }, true)
    else rest
  where
    slot_hits : Tlb → ℕ → ℕ → Option ℕ → Bool
    slot_hits t vaddr asid none = false
    slot_hits t vaddr asid (some i) = matches (get_or t.entries i no_entry) vaddr asid

pub itlb_probe : Tlb → ℕ → ℕ → Tlb × Bool
itlb_probe t vaddr asid = probe_slots t vaddr asid 0 itlb_entries

pub fill_from : Tlb → List Entry → ℕ → ℕ → ℕ → Tlb
fill_from t [] vaddr asid i = t
fill_from t (e ∷ es) vaddr asid i =
    let rest = fill_from t es vaddr asid (i + 1) in
    if matches e vaddr asid
    then record t { itlb = set t.itlb t.itlb_lru (some i); itlb_lru = 1 - t.itlb_lru }
    else rest

pub itlb_fill : Tlb → ℕ → ℕ → Tlb
itlb_fill t vaddr asid = fill_from t t.entries vaddr asid 0
