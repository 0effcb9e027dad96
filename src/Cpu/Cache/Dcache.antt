-- ===== src/Cpu/Cache/Dcache.antt =====
-- The write-back data cache, `Dcache` of crates/rustyn64-cpu/src/cache.rs, and the fill that the
-- pipeline performs with it, `dcache_fill` of crates/rustyn64-cpu/src/pipeline.rs.
pub mod Bus
pub mod Fill
pub mod Refine
pub mod Access
pub mod Coherence
use rusty_n.Base.{ℕ, zero, suc, ◌+◌, ◌-◌, ◌*◌, ◌/◌, ◌%◌, ◌^◌, bit_and, bit_or}
use rusty_n.Base.{Bool, true, false, Option, none, some, List, [], ◌∷◌, ◌&&◌, not}
use rusty_n.Base.{if◌then◌else◌, ◌==◌, u8, u32, u64, add32, not32, shl, shr, get_or, set, replicate}
use rusty_n.Cpu.Cache.{Line, Writeback, empty, pack_tag, unpack_tag}
use rusty_n.Cpu.Cache.{dcache_line, dcache_lines, dcache_valid_state}

pub record Dcache : Type 0 where
  pub lines : List Line

pub new : Dcache
new = record { lines = replicate dcache_lines (empty dcache_line) }

-- Which line an address maps to.
abbrev pub index : ℕ → ℕ
index addr = addr / dcache_line % dcache_lines

abbrev pub line_at : Dcache → ℕ → Line
line_at c i = get_or c.lines i (empty dcache_line)

abbrev pub set_line : Dcache → ℕ → Line → Dcache
set_line c i l = record { lines = set c.lines i l }

pub resident_addr : Dcache → ℕ → ℕ
resident_addr c i = bit_or (u32 (shl (line_at c i).tag 12)) (bit_and (u32 i * dcache_line) 0xfff)

pub hits : Dcache → ℕ → Bool
hits c addr = (line_at c (index addr)).valid && ((line_at c (index addr)).tag == shr addr 12)

abbrev pub evict : Dcache → ℕ → Writeback
evict c i = record { addr = resident_addr c i; bytes = (line_at c i).bytes }

-- `none` on a hit; otherwise the line that must be written back first, if any.
pub miss_plan : Dcache → ℕ → Option (Option Writeback)
unfolding hits
miss_plan c addr =
    let i = index addr in
    if hits c addr
    then none
    else if (line_at c i).valid && (line_at c i).dirty
    then some (some (evict c i))
    else some none

pub install : Dcache → ℕ → List ℕ → Dcache
install c addr bytes =
    set_line c (index addr)
      (record { tag = shr addr 12; valid = true; dirty = false; bytes = bytes })

-- `n` bytes from offset `o` on, the first one highest.
pub read_from : List ℕ → ℕ → ℕ → ℕ → ℕ
read_from bytes o zero v = v
read_from bytes o (suc n) v = read_from bytes (o + 1) n (bit_or (u64 (shl v 8)) (get_or bytes o 0))

pub read : Dcache → ℕ → ℕ → ℕ
read c addr len = read_from (line_at c (index addr)).bytes (addr % dcache_line) len 0

-- The low `n` bytes of a value stored from offset `o` on, the highest first.
pub write_from : List ℕ → ℕ → ℕ → ℕ → List ℕ
write_from bytes o zero value = bytes
write_from bytes o (suc n) value = write_from (set bytes o (u8 (shr value (8 * n)))) (o + 1) n value

pub write : Dcache → ℕ → ℕ → ℕ → Dcache
write c addr len value =
    let i = index addr in
    let l = line_at c i in
    set_line c i
      (record l { bytes = write_from l.bytes (addr % dcache_line) len value; dirty = true })

pub load_tag : Dcache → ℕ → ℕ
load_tag c addr = let l = line_at c (index addr) in pack_tag l.tag l.valid dcache_valid_state

pub store_tag : Dcache → ℕ → ℕ → Dcache
store_tag c addr tag_lo =
    let i = index addr in
    let (t, v) = unpack_tag tag_lo dcache_valid_state in
    set_line c i (record (line_at c i) { tag = t; valid = v; dirty = false })

pub invalidate_index : Dcache → ℕ → Dcache
invalidate_index c i = set_line c i (record (line_at c i) { valid = false; dirty = false })

pub clean_index : Dcache → ℕ → Dcache
clean_index c i = set_line c i (record (line_at c i) { dirty = false })

-- Take the line at an index for write-back if it is dirty, then clean or invalidate it.
pub flush_index : Dcache → ℕ → Bool → Bool → Dcache × Option Writeback
flush_index c addr invalidate clean =
    let i = index addr in
    let out = if (line_at c i).valid && (line_at c i).dirty then some (evict c i) else none in
    let c1 = if clean then clean_index c i else c in
    let c2 = if invalidate then invalidate_index c1 i else c1 in (c2, out)

-- Claim the line for an address without filling it, reporting the dirty line of another address.
pub create_dirty_exclusive : Dcache → ℕ → Dcache × Option Writeback
create_dirty_exclusive c addr =
    let i = index addr in
    let l = line_at c i in
    let out = if l.valid && l.dirty && not (l.tag == shr addr 12) then some (evict c i) else none in
    (set_line c i (record l { tag = shr addr 12; valid = true; dirty = true }), out)

-- The bus as the memory behind it, byte by byte, with the word accesses that a fill makes.
abbrev pub Memory : Type 0
Memory = ℕ → ℕ

abbrev pub poke : Memory → ℕ → ℕ → Memory
poke m a v b = if a == b then v else m b

-- `u32::from_be_bytes`
abbrev pub from_be : ℕ → ℕ → ℕ → ℕ → ℕ
from_be b0 b1 b2 b3 = b0 * 2 ^ 24 + b1 * 2 ^ 16 + b2 * 2 ^ 8 + b3

pub read_u32 : Memory → ℕ → ℕ
read_u32 m a = from_be (m a) (m (a + 1)) (m (a + 2)) (m (a + 3))

pub write_u32 : Memory → ℕ → ℕ → Memory
write_u32 m a w =
    poke
      (poke (poke (poke m a (w / 2 ^ 24 % 256)) (a + 1) (w / 2 ^ 16 % 256)) (a + 2)
        (w / 2 ^ 8 % 256))
      (a + 3) (w % 256)

pub push_line : Memory → ℕ → List ℕ → Memory
push_line m a (b0 ∷ b1 ∷ b2 ∷ b3 ∷ rest) =
    push_line (write_u32 m a (from_be b0 b1 b2 b3)) (add32 a 4) rest
push_line m a _ = m

-- `words` words read from an address on, as their bytes.
pub pull_line : Memory → ℕ → ℕ → List ℕ
pull_line m a zero = []
pull_line m a (suc words) =
    let w = read_u32 m a in
    w / 2 ^ 24 % 256 ∷ w / 2 ^ 16 % 256 ∷ w / 2 ^ 8 % 256 ∷ w % 256 ∷ pull_line m (add32 a 4) words

pub push_evicted : Memory → Option Writeback → Memory
push_evicted m none = m
push_evicted m (some w) = push_line m w.addr w.bytes

pub fill_planned : Dcache → Memory → ℕ → Option (Option Writeback) → Dcache × Memory
fill_planned c m addr none = (c, m)
fill_planned c m addr (some evicted) =
    let m1 = push_evicted m evicted in
    let base = bit_and addr (not32 (dcache_line - 1)) in (install c base (pull_line m1 base 4), m1)

-- Make the line of an address resident, writing back what it evicts.
pub dcache_fill : Dcache → Memory → ℕ → Dcache × Memory
dcache_fill c m addr = fill_planned c m addr (miss_plan c addr)

-- A cached load and a cached store of the pipeline: fill, then access the resident line.
pub cached_read : Dcache → Memory → ℕ → ℕ → (Dcache × Memory) × ℕ
cached_read c m addr width = let s = dcache_fill c m addr in (s, read s.0 addr width)

pub cached_write : Dcache → Memory → ℕ → ℕ → ℕ → Dcache × Memory
cached_write c m addr width value =
    let s = dcache_fill c m addr in (write s.0 addr width value, s.1)
