-- ===== src/Cpu/Cache/Icache.antt =====
-- The instruction cache, `Icache` of crates/rustyn64-cpu/src/cache.rs.
pub mod Tags
use rusty_n.Base.{ℕ, zero, suc, ◌+◌, ◌-◌, ◌*◌, ◌/◌, ◌%◌, ◌^◌, bit_and, bit_or}
use rusty_n.Base.{Bool, true, false, Option, none, some, List, [], ◌∷◌, ◌&&◌}
use rusty_n.Base.{if◌then◌else◌, ◌==◌, u32, shl, shr, get_or, set, replicate}
use rusty_n.Cpu.Cache.{Line, Writeback, empty, pack_tag, unpack_tag}
use rusty_n.Cpu.Cache.{icache_line, icache_lines, icache_valid_state}

pub record Icache : Type 0 where
  pub lines : List Line

pub new : Icache
new = record { lines = replicate icache_lines (empty icache_line) }

abbrev pub index : ℕ → ℕ
index addr = addr / icache_line % icache_lines

abbrev pub line_at : Icache → ℕ → Line
line_at c i = get_or c.lines i (empty icache_line)

abbrev pub set_line : Icache → ℕ → Line → Icache
set_line c i l = record { lines = set c.lines i l }

pub resident_addr : Icache → ℕ → ℕ
resident_addr c i = bit_or (u32 (shl (line_at c i).tag 12)) (bit_and (u32 i * icache_line) 0xfff)

pub hits : Icache → ℕ → Bool
hits c addr = (line_at c (index addr)).valid && ((line_at c (index addr)).tag == shr addr 12)

-- Four bytes, the first one highest.
abbrev pub word_of : ℕ → ℕ → ℕ → ℕ → ℕ
word_of a b c d = a * 2 ^ 24 + b * 2 ^ 16 + c * 2 ^ 8 + d

pub read_word : Icache → ℕ → ℕ
read_word c addr =
    let bytes = (line_at c (index addr)).bytes in
    let o = addr % icache_line in
    word_of (get_or bytes o 0) (get_or bytes (o + 1) 0) (get_or bytes (o + 2) 0)
      (get_or bytes (o + 3) 0)

pub install : Icache → ℕ → List ℕ → Icache
install c addr bytes =
    set_line c (index addr)
      (record { tag = shr addr 12; valid = true; dirty = false; bytes = bytes })

pub load_tag : Icache → ℕ → ℕ
load_tag c addr = let l = line_at c (index addr) in pack_tag l.tag l.valid icache_valid_state

pub store_tag : Icache → ℕ → ℕ → Icache
store_tag c addr tag_lo =
    let i = index addr in
    let l = line_at c i in
    let unpacked = unpack_tag tag_lo icache_valid_state in
    set_line c i (record l { tag = unpacked.0; valid = unpacked.1 })

pub invalidate_index : Icache → ℕ → Icache
invalidate_index c addr =
    let i = index addr in let l = line_at c i in set_line c i (record l { valid = false })

pub hit_invalidate : Icache → ℕ → Icache
hit_invalidate c addr = if hits c addr then invalidate_index c addr else c

-- A resident line, to be written to memory.
pub flush_hit : Icache → ℕ → Option Writeback
flush_hit c addr =
    let i = index addr in
    if hits c addr
    then some (record { addr = resident_addr c i; bytes = (line_at c i).bytes })
    else none
