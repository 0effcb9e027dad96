-- ===== src/Cpu/Cache.antt =====
-- Cache lines and the TagLo layout: crates/rustyn64-cpu/src/cache.rs.
pub mod Tags
pub mod Dcache
pub mod Icache
use rusty_n.Base.{ℕ, zero, suc, ◌+◌, ◌-◌, ◌*◌, ◌/◌, ◌%◌, ◌^◌, bit_and, bit_or}
use rusty_n.Base.{Bool, true, false, List, if◌then◌else◌, ◌==◌, u32, shl, shr, replicate}

abbrev pub icache_line : ℕ
icache_line = 32

abbrev pub dcache_line : ℕ
dcache_line = 16

abbrev pub icache_lines : ℕ
icache_lines = 512

abbrev pub dcache_lines : ℕ
dcache_lines = 512

abbrev pub icache_valid_state : ℕ
icache_valid_state = 2

abbrev pub dcache_valid_state : ℕ
dcache_valid_state = 3

pub record Line : Type 0 where
  pub tag : ℕ
  pub valid : Bool
  pub dirty : Bool
  pub bytes : List ℕ

-- A line of `n` bytes that holds nothing.
abbrev pub empty : ℕ → Line
empty n = record { tag = 0; valid = false; dirty = false; bytes = replicate n 0 }

pub pack_tag : ℕ → Bool → ℕ → ℕ
pack_tag tag valid valid_state =
    let pstate = if valid then valid_state else 0 in
    bit_or (shl pstate 6) (shl (bit_and tag 0x000f_ffff) 8)

pub unpack_tag : ℕ → ℕ → ℕ × Bool
unpack_tag tag_lo valid_state =
    (bit_and (shr tag_lo 8) 0x000f_ffff, bit_and (shr tag_lo 6) 3 == valid_state)

-- What a cache operation needs written to memory on its behalf.
pub record Writeback : Type 0 where
  pub addr : ℕ
  pub bytes : List ℕ
