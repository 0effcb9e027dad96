-- ===== src/Cpu/Cache/Icache/Tags.antt =====
-- The cache instructions on the instruction cache, `Icache` of crates/rustyn64-cpu/src/cache.rs.
use rusty_n.Base.{ℕ, ◌+◌, ◌%◌, ◌^◌, ◌<◌, ◌≡◌, ap, ap₂, ◌∙◌, arith}
use rusty_n.Base.{
  Bool, true, false, List, ◌&&◌, ◌==◌, ==_refl, get_or, shr, length, get_or-set_self,
}
use rusty_n.Cpu.Cache.{Line, empty, pack_tag, unpack_tag, icache_line, icache_valid_state}
use rusty_n.Cpu.Cache.Tags.{unpack_tag-pack_tag}
use rusty_n.Cpu.Cache.Icache.{
  Icache, index, line_at, set_line, hits, read_word, word_of, install, load_tag, store_tag,
  invalidate_index,
}

line_at-set_line :
    (c : Icache) (addr : ℕ) (l : Line)
    → length c.lines ≡ 512
    → line_at (set_line c (index addr) l) (index addr) ≡ l
line_at-set_line c addr l h =
    get_or-set_self c.lines (index addr) l (empty icache_line) (omega arith)

-- The line that a fill leaves.
abbrev filled : ℕ → List ℕ → Line
filled base bytes = record { tag = shr base 12; valid = true; dirty = false; bytes = bytes }

line_at-install :
    (c : Icache) (base o : ℕ) (bytes : List ℕ)
    → length c.lines ≡ 512
    → base % 32 ≡ 0
    → o < 32
    → line_at (install c base bytes) (index (base + o)) ≡ filled base bytes
unfolding install
line_at-install c base o bytes h aligned below =
    ap (λ (i : ℕ). line_at (set_line c (index base) (filled base bytes)) i) (omega arith)
    ∙ line_at-set_line c base (filled base bytes) h

-- In a cache of 512 lines, a line filled for an aligned address is hit at each of its addresses with a
-- word left in the line, and gives the word of the fill there.
pub read_word-install :
    (c : Icache) (base o : ℕ) (bytes : List ℕ)
    → length c.lines ≡ 512
    → base % 32 ≡ 0
    → o < 29
    → (hits (install c base bytes) (base + o) ≡ true)
      × (read_word (install c base bytes) (base + o)
          ≡ word_of
              (get_or bytes o 0)
              (get_or bytes (o + 1) 0)
              (get_or bytes (o + 2) 0)
              (get_or bytes (o + 3) 0))
unfolding hits read_word
read_word-install c base o bytes h aligned below =
    let back = line_at-install c base o bytes h aligned (omega arith) in
    (
      ap (λ (l : Line). l.valid && (l.tag == shr (base + o) 12)) back
          ∙ (ap (λ (t : ℕ). t == shr (base + o) 12) (page base o aligned below)
              ∙ ==_refl (shr (base + o) 12)),
      ap₂
          (λ (l : Line) (j : ℕ).
            word_of (get_or l.bytes j 0) (get_or l.bytes (j + 1) 0) (get_or l.bytes (j + 2) 0)
              (get_or l.bytes (j + 3) 0))
          back (omega arith),
    )
  where
    page : (base o : ℕ) → base % 32 ≡ 0 → o < 29 → shr base 12 ≡ shr (base + o) 12
    page base o aligned below = omega arith

-- In a cache of 512 lines, invalidating the line of an address makes the address a miss, and keeps
-- the frame number that a tag load shows, as not valid.
pub load_tag-invalidate_index :
    (c : Icache) (addr : ℕ)
    → length c.lines ≡ 512
    → (hits (invalidate_index c addr) addr ≡ false)
      × (load_tag (invalidate_index c addr) addr
          ≡ pack_tag (line_at c (index addr)).tag false icache_valid_state)
unfolding hits load_tag invalidate_index
load_tag-invalidate_index c addr h =
    let back = line_at-set_line c addr (record (line_at c (index addr)) { valid = false }) h in
    (
      ap (λ (l : Line). l.valid && (l.tag == shr addr 12)) back,
      ap (λ (l : Line). pack_tag l.tag l.valid icache_valid_state) back,
    )

-- In a cache of 512 lines, storing the tag that was loaded for an address, whose line has a frame
-- number of 20 bits, leaves the line as it was.
pub store_tag-load_tag :
    (c : Icache) (addr : ℕ)
    → length c.lines ≡ 512
    → (line_at c (index addr)).tag < 2 ^ 20
    → line_at (store_tag c addr (load_tag c addr)) (index addr) ≡ line_at c (index addr)
unfolding store_tag load_tag
store_tag-load_tag c addr h small =
    let l = line_at c (index addr) in
    let tags =
      unpack_tag-pack_tag l.tag l.valid icache_valid_state small (omega arith) (omega arith) in
    line_at-set_line c addr
      (record l {
        tag = (unpack_tag (pack_tag l.tag l.valid icache_valid_state) icache_valid_state).0;
        valid = (unpack_tag (pack_tag l.tag l.valid icache_valid_state) icache_valid_state).1;
      })
      h
    ∙ ap (λ (u : ℕ × Bool). record l { tag = u.0; valid = u.1 }) tags
