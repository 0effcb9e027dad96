-- ===== src/Cpu/Cache/Tags.antt =====
-- Packing a tag and unpacking it.
use rusty_n.Base.{ℕ, ◌+◌, ◌-◌, ◌*◌, ◌/◌, ◌%◌, ◌^◌, ◌<◌, ◌≡◌, arith, bit_and}
use rusty_n.Base.{Bool, true, false, if◌then◌else◌, bit_and_low, bit_or_disjoint, bit_or_comm}
use rusty_n.Cpu.Cache.{pack_tag, unpack_tag}

pack_tag_lem :
    (tag : ℕ) (valid : Bool) (state : ℕ)
    → state < 4
    → pack_tag tag valid state ≡ tag % 2 ^ 20 * 2 ^ 8 + (if valid then state else 0) * 2 ^ 6
unfolding pack_tag
pack_tag_lem tag true state h = omega (
  arith,
  bit_and_low 20 tag,
  bit_or_comm (state * 2 ^ 6) (bit_and tag (2 ^ 20 - 1) * 2 ^ 8),
  bit_or_disjoint 8 (bit_and tag (2 ^ 20 - 1)) (state * 2 ^ 6) (omega arith),
)
pack_tag_lem tag false state h = omega (
  arith,
  bit_and_low 20 tag,
  bit_or_comm 0 (bit_and tag (2 ^ 20 - 1) * 2 ^ 8),
  bit_or_disjoint 8 (bit_and tag (2 ^ 20 - 1)) 0 (omega arith),
)

-- Under a state that marks validity, which is not 0, unpacking gives back the frame number and
-- the valid bit that were packed.
pub unpack_tag-pack_tag :
    (tag : ℕ) (valid : Bool) (state : ℕ)
    → tag < 2 ^ 20
    → 0 < state
    → state < 4
    → unpack_tag (pack_tag tag valid state) state ≡ (tag, valid)
unfolding unpack_tag
unpack_tag-pack_tag tag valid state ht hs h4 = ground (
  arith,
  pack_tag_lem tag valid state h4,
  bit_and_low 20 (pack_tag tag valid state / 2 ^ 8),
  bit_and_low 2 (pack_tag tag valid state / 2 ^ 6),
)
