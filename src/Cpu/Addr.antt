-- ===== src/Cpu/Addr.antt =====
-- Address translation: crates/rustyn64-cpu/src/addr.rs.
pub mod Protection
mod Tests
use rusty_n.Base.{ℕ, ◌+◌, ◌-◌, ◌*◌, ◌/◌, ◌%◌, ◌^◌, bit_and}
use rusty_n.Base.{Bool, true, false, ◌&&◌, ◌||◌, not}
use rusty_n.Base.{◌==◌, ltb, leb, if◌then◌else◌, u32, sext32, shr}
use rusty_n.Cpu.Tlb.{Tlb, TlbFault, Translated, Outcome, lookup}

pub data Cached : Type 0 where
  yes no : Cached

pub record Physical : Type 0 where
  pub addr : ℕ
  pub cached : Cached

pub data Segment : Type 0 where
  direct : ℕ → Cached → Segment
  mapped invalid : Segment

pub data Mode : Type 0 where
  kernel supervisor user : Mode

-- What an access is made with: the mode, 64-bit addressing and the error level.
pub record Access : Type 0 where
  pub mode : Mode
  pub wide : Bool
  pub erl : Bool

abbrev pub kernel_access : Access
kernel_access = record { mode = Mode.kernel; wide = false; erl = false }

abbrev pub xseg_size : ℕ
xseg_size = 2 ^ 40

-- `low <= v && v < high`
abbrev pub within : ℕ → ℕ → ℕ → Bool
within low high v = leb low v && ltb v high

-- A 64-bit address that is the sign extension of its low half.
pub is_compat : ℕ → Bool
is_compat vaddr = sext32 (u32 vaddr) == vaddr

pub compat_kernel_segment : ℕ → Segment
compat_kernel_segment v =
    if within 0x8000_0000 0xa000_0000 v
    then direct (v - 0x8000_0000) Cached.yes
    else if within 0xa000_0000 0xc000_0000 v
    then direct (v - 0xa000_0000) Cached.no
    else mapped

pub user_segment : ℕ → Bool → Segment
user_segment vaddr wide =
    let wide_segment = if ltb vaddr xseg_size then mapped else invalid in
    let narrow = if is_compat vaddr && ltb (u32 vaddr) 0x8000_0000 then mapped else invalid in
    if wide then wide_segment else narrow

pub supervisor_segment : ℕ → Bool → Segment
supervisor_segment vaddr wide =
    let wide_segment =
      if within 0 (2 ^ 40) vaddr
        || (within (2 ^ 62) (2 ^ 62 + 2 ^ 40) vaddr
            || within 0xffff_ffff_c000_0000 0xffff_ffff_e000_0000 vaddr)
      then mapped
      else invalid in
    let v = u32 vaddr in
    let narrow =
      if not (is_compat vaddr)
      then invalid
      else if within 0 0x8000_0000 v || within 0xc000_0000 0xe000_0000 v
      then mapped
      else invalid in
    if wide then wide_segment else narrow

-- The segment of physical addresses: its cache algorithm is in the address.
pub xkphys : ℕ → Segment
xkphys vaddr =
    let c = bit_and (shr vaddr 59) 7 in
    if not (bit_and vaddr 0x07ff_ffff_0000_0000 == 0)
    then invalid
    else direct (u32 vaddr) (if c == 2 then Cached.no else Cached.yes)

pub kernel_segment : ℕ → Bool → Segment
kernel_segment vaddr wide =
    let narrow = if is_compat vaddr then compat_kernel_segment (u32 vaddr) else invalid in
    let wide_segment =
      if within 0 (2 ^ 40) vaddr
        || (within (2 ^ 62) (2 ^ 62 + 2 ^ 40) vaddr
            || within 0xc000_0000_0000_0000 0xc000_00ff_8000_0000 vaddr)
      then mapped
      else if within 0x8000_0000_0000_0000 0xc000_0000_0000_0000 vaddr
      then xkphys vaddr
      else if within 0xffff_ffff_8000_0000 (2 ^ 64) vaddr
      then compat_kernel_segment (u32 vaddr)
      else invalid in
    if wide then wide_segment else narrow

pub segment_in : Mode → ℕ → Bool → Segment
segment_in Mode.user vaddr wide = user_segment vaddr wide
segment_in Mode.supervisor vaddr wide = supervisor_segment vaddr wide
segment_in Mode.kernel vaddr wide = kernel_segment vaddr wide

pub segment : ℕ → Access → Segment
segment vaddr a =
    if a.erl && ltb vaddr 0x8000_0000
    then direct (u32 vaddr) Cached.no
    else segment_in a.mode vaddr a.wide

pub data TranslateError : Type 0 where
  address : TranslateError
  tlb : TlbFault → TranslateError

-- `Result<Physical, TranslateError>`
pub data Translation : Type 0 where
  ok : Physical → Translation
  err : TranslateError → Translation

abbrev from_tlb : Outcome → Translation
from_tlb (Outcome.hit t) =
    ok (record { addr = t.addr; cached = if t.uncached then Cached.no else Cached.yes })
from_tlb (Outcome.fault f) = err (tlb f)

abbrev via : Tlb → ℕ → ℕ → Bool → Segment → Tlb × Translation
via t vaddr asid store (direct addr cached) = (t, ok (record { addr = addr; cached = cached }))
via t vaddr asid store mapped =
    ((lookup t vaddr asid store).0, from_tlb (lookup t vaddr asid store).1)
via t vaddr asid store invalid = (t, err address)

pub translate_via : Tlb → ℕ → ℕ → Bool → Access → Tlb × Translation
translate_via t vaddr asid store a = via t vaddr asid store (segment vaddr a)
