-- ===== src/Cpu/Addr/Protection.antt =====
-- What each mode can reach: `segment` and `translate_via` of crates/rustyn64-cpu/src/addr.rs.
use rusty_n.Base.{ℕ, ◌+◌, ◌^◌, ◌<◌, ◌≡◌, ◌≢◌, refl, ap, arith}
use rusty_n.Base.{Bool, true, false}
use rusty_n.Cpu.Tlb.{Tlb, Translated, Outcome, lookup}
use rusty_n.Cpu.Addr.{
  Cached, Physical, Segment, Mode, Access, segment, segment_in, user_segment, supervisor_segment,
  kernel_segment, compat_kernel_segment, is_compat, translate_via, Translation, via, ok, err,
  direct, mapped, invalid, from_tlb, kernel_access,
}

-- A segment that needs the translation buffer, or that does not exist.
abbrev pub is_guarded : Segment → Bool
is_guarded (direct addr cached) = false
is_guarded mapped = true
is_guarded invalid = true

user_guarded : (vaddr : ℕ) (wide : Bool) → is_guarded (user_segment vaddr wide) ≡ true
unfolding user_segment
user_guarded vaddr wide = ground arith

supervisor_guarded : (vaddr : ℕ) (wide : Bool) → is_guarded (supervisor_segment vaddr wide) ≡ true
unfolding supervisor_segment
supervisor_guarded vaddr wide = ground arith

addr_in : Translation → ℕ
addr_in (ok p) = p.addr
addr_in (err e) = 0

from_hit :
    (o : Outcome) (p : Physical)
    → from_tlb o ≡ ok p
    → (x : Translated) × (o ≡ Outcome.hit x) × (x.addr ≡ p.addr)
unfolding addr_in
from_hit (Outcome.hit t) p h = (t, refl, ap addr_in h)
from_hit (Outcome.fault f) p h = absurd (ground arith)

via_guarded :
    (t : Tlb) (vaddr asid : ℕ) (store : Bool) (s : Segment) (p : Physical)
    → is_guarded s ≡ true
    → (via t vaddr asid store s).1 ≡ ok p
    → (x : Translated) × ((lookup t vaddr asid store).1 ≡ Outcome.hit x) × (x.addr ≡ p.addr)
via_guarded t vaddr asid store (direct addr cached) p g h = absurd (ground arith)
via_guarded t vaddr asid store mapped p g h = from_hit (lookup t vaddr asid store).1 p h
via_guarded t vaddr asid store invalid p g h = absurd (ground arith)

mode_guarded :
    (mode : Mode) (vaddr : ℕ) (wide : Bool)
    → mode ≢ Mode.kernel
    → is_guarded (segment_in mode vaddr wide) ≡ true
unfolding segment_in
mode_guarded Mode.kernel vaddr wide m = absurd (m refl)
mode_guarded Mode.supervisor vaddr wide m = supervisor_guarded vaddr wide
mode_guarded Mode.user vaddr wide m = user_guarded vaddr wide

segment_guarded :
    (vaddr : ℕ) (a : Access)
    → a.mode ≢ Mode.kernel
    → a.erl ≡ false
    → is_guarded (segment vaddr a) ≡ true
unfolding segment
segment_guarded vaddr a m e = rw e (mode_guarded a.mode vaddr a.wide m)

-- Outside kernel mode and the error level, an access that is translated went through the translation
-- buffer: the lookup hit, and gave the physical address.
pub translate_via_user :
    (t : Tlb) (vaddr asid : ℕ) (store : Bool) (a : Access) (p : Physical)
    → a.mode ≢ Mode.kernel
    → a.erl ≡ false
    → (translate_via t vaddr asid store a).1 ≡ ok p
    → (x : Translated) × ((lookup t vaddr asid store).1 ≡ Outcome.hit x) × (x.addr ≡ p.addr)
unfolding translate_via
translate_via_user t vaddr asid store a p m e h =
    via_guarded t vaddr asid store (segment vaddr a) p (segment_guarded vaddr a m e) h

cached_view :
    (addr : ℕ)
    → addr < 2 ^ 29
    → segment (0xffff_ffff_8000_0000 + addr) kernel_access ≡ direct addr Cached.yes
unfolding segment segment_in kernel_segment compat_kernel_segment is_compat
cached_view addr h = ground arith

uncached_view :
    (addr : ℕ)
    → addr < 2 ^ 29
    → segment (0xffff_ffff_a000_0000 + addr) kernel_access ≡ direct addr Cached.no
unfolding segment segment_in kernel_segment compat_kernel_segment is_compat
uncached_view addr h = ground arith

-- In kernel mode with 32-bit addressing and outside the error level, the two direct segments are
-- views of the same 512 MB of physical addresses, the first through the caches, the second past them.
pub kernel_views :
    (t : Tlb) (addr asid : ℕ) (store : Bool)
    → addr < 2 ^ 29
    → ((translate_via t (0xffff_ffff_8000_0000 + addr) asid store kernel_access).1
        ≡ ok (record { addr = addr; cached = Cached.yes }))
      × ((translate_via t (0xffff_ffff_a000_0000 + addr) asid store kernel_access).1
          ≡ ok (record { addr = addr; cached = Cached.no }))
unfolding translate_via
kernel_views t addr asid store h = (
  ap (λ (s : Segment). (via t (0xffff_ffff_8000_0000 + addr) asid store s).1) (cached_view addr h),
  ap (λ (s : Segment). (via t (0xffff_ffff_a000_0000 + addr) asid store s).1)
      (uncached_view addr h),
)
