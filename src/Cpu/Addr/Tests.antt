-- ===== src/Cpu/Addr/Tests.antt =====
-- Tests of the address translation's model.
use rusty_n.Base.{◌≡◌, refl, ap, arith, true, false}
use rusty_n.Cpu.Tlb.{Translated, Outcome, lookup}
use rusty_n.Cpu.Tlb.Tests.{one_entry, one_entry_hits}
use rusty_n.Cpu.Addr.{
  Access, Mode, Cached, Physical, ok, from_tlb, translate_via, segment, segment_in, user_segment,
  is_compat,
}
use rusty_n.Cpu.Addr.Protection.{translate_via_user}

abbrev user_access : Access
user_access = record { mode = Mode.user; wide = false; erl = false }

abbrev found : Physical
found = record { addr = 0x5_5123; cached = Cached.yes }

user_hits : (translate_via one_entry 0x123 7 true user_access).1 ≡ ok found
unfolding translate_via segment segment_in user_segment is_compat
user_hits = ap from_tlb one_entry_hits

translate_via_user_example :
    (x : Translated) × ((lookup one_entry 0x123 7 true).1 ≡ Outcome.hit x) × (x.addr ≡ 0x5_5123)
translate_via_user_example =
    translate_via_user one_entry 0x123 7 true user_access found (λ e. absurd (ground arith)) refl
      user_hits
