-- ===== src/Cpu/Exception/Fields.antt =====
-- The digits of the cause register: the fields that `dispatch` of
-- crates/rustyn64-cpu/src/exception.rs fills, and those that exist.
use rusty_n.Base.{ℕ, ◌-◌, ◌*◌, ◌^◌, ◌≤◌, ◌<◌, ◌≡◌, refl, ◌∙◌, arith, min}
use rusty_n.Base.{
  Bool, true, not, ◌&&◌, ◌||◌, ltb, leb, ◌==◌, if◌then◌else◌, bit, bit_and, bit_or, not64, shl,
  bit-bit_and, bit-bit_or, bit-lt-two, bit-shl, bit_beyond, bit_and_low, eq_of_==, every, every_lem,
}
use rusty_n.Cpu.Cop0.{arch_mask, reg_cause}
use rusty_n.Cpu.Exception.{Exception, exc_code_of, unit_of, coded_cause}

field_test : ℕ → Bool
field_test k =
    (bit k (not64 0x7c) == (if leb 2 k && ltb k 7 then 0 else 1))
    && ((bit k (not64 0x3000_0000) == (if leb 28 k && ltb k 30 then 0 else 1))
        && ((bit k (not64 (2 ^ 31)) == (if k == 31 then 0 else 1))
            && (bit k (2 ^ 31) == (if k == 31 then 1 else 0))))

field_table : every 32 field_test ≡ true
unfolding every field_test
field_table = refl

masks :
    (k : ℕ)
    → k < 32
    → (bit k (not64 0x7c) ≡ (if leb 2 k && ltb k 7 then 0 else 1))
      × (bit k (not64 0x3000_0000) ≡ (if leb 28 k && ltb k 30 then 0 else 1))
unfolding field_test
masks k h =
    let t = every_lem 32 field_test k field_table h in (ground (arith, t), ground (arith, t))

-- A field from digit `low` to digit `high` of a word, cleared and then filled.
field_lem :
    (k word mask value low high : ℕ)
    → bit k mask ≡ (if leb low k && ltb k high then 0 else 1)
    → (high - low ≤ k - low → bit (k - low) value ≡ 0)
    → bit k (bit_or (bit_and word mask) (value * 2 ^ low))
      ≡ (if leb low k && ltb k high then bit (k - low) value else bit k word)
field_lem k word mask value low high e beyond = ground (
  arith,
  bit-bit_or k (bit_and word mask) (value * 2 ^ low),
  bit-bit_and k word mask,
  bit-shl low k value,
  bit-lt-two k word,
  bit-lt-two (k - low) value,
)

code_lt : (exc : Exception) → exc_code_of exc < 2 ^ 5
unfolding exc_code_of
code_lt (Exception.address_error store) = ground arith
code_lt (Exception.tlb_refill store wide) = ground arith
code_lt (Exception.tlb_invalid store) = ground arith
code_lt Exception.nmi = omega arith
code_lt Exception.interrupt = omega arith
code_lt Exception.overflow = omega arith
code_lt Exception.syscall = omega arith
code_lt Exception.breakpoint = omega arith
code_lt Exception.trap = omega arith
code_lt Exception.reserved_instruction = omega arith
code_lt (Exception.coprocessor_reserved unit) = omega arith
code_lt (Exception.coprocessor_unusable unit) = omega arith
code_lt Exception.tlb_modified = omega arith
code_lt Exception.floating_point = omega arith

unit_lt : (exc : Exception) → unit_of exc < 2 ^ 2
unit_lt (Exception.coprocessor_reserved unit) = omega (arith, bit_and_low 2 unit)
unit_lt (Exception.coprocessor_unusable unit) = omega (arith, bit_and_low 2 unit)
unit_lt Exception.nmi = omega arith
unit_lt Exception.interrupt = omega arith
unit_lt Exception.overflow = omega arith
unit_lt Exception.syscall = omega arith
unit_lt Exception.breakpoint = omega arith
unit_lt Exception.trap = omega arith
unit_lt Exception.reserved_instruction = omega arith
unit_lt (Exception.address_error store) = omega arith
unit_lt (Exception.tlb_refill store wide) = omega arith
unit_lt (Exception.tlb_invalid store) = omega arith
unit_lt Exception.tlb_modified = omega arith
unit_lt Exception.floating_point = omega arith

pub bit-coded_cause :
    (cause : ℕ) (exc : Exception) (k : ℕ)
    → k < 32
    → bit k (coded_cause cause exc) ≡ (
        if leb 2 k && ltb k 7
        then bit (k - 2) (exc_code_of exc)
        else if leb 28 k && ltb k 30
        then bit (k - 28) (unit_of exc)
        else bit k cause)
unfolding coded_cause
bit-coded_cause cause exc k h =
    let code = exc_code_of exc in
    let unit = unit_of exc in
    let coded = bit_or (bit_and cause (not64 0x7c)) (shl code 2) in
    let inner : bit k coded ≡ (if leb 2 k && ltb k 7 then bit (k - 2) code else bit k cause) =
      field_lem k cause (not64 0x7c) code 2 7 (masks k h).0
        (bit_beyond 5 (k - 2) code (code_lt exc)) in
    field_lem k coded (not64 0x3000_0000) unit 28 30 (masks k h).1
      (bit_beyond 2 (k - 28) unit (unit_lt exc))
    ∙ ground (arith, inner)

-- The digits of the cause register that exist.
exists_test : ℕ → Bool
exists_test k = bit k (arch_mask reg_cause) == (
    if (leb 2 k && ltb k 7) || ((leb 8 k && ltb k 16) || ((leb 28 k && ltb k 30) || (k == 31)))
    then 1
    else 0)

exists_table : every 32 exists_test ≡ true
unfolding every exists_test arch_mask
exists_table = refl

pub slot_lem :
    (k word : ℕ) (slot nested : Bool)
    → k < 32
    → bit k (
        if nested
        then word
        else if slot
        then bit_or word (2 ^ 31)
        else bit_and word (not64 (2 ^ 31)))
      ≡ (if (k == 31) && not nested then (if slot then 1 else 0) else bit k word)
unfolding field_test
slot_lem k word slot nested h = ground (
  arith,
  every_lem 32 field_test k field_table h,
  bit-bit_or k word (2 ^ 31),
  bit-bit_and k word (not64 (2 ^ 31)),
  bit-lt-two k word,
)

pub exists_lem :
    (k : ℕ)
    → k < 32
    → bit k (arch_mask reg_cause) ≡ (
        if (leb 2 k && ltb k 7) || ((leb 8 k && ltb k 16) || ((leb 28 k && ltb k 30) || (k == 31)))
        then 1
        else 0)
unfolding exists_test
exists_lem k h = eq_of_== _ _ (every_lem 32 exists_test k exists_table h)

-- Digits that do not exist read as 0, before and after.
pub only_existing :
    (k full exist old code unit mark : ℕ) (nested : Bool)
    → exist ≡ (
        if (leb 2 k && ltb k 7) || ((leb 8 k && ltb k 16) || ((leb 28 k && ltb k 30) || (k == 31)))
        then 1
        else 0)
    → full ≡ (
        if (k == 31) && not nested
        then mark
        else if leb 2 k && ltb k 7
        then code
        else if leb 28 k && ltb k 30
        then unit
        else old)
    → old ≡ min old exist
    → full < 2
    → code < 2
    → unit < 2
    → min full exist ≡ (
        if leb 2 k && ltb k 7
        then code
        else if leb 28 k && ltb k 30
        then unit
        else if (k == 31) && not nested
        then mark
        else old)
only_existing k full exist old code unit mark nested he hf ho hl hc hu = ground arith
