-- ===== src/Cpu/Exception.antt =====
-- Exceptions of the processor: crates/rustyn64-cpu/src/exception.rs, with the kinds of exception of
-- pipeline.rs. An operation on the control registers returns the registers after it.
pub mod Fields
pub mod Cause
pub mod Return
mod Tests
use rusty_n.Base.{ℕ, ◌+◌, ◌-◌, ◌*◌, ◌/◌, ◌^◌, bit_and, bit_or, Bool, true, false}
use rusty_n.Base.{if◌then◌else◌, any_set, add64, sub64, not64, shl, shr}
use rusty_n.Cpu.Tlb.{vpn2_mask, asid_mask}
use rusty_n.Cpu.Cop0.{Cop0, read, set_hardware, reg_bad_vaddr, reg_cause, reg_context, reg_entry_hi}
use rusty_n.Cpu.Cop0.{reg_epc, reg_error_epc, reg_status, reg_xcontext}

-- The flag of an access is whether it stores; of a refill also whether the address was wide.
pub data Exception : Type 0 where
  interrupt overflow syscall breakpoint trap reserved_instruction : Exception
  address_error : Bool → Exception
  coprocessor_reserved coprocessor_unusable : ℕ → Exception
  nmi : Exception
  tlb_refill : Bool → Bool → Exception
  tlb_invalid : Bool → Exception
  tlb_modified floating_point : Exception

pub data VectorKind : Type 0 where
  general tlb_refill xtlb_refill reset : VectorKind

abbrev pub exl : ℕ
exl = 2 ^ 1

abbrev pub erl : ℕ
erl = 2 ^ 2

abbrev soft_reset : ℕ
soft_reset = 2 ^ 20

abbrev tlb_shutdown : ℕ
tlb_shutdown = 2 ^ 21

abbrev pub bev : ℕ
bev = 2 ^ 22

-- The offset of a handler from the base of the vectors.
pub offset_of : VectorKind → Bool → ℕ
offset_of VectorKind.tlb_refill nested = if nested then 0x180 else 0
offset_of VectorKind.xtlb_refill nested = if nested then 0x180 else 0x080
offset_of _ nested = 0x180

abbrev pub base_of : ℕ → ℕ
base_of status = if any_set status bev then 0xffff_ffff_bfc0_0200 else 0xffff_ffff_8000_0000

abbrev pub is_reset : VectorKind → Bool
is_reset VectorKind.reset = true
is_reset _ = false

pub vector : ℕ → VectorKind → ℕ
vector status kind =
    if is_reset kind
    then 0xffff_ffff_bfc0_0000
    else add64 (base_of status) (offset_of kind (any_set status exl))

pub exc_code_of : Exception → ℕ
exc_code_of nmi = 0
exc_code_of interrupt = 0
exc_code_of (address_error store) = if store then 5 else 4
exc_code_of overflow = 12
exc_code_of syscall = 8
exc_code_of breakpoint = 9
exc_code_of trap = 13
exc_code_of reserved_instruction = 10
exc_code_of (coprocessor_reserved unit) = 10
exc_code_of (Exception.tlb_refill store wide) = if store then 3 else 2
exc_code_of (tlb_invalid store) = if store then 3 else 2
exc_code_of tlb_modified = 1
exc_code_of (coprocessor_unusable unit) = 11
exc_code_of floating_point = 15

pub vector_kind_of : Exception → VectorKind
vector_kind_of nmi = VectorKind.reset
vector_kind_of (Exception.tlb_refill store wide) =
    if wide then VectorKind.xtlb_refill else VectorKind.tlb_refill
vector_kind_of _ = VectorKind.general

pub writes_bad_vaddr : Exception → Bool
writes_bad_vaddr (address_error store) = true
writes_bad_vaddr (Exception.tlb_refill store wide) = true
writes_bad_vaddr (tlb_invalid store) = true
writes_bad_vaddr tlb_modified = true
writes_bad_vaddr _ = false

-- The coprocessor that an exception names.
abbrev pub unit_of : Exception → ℕ
unit_of (coprocessor_reserved unit) = bit_and unit 3
unit_of (coprocessor_unusable unit) = bit_and unit 3
unit_of _ = 0

pub record Dispatch : Type 0 where
  pub vector : ℕ
  pub stall_cycles : ℕ

abbrev pub epilogue_stall : ℕ
epilogue_stall = 2

-- The non-maskable interrupt.
pub take_nmi : Cop0 → ℕ → Cop0 × Dispatch
take_nmi c pc =
    let saved = set_hardware c reg_error_epc pc in
    let status = read saved reg_status in
    let marked =
      bit_or (bit_or (bit_or (bit_and status (not64 tlb_shutdown)) erl) soft_reset) bev in
    (
      set_hardware saved reg_status marked,
      record { vector = vector status VectorKind.reset; stall_cycles = epilogue_stall },
    )

-- The cause with the code and the coprocessor of an exception.
pub coded_cause : ℕ → Exception → ℕ
coded_cause cause exc =
    let coded = bit_or (bit_and cause (not64 0x7c)) (shl (exc_code_of exc) 2) in
    bit_or (bit_and coded (not64 0x3000_0000)) (shl (unit_of exc) 28)

-- The cause and the return address, of which a nested exception leaves the second alone.
pub save_return : Cop0 → ℕ → ℕ → Bool → Bool → Cop0
save_return c cause pc in_delay_slot nested =
    let slot = if in_delay_slot then bit_or cause (2 ^ 31) else bit_and cause (not64 (2 ^ 31)) in
    let epc = if in_delay_slot then sub64 pc 4 else pc in
    let kept = set_hardware c reg_cause cause in
    let saved = set_hardware (set_hardware c reg_epc epc) reg_cause slot in
    if nested then kept else saved

-- The registers that describe a bad address.
pub save_address : Cop0 → ℕ → Cop0
save_address c bad =
    let a = set_hardware c reg_bad_vaddr bad in
    let b = set_hardware a reg_context (
      bit_or (bit_and (read a reg_context) 0xffff_ffff_ff80_0000)
        (shl (bit_and (shr bad 13) 0x7_ffff) 4)) in
    let d = set_hardware b reg_xcontext (
      bit_or
        (bit_or (bit_and (read b reg_xcontext) 0xffff_fffe_0000_0000)
          (shl (bit_and (shr bad 62) 3) 31))
        (shl (bit_and (shr bad 13) 0x7ff_ffff) 4)) in
    set_hardware d reg_entry_hi (
      bit_or (bit_or (bit_and (read d reg_entry_hi) asid_mask) (bit_and bad vpn2_mask))
        (bit_and bad 0xc000_0000_0000_0000))

-- The registers after an exception other than the non-maskable interrupt.
pub enter : Cop0 → Exception → ℕ → Bool → ℕ → Cop0
enter c exc pc in_delay_slot bad =
    let status = read c reg_status in
    let a =
      save_return c (coded_cause (read c reg_cause) exc) pc in_delay_slot (any_set status exl) in
    let b = if writes_bad_vaddr exc then save_address a bad else a in
    set_hardware b reg_status (bit_or status exl)

abbrev taken : Cop0 → Exception → ℕ → Bool → ℕ → Cop0 × Dispatch
taken c exc pc in_delay_slot bad = (
  enter c exc pc in_delay_slot bad,
  record {
    vector = vector (read c reg_status) (vector_kind_of exc);
    stall_cycles = epilogue_stall;
  },
)

abbrev pub is_nmi : Exception → Bool
is_nmi nmi = true
is_nmi _ = false

pub dispatch : Cop0 → Exception → ℕ → Bool → ℕ → Cop0 × Dispatch
dispatch c exc pc in_delay_slot bad =
    if is_nmi exc then take_nmi c pc else taken c exc pc in_delay_slot bad

-- The return from an exception: the registers, and the address to continue at.
pub eret : Cop0 → Cop0 × ℕ
eret c =
    let status = read c reg_status in
    let from_error = set_hardware c reg_status (bit_and status (not64 erl)) in
    let from_exception = set_hardware c reg_status (bit_and status (not64 exl)) in
    if any_set status erl
    then (from_error, read from_error reg_error_epc)
    else (from_exception, read from_exception reg_epc)
