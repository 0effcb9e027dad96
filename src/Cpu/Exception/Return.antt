-- ===== src/Cpu/Exception/Return.antt =====
-- Entering a handler and returning from it: `dispatch` and `eret` of
-- crates/rustyn64-cpu/src/exception.rs.
use rusty_n.Base.{ℕ, ◌-◌, ◌^◌, ◌≤◌, ◌<◌, ◌≡◌, refl, ap, ◌∙◌, arith}
use rusty_n.Base.{
  Bool, true, false, ◌&&◌, ◌==◌, if◌then◌else◌, bit, bit_and, bit_or, not64, sub64, add64,
  bit-bit_and, bit-bit_or, bit-lt-two, any_set, any_set_pow, bit_ext, bit_and-le, bit_and_comm,
  bit_and_low, every, every_lem,
}
use rusty_n.Cpu.Cop0.{Cop0, read, arch_mask, reg_cause, reg_epc, reg_status}
use rusty_n.Cpu.Cop0.Hardware.{frame_write, frame_masked}
use rusty_n.Cpu.Exception.{
  Exception, Dispatch, coded_cause, dispatch, eret, is_nmi, enter, exl, erl, base_of, vector,
  offset_of, vector_kind_of, is_reset,
}
use rusty_n.Cpu.Exception.Cause.{dispatch_enter, read-enter, read-save_return_epc}

flag_test : ℕ → Bool
flag_test k =
    (bit k exl == (if k == 1 then 1 else 0)) && (bit k (not64 exl) == (if k == 1 then 0 else 1))

flag_table : every 32 flag_test ≡ true
unfolding every flag_test
flag_table = refl

flag_lem :
    (k : ℕ)
    → k < 32
    → (bit k exl ≡ (if k == 1 then 1 else 0)) × (bit k (not64 exl) ≡ (if k == 1 then 0 else 1))
unfolding flag_test
flag_lem k h =
    let t = every_lem 32 flag_test k flag_table h in (ground (arith, t), ground (arith, t))

status_lt : (c : Cop0) → read c reg_status < 2 ^ 32
unfolding arch_mask
status_lt c = omega (
  arith,
  frame_masked c reg_status refl,
  bit_and_comm (read c reg_status) (arch_mask reg_status),
  bit_and-le (arch_mask reg_status) (read c reg_status),
)

erl_exists : bit 2 (arch_mask reg_status) ≡ 1
unfolding arch_mask
erl_exists = refl

epc_exists : arch_mask reg_epc ≡ 2 ^ 64 - 1
unfolding arch_mask
epc_exists = refl

status_small : arch_mask reg_status ≤ 2 ^ 32 - 1
unfolding arch_mask
status_small = omega arith

-- Setting the exception level and clearing it again.
restored :
    (s mask : ℕ)
    → s < 2 ^ 32
    → mask ≤ 2 ^ 32 - 1
    → bit_and s mask ≡ s
    → bit 1 s ≡ 0
    → bit_and (bit_and (bit_and (bit_or s exl) mask) (not64 exl)) mask ≡ s
restored s mask hs hm e off =
    bit_ext 32 (bit_and x mask) s (omega (arith, bit_and_comm x mask, bit_and-le mask x)) hs λ k lt.
      ground (
        arith,
        flag_lem k lt,
        bit-bit_and k x mask,
        bit-bit_and k (bit_and (bit_or s exl) mask) (not64 exl),
        bit-bit_and k (bit_or s exl) mask,
        bit-bit_or k s exl,
        bit-bit_and k s mask,
        ap (bit k) e,
        bit-lt-two k s,
        bit-lt-two k mask,
        at k,
      )
  where
    x : ℕ
    x = bit_and (bit_and (bit_or s exl) mask) (not64 exl)

    at : (k : ℕ) → k ≡ 1 → bit k s ≡ 0
    at k p = ap (λ (t : ℕ). bit t s) p ∙ off

read-enter_status :
    (c : Cop0) (exc : Exception) (pc : ℕ) (slot : Bool) (bad : ℕ)
    → read (enter c exc pc slot bad) reg_status
      ≡ bit_and (bit_or (read c reg_status) exl) (arch_mask reg_status)
read-enter_status c exc pc slot bad = read-enter c exc pc slot bad reg_status refl

no_error :
    (s mask : ℕ)
    → any_set s erl ≡ false
    → bit 2 mask ≡ 1
    → any_set (bit_and (bit_or s exl) mask) erl ≡ false
no_error s mask h e = ground (
  arith,
  any_set_pow 2 s,
  any_set_pow 2 (bit_and (bit_or s exl) mask),
  bit-bit_and 2 (bit_or s exl) mask,
  bit-bit_or 2 s exl,
  bit-lt-two 2 s,
)

eret_lem :
    (c : Cop0)
    → any_set (read c reg_status) erl ≡ false
    → (read (eret c).0 reg_status
        ≡ bit_and (bit_and (read c reg_status) (not64 exl)) (arch_mask reg_status))
      × ((eret c).1 ≡ read c reg_epc)
unfolding eret
eret_lem c h = rw h (
  frame_write c reg_status (bit_and (read c reg_status) (not64 exl)) reg_status (omega arith) refl,
  frame_write c reg_status (bit_and (read c reg_status) (not64 exl)) reg_epc (omega arith) refl,
)

-- The address at which the program continues after a handler: the instruction, or the branch before
-- it where the instruction is in a delay slot.
abbrev pub resume_at : ℕ → Bool → ℕ
resume_at pc slot = if slot then sub64 pc 4 else pc

resume_masked :
    (pc : ℕ) (slot : Bool)
    → pc < 2 ^ 64
    → bit_and (resume_at pc slot) (2 ^ 64 - 1) ≡ resume_at pc slot
resume_masked pc slot h = bit_and_low 64 (resume_at pc slot) ∙ ground arith

entered_epc :
    (c : Cop0) (exc : Exception) (pc : ℕ) (slot : Bool) (bad : ℕ)
    → any_set (read c reg_status) exl ≡ false
    → pc < 2 ^ 64
    → read (enter c exc pc slot bad) reg_epc ≡ resume_at pc slot
entered_epc c exc pc slot bad off h =
    read-enter c exc pc slot bad reg_epc refl
    ∙ (read-save_return_epc c (coded_cause (read c reg_cause) exc) pc slot
          (any_set (read c reg_status) exl)
        ∙ (ap
              (λ (b : Bool).
                if b then read c reg_epc else bit_and (resume_at pc slot) (arch_mask reg_epc))
              off
            ∙ (ap (λ (t : ℕ). bit_and (resume_at pc slot) t) epc_exists ∙ resume_masked pc slot h)))

-- From a status with the exception and error levels clear, the return right after an exception other
-- than the non-maskable interrupt restores the status register and gives the address of the
-- instruction, or the one before it in a delay slot.
pub eret-dispatch :
    (c : Cop0) (exc : Exception) (pc : ℕ) (slot : Bool) (bad : ℕ)
    → is_nmi exc ≡ false
    → any_set (read c reg_status) exl ≡ false
    → any_set (read c reg_status) erl ≡ false
    → pc < 2 ^ 64
    → (read (eret (dispatch c exc pc slot bad).0).0 reg_status ≡ read c reg_status)
      × ((eret (dispatch c exc pc slot bad).0).1 ≡ resume_at pc slot)
eret-dispatch c exc pc slot bad h off quiet lt =
    let c2 = enter c exc pc slot bad in
    let status = read c reg_status in
    let e = read-enter_status c exc pc slot bad in
    let mask = arch_mask reg_status in
    let same = ap (λ (d : Cop0 × Dispatch). eret d.0) (dispatch_enter c exc pc slot bad h) in
    let back =
      eret_lem c2 (ap (λ (t : ℕ). any_set t erl) e ∙ no_error status mask quiet erl_exists) in
    (
      ap (λ (r : Cop0 × ℕ). read r.0 reg_status) same
          ∙ (back.0
              ∙ (ap (λ (t : ℕ). bit_and (bit_and t (not64 exl)) mask) e
                  ∙ restored status mask (status_lt c) status_small (frame_masked c reg_status refl)
                      (ground (arith, any_set_pow 1 status, bit-lt-two 1 status)))),
      ap (λ (r : Cop0 × ℕ). r.1) same ∙ (back.1 ∙ entered_epc c exc pc slot bad off lt),
    )

nested_offset : (exc : Exception) → offset_of (vector_kind_of exc) true ≡ 0x180
unfolding offset_of vector_kind_of
nested_offset (Exception.tlb_refill store wide) = ground arith
nested_offset (Exception.address_error store) = refl
nested_offset (Exception.tlb_invalid store) = refl
nested_offset Exception.nmi = refl
nested_offset Exception.interrupt = refl
nested_offset Exception.overflow = refl
nested_offset Exception.syscall = refl
nested_offset Exception.breakpoint = refl
nested_offset Exception.trap = refl
nested_offset Exception.reserved_instruction = refl
nested_offset (Exception.coprocessor_reserved unit) = refl
nested_offset (Exception.coprocessor_unusable unit) = refl
nested_offset Exception.tlb_modified = refl
nested_offset Exception.floating_point = refl

no_reset : (exc : Exception) → is_nmi exc ≡ false → is_reset (vector_kind_of exc) ≡ false
unfolding vector_kind_of
no_reset (Exception.tlb_refill store true) h = refl
no_reset (Exception.tlb_refill store false) h = refl
no_reset (Exception.address_error store) h = refl
no_reset (Exception.tlb_invalid store) h = refl
no_reset Exception.nmi h = absurd (ground arith)
no_reset Exception.interrupt h = refl
no_reset Exception.overflow h = refl
no_reset Exception.syscall h = refl
no_reset Exception.breakpoint h = refl
no_reset Exception.trap h = refl
no_reset Exception.reserved_instruction h = refl
no_reset (Exception.coprocessor_reserved unit) h = refl
no_reset (Exception.coprocessor_unusable unit) h = refl
no_reset Exception.tlb_modified h = refl
no_reset Exception.floating_point h = refl

nested_vector :
    (status : ℕ) (exc : Exception)
    → is_nmi exc ≡ false
    → any_set status exl ≡ true
    → vector status (vector_kind_of exc) ≡ add64 (base_of status) 0x180
unfolding vector
nested_vector status exc h on =
    rw (no_reset exc h, on) (ap (add64 (base_of status)) (nested_offset exc))

-- An exception inside a handler, other than the non-maskable interrupt, leaves the return address as
-- it was and goes to the general vector, a refill too.
pub dispatch_nested :
    (c : Cop0) (exc : Exception) (pc : ℕ) (slot : Bool) (bad : ℕ)
    → is_nmi exc ≡ false
    → any_set (read c reg_status) exl ≡ true
    → (read (dispatch c exc pc slot bad).0 reg_epc ≡ read c reg_epc)
      × ((dispatch c exc pc slot bad).1.vector ≡ add64 (base_of (read c reg_status)) 0x180)
dispatch_nested c exc pc slot bad h on =
    let e = dispatch_enter c exc pc slot bad h in
    (
      ap (λ (d : Cop0 × Dispatch). read d.0 reg_epc) e
          ∙ (read-enter c exc pc slot bad reg_epc refl
              ∙ (read-save_return_epc c (coded_cause (read c reg_cause) exc) pc slot
                    (any_set (read c reg_status) exl)
                  ∙ ap
                      (λ (b : Bool).
                        if b
                        then read c reg_epc
                        else bit_and (resume_at pc slot) (arch_mask reg_epc))
                      on)),
      ap (λ (d : Cop0 × Dispatch). d.1.vector) e ∙ nested_vector (read c reg_status) exc h on,
    )
