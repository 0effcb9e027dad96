-- ===== src/Cpu/Exception/Cause.antt =====
-- The registers that an exception writes: `dispatch` of crates/rustyn64-cpu/src/exception.rs.
use rusty_n.Base.{ℕ, ◌-◌, ◌^◌, ◌<◌, ◌≡◌, refl, ap, ◌∙◌, sym, arith, min}
use rusty_n.Base.{
  Bool, true, false, not, ◌&&◌, ltb, leb, ◌==◌, if◌then◌else◌, bit, bit_and, bit_or, not64, sub64,
  bit-bit_and, bit-lt-two, any_set, if_keeps,
}
use rusty_n.Cpu.Cop0.{
  Cop0, read, set_hardware, arch_mask, reg_bad_vaddr, reg_cause, reg_context, reg_entry_hi, reg_epc,
  reg_status, reg_xcontext,
}
use rusty_n.Cpu.Cop0.Hardware.{is_frame, frame_write, frame_masked}
use rusty_n.Cpu.Exception.{
  Exception, exc_code_of, unit_of, coded_cause, save_return, save_address, enter, dispatch, is_nmi,
  taken, exl, writes_bad_vaddr, Dispatch,
}
use rusty_n.Cpu.Exception.Fields.{bit-coded_cause, slot_lem, exists_lem, only_existing}

other_write :
    (c : Cop0) (n v m : ℕ)
    → n < 32
    → is_frame n ≡ false
    → is_frame m ≡ true
    → read (set_hardware c n v) m ≡ read c m
other_write c n v m h off k = ground (arith, frame_write c n v m h k)

pub read-save_address :
    (c : Cop0) (bad m : ℕ) → is_frame m ≡ true → read (save_address c bad) m ≡ read c m
unfolding save_address
read-save_address c bad m k =
    other_write _ reg_entry_hi _ m (omega arith) refl k
    ∙ (other_write _ reg_xcontext _ m (omega arith) refl k
        ∙ (other_write _ reg_context _ m (omega arith) refl k
            ∙ other_write c reg_bad_vaddr bad m (omega arith) refl k))

pub read-enter :
    (c : Cop0) (exc : Exception) (pc : ℕ) (slot : Bool) (bad m : ℕ)
    → is_frame m ≡ true
    → read (enter c exc pc slot bad) m ≡ (
        if m == reg_status
        then bit_and (bit_or (read c reg_status) exl) (arch_mask m)
        else read
            (save_return c
              (coded_cause (read c reg_cause) exc)
              pc
              slot
              (any_set (read c reg_status) exl))
            m)
unfolding enter
read-enter c exc pc slot bad m k =
    let status = read c reg_status in
    let a = save_return c (coded_cause (read c reg_cause) exc) pc slot (any_set status exl) in
    let addressed : read (if writes_bad_vaddr exc then save_address a bad else a) m ≡ read a m =
      if_keeps (λ (x : Cop0). read x m ≡ read a m) (writes_bad_vaddr exc) (save_address a bad) a
        (read-save_address a bad m k) refl in
    frame_write _ reg_status (bit_or status exl) m (omega arith) k
    ∙ ap (λ (t : ℕ). if m == reg_status then bit_and (bit_or status exl) (arch_mask m) else t)
        addressed

-- The cause register and the return address, as a first exception and a nested one save them.
pub read-save_return_cause :
    (c : Cop0) (cause pc : ℕ) (slot nested : Bool)
    → read (save_return c cause pc slot nested) reg_cause
      ≡ bit_and
          (if nested
            then cause
            else if slot
            then bit_or cause (2 ^ 31)
            else bit_and cause (not64 (2 ^ 31)))
          (arch_mask reg_cause)
unfolding save_return
read-save_return_cause c cause pc slot true =
    frame_write c reg_cause cause reg_cause (omega arith) refl
read-save_return_cause c cause pc slot false =
    frame_write _ reg_cause (if slot then bit_or cause (2 ^ 31) else bit_and cause (not64 (2 ^ 31)))
      reg_cause (omega arith) refl

pub read-save_return_epc :
    (c : Cop0) (cause pc : ℕ) (slot nested : Bool)
    → read (save_return c cause pc slot nested) reg_epc ≡ (
        if nested
        then read c reg_epc
        else bit_and (if slot then sub64 pc 4 else pc) (arch_mask reg_epc))
unfolding save_return
read-save_return_epc c cause pc slot true = frame_write c reg_cause cause reg_epc (omega arith) refl
read-save_return_epc c cause pc slot false =
    frame_write _ reg_cause (if slot then bit_or cause (2 ^ 31) else bit_and cause (not64 (2 ^ 31)))
      reg_epc (omega arith) refl
    ∙ frame_write c reg_epc (if slot then sub64 pc 4 else pc) reg_epc (omega arith) refl

pub dispatch_enter :
    (c : Cop0) (exc : Exception) (pc : ℕ) (slot : Bool) (bad : ℕ)
    → is_nmi exc ≡ false
    → dispatch c exc pc slot bad ≡ taken c exc pc slot bad
unfolding dispatch
dispatch_enter c exc pc slot bad h = rw h refl

pub bit_masked :
    (c : Cop0) (m k : ℕ)
    → is_frame m ≡ true
    → bit k (read c m) ≡ min (bit k (read c m)) (bit k (arch_mask m))
bit_masked c m k h = sym (ap (bit k) (frame_masked c m h)) ∙ bit-bit_and k (read c m) (arch_mask m)

-- After an exception other than the non-maskable interrupt, digits 2 to 6 of the cause register are
-- its code, digits 28 and 29 its coprocessor, digit 31 tells whether it came from a delay slot unless
-- the exception is nested, and the others are as before.
pub dispatch-cause :
    (c : Cop0) (exc : Exception) (pc : ℕ) (slot : Bool) (bad k : ℕ)
    → is_nmi exc ≡ false
    → k < 32
    → bit k (read (dispatch c exc pc slot bad).0 reg_cause) ≡ (
        if leb 2 k && ltb k 7
        then bit (k - 2) (exc_code_of exc)
        else if leb 28 k && ltb k 30
        then bit (k - 28) (unit_of exc)
        else if (k == 31) && not (any_set (read c reg_status) exl)
        then (if slot then 1 else 0)
        else bit k (read c reg_cause))
dispatch-cause c exc pc slot bad k h lt =
    let nested = any_set (read c reg_status) exl in
    let old = read c reg_cause in
    let word = coded_cause old exc in
    let full =
      if nested
      then word
      else if slot
      then bit_or word (2 ^ 31)
      else bit_and word (not64 (2 ^ 31)) in
    ap (λ (d : Cop0 × Dispatch). bit k (read d.0 reg_cause)) (dispatch_enter c exc pc slot bad h)
    ∙ (ap (bit k) (
          read-enter c exc pc slot bad reg_cause refl
          ∙ read-save_return_cause c word pc slot nested)
        ∙ (bit-bit_and k full (arch_mask reg_cause)
            ∙ only_existing k (bit k full) (bit k (arch_mask reg_cause)) (bit k old)
                (bit (k - 2) (exc_code_of exc)) (bit (k - 28) (unit_of exc)) (if slot then 1 else 0)
                nested (exists_lem k lt)
                (slot_lem k word slot nested lt
                  ∙ ap (λ (t : ℕ). if (k == 31) && not nested then (if slot then 1 else 0) else t)
                      (bit-coded_cause old exc k lt))
                (bit_masked c reg_cause k refl) (bit-lt-two k full)
                (bit-lt-two (k - 2) (exc_code_of exc)) (bit-lt-two (k - 28) (unit_of exc))))
