-- ===== src/Cpu/Cop0/Hardware.antt =====
-- What a hardware write of a register changes: `set_hardware` of crates/rustyn64-cpu/src/cop0.rs.
use rusty_n.Base.{ℕ, ◌≤◌, ◌<◌, ◌≡◌, refl, ap, ◌∙◌, sym, arith, ◌≢◌}
use rusty_n.Base.{
  not, ◌||◌, every, every_lem, Bool, true, false, ◌==◌, if◌then◌else◌, bit_and, bit_and-le,
  bit_and_comm, bit_and_idem,
}
use rusty_n.Cpu.Cop0.{
  Cop0, read, set_hardware, arch_mask, is_unused, reg_count, reg_config, reg_status, reg_cause,
  reg_epc, update,
}
use rusty_n.Cpu.Cop0.Masks.{read_lem, index_low}

plain_update :
    (regs : ℕ → ℕ) (n m v mask : ℕ)
    → bit_and (update regs n v m) mask ≡ (if m == n then bit_and v mask else bit_and (regs m) mask)
plain_update regs n m v mask = ground arith

set_hardware_lem :
    (c : Cop0) (n v m : ℕ)
    → n < 32
    → (set_hardware c n v).regs m ≡ update c.regs n (bit_and v (arch_mask n)) m
unfolding set_hardware
set_hardware_lem c n v m h =
    ap (λ (r : ℕ). update c.regs r (bit_and v (arch_mask r)) m) (index_low n h)

same_mask :
    (n m v : ℕ) (x : ℕ)
    → (if m == n then bit_and (bit_and v (arch_mask n)) (arch_mask m) else x)
      ≡ (if m == n then bit_and v (arch_mask m) else x)
same_mask n m v x = ground (arith, bit_and_idem v (arch_mask m), ap arch_mask)

-- What a plain register reads as after a hardware write of any register.
pub read-set_hardware :
    (c : Cop0) (n v m : ℕ)
    → n < 32
    → m < 32
    → is_unused m ≡ false
    → m ≢ reg_count
    → m ≢ reg_config
    → read (set_hardware c n v) m ≡ (if m == n then bit_and v (arch_mask m) else read c m)
read-set_hardware c n v m hn hm u a b =
    read_lem (set_hardware c n v) m hm u a b
    ∙ (ap (λ (t : ℕ). bit_and t (arch_mask m)) (set_hardware_lem c n v m hn)
        ∙ (plain_update c.regs n m (bit_and v (arch_mask n)) (arch_mask m)
            ∙ (same_mask n m v (bit_and (c.regs m) (arch_mask m))
                ∙ ap (λ (t : ℕ). if m == n then bit_and v (arch_mask m) else t)
                    (sym (read_lem c m hm u a b)))))

-- A plain register reads as bits that exist.
pub read_masked :
    (c : Cop0) (n : ℕ)
    → n < 32
    → is_unused n ≡ false
    → n ≢ reg_count
    → n ≢ reg_config
    → bit_and (read c n) (arch_mask n) ≡ read c n
read_masked c n h u a b =
    let e = read_lem c n h u a b in
    ap (λ (t : ℕ). bit_and t (arch_mask n)) e ∙ (bit_and_idem (c.regs n) (arch_mask n) ∙ sym e)

pub read_le :
    (c : Cop0) (n : ℕ)
    → n < 32
    → is_unused n ≡ false
    → n ≢ reg_count
    → n ≢ reg_config
    → read c n ≤ arch_mask n
read_le c n h u a b = omega (
  arith,
  read_lem c n h u a b,
  bit_and_comm (c.regs n) (arch_mask n),
  bit_and-le (arch_mask n) (c.regs n),
)

-- The registers of an exception that every kind of exception goes through.
abbrev pub is_frame : ℕ → Bool
is_frame m = m == reg_cause || (m == reg_status || m == reg_epc)

frame_test : ℕ → Bool
frame_test m = not (is_frame m) || not (is_unused m)

frame_table : every 32 frame_test ≡ true
unfolding every frame_test is_unused
frame_table = refl

frame_used : (m : ℕ) → is_frame m ≡ true → is_unused m ≡ false
unfolding frame_test
frame_used m k = ground (arith, every_lem 32 frame_test m frame_table)

pub frame_write :
    (c : Cop0) (n v m : ℕ)
    → n < 32
    → is_frame m ≡ true
    → read (set_hardware c n v) m ≡ (if m == n then bit_and v (arch_mask m) else read c m)
frame_write c n v m h k =
    read-set_hardware c n v m h (ground arith) (frame_used m k) (ground arith) (ground arith)

pub frame_masked :
    (c : Cop0) (m : ℕ) → is_frame m ≡ true → bit_and (read c m) (arch_mask m) ≡ read c m
frame_masked c m k = read_masked c m (ground arith) (frame_used m k) (ground arith) (ground arith)
