-- ===== src/Cpu/Cop0/Masks.antt =====
-- What a write of a register changes: `write` and `read` of crates/rustyn64-cpu/src/cop0.rs.
use rusty_n.Base.{ℕ, ◌-◌, ◌^◌, ◌≤◌, ◌<◌, ◌≡◌, refl, ap, ◌∙◌, arith, ◌≢◌}
use rusty_n.Base.{
  Bool, true, false, ◌&&◌, leb, ◌==◌, if◌then◌else◌, bit, bit_and, not64, bit-bit_and, bit-bit_or,
  bit-lt-two, every, every_lem, bit_and_low, eq_of_==,
}
use rusty_n.Cpu.Cop0.{
  Cop0, read, write, merge, update, set_ip, write_mask, arch_mask, is_unused, on_compare, on_count,
  on_timer, on_wired, reg_count, reg_config, reg_compare, reg_wired, reg_cause, reg_random,
}

-- Complements, of the masks.
mask_test : ℕ → ℕ → Bool
mask_test n k = bit k (not64 (write_mask n)) == (1 - bit k (write_mask n))

mask_table : every 32 (λ n. every 64 (mask_test n)) ≡ true
unfolding every mask_test write_mask
mask_table = refl

inside_test : ℕ → ℕ → Bool
inside_test n k = leb (bit k (write_mask n)) (bit k (arch_mask n))

inside_table : every 32 (λ n. every 64 (inside_test n)) ≡ true
unfolding every inside_test write_mask arch_mask
inside_table = refl

pub index_low : (n : ℕ) → n < 32 → bit_and n 31 ≡ n
index_low n h = bit_and_low 5 n ∙ omega arith

-- What a write of register `n` does to the registers besides storing the word.
effects_lem :
    (c : Cop0) (n value m : ℕ)
    → (on_wired n (on_timer n (on_count n value (on_compare n c)))).regs m ≡ (
        if n == reg_compare && m == reg_cause
        then bit_and (c.regs reg_cause) (not64 (2 ^ 15))
        else if n == reg_wired && m == reg_random
        then 31
        else c.regs m)
unfolding on_wired on_timer on_count on_compare set_ip
effects_lem c n value m = ground arith

stored_lem :
    (regs : ℕ → ℕ) (n word m cause : ℕ)
    → regs reg_cause ≡ cause
    → (if n == reg_compare && m == reg_cause
        then bit_and (update regs n word reg_cause) (not64 (2 ^ 15))
        else if n == reg_wired && m == reg_random
        then 31
        else update regs n word m)
      ≡ (if m == n
          then word
          else if n == reg_compare && m == reg_cause
          then bit_and cause (not64 (2 ^ 15))
          else if n == reg_wired && m == reg_random
          then 31
          else regs m)
stored_lem regs n word m cause e = ground arith

-- The register array after a write: the register itself, and what the write resets.
pub write_regs :
    (c : Cop0) (n value m : ℕ)
    → n < 32
    → (write c n value).regs m ≡ (
        if m == n
        then merge (c.regs n) value (write_mask n)
        else if n == reg_compare && m == reg_cause
        then bit_and (c.regs reg_cause) (not64 (2 ^ 15))
        else if n == reg_wired && m == reg_random
        then 31
        else c.regs m)
unfolding write
write_regs c n value m h =
    ap
      (λ (r : ℕ).
        (on_wired r (
            on_timer r (
              on_count r value (
                on_compare r (record c {
                  regs = update c.regs r (merge (c.regs r) value (write_mask r));
                }))))).regs
          m)
      (index_low n h)
    ∙ (effects_lem (record c { regs = update c.regs n (merge (c.regs n) value (write_mask n)) }) n
          value m
        ∙ stored_lem c.regs n (merge (c.regs n) value (write_mask n)) m (c.regs reg_cause) refl)

write_self :
    (c : Cop0) (n value : ℕ)
    → n < 32
    → (write c n value).regs n ≡ merge (c.regs n) value (write_mask n)
write_self c n value h = ground (arith, write_regs c n value n h)

mask_bit : (n k : ℕ) → n < 32 → k < 64 → bit k (not64 (write_mask n)) ≡ 1 - bit k (write_mask n)
unfolding mask_test
mask_bit n k hn hk =
    eq_of_== (bit k (not64 (write_mask n))) (1 - bit k (write_mask n))
      (every_lem 64 (mask_test n) k (every_lem 32 (λ i. every 64 (mask_test i)) n mask_table hn) hk)

-- Every bit that software can write exists.
writable_bit : (n k : ℕ) → n < 32 → k < 64 → bit k (write_mask n) ≤ bit k (arch_mask n)
unfolding inside_test
writable_bit n k hn hk = ground (
  arith,
  every_lem 64 (inside_test n) k (every_lem 32 (λ i. every 64 (inside_test i)) n inside_table hn)
      hk,
)

bit-merge :
    (old value n k : ℕ)
    → n < 32
    → k < 64
    → bit k (merge old value (write_mask n))
      ≡ (if bit k (write_mask n) == 1 then bit k value else bit k old)
bit-merge old value n k hn hk = ground (
  arith,
  bit-bit_or k (bit_and old (not64 (write_mask n))) (bit_and value (write_mask n)),
  bit-bit_and k old (not64 (write_mask n)),
  bit-bit_and k value (write_mask n),
  mask_bit n k hn hk,
  bit-lt-two k (write_mask n),
  bit-lt-two k value,
  bit-lt-two k old,
)

-- A read of a plain register: the stored word under the mask of the bits that exist.
pub read_lem :
    (c : Cop0) (n : ℕ)
    → n < 32
    → is_unused n ≡ false
    → n ≢ reg_count
    → n ≢ reg_config
    → read c n ≡ bit_and (c.regs n) (arch_mask n)
unfolding read
read_lem c n h u a b = ground (
  arith,
  index_low n h,
  ap is_unused (index_low n h),
  ap c.regs (index_low n h),
  ap arch_mask (index_low n h),
)

-- After a software write of any register but the count, the configuration and the unused ones, each
-- bit that software can write reads as written, and each other bit reads as before.
pub read-write :
    (c : Cop0) (n value k : ℕ)
    → n < 32
    → k < 64
    → is_unused n ≡ false
    → n ≢ reg_count
    → n ≢ reg_config
    → bit k (read (write c n value) n)
      ≡ (if bit k (write_mask n) == 1 then bit k value else bit k (read c n))
read-write c n value k hn hk u a b =
    let word = merge (c.regs n) value (write_mask n) in
    ap (bit k) (read_lem (write c n value) n hn u a b)
    ∙ (ap (λ (w : ℕ). bit k (bit_and w (arch_mask n))) (write_self c n value hn)
        ∙ ground (
          arith,
          bit-bit_and k word (arch_mask n),
          bit-merge (c.regs n) value n k hn hk,
          ap (bit k) (read_lem c n hn u a b),
          bit-bit_and k (c.regs n) (arch_mask n),
          writable_bit n k hn hk,
          bit-lt-two k (arch_mask n),
          bit-lt-two k (write_mask n),
          bit-lt-two k value,
          bit-lt-two k (c.regs n),
        ))
