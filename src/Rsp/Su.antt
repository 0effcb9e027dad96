-- ===== src/Rsp/Su.antt =====
-- The scalar unit: crates/rustyn64-rsp/src/su.rs. The arrays are functions of the index, which the
-- unit always masks. The vector unit's state is a type `V`, and its instructions are a parameter
-- that may do anything with the whole state; the performance counters are left out. The state
-- and the memories are here, the instructions in the child `Step`.
pub mod Memory
pub mod Step
mod Tests
use rusty_n.Base.{ℕ, zero, suc, ◌+◌, ◌-◌, ◌*◌, ◌/◌, ◌%◌, ◌^◌, bit_and, bit_or, bit_xor}
use rusty_n.Base.{Bool, true, false, Option, none, some, ◌&&◌, ◌||◌, not}
use rusty_n.Base.{◌==◌, ltb, leb, if◌then◌else◌, any_set, u8, u32, add32, sub32, not32, shl, shr}
use rusty_n.Rsp.Sp.{SpRegs, Dma, halted, set_pc, set_halted, set_broke, status_intbreak}
use rusty_n.Rsp.Sp as Sp

pub record StepResult : Type 0 where
  pub dma : Option Dma
  pub interrupt_change : Option Bool
  pub dp_write : Option (ℕ × ℕ)

abbrev pub no_result : StepResult
no_result = record { dma = none; interrupt_change = none; dp_write = none }

pub record Fields : Type 0 where
  pub op : ℕ
  pub rs : ℕ
  pub rt : ℕ
  pub rd : ℕ
  pub sa : ℕ
  pub funct : ℕ
  pub imm : ℕ
  pub target : ℕ

pub decode : ℕ → Fields
decode word = record {
  op = shr word 26;
  rs = bit_and (shr word 21) 31;
  rt = bit_and (shr word 16) 31;
  rd = bit_and (shr word 11) 31;
  sa = bit_and (shr word 6) 31;
  funct = bit_and word 63;
  imm = bit_and word 0xffff;
  target = bit_and word 0x03ff_ffff;
}

-- The sign extension of 8 and of 16 bits to 32.
abbrev sext8 : ℕ → ℕ
sext8 v = if ltb v (2 ^ 7) then v else v + (2 ^ 32 - 2 ^ 8)

abbrev pub sext : ℕ → ℕ
sext v = if ltb v (2 ^ 15) then v else v + (2 ^ 32 - 2 ^ 16)

pub record Su (V : Type 0) : Type 0 where
  pub su_regs : ℕ → ℕ
  pub dmem : ℕ → ℕ
  pub imem : ℕ → ℕ
  pub sp : SpRegs
  pub dp : ℕ → ℕ
  pub branch : Option ℕ
  pub vu : V

abbrev pub update : (ℕ → ℕ) → ℕ → ℕ → ℕ → ℕ
update f i v n = if n == i then v else f n

-- `a < b` on words as signed numbers.
abbrev signed_lt : ℕ → ℕ → Bool
signed_lt a b = ltb ((a + 2 ^ 31) % 2 ^ 32) ((b + 2 ^ 31) % 2 ^ 32)

abbrev word_of : Bool → ℕ
word_of b = if b then 1 else 0

-- `(a as i32) >> k`
abbrev arithmetic_shr : ℕ → ℕ → ℕ
arithmetic_shr a k = if ltb a (2 ^ 31) then a / 2 ^ k else not32 (not32 a / 2 ^ k)

abbrev pub low12 : ℕ → ℕ
low12 a = bit_and a 0xfff

abbrev aligned : ℕ → ℕ
aligned a = bit_and a 0xffc

pub branch_target : ℕ → ℕ → ℕ
branch_target sequential imm = aligned (add32 sequential (u32 (shl (sext imm) 2)))

-- The program counter after an instruction: the target of a branch before it, or the next one.
abbrev pub next_pc : Option ℕ → ℕ → ℕ
next_pc none sequential = sequential
next_pc (some target) sequential = target

module _ {V : Type 0} where
  unfoldable pub r : Su V → ℕ → ℕ
  r s i = if i == 0 then 0 else s.su_regs i

  pub set_r : Su V → ℕ → ℕ → Su V
  set_r s i v = if i == 0 then s else record s { su_regs = update s.su_regs i v }

  unfoldable pub dmem_read : Su V → ℕ → ℕ
  dmem_read s addr = s.dmem (low12 addr)

  pub dmem_write : Su V → ℕ → ℕ → Su V
  dmem_write s addr val = record s { dmem = update s.dmem (low12 addr) val }

  -- `n` bytes from byte `i` on, the first the highest.
  pub load_from : Su V → ℕ → ℕ → ℕ → ℕ → ℕ
  load_from s addr i zero v = v
  load_from s addr i (suc n) v =
      load_from s addr (i + 1) n (bit_or (u32 (shl v 8)) (dmem_read s (add32 addr i)))

  pub dmem_load : Su V → ℕ → ℕ → ℕ
  dmem_load s addr n = load_from s addr 0 n 0

  pub store_from : Su V → ℕ → ℕ → ℕ → ℕ → Su V
  store_from s addr i zero val = s
  store_from s addr i (suc n) val =
      store_from (dmem_write s (add32 addr i) (u8 (shr val (8 * n)))) addr (i + 1) n val

  pub dmem_store : Su V → ℕ → ℕ → ℕ → Su V
  dmem_store s addr n val = store_from s addr 0 n val

  pub imem_word : Su V → ℕ → ℕ
  imem_word s pc =
      let base = low12 pc in
      ((s.imem base * 2 ^ 8 + s.imem (low12 (base + 1))) * 2 ^ 8 + s.imem (low12 (base + 2)))
        * 2 ^ 8
      + s.imem (low12 (base + 3))

  -- The effective address of a load or store.
  pub addr_of : Su V → Fields → ℕ
  addr_of s d = low12 (add32 (r s d.rs) (sext d.imm))

  pub load : Su V → Fields → ℕ → ℕ
  load s d n = dmem_load s (addr_of s d) n

  pub store : Su V → Fields → ℕ → Su V
  store s d n = dmem_store s (addr_of s d) n (r s d.rt)
