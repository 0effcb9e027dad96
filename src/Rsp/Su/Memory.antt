-- ===== src/Rsp/Su/Memory.antt =====
-- Loads and stores in the data memory: `dmem_load` and `dmem_store` of crates/rustyn64-rsp/src/su.rs.
use rusty_n.Base.{
  ℕ, zero, suc, ◌+◌, ◌*◌, ◌/◌, ◌%◌, ◌^◌, ◌≤◌, ◌<◌, ◌≡◌, ◌≢◌, refl, ap, ◌∙◌, sym, arith, bit_or,
}
use rusty_n.Base.{add32, shl, shr, u8, u32, bit_and_low, bit_or_disjoint}
use rusty_n.Rsp.Su.{Su, dmem_read, dmem_write, load_from, store_from, dmem_load, dmem_store, low12}

low12_lem : (a : ℕ) → low12 a ≡ a % 2 ^ 12
low12_lem a = bit_and_low 12 a

-- Bytes at different distances below the size of the memory are different bytes.
apart : (addr i j : ℕ) → i < j → j < i + 2 ^ 12 → low12 (add32 addr i) ≢ low12 (add32 addr j)
apart addr i j h k e = absurd (omega (arith, e, low12_lem (add32 addr i), low12_lem (add32 addr j)))

-- One byte more, below what is loaded so far.
join :
    (n acc val : ℕ)
    → n ≤ 3
    → acc * 2 ^ (8 * suc n) < 2 ^ 32
    → (acc * 2 ^ 8 < 2 ^ 32)
      × ((acc * 2 ^ 8 + u8 (val / 2 ^ (8 * n))) * 2 ^ (8 * n) < 2 ^ 32)
      × ((acc * 2 ^ 8 + u8 (val / 2 ^ (8 * n))) * 2 ^ (8 * n) + val % 2 ^ (8 * n)
          ≡ acc * 2 ^ (8 * suc n) + val % 2 ^ (8 * suc n))
join zero acc val h k = (omega arith, omega arith, omega arith)
join (suc zero) acc val h k = (omega arith, omega arith, omega arith)
join (suc (suc zero)) acc val h k = (omega arith, omega arith, omega arith)
join (suc (suc (suc zero))) acc val h k = (omega arith, omega arith, omega arith)
join (suc (suc (suc (suc n)))) acc val h k = absurd (omega arith)

step_lem :
    (acc byte : ℕ)
    → acc * 2 ^ 8 < 2 ^ 32
    → byte < 2 ^ 8
    → bit_or (u32 (shl acc 8)) byte ≡ acc * 2 ^ 8 + byte
step_lem acc byte h k =
    let e : u32 (shl acc 8) ≡ acc * 2 ^ 8 = omega arith in
    ap (λ (t : ℕ). bit_or t byte) e ∙ bit_or_disjoint 8 acc byte k

module _ {V : Type 0} where
  read_self : (s : Su V) (a v : ℕ) → dmem_read (dmem_write s a v) a ≡ v
  unfolding dmem_read dmem_write
  read_self s a v = ground arith

  read_other :
      (s : Su V) (a b v : ℕ) → low12 a ≢ low12 b → dmem_read (dmem_write s a v) b ≡ dmem_read s b
  unfolding dmem_read dmem_write
  read_other s a b v h = ground arith

  -- Bytes before the ones that are stored stay.
  store_keeps :
      (n : ℕ) (s : Su V) (addr i j val : ℕ)
      → j < i
      → i + n ≤ j + 2 ^ 12
      → dmem_read (store_from s addr i n val) (add32 addr j) ≡ dmem_read s (add32 addr j)
  unfolding store_from
  store_keeps zero s addr i j val h k = refl
  store_keeps (suc n) s addr i j val h k =
      store_keeps n (dmem_write s (add32 addr i) (u8 (shr val (8 * n)))) addr (i + 1) j val
        (omega arith) (omega arith)
      ∙ read_other s (add32 addr i) (add32 addr j) (u8 (shr val (8 * n)))
          (λ e. apart addr j i h (omega arith) (sym e))

  load_stored :
      (n : ℕ) (s : Su V) (addr i val acc : ℕ)
      → n ≤ 4
      → acc * 2 ^ (8 * n) < 2 ^ 32
      → load_from (store_from s addr i n val) addr i n acc ≡ acc * 2 ^ (8 * n) + val % 2 ^ (8 * n)
  unfolding load_from store_from
  load_stored zero s addr i val acc h k = omega arith
  load_stored (suc n) s addr i val acc h k =
      let byte = u8 (shr val (8 * n)) in
      let written = dmem_write s (add32 addr i) byte in
      let numbers = join n acc val (omega arith) k in
      let first : dmem_read (store_from written addr (i + 1) n val) (add32 addr i) ≡ byte =
        store_keeps n written addr (i + 1) i val (omega arith) (omega arith)
        ∙ read_self s (add32 addr i) byte in
      let joined =
        ap (λ (t : ℕ). bit_or (u32 (shl acc 8)) t) first
        ∙ step_lem acc byte numbers.0 (omega arith) in
      ap (load_from (store_from written addr (i + 1) n val) addr (i + 1) n) joined
      ∙ (load_stored n written addr (i + 1) val (acc * 2 ^ 8 + byte) (omega arith) numbers.1
          ∙ numbers.2)

  -- A load of up to four bytes right after a store at the same address gives the low bytes of the
  -- stored word, also where the access runs around the end of the memory.
  pub load-store :
      (n : ℕ) (s : Su V) (addr val : ℕ)
      → n ≤ 4
      → dmem_load (dmem_store s addr n val) addr n ≡ val % 2 ^ (8 * n)
  unfolding dmem_load dmem_store
  load-store n s addr val h =
      let none_yet : 0 * 2 ^ (8 * n) < 2 ^ 32 = omega arith in
      load_stored n s addr 0 val 0 h none_yet ∙ omega arith
