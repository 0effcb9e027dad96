-- ===== src/Cpu/Fpr/Halves.antt =====
-- The two views of the floating-point registers, and the halves of a register: read_s, write_s, read_d
-- and write_d of crates/rustyn64-cpu/src/fpr.rs.
use rusty_n.Base.{ℕ, ◌+◌, ◌-◌, ◌*◌, ◌/◌, ◌%◌, ◌^◌, ◌<◌, ◌≡◌, ap, ◌∙◌, arith}
use rusty_n.Base.{Bool, true, false, ◌==◌, if◌then◌else◌, u64, shl}
use rusty_n.Base.{
  bit_and, bit_or, bit_and_low, bit_and_high, bit_and_field, bit_or_disjoint, bit_or_comm,
}
use rusty_n.Cpu.Fpr.{Fpr, index, even, read_s, write_s, read_d, read_raw}

even_lem : (i : ℕ) → i < 32 → even i ≡ i / 2 * 2
even_lem i h =
    bit_and_high 1 i (2 ^ 63 - 1) ∙ ap (λ (t : ℕ). t * 2) (bit_and_low 63 (i / 2) ∙ omega arith)

high_half :
    (w v : ℕ)
    → v < 2 ^ 32
    → bit_or (bit_and w 0xffff_ffff) (u64 (shl v 32)) ≡ v * 2 ^ 32 + w % 2 ^ 32
high_half w v h =
    let e : u64 (shl v 32) ≡ v * 2 ^ 32 = omega arith in
    ap (λ (t : ℕ). bit_or t (u64 (shl v 32))) (bit_and_low 32 w)
    ∙ (ap (bit_or (w % 2 ^ 32)) e
        ∙ (bit_or_comm (w % 2 ^ 32) (v * 2 ^ 32) ∙ bit_or_disjoint 32 v (w % 2 ^ 32) (omega arith)))

low_half :
    (w v : ℕ)
    → v < 2 ^ 32
    → bit_or (bit_and w 0xffff_ffff_0000_0000) v ≡ w / 2 ^ 32 % 2 ^ 32 * 2 ^ 32 + v
low_half w v h =
    ap (λ (t : ℕ). bit_or t v) (bit_and_field 32 32 w)
    ∙ bit_or_disjoint 32 (w / 2 ^ 32 % 2 ^ 32) v h

-- A 32-bit write and a 32-bit read, in the same view: in both views the 32 register numbers are 32
-- independent words. A read at the number written gives the value, any other read what it gave.
pub read_s-write_s :
    (f : Fpr) (m n v : ℕ) (fr : Bool)
    → v < 2 ^ 32
    → read_s (write_s f m fr v) n fr ≡ (if m % 32 == n % 32 then v else read_s f n fr)
unfolding read_s write_s
read_s-write_s f m n v true h =
    ground (arith, bit_and_low 5 m, bit_and_low 5 n, low_half (f.fgr (m % 32)) v h)
read_s-write_s f m n v false h = ground (
  arith,
  bit_and_low 5 m,
  bit_and_low 5 n,
  even_lem (m % 32),
  even_lem (n % 32),
  bit_and_low 1 (m % 32),
  bit_and_low 1 (n % 32),
  low_half (f.fgr (m % 32 / 2 * 2)) v h,
  high_half (f.fgr (m % 32 / 2 * 2)) v h,
)

-- The register of an even number after its two halves are written.
halves_lem :
    (f : Fpr) (k lo hi : ℕ)
    → k % 2 ≡ 0
    → lo < 2 ^ 32
    → hi < 2 ^ 32
    → (j : ℕ)
    → (write_s (write_s f k false lo) (k + 1) false hi).fgr j
      ≡ (if j == k % 32 then hi * 2 ^ 32 + lo else f.fgr j)
unfolding write_s
halves_lem f k lo hi even_k hl hh j =
    let first = f.fgr (k % 32) / 2 ^ 32 % 2 ^ 32 * 2 ^ 32 + lo in
    let e : (k % 32) / 2 * 2 ≡ k % 32 = omega arith in
    let o : (k + 1) % 32 / 2 * 2 ≡ k % 32 = omega arith in
    ground (
      arith,
      bit_and_low 5 k,
      bit_and_low 5 (k + 1),
      even_lem (k % 32),
      even_lem ((k + 1) % 32),
      bit_and_low 1 (k % 32),
      bit_and_low 1 ((k + 1) % 32),
      low_half (f.fgr (k % 32)) lo hl,
      high_half first hi hh,
    )

-- In the view with 16 registers, a word written at an even number and one written at the odd number
-- after it are the low and the high half of one register, which both numbers give as a whole; the
-- register of the odd number itself is not touched.
read_d-write_s :
    (f : Fpr) (k lo hi : ℕ)
    → k % 2 ≡ 0
    → lo < 2 ^ 32
    → hi < 2 ^ 32
    → (read_d (write_s (write_s f k false lo) (k + 1) false hi) k false ≡ hi * 2 ^ 32 + lo)
      × (read_d (write_s (write_s f k false lo) (k + 1) false hi) (k + 1) false ≡ hi * 2 ^ 32 + lo)
      × (read_raw (write_s (write_s f k false lo) (k + 1) false hi) (k + 1) ≡ read_raw f (k + 1))
unfolding read_d read_raw
read_d-write_s f k lo hi even_k hl hh =
    let at : (j : ℕ)
        → (write_s (write_s f k false lo) (k + 1) false hi).fgr j
          ≡ (if j == k % 32 then hi * 2 ^ 32 + lo else f.fgr j) =
      halves_lem f k lo hi even_k hl hh in
    let here : even (index k) ≡ k % 32 =
      ap even (bit_and_low 5 k) ∙ (even_lem (k % 32) (omega arith) ∙ omega arith) in
    let there : even (index (k + 1)) ≡ k % 32 =
      ap even (bit_and_low 5 (k + 1)) ∙ (even_lem ((k + 1) % 32) (omega arith) ∙ omega arith) in
    let odd : index (k + 1) ≡ (k + 1) % 32 = bit_and_low 5 (k + 1) in
    (
      at (even (index k)) ∙ ground (arith, here),
      at (even (index (k + 1))) ∙ ground (arith, there),
      at (index (k + 1)) ∙ ground (arith, odd),
    )
