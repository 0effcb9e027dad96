-- ===== src/Rsp/Vu/Transfer.antt =====
-- The loads and stores of the vector unit: vector_mem of crates/rustyn64-rsp/src/vu.rs and its
-- helpers. A loop over `n` bytes or lanes is a recursion on `n` that runs the first one first.
pub mod Misaligned
use rusty_n.Base.{ℕ, zero, suc, ◌+◌, ◌-◌, ◌*◌, ◌/◌, ◌%◌, ◌^◌, min, bit_and, bit_or}
use rusty_n.Base.{Bool, true, false, Option, none, some, ◌&&◌, ◌||◌, not}
use rusty_n.Base.{List, [], ◌∷◌, get_or, ◌==◌, ltb, leb, if◌then◌else◌, u8, u16, u32}
use rusty_n.Base.{add32, sub32, shl}
use rusty_n.Rsp.Su.{r, dmem_read, dmem_write}
use rusty_n.Rsp.Vu.{Vu, Rsp, vu_byte, set_vu_byte, set_lane}

-- The sign extension of the offset field, as a word, and its multiple.
abbrev sext7 : ℕ → ℕ
sext7 offset =
    let field = bit_and offset 0x7f in if ltb field 64 then field else field + (2 ^ 32 - 2 ^ 7)

pub effective : ℕ → ℕ → ℕ → ℕ
effective rs offset scale = add32 rs (u32 (sext7 offset * scale))

-- The loop `for i in 0..n`, from the lowest index on.
pub iterate : (ℕ → Rsp → Rsp) → ℕ → Rsp → Rsp
iterate f zero s = s
iterate f (suc n) s = f n (iterate f n s)

-- A byte of the register to the memory, and the other way.
pub store_byte : ℕ → ℕ → ℕ → Rsp → Rsp
store_byte vt byte at s = dmem_write s at (vu_byte s.vu vt byte)

pub load_byte : ℕ → ℕ → ℕ → Rsp → Rsp
load_byte vt byte at s = record s { vu = set_vu_byte s.vu vt byte (dmem_read s at) }

-- The scalar group: 1, 2, 4 or 8 bytes.
pub scalar : Bool → ℕ → ℕ → ℕ → ℕ → Rsp → Rsp
scalar is_store size addr vt element s =
    if is_store
    then iterate (λ i. store_byte vt (bit_and (element + i) 15) (add32 addr i)) size s
    else iterate (λ i. load_byte vt (element + i) (add32 addr i)) (min size (16 - element)) s

-- LQV and SQV, from the address to the last byte before the next boundary.
pub left : Bool → ℕ → ℕ → ℕ → Rsp → Rsp
left is_store addr vt element s =
    let end = bit_or addr 15 in
    let size = if is_store then end - addr else min (end - addr) (15 - element) in
    iterate
      (λ i.
        if is_store
        then store_byte vt (bit_and (element + i) 15) (add32 addr i)
        else load_byte vt (bit_and (element + i) 15) (add32 addr i))
      (size + 1) s

-- LRV and SRV, from the boundary before the address up to the address.
pub right : Bool → ℕ → ℕ → ℕ → Rsp → Rsp
right is_store end vt element s =
    let addr = end / 16 * 16 in
    let n = bit_and end 15 in
    if is_store
    then iterate (λ i. store_byte vt (bit_and (element + 16 - n + i) 15) (add32 addr i)) n s
    else if ltb element n
    then iterate (λ i. load_byte vt (16 - n + element + i) (add32 addr i)) (n - element) s
    else s

-- The store half of the packed family.
pub packed_store : ℕ → ℕ → ℕ → Bool → Rsp → Rsp
packed_store vt addr element suv =
    iterate
      (λ i s.
        let offset = element + i in
        let lane = bit_and offset 7 in
        let first_half = ltb (bit_and offset 15) 8 in
        let high_byte = if suv then not first_half else first_half in
        let byte =
          if high_byte
          then vu_byte s.vu vt (lane * 2)
          else u8 (s.vu.vu_regs (bit_and vt 31) lane / 2 ^ 7) in
        dmem_write s (add32 addr i) byte)
      8

-- LPV, LUV and LHV: one byte for each lane, `stride` bytes apart, `up` digits higher.
pub packed_load : ℕ → ℕ → ℕ → ℕ → ℕ → Rsp → Rsp
packed_load vt addr index stride up =
    iterate
      (λ lane s.
        let byte = bit_and (add32 index (lane * stride)) 15 in
        record s { vu = set_lane s.vu vt lane (u16 (shl (dmem_read s (add32 addr byte)) up)) })
      8

pub strided_store : ℕ → ℕ → ℕ → ℕ → Rsp → Rsp
strided_store vt addr index element =
    iterate
      (λ lane s.
        let byte = element + lane * 2 in
        let hi = vu_byte s.vu vt (bit_and byte 15) in
        let lo = vu_byte s.vu vt (bit_and (byte + 1) 15) in
        dmem_write s (add32 addr (bit_and (add32 index (lane * 2)) 15))
          (u8 (bit_or (shl hi 1) (lo / 2 ^ 7))))
      8

pub vector_mem_packed : Bool → ℕ → ℕ → ℕ → ℕ → ℕ → Rsp → Rsp
vector_mem_packed is_store op rs vt element offset s =
    let base = effective rs offset 8 in
    let wide = effective rs offset 16 in
    if op == 8
    then (if is_store
        then strided_store vt (wide / 8 * 8) (bit_and wide 7) element s
        else packed_load vt (wide / 8 * 8) (sub32 (bit_and wide 7) element) 2 7 s)
    else (if is_store
        then packed_store vt base element (op == 7) s
        else packed_load vt (base / 8 * 8) (sub32 (bit_and base 7) element) 1
            (if op == 7 then 7 else 8) s)

-- The lanes that LFV computes, in the order of the register: the byte of the window, up 7 digits.
pub fractions : Rsp → ℕ → ℕ → List ℕ
fractions s address e =
    let aligned = address / 8 * 8 in
    let mis = bit_and address 7 in
    let at : ℕ → ℕ = λ k. shl (dmem_read s (add32 aligned ((mis + k) % 16))) 7 in
    at e
    ∷ at (20 - e)
    ∷ at (24 - e)
    ∷ at (28 - e)
    ∷ at (24 - e)
    ∷ at (28 - e)
    ∷ at (16 - e)
    ∷ at (20 - e)
    ∷ []

pub lfv : ℕ → ℕ → ℕ → Rsp → Rsp
lfv address vt element s =
    let temp = fractions s address element in
    iterate
      (λ i s'.
        let byte = element + i in
        let v = get_or temp (byte / 2) 0 in
        record s' {
          vu = set_vu_byte s'.vu vt byte (if byte % 2 == 0 then u8 (v / 2 ^ 8) else u8 v);
        })
      (min 8 (16 - element)) s

-- The four lanes that SFV stores, for the elements that it defines.
pub fraction_lanes : ℕ → Option (List ℕ)
fraction_lanes element =
    if (element == 0) || (element == 15)
    then some (0 ∷ 1 ∷ 2 ∷ 3 ∷ [])
    else if element == 1
    then some (6 ∷ 7 ∷ 4 ∷ 5 ∷ [])
    else if element == 4
    then some (1 ∷ 2 ∷ 3 ∷ 0 ∷ [])
    else if element == 5
    then some (7 ∷ 4 ∷ 5 ∷ 6 ∷ [])
    else if element == 8
    then some (4 ∷ 5 ∷ 6 ∷ 7 ∷ [])
    else if element == 11
    then some (3 ∷ 0 ∷ 1 ∷ 2 ∷ [])
    else if element == 12
    then some (5 ∷ 6 ∷ 7 ∷ 4 ∷ [])
    else none

pub fraction_byte : Rsp → ℕ → Option (List ℕ) → ℕ → ℕ
fraction_byte s vt none i = 0
fraction_byte s vt (some lanes) i = u8 (s.vu.vu_regs (bit_and vt 31) (get_or lanes i 0) / 2 ^ 7)

pub sfv : ℕ → ℕ → ℕ → Rsp → Rsp
sfv address vt element =
    iterate
      (λ i s.
        dmem_write s (address / 8 * 8 + bit_and (bit_and address 7 + i * 4) 15)
          (fraction_byte s vt (fraction_lanes element) i))
      4

-- LTV and STV: a diagonal of the group of eight registers, through a window of 16 bytes.
pub ltv : ℕ → ℕ → ℕ → Rsp → Rsp
ltv address vt element =
    let begin = address / 8 * 8 in
    let start = bit_and (element + bit_and address 8) 15 in
    iterate
      (λ k s.
        let reg = vt / 8 * 8 + bit_and (element / 2 + k / 2) 7 in
        record s { vu = set_vu_byte s.vu reg k (dmem_read s (begin + (start + k) % 16)) })
      16

pub stv : ℕ → ℕ → ℕ → Rsp → Rsp
stv address vt element =
    let elem = 16 - element / 2 * 2 in
    let base = sub32 (bit_and address 7) (element / 2 * 2) in
    iterate
      (λ k s.
        let byte = vu_byte s.vu (vt / 8 * 8 + k / 2) (bit_and (elem + k) 15) in
        dmem_write s (add32 (address / 8 * 8) (bit_and (add32 base k) 15)) byte)
      16

-- SWV: the whole register, turned within a window that starts at a multiple of eight.
pub swv : ℕ → ℕ → ℕ → Rsp → Rsp
swv ea vt element =
    iterate
      (λ i.
        store_byte vt (bit_and (element + i) 15)
          (add32 (ea / 8 * 8) (bit_and (bit_and ea 7 + i) 15)))
      16

-- The state after a load or store, and whether the opcode is one.
pub vector_mem : Bool → ℕ → ℕ → ℕ → ℕ → ℕ → Rsp → Rsp × Bool
vector_mem is_store op base vt element offset s =
    let rs = r s base in
    let ea = effective rs offset 16 in
    if leb op 3
    then (scalar is_store (2 ^ op) (effective rs offset (2 ^ op)) vt element s, true)
    else if op == 4
    then (left is_store ea vt element s, true)
    else if op == 5
    then (right is_store ea vt element s, true)
    else if leb op 8
    then (vector_mem_packed is_store op rs vt element offset s, true)
    else if op == 9
    then (if is_store then sfv ea vt element s else lfv ea vt element s, true)
    else if op == 10
    then (if is_store then swv ea vt element s else s, is_store)
    else if op == 11
    then (if is_store then stv ea vt element s else ltv ea vt element s, true)
    else (s, false)
