-- ===== src/Cpu/Tlb/Pages.antt =====
-- The pair of pages of an entry as a range of addresses, and the address in a page by arithmetic:
-- `matches` and `translate` of crates/rustyn64-cpu/src/tlb.rs.
use rusty_n.Base.{
  ℕ, ◌+◌, ◌-◌, ◌*◌, ◌/◌, ◌%◌, ◌^◌, ◌≤◌, ◌<◌, ◌≡◌, refl, ap, ◌∙◌, sym, arith, zero, suc,
}
use rusty_n.Base.{
  Bool, true, false, not, ◌&&◌, ◌||◌, if◌then◌else◌, ◌==◌, ltb, leb, bit_and, bit_or,
}
use rusty_n.Base.{
  ap₂, shl, Bool-cases, inl, inr, bit-shr, bit_and_low, bit_and_field, bit_or_disjoint, bit_and_pow,
  bit, not64, mod_pow-lt,
}
use rusty_n.Cpu.Tlb.{
  Entry, PageEntry, Outcome, hit, fault, invalid, modified, va_mask, matches, region_of, vpn2_of,
  offset_mask, translate, page_of, page_size, pair_size,
}
use native.Mathlib.Nat.{
  pow-suc, one-le-pow, div-add-mod, mod-lt, le-div_iff_mul-le, div-lt_iff_lt-mul, mod-eq_of_lt,
}

pow-sum : (a b : ℕ) → 2 ^ (a + b) ≡ 2 ^ a * 2 ^ b
pow-sum zero b = let e : 0 + b ≡ b = omega arith in rw e (omega arith)
pow-sum (suc a) b =
    let e : suc a + b ≡ suc (a + b) = omega arith in
    rw e (
      pow-suc 2 (a + b)
      ∙ (ap (λ (t : ℕ). t * 2) (pow-sum a b)
          ∙ omega (arith, ap (λ (t : ℕ). t * 2 ^ b) (pow-suc 2 a))))

pred_mul : (x y : ℕ) → 1 ≤ x → (x - 1) * y ≡ x * y - y
pred_mul zero y h = absurd (omega (arith, h))
pred_mul (suc n) y h = let e : suc n - 1 ≡ n = omega arith in rw e (omega arith)

split_pow : (k : ℕ) → k ≤ 64 → 2 ^ (64 - k) * 2 ^ k ≡ 2 ^ 64
split_pow k le =
    let e : 64 - k + k ≡ 64 = omega (arith, le) in
    sym (pow-sum (64 - k) k) ∙ ap (λ (t : ℕ). 2 ^ t) e

-- The bits from `k` on of a word.
align_down : (k a : ℕ) → k ≤ 64 → a < 2 ^ 64 → bit_and a (not64 (2 ^ k - 1)) ≡ a / 2 ^ k * 2 ^ k
align_down k a le lt =
    let whole : 2 ^ (64 - k) * 2 ^ k ≡ 2 ^ 64 = split_pow k le in
    let mask : not64 (2 ^ k - 1) ≡ (2 ^ (64 - k) - 1) * 2 ^ k = omega (
      arith,
      whole,
      pred_mul (2 ^ (64 - k)) (2 ^ k) (one-le-pow (64 - k) 2 (omega arith)),
      one-le-pow k 2,
    ) in
    ap (bit_and a) mask
    ∙ (bit_and_field k (64 - k) a
        ∙ ap (λ (t : ℕ). t * 2 ^ k)
            (mod-eq_of_lt (
              (div-lt_iff_lt-mul {k = 2 ^ k} {x = a} {y = 2 ^ (64 - k)}
                  (one-le-pow k 2 (omega arith))).1
                (rw whole lt))))

-- The entry has pages of `2 ^ p` bytes, a power of two of at least 4 KiB, and its pair starts at a
-- multiple of the pair's size.
abbrev pub IsSized : Entry → ℕ → Type 0
IsSized e p =
    (12 ≤ p)
    × (p ≤ 24)
    × (bit_or e.page_mask 0x1fff ≡ 2 ^ (p + 1) - 1)
    × (e.vpn2 % 2 ^ (p + 1) ≡ 0)
    × (e.lo0.pfn < 2 ^ 20)
    × (e.lo1.pfn < 2 ^ 20)

-- The address is in the entry's region and in its pair of pages, and the entry is global or of the
-- address space.
abbrev pub answers : Entry → ℕ → ℕ → ℕ → Bool
answers e p vaddr asid =
    (vaddr / 2 ^ 62 == e.region)
    && ((leb e.vpn2 (vaddr % 2 ^ 40) && ltb (vaddr % 2 ^ 40) (e.vpn2 + 2 ^ (p + 1)))
        && (e.global || (e.asid == asid)))

-- The access through a page: invalid, not writable, or the address in the page's frame.
abbrev pub through : PageEntry → ℕ → ℕ → Bool → Outcome
through page p vaddr store =
    if page.valid
    then (if store && not page.dirty
        then fault modified
        else hit (record {
          addr = (page.pfn * 2 ^ 12 / 2 ^ p * 2 ^ p + vaddr % 2 ^ p) % 2 ^ 32;
          uncached = page.c == 2;
        }))
    else fault invalid

-- The even or the odd page of the pair.
abbrev pub outcome : Entry → ℕ → ℕ → Bool → Outcome
outcome e p vaddr store = through (if vaddr / 2 ^ p % 2 == 0 then e.lo0 else e.lo1) p vaddr store

block_of : (n x v : ℕ) → 0 < n → v % n ≡ 0 → v ≤ x → x < v + n → x / n * n ≡ v
block_of n x v pos h le lt =
    let whole : v / n * n ≡ v = omega (arith, div-add-mod v n, h) in
    let above : v / n ≤ x / n =
      (le-div_iff_mul-le {k = n} {x = v / n} {y = x} pos).1 (rw whole le) in
    let next : suc (v / n) * n ≡ v + n = omega (arith, whole) in
    let below : x / n < suc (v / n) =
      (div-lt_iff_lt-mul {k = n} {x = x} {y = suc (v / n)} pos).1 (rw next lt) in
    let same : x / n ≡ v / n = omega (arith, above, below) in rw same whole

-- The start of the block of an address, and the addresses of a block.
same_block : (n x v : ℕ) → 0 < n → v % n ≡ 0 → (x / n * n == v) ≡ (leb v x && ltb x (v + n))
same_block n x v pos h =
    let inside = block_of n x v pos h in
    let split = div-add-mod x n in
    let rest : x % n < n = mod-lt x pos in ground (arith, inside, split, rest)

gates : (a b c : Bool) → (if not a then false else if not b then false else c) ≡ (a && (b && c))
gates true true c = refl
gates true false c = refl
gates false b c = refl

pub matches_lem :
    (e : Entry) (p vaddr asid : ℕ)
    → IsSized e p
    → vaddr < 2 ^ 64
    → matches e vaddr asid ≡ answers e p vaddr asid
unfolding matches region_of vpn2_of offset_mask
matches_lem e p vaddr asid h lt =
    let region : bit_and (vaddr / 2 ^ 62) 3 ≡ vaddr / 2 ^ 62 =
      bit_and_low 2 (vaddr / 2 ^ 62) ∙ omega arith in
    let low : bit_and vaddr va_mask ≡ vaddr % 2 ^ 40 = bit_and_low 40 vaddr in
    let down = align_down (p + 1) (vaddr % 2 ^ 40) (omega (arith, h.1)) (omega arith) in
    let block =
      same_block (2 ^ (p + 1)) (vaddr % 2 ^ 40) e.vpn2 (one-le-pow (p + 1) 2 (omega arith)) h.3 in
    rw (region, low, h.2, down, block)
      (gates (vaddr / 2 ^ 62 == e.region)
        (leb e.vpn2 (vaddr % 2 ^ 40) && ltb (vaddr % 2 ^ 40) (e.vpn2 + 2 ^ (p + 1)))
        (e.global || (e.asid == asid)))

page_size_lem : (e : Entry) (p : ℕ) → IsSized e p → page_size e.page_mask ≡ 2 ^ p
unfolding page_size pair_size
page_size_lem e p h =
    let double : 2 ^ (p + 1) ≡ 2 ^ p * 2 = ap (λ (t : ℕ). 2 ^ t) (one_more p) ∙ pow-suc 2 p in
    omega (arith, h.2, double, one-le-pow (p + 1) 2)
  where
    one_more : (n : ℕ) → n + 1 ≡ suc n
    one_more n = omega arith

bit_lem : (k w : ℕ) → bit k w ≡ w / 2 ^ k % 2
bit_lem k w = let e : 0 + k ≡ k = omega arith in sym (bit-shr k 0 w ∙ ap (λ (t : ℕ). bit t w) e)

half_lem : (p vaddr : ℕ) → (bit_and vaddr (2 ^ p) == 0) ≡ (vaddr / 2 ^ p % 2 == 0)
half_lem p vaddr =
    ap (λ (t : ℕ). t == 0) (bit_and_pow p vaddr ∙ ap (λ (t : ℕ). t * 2 ^ p) (bit_lem p vaddr))
    ∙ two (vaddr / 2 ^ p % 2) (2 ^ p) (omega arith) (one-le-pow p 2 (omega arith))
  where
    two : (b n : ℕ) → b < 2 → 1 ≤ n → (b * n == 0) ≡ (b == 0)
    two zero n h k = ground arith
    two (suc zero) n h k = ground arith
    two (suc (suc b)) n h k = absurd (omega (arith, h))

frame_lem :
    (pfn p vaddr : ℕ)
    → p ≤ 24
    → pfn < 2 ^ 20
    → bit_or (bit_and (shl pfn 12) (not64 (2 ^ p - 1))) (bit_and vaddr (2 ^ p - 1))
      ≡ pfn * 2 ^ 12 / 2 ^ p * 2 ^ p + vaddr % 2 ^ p
frame_lem pfn p vaddr le lt =
    ap₂ bit_or (align_down p (pfn * 2 ^ 12) (omega arith) (omega arith)) (bit_and_low p vaddr)
    ∙ bit_or_disjoint p (pfn * 2 ^ 12 / 2 ^ p) (vaddr % 2 ^ p) (mod_pow-lt p vaddr)

turned : (b : Bool) (x y : Outcome) → (if not b then x else y) ≡ (if b then y else x)
turned true x y = refl
turned false x y = refl

pub translate_lem :
    (e : Entry) (p vaddr : ℕ) (store : Bool)
    → IsSized e p
    → vaddr < 2 ^ 64
    → translate e vaddr store ≡ outcome e p vaddr store
unfolding translate page_of
translate_lem e p vaddr store h lt =
    let size = page_size_lem e p h in
    let half = half_lem p vaddr in
    let even = frame_lem e.lo0.pfn p vaddr h.1 h.4 in
    let odd = frame_lem e.lo1.pfn p vaddr h.1 h.5 in
    rw (size, half)
      (elim (Bool-cases (vaddr / 2 ^ p % 2 == 0)) [
        | inl even_page ↦ rw (even_page, even) (turned e.lo0.valid _ _)
        | inr odd_page ↦ rw (odd_page, odd) (turned e.lo1.valid _ _)
      ])
