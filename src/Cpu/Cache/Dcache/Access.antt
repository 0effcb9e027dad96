-- ===== src/Cpu/Cache/Dcache/Access.antt =====
-- Cached loads and stores against a flat, big-endian memory.
use rusty_n.Base.{
  ℕ, zero, suc, ◌+◌, ◌-◌, ◌*◌, ◌/◌, ◌%◌, ◌^◌, ◌≤◌, ◌<◌, ◌≡◌, refl, ap, ◌∙◌, arith, bit_or,
}
use rusty_n.Base.{true, List, ◌&&◌, if◌then◌else◌, ltb, leb, length, get_or, set, All}
use rusty_n.Base.{
  length-set, get_or-set_self, get_or-set_ne, bit_or_disjoint, All-get_or, All-set, u64, u8, shl,
  shr,
}
use native.Mathlib.Nat.{pow-suc, pow-le-pow_right}
use rusty_n.Cpu.Cache.{Line}
use rusty_n.Cpu.Cache.Dcache.{Dcache, Memory, index, line_at, hits}
use rusty_n.Cpu.Cache.Dcache.{read_from, read, write_from, write}
use rusty_n.Cpu.Cache.Dcache.Bus.{IsByte}
use rusty_n.Cpu.Cache.Dcache.Coherence.{view, IsCoherent, line_at-set_line, set_line-IsValid}

-- The `n` bytes of a memory from an address on as a number, the first one highest.
unfoldable pub flat_load : Memory → ℕ → ℕ → ℕ → ℕ
flat_load f a zero v = v
flat_load f a (suc n) v = flat_load f (a + 1) n (v * 256 + f a)

-- A memory with the low `n` bytes of a value stored from an address on, the highest first.
unfoldable pub flat_store : Memory → ℕ → ℕ → ℕ → Memory
flat_store f a n v b = if leb a b && ltb b (a + n) then v / 2 ^ (8 * (a + n - 1 - b)) % 256 else f b

write_from_lem :
    (n : ℕ) (bytes : List ℕ) (o v k : ℕ)
    → o + n ≤ length bytes
    → get_or (write_from bytes o n v) k 0
      ≡ (if leb o k && ltb k (o + n) then v / 2 ^ (8 * (o + n - 1 - k)) % 256 else get_or bytes k 0)
unfolding write_from
write_from_lem zero bytes o v k h = ground arith
write_from_lem (suc n) bytes o v k h = ground (
  arith,
  write_from_lem n (set bytes o (u8 (shr v (8 * n)))) (o + 1) v k
      (omega (arith, length-set bytes o (u8 (shr v (8 * n))))),
  get_or-set_self bytes o (u8 (shr v (8 * n))) 0,
  get_or-set_ne bytes o k (u8 (shr v (8 * n))) 0,
  byte_of (o + 1 + n - 1 - k) (o + suc n - 1 - k),
  byte_of n (o + suc n - 1 - k),
)
  where
    byte_of : (i j : ℕ) → i ≡ j → v / 2 ^ (8 * i) % 256 ≡ v / 2 ^ (8 * j) % 256
    byte_of i j e = ap (λ (t : ℕ). v / 2 ^ (8 * t) % 256) e

length-write_from :
    (n : ℕ) (bytes : List ℕ) (o v : ℕ) → length (write_from bytes o n v) ≡ length bytes
unfolding write_from
length-write_from zero bytes o v = refl
length-write_from (suc n) bytes o v =
    length-write_from n (set bytes o (u8 (shr v (8 * n)))) (o + 1) v
    ∙ length-set bytes o (u8 (shr v (8 * n)))

write_from-IsByte :
    (n : ℕ) (bytes : List ℕ) (o v : ℕ) → All IsByte bytes → All IsByte (write_from bytes o n v)
unfolding write_from
write_from-IsByte zero bytes o v h = h
write_from-IsByte (suc n) bytes o v h =
    write_from-IsByte n (set bytes o (u8 (shr v (8 * n)))) (o + 1) v
      (All-set IsByte bytes o (u8 (shr v (8 * n))) (omega arith) h)

-- Reading `n` more bytes after `k`, eight in all at most, loses none of them.
read_from_lem :
    (n k : ℕ) (bytes : List ℕ) (o v : ℕ) (f : Memory) (a : ℕ)
    → k + n ≤ 8
    → v < 256 ^ k
    → ((j : ℕ) → j < n → get_or bytes (o + j) 0 ≡ f (a + j))
    → ((j : ℕ) → f j < 256)
    → read_from bytes o n v ≡ flat_load f a n v
unfolding read_from flat_load
read_from_lem zero k bytes o v f a hk hv h b = refl
read_from_lem (suc n) k bytes o v f a hk hv h b =
    ap (λ (t : ℕ). read_from bytes (o + 1) n t) joined
    ∙ read_from_lem n (suc k) bytes (o + 1) (v * 256 + f a) f (a + 1) (omega arith)
        (omega (arith, pow-suc 256 k, b a)) shifted b
  where
    first : get_or bytes o 0 ≡ f a
    first =
        ap (λ (t : ℕ). get_or bytes t 0) (omega arith) ∙ (h 0 (omega arith) ∙ ap f (omega arith))

    small : v < 256 ^ 7
    small = omega (arith, pow-le-pow_right {n = 256} (omega arith) {i = k} {j = 7} (omega arith))

    joined : bit_or (u64 (shl v 8)) (get_or bytes o 0) ≡ v * 256 + f a
    joined =
        ap (λ (t : ℕ). bit_or t (get_or bytes o 0)) (omega (arith, small))
        ∙ (ap (λ (t : ℕ). bit_or (v * 256) t) first ∙ bit_or_disjoint 8 v (f a) (b a))

    shifted : (j : ℕ) → j < n → get_or bytes (o + 1 + j) 0 ≡ f (a + 1 + j)
    shifted j hj =
        ap (λ (t : ℕ). get_or bytes t 0) (omega arith)
        ∙ (h (suc j) (omega arith) ∙ ap f (omega arith))

view-lt : (c : Dcache) (m : Memory) (a : ℕ) → IsCoherent c m → view c m a < 256
unfolding view
view-lt c m a co = ground (
  arith,
  co.bytes a,
  All-get_or IsByte (line_at c (index a)).bytes (a % 16) 0 (omega arith)
      (co.valid.line (index a) (omega arith)).bytes,
)

view_hit :
    (c : Dcache) (m : Memory) (addr j : ℕ)
    → hits c addr ≡ true
    → addr % 16 + j < 16
    → get_or (line_at c (index addr)).bytes (addr % 16 + j) 0 ≡ view c m (addr + j)
unfolding view hits
view_hit c m addr j h lt = ground (arith, same, offset)
  where
    same : line_at c (index (addr + j)) ≡ line_at c (index addr)
    same = ap (line_at c) (omega arith)

    offset :
        get_or (line_at c (index addr)).bytes (addr % 16 + j) 0
        ≡ get_or (line_at c (index addr)).bytes ((addr + j) % 16) 0
    offset = ap (λ (t : ℕ). get_or (line_at c (index addr)).bytes t 0) (omega arith)

pub read_hit :
    (c : Dcache) (m : Memory) (addr n : ℕ)
    → IsCoherent c m
    → hits c addr ≡ true
    → addr % 16 + n ≤ 16
    → n ≤ 8
    → read c addr n ≡ flat_load (view c m) addr n 0
unfolding read
read_hit c m addr n co h fits hn =
    read_from_lem n 0 (line_at c (index addr)).bytes (addr % 16) 0 (view c m) addr (omega arith)
      (omega arith) (λ j hj. view_hit c m addr j h (omega arith)) (λ j. view-lt c m j co)

-- The line that a write leaves.
abbrev written : Dcache → ℕ → ℕ → ℕ → Line
written c addr n v =
    let l = line_at c (index addr) in
    record l { bytes = write_from l.bytes (addr % 16) n v; dirty = true }

pub view-write :
    (c : Dcache) (m : Memory) (addr n v a : ℕ)
    → IsCoherent c m
    → hits c addr ≡ true
    → addr % 16 + n ≤ 16
    → view (write c addr n v) m a ≡ flat_store (view c m) addr n v a
unfolding view hits write flat_store
view-write c m addr n v a co h fits = ground (
  arith,
  line_at-set_line c (index addr) (index a) (written c addr n v) co.valid.count (omega arith),
  write_from_lem n (line_at c (index addr)).bytes (addr % 16) v (a % 16)
      (omega (arith, (co.valid.line (index addr) (omega arith)).size)),
  here,
  shift,
)
  where
    here : index a ≡ index addr → line_at c (index a) ≡ line_at c (index addr)
    here e = ap (line_at c) e

    shift :
        a / 16 ≡ addr / 16
        → v / 2 ^ (8 * (addr % 16 + n - 1 - a % 16)) % 256 ≡ v / 2 ^ (8 * (addr + n - 1 - a)) % 256
    shift e = ap (λ (t : ℕ). v / 2 ^ (8 * t) % 256) (omega arith)

pub write-IsCoherent :
    (c : Dcache) (m : Memory) (addr n v : ℕ)
    → IsCoherent c m
    → hits c addr ≡ true
    → addr % 16 + n ≤ 16
    → IsCoherent (write c addr n v) m
unfolding write hits
write-IsCoherent c m addr n v co h fits =
    let i = index addr in
    let l = co.valid.line i (omega arith) in
    record {
      valid = set_line-IsValid c i (written c addr n v) co.valid (omega arith) (record {
        size = length-write_from n (line_at c i).bytes (addr % 16) v ∙ l.size;
        bytes = write_from-IsByte n (line_at c i).bytes (addr % 16) v l.bytes;
        frame = l.frame;
        agrees = l.agrees;
      });
      clean = λ a ha hit d. ground (
        arith,
        line_at-set_line c i (index a) (written c addr n v) co.valid.count (omega arith),
        co.clean a ha,
        hit,
        d,
      );
      bytes = co.bytes;
    }
