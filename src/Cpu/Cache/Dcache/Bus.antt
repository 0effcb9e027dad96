-- ===== src/Cpu/Cache/Dcache/Bus.antt =====
-- What a line written to the bus leaves in memory, and what a line read from it holds.
use rusty_n.Base.{ℕ, zero, suc, ◌+◌, ◌-◌, ◌*◌, ◌/◌, ◌%◌, ◌^◌, ◌≤◌, ◌<◌, ◌≡◌, refl, ap, ◌∙◌, arith}
use native.Mathlib.Decide.{dec_lt}
use rusty_n.Base.{
  ◌⊎◌, inl, inr, List, [], ◌∷◌, ◌&&◌, if◌then◌else◌, ◌==◌, ltb, leb, length, get_or, All, add32,
}
use rusty_n.Cpu.Cache.Dcache.{Memory, from_be, read_u32, write_u32, push_line, pull_line}

abbrev pub IsByte : ℕ → Type 0
IsByte b = b < 256

abbrev pub AllBytes : Memory → Type 0
AllBytes m = (a : ℕ) → m a < 256

rest_at : (rest : List ℕ) (i j : ℕ) → i ≡ j → get_or rest i 0 ≡ get_or rest j 0
rest_at rest i j e = ap (λ (t : ℕ). get_or rest t 0) e

tail_at :
    (rest : List ℕ) (i j : ℕ) → (i ≡ j) ⊎ (length rest ≡ 0) → get_or rest i 0 ≡ get_or rest j 0
tail_at [] i j e = refl
tail_at (x ∷ rest) i j (inl e) = rest_at (x ∷ rest) i j e
tail_at (x ∷ rest) i j (inr e) = absurd (omega arith)

get_four :
    (b0 b1 b2 b3 : ℕ) (rest : List ℕ) (n : ℕ)
    → get_or (b0 ∷ b1 ∷ b2 ∷ b3 ∷ rest) n 0
      ≡ (if ltb n 4 then get_or (b0 ∷ b1 ∷ b2 ∷ b3 ∷ []) n 0 else get_or rest (n - 4) 0)
get_four b0 b1 b2 b3 rest zero = refl
get_four b0 b1 b2 b3 rest (suc zero) = refl
get_four b0 b1 b2 b3 rest (suc (suc zero)) = refl
get_four b0 b1 b2 b3 rest (suc (suc (suc zero))) = refl
get_four b0 b1 b2 b3 rest (suc (suc (suc (suc n)))) = ground (arith, rest_at rest n (n + 4 - 4))

word_at :
    (b0 b1 b2 b3 n : ℕ)
    → get_or (b0 ∷ b1 ∷ b2 ∷ b3 ∷ []) n 0 ≡ (
        if n == 0
        then b0
        else if n == 1
        then b1
        else if n == 2
        then b2
        else if n == 3
        then b3
        else 0)
word_at b0 b1 b2 b3 zero = refl
word_at b0 b1 b2 b3 (suc zero) = refl
word_at b0 b1 b2 b3 (suc (suc zero)) = refl
word_at b0 b1 b2 b3 (suc (suc (suc zero))) = refl
word_at b0 b1 b2 b3 (suc (suc (suc (suc n)))) = ground arith

write_u32_lem :
    (m : Memory) (a b0 b1 b2 b3 b : ℕ)
    → b0 < 256
    → b1 < 256
    → b2 < 256
    → b3 < 256
    → write_u32 m a (from_be b0 b1 b2 b3) b
      ≡ (if leb a b && ltb b (a + 4) then get_or (b0 ∷ b1 ∷ b2 ∷ b3 ∷ []) (b - a) 0 else m b)
unfolding write_u32
write_u32_lem m a b0 b1 b2 b3 b h0 h1 h2 h3 = rw (word_at b0 b1 b2 b3 (b - a)) (ground arith)

-- The word at the head and the words behind it, put together.
join_words :
    (a a' len b : ℕ) (out mid head_byte rest_byte full old : ℕ)
    → out ≡ (if leb a' b && ltb b (a' + len) then rest_byte else mid)
    → mid ≡ (if leb a b && ltb b (a + 4) then head_byte else old)
    → full ≡ (if ltb (b - a) 4 then head_byte else rest_byte)
    → (a' ≡ a + 4) ⊎ (len ≡ 0)
    → out ≡ (if leb a b && ltb b (a + (4 + len)) then full else old)
join_words a a' len b out mid head_byte rest_byte full old p q r s = ground arith

-- A line of whole words written to the bus stores its bytes in order and nothing else.
pub push_line_lem :
    (m : Memory) (a : ℕ) (bytes : List ℕ) (b : ℕ)
    → length bytes % 4 ≡ 0
    → a + length bytes ≤ 2 ^ 32
    → All IsByte bytes
    → push_line m a bytes b
      ≡ (if leb a b && ltb b (a + length bytes) then get_or bytes (b - a) 0 else m b)
unfolding push_line
push_line_lem m a [] b w fits h = ground arith
push_line_lem m a (b0 ∷ []) b w fits h = absurd (omega arith)
push_line_lem m a (b0 ∷ b1 ∷ []) b w fits h = absurd (omega arith)
push_line_lem m a (b0 ∷ b1 ∷ b2 ∷ []) b w fits h = absurd (omega arith)
push_line_lem m a (b0 ∷ b1 ∷ b2 ∷ b3 ∷ rest) b w fits h = rw (add_four (length rest)) (
    join_words a (add32 a 4) (length rest) b _ _ _ _ _ _
      (push_line_lem (write_u32 m a (from_be b0 b1 b2 b3)) (add32 a 4) rest b (omega arith)
        (omega arith) h.1.1.1.1)
      (write_u32_lem m a b0 b1 b2 b3 b h.0 h.1.0 h.1.1.0 h.1.1.1.0) full aligned)
  where
    aligned : (add32 a 4 ≡ a + 4) ⊎ (length rest ≡ 0)
    aligned = elim (dec_lt 0 (length rest)) [ yes p ↦ inl (omega arith) | no p ↦ inr (omega arith) ]

    apart : (b - a - 4 ≡ b - add32 a 4) ⊎ (length rest ≡ 0)
    apart = elim (dec_lt 0 (length rest)) [ yes p ↦ inl (omega arith) | no p ↦ inr (omega arith) ]

    full : get_or (b0 ∷ b1 ∷ b2 ∷ b3 ∷ rest) (b - a) 0 ≡ (
        if ltb (b - a) 4
        then get_or (b0 ∷ b1 ∷ b2 ∷ b3 ∷ []) (b - a) 0
        else get_or rest (b - add32 a 4) 0)
    full =
        get_four b0 b1 b2 b3 rest (b - a)
        ∙ ap (λ (t : ℕ). if ltb (b - a) 4 then get_or (b0 ∷ b1 ∷ b2 ∷ b3 ∷ []) (b - a) 0 else t)
            (tail_at rest (b - a - 4) (b - add32 a 4) apart)

    add_four : (n : ℕ) → suc (suc (suc (suc n))) ≡ 4 + n
    add_four n = omega arith

word_bytes :
    (m : Memory) (a : ℕ)
    → AllBytes m
    → (read_u32 m a / 2 ^ 24 % 256 ≡ m a)
      × (read_u32 m a / 2 ^ 16 % 256 ≡ m (a + 1))
      × (read_u32 m a / 2 ^ 8 % 256 ≡ m (a + 2))
      × (read_u32 m a % 256 ≡ m (a + 3))
unfolding read_u32
word_bytes m a h = omega (arith, h a, h (a + 1), h (a + 2), h (a + 3))

pub length-pull_line : (m : Memory) (a words : ℕ) → length (pull_line m a words) ≡ 4 * words
unfolding pull_line
length-pull_line m a zero = refl
length-pull_line m a (suc words) = omega (arith, length-pull_line m (add32 a 4) words)

pub pull_line-IsByte : (m : Memory) (a words : ℕ) → All IsByte (pull_line m a words)
unfolding pull_line
pull_line-IsByte m a zero = tt
pull_line-IsByte m a (suc words) =
    (omega arith, (omega arith, (omega arith, (omega arith, pull_line-IsByte m (add32 a 4) words))))

-- A line read from the bus holds the memory's bytes in order.
pub pull_line_lem :
    (m : Memory) (a words k : ℕ)
    → AllBytes m
    → a + 4 * words ≤ 2 ^ 32
    → k < 4 * words
    → get_or (pull_line m a words) k 0 ≡ m (a + k)
unfolding pull_line
pull_line_lem m a zero k h fits lt = absurd (omega arith)
pull_line_lem m a (suc words) zero h fits lt = (word_bytes m a h).0 ∙ ap m (omega arith)
pull_line_lem m a (suc words) (suc zero) h fits lt = (word_bytes m a h).1
pull_line_lem m a (suc words) (suc (suc zero)) h fits lt = (word_bytes m a h).2
pull_line_lem m a (suc words) (suc (suc (suc zero))) h fits lt = (word_bytes m a h).3
pull_line_lem m a (suc words) (suc (suc (suc (suc k)))) h fits lt =
    pull_line_lem m (add32 a 4) words k h (omega arith) (omega arith) ∙ ap m (omega arith)
