-- ===== src/Cpu/Cache/Dcache/Coherence.antt =====
-- What the processor sees through the cache, and that filling a line does not change it.
use rusty_n.Base.{
  ℕ, ◌+◌, ◌-◌, ◌*◌, ◌/◌, ◌%◌, ◌^◌, ◌<◌, ◌≡◌, refl, ap, subst, eq_of_==, ◌∙◌, sym, arith, bit_and,
  bit_or,
}
use rusty_n.Base.{Bool, true, false, ◌&&◌, if◌then◌else◌, ◌==◌, ltb, leb, length, get_or, All}
use rusty_n.Base.{
  get_or-set_self, get_or-set_ne, length-set, bit_and_low, bit_or_disjoint, length-replicate,
  get_or-replicate, All-replicate,
}
use rusty_n.Cpu.Cache.{Line, empty}
use rusty_n.Cpu.Cache.Dcache.{Dcache, new, Memory, index, line_at, set_line, resident_addr, hits}
use rusty_n.Cpu.Cache.Dcache.{push_line}
use rusty_n.Cpu.Cache.Dcache.Bus.{IsByte, AllBytes, push_line_lem}

-- A line that index `i` may hold: sixteen bytes, a frame number of 20 digits and, if the line is
-- valid, one whose lowest digit agrees with the index.
pub record IsLine (i : ℕ) (l : Line) : Type 0 where
  pub size : length l.bytes ≡ 16
  pub bytes : All IsByte l.bytes
  pub frame : l.tag < 2 ^ 20
  pub agrees : l.valid ≡ true → l.tag % 2 ≡ i / 256

pub record IsValid (c : Dcache) : Type 0 where
  pub count : length c.lines ≡ 512
  pub line : (i : ℕ) → i < 512 → IsLine i (line_at c i)

-- The byte that the processor sees at an address: the cached one on a hit, else the memory's.
unfoldable pub view : Dcache → Memory → ℕ → ℕ
view c m a = if hits c a then get_or (line_at c (index a)).bytes (a % 16) 0 else m a

-- A line that is not dirty holds what memory holds.
abbrev pub IsClean : Dcache → Memory → Type 0
IsClean c m =
    (a : ℕ)
    → a < 2 ^ 32
    → hits c a ≡ true
    → (line_at c (index a)).dirty ≡ false
    → get_or (line_at c (index a)).bytes (a % 16) 0 ≡ m a

pub record IsCoherent (c : Dcache) (m : Memory) : Type 0 where
  pub valid : IsValid c
  pub clean : IsClean c m
  pub bytes : AllBytes m

pub line_at-set_line :
    (c : Dcache) (i j : ℕ) (l : Line)
    → length c.lines ≡ 512
    → i < 512
    → line_at (set_line c i l) j ≡ (if i == j then l else line_at c j)
line_at-set_line c i j l n h =
    ground (arith, get_or-set_self c.lines i l (empty 16), get_or-set_ne c.lines i j l (empty 16))

pub resident_addr_lem :
    (c : Dcache) (i : ℕ)
    → i < 512
    → (line_at c i).tag < 2 ^ 20
    → resident_addr c i ≡ (line_at c i).tag * 4096 + i * 16 % 4096
unfolding resident_addr
resident_addr_lem c i h t = omega (
  arith,
  bit_and_low 12 (i * 16),
  bit_or_disjoint 12 (line_at c i).tag (i * 16 % 4096) (omega arith),
  ap (λ (x : ℕ). bit_or x (bit_and (i % 2 ^ 32 * 16) 0xfff)) top,
  ap (λ (x : ℕ). bit_or ((line_at c i).tag * 4096) x) low,
)
  where
    top : (line_at c i).tag * 4096 % 2 ^ 32 ≡ (line_at c i).tag * 4096
    top = omega arith

    low : bit_and (i % 2 ^ 32 * 16) 0xfff ≡ i * 16 % 4096
    low = bit_and_low 12 (i % 2 ^ 32 * 16) ∙ omega arith

-- The sixteen addresses of a resident line are those with its index and its frame number.
resident_range :
    (t i b : ℕ)
    → i < 512
    → t % 2 ≡ i / 256
    → (leb (t * 4096 + i * 16 % 4096) b && ltb b (t * 4096 + i * 16 % 4096 + 16))
      ≡ ((index b == i) && (t == b / 4096))
resident_range t i b hi h = ground arith

resident_offset :
    (t i b : ℕ)
    → i < 512
    → t % 2 ≡ i / 256
    → index b ≡ i
    → t ≡ b / 4096
    → b - (t * 4096 + i * 16 % 4096) ≡ b % 16
resident_offset t i b hi h e f = omega arith

-- Memory after the write-back of the line at `i`.
pub evicted_byte :
    (c : Dcache) (m : Memory) (i b : ℕ)
    → IsValid c
    → i < 512
    → (line_at c i).valid ≡ true
    → push_line m (resident_addr c i) (line_at c i).bytes b ≡ (
        if (index b == i) && ((line_at c i).tag == b / 4096)
        then get_or (line_at c i).bytes (b % 16) 0
        else m b)
evicted_byte c m i b v hi valid =
    let l = v.line i hi in
    let r = resident_addr_lem c i hi l.frame in
    push_line_lem m (resident_addr c i) (line_at c i).bytes b (omega (arith, l.size))
      (omega (arith, l.size, l.frame, r)) l.bytes
    ∙ (ap
          (λ (n : ℕ).
            if leb (resident_addr c i) b && ltb b (resident_addr c i + n)
            then get_or (line_at c i).bytes (b - resident_addr c i) 0
            else m b)
          l.size
        ∙ (ap
              (λ (a : ℕ).
                if leb a b && ltb b (a + 16) then get_or (line_at c i).bytes (b - a) 0 else m b)
              r
            ∙ (ap (λ (x : Bool). if x then get_or (line_at c i).bytes (b - at) 0 else m b)
                  (resident_range (line_at c i).tag i b hi (l.agrees valid))
                ∙ ground (arith, offset))))
  where
    at : ℕ
    at = (line_at c i).tag * 4096 + i * 16 % 4096

    offset :
        index b ≡ i
        → (line_at c i).tag ≡ b / 4096
        → get_or (line_at c i).bytes (b - at) 0 ≡ get_or (line_at c i).bytes (b % 16) 0
    offset e f =
        ap (λ (t : ℕ). get_or (line_at c i).bytes t 0)
          (resident_offset (line_at c i).tag i b hi ((v.line i hi).agrees valid) e f)

-- A line put at its own index keeps the cache valid.
pub set_line-IsValid :
    (c : Dcache) (i : ℕ) (l : Line) → IsValid c → i < 512 → IsLine i l → IsValid (set_line c i l)
set_line-IsValid c i l v hi hl = record {
  count = length-set c.lines i l ∙ v.count;
  line = λ j hj.
      subst (IsLine j) (sym (line_at-set_line c i j l v.count hi)) (pick j hj (i == j) refl);
}
  where
    pick : (j : ℕ) → j < 512 → (b : Bool) → (i == j) ≡ b → IsLine j (if b then l else line_at c j)
    pick j hj true e = subst (λ (t : ℕ). IsLine t l) (eq_of_== i j e) hl
    pick j hj false e = v.line j hj

-- The power-on cache holds no line, so the processor sees memory itself.
pub new-IsCoherent : (m : Memory) → AllBytes m → IsCoherent new m
unfolding new hits
new-IsCoherent m h = record {
  valid = record {
    count = length-replicate 512 (empty 16);
    line = λ i hi. subst (IsLine i) (sym (get_or-replicate 512 i (empty 16))) (record {
      size = length-replicate {A = ℕ} 16 0;
      bytes = All-replicate IsByte 16 0 (omega arith);
      frame = omega arith;
      agrees = λ e. cc;
    });
  };
  clean = λ a ha hit d. ground (arith, get_or-replicate 512 (index a) (empty 16), hit);
  bytes = h;
}
