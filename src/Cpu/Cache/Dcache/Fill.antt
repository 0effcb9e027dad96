-- ===== src/Cpu/Cache/Dcache/Fill.antt =====
-- The fill: it makes the line resident and the processor sees the same memory.
use rusty_n.Base.{ℕ, ◌*◌, ◌/◌, ◌%◌, ◌^◌, ◌<◌, ◌≡◌, refl, ap, subst, ◌∙◌, arith, bit_and, inl, inr}
use rusty_n.Base.{
  Bool, true, false, Option, none, some, ◌&&◌, if◌then◌else◌, ◌==◌, length, get_or, not32,
}
use rusty_n.Base.{bit_and_field, Bool-cases, All-get_or}
use rusty_n.Cpu.Cache.{Line, Writeback}
use rusty_n.Cpu.Cache.Dcache.{Dcache, Memory, index, line_at, set_line, hits, evict, miss_plan}
use rusty_n.Cpu.Cache.Dcache.{install, pull_line, push_evicted, fill_planned, dcache_fill}
use rusty_n.Cpu.Cache.Dcache.Bus.{
  IsByte, AllBytes, pull_line_lem, length-pull_line, pull_line-IsByte,
}
use rusty_n.Cpu.Cache.Dcache.Coherence.{
  IsLine, view, IsCoherent, set_line-IsValid, line_at-set_line, evicted_byte,
}

-- What a miss on index `i` writes back.
abbrev pub evicted : Dcache → ℕ → Option Writeback
evicted c i = if (line_at c i).valid && (line_at c i).dirty then some (evict c i) else none

abbrev pub base_of : ℕ → ℕ
base_of addr = bit_and addr (not32 15)

base_of_lem : (addr : ℕ) → base_of addr ≡ addr / 16 % 2 ^ 28 * 16
base_of_lem addr = bit_and_field 4 28 addr

fill_hit : (c : Dcache) (m : Memory) (addr : ℕ) → hits c addr ≡ true → dcache_fill c m addr ≡ (c, m)
unfolding dcache_fill miss_plan fill_planned
fill_hit c m addr h = rw h refl

fill_miss :
    (c : Dcache) (m : Memory) (addr : ℕ)
    → hits c addr ≡ false
    → dcache_fill c m addr ≡ (
        let m1 = push_evicted m (evicted c (index addr)) in
        (install c (base_of addr) (pull_line m1 (base_of addr) 4), m1))
unfolding dcache_fill miss_plan
fill_miss c m addr h =
    rw h (both ((line_at c (index addr)).valid && (line_at c (index addr)).dirty))
  where
    both :
        (b : Bool)
        → fill_planned c m addr (if b then some (some (evict c (index addr))) else some none) ≡ (
            let m1 = push_evicted m (if b then some (evict c (index addr)) else none) in
            (install c (base_of addr) (pull_line m1 (base_of addr) 4), m1))
    both true = unfold fill_planned in refl
    both false = unfold fill_planned in refl

-- After the write-back, memory holds what the processor saw at every address of the index, and
-- what it held at every other.
memory_after :
    (c : Dcache) (m : Memory) (i a : ℕ)
    → IsCoherent c m
    → i < 512
    → a < 2 ^ 32
    → push_evicted m (evicted c i) a ≡ (if index a == i then view c m a else m a)
unfolding push_evicted view hits
memory_after c m i a co hi ha = split (line_at c i).valid (line_at c i).dirty refl refl
  where
    here : index a ≡ i → line_at c (index a) ≡ line_at c i
    here e = ap (line_at c) e

    split :
        (v d : Bool)
        → (line_at c i).valid ≡ v
        → (line_at c i).dirty ≡ d
        → push_evicted m (if v && d then some (evict c i) else none) a
          ≡ (if index a == i then view c m a else m a)
    split true true ev ed = ground (arith, evicted_byte c m i a co.valid hi ev, here, ev)
    split true false ev ed = ground (arith, co.clean a ha, here, ev, ed)
    split false d ev ed = ground (arith, here, ev)

-- The line that a fill installs.
abbrev filled : Memory → ℕ → Line
filled m1 addr = record {
  tag = base_of addr / 2 ^ 12;
  valid = true;
  dirty = false;
  bytes = pull_line m1 (base_of addr) 4;
}

install_line :
    (c : Dcache) (m1 : Memory) (addr j : ℕ)
    → length c.lines ≡ 512
    → addr < 2 ^ 32
    → line_at (install c (base_of addr) (pull_line m1 (base_of addr) 4)) j
      ≡ (if index addr == j then filled m1 addr else line_at c j)
unfolding install
install_line c m1 addr j n h =
    ap (λ (i : ℕ). line_at (set_line c i (filled m1 addr)) j) same
    ∙ line_at-set_line c (index addr) j (filled m1 addr) n (omega arith)
  where
    same : index (base_of addr) ≡ index addr
    same = omega (arith, base_of_lem addr)

pulled :
    (m1 : Memory) (addr a : ℕ)
    → AllBytes m1
    → addr < 2 ^ 32
    → a / 16 ≡ addr / 16
    → get_or (pull_line m1 (base_of addr) 4) (a % 16) 0 ≡ m1 a
pulled m1 addr a mb h e =
    pull_line_lem m1 (base_of addr) 4 (a % 16) mb (omega (arith, base_of_lem addr)) (omega arith)
    ∙ ap m1 (omega (arith, base_of_lem addr))

-- Installing what memory holds shows what memory holds on that line's index.
view-install :
    (c : Dcache) (m1 : Memory) (addr a : ℕ)
    → length c.lines ≡ 512
    → AllBytes m1
    → addr < 2 ^ 32
    → view (install c (base_of addr) (pull_line m1 (base_of addr) 4)) m1 a
      ≡ (if index addr == index a then m1 a else view c m1 a)
unfolding view hits
view-install c m1 addr a n mb h =
    ground (arith, install_line c m1 addr (index a) n h, pulled m1 addr a mb h, base_of_lem addr)

pushed-AllBytes :
    (c : Dcache) (m : Memory) (i : ℕ)
    → IsCoherent c m
    → i < 512
    → AllBytes (push_evicted m (evicted c i))
pushed-AllBytes c m i co hi a = split (line_at c i).valid (line_at c i).dirty refl
  where
    split :
        (v d : Bool)
        → (line_at c i).valid ≡ v
        → push_evicted m (if v && d then some (evict c i) else none) a < 256
    split true true ev =
        unfold push_evicted in
        ground (
          arith,
          evicted_byte c m i a co.valid hi ev,
          co.bytes a,
          All-get_or IsByte (line_at c i).bytes (a % 16) 0 (omega arith) (co.valid.line i hi).bytes,
        )
    split true false ev = unfold push_evicted in co.bytes a
    split false d ev = unfold push_evicted in co.bytes a

view_mem : (c : Dcache) (m1 m : Memory) (a : ℕ) → m1 a ≡ m a → view c m1 a ≡ view c m a
unfolding view
view_mem c m1 m a e = ground arith

-- A fill changes nothing that the processor sees, at any address.
pub view-dcache_fill :
    (c : Dcache) (m : Memory) (addr a : ℕ)
    → IsCoherent c m
    → addr < 2 ^ 32
    → a < 2 ^ 32
    → view (dcache_fill c m addr).0 (dcache_fill c m addr).1 a ≡ view c m a
view-dcache_fill c m addr a co h ha = elim (Bool-cases (hits c addr)) [
  | inl hit ↦ ap (λ (s : Dcache × Memory). view s.0 s.1 a) (fill_hit c m addr hit)
  | inr miss ↦
      let m1 = push_evicted m (evicted c (index addr)) in
      ap (λ (s : Dcache × Memory). view s.0 s.1 a) (fill_miss c m addr miss)
      ∙ (view-install c m1 addr a co.valid.count (pushed-AllBytes c m (index addr) co (omega arith))
            h
          ∙ ground (arith, memory_after c m (index addr) a co (omega arith) ha, view_mem c m1 m a))
]

filled-IsLine : (m1 : Memory) (addr : ℕ) → addr < 2 ^ 32 → IsLine (index addr) (filled m1 addr)
filled-IsLine m1 addr h = record {
  size = length-pull_line m1 (base_of addr) 4;
  bytes = pull_line-IsByte m1 (base_of addr) 4;
  frame = omega (arith, base_of_lem addr);
  agrees = λ e. omega (arith, base_of_lem addr);
}

install-IsCoherent :
    (c : Dcache) (m : Memory) (addr : ℕ)
    → IsCoherent c m
    → addr < 2 ^ 32
    → let m1 = push_evicted m (evicted c (index addr)) in
      let c1 = install c (base_of addr) (pull_line m1 (base_of addr) 4) in
      IsCoherent c1 m1 × (hits c1 addr ≡ true)
unfolding hits install
install-IsCoherent c m addr co h =
    let m1 = push_evicted m (evicted c (index addr)) in
    let mb = pushed-AllBytes c m (index addr) co (omega arith) in
    (
      record {
        valid = set_line-IsValid c (index (base_of addr)) (filled m1 addr) co.valid (omega arith) (
            subst (λ (t : ℕ). IsLine t (filled m1 addr)) (omega (arith, base_of_lem addr))
              (filled-IsLine m1 addr h));
        clean = λ a ha hit d. ground (
          arith,
          install_line c m1 addr (index a) co.valid.count h,
          pulled m1 addr a mb h,
          base_of_lem addr,
          memory_after c m (index addr) a co (omega arith) ha,
          co.clean a ha,
          hit,
          d,
        );
        bytes = mb;
      },
      ground (arith, install_line c m1 addr (index addr) co.valid.count h, base_of_lem addr),
    )

-- A fill keeps the cache coherent with memory.
pub dcache_fill-IsCoherent :
    (c : Dcache) (m : Memory) (addr : ℕ)
    → IsCoherent c m
    → addr < 2 ^ 32
    → let (c', m') = dcache_fill c m addr in IsCoherent c' m' × (hits c' addr ≡ true)
dcache_fill-IsCoherent c m addr co h = elim (Bool-cases (hits c addr)) [
  | inl hit ↦ rw (fill_hit c m addr hit) (co, hit)
  | inr miss ↦ rw (fill_miss c m addr miss) (install-IsCoherent c m addr co h)
]
