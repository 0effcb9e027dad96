-- ===== src/Cpu/Cache/Dcache/Refine.antt =====
-- Sequences of cached loads and stores give what a flat memory gives.
use rusty_n.Base.{ℕ, zero, suc, ◌+◌, ◌*◌, ◌%◌, ◌^◌, ◌≤◌, ◌<◌, ◌≡◌, refl, ap, ◌∙◌, arith, ap₂}
use rusty_n.Base.{List, [], ◌∷◌, All}
use rusty_n.Base.{}
use rusty_n.Cpu.Cache.Dcache.{Dcache, Memory, dcache_fill}
use rusty_n.Cpu.Cache.Dcache.{cached_read, cached_write}
use rusty_n.Cpu.Cache.Dcache.Coherence.{view, IsCoherent}
use rusty_n.Cpu.Cache.Dcache.Fill.{view-dcache_fill, dcache_fill-IsCoherent}
use rusty_n.Cpu.Cache.Dcache.Access.{flat_load, flat_store, read_hit, view-write, write-IsCoherent}

-- Two memories that agree below 2 ^ 32.
abbrev pub Agree : Memory → Memory → Type 0
Agree f g = (a : ℕ) → a < 2 ^ 32 → f a ≡ g a

flat_load-Agree :
    (n : ℕ) (f g : Memory) (a v : ℕ)
    → Agree f g
    → a + n ≤ 2 ^ 32
    → flat_load f a n v ≡ flat_load g a n v
unfolding flat_load
flat_load-Agree zero f g a v e h = refl
flat_load-Agree (suc n) f g a v e h =
    ap (λ (t : ℕ). flat_load f (a + 1) n (v * 256 + t)) (e a (omega arith))
    ∙ flat_load-Agree n f g (a + 1) (v * 256 + g a) e (omega arith)

flat_store-Agree :
    (f g : Memory) (a n v b : ℕ) → f b ≡ g b → flat_store f a n v b ≡ flat_store g a n v b
unfolding flat_store
flat_store-Agree f g a n v b e = ground arith

-- A load or a store of the processor, of up to eight bytes that do not cross a line.
pub data Op : Type 0 where
  load : ℕ → ℕ → Op
  store : ℕ → ℕ → ℕ → Op

abbrev pub IsAccess : Op → Type 0
IsAccess (load a n) = (a < 2 ^ 32) × (a % 16 + n ≤ 16) × (n ≤ 8)
IsAccess (store a n v) = (a < 2 ^ 32) × (a % 16 + n ≤ 16)

-- The values that the loads give through the cache.
pub run : Dcache → Memory → List Op → List ℕ
run c m [] = []
run c m (load a n ∷ ops) = let (s, v) = cached_read c m a n in v ∷ run s.0 s.1 ops
run c m (store a n v ∷ ops) = let s = cached_write c m a n v in run s.0 s.1 ops

-- The values that they give on a flat memory.
pub flat_run : Memory → List Op → List ℕ
flat_run f [] = []
flat_run f (load a n ∷ ops) = flat_load f a n 0 ∷ flat_run f ops
flat_run f (store a n v ∷ ops) = flat_run (flat_store f a n v) ops

-- A cached load gives the value that the processor's view of memory holds, and leaves the view and
-- the coherence as they are.
pub cached_read_lem :
    (c : Dcache) (m : Memory) (a n : ℕ)
    → IsCoherent c m
    → a < 2 ^ 32
    → a % 16 + n ≤ 16
    → n ≤ 8
    → let (s, v) = cached_read c m a n in
      (v ≡ flat_load (view c m) a n 0) × IsCoherent s.0 s.1 × Agree (view s.0 s.1) (view c m)
unfolding cached_read
cached_read_lem c m a n co h fits hn =
    let filled = dcache_fill-IsCoherent c m a co h in
    let s = dcache_fill c m a in
    let same = λ (b : ℕ) (hb : b < 2 ^ 32). view-dcache_fill c m a b co h hb in
    (
      read_hit s.0 s.1 a n filled.0 filled.1 fits hn
          ∙ flat_load-Agree n (view s.0 s.1) (view c m) a 0 same (omega arith),
      filled.0,
      same,
    )

-- A cached store changes the view as a store on a flat memory does, and keeps the coherence.
pub cached_write_lem :
    (c : Dcache) (m : Memory) (a n v : ℕ)
    → IsCoherent c m
    → a < 2 ^ 32
    → a % 16 + n ≤ 16
    → let s = cached_write c m a n v in
      IsCoherent s.0 s.1 × Agree (view s.0 s.1) (flat_store (view c m) a n v)
unfolding cached_write
cached_write_lem c m a n v co h fits =
    let filled = dcache_fill-IsCoherent c m a co h in
    let s = dcache_fill c m a in
    (
      write-IsCoherent s.0 s.1 a n v filled.0 filled.1 fits,
      λ b hb.
          view-write s.0 s.1 a n v b filled.0 filled.1 fits
          ∙ flat_store-Agree (view s.0 s.1) (view c m) a n v b (view-dcache_fill c m a b co h hb),
    )

-- On a coherent cache, any sequence of loads of at most 8 bytes and of stores, at 32-bit addresses
-- and each within a line, gives the loaded values that a flat memory gives which starts as the
-- processor's view.
pub run_refines :
    (ops : List Op) (c : Dcache) (m f : Memory)
    → IsCoherent c m
    → Agree (view c m) f
    → All IsAccess ops
    → run c m ops ≡ flat_run f ops
unfolding run flat_run
run_refines [] c m f co e h = refl
run_refines (load a n ∷ ops) c m f co e h =
    let r = cached_read_lem c m a n co h.0.0 h.0.1 h.0.2 in
    let s = (cached_read c m a n).0 in
    ap₂ ◌∷◌ (r.0 ∙ flat_load-Agree n (view c m) f a 0 e (omega (arith, h.0.0, h.0.1)))
      (run_refines ops s.0 s.1 f r.1 (λ b hb. r.2 b hb ∙ e b hb) h.1)
run_refines (store a n v ∷ ops) c m f co e h =
    let w = cached_write_lem c m a n v co h.0.0 h.0.1 in
    let s = cached_write c m a n v in
    run_refines ops s.0 s.1 (flat_store f a n v) w.0
      (λ b hb. w.1 b hb ∙ flat_store-Agree (view c m) f a n v b (e b hb)) h.1
