-- ===== src/Rsp/Sp/Semaphore.antt =====
-- The semaphore: who acquires it between two releases.
use rusty_n.Base.{ℕ, ◌+◌, ◌%◌, ◌≤◌, ◌≡◌, ◌≢◌, refl, arith}
use rusty_n.Base.{Bool, true, false, List, [], ◌∷◌, if◌then◌else◌, ◌==◌, bit_and_low}
use rusty_n.Rsp.Sp.{SpRegs, read, write, started, start_dma}

-- A register access by either processor.
pub data Access : Type 0 where
  load : ℕ → Access
  store : ℕ → ℕ → Access

-- The registers after a sequence of accesses, and how many semaphore reads returned 0.
pub acquisitions : SpRegs → List Access → ℕ
acquisitions s [] = 0
acquisitions s (load r ∷ xs) =
    let (s', v) = read s r in
    let rest = acquisitions s' xs in
    if r % 8 == 7 then (if v == 0 then rest + 1 else rest) else rest
acquisitions s (store r v ∷ xs) = acquisitions (write s r v).0 xs

-- The same number from the accesses alone: a read of a free semaphore counts and takes it, a
-- write to it, of any value, frees it, and no other access matters.
pub grants : Bool → List Access → ℕ
grants taken [] = 0
grants taken (load r ∷ xs) =
    if r % 8 == 7 then (if taken then grants true xs else grants true xs + 1) else grants taken xs
grants taken (store r v ∷ xs) = grants (if r % 8 == 7 then false else taken) xs

read_semaphore :
    (s : SpRegs) (r : ℕ)
    → ((read s r).0.semaphore ≡ (if r % 8 == 7 then true else s.semaphore))
      × (r % 8 ≡ 7 → (read s r).1 ≡ (if s.semaphore then 1 else 0))
unfolding read
read_semaphore s r = ground (arith, bit_and_low 3 r)

write_semaphore :
    (s : SpRegs) (r v : ℕ) → (write s r v).0.semaphore ≡ (if r % 8 == 7 then false else s.semaphore)
unfolding write started start_dma
write_semaphore s r v = ground (arith, bit_and_low 3 r)

-- Over any sequence of accesses to the registers, the reads that acquire the semaphore are those
-- that find it free since the last release.
pub acquisitions_lem : (s : SpRegs) (xs : List Access) → acquisitions s xs ≡ grants s.semaphore xs
unfolding acquisitions grants
acquisitions_lem s [] = refl
acquisitions_lem s (load r ∷ xs) =
    ground (arith, read_semaphore s r, acquisitions_lem (read s r).0 xs)
acquisitions_lem s (store r v ∷ xs) =
    ground (arith, write_semaphore s r v, acquisitions_lem (write s r v).0 xs)

-- An access that does not release the semaphore.
abbrev pub Holds : Access → Type 0
Holds (load r) = Unit
Holds (store r v) = r % 8 ≢ 7

abbrev pub AllHold : List Access → Type 0
AllHold [] = Unit
AllHold (x ∷ xs) = Holds x × AllHold xs

grants_once :
    (taken : Bool) (xs : List Access) → AllHold xs → grants taken xs ≤ (if taken then 0 else 1)
unfolding grants
grants_once taken [] h = ground arith
grants_once taken (load r ∷ xs) h =
    ground (arith, grants_once taken xs h.1, grants_once true xs h.1)
grants_once taken (store r v ∷ xs) h = ground (arith, grants_once taken xs h.1)

-- Mutual exclusion: among accesses that do not release the semaphore at most one read acquires
-- it, and none does while it is taken.
pub acquisitions_once :
    (s : SpRegs) (xs : List Access)
    → AllHold xs
    → acquisitions s xs ≤ (if s.semaphore then 0 else 1)
acquisitions_once s xs h = omega (arith, acquisitions_lem s xs, grants_once s.semaphore xs h)
