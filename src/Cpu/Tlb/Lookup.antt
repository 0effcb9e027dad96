-- ===== src/Cpu/Tlb/Lookup.antt =====
-- Which entry answers: `Tlb::lookup` of crates/rustyn64-cpu/src/tlb.rs.
use rusty_n.Base.{suc, ◌<◌, ◌^◌, arith, ℕ, ◌+◌, ◌≡◌, refl, ap, ◌∙◌, sym, Bool-cases, inl, inr}
use rusty_n.Base.{Bool, true, false, none, some, List, [], ◌∷◌, if◌then◌else◌, get_or}
use rusty_n.Cpu.Tlb.Pages.{IsSized, answers, outcome, matches_lem, translate_lem}
use rusty_n.Cpu.Tlb.{
  Entry, no_entry, Tlb, Outcome, fault, refill, coincide, walk, matches, settle, lookup, translate,
}

-- The indices of the entries that match by the code's test, counting from `i`.
matching : List Entry → ℕ → ℕ → ℕ → List ℕ
matching [] vaddr asid i = []
matching (e ∷ es) vaddr asid i =
    let rest = matching es vaddr asid (i + 1) in if matches e vaddr asid then i ∷ rest else rest

-- What the walk makes of them, with the code's translation.
verdict : Tlb → ℕ → Bool → List ℕ → Tlb × Outcome
verdict t vaddr store [] = (t, fault refill)
verdict t vaddr store (i ∷ []) = (t, translate (get_or t.entries i no_entry) vaddr store)
verdict t vaddr store (i ∷ j ∷ js) = (record t { shutdown = true }, fault refill)

-- After a first match, any other coincides with it.
second :
    (t : Tlb) (es : List Entry) (vaddr asid i j : ℕ) (store : Bool)
    → settle t vaddr store (walk es vaddr asid i (some j))
      ≡ verdict t vaddr store (j ∷ matching es vaddr asid i)
unfolding walk settle matching verdict
second t [] vaddr asid i j store = refl
second t (e ∷ es) vaddr asid i j store = elim (Bool-cases (matches e vaddr asid)) [
  | inl same ↦
      ap
        (λ (b : Bool).
          settle t vaddr store (if b then coincide else walk es vaddr asid (i + 1) (some j)))
        same
      ∙ sym (
          ap
            (λ (b : Bool). verdict t vaddr store (
              j
              ∷ (if b then i ∷ matching es vaddr asid (i + 1) else matching es vaddr asid (i + 1))))
            same)
  | inr other ↦
      ap
        (λ (b : Bool).
          settle t vaddr store (if b then coincide else walk es vaddr asid (i + 1) (some j)))
        other
      ∙ (second t es vaddr asid (i + 1) j store
          ∙ sym (
              ap
                (λ (b : Bool). verdict t vaddr store (
                  j
                  ∷ (if b
                      then i ∷ matching es vaddr asid (i + 1)
                      else matching es vaddr asid (i + 1))))
                other))
]

first :
    (t : Tlb) (es : List Entry) (vaddr asid i : ℕ) (store : Bool)
    → settle t vaddr store (walk es vaddr asid i none)
      ≡ verdict t vaddr store (matching es vaddr asid i)
unfolding walk settle matching verdict
first t [] vaddr asid i store = refl
first t (e ∷ es) vaddr asid i store = elim (Bool-cases (matches e vaddr asid)) [
  | inl same ↦
      ap
        (λ (b : Bool).
          settle t vaddr store (walk es vaddr asid (i + 1) (if b then some i else none)))
        same
      ∙ (second t es vaddr asid (i + 1) i store
          ∙ sym (
              ap
                (λ (b : Bool). verdict t vaddr store (
                  if b then i ∷ matching es vaddr asid (i + 1) else matching es vaddr asid (i + 1)))
                same))
  | inr other ↦
      ap
        (λ (b : Bool).
          settle t vaddr store (walk es vaddr asid (i + 1) (if b then some i else none)))
        other
      ∙ (first t es vaddr asid (i + 1) store
          ∙ sym (
              ap
                (λ (b : Bool). verdict t vaddr store (
                  if b then i ∷ matching es vaddr asid (i + 1) else matching es vaddr asid (i + 1)))
                other))
]

-- The indices of the entries that answer, counting from `i`, where entry `n` has pages of
-- `2 ^ size n` bytes.
unfoldable pub answering : (ℕ → ℕ) → List Entry → ℕ → ℕ → ℕ → List ℕ
answering size [] vaddr asid i = []
answering size (e ∷ es) vaddr asid i =
    let rest = answering size es vaddr asid (i + 1) in
    if answers e (size i) vaddr asid then i ∷ rest else rest

-- What the entries that answer amount to: the access goes through a page of the one that does, none
-- is a refill, and two or more shut the buffer down.
unfoldable pub answer : (ℕ → ℕ) → Tlb → ℕ → Bool → List ℕ → Tlb × Outcome
answer size t vaddr store [] = (t, fault refill)
answer size t vaddr store (i ∷ []) = (t, outcome (get_or t.entries i no_entry) (size i) vaddr store)
answer size t vaddr store (i ∷ j ∷ js) = (record t { shutdown = true }, fault refill)

matching-answering :
    (size : ℕ → ℕ) (es : List Entry) (vaddr asid i : ℕ)
    → ((n : ℕ) → IsSized (get_or es n no_entry) (size (i + n)))
    → vaddr < 2 ^ 64
    → matching es vaddr asid i ≡ answering size es vaddr asid i
unfolding matching answering
matching-answering size [] vaddr asid i h lt = refl
matching-answering size (e ∷ es) vaddr asid i h lt =
    let here : i + 0 ≡ i = omega arith in
    let ih =
      matching-answering size es vaddr asid (i + 1)
        (λ n. let there : i + 1 + n ≡ i + suc n = omega arith in rw there (h (suc n))) lt in
    let first = matches_lem e (size i) vaddr asid (rw (← here) (h 0)) lt in rw (first, ih) refl

verdict-answer :
    (size : ℕ → ℕ) (t : Tlb) (vaddr : ℕ) (store : Bool) (found : List ℕ)
    → ((n : ℕ) → IsSized (get_or t.entries n no_entry) (size n))
    → vaddr < 2 ^ 64
    → verdict t vaddr store found ≡ answer size t vaddr store found
unfolding verdict answer
verdict-answer size t vaddr store [] h lt = refl
verdict-answer size t vaddr store (i ∷ []) h lt =
    ap (λ (o : Outcome). (t, o))
      (translate_lem (get_or t.entries i no_entry) (size i) vaddr store (h i) lt)
verdict-answer size t vaddr store (i ∷ j ∷ js) h lt = refl

-- In a buffer that has not shut down, whose entries have pages of a power of two bytes from 4 KiB
-- to 16 MiB, pairs at multiples of their size, and page numbers of 20 bits: an entry answers for a
-- 64-bit address in its region and in its pair of pages if it is global or of the address space,
-- valid or not. When no entry answers, the access faults with a refill; when two or more do, the
-- buffer shuts down as well; when one does, the access goes through the even or the odd page by
-- the address, and is invalid, a store to a page that is not writable, or a hit in the page's
-- frame at the address's place in the page.
pub lookup_lem :
    (size : ℕ → ℕ) (t : Tlb) (vaddr asid : ℕ) (store : Bool)
    → t.shutdown ≡ false
    → ((n : ℕ) → IsSized (get_or t.entries n no_entry) (size n))
    → vaddr < 2 ^ 64
    → lookup t vaddr asid store ≡ answer size t vaddr store (answering size t.entries vaddr asid 0)
unfolding lookup
lookup_lem size t vaddr asid store h sized lt =
    let walked = first t t.entries vaddr asid 0 store in
    let found =
      matching-answering size t.entries vaddr asid 0
        (λ n. let e : 0 + n ≡ n = omega arith in rw e (sized n)) lt in
    ap
      (λ (b : Bool).
        if b then (t, fault refill) else settle t vaddr store (walk t.entries vaddr asid 0 none))
      h
    ∙ (walked
        ∙ (ap (verdict t vaddr store) found
            ∙ verdict-answer size t vaddr store (answering size t.entries vaddr asid 0) sized lt))
