-- ===== src/Base/Lists.antt =====
-- Fixed arrays as lists with native indices, and the block operations that the drivers use.
use Prim.Native.Nat.{ℕ, zero, suc, ◌+◌, ◌≤◌, ◌<◌}
use mathlib.Core.Path.{◌≡◌, refl, ap, sym, ◌∙◌}
use mathlib.Core.Logic.{◌≢◌, ◌⊎◌}
use mathlib.Core.List.{List, [], ◌∷◌}
use mathlib.Core.Option.{Option, none, some}
use native.Mathlib.Omega.{arith}

module _ {ℓ} {A : Type ℓ} where
  abbrev pub length : List A → ℕ
  length [] = 0
  length (x ∷ xs) = suc (length xs)

  abbrev pub get_elem? : List A → ℕ → Option A
  get_elem? [] i = none
  get_elem? (x ∷ xs) zero = some x
  get_elem? (x ∷ xs) (suc i) = get_elem? xs i

  -- `xs.get(i).copied().unwrap_or(d)`
  abbrev pub get_or : List A → ℕ → A → A
  get_or [] i d = d
  get_or (x ∷ xs) zero d = x
  get_or (x ∷ xs) (suc i) d = get_or xs i d

  -- `if let Some(b) = xs.get_mut(i) { *b = v }`: a write out of range changes nothing.
  abbrev pub set : List A → ℕ → A → List A
  set [] i v = []
  set (x ∷ xs) zero v = v ∷ xs
  set (x ∷ xs) (suc i) v = x ∷ set xs i v

  -- Sealed, so that an array of many elements is not written out by a check.
  unfoldable pub replicate : ℕ → A → List A
  replicate zero a = []
  replicate (suc n) a = a ∷ replicate n a

  -- The elements of `ys` stored one after the other from index `base` on.
  unfoldable pub write_block : List A → ℕ → List A → List A
  write_block xs base [] = xs
  write_block xs base (y ∷ ys) = write_block (set xs base y) (base + 1) ys

  -- `n` elements read from index `base` on, `d` where the index is out of range.
  unfoldable pub read_block : List A → ℕ → ℕ → A → List A
  read_block xs base zero d = []
  read_block xs base (suc n) d = get_or xs base d ∷ read_block xs (base + 1) n d

  -- Each element rewritten from its index, the first index being `k`.
  unfoldable pub map_from : (ℕ → A → A) → ℕ → List A → List A
  map_from f k [] = []
  map_from f k (x ∷ xs) = f k x ∷ map_from f (k + 1) xs

module _ {ℓ} {A : Type ℓ} where
  pub length-set : (xs : List A) (i : ℕ) (v : A) → length (set xs i v) ≡ length xs
  length-set [] i v = refl
  length-set (x ∷ xs) zero v = refl
  length-set (x ∷ xs) (suc i) v = ap suc (length-set xs i v)

  pub get_or-set_self :
      (xs : List A) (i : ℕ) (v d : A) → i < length xs → get_or (set xs i v) i d ≡ v
  get_or-set_self [] i v d h = absurd (omega arith)
  get_or-set_self (x ∷ xs) zero v d h = refl
  get_or-set_self (x ∷ xs) (suc i) v d h = get_or-set_self xs i v d (omega arith)

  pub get_or-set_ne :
      (xs : List A) (i j : ℕ) (v d : A) → i ≢ j → get_or (set xs i v) j d ≡ get_or xs j d
  get_or-set_ne [] i j v d h = refl
  get_or-set_ne (x ∷ xs) zero zero v d h = absurd (h refl)
  get_or-set_ne (x ∷ xs) zero (suc j) v d h = refl
  get_or-set_ne (x ∷ xs) (suc i) zero v d h = refl
  get_or-set_ne (x ∷ xs) (suc i) (suc j) v d h = get_or-set_ne xs i j v d (λ e. h (ap suc e))

  pub get_or_default :
      (xs : List A) (i : ℕ) (d e : A) → i < length xs → get_or xs i d ≡ get_or xs i e
  get_or_default [] i d e h = absurd (omega arith)
  get_or_default (x ∷ xs) zero d e h = refl
  get_or_default (x ∷ xs) (suc i) d e h = get_or_default xs i d e (omega arith)

  pub set_beyond : (xs : List A) (i : ℕ) (v : A) → length xs ≤ i → set xs i v ≡ xs
  set_beyond [] i v h = refl
  set_beyond (x ∷ xs) zero v h = absurd (omega arith)
  set_beyond (x ∷ xs) (suc i) v h = ap (λ (ys : List A). x ∷ ys) (set_beyond xs i v (omega arith))

  pub length-replicate : (n : ℕ) (a : A) → length (replicate n a) ≡ n
  unfolding replicate
  length-replicate zero a = refl
  length-replicate (suc n) a = ap suc (length-replicate n a)

  pub get_or-replicate : (n i : ℕ) (a : A) → get_or (replicate n a) i a ≡ a
  unfolding replicate
  get_or-replicate zero i a = refl
  get_or-replicate (suc n) zero a = refl
  get_or-replicate (suc n) (suc i) a = get_or-replicate n i a

  pub length-write_block : (ys xs : List A) (base : ℕ) → length (write_block xs base ys) ≡ length xs
  unfolding write_block
  length-write_block [] xs base = refl
  length-write_block (y ∷ ys) xs base =
      length-write_block ys (set xs base y) (base + 1) ∙ length-set xs base y

  -- A block write leaves what lies before and behind the block alone.
  pub write_block_outside :
      (ys xs : List A) (base i : ℕ) (d : A)
      → (i < base) ⊎ (base + length ys ≤ i)
      → get_or (write_block xs base ys) i d ≡ get_or xs i d
  unfolding write_block
  write_block_outside [] xs base i d h = refl
  write_block_outside (y ∷ ys) xs base i d h =
      write_block_outside ys (set xs base y) (base + 1) i d (omega arith)
      ∙ get_or-set_ne xs base i y d (omega arith)

  pub write_block_inside :
      (ys xs : List A) (base k : ℕ) (d : A)
      → k < length ys
      → base + k < length xs
      → get_or (write_block xs base ys) (base + k) d ≡ get_or ys k d
  unfolding write_block
  write_block_inside [] xs base k d h r = absurd (omega arith)
  write_block_inside (y ∷ ys) xs base zero d h r =
      write_block_outside ys (set xs base y) (base + 1) (base + 0) d (omega arith)
      ∙ (ap (λ (j : ℕ). get_or (set xs base y) j d) (omega arith)
          ∙ get_or-set_self xs base y d (omega arith))
  write_block_inside (y ∷ ys) xs base (suc k) d h r =
      ap (λ (j : ℕ). get_or (write_block (set xs base y) (base + 1) ys) j d) (omega arith)
      ∙ write_block_inside ys (set xs base y) (base + 1) k d (omega arith)
          (omega (arith, length-set xs base y))

  pub length-read_block :
      (n : ℕ) (xs : List A) (base : ℕ) (d : A) → length (read_block xs base n d) ≡ n
  unfolding read_block
  length-read_block zero xs base d = refl
  length-read_block (suc n) xs base d = ap suc (length-read_block n xs (base + 1) d)

  pub get_or-read_block :
      (n : ℕ) (xs : List A) (base k : ℕ) (d : A)
      → k < n
      → get_or (read_block xs base n d) k d ≡ get_or xs (base + k) d
  unfolding read_block
  get_or-read_block zero xs base k d h = absurd (omega arith)
  get_or-read_block (suc n) xs base zero d h = ap (λ (j : ℕ). get_or xs j d) (omega arith)
  get_or-read_block (suc n) xs base (suc k) d h =
      get_or-read_block n xs (base + 1) k d (omega arith)
      ∙ ap (λ (j : ℕ). get_or xs j d) (omega arith)

  -- Lists of one length that agree at every index are equal.
  pub get_or_ext :
      (xs ys : List A) (d : A)
      → length xs ≡ length ys
      → ((i : ℕ) → i < length xs → get_or xs i d ≡ get_or ys i d)
      → xs ≡ ys
  get_or_ext [] [] d e h = refl
  get_or_ext [] (y ∷ ys) d e h = absurd (omega arith)
  get_or_ext (x ∷ xs) [] d e h = absurd (omega arith)
  get_or_ext (x ∷ xs) (y ∷ ys) d e h =
      ap (λ (z : A). z ∷ xs) (h 0 (omega arith))
      ∙ ap (λ (zs : List A). y ∷ zs)
          (get_or_ext xs ys d (omega arith) (λ i lt. h (suc i) (omega arith)))

  -- Reading back the block that was just written gives the block.
  pub read_block-write_block :
      (ys xs : List A) (base : ℕ) (d : A)
      → base + length ys ≤ length xs
      → read_block (write_block xs base ys) base (length ys) d ≡ ys
  read_block-write_block ys xs base d fits =
      get_or_ext _ ys d (length-read_block (length ys) _ base d) λ i lt.
        let lt' : i < length ys =
          omega (arith, length-read_block (length ys) (write_block xs base ys) base d) in
        get_or-read_block (length ys) (write_block xs base ys) base i d lt'
        ∙ write_block_inside ys xs base i d lt' (omega arith)

  -- A block of the whole list is the list.
  pub read_block_whole : (xs : List A) (n : ℕ) (d : A) → length xs ≡ n → read_block xs 0 n d ≡ xs
  read_block_whole xs n d e = get_or_ext _ xs d (length-read_block n xs 0 d ∙ sym e) λ i lt.
      get_or-read_block n xs 0 i d (omega (arith, length-read_block n xs 0 d))
      ∙ ap (λ (j : ℕ). get_or xs j d) (omega arith)

  pub length-map_from : (f : ℕ → A → A) (k : ℕ) (xs : List A) → length (map_from f k xs) ≡ length xs
  unfolding map_from
  length-map_from f k [] = refl
  length-map_from f k (x ∷ xs) = ap suc (length-map_from f (k + 1) xs)

  pub get_or-map_from :
      (f : ℕ → A → A) (k : ℕ) (xs : List A) (i : ℕ) (d : A)
      → i < length xs
      → get_or (map_from f k xs) i d ≡ f (k + i) (get_or xs i d)
  unfolding map_from
  get_or-map_from f k [] i d h = absurd (omega arith)
  get_or-map_from f k (x ∷ xs) zero d h = ap (λ (j : ℕ). f j x) (omega arith)
  get_or-map_from f k (x ∷ xs) (suc i) d h =
      get_or-map_from f (k + 1) xs i d (omega arith)
      ∙ ap (λ (j : ℕ). f j (get_or xs i d)) (omega arith)

  pub get_or-map_zero :
      (f : ℕ → A → A) (xs : List A) (i : ℕ) (d : A)
      → i < length xs
      → get_or (map_from f 0 xs) i d ≡ f i (get_or xs i d)
  get_or-map_zero f xs i d h =
      get_or-map_from f 0 xs i d h ∙ ap (λ (j : ℕ). f j (get_or xs i d)) (omega arith)

  -- Every element satisfies `P`.
  abbrev pub All : (A → Type 0) → List A → Type 0
  All P [] = Unit
  All P (x ∷ xs) = P x × All P xs

  pub All-get_or :
      (P : A → Type 0) (xs : List A) (i : ℕ) (d : A) → P d → All P xs → P (get_or xs i d)
  All-get_or P [] i d hd h = hd
  All-get_or P (x ∷ xs) zero d hd h = h.0
  All-get_or P (x ∷ xs) (suc i) d hd h = All-get_or P xs i d hd h.1

  pub All-set : (P : A → Type 0) (xs : List A) (i : ℕ) (v : A) → P v → All P xs → All P (set xs i v)
  All-set P [] i v hv h = tt
  All-set P (x ∷ xs) zero v hv h = (hv, h.1)
  All-set P (x ∷ xs) (suc i) v hv h = (h.0, All-set P xs i v hv h.1)

  pub All-write_block :
      (P : A → Type 0) (ys xs : List A) (base : ℕ)
      → All P ys
      → All P xs
      → All P (write_block xs base ys)
  unfolding write_block
  All-write_block P [] xs base hy hx = hx
  All-write_block P (y ∷ ys) xs base hy hx =
      All-write_block P ys (set xs base y) (base + 1) hy.1 (All-set P xs base y hy.0 hx)

  pub All-replicate : (P : A → Type 0) (n : ℕ) (a : A) → P a → All P (replicate n a)
  unfolding replicate
  All-replicate P zero a h = tt
  All-replicate P (suc n) a h = (h, All-replicate P n a h)

  pub All-map_from :
      (P : A → Type 0) (f : ℕ → A → A) (k : ℕ) (xs : List A)
      → ((i : ℕ) (x : A) → P x → P (f i x))
      → All P xs
      → All P (map_from f k xs)
  unfolding map_from
  All-map_from P f k [] step h = tt
  All-map_from P f k (x ∷ xs) step h = (step k x h.0, All-map_from P f (k + 1) xs step h.1)
