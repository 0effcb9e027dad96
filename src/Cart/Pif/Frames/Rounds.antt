-- ===== src/Cart/Pif/Frames/Rounds.antt =====
-- The loop over the frames ends: `execute` of crates/rustyn64-cart/src/pif.rs.
use rusty_n.Base.{ℕ, zero, suc, ◌+◌, ◌≤◌, ◌<◌, ◌≡◌, refl, ap, ◌∙◌, arith, ◌⊎◌, inl, inr}
use rusty_n.Base.{true, false, List}
use rusty_n.Base.{Bool-cases}
use rusty_n.Cart.Pif.{Pif, cmd_byte}
use rusty_n.Cart.Pif.Frames.{Walk, finished, step, rounds, start}
use rusty_n.Cart.Save.{SaveDevice}

step_stays : (cs : List ℕ) (w : Walk) → finished w ≡ true → step cs w ≡ w
unfolding step
step_stays cs w h = rw h refl

-- A round leaves the loop or moves on in the RAM.
step_moves :
    (cs : List ℕ) (w : Walk)
    → finished w ≡ false
    → (finished (step cs w) ≡ true) ⊎ (w.i < (step cs w).i)
unfolding step finished
step_moves cs w h = ground arith

rounds_stay : (n : ℕ) (cs : List ℕ) (w : Walk) → finished w ≡ true → rounds n cs w ≡ w
unfolding rounds
rounds_stay zero cs w h = refl
rounds_stay (suc n) cs w h = ap (rounds n cs) (step_stays cs w h) ∙ rounds_stay n cs w h

pub rounds_add :
    (m n : ℕ) (cs : List ℕ) (w : Walk) → rounds (m + n) cs w ≡ rounds n cs (rounds m cs w)
unfolding rounds
rounds_add zero n cs w = let e : 0 + n ≡ n = omega arith in ap (λ (t : ℕ). rounds t cs w) e
rounds_add (suc m) n cs w =
    let e : suc m + n ≡ suc (m + n) = omega arith in
    ap (λ (t : ℕ). rounds t cs w) e ∙ rounds_add m n cs (step cs w)

at_end : (w : Walk) → cmd_byte ≤ w.i → finished w ≡ true
unfolding finished
at_end w h = ground arith

rounds_enough :
    (n : ℕ) (cs : List ℕ) (w : Walk) → cmd_byte ≤ w.i + n → finished (rounds n cs w) ≡ true
unfolding rounds
rounds_enough zero cs w h = at_end w (omega arith)
rounds_enough (suc n) cs w h = elim (Bool-cases (finished w)) [
  | inl e ↦
      ap (λ (v : Walk). finished (rounds n cs v)) (step_stays cs w e)
      ∙ (ap finished (rounds_stay n cs w e) ∙ e)
  | inr e ↦ elim (step_moves cs w e) [
    | inl done ↦ ap finished (rounds_stay n cs (step cs w) done) ∙ done
    | inr more ↦ rounds_enough n cs (step cs w) (omega arith)
  ]
]

-- The loop over the frames ends within as many rounds as the RAM has bytes before its last, and more
-- rounds change nothing.
pub rounds_end :
    (p : Pif) (cs : List ℕ) (save : SaveDevice) (n : ℕ)
    → (finished (rounds cmd_byte cs (start p save)) ≡ true)
      × (rounds (cmd_byte + n) cs (start p save) ≡ rounds cmd_byte cs (start p save))
rounds_end p cs save n =
    let done = rounds_enough cmd_byte cs (start p save) (omega arith) in
    (
      done,
      rounds_add cmd_byte n cs (start p save)
          ∙ rounds_stay n cs (rounds cmd_byte cs (start p save)) done,
    )
