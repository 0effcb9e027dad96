-- ===== src/Rsp/Vu/Divide/Root.antt =====
-- The binary search of build_inverse_square_root in crates/rustyn64-rsp/src/vu.rs.
use rusty_n.Base.{ℕ, zero, suc, ◌+◌, ◌-◌, ◌*◌, ◌/◌, ◌^◌, ◌≤◌, ◌<◌, ◌≡◌, arith, sym, subst, inl, inr}
use rusty_n.Base.{Bool-cases, ltb, leb}
use rusty_n.Rsp.Vu.Divide.{scaled_square, search_root, root_fuel, radicand, inverse_square_root}
use native.Mathlib.Nat.{pow-suc, mul-le-mul}

scaled_square_mono : (a b c : ℕ) → b ≤ c → scaled_square a b ≤ scaled_square a c
unfolding scaled_square
scaled_square_mono a b c h = mul-le-mul (mul-le-mul (omega arith) (omega arith)) (omega arith)

-- The search ends at a number in its interval that passes the test, and all below it fail.
search_lem :
    (fuel a lo hi : ℕ)
    → lo ≤ hi
    → hi - lo < 2 ^ fuel
    → 2 ^ 44 ≤ scaled_square a hi
    → (lo ≤ search_root fuel a lo hi)
      × (search_root fuel a lo hi ≤ hi)
      × (2 ^ 44 ≤ scaled_square a (search_root fuel a lo hi))
      × ((c : ℕ) → lo ≤ c → c < search_root fuel a lo hi → scaled_square a c < 2 ^ 44)
unfolding search_root
search_lem zero a lo hi le gap top =
    let e : lo ≡ hi = omega arith in
    (
      omega arith,
      le,
      subst (λ (t : ℕ). 2 ^ 44 ≤ scaled_square a t) (sym e) top,
      λ c p q. absurd (omega arith),
    )
search_lem (suc fuel) a lo hi le gap top =
    let mid = (lo + hi) / 2 in
    elim (Bool-cases (ltb lo hi)) [
      | inr done ↦
          let e : lo ≡ hi = ground arith in
          rw done (
            omega arith,
            le,
            subst (λ (t : ℕ). 2 ^ 44 ≤ scaled_square a t) (sym e) top,
            λ c p q. absurd (omega arith),
          )
      | inl more ↦ elim (Bool-cases (leb (2 ^ 44) (scaled_square a mid))) [
        | inl yes_mid ↦
            let ih =
              search_lem fuel a lo mid (omega arith) (ground (arith, pow-suc 2 fuel))
                (ground arith) in
            rw (more, yes_mid) (ih.0, ground (arith, ih.1), ih.2, ih.3)
        | inr no_mid ↦
            let ih =
              search_lem fuel a (mid + 1) hi (ground arith) (ground (arith, pow-suc 2 fuel)) top in
            rw (more, no_mid)
              (
                ground (arith, ih.0),
                ih.1,
                ih.2,
                λ c p q. ground (arith, ih.3 c, scaled_square_mono a c mid),
              )
      ]
    ]

top_lem : (a : ℕ) → 256 ≤ a → 2 ^ 44 ≤ scaled_square a (2 ^ 19)
unfolding scaled_square
top_lem a h = omega arith

below_lem : (a : ℕ) → 256 ≤ a → 2 ^ 44 ≤ scaled_square a (2 ^ 18 - 1)
unfolding scaled_square
below_lem a h = omega arith

found_lem :
    (a b : ℕ)
    → 256 ≤ a
    → 2 ^ 17 ≤ b
    → 2 ^ 44 ≤ scaled_square a b
    → ((c : ℕ) → 2 ^ 17 ≤ c → c < b → scaled_square a c < 2 ^ 44)
    → (search_root root_fuel a (2 ^ 17) (2 ^ 19) ≡ b) × (b < 2 ^ 18)
found_lem a b h from reach least =
    let found =
      search_lem root_fuel a (2 ^ 17) (2 ^ 19) (omega arith) (omega arith) (top_lem a h) in
    (
      ground (arith, found.3 b, least (search_root root_fuel a (2 ^ 17) (2 ^ 19))),
      ground (arith, least (2 ^ 18 - 1), below_lem a h),
    )

-- An entry of the table is half of the least number `b` from 2 ^ 17 on with
-- `a * (b + 1) * (b + 1)` at least 2 ^ 44, where `a` belongs to the entry, without its leading
-- digit 2 ^ 16; the binary search finds that number within its bound of steps.
pub inverse_square_root_lem :
    (index b : ℕ)
    → index < 512
    → 2 ^ 17 ≤ b
    → 2 ^ 44 ≤ radicand index * (b + 1) * (b + 1)
    → ((c : ℕ) → 2 ^ 17 ≤ c → c < b → radicand index * (c + 1) * (c + 1) < 2 ^ 44)
    → inverse_square_root index + 2 ^ 16 ≡ b / 2
unfolding inverse_square_root scaled_square
inverse_square_root_lem index b h from reach least =
    let big : 256 ≤ radicand index = ground arith in
    let found = found_lem (radicand index) b big from reach least in
    rw found.0 (omega (arith, found.1))
