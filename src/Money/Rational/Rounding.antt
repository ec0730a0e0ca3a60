-- ===== src/Money/Rational/Rounding.antt =====
-- Rounding half away from zero.
use native.Mathlib.Nat.{div-add-mod, mod-lt, mul-add, lt_of_mul-lt-mul_left}
use go_core.Prelude.{
  ℕ, ◌+◌, ◌*◌, ◌/◌, ◌%◌, ◌≤◌, ◌<◌, ◌≡◌, true, false, leb, arith, Bool-cases, inl, inr,
}
use go_core.Money.Rational.{Rat, round_rat}

-- The result is the integer nearest to the fraction, and of two the one away from zero: its distance above
-- the fraction is at most a half, and its distance below is less.
abbrev pub Nearest : ℕ → ℕ → ℕ → Type 0
Nearest num den r = (den * (2 * r) ≤ 2 * num + den) × (2 * num < den * (2 * r) + den)

doubled : (den r : ℕ) → den * (2 * r) ≡ 2 * (den * r)
doubled den r = grind arith

pub round_rat-Nearest : (rat : Rat) → 0 < rat.den → Nearest rat.num rat.den (round_rat rat).abs
unfolding round_rat
round_rat-Nearest rat positive =
    let quo = rat.num / rat.den in
    let split = div-add-mod rat.num rat.den in
    let below = mod-lt rat.num positive in
    elim (Bool-cases (leb rat.den (rat.num % rat.den * 2))) [
      | inl half ↦ rw half (
        omega (arith, doubled rat.den (quo + 1), mul-add rat.den quo 1, above half),
        omega (arith, doubled rat.den (quo + 1), mul-add rat.den quo 1, above half),
      )
      | inr less ↦
          rw less
            (omega (arith, doubled rat.den quo), omega (arith, doubled rat.den quo, beneath less))
    ]
  where
    above : leb rat.den (rat.num % rat.den * 2) ≡ true → rat.den ≤ rat.num % rat.den * 2
    above h = ground arith

    beneath : leb rat.den (rat.num % rat.den * 2) ≡ false → rat.num % rat.den * 2 < rat.den
    beneath h = ground arith

-- There is one nearest integer only.
pub Nearest-unique : (num den r s : ℕ) → Nearest num den r → Nearest num den s → r ≡ s
Nearest-unique num den r s (r_above, r_below) (s_above, s_below) =
    let one =
      lt_of_mul-lt-mul_left den {m = 2 * r} {n = 2 * s + 2}
        (omega (arith, mul-add den (2 * s) 2)) in
    let two =
      lt_of_mul-lt-mul_left den {m = 2 * s} {n = 2 * r + 2}
        (omega (arith, mul-add den (2 * r) 2)) in
    omega arith
