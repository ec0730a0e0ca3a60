-- ===== src/Money/Rational.antt =====
-- money/money.go: the big.Rat that amounts are rounded from, as a sign, a numerator and a denominator. A
-- big.Rat keeps lowest terms; here a fraction stays as it was computed, and Rational/Rounding shows that
-- rounding does not see the difference.
pub mod Rounding
use go_core.Prelude.{
  ℕ, suc, ◌+◌, ◌-◌, ◌*◌, ◌/◌, ◌%◌, ◌^◌, Bool, true, false, Option, none, some, leb, ltb, nat_beq,
  xor, if◌then◌else◌,
}
use go_core.Money.{Int64, negative, neg_int64}

pub record Rat : Type 0 where
  pub minus : Bool
  pub num : ℕ
  pub den : ℕ

-- A big.BigInt that is the result of rounding.
pub record BigInt : Type 0 where
  pub minus : Bool
  pub abs : ℕ

-- mustInt64: `none` where it panics.
unfoldable pub must_int64 : BigInt → Option Int64
must_int64 v =
    if v.minus
    then (if leb v.abs (2 ^ 63) then some (neg_int64 v.abs) else none)
    else (if ltb v.abs (2 ^ 63) then some v.abs else none)

-- pow10
abbrev pub pow10 : ℕ → ℕ
pow10 n = 10 ^ n

-- Rat.Mul with Rat.SetInt(scale).
abbrev pub scale_by : ℕ → Rat → Rat
scale_by scale val = record val { num = val.num * scale }

-- roundRat
unfoldable pub round_rat : Rat → BigInt
round_rat rat =
    let quo = rat.num / rat.den in
    let rem = rat.num % rat.den in
    record { minus = rat.minus; abs = if leb rat.den (rem * 2) then quo + 1 else quo }

-- roundScaled
unfoldable pub round_scaled : Rat → ℕ → Option Int64
unfolding round_rat must_int64
round_scaled val scale = must_int64 (round_rat (scale_by scale val))
