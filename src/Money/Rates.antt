-- ===== src/Money/Rates.antt =====
-- money/money.go: the operations that round once, to the cent: MulRate, AddRate, RemoveRate, MulRatio and
-- DivInt through an exact fraction, and PercentOf. `none` is a panic.
pub mod Once
use go_core.Prelude.{ℕ, ℤ, pos_part, Bool, true, false, Option, none, some, nat_beq, if◌then◌else◌}
use go_core.Money.{Int64, Money, combine, amount, refused}
use go_core.Money.Rational.{round_scaled, pow10}
use go_core.Money.Exact
use go_core.Money.Exact.{Exact, Rate, from_money, rat_of, rat_mul, rat_quo, round}

abbrev pub round_some : Option Exact → Option Money
round_some none = none
round_some (some e) = round e

-- Money.MulRate, AddRate, RemoveRate, MulRatio and DivInt
unfoldable pub mul_rate : Money → Rate → Option Money
unfolding round
mul_rate m r = round (Exact.mul_rate (from_money m) r)

unfoldable pub add_rate : Money → Rate → Option Money
unfolding round Exact.add_rate
add_rate m r = round (Exact.add_rate (from_money m) r)

unfoldable pub remove_rate : Money → Rate → Option Money
unfolding round Exact.remove_rate
remove_rate m r = round_some (Exact.remove_rate (from_money m) r)

unfoldable pub mul_ratio : Money → Int64 → Int64 → Option Money
unfolding round Exact.mul_ratio
mul_ratio m num den = round_some (Exact.mul_ratio (from_money m) num den)

abbrev pub div_int : Money → Int64 → Option Money
div_int m n = mul_ratio m 1 n

-- PercentOf: `none` is a panic, and the flag is `ok`
unfoldable pub percent_of : Money → Money → ℤ → Option (Int64 × Bool)
unfolding combine round_scaled
percent_of part whole decimals =
    if nat_beq whole.cents 0 then some (0, false) else elim (combine part whole) [
      | refused x ↦ some (0, false)
      | amount _ ↦
          elim (round_scaled
            (rat_quo (rat_mul (rat_of part.cents) (rat_of 100)) (rat_of whole.cents))
            (pow10 (pos_part decimals))) [ none ↦ none | some v ↦ some (v, true) ]
    ]
