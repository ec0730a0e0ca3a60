-- ===== src/Money/Exact.antt =====
-- money/exact.go and money/rate.go: an amount as an exact fraction. `none` is a panic: a division by zero, a step that is not positive, or a result that is
-- no int64.
use go_core.Prelude.{
  ℕ, ◌+◌, ◌-◌, ◌*◌, ◌/◌, ◌%◌, ◌^◌, String, string_eq, true, false, ◌||◌, not, Option, none, some,
  leb, nat_beq, xor, if◌then◌else◌,
}
use go_core.Money.{Int64, negative, Money, Checked, amount, refused, combine, not_decimal}
use go_core.Money.Allocation.{magnitude}
use go_core.Money.Rational.{Rat, BigInt, round_rat, must_int64, round_scaled}
use go_core.Money.Decimal.{Bytes, parse_decimal}

-- big.NewRat(v, 1)
abbrev pub rat_of : Int64 → Rat
rat_of v = record { minus = negative v; num = magnitude v; den = 1 }

-- Rat.Mul, Rat.Add, Rat.Quo (by what is not 0) and Rat.Neg.
abbrev pub rat_mul : Rat → Rat → Rat
rat_mul a b = record { minus = xor a.minus b.minus; num = a.num * b.num; den = a.den * b.den }

unfoldable pub rat_add : Rat → Rat → Rat
rat_add a b =
    let x = a.num * b.den in
    let y = b.num * a.den in
    if not (xor a.minus b.minus)
    then record { minus = a.minus; num = x + y; den = a.den * b.den }
    else if leb y x
    then record { minus = a.minus; num = x - y; den = a.den * b.den }
    else record { minus = b.minus; num = y - x; den = a.den * b.den }

abbrev pub rat_quo : Rat → Rat → Rat
rat_quo a b = record { minus = xor a.minus b.minus; num = a.num * b.den; den = a.den * b.num }

abbrev pub rat_neg : Rat → Rat
rat_neg a = record a { minus = not a.minus }

-- rateScale
abbrev pub rate_scale : ℕ
rate_scale = 100_000

pub record Rate : Type 0 where
  pub v : Int64

-- Percent, whose product wraps around
abbrev pub percent : Int64 → Rate
percent whole = record { v = whole * rate_scale % 2 ^ 64 }

-- Rate.ratio
abbrev pub ratio : Rate → Rat
ratio r = record { minus = negative r.v; num = magnitude r.v; den = rate_scale * 100 }

-- What reading a rate gives: ErrDecimal, a panic, or the rate.
pub data RateRead : Type 0 where
  rate : Rate → RateRead
  no_rate rate_overflows : RateRead

-- RateFromDecimal
unfoldable pub rate_from_decimal : Bytes → RateRead
unfolding parse_decimal round_scaled
rate_from_decimal s = elim (parse_decimal s) [
  | none ↦ no_rate
  | some val ↦ elim (round_scaled val rate_scale) [
    | none ↦ rate_overflows
    | some v ↦ rate (record { v = v })
  ]
]

-- Exact: the zero value has no fraction.
pub record Exact : Type 0 where
  pub r : Option Rat
  pub currency : String

-- Exact.val and Exact.with
abbrev pub val : Exact → Rat
val e = elim e.r [ none ↦ record { minus = false; num = 0; den = 1 } | some r ↦ r ]

abbrev pub with_val : Exact → Rat → Exact
with_val e r = record e { r = some r }

-- FromMoney
abbrev pub from_money : Money → Exact
from_money m = record { r = some (rat_of m.cents); currency = m.currency }

abbrev pub one : Rat
one = record { minus = false; num = 1; den = 1 }

-- Exact.MulRate, AddRate, RemoveRate, MulRatio and MulDecimal
abbrev pub mul_rate : Exact → Rate → Exact
mul_rate e r = with_val e (rat_mul (val e) (ratio r))

unfoldable pub add_rate : Exact → Rate → Exact
unfolding rat_add
add_rate e r = with_val e (rat_mul (val e) (rat_add one (ratio r)))

unfoldable pub remove_rate : Exact → Rate → Option Exact
unfolding rat_add
remove_rate e r =
    let gross = rat_add one (ratio r) in
    if nat_beq gross.num 0 then none else some (with_val e (rat_quo (val e) gross))

unfoldable pub mul_ratio : Exact → Int64 → Int64 → Option Exact
mul_ratio e num den =
    if nat_beq den 0
    then none
    else some (with_val e (rat_mul (val e) (rat_quo (rat_of num) (rat_of den))))

unfoldable pub mul_decimal : Exact → Bytes → Checked Exact
unfolding parse_decimal
mul_decimal e s = elim (parse_decimal s) [
  | none ↦ refused not_decimal
  | some v ↦ amount (with_val e (rat_mul v (val e)))
]

-- Exact.Add
unfoldable pub add : Exact → Exact → Checked Exact
unfolding combine rat_add
add e other =
    elim (combine (record { cents = 0; currency = e.currency })
      (record { cents = 0; currency = other.currency })) [
        | refused x ↦ refused x
        | amount cur ↦ amount (record { r = some (rat_add (val e) (val other)); currency = cur })
      ]

-- floorRat: big.BigInt.Div rounds down, for a positive divisor.
unfoldable pub floor_rat : Rat → BigInt
floor_rat a =
    if a.minus
    then record { minus = true; abs = (a.num + (a.den - 1)) / a.den }
    else record { minus = false; abs = a.num / a.den }

pub data RoundMode : Type 0 where
  round_nearest round_up round_down : RoundMode

abbrev pub opposite : BigInt → BigInt
opposite v = record v { minus = not v.minus }

unfoldable pub round_by : RoundMode → Rat → BigInt
unfolding round_rat floor_rat
round_by round_up quo = opposite (floor_rat (rat_neg quo))
round_by round_down quo = floor_rat quo
round_by round_nearest quo = round_rat quo

abbrev pub in_cents : String → Option Int64 → Option Money
in_cents currency none = none
in_cents currency (some cents) = some (record { cents = cents; currency = currency })

-- Exact.RoundTo
unfoldable pub round_to : Int64 → RoundMode → Exact → Option Money
unfolding round_by must_int64
round_to step mode e =
    if negative step || nat_beq step 0
    then none
    else (let whole = round_by mode (rat_quo (val e) (rat_of step)) in
        in_cents e.currency (must_int64 (record whole { abs = whole.abs * magnitude step })))

-- Exact.Round
unfoldable pub round : Exact → Option Money
unfolding round_rat must_int64
round e = in_cents e.currency (must_int64 (round_rat (val e)))
