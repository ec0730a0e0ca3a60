-- ===== src/Money.antt =====
-- money/money.go: amounts in int64 cents, added and subtracted with their overflow check. An int64 is
-- its bit pattern, a number below 2^64 whose upper half is the negative values. The
-- children have the rest of the package.
pub mod Overflow
pub mod Allocation
pub mod Rational
pub mod Decimal
pub mod Exact
pub mod Rates
mod Examples
use go_core.Prelude.{
  ℕ, ◌+◌, ◌-◌, ◌*◌, ◌%◌, ◌^◌, String, string_eq, Bool, true, false, ◌&&◌, ◌||◌, not, List, [], ◌∷◌,
  leb, ltb, nat_beq, xor, if◌then◌else◌, ◌==◌,
}

abbrev pub Int64 : Type 0
Int64 = ℕ

-- v < 0: the sign bit.
abbrev pub negative : Int64 → Bool
negative v = leb (2 ^ 63) v

-- v + w and -v, which wrap around.
abbrev pub add_int64 : Int64 → Int64 → Int64
add_int64 v w = (v + w) % 2 ^ 64

abbrev pub neg_int64 : Int64 → Int64
neg_int64 v = (2 ^ 64 - v) % 2 ^ 64

pub record Money : Type 0 where
  pub cents : Int64
  pub currency : String

pub data MoneyError : Type 0 where
  currency_mismatch overflow not_decimal : MoneyError

pub data Checked (A : Type 0) : Type 0 where
  amount : A → Checked A
  refused : MoneyError → Checked A

abbrev pub zero_money : Money
zero_money = record { cents = 0; currency = "" }

-- combine
unfoldable pub combine : Money → Money → Checked String
combine a b =
    if a.currency == "" || a.currency == b.currency
    then amount b.currency
    else (if b.currency == "" then amount a.currency else refused currency_mismatch)

-- (m ^ sum) & (other ^ sum) < 0: the sign bit of the bitwise operations is theirs of the sign bits.
abbrev pub sum_overflows : Int64 → Int64 → Bool
sum_overflows v w =
    xor (negative v) (negative (add_int64 v w)) && xor (negative w) (negative (add_int64 v w))

-- Money.Add
unfoldable pub add : Money → Money → Checked Money
add m other = elim (combine m other) [
  | refused x ↦ refused x
  | amount cur ↦
      if sum_overflows m.cents other.cents
      then refused overflow
      else amount (record { cents = add_int64 m.cents other.cents; currency = cur })
]

-- Money.Neg
abbrev pub neg : Money → Money
neg m = record m { cents = neg_int64 m.cents }

-- Money.Abs
abbrev pub abs : Money → Money
abs m = if negative m.cents then neg m else m

-- Money.Sub
unfoldable pub sub : Money → Money → Checked Money
unfolding add
sub m other = add m (neg other)

-- The loop of Sum.
unfoldable pub sum_from : Money → List Money → Checked Money
sum_from total [] = amount total
sum_from total (one ∷ ms) = elim (add total one) [
  | refused x ↦ refused x
  | amount t ↦ sum_from t ms
]

-- Sum
abbrev pub sum : List Money → Checked Money
sum ms = sum_from zero_money ms
