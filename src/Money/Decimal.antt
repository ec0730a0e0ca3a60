-- ===== src/Money/Decimal.antt =====
-- money/money.go: parseDecimal, FromDecimal and String, over the bytes of a text. A text that is not ASCII
-- has a byte that is no digit, as it has a rune that is none.
pub mod Digits
pub mod RoundTrip
use go_core.Prelude.{
  ℕ, zero, suc, ◌+◌, ◌-◌, ◌*◌, ◌/◌, ◌%◌, ◌^◌, String, string_eq, Bool, true, false, ◌&&◌, ◌||◌, not,
  List, [], ◌∷◌, ◌++◌, Option, none, some, leb, ltb, nat_beq, if◌then◌else◌, ◌==◌, any, length,
}
use go_core.Money.{Int64, negative, neg_int64, Money}
use go_core.Money.Rational.{Rat, pow10, round_scaled}
use go_core.Authz.Words.{codes}

abbrev pub Bytes : Type 0
Bytes = List ℕ

abbrev pub is_sign : ℕ → Bool
is_sign c = nat_beq c b'+' || nat_beq c b'-'

abbrev pub not_digit : ℕ → Bool
not_digit c = ltb c b'0' || ltb b'9' c

-- strings.TrimLeft(text, "+-")
unfoldable pub trim_signs : Bytes → Bytes
trim_signs [] = []
trim_signs (c ∷ cs) = let rest = trim_signs cs in if is_sign c then rest else c ∷ cs

-- strings.Cut(body, "."): what stands before and after the first point, and whether there is one
unfoldable pub cut : Bytes → Bytes × Bytes × Bool
cut [] = ([], [], false)
cut (c ∷ cs) =
    let (whole, frac, found) = cut cs in
    if nat_beq c b'.' then ([], cs, true) else (c ∷ whole, frac, found)

abbrev pub is_empty : Bytes → Bool
is_empty [] = true
is_empty (c ∷ cs) = false

abbrev pub starts_minus : Bytes → Bool
starts_minus [] = false
starts_minus (c ∷ cs) = nat_beq c b'-'

-- new(big.Int).SetString, of decimal digits
unfoldable pub value : ℕ → Bytes → ℕ
value n [] = n
value n (c ∷ cs) = value (n * 10 + (c - b'0')) cs

-- parseDecimal: `none` is ErrDecimal
unfoldable pub parse_decimal : Bytes → Option Rat
unfolding trim_signs cut value
parse_decimal text =
    let body = trim_signs text in
    if ltb (length body + 1) (length text) || is_empty body
    then none
    else (let (whole, frac, point) = cut body in
        if is_empty whole && is_empty frac
          || any not_digit (whole ++ frac)
          || point && is_empty frac
        then none
        else some (record {
          minus = starts_minus text;
          num = value 0 (whole ++ frac);
          den = pow10 (length frac);
        }))

-- An amount, ErrDecimal, or a panic.
pub data Read : Type 0 where
  read : Money → Read
  not_a_decimal overflows : Read

-- FromDecimal
unfoldable pub from_decimal : Bytes → String → Read
unfolding parse_decimal round_scaled
from_decimal text currency = elim (parse_decimal text) [
  | none ↦ not_a_decimal
  | some val ↦ elim (round_scaled val 100) [
    | none ↦ overflows
    | some cents ↦ read (record { cents = cents; currency = currency })
  ]
]

-- %d, of a uint64: the last digit first in the recursion; n has at most n + 1 digits.
unfoldable pub print_digits : ℕ → ℕ → Bytes → Bytes
print_digits zero n text = text
print_digits (suc rounds) n text =
    let longer = (b'0' + n % 10) ∷ text in
    let rest = print_digits rounds (n / 10) longer in if ltb n 10 then longer else rest

-- Money.String
unfoldable pub to_string : Money → Bytes
unfolding print_digits
to_string m =
    let abs = if negative m.cents then (2 ^ 64 - m.cents) % 2 ^ 64 else m.cents in
    (if negative m.cents then b'-' ∷ [] else [])
    ++ (print_digits (suc (abs / 100)) (abs / 100) []
        ++ (b'.' ∷ (b'0' + abs % 100 / 10) ∷ (b'0' + abs % 100 % 10) ∷ []
            ++ (if m.currency == "" then [] else b' ' ∷ codes m.currency)))
