-- ===== src/Money/Decimal/RoundTrip.antt =====
-- Reading the text of an amount gives the amount back.

use go_core.Prelude.{
  ℕ, suc, ◌+◌, ◌-◌, ◌*◌, ◌/◌, ◌%◌, ◌^◌, ◌<◌, String, string_eq, ◌≡◌, refl, ◌∙◌, ap, Bool, true,
  false, [], ◌∷◌, ◌++◌, some, ltb, if◌then◌else◌, any, any-append, length, arith,
}
use go_core.Money.{Int64, negative}
use go_core.Money.Rational.{round_scaled, round_rat, must_int64}
use go_core.Money.Decimal.{
  Bytes, not_digit, trim_signs, is_empty, starts_minus, value, parse_decimal, read, from_decimal,
  print_digits, to_string,
}
use go_core.Money.Decimal.Digits.{
  value-print_digits, digits-print_digits, is_empty-print_digits, trim_signs-digits, cut-digits,
  value-append,
}

abbrev sign : Bool → Bytes
sign minus = if minus then b'-' ∷ [] else []

module _ (minus : Bool) (whole : Bytes) (a b : ℕ) (some_digit : is_empty whole ≡ false)
    (digits : any not_digit whole ≡ false) (last : any not_digit (a ∷ b ∷ []) ≡ false) where
  abbrev body : Bytes
  body = whole ++ b'.' ∷ a ∷ b ∷ []

  trimmed : trim_signs (sign minus ++ body) ≡ body
  unfolding trim_signs
  trimmed = strip minus
    where
      strip : (s : Bool) → trim_signs (sign s ++ body) ≡ body
      strip true = trim_signs-digits whole _ some_digit digits
      strip false = trim_signs-digits whole _ some_digit digits

  first_digit :
      (xs ys : Bytes)
      → is_empty xs ≡ false
      → any not_digit xs ≡ false
      → starts_minus (xs ++ ys) ≡ false
  first_digit [] ys nonempty all_digits = absurd (ground arith)
  first_digit (x ∷ xs) ys nonempty all_digits = ground arith

  signed : starts_minus (sign minus ++ body) ≡ minus
  signed = go minus
    where
      go : (s : Bool) → starts_minus (sign s ++ body) ≡ s
      go true = refl
      go false = first_digit whole _ some_digit digits

  one_sign : ltb (length body + 1) (length (sign minus ++ body)) ≡ false
  one_sign = go minus
    where
      go : (s : Bool) → ltb (length body + 1) (length (sign s ++ body)) ≡ false
      go true = ground arith
      go false = ground arith

  nonempty : (xs ys : Bytes) → is_empty xs ≡ false → is_empty (xs ++ ys) ≡ false
  nonempty [] ys h = absurd (ground arith)
  nonempty (x ∷ xs) ys h = refl

  all_digits : any not_digit (whole ++ a ∷ b ∷ []) ≡ false
  all_digits = ground (arith, any-append not_digit whole (a ∷ b ∷ []))

  parse_lem :
      parse_decimal (sign minus ++ body)
      ≡ some (record { minus = minus; num = value 0 (whole ++ a ∷ b ∷ []); den = 100 })
  unfolding parse_decimal
  parse_lem =
      rw
        (
          parse_decimal,
          trimmed,
          one_sign,
          nonempty whole (b'.' ∷ a ∷ b ∷ []) some_digit,
          cut-digits whole (a ∷ b ∷ []) digits,
          some_digit,
          all_digits,
          signed,
        )
        refl

whole_cents :
    (minus : Bool) (cents : Int64)
    → cents < 2 ^ 64
    → negative cents ≡ minus
    → round_scaled
        (record {
          minus = minus;
          num = if minus then (2 ^ 64 - cents) % 2 ^ 64 else cents;
          den = 100;
        })
        100
      ≡ some cents
unfolding round_scaled round_rat must_int64
whole_cents true cents small sign_bit = ground arith
whole_cents false cents small sign_bit = ground arith

two_digits : (v : ℕ) → v < 100 → any not_digit ((b'0' + v / 10) ∷ (b'0' + v % 10) ∷ []) ≡ false
two_digits v lt = ground arith

two_values : (n v : ℕ) → v < 100 → value n ((b'0' + v / 10) ∷ (b'0' + v % 10) ∷ []) ≡ n * 100 + v
unfolding value
two_values n v lt = omega arith

abbrev text_of : Bool → ℕ → Bytes
text_of minus abs =
    sign minus
    ++ (print_digits (suc (abs / 100)) (abs / 100) []
        ++ (b'.' ∷ (b'0' + abs % 100 / 10) ∷ (b'0' + abs % 100 % 10) ∷ []))

parse-text_of :
    (minus : Bool) (abs : ℕ)
    → parse_decimal (text_of minus abs) ≡ some (record { minus = minus; num = abs; den = 100 })
parse-text_of minus abs =
    let whole = print_digits (suc (abs / 100)) (abs / 100) [] in
    let some_digit = is_empty-print_digits (abs / 100) (abs / 100) [] in
    let digits = digits-print_digits (suc (abs / 100)) (abs / 100) [] in
    let last = two_digits (abs % 100) (omega arith) in
    let front : value 0 whole ≡ abs / 100 =
      value-print_digits (suc (abs / 100)) (abs / 100) [] (omega arith) ∙ unfold value in refl in
    let number : value 0 (whole ++ (b'0' + abs % 100 / 10) ∷ (b'0' + abs % 100 % 10) ∷ []) ≡ abs =
      value-append 0 whole _
      ∙ ap (λ n. value n ((b'0' + abs % 100 / 10) ∷ (b'0' + abs % 100 % 10) ∷ [])) front
      ∙ two_values (abs / 100) (abs % 100) (omega arith)
      ∙ omega arith in
    parse_lem minus whole (b'0' + abs % 100 / 10) (b'0' + abs % 100 % 10) some_digit digits last
    ∙ ap (λ n. some (record { minus = minus; num = n; den = 100 })) number

-- FromDecimal reads the text of every amount back exactly, in the currency that it is given: String, less
-- the currency that it adds at the end, is undone, for the lowest int64 too.
pub from_decimal-to_string :
    (cents : Int64) (currency : String)
    → cents < 2 ^ 64
    → from_decimal (to_string (record { cents = cents; currency = "" })) currency
      ≡ read (record { cents = cents; currency = currency })
unfolding from_decimal to_string
from_decimal-to_string cents currency small =
    let minus = negative cents in
    let abs = if minus then (2 ^ 64 - cents) % 2 ^ 64 else cents in
    rw (from_decimal, parse-text_of minus abs, whole_cents minus cents small refl) refl
