-- ===== src/Money/Decimal/Digits.antt =====
-- Printing a number and reading its digits.
use go_core.Prelude.{
  ℕ, zero, suc, ◌+◌, ◌-◌, ◌*◌, ◌/◌, ◌%◌, ◌<◌, ◌≡◌, refl, ◌∙◌, ap, true, false, [], ◌∷◌, ◌++◌, ltb,
  any, arith, Bool-cases, inl, inr,
}
use go_core.Money.Decimal.{Bytes, not_digit, trim_signs, cut, is_empty, value, print_digits}

module _ (n : ℕ) where
  last_digit : not_digit (b'0' + n % 10) ≡ false
  last_digit = ground arith

-- Enough rounds print all digits: read back before the rest, they give the number.
pub value-print_digits :
    (rounds n : ℕ) (text : Bytes) → n < rounds → value 0 (print_digits rounds n text) ≡ value n text
unfolding print_digits value
value-print_digits zero n text lt = absurd (omega arith)
value-print_digits (suc rounds) n text lt =
    let back : n / 10 * 10 + n % 10 ≡ n = omega arith in
    let digit : b'0' + n % 10 - b'0' ≡ n % 10 = omega arith in
    elim (Bool-cases (ltb n 10)) [
      | inl small ↦ rw small (ap (λ x. value x text) (ground arith))
      | inr large ↦ rw large (
          value-print_digits rounds (n / 10) ((b'0' + n % 10) ∷ text) (ground arith)
          ∙ ap (λ x. value x text) (ap (λ x. n / 10 * 10 + x) digit ∙ back))
    ]

pub digits-print_digits :
    (rounds n : ℕ) (text : Bytes) → any not_digit (print_digits rounds n text) ≡ any not_digit text
unfolding print_digits
digits-print_digits zero n text = refl
digits-print_digits (suc rounds) n text = elim (Bool-cases (ltb n 10)) [
  | inl small ↦ rw (small, last_digit n) refl
  | inr large ↦
      rw large
        (digits-print_digits rounds (n / 10) ((b'0' + n % 10) ∷ text) ∙ rw (last_digit n) refl)
]

pub value-append : (n : ℕ) (xs ys : Bytes) → value n (xs ++ ys) ≡ value (value n xs) ys
unfolding value
value-append n [] ys = refl
value-append n (x ∷ xs) ys = value-append (n * 10 + (x - b'0')) xs ys

print_more : (rounds n c : ℕ) (cs : Bytes) → is_empty (print_digits rounds n (c ∷ cs)) ≡ false
unfolding print_digits
print_more zero n c cs = refl
print_more (suc rounds) n c cs = ground (arith, print_more rounds (n / 10) (b'0' + n % 10) (c ∷ cs))

pub is_empty-print_digits :
    (rounds n : ℕ) (text : Bytes) → is_empty (print_digits (suc rounds) n text) ≡ false
unfolding print_digits
is_empty-print_digits rounds n text =
    ground (arith, print_more rounds (n / 10) (b'0' + n % 10) text)

-- Digits are no signs, and hold no point.
pub trim_signs-digits :
    (xs ys : Bytes)
    → is_empty xs ≡ false
    → any not_digit xs ≡ false
    → trim_signs (xs ++ ys) ≡ xs ++ ys
unfolding trim_signs
trim_signs-digits [] ys nonempty digits = absurd (ground arith)
trim_signs-digits (x ∷ xs) ys nonempty digits = ground arith

pub cut-digits : (xs ys : Bytes) → any not_digit xs ≡ false → cut (xs ++ b'.' ∷ ys) ≡ (xs, ys, true)
unfolding cut
cut-digits [] ys digits = refl
cut-digits (x ∷ xs) ys digits = ground (arith, cut-digits xs ys)
