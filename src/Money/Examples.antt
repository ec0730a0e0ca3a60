-- ===== src/Money/Examples.antt =====
-- The theorems on amounts, applied to a few euros and to the lowest amount.
use go_core.Prelude.{
  suc, ◌*◌, ◌≤◌, ◌<◌, List, [], ◌∷◌, some, map, length, get_elem?, ◌+◌, ◌^◌, ◌≡◌, ◌⊎◌, refl, true,
  false, arith,
}
use go_core.Authz.Words.{codes}
use go_core.Money.Allocation.{parts, magnitude, weigh, signed_part, allocate}
use go_core.Money.Allocation.Total.{allocate-sum, allocate_fair}
use go_core.Money.Exact.{Rate}
use go_core.Money.Decimal.{read, from_decimal, to_string}
use go_core.Money.Decimal.RoundTrip.{from_decimal-to_string}
use go_core.Money.{Int64, sum, Money, amount, refused, overflow, combine, add, sub}
use go_core.Money.Overflow.{biased, sum_fits, difference_fits, add-exact, sub-lowest}

abbrev price : Money
price = record { cents = 3_272_650; currency = "EUR" }

abbrev discount : Money
discount = record { cents = 250_000; currency = "" }

abbrev lowest : Money
lowest = record { cents = 9_223_372_036_854_775_808; currency = "EUR" }

currencies_agree : combine price discount ≡ amount "EUR"
unfolding combine
currencies_agree = refl

lowest_agrees : combine price lowest ≡ amount "EUR"
unfolding combine
lowest_agrees = refl

add-exact_example :
    ((sum_fits price.cents discount.cents ≡ true)
      × ((r : Money) × (add price discount ≡ amount r)
          × (r.currency ≡ "EUR")
          × (biased r.cents + 2 ^ 63 ≡ biased price.cents + biased discount.cents)))
    ⊎ ((sum_fits price.cents discount.cents ≡ false) × (add price discount ≡ refused overflow))
add-exact_example = add-exact price discount (omega arith) (omega arith) currencies_agree

abbrev weights : List Int64
weights = 1 ∷ 1 ∷ 5 ∷ []

weights_add : 0 < weigh weights
unfolding weigh
weights_add = omega arith

-- A refund of 100.01, split in proportion 1 : 1 : 5.
abbrev refund : Money
refund = record { cents = 18_446_744_073_709_541_615; currency = "EUR" }

allocate-sum_example :
    (ps : List Money) × (allocate refund weights ≡ parts ps)
    × (length ps ≡ length weights)
    × (sum ps ≡ amount refund)
allocate-sum_example = allocate-sum refund weights (omega arith) (λ h. omega arith) refl weights_add

allocate_fair_example :
    (ps : List Money) × (part : Money) × (allocate refund weights ≡ parts ps)
    × (get_elem? ps 2 ≡ some part)
    × (part ≡ signed_part refund (magnitude part.cents))
    × (weigh weights * magnitude part.cents ≤ magnitude refund.cents * 5 + weigh weights)
    × (magnitude refund.cents * 5 < weigh weights * suc (magnitude part.cents))
allocate_fair_example =
    allocate_fair refund weights (omega arith) (λ h. omega arith) refl weights_add 2 5 refl

-- Ten cents in three parts: the leftover cent goes to the first.
ten_cents :
    allocate (record { cents = 10; currency = "EUR" }) (1 ∷ 1 ∷ 1 ∷ [])
    ≡ parts (map (λ c. record { cents = c; currency = "EUR" }) (4 ∷ 3 ∷ 3 ∷ []))
unfolding allocate
ten_cents = refl

from_decimal-to_string_example :
    from_decimal (to_string (record { cents = 3_272_650; currency = "" })) "EUR" ≡ read price
from_decimal-to_string_example = from_decimal-to_string 3_272_650 "EUR" (omega arith)

printed : to_string price ≡ codes "32726.50 EUR"
unfolding to_string
printed = refl

-- Half a cent is rounded away from zero.
half_a_cent :
    from_decimal (codes "-0.005") "EUR"
    ≡ read (record { cents = 18_446_744_073_709_551_615; currency = "EUR" })
unfolding from_decimal
half_a_cent = refl

-- A rate of 17 percent, and a price rounded down to a multiple of five.
abbrev vat : Rate
vat = record { v = 1_700_000 }

sub-lowest_example :
    (sub price lowest ≡ amount (record { cents = price.cents + 2 ^ 63; currency = "EUR" }))
    × (difference_fits price.cents lowest.cents ≡ false)
sub-lowest_example = sub-lowest price lowest (omega arith) refl lowest_agrees
