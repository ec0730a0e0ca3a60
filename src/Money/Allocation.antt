-- ===== src/Money/Allocation.antt =====
-- money/money.go: Allocate. A big.Int that is not negative is a number; what panics in the source is a
-- result of its own.
pub mod Shares
pub mod Largest
pub mod Total
use go_core.Prelude.{
  ℕ, zero, suc, ◌+◌, ◌-◌, ◌*◌, ◌/◌, ◌%◌, ◌^◌, Bool, true, false, List, [], ◌∷◌, Option, none, some,
  map, leb, ltb, nat_beq, if◌then◌else◌, any, length, take,
}
use go_core.Money.{Int64, negative, add_int64, neg_int64, Money}

-- nil, a panic, or the parts.
pub data Allocation : Type 0 where
  no_parts panics : Allocation
  parts : List Money → Allocation

-- new(big.Int).Abs(big.NewInt(v))
abbrev pub magnitude : Int64 → ℕ
magnitude v = if negative v then 2 ^ 64 - v else v

-- The sum of the weights, none of which is negative.
unfoldable pub weigh : List Int64 → ℕ
weigh [] = 0
weigh (w ∷ ws) = w + weigh ws

-- mustInt64, of a number that is not negative.
abbrev pub must_int64 : ℕ → Option Int64
must_int64 v = if ltb v (2 ^ 63) then some v else none

-- A share rounded down, and its remainder.
pub record Share : Type 0 where
  pub cents : Int64
  pub rem : ℕ

-- The loop over the weights: the shares, and what is left of `left`; `none` where mustInt64 panics.
unfoldable pub split : ℕ → ℕ → List Int64 → Int64 → Option (List Share × Int64)
split abs total [] left = some ([], left)
split abs total (w ∷ ws) left = elim (must_int64 (abs * w / total)) [
  | none ↦ none
  | some p ↦ elim (split abs total ws (add_int64 left (neg_int64 p))) [
    | none ↦ none
    | some (shares, rest) ↦ some (record { cents = p; rem = abs * w % total } ∷ shares, rest)
  ]
]

-- slices.SortStableFunc of the indices by their remainders, the largest first: an index is put before the
-- later ones whose remainders are not larger.
abbrev pub insert_index : ℕ × ℕ → List (ℕ × ℕ) → List (ℕ × ℕ)
insert_index (i, rem) [] = (i, rem) ∷ []
insert_index (i, rem) ((j, other) ∷ order) =
    let rest = insert_index (i, rem) order in
    if leb other rem then (i, rem) ∷ (j, other) ∷ order else (j, other) ∷ rest

unfoldable pub sort_from : ℕ → List Share → List (ℕ × ℕ)
sort_from i [] = []
sort_from i (share ∷ shares) = insert_index (i, share.rem) (sort_from (suc i) shares)

-- parts[i]++
unfoldable pub increment : ℕ → List Int64 → List Int64
increment i [] = []
increment zero (p ∷ ps) = add_int64 p 1 ∷ ps
increment (suc i) (p ∷ ps) = p ∷ increment i ps

unfoldable pub increment_each : List (ℕ × ℕ) → List Int64 → List Int64
unfolding increment
increment_each [] ps = ps
increment_each ((i, rem) ∷ order) ps = increment_each order (increment i ps)

-- The last loop: a part gets the amount's sign and currency.
abbrev pub signed_part : Money → Int64 → Money
signed_part m p = record {
  cents = if negative m.cents then neg_int64 p else p;
  currency = m.currency;
}

-- From the order of the indices on; a slice beyond the end panics.
abbrev pub distribute : Money → List Share → Int64 → Allocation
distribute m shares left =
    if ltb (length shares) left
    then panics
    else parts (
        map (signed_part m)
          (increment_each (take left (sort_from 0 shares)) (map (λ share. share.cents) shares)))

-- Allocate
unfoldable pub allocate : Money → List Int64 → Allocation
unfolding weigh split sort_from increment_each
allocate m weights =
    if any negative weights
    then no_parts
    else if nat_beq (weigh weights) 0
    then no_parts
    else elim (must_int64 (magnitude m.cents)) [
      | none ↦ panics
      | some left ↦ elim (split (magnitude m.cents) (weigh weights) weights left) [
        | none ↦ panics
        | some (shares, rest) ↦ distribute m shares rest
      ]
    ]
