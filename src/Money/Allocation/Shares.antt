-- ===== src/Money/Allocation/Shares.antt =====
-- The shares that Allocate rounds down: what they leave of the amount.
use native.Mathlib.Nat.{div-add-mod, mod-lt, le_of_mul-le-mul_left, mul-add, mul_comm, mul-suc}
use go_core.Prelude.{
  ℕ, ◌+◌, ◌*◌, ◌/◌, ◌%◌, ◌^◌, ◌≤◌, ◌<◌, ◌≡◌, refl, sym, ◌∙◌, ap, true, List, [], ◌∷◌, some, ltb,
  length, arith,
}
use go_core.Money.{Int64, add_int64, neg_int64}
use go_core.Money.Allocation.{weigh, Share, split}

abbrev pub total_cents : List Share → ℕ
total_cents [] = 0
total_cents (s ∷ ss) = s.cents + total_cents ss

-- Every remainder is below the total weight, and every share times the total is its part of the amount
-- less the remainder.
abbrev pub Rounded : ℕ → ℕ → List Int64 → List Share → Type 0
Rounded abs total [] [] = Unit {0}
Rounded abs total [] (s ∷ ss) = ⊥
Rounded abs total (w ∷ ws) [] = ⊥
Rounded abs total (w ∷ ws) (s ∷ ss) =
    (s.rem < total) × (total * s.cents + s.rem ≡ abs * w) × Rounded abs total ws ss

-- One share: it is no more than what is left, which covers the later weights still.
module _ (abs total w left before : ℕ) (positive : 0 < total) (fits : left < 2 ^ 63)
    (covers : abs * w + before ≤ total * left) where
  abbrev share : ℕ
  share = abs * w / total

  share_rounds : total * share + abs * w % total ≡ abs * w
  share_rounds = div-add-mod (abs * w) total

  share_le : share ≤ left
  share_le =
      le_of_mul-le-mul_left {m = share} {n = left} {k = total} (omega (arith, share_rounds))
        positive

  abbrev leftover : Int64
  leftover = add_int64 left (neg_int64 share)

  leftover_sum : leftover + share ≡ left
  leftover_sum = apart share left share_le fits
    where
      apart : (p l : ℕ) → p ≤ l → l < 2 ^ 63 → add_int64 l (neg_int64 p) + p ≡ l
      apart p l le fits = omega arith

  leftover_covers : before ≤ total * leftover
  leftover_covers =
      let spread : total * left ≡ total * leftover + total * share =
        ap (λ x. total * x) (sym leftover_sum) ∙ mul-add total leftover share in
      omega (arith, spread, share_rounds)

pub split_lem :
    (abs total : ℕ) (ws : List Int64) (left : ℕ)
    → 0 < total
    → left < 2 ^ 63
    → abs * weigh ws ≤ total * left
    → (shares : List Share) × (rest : ℕ) × (split abs total ws left ≡ some (shares, rest))
      × Rounded abs total ws shares
      × (rest + total_cents shares ≡ left)
unfolding split weigh
split_lem abs total [] left positive fits covers = ([], left, refl, tt, omega arith)
split_lem abs total (w ∷ ws) left positive fits covers =
    let spread : abs * w + abs * weigh ws ≤ total * left =
      omega (arith, mul-add abs w (weigh ws)) in
    let le = share_le abs total w left (abs * weigh ws) positive fits spread in
    let rest_sum = leftover_sum abs total w left (abs * weigh ws) positive fits spread in
    let later = leftover_covers abs total w left (abs * weigh ws) positive fits spread in
    let (shares, rest, made, rounded, sum) =
      split_lem abs total ws (add_int64 left (neg_int64 (abs * w / total))) positive (omega arith)
        later in
    let small : ltb (abs * w / total) (2 ^ 63) ≡ true = ground arith in
    (
      record { cents = abs * w / total; rem = abs * w % total } ∷ shares,
      rest,
      rw (split, small, made) refl,
      (
        mod-lt (abs * w) positive,
        share_rounds abs total w left (abs * weigh ws) positive fits spread,
        rounded,
      ),
      omega arith,
    )

abbrev total_rems : List Share → ℕ
total_rems [] = 0
total_rems (s ∷ ss) = s.rem + total_rems ss

Rounded-sum :
    (abs total : ℕ) (ws : List Int64) (ss : List Share)
    → Rounded abs total ws ss
    → total * total_cents ss + total_rems ss ≡ abs * weigh ws
unfolding weigh
Rounded-sum abs total [] [] rounded = omega arith
Rounded-sum abs total [] (s ∷ ss) rounded = absurd rounded
Rounded-sum abs total (w ∷ ws) [] rounded = absurd rounded
Rounded-sum abs total (w ∷ ws) (s ∷ ss) (below, its, rounded) = omega (
  arith,
  Rounded-sum abs total ws ss rounded,
  mul-add total s.cents (total_cents ss),
  mul-add abs w (weigh ws),
)

rems_bound :
    (abs total : ℕ) (ws : List Int64) (ss : List Share)
    → Rounded abs total ws ss
    → total_rems ss + length ss ≤ total * length ss
rems_bound abs total [] [] rounded = omega arith
rems_bound abs total [] (s ∷ ss) rounded = absurd rounded
rems_bound abs total (w ∷ ws) [] rounded = absurd rounded
rems_bound abs total (w ∷ ws) (s ∷ ss) (below, its, rounded) =
    omega (arith, rems_bound abs total ws ss rounded, mul-suc total (length ss))

-- What is left over is less than a cent for each part.
pub rest_bound :
    (abs total : ℕ) (ws : List Int64) (ss : List Share) (rest : ℕ)
    → total ≡ weigh ws
    → 0 < total
    → Rounded abs total ws ss
    → rest + total_cents ss ≡ abs
    → rest ≤ length ss
rest_bound abs total ws ss rest weighed positive rounded sum =
    let spread : total * abs ≡ total * rest + total * total_cents ss =
      ap (λ x. total * x) (sym sum) ∙ mul-add total rest (total_cents ss) in
    let whole : abs * weigh ws ≡ total * abs =
      ap (λ x. abs * x) (sym weighed) ∙ mul_comm abs total in
    le_of_mul-le-mul_left {m = rest} {n = length ss} {k = total}
      (omega (arith, Rounded-sum abs total ws ss rounded, rems_bound abs total ws ss rounded))
      positive
