-- ===== src/Money/Allocation/Total.antt =====
-- The parts of an amount, added up again.
use mathlib.Core.Path.{subst}
use native.Mathlib.Nat.{mul_comm, mul-add, mul-suc}
use go_core.Prelude.{
  ℕ, zero, suc, ◌+◌, ◌*◌, ◌^◌, ◌≤◌, ◌<◌, ◌≢◌, String, string_eq, nat_eq, ◌≡◌, refl, sym, ◌∙◌, ap,
  Bool, true, false, List, [], ◌∷◌, some, map, ltb, nat_beq, any, if◌then◌else◌, ==_refl, length,
  take, get_elem?, arith,
}
use go_core.Money.{
  Int64, negative, neg_int64, Money, amount, combine, add, sum_from, sum, zero_money,
}
use go_core.Money.Allocation.{
  parts, magnitude, weigh, Share, sort_from, increment_each, signed_part, allocate,
}
use go_core.Money.Allocation.Shares.{total_cents, Rounded, split_lem, rest_bound}
use go_core.Money.Allocation.Largest.{
  sum_of, hits, hits-sort_from, length-sort_from, sort_from-AllBelow, take-AllBelow, hits-take,
  length-take, length-increment_each, sum_of-increment_each, get_elem?-increment_each,
}

-- An amount that is the given number of cents, with the sign.
abbrev signed : Bool → ℕ → String → Money
signed minus p cur = record { cents = if minus then neg_int64 p else p; currency = cur }

add-signed :
    (minus : Bool) (a p : ℕ) (cur : String)
    → a + p < 2 ^ 63
    → add (signed minus a cur) (signed minus p cur) ≡ amount (signed minus (a + p) cur)
unfolding add combine
add-signed minus a p cur fits = ground (arith, ==_refl cur)

add_first :
    (minus : Bool) (p : ℕ) (cur : String)
    → p < 2 ^ 63
    → add zero_money (signed minus p cur) ≡ amount (signed minus p cur)
unfolding add combine
add_first minus p cur fits = ground arith

sum_signed :
    (minus : Bool) (a : ℕ) (ps : List ℕ) (cur : String)
    → a + sum_of ps < 2 ^ 63
    → sum_from (signed minus a cur) (map (λ p. signed minus p cur) ps)
      ≡ amount (signed minus (a + sum_of ps) cur)
unfolding sum_from
sum_signed minus a [] cur fits = ap (λ x. amount (signed minus x cur)) (omega arith)
sum_signed minus a (p ∷ ps) cur fits =
    rw (sum_from, add-signed minus a p cur (omega arith))
      (sum_signed minus (a + p) ps cur (omega arith)
        ∙ ap (λ x. amount (signed minus x cur)) (omega arith))

sum_parts :
    (minus : Bool) (p : ℕ) (ps : List ℕ) (cur : String)
    → p + sum_of ps < 2 ^ 63
    → sum (map (λ p. signed minus p cur) (p ∷ ps)) ≡ amount (signed minus (p + sum_of ps) cur)
unfolding sum_from
sum_parts minus p ps cur fits =
    rw (sum_from, add_first minus p cur (omega arith)) (sum_signed minus p ps cur fits)

abbrev cents_of : List Share → List Int64
cents_of shares = map (λ share. share.cents) shares

sum_of-cents_of : (shares : List Share) → sum_of (cents_of shares) ≡ total_cents shares
sum_of-cents_of [] = refl
sum_of-cents_of (s ∷ ss) = omega (arith, sum_of-cents_of ss)

length-cents_of : (shares : List Share) → length (cents_of shares) ≡ length shares
length-cents_of [] = refl
length-cents_of (s ∷ ss) = ap suc (length-cents_of ss)

Rounded-length :
    (abs total : ℕ) (ws : List Int64) (ss : List Share)
    → Rounded abs total ws ss
    → length ss ≡ length ws
Rounded-length abs total [] [] rounded = refl
Rounded-length abs total [] (s ∷ ss) rounded = absurd rounded
Rounded-length abs total (w ∷ ws) [] rounded = absurd rounded
Rounded-length abs total (w ∷ ws) (s ∷ ss) (below, its, rounded) =
    ap suc (Rounded-length abs total ws ss rounded)

module _ (m : Money) (weights : List Int64) (small : m.cents < 2 ^ 64)
    (not_lowest : m.cents ≢ 2 ^ 63) (signs : any negative weights ≡ false)
    (weighs : 0 < weigh weights) where
  abbrev abs : ℕ
  abs = magnitude m.cents

  abs_fits : abs < 2 ^ 63
  abs_fits = ground arith

  abbrev handed_out : List Share → Int64 → List Int64
  handed_out shares rest = increment_each (take rest (sort_from 0 shares)) (cents_of shares)

  -- What Allocate computes before the signs are put back.
  allocated :
      (shares : List Share) × (rest : ℕ) × (allocate m weights
        ≡ parts (map (signed_part m) (handed_out shares rest)))
      × Rounded abs (weigh weights) weights shares
      × (rest + total_cents shares ≡ abs)
      × (rest ≤ length shares)
  unfolding allocate
  allocated =
      let (shares, rest, made, rounded, sum) =
        split_lem abs (weigh weights) weights abs weighs abs_fits
          (omega (arith, mul_comm abs (weigh weights))) in
      let few = rest_bound abs (weigh weights) weights shares rest refl weighs rounded sum in
      let some_weight : nat_beq (weigh weights) 0 ≡ false = ground arith in
      let fits : ltb abs (2 ^ 63) ≡ true = ground (arith, abs_fits) in
      let enough : ltb (length shares) rest ≡ false = ground arith in
      (shares, rest, rw (allocate, signs, some_weight, fits, made, enough) refl, rounded, sum, few)

  handed_out-sum :
      (shares : List Share) (rest : ℕ)
      → rest + total_cents shares ≡ abs
      → rest ≤ length shares
      → sum_of (handed_out shares rest) ≡ abs
  handed_out-sum shares rest sum few =
      let order = sort_from 0 shares in
      let taken = length-take rest order (omega (arith, length-sort_from 0 shares)) in
      let in_range = take-AllBelow (length (cents_of shares)) rest order (
        sort_from-AllBelow (length (cents_of shares)) 0 shares
          (omega (arith, length-cents_of shares))) in
      let total = sum_of-cents_of shares in
      omega (
        arith,
        sum_of-increment_each (take rest order) (cents_of shares) in_range
            (omega (arith, abs_fits)),
        abs_fits,
      )

  handed_out-length :
      (shares : List Share) (rest : ℕ) → length (handed_out shares rest) ≡ length shares
  handed_out-length shares rest =
      length-increment_each (take rest (sort_from 0 shares)) (cents_of shares)
      ∙ length-cents_of shares

  signed_back : signed (negative m.cents) abs m.currency ≡ m
  signed_back = ground arith

  sum_of_handed :
      (qs : List Int64) → 0 < length qs → sum_of qs ≡ abs → sum (map (signed_part m) qs) ≡ amount m
  sum_of_handed [] some_part total = absurd (omega arith)
  sum_of_handed (q ∷ qs) some_part total =
      sum_parts (negative m.cents) q qs m.currency (omega (arith, abs_fits))
      ∙ ap (λ x. amount (signed (negative m.cents) x m.currency)) total
      ∙ ap amount signed_back

  some_weights : 0 < length weights
  some_weights = nonempty weights weighs
    where
      nonempty : (ws : List Int64) → 0 < weigh ws → 0 < length ws
      nonempty [] h = absurd (unfold weigh in omega arith)
      nonempty (w ∷ ws) h = omega arith

  -- Allocate splits an amount into as many parts as there are weights, whose Sum is the amount, cent for
  -- cent and in its currency: for weights that are not negative and not all 0, and every int64 but the
  -- lowest, which has no absolute value.
  pub allocate-sum :
      (ps : List Money) × (allocate m weights ≡ parts ps)
      × (length ps ≡ length weights)
      × (sum ps ≡ amount m)
  allocate-sum =
      let (shares, rest, made, rounded, total, few) = allocated in
      let qs = handed_out shares rest in
      let same = Rounded-length abs (weigh weights) weights shares rounded in
      let sized : length qs ≡ length weights = handed_out-length shares rest ∙ same in
      (
        map (signed_part m) qs,
        made,
        length-map qs ∙ sized,
        sum_of_handed qs (rw sized some_weights) (handed_out-sum shares rest total few),
      )
    where
      length-map : (qs : List Int64) → length (map (signed_part m) qs) ≡ length qs
      length-map [] = refl
      length-map (q ∷ qs) = ap suc (length-map qs)

  Rounded-share :
      (ws : List Int64) (ss : List Share) (i : ℕ) {w : Int64}
      → Rounded abs (weigh weights) ws ss
      → get_elem? ws i ≡ some w
      → (s : Share) × (get_elem? (cents_of ss) i ≡ some s.cents)
        × (i < length ss)
        × (s.rem < weigh weights)
        × (weigh weights * s.cents + s.rem ≡ abs * w)
  Rounded-share [] ss i rounded found = absurd (ground arith)
  Rounded-share (v ∷ ws) [] i rounded found = absurd rounded
  Rounded-share (v ∷ ws) (s ∷ ss) zero {w} (below, its, rounded) found =
      (s, refl, omega arith, below, its ∙ ap (λ x. abs * x) (ground arith))
  Rounded-share (v ∷ ws) (s ∷ ss) (suc i) {w} (below, its, rounded) found =
      let (t, got, inside, less, eq) = Rounded-share ws ss i {w = w} rounded found in
      (t, got, omega arith, less, eq)

  signed_magnitude : (q : ℕ) → q < 2 ^ 63 → magnitude (signed_part m q).cents ≡ q
  signed_magnitude q fits = ground arith

  get_elem?-signed :
      (qs : List Int64) (i : ℕ) {q : Int64}
      → get_elem? qs i ≡ some q
      → get_elem? (map (signed_part m) qs) i ≡ some (signed_part m q)
  get_elem?-signed [] i found = absurd (ground arith)
  get_elem?-signed (p ∷ qs) zero found = ground arith
  get_elem?-signed (p ∷ qs) (suc i) found = get_elem?-signed qs i found

  one_cent :
      (i rest : ℕ) (shares : List Share)
      → i < length shares
      → hits i (take rest (sort_from 0 shares)) ≤ 1
  one_cent i rest shares inside =
      ground (arith, hits-take i rest (sort_from 0 shares), hits-sort_from i 0 shares)

  near :
      (total p rem exact extra : ℕ)
      → rem < total
      → total * p + rem ≡ exact
      → extra ≤ 1
      → (total * (p + extra) ≤ exact + total) × (exact < total * suc (p + extra))
  near total p rem exact zero less eq le =
      (omega (arith, mul-add total p 0), omega (arith, mul-suc total (p + 0), mul-add total p 0))
  near total p rem exact (suc zero) less eq le =
      (omega (arith, mul-add total p 1), omega (arith, mul-suc total (p + 1), mul-add total p 1))
  near total p rem exact (suc (suc n)) less eq le = absurd (omega arith)

  -- Each part of Allocate is its exact share of the amount to the cent: less than one cent below it and at
  -- most one cent above, with the amount's sign and currency, under the same conditions.
  pub allocate_fair :
      (i : ℕ) (w : Int64)
      → get_elem? weights i ≡ some w
      → (ps : List Money) × (part : Money) × (allocate m weights ≡ parts ps)
        × (get_elem? ps i ≡ some part)
        × (part ≡ signed_part m (magnitude part.cents))
        × (weigh weights * magnitude part.cents ≤ abs * w + weigh weights)
        × (abs * w < weigh weights * suc (magnitude part.cents))
  allocate_fair i w found =
      let (shares, rest, made, rounded, total, few) = allocated in
      let (s, got, inside, less, eq) = Rounded-share weights shares i {w = w} rounded found in
      let extra = hits i (take rest (sort_from 0 shares)) in
      let one = one_cent i rest shares inside in
      let below = element_le (cents_of shares) i {p = s.cents} got in
      let small : s.cents + extra < 2 ^ 63 + 1 = omega (arith, abs_fits, sum_of-cents_of shares) in
      let here =
        get_elem?-increment_each (take rest (sort_from 0 shares)) i (cents_of shares) {p = s.cents}
          got (omega arith) in
      let q = s.cents + extra in
      let part = signed_part m q in
      let fits : q < 2 ^ 63 = omega (
        arith,
        element_le (handed_out shares rest) i {p = q} here,
        handed_out-sum shares rest total few,
        abs_fits,
      ) in
      let mag : magnitude part.cents ≡ q = signed_magnitude q fits in
      let (above, under) = near (weigh weights) s.cents s.rem (abs * w) extra less eq one in
      (
        map (signed_part m) (handed_out shares rest),
        part,
        made,
        get_elem?-signed (handed_out shares rest) i {q = q} here,
        ap (signed_part m) (sym mag),
        subst (λ x. weigh weights * x ≤ abs * w + weigh weights) (sym mag) above,
        subst (λ x. abs * w < weigh weights * suc x) (sym mag) under,
      )
    where
      element_le : (ps : List Int64) (i : ℕ) {p : Int64} → get_elem? ps i ≡ some p → p ≤ sum_of ps
      element_le [] i found = absurd (ground arith)
      element_le (q ∷ ps) zero found = ground arith
      element_le (q ∷ ps) (suc i) {p} found = omega (arith, element_le ps i {p = p} found)
