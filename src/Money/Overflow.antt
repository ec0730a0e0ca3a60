-- ===== src/Money/Overflow.antt =====
-- The overflow checks against the values that the patterns stand for.
use go_core.Prelude.{
  ℕ, ◌+◌, ◌-◌, ◌*◌, ◌^◌, ◌<◌, String, string_eq, ◌≡◌, ◌≢◌, refl, Bool, true, false, ◌&&◌, not, leb,
  ltb, if◌then◌else◌, arith, ◌⊎◌, inl, inr, sym, ap, ◌∙◌, Bool-cases,
}
use go_core.Money.{
  Int64, negative, add_int64, neg_int64, Money, overflow, amount, refused, combine, sum_overflows,
  add, neg, sub,
}

-- The value that the pattern stands for, plus 2^63.
abbrev pub biased : Int64 → ℕ
biased v = if negative v then v - 2 ^ 63 else v + 2 ^ 63

-- The exact sum of the two values is an int64.
abbrev pub sum_fits : Int64 → Int64 → Bool
sum_fits v w = leb (2 ^ 63) (biased v + biased w) && ltb (biased v + biased w) (3 * 2 ^ 63)

overflows-sum_fits :
    (v w : Int64) → v < 2 ^ 64 → w < 2 ^ 64 → sum_overflows v w ≡ not (sum_fits v w)
overflows-sum_fits v w hv hw = ground arith

sum_exact :
    (v w : Int64)
    → v < 2 ^ 64
    → w < 2 ^ 64
    → sum_fits v w ≡ true
    → biased (add_int64 v w) + 2 ^ 63 ≡ biased v + biased w
sum_exact v w hv hw fits = ground arith

add_within :
    (m n : Money) {cur : String}
    → combine m n ≡ amount cur
    → sum_overflows m.cents n.cents ≡ false
    → add m n ≡ amount (record { cents = add_int64 m.cents n.cents; currency = cur })
unfolding add
add_within m n same calm = rw (add, same, calm) refl

add_beyond :
    (m n : Money) {cur : String}
    → combine m n ≡ amount cur
    → sum_overflows m.cents n.cents ≡ true
    → add m n ≡ refused overflow
unfolding add
add_beyond m n same far = rw (add, same, far) refl

-- Either the exact sum is an int64 and Add gives it, in the common currency, or it is not and Add says
-- overflow: for any two amounts whose currencies combine.
pub add-exact :
    (m n : Money) {cur : String}
    → m.cents < 2 ^ 64
    → n.cents < 2 ^ 64
    → combine m n ≡ amount cur
    → ((sum_fits m.cents n.cents ≡ true)
        × ((r : Money) × (add m n ≡ amount r)
            × (r.currency ≡ cur)
            × (biased r.cents + 2 ^ 63 ≡ biased m.cents + biased n.cents)))
      ⊎ ((sum_fits m.cents n.cents ≡ false) × (add m n ≡ refused overflow))
add-exact m n {cur} hm hn same =
    let test = overflows-sum_fits m.cents n.cents hm hn in
    elim (Bool-cases (sum_fits m.cents n.cents)) [
      | inl fits ↦
          let r : Money = record { cents = add_int64 m.cents n.cents; currency = cur } in
          let no_overflow : sum_overflows m.cents n.cents ≡ false = test ∙ ap not fits in
          inl
            (fits, (r, add_within m n same no_overflow, refl, sum_exact m.cents n.cents hm hn fits))
      | inr beyond ↦
          let too_far : sum_overflows m.cents n.cents ≡ true = test ∙ ap not beyond in
          inr (beyond, add_beyond m n same too_far)
    ]

-- The exact difference of the two values is an int64.
abbrev pub difference_fits : Int64 → Int64 → Bool
difference_fits v w = leb (biased w) (biased v + 2 ^ 63) && ltb (biased v) (biased w + 2 ^ 63)

negated :
    (w : Int64)
    → w < 2 ^ 64
    → w ≢ 2 ^ 63
    → (biased (neg_int64 w) + biased w ≡ 2 ^ 64) × (neg_int64 w < 2 ^ 64)
negated w hw lowest = (ground arith, omega arith)

difference_fits-sum_fits :
    (v w : Int64)
    → v < 2 ^ 64
    → w < 2 ^ 64
    → w ≢ 2 ^ 63
    → sum_fits v (neg_int64 w) ≡ difference_fits v w
difference_fits-sum_fits v w hv hw lowest = ground (arith, negated w hw lowest)

combine-neg : (m n : Money) → combine m (neg n) ≡ combine m n
unfolding combine
combine-neg m n = refl

-- Sub is as exact as Add, for every subtrahend but the lowest int64, which has no negative.
pub sub-exact :
    (m n : Money) {cur : String}
    → m.cents < 2 ^ 64
    → n.cents < 2 ^ 64
    → n.cents ≢ 2 ^ 63
    → combine m n ≡ amount cur
    → ((difference_fits m.cents n.cents ≡ true)
        × ((r : Money) × (sub m n ≡ amount r)
            × (r.currency ≡ cur)
            × (biased r.cents + biased n.cents ≡ biased m.cents + 2 ^ 63)))
      ⊎ ((difference_fits m.cents n.cents ≡ false) × (sub m n ≡ refused overflow))
unfolding sub
sub-exact m n {cur} hm hn lowest same =
    let (opposite, below) = negated n.cents hn lowest in
    let fits = difference_fits-sum_fits m.cents n.cents hm hn lowest in
    elim (add-exact m (neg n) {cur = cur} hm below (combine-neg m n ∙ same)) [
      | inl (inside, (r, added, currency, exact)) ↦
          inl (sym fits ∙ inside, (r, added, currency, omega arith))
      | inr (outside, stopped) ↦ inr (sym fits ∙ outside, stopped)
    ]

-- Subtracting the lowest int64 from an amount that is not negative is not refused, though the exact
-- difference is no int64: the answer is a negative amount.
pub sub-lowest :
    (m n : Money) {cur : String}
    → m.cents < 2 ^ 63
    → n.cents ≡ 2 ^ 63
    → combine m n ≡ amount cur
    → (sub m n ≡ amount (record { cents = m.cents + 2 ^ 63; currency = cur }))
      × (difference_fits m.cents n.cents ≡ false)
unfolding sub add combine
sub-lowest m n hm lowest same = (ground arith, ground arith)
