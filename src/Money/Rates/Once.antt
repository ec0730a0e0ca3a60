-- ===== src/Money/Rates/Once.antt =====
-- One rounding: what MulRate, MulRatio and RoundTo give is determined by the exact value.
use mathlib.Core.Path.{subst}
use native.Mathlib.Nat.{div-add-mod, mod-lt, mul-add, lt_of_mul-lt-mul_left}
use go_core.Prelude.{
  ℕ, ◌+◌, ◌-◌, ◌*◌, ◌/◌, ◌≤◌, ◌<◌, ◌≢◌, ◌≡◌, ◌∙◌, ap, Bool, true, false, nat_beq, xor, arith,
  Bool-cases, inl, inr,
}
use go_core.Money.{Int64, negative, Money}
use go_core.Money.Allocation.{magnitude}
use go_core.Money.Rational.{Rat, BigInt, round_rat, must_int64}
use go_core.Money.Rational.Rounding.{Nearest, round_rat-Nearest, Nearest-unique}
use go_core.Money.Exact.{
  Exact, Rate, val, rat_of, rat_quo, rate_scale, RoundMode, round_nearest, round_up, round_down,
  in_cents, floor_rat, round_by, round_to, round,
}
use go_core.Money.Rates.{mul_rate}

-- r is the fraction rounded towards zero, or away from it.
abbrev pub Toward : ℕ → ℕ → ℕ → Type 0
Toward num den r = (den * r ≤ num) × (num < den * r + den)

abbrev pub Away : ℕ → ℕ → ℕ → Type 0
Away num den r = (num ≤ den * r) × (den * r < num + den)

-- What each mode of RoundTo means, for a fraction with its sign apart.
abbrev pub Directed : RoundMode → Bool → ℕ → ℕ → ℕ → Type 0
Directed round_nearest minus num den r = Nearest num den r
Directed round_up true num den r = Toward num den r
Directed round_up false num den r = Away num den r
Directed round_down true num den r = Away num den r
Directed round_down false num den r = Toward num den r

Toward-div : (num den : ℕ) → 0 < den → Toward num den (num / den)
Toward-div num den positive =
    (omega (arith, div-add-mod num den), omega (arith, div-add-mod num den, mod-lt num positive))

Away-div : (num den : ℕ) → 0 < den → Away num den ((num + (den - 1)) / den)
Away-div num den positive =
    let split = div-add-mod (num + (den - 1)) den in
    let below = mod-lt (num + (den - 1)) positive in (omega arith, omega arith)

Toward-unique : (num den r s : ℕ) → Toward num den r → Toward num den s → r ≡ s
Toward-unique num den r s (r_le, r_lt) (s_le, s_lt) =
    let one = lt_of_mul-lt-mul_left den {m = r} {n = s + 1} (omega (arith, mul-add den s 1)) in
    let two = lt_of_mul-lt-mul_left den {m = s} {n = r + 1} (omega (arith, mul-add den r 1)) in
    omega arith

Away-unique : (num den r s : ℕ) → Away num den r → Away num den s → r ≡ s
Away-unique num den r s (r_le, r_lt) (s_le, s_lt) =
    let one = lt_of_mul-lt-mul_left den {m = r} {n = s + 1} (omega (arith, mul-add den s 1)) in
    let two = lt_of_mul-lt-mul_left den {m = s} {n = r + 1} (omega (arith, mul-add den r 1)) in
    omega arith

round_by-eq :
    (mode : RoundMode) (quo : Rat) (n : ℕ)
    → 0 < quo.den
    → Directed mode quo.minus quo.num quo.den n
    → round_by mode quo ≡ record { minus = quo.minus; abs = n }
unfolding round_by floor_rat round_rat
round_by-eq round_nearest quo n positive near =
    ap (λ r. record { minus = quo.minus; abs = r })
      (Nearest-unique quo.num quo.den (round_rat quo).abs n (round_rat-Nearest quo positive) near)
round_by-eq round_up quo n positive near = elim (Bool-cases quo.minus) [
  | inl below ↦
      let same =
        Toward-unique quo.num quo.den (quo.num / quo.den) n (Toward-div quo.num quo.den positive)
          (subst (λ b. Directed round_up b quo.num quo.den n) below near) in
      ground arith
  | inr above ↦
      let same =
        Away-unique quo.num quo.den ((quo.num + (quo.den - 1)) / quo.den) n
          (Away-div quo.num quo.den positive)
          (subst (λ b. Directed round_up b quo.num quo.den n) above near) in
      ground arith
]
round_by-eq round_down quo n positive near = elim (Bool-cases quo.minus) [
  | inl below ↦
      let same =
        Away-unique quo.num quo.den ((quo.num + (quo.den - 1)) / quo.den) n
          (Away-div quo.num quo.den positive)
          (subst (λ b. Directed round_down b quo.num quo.den n) below near) in
      ground arith
  | inr above ↦
      let same =
        Toward-unique quo.num quo.den (quo.num / quo.den) n (Toward-div quo.num quo.den positive)
          (subst (λ b. Directed round_down b quo.num quo.den n) above near) in
      ground arith
]

-- RoundTo gives the multiple of the step that its mode means, in the sign of the amount: the nearest one,
-- a tie away from zero, or the next one above or below it; it panics where that is no int64. The step is
-- positive, and the fraction's denominator too.
pub round_to-Directed :
    (e : Exact) (step : Int64) (mode : RoundMode) (n : ℕ)
    → negative step ≡ false
    → step ≢ 0
    → 0 < (val e).den
    → Directed mode (val e).minus (val e).num ((val e).den * step) n
    → round_to step mode e
      ≡ in_cents e.currency (must_int64 (record { minus = (val e).minus; abs = n * step }))
unfolding round_to
round_to-Directed e step mode n sign_bit some_step positive near =
    let quo = rat_quo (val e) (rat_of step) in
    let some_test : nat_beq step 0 ≡ false = ground arith in
    let size : magnitude step ≡ step = ground arith in
    let same_sign : quo.minus ≡ (val e).minus = ground arith in
    let same_num : quo.num ≡ (val e).num = omega arith in
    let same_den : quo.den ≡ (val e).den * step = ap (λ x. (val e).den * x) size in
    let here : Directed mode quo.minus quo.num quo.den n =
      rw (same_sign, same_num, same_den) near in
    let whole =
      round_by-eq mode quo n (rw same_den (product (val e).den step positive (ground arith)))
        here in
    opened
    ∙ ap
        (λ (w : BigInt).
          in_cents e.currency (must_int64 (record w { abs = w.abs * magnitude step })))
        whole
    ∙ ap (λ b. in_cents e.currency (must_int64 (record { minus = b; abs = n * magnitude step })))
        same_sign
    ∙ ap (λ x. in_cents e.currency (must_int64 (record { minus = (val e).minus; abs = n * x })))
        size
  where
    opened :
        round_to step mode e
        ≡ in_cents e.currency (
            must_int64 (record (round_by mode (rat_quo (val e) (rat_of step))) {
              abs = (round_by mode (rat_quo (val e) (rat_of step))).abs * magnitude step;
            }))
    opened = ground arith

    product : (a b : ℕ) → 0 < a → 0 < b → 0 < a * b
    product a b ha hb = grind arith

-- MulRate is one rounding of the exact product: the nearest cent to it, a tie away from zero, with the
-- sign of the product and the amount's currency, and a panic where that is no int64.
pub mul_rate-Nearest :
    (m : Money) (r : Rate) (n : ℕ)
    → Nearest (magnitude m.cents * magnitude r.v) (rate_scale * 100) n
    → mul_rate m r
      ≡ in_cents m.currency
          (must_int64 (record { minus = xor (negative m.cents) (negative r.v); abs = n }))
unfolding mul_rate round round_by
mul_rate-Nearest m r n near =
    let exact : Rat = record {
      minus = xor (negative m.cents) (negative r.v);
      num = magnitude m.cents * magnitude r.v;
      den = rate_scale * 100;
    } in
    let whole : round_rat exact
        ≡ record { minus = xor (negative m.cents) (negative r.v); abs = n } =
      round_by-eq round_nearest exact n (omega arith) near in
    ap (λ v. in_cents m.currency (must_int64 v)) whole
