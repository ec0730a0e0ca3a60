-- ===== src/Event/Retrying/Delay.antt =====
-- The backoff in closed form.
use go_core.Prelude.{
  ℕ, zero, suc, ◌-◌, ◌*◌, ◌%◌, ◌^◌, ◌≤◌, ◌<◌, ap, ◌≡◌, ◌∙◌, ltb, if◌then◌else◌, arith, Bool-cases,
  inl, inr,
}
use go_core.Event.Retrying.{Duration, duration_ltb, RetryPolicy, double, delay}

abbrev pub smaller : ℕ → ℕ → ℕ
smaller a b = if ltb b a then b else a

doubled : (d n : ℕ) → d * 2 ^ suc n ≡ d * 2 * 2 ^ n
doubled d n = grind arith

le-mul-pow : (d n : ℕ) → d ≤ d * 2 ^ n
le-mul-pow d zero = omega arith
le-mul-pow d (suc n) = omega (arith, doubled d n, le-mul-pow (d * 2) n)

double-smaller :
    (rounds : ℕ) (longest d : Duration)
    → longest < 2 ^ 62
    → d < 2 ^ 63
    → smaller (double rounds longest d) longest ≡ smaller (d * 2 ^ rounds) longest
unfolding double
double-smaller zero longest d fits small = ap (λ x. smaller x longest) (omega arith)
double-smaller (suc rounds) longest d fits small = elim (Bool-cases (duration_ltb d longest)) [
  | inl less ↦
      rw (double, less)
        (let twice : d * 2 % 2 ^ 64 ≡ d * 2 = ground arith in
          rw (twice, doubled d rounds) (double-smaller rounds longest (d * 2) fits (ground arith)))
  | inr more ↦
      rw (double, more)
        (let above : longest ≤ d = ground arith in ground (arith, le-mul-pow d (suc rounds)))
]

double-bounded :
    (rounds : ℕ) (longest d : Duration)
    → longest < 2 ^ 62
    → d < 2 ^ 63
    → double rounds longest d < 2 ^ 63
unfolding double
double-bounded zero longest d fits small = small
double-bounded (suc rounds) longest d fits small = elim (Bool-cases (duration_ltb d longest)) [
  | inl less ↦
      rw (double, less) (double-bounded rounds longest (d * 2 % 2 ^ 64) fits (ground arith))
  | inr more ↦ rw (double, more) small
]

same_smaller :
    (d longest : ℕ)
    → d < 2 ^ 63
    → longest < 2 ^ 62
    → (if duration_ltb longest d then longest else d) ≡ smaller d longest
same_smaller d longest small fits = ground arith

-- The wait after n failures in a row is the first delay, doubled n - 1 times, or the longest delay
-- where that is smaller: for a policy whose delays are below 2^62 nanoseconds (146 years).
pub delay-doubles :
    (p : RetryPolicy) (failures : ℕ)
    → p.first_delay < 2 ^ 62
    → p.max_delay < 2 ^ 62
    → delay p failures ≡ smaller (p.first_delay * 2 ^ (failures - 1)) p.max_delay
unfolding delay
delay-doubles p failures first longest =
    let bounded = double-bounded (failures - 1) p.max_delay p.first_delay longest (omega arith) in
    let same = double-smaller (failures - 1) p.max_delay p.first_delay longest (omega arith) in
    same_smaller (double (failures - 1) p.max_delay p.first_delay) p.max_delay bounded longest
    ∙ same
