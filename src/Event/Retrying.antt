-- ===== src/Event/Retrying.antt =====
-- event/typed.go: how a failing handler is retried. A Duration is an int64, held as its bit pattern.
pub mod Delay
use go_core.Prelude.{
  ℕ, zero, suc, ◌+◌, ◌-◌, ◌*◌, ◌%◌, ◌^◌, Bool, true, false, List, [], ◌∷◌, ltb, if◌then◌else◌,
}
use go_core.Event.Tables.{second}

abbrev pub Duration : Type 0
Duration = ℕ

-- d < e, as signed numbers.
abbrev pub duration_ltb : Duration → Duration → Bool
duration_ltb d e = ltb ((d + 2 ^ 63) % 2 ^ 64) ((e + 2 ^ 63) % 2 ^ 64)

-- retryPolicy
pub record RetryPolicy : Type 0 where
  pub attempts : ℕ
  pub first_delay : Duration
  pub max_delay : Duration

-- defaultRetry
abbrev pub default_retry : RetryPolicy
default_retry = record { attempts = 5; first_delay = 5 * second; max_delay = 1800 * second }

-- Attempts and Backoff, and the options of Retry, applied in turn.
pub data RetryOption : Type 0 where
  attempts : ℕ → RetryOption
  backoff : Duration → Duration → RetryOption

abbrev pub adjust : RetryOption → RetryPolicy → RetryPolicy
adjust (RetryOption.attempts n) p = record p { attempts = n }
adjust (backoff first longest) p = record p { first_delay = first; max_delay = longest }

unfoldable pub retry_with : List RetryOption → RetryPolicy → RetryPolicy
retry_with [] p = p
retry_with (o ∷ opts) p = retry_with opts (adjust o p)

-- The loop of delay, `rounds` of it at most: d *= 2 wraps around.
unfoldable pub double : ℕ → Duration → Duration → Duration
double zero longest d = d
double (suc rounds) longest d = elim (duration_ltb d longest) [
  | true ↦ double rounds longest (d * 2 % 2 ^ 64)
  | false ↦ d
]

-- retryPolicy.delay
unfoldable pub delay : RetryPolicy → ℕ → Duration
unfolding double
delay p failures =
    let d = double (failures - 1) p.max_delay p.first_delay in
    if duration_ltb p.max_delay d then p.max_delay else d

-- now.Add(d)
abbrev pub add_duration : ℕ → Duration → ℕ
add_duration t d = if ltb d (2 ^ 63) then t + d else t - (2 ^ 64 - d)
