-- ===== src/Ratelimit.antt =====
-- ratelimit/ratelimit.go: the in-memory fixed-window limiter. Its mutex makes every method one step;
-- the goroutine that sweeps is the step `sweep`, and the clock's reading, in nanoseconds, is an
-- argument of the step that reads it. Stopping has Stop.
pub mod Windows
pub mod Stopping
mod Examples
use go_core.Prelude.{
  ℕ, suc, ◌+◌, ℤ, is_positive, pos_part, String, string_eq, Bool, true, false, not, [], Option,
  none, some, Map, lookup, insert, keep, length, ltb, if◌then◌else◌,
}

pub record MemCounter : Type 0 where
  pub count : ℕ
  pub expiry : ℕ

pub record InMemoryLimiter : Type 0 where
  pub limit : ℕ
  pub window : ℕ
  pub m : Map String MemCounter

-- NewInMemoryLimiter: a limit below one is one, and a window below one nanosecond is a second.
unfoldable pub new_in_memory_limiter : ℤ → ℤ → InMemoryLimiter
new_in_memory_limiter limit window = record {
  limit = if is_positive limit then pos_part limit else 1;
  window = if is_positive window then pos_part window else 1_000_000_000;
  m = [];
}

-- One round of InMemoryLimiter.sweep.
unfoldable pub sweep : ℕ → InMemoryLimiter → InMemoryLimiter
sweep now l = record l { m = keep (λ entry. not (ltb entry.1.expiry now)) l.m }

-- InMemoryLimiter.Len
unfoldable pub len : InMemoryLimiter → ℕ
len l = length l.m

-- Allow without a live window: a new one starts with this call.
abbrev pub open_window : String → ℕ → InMemoryLimiter → Bool × InMemoryLimiter
open_window key now l =
    (true, record l { m = insert key (record { count = 1; expiry = now + l.window }) l.m })

-- InMemoryLimiter.Allow
unfoldable pub allow : String → ℕ → InMemoryLimiter → Bool × InMemoryLimiter
allow key now l = elim (lookup key l.m) [
  | none ↦ open_window key now l
  | some c ↦
      if ltb c.expiry now
      then open_window key now l
      else (if ltb c.count l.limit
          then (true, record l { m = insert key (record c { count = suc c.count }) l.m })
          else (false, l))
]
