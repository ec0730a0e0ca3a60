-- ===== src/Ratelimit/Examples.antt =====
-- A limiter of two calls per ten nanoseconds, and the theorem applied to it.
use go_core.Prelude.{pos, ◌≡◌, refl, min, List, [], ◌∷◌, inl, lookup, arith}
use go_core.Ratelimit.{InMemoryLimiter, new_in_memory_limiter}
use go_core.Ratelimit.Windows.{Event, call, tick, calls, granted, granted-window}

abbrev two : InMemoryLimiter
two = new_in_memory_limiter (pos 2) (pos 10)

abbrev events : List Event
events = call "a" 101 ∷ call "b" 102 ∷ tick 105 ∷ call "a" 110 ∷ []

granted-window_example :
    granted "a" (call "a" 100 ∷ events) two ≡ min (calls "a" (call "a" 100 ∷ events)) two.limit
unfolding new_in_memory_limiter lookup
granted-window_example =
    granted-window "a" 100 events two (omega arith) (inl refl)
      (omega arith, (omega arith, (omega arith, (omega arith, tt))))
