-- ===== src/Ratelimit/Stopping.antt =====
-- ratelimit/ratelimit.go: Stop, on whether the channel stopCh is closed. `none` is a panic.
use go_core.Prelude.{◌≡◌, refl, Bool, true, false, Option, none, some}

-- Go's close: closing a closed channel panics.
abbrev pub close : Bool → Option Bool
close true = none
close false = some true

-- What the select of Stop decides, and the rest of Stop after it. Stop takes no lock, so the limiter can
-- change between the two.
abbrev pub sees_stopped : Bool → Bool
sees_stopped closed = closed

abbrev pub stop_after : Bool → Bool → Option Bool
stop_after true closed = some closed
stop_after false closed = close closed

-- Stop, when nobody comes between.
abbrev pub stop : Bool → Option Bool
stop closed = stop_after (sees_stopped closed) closed

-- The second of two calls, when the first did not panic.
and_then : Option Bool → (Bool → Option Bool) → Option Bool
and_then none next = none
and_then (some closed) next = next closed

-- One call after another leaves the channel closed, and none panics.
stop_again : (closed : Bool) → and_then (stop closed) stop ≡ some true
unfolding and_then
stop_again true = refl
stop_again false = refl

-- Of two calls that both look before either closes, the second panics.
stop_race :
    and_then (stop_after (sees_stopped false) false) (stop_after (sees_stopped false)) ≡ none
unfolding and_then
stop_race = refl
