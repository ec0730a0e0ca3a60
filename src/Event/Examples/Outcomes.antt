-- ===== src/Event/Examples/Outcomes.antt =====
-- Outcomes and the sweep.
use go_core.Prelude.{
  ℕ, ◌+◌, ◌*◌, String, string_eq, nat_eq, List, [], ◌∷◌, some, ◌≡◌, refl, if◌then◌else◌, nat_beq,
}
use go_core.Event.Tables.{Tables, publish, second}
use go_core.Event.Housekeeping.{retention}
use go_core.Event.Examples.{two_events, event}

abbrev siblings : List String
siblings = "mail" ∷ "log" ∷ []

there : two_events.outbox 1 ≡ some event
unfolding publish
there = refl

-- Two events, the first processed at the epoch; the clock is past its retention.
abbrev old : Tables
old = record two_events {
  outbox = λ i. if nat_beq i 1 then some (record event { processed_at = some 0 }) else some event;
}

abbrev clock : ℕ
clock = retention + 5 * second
