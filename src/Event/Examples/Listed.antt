-- ===== src/Event/Examples/Listed.antt =====
-- The list of dead letters: one event, which "mail" gave up on and "log" handled.
use go_core.Prelude.{
  ℕ, ◌<◌, pos, String, string_eq, List, [], ◌∷◌, Option, none, some, ◌≡◌, ◌↔◌, refl, sym, true,
  false, if◌then◌else◌, ◌==◌, nat_beq, arith, Memᴰ, length, ap,
}
use go_core.Event.Tables.{OutboxEvent, Tables}
use go_core.Event.DeadLetters.{retry, retried}
use go_core.Event.DeadLetters.Listing.{DeadLetter, retryable, letters_in, letters_at}
use go_core.Event.DeadLetters.Pages.{letters, read_pages, read_pages-retry}
use go_core.Event.Examples.{event, failed, succeeded}

abbrev given_up : Tables
given_up = record {
  last_id = 1;
  outbox = λ i. some event;
  rows = λ i c.
      if nat_beq i 1
      then (if c == "mail" then some (record failed { dead_at = some 7 }) else some succeeded)
      else none;
}

abbrev consumers : List String
consumers = "log" ∷ "mail" ∷ []

abbrev or_event : Option OutboxEvent → OutboxEvent
or_event none = event
or_event (some e) = e

event_names : (i : ℕ) (e : OutboxEvent) → given_up.outbox i ≡ some e → (e.event_type == "") ≡ false
event_names i e there = ap (λ o. (or_event o).event_type == "") (sym there)

few : length (letters (λ a b. false) consumers given_up "") < 3
unfolding letters_in letters_at
few = omega arith

read_pages-retry_example :
    ((letter : DeadLetter) × Memᴰ letter
        (read_pages (λ a b. false) consumers given_up 3 "" (pos 2) 0)
      × (letter.event_id ≡ 1)
      × (letter.consumer ≡ "mail")
      × (retryable letter ≡ true))
    ↔ ((retry 9 1 "mail" given_up).1 ≡ retried)
read_pages-retry_example =
    read_pages-retry (λ a b. false) consumers given_up 9 "" (pos 2) 3 1 "mail" event_names few refl
      (Memᴰ.tail (Memᴰ.head refl)) (omega arith) (omega arith)
