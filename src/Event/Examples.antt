-- ===== src/Event/Examples.antt =====
-- The theorems on the queue, applied to a support desk: two events and two consumers.
mod Leases
mod Outcomes
mod Failures
mod Listed
mod Wired
use go_core.Prelude.{
  ℕ, ◌*◌, String, string_eq, List, [], ◌∷◌, Option, none, some, if◌then◌else◌, ◌==◌, refl, ◌≡◌,
  true, Bool-cases, inl, inr, arith, Counting.no_duplicates,
}
use go_core.Event.Tables.{Envelope, OutboxEvent, AttemptRow, Tables, publish}
use go_core.Event.Steps.{Application, no_tables}

abbrev pub assigned : String
assigned = "tickets.assigned"

abbrev pub envelope : Envelope
envelope = record { version = "1"; payload = "{}" }

abbrev pub desk : Application
desk = record {
  siblings_of = λ name. if name == assigned then "mail" ∷ "log" ∷ [] else [];
  consumers = "mail" ∷ "log" ∷ [];
}

-- The two consumers of the desk have names of their own.
pub desk_names : (name : String) → no_duplicates (desk.siblings_of name) ≡ true
desk_names name = elim (Bool-cases (name == assigned)) [
  | inl its ↦ rw its refl
  | inr other ↦ rw other refl
]

-- Two events are queued.
abbrev pub two_events : Tables
two_events = publish assigned (some envelope) (publish assigned (some envelope) no_tables)

abbrev pub event : OutboxEvent
event = record { event_type = assigned; envelope = some envelope; processed_at = none }

-- What a worker records when the handler succeeded at second 1, or failed then.
abbrev pub succeeded : AttemptRow
succeeded = record {
  attempts = 0;
  next_attempt_at = 1;
  last_error = "";
  done_at = some 1;
  dead_at = none;
  updated_at = 1;
}

abbrev pub failed : AttemptRow
failed = record {
  attempts = 1;
  next_attempt_at = 9;
  last_error = "timeout";
  done_at = none;
  dead_at = none;
  updated_at = 1;
}
