-- ===== src/Event/Tables.antt =====
-- event/outbox.go, envelope.go and the rows of event/queue.go: the tables outbox_events and
-- event_consumer_attempts as functions from their primary keys, whose NULL columns are options.
pub mod Ids
pub mod Ascending
use go_core.Prelude.{
  ℕ, zero, suc, ◌+◌, ◌-◌, ◌%◌, String, string_eq, Bool, true, false, ◌&&◌, ◌||◌, not, List, [], ◌∷◌,
  ◌++◌, Option, none, some, leb, nat_beq, if◌then◌else◌, ◌==◌,
}

-- The nanoseconds of a second.
abbrev pub second : ℕ
second = 1_000_000_000

-- whole
unfoldable pub whole : ℕ → ℕ
whole t = t - t % second

-- Envelope: the version and the payload that the queue reads.
pub record Envelope : Type 0 where
  pub version : String
  pub payload : String

-- OutboxEvent: `envelope` is what json.Unmarshal makes of the column, `none` where it fails.
pub record OutboxEvent : Type 0 where
  pub event_type : String
  pub envelope : Option Envelope
  pub processed_at : Option ℕ

-- attemptRow, less its key. The column of the attempts is an unsigned smallint; a policy counts up to its
-- own attempts only.
pub record AttemptRow : Type 0 where
  pub attempts : ℕ
  pub next_attempt_at : ℕ
  pub last_error : String
  pub done_at : Option ℕ
  pub dead_at : Option ℕ
  pub updated_at : ℕ

-- Ids are given by the database, counting from 1; `last_id` is the last one given.
pub record Tables : Type 0 where
  pub last_id : ℕ
  pub outbox : ℕ → Option OutboxEvent
  pub rows : ℕ → String → Option AttemptRow

abbrev pub is_set : Option ℕ → Bool
is_set none = false
is_set (some at) = true

-- The ids up to n, ascending.
abbrev pub ids_to : ℕ → List ℕ
ids_to zero = []
ids_to (suc n) = ids_to n ++ suc n ∷ []

-- The statements that write one row, or delete it.
unfoldable pub write_event : ℕ → Option OutboxEvent → Tables → Tables
write_event id event t = record t { outbox = λ i. if nat_beq i id then event else t.outbox i }

unfoldable pub write_row : ℕ → String → Option AttemptRow → Tables → Tables
write_row id consumer row t = record t {
  rows = λ i c. if nat_beq i id && (c == consumer) then row else t.rows i c;
}

-- UPDATE outbox_events SET processed_at = at WHERE id = id.
unfoldable pub set_processed : ℕ → Option ℕ → Tables → Tables
unfolding write_event
set_processed id at t = elim (t.outbox id) [
  | none ↦ t
  | some event ↦ write_event id (some (record event { processed_at = at })) t
]

-- done_at IS NOT NULL OR dead_at IS NOT NULL, of a row that may be missing.
abbrev pub finished_row : AttemptRow → Bool
finished_row row = is_set row.done_at || is_set row.dead_at

abbrev pub finished : Option AttemptRow → Bool
finished none = false
finished (some row) = finished_row row

-- dead_at IS NOT NULL.
abbrev pub is_dead : Option AttemptRow → Bool
is_dead none = false
is_dead (some row) = is_set row.dead_at

-- processed_at IS NULL, of an event that is there.
abbrev pub unprocessed : Option OutboxEvent → Bool
unprocessed none = false
unprocessed (some event) = not (is_set event.processed_at)

-- Publish, on the transaction of its caller: the row it inserts. The payload's encoding is an argument.
unfoldable pub publish : String → Option Envelope → Tables → Tables
publish name envelope t = record t {
  last_id = suc t.last_id;
  outbox = λ i.
      if nat_beq i (suc t.last_id)
      then some (record { event_type = name; envelope = envelope; processed_at = none })
      else t.outbox i;
}
