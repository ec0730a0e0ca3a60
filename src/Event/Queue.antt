-- ===== src/Event/Queue.antt =====
-- event/queue.go: claim, lease and finish, each transaction a function of the tables. What the
-- database refuses leaves the tables as they were and is left out.
pub mod Writing
pub mod Leasing
pub mod Outcomes
use go_core.Prelude.{
  ℕ, suc, String, string_eq, Bool, true, false, ◌&&◌, ◌||◌, not, List, [], ◌∷◌, Option, none, some,
  leb, ltb, nat_eq, if◌then◌else◌, ◌==◌, keep, take, contains, length, Dominance.count_if,
  Counting.distinct,
}
use go_core.Event.Tables.{
  Envelope, OutboxEvent, AttemptRow, Tables, is_set, ids_to, write_row, set_processed, finished_row,
  finished, unprocessed,
}

-- batchSize
abbrev pub batch_size : ℕ
batch_size = 50

-- claimedEvent
pub record ClaimedEvent : Type 0 where
  pub id : ℕ
  pub event_type : String
  pub envelope : Option Envelope
  pub attempts : ℕ

-- a.event_id IS NULL OR (a.done_at IS NULL AND a.dead_at IS NULL AND a.next_attempt_at <= now)
abbrev pub due : ℕ → Option AttemptRow → Bool
due now none = true
due now (some row) =
    not (is_set row.done_at) && not (is_set row.dead_at) && leb row.next_attempt_at now

-- What claim's first read picks for one consumer, and dueFor's part for it.
abbrev pub candidate : String → String → ℕ → Tables → ℕ → Bool
candidate consumer event_name now t id = elim (t.outbox id) [
  | none ↦ false
  | some event ↦
      not (is_set event.processed_at)
      && event.event_type == event_name
      && due now (t.rows id consumer)
]

unfoldable pub candidates : String → String → ℕ → ℕ → Tables → List ℕ
candidates consumer event_name now limit t =
    take limit (keep (candidate consumer event_name now t) (ids_to t.last_id))

-- dueFor, for consumers by their name and event. Its UNION ALL and the sort that follows give each
-- consumer's part in ascending order, as it is here.
unfoldable pub due_for : List (String × String) → ℕ → ℕ → Tables → List (List ℕ)
unfolding candidates
due_for [] now limit t = []
due_for ((name, event) ∷ consumers) now limit t =
    candidates name event now limit t ∷ due_for consumers now limit t

-- The consumer's row is leased, finished, or waits: `ok && (a.DoneAt != nil || …)`.
abbrev pub taken : ℕ → Option AttemptRow → Bool
taken now none = false
taken now (some row) = is_set row.done_at || is_set row.dead_at || ltb now row.next_attempt_at

-- A locked outbox row, as the loop of lease turns it into a claimed event.
abbrev pub claimed_event : ℕ → OutboxEvent → Option AttemptRow → ClaimedEvent
claimed_event id event none = record {
  id = id;
  event_type = event.event_type;
  envelope = event.envelope;
  attempts = 0;
}
claimed_event id event (some row) = record {
  id = id;
  event_type = event.event_type;
  envelope = event.envelope;
  attempts = row.attempts;
}

-- The loop of lease over the locked rows.
unfoldable pub claim_due : String → ℕ → Tables → List ℕ → List ClaimedEvent
claim_due consumer now t [] = []
claim_due consumer now t (id ∷ ids) =
    let rest = claim_due consumer now t ids in
    elim (t.outbox id) [
      | none ↦ rest
      | some event ↦
          if taken now (t.rows id consumer)
          then rest
          else claimed_event id event (t.rows id consumer) ∷ rest
    ]

-- The row that the upsert of a lease leaves: on a conflict only two columns change.
abbrev pub leased_row : ClaimedEvent → ℕ → ℕ → Option AttemptRow → AttemptRow
leased_row ev now until none = record {
  attempts = ev.attempts;
  next_attempt_at = until;
  last_error = "";
  done_at = none;
  dead_at = none;
  updated_at = now;
}
leased_row ev now until (some row) = record row { next_attempt_at = until; updated_at = now }

unfoldable pub write_leases : String → ℕ → ℕ → List ClaimedEvent → Tables → Tables
write_leases consumer now until [] t = t
write_leases consumer now until (ev ∷ evs) t =
    write_leases consumer now until evs
      (write_row ev.id consumer (some (leased_row ev now until (t.rows ev.id consumer))) t)

-- SELECT id FROM outbox_events WHERE id IN wanted AND processed_at IS NULL ORDER BY id FOR UPDATE.
abbrev pub locked : List ℕ → Tables → List ℕ
locked wanted t = keep (λ id. contains wanted id && unprocessed (t.outbox id)) (ids_to t.last_id)

-- lease
unfoldable pub lease : String → List ℕ → ℕ → ℕ → Tables → Tables × List ClaimedEvent
lease consumer wanted now until t =
    let claimed = claim_due consumer now t (locked wanted t) in
    (write_leases consumer now until claimed t, claimed)

-- claim
unfoldable pub claim : String → String → ℕ → ℕ → ℕ → Tables → Tables × List ClaimedEvent
unfolding lease candidates
claim consumer event_name now until limit t =
    lease consumer (candidates consumer event_name now limit t) now until t

-- SELECT COUNT(*) … WHERE event_id = id AND consumer IN siblings AND the row is finished: a name that
-- stands twice among the siblings counts once.
abbrev pub finished_count : ℕ → List String → Tables → ℕ
finished_count id siblings t = count_if (λ c. finished (t.rows id c)) (distinct siblings)

-- finish
unfoldable pub finish : ℕ → String → AttemptRow → List String → Tables → Tables
unfolding write_row set_processed
finish id consumer row siblings t =
    let saved = write_row id consumer (some row) t in
    elim (t.outbox id) [
      | none ↦ saved
      | some _ ↦
          if not (finished_row row)
          then saved
          else if ltb (finished_count id siblings saved) (length siblings)
          then saved
          else set_processed id (some row.updated_at) saved
    ]
