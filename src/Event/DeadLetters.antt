-- ===== src/Event/DeadLetters.antt =====
-- event/deadletter.go: putting dead letters back in the queue. Listing has the list of them.
pub mod Listing
pub mod Letters
pub mod Pages
use go_core.Prelude.{ℕ, suc, String, List, [], ◌∷◌, none, some, if◌then◌else◌, keep}
use go_core.Event.Tables.{
  AttemptRow, Tables, ids_to, whole, is_dead, is_set, write_row, set_processed,
}

-- What Retry answers.
pub data Retried : Type 0 where
  retried dead_letter_not_found dead_letter_event_gone : Retried

-- The columns that Retry updates.
abbrev pub revived_row : ℕ → AttemptRow → AttemptRow
revived_row now row = record row {
  dead_at = none;
  attempts = 0;
  next_attempt_at = now;
  updated_at = now;
}

-- Retry, at the clock's reading `clock`.
unfoldable pub retry : ℕ → ℕ → String → Tables → Tables × Retried
unfolding write_row set_processed whole
retry clock id consumer t =
    let now = whole clock in
    elim (t.outbox id) [
      | none ↦ (t, dead_letter_event_gone)
      | some event ↦ elim (t.rows id consumer) [
        | none ↦ (t, dead_letter_not_found)
        | some row ↦
            if is_set row.dead_at
            then (
              set_processed id none (write_row id consumer (some (revived_row now row)) t),
              retried,
            )
            else (t, dead_letter_not_found)
      ]
    ]

abbrev pub count_retried : Retried → ℕ → ℕ
count_retried retried n = suc n
count_retried dead_letter_not_found n = n
count_retried dead_letter_event_gone n = n

-- The loop of RetryAll.
unfoldable pub retry_each : ℕ → String → List ℕ → ℕ → Tables → Tables × ℕ
unfolding retry
retry_each clock consumer [] n t = (t, n)
retry_each clock consumer (id ∷ ids) n t =
    let (t', answer) = retry clock id consumer t in
    retry_each clock consumer ids (count_retried answer n) t'

-- RetryAll, whose first read picks the consumer's dead letters in the order of the events.
unfoldable pub retry_all : ℕ → String → Tables → Tables × ℕ
unfolding retry_each
retry_all clock consumer t =
    retry_each clock consumer (keep (λ id. is_dead (t.rows id consumer)) (ids_to t.last_id)) 0 t
