-- ===== src/Event/Housekeeping.antt =====
-- event/housekeeping.go: the sweep that deletes processed events and, if it was told so, old dead
-- letters. Each round of a loop reads a batch of ids above the last one, so the number of ids bounds the
-- rounds. The names of all consumers that have rows are a parameter, since a table is a function here.
pub mod Batches
pub mod Sweeping
use go_core.Prelude.{
  ℕ, zero, suc, ◌+◌, ◌-◌, ◌*◌, String, string_eq, nat_eq, Bool, true, false, ◌&&◌, ◌||◌, not, List,
  [], ◌∷◌, Option, none, some, ltb, if◌then◌else◌, ◌==◌, keep, any, take, contains, length,
}
use go_core.Event.Tables.Ascending.{last_of}
use go_core.Event.Tables.{OutboxEvent, AttemptRow, Tables, second, whole, is_dead, ids_to}

-- Retention and pruneBatch
abbrev pub retention : ℕ
retention = 2_592_000 * second

abbrev pub prune_batch : ℕ
prune_batch = 500

-- A column that is set, to a time before `cutoff`.
abbrev pub set_before : ℕ → Option ℕ → Bool
set_before cutoff none = false
set_before cutoff (some at) = ltb at cutoff

abbrev pub dead_before : ℕ → Option AttemptRow → Bool
dead_before cutoff none = false
dead_before cutoff (some row) = set_before cutoff row.dead_at

-- processed_at IS NOT NULL AND processed_at < cutoff.
abbrev pub processed_before : ℕ → Option OutboxEvent → Bool
processed_before cutoff none = false
processed_before cutoff (some event) = set_before cutoff event.processed_at

module _ (consumers : List String) where
  -- Some consumer has a dead letter of the event.
  abbrev pub has_dead : Tables → ℕ → Bool
  has_dead t id = any (λ c. is_dead (t.rows id c)) consumers

  -- DELETE FROM the attempts, and from the outbox, WHERE the id is doomed.
  unfoldable pub delete_events : List ℕ → Tables → Tables
  delete_events doomed t = record t {
    outbox = λ id. if contains doomed id then none else t.outbox id;
    rows = λ id c. if contains doomed id then none else t.rows id c;
  }

  -- The ids that prune locks, and those of them that it deletes.
  abbrev pub doomed : List ℕ → ℕ → Tables → List ℕ
  doomed ids cutoff t =
      keep (λ id. not (has_dead t id))
        (keep (λ id. contains ids id && processed_before cutoff (t.outbox id)) (ids_to t.last_id))

  -- prune
  unfoldable pub prune : List ℕ → ℕ → Tables → Tables × ℕ
  unfolding delete_events
  prune ids cutoff t = (delete_events (doomed ids cutoff t) t, length (doomed ids cutoff t))

  -- The read of Sweep: processed events above `after`, with no dead letter.
  abbrev pub prunable : ℕ → ℕ → Tables → ℕ → Bool
  prunable after cutoff t id =
      ltb after id && processed_before cutoff (t.outbox id) && not (has_dead t id)

  -- The loop of Sweep.
  unfoldable pub sweep_from : ℕ → ℕ → ℕ → ℕ → Tables → Tables × ℕ
  unfolding prune
  sweep_from zero after cutoff deleted t = (t, deleted)
  sweep_from (suc rounds) after cutoff deleted t =
      elim (take prune_batch (keep (prunable after cutoff t) (ids_to t.last_id))) [
        | [] ↦ (t, deleted)
        | id ∷ ids ↦
            let (t', n) = prune (id ∷ ids) cutoff t in
            sweep_from rounds (last_of id ids) cutoff (deleted + n) t'
      ]

  -- deleteLetters: the dead letters of the events `ids` that are older than the cutoff go.
  unfoldable pub delete_letters : List ℕ → ℕ → Tables → Tables
  delete_letters ids cutoff t = record t {
    rows =
        λ id c. if contains ids id && dead_before cutoff (t.rows id c) then none else t.rows id c;
  }

  -- The loop of expireDeadLetters.
  unfoldable pub expire_from : ℕ → ℕ → ℕ → Tables → Tables
  unfolding delete_letters
  expire_from zero after cutoff t = t
  expire_from (suc rounds) after cutoff t =
      elim (take prune_batch (
        keep (λ id. ltb after id && any (λ c. dead_before cutoff (t.rows id c)) consumers)
          (ids_to t.last_id))) [
            | [] ↦ t
            | id ∷ ids ↦
                expire_from rounds (last_of id ids) cutoff (delete_letters (id ∷ ids) cutoff t)
          ]

  -- expireDeadLetters; `dead_for` is 0 where letters are kept for ever.
  unfoldable pub expire_dead_letters : ℕ → ℕ → Tables → Tables
  unfolding expire_from whole
  expire_dead_letters dead_for clock t =
      if ltb 0 dead_for then expire_from (suc t.last_id) 0 (whole clock - dead_for) t else t

  -- Sweep: the loop makes a round for each id at most, and one that finds none.
  unfoldable pub sweep : ℕ → ℕ → Tables → Tables × ℕ
  unfolding sweep_from expire_dead_letters whole
  sweep dead_for clock t =
      sweep_from (suc t.last_id) 0 (whole clock - retention) 0
        (expire_dead_letters dead_for clock t)
