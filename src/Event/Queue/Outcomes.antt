-- ===== src/Event/Queue/Outcomes.antt =====
-- When finish marks an event processed.
use go_core.Prelude.{
  ℕ, String, string_eq, nat_eq, ◌≡◌, refl, inl, inr, true, false, ◌&&◌, not, List, [], ◌∷◌, some,
  Memᴰ, ltb, nat_beq, nat_beq_iff, if◌then◌else◌, ◌==◌, arith, Bool-cases, Option-cases, length,
  all, all_elim, Counting.distinct, Counting.no_duplicates, Counting.count_if-le-length,
  Counting.ltb-count_if, Counting.length-distinct, Counting.distinct_of_no_duplicates,
  Counting.distinct_mem,
}
use go_core.Event.Tables.{
  OutboxEvent, AttemptRow, Tables, write_event, write_row, set_processed, finished_row, finished,
  unprocessed,
}
use go_core.Event.Queue.{finished_count, finish}

module _ (id : ℕ) (consumer : String) (row : AttemptRow) (siblings : List String) (t : Tables) where
  abbrev pub after : Tables
  after = finish id consumer row siblings t

  -- The rows after finish: the outcome is there, the others are as before.
  pub finish-rows :
      (at : ℕ) (c : String)
      → after.rows at c ≡ (if nat_beq at id && (c == consumer) then some row else t.rows at c)
  unfolding finish write_row set_processed write_event
  finish-rows at c = ground arith

  pub finish-last_id : after.last_id ≡ t.last_id
  unfolding finish write_row set_processed write_event
  finish-last_id = ground arith

  -- Another event is not touched.
  pub finish-outbox_other : (at : ℕ) → nat_beq at id ≡ false → after.outbox at ≡ t.outbox at
  unfolding finish write_row set_processed write_event
  finish-outbox_other at other = ground arith

  abbrev pub saved : Tables
  saved = write_row id consumer (some row) t

  pub finish-outbox_lem :
      {event : OutboxEvent}
      → t.outbox id ≡ some event
      → after.outbox id ≡ (
          if finished_row row && not (ltb (finished_count id siblings saved) (length siblings))
          then some (record event { processed_at = some row.updated_at })
          else some event)
  unfolding finish write_row set_processed write_event
  finish-outbox_lem {event} there = ground arith

  saved-rows : (c : String) → saved.rows id c ≡ after.rows id c
  unfolding write_row
  saved-rows c = ground (arith, finish-rows id c, nat_beq_iff id id)

  all-saved :
      (cs : List String)
      → all (λ c. finished (saved.rows id c)) cs ≡ all (λ c. finished (after.rows id c)) cs
  all-saved [] = refl
  all-saved (c ∷ cs) = ground (arith, all-saved cs, saved-rows c)

  -- finish marks the event processed exactly when the outcome is final and, with it, every consumer of
  -- the event has finished; the event is otherwise as it was. No two consumers share a name.
  pub finish-outbox :
      {event : OutboxEvent}
      → no_duplicates siblings ≡ true
      → t.outbox id ≡ some event
      → after.outbox id ≡ (
          if finished_row row && all (λ c. finished (after.rows id c)) siblings
          then some (record event { processed_at = some row.updated_at })
          else some event)
  finish-outbox {event} once there = ground (
    arith,
    finish-outbox_lem {event = event} there,
    distinct_of_no_duplicates siblings once,
    ltb-count_if (λ c. finished (saved.rows id c)) siblings,
    all-saved siblings,
  )

  -- While a consumer among the siblings has not finished, nothing marks the event processed.
  pub finish-unprocessed :
      (c : String)
      → Memᴰ c siblings
      → finished (after.rows id c) ≡ false
      → unprocessed (t.outbox id) ≡ true
      → after.outbox id ≡ t.outbox id
  finish-unprocessed c among unfinished there = elim (Option-cases (t.outbox id)) [
    | inl gone ↦ absurd (ground arith)
    | inr (event, found) ↦
        let counted = λ (x : String). finished (saved.rows id x) in
        let short : all counted (distinct siblings) ≡ false =
          elim (Bool-cases (all counted (distinct siblings))) [
            | inr some_left ↦ some_left
            | inl every ↦ absurd (
                ground (
                  arith,
                  all_elim counted (distinct siblings) every (distinct_mem siblings among),
                  saved-rows c,
                ))
          ] in
        ground (
          arith,
          finish-outbox_lem {event = event} found,
          ltb-count_if counted (distinct siblings),
          length-distinct siblings,
          count_if-le-length counted (distinct siblings),
        )
  ]
