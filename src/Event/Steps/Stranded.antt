-- ===== src/Event/Steps/Stranded.antt =====
-- What an outcome does that is recorded too late, after the event was processed: the step that Delivery's
-- condition rules out. A worker records such an outcome when its lease ran out while it was handling the
-- event and another worker of the consumer finished it.
use go_core.Prelude.{
  ℕ, String, string_eq, nat_eq, ◌≡◌, ◌∙◌, ap, inl, inr, true, false, List, some, nat_beq,
  nat_beq_iff, ==_refl, arith, Bool-cases, Option-cases, any, any_elim,
}
use go_core.Event.Tables.{
  OutboxEvent, AttemptRow, Tables, is_set, finished, finished_row, unprocessed, write_row,
}
use go_core.Event.Queue.{ClaimedEvent, claim_due, locked, lease, finish}
use go_core.Event.Queue.Outcomes.{finish-rows}
use go_core.Event.Queue.Leasing.{claim_due_elim, locked_elim}
use go_core.Event.DeadLetters.{dead_letter_not_found, retry}

module _ (id : ℕ) (c : String) (row : AttemptRow) (siblings : List String) (t : Tables)
    {event : OutboxEvent} (there : t.outbox id ≡ some event)
    (processed : is_set event.processed_at ≡ true) (later : finished_row row ≡ false) where
  abbrev after : Tables
  after = finish id c row siblings t

  stays_processed : unprocessed (after.outbox id) ≡ false
  unfolding finish write_row
  stays_processed = ground arith

  never_claimed :
      (d : String) (wanted : List ℕ) (now until : ℕ)
      → any (λ ev. nat_beq id ev.id) (lease d wanted now until after).1 ≡ false
  unfolding lease
  never_claimed d wanted now until =
      let claimed = claim_due d now after (locked wanted after) in
      elim (Bool-cases (any (λ ev. nat_beq id ev.id) claimed)) [
        | inr none_claims ↦ none_claims
        | inl some_claims ↦
            let (ev, m, same) =
              any_elim (λ (ev : ClaimedEvent). nat_beq id ev.id) claimed some_claims in
            let free =
              (locked_elim wanted after (claim_due_elim d now after (locked wanted after) m).0).1 in
            let eq : id ≡ ev.id = (nat_beq_iff id ev.id).0 same in
            absurd (ground (arith, stays_processed, ap after.outbox eq))
      ]

  row_kept : after.rows id c ≡ some row
  row_kept = ground (arith, finish-rows id c row siblings t id c, nat_beq_iff id id, ==_refl c)

  not_dead : (clock : ℕ) → (retry clock id c after).1 ≡ dead_letter_not_found
  unfolding retry
  not_dead clock = elim (Option-cases (after.outbox id)) [
    | inl gone ↦ absurd (ground (arith, still_there))
    | inr (event', found) ↦ ground (arith, row_kept)
  ]
    where
      still_there : after.outbox id ≡ some event
      still_there = unfold finish in ground arith

  -- Recording a failure that is to be retried, on an event that is processed already, strands the event for
  -- the consumer: it is neither done nor a dead letter, no lease of any consumer claims it at any time,
  -- and Retry finds no dead letter to revive, whatever the row held before.
  pub finish_stranded :
      (d : String) (wanted : List ℕ) (now until clock : ℕ)
      → (finished (after.rows id c) ≡ false)
        × (any (λ ev. nat_beq id ev.id) (lease d wanted now until after).1 ≡ false)
        × ((retry clock id c after).1 ≡ dead_letter_not_found)
  finish_stranded d wanted now until clock =
      (ap finished row_kept ∙ later, never_claimed d wanted now until, not_dead clock)
