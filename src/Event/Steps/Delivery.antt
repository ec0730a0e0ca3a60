-- ===== src/Event/Steps/Delivery.antt =====
-- The delivery of events: a worker records its outcome before another one finished the event, and then each
-- consumer has finished the event, or its dead letter of it expired, or it will be able to claim it.
use go_core.Prelude.{
  ℕ, ◌≤◌, String, string_eq, nat_eq, ◌≡◌, refl, sym, ◌∙◌, ap, ◌⊎◌, inl, inr, Bool, true, false,
  ◌&&◌, List, Option, none, some, Memᴰ, nat_beq, nat_beq_iff, ◌==◌, ==-eq, arith, Bool-cases, all,
  all_elim, contains, Counting.no_duplicates,
}
use go_core.Event.Tables.{OutboxEvent, AttemptRow, Tables, is_set, finished, finished_row}
use go_core.Event.Queue.{taken, claimed_event, locked, lease, finish}
use go_core.Event.Queue.Leasing.{due_from, claim_due_intro, locked_intro}
use go_core.Event.Queue.Outcomes.{finish-rows, finish-last_id, finish-outbox_other, finish-outbox}
use go_core.Event.Steps.{
  waiting, Application, publishes, leases, finishes, retries, prunes, expires, Reach, start, later,
  letter_expired,
}
use go_core.Event.Steps.Settled.{
  Settled, no_tables-Settled, publish-Settled, lease-Settled, retry-Settled, prune-Settled,
  delete_letters-Settled,
}

module _ (app : Application) where
  waiting-finished : (row : Option AttemptRow) → finished row ≡ true → waiting row ≡ false
  waiting-finished none h = refl
  waiting-finished (some row) h = ground arith

  module _ (once : (name : String) → no_duplicates (app.siblings_of name) ≡ true) where
    module _ (id : ℕ) (c : String) (row : AttemptRow) (held : OutboxEvent) (t : Tables)
        (there : t.outbox id ≡ some held) (waits : waiting (t.rows id c) ≡ true)
        {gone : ℕ → String → Bool} (s : Settled app gone t) where
      abbrev siblings : List String
      siblings = app.siblings_of held.event_type

      abbrev after : Tables
      after = finish id c row siblings t

      here_settled :
          (event : OutboxEvent) (d : String)
          → after.outbox id ≡ some event
          → is_set event.processed_at ≡ true
          → Memᴰ d (app.siblings_of event.event_type)
          → waiting (after.rows id d) ≡ false
      here_settled event d now_there processed among =
          let everyone = λ (x : String). finished (after.rows id x) in
          let shape =
            finish-outbox id c row siblings t {event = held} (once held.event_type) there in
          elim (Bool-cases (finished_row row && all everyone siblings)) [
            | inl complete ↦
                let same_type : event.event_type ≡ held.event_type = ground arith in
                let every : all everyone siblings ≡ true = ground arith in
                waiting-finished (after.rows id d)
                  (all_elim everyone siblings every (rw same_type at among))
            | inr incomplete ↦
                let same : event ≡ held = ground arith in
                let quiet = s.settled id held d there (rw same at processed) (rw same at among) in
                elim (Bool-cases (d == c)) [
                  | inl own ↦ absurd (ground (arith, ==-eq d c own, ap (t.rows id) (==-eq d c own)))
                  | inr other ↦
                      ap waiting (finish-rows id c row siblings t id d ∙ ground arith) ∙ quiet
                ]
          ]

      here_ended :
          (event : OutboxEvent) (d : String)
          → after.outbox id ≡ some event
          → is_set event.processed_at ≡ true
          → Memᴰ d (app.siblings_of event.event_type)
          → (finished (after.rows id d) ≡ true) ⊎ (gone id d ≡ true)
      here_ended event d now_there processed among =
          let everyone = λ (x : String). finished (after.rows id x) in
          let shape =
            finish-outbox id c row siblings t {event = held} (once held.event_type) there in
          elim (Bool-cases (finished_row row && all everyone siblings)) [
            | inl complete ↦
                let same_type : event.event_type ≡ held.event_type = ground arith in
                let every : all everyone siblings ≡ true = ground arith in
                inl (all_elim everyone siblings every (rw same_type at among))
            | inr incomplete ↦
                let same : event ≡ held = ground arith in
                let sibling = rw same at among in
                let quiet = s.settled id held d there (rw same at processed) sibling in
                elim (Bool-cases (d == c)) [
                  | inl own ↦ absurd (ground (arith, ==-eq d c own, ap (t.rows id) (==-eq d c own)))
                  | inr other ↦
                      let untouched : after.rows id d ≡ t.rows id d =
                        finish-rows id c row siblings t id d ∙ ground arith in
                      rw untouched (s.ended id held d there (rw same at processed) sibling)
                ]
          ]

      finish-Settled : Settled app gone after
      finish-Settled = record {
        given = λ i {event} found. elim (Bool-cases (nat_beq i id)) [
          | inl same ↦ ground (
            arith,
            nat_beq_iff i id,
            s.given id {event = held} there,
            finish-last_id id c row siblings t,
          )
          | inr other ↦ ground (
            arith,
            s.given i {event = event}
                (sym (finish-outbox_other id c row siblings t i other) ∙ found),
            finish-last_id id c row siblings t,
          )
        ];
        settled = λ i event d found processed among. elim (Bool-cases (nat_beq i id)) [
          | inl same ↦
              let eq : i ≡ id = (nat_beq_iff i id).0 same in
              ap (λ x. waiting (after.rows x d)) eq
              ∙ here_settled event d (ap after.outbox (sym eq) ∙ found) processed among
          | inr other ↦
              let before : t.outbox i ≡ some event =
                sym (finish-outbox_other id c row siblings t i other) ∙ found in
              ap waiting (finish-rows id c row siblings t i d ∙ ground arith)
              ∙ s.settled i event d before processed among
        ];
        ended = λ i event d found processed among. elim (Bool-cases (nat_beq i id)) [
          | inl same ↦
              let eq : i ≡ id = (nat_beq_iff i id).0 same in
              rw eq (here_ended event d (ap after.outbox (sym eq) ∙ found) processed among)
          | inr other ↦
              let before : t.outbox i ≡ some event =
                sym (finish-outbox_other id c row siblings t i other) ∙ found in
              let untouched : after.rows i d ≡ t.rows i d =
                finish-rows id c row siblings t i d ∙ ground arith in
              rw untouched (s.ended i event d before processed among)
        ];
      }

    Reach-Settled : {t : Tables} (reached : Reach app t) → Settled app (letter_expired reached) t
    Reach-Settled start = no_tables-Settled app (λ id c. false)
    Reach-Settled (later before (publishes name envelope t)) =
        publish-Settled app (letter_expired before) name envelope t (Reach-Settled before)
    Reach-Settled (later before (leases c wanted now until t)) =
        lease-Settled app (letter_expired before) c wanted now until t (Reach-Settled before)
    Reach-Settled (later before (finishes id c row event t there waits)) =
        finish-Settled id c row event t there waits (Reach-Settled before)
    Reach-Settled (later before (retries clock id c t)) =
        retry-Settled app (letter_expired before) clock id c t (Reach-Settled before)
    Reach-Settled (later before (prunes ids cutoff t)) =
        prune-Settled app (letter_expired before) ids cutoff t (Reach-Settled before)
    Reach-Settled (later before (expires ids cutoff t)) =
        delete_letters-Settled app (letter_expired before)
          (letter_expired (later before (expires ids cutoff t))) ids cutoff t
          (λ id c earlier. ground arith) (λ id c dead deleted. ground arith) (Reach-Settled before)

  claimable :
      (t : Tables) (id : ℕ) (event : OutboxEvent) (c : String) (wanted : List ℕ) (now until : ℕ)
      → {gone : ℕ → String → Bool} → Settled app gone t
      → t.outbox id ≡ some event
      → is_set event.processed_at ≡ false
      → taken now (t.rows id c) ≡ false
      → contains wanted id ≡ true
      → Memᴰ (claimed_event id event (t.rows id c)) (lease c wanted now until t).1
  unfolding lease
  claimable t id event c wanted now until s there unprocessed_yet free named =
      let (above, below) = s.given id {event = event} there in
      claim_due_intro c now t (locked wanted t) {id = id} {event = event}
        (locked_intro wanted t above below named (ground arith)) there free

-- No event is lost. In every state that the queue reaches, an event that is still there and one of its
-- consumers: the consumer has finished it (done or dead), or a transaction of the run deleted its dead
-- letter of the event as too old, or a lease that asks for the event, no earlier than the consumer's row says, claims it.
-- This holds where no two consumers of an event share a name and every outcome is recorded while the
-- consumer's row still waits.
pub delivered :
    (app : Application)
    → ((name : String) → no_duplicates (app.siblings_of name) ≡ true)
    → {t : Tables} (reached : Reach app t) → (id : ℕ) (event : OutboxEvent) (c : String)
    → t.outbox id ≡ some event
    → Memᴰ c (app.siblings_of event.event_type)
    → (wanted : List ℕ) (now until : ℕ) → contains wanted id ≡ true
    → due_from (t.rows id c) ≤ now
    → (finished (t.rows id c) ≡ true)
      ⊎ ((letter_expired reached id c ≡ true)
          ⊎ Memᴰ (claimed_event id event (t.rows id c)) (lease c wanted now until t).1)
delivered app once {t} reached id event c there among wanted now until named late =
    let s = Reach-Settled app once reached in
    elim (Bool-cases (finished (t.rows id c))) [
      | inl ended ↦ inl ended
      | inr unfinished ↦ elim (Bool-cases (is_set event.processed_at)) [
        | inl processed ↦ elim (s.ended id event c there processed among) [
          | inl done ↦ inl done
          | inr expired ↦ inr (inl expired)
        ]
        | inr pending ↦ inr (
            inr (
              claimable app t id event c wanted now until s there pending
                (idle (t.rows id c) unfinished late) named))
      ]
    ]
  where
    idle :
        (row : Option AttemptRow)
        → finished row ≡ false
        → due_from row ≤ now
        → taken now row ≡ false
    idle none f late = refl
    idle (some row) f late = ground arith
