-- ===== src/Event/Steps/Settled.antt =====
-- The invariant behind the delivery of events, and the transactions that keep it.
use go_core.Prelude.{
  ℕ, suc, ◌≤◌, ◌<◌, String, string_eq, nat_eq, ◌≡◌, sym, ◌∙◌, ap, ◌⊎◌, inl, inr, Bool, true, false,
  ◌&&◌, contains, none, List, Option, some, Memᴰ, nat_beq, nat_beq_iff, arith, Bool-cases,
  Option-cases,
}
use go_core.Event.Tables.{
  Envelope, OutboxEvent, AttemptRow, Tables, is_set, finished, is_dead, publish, write_event,
  write_row, set_processed,
}
use go_core.Event.Queue.{ClaimedEvent, claim_due, locked, write_leases, lease}
use go_core.Event.Queue.Leasing.{claim_due_elim, locked_elim}
use go_core.Event.Queue.Writing.{write_leases_other, write_leases-outbox, write_leases-last_id}
use go_core.Event.DeadLetters.{retry}
use go_core.Event.Housekeeping.{prune, delete_events, delete_letters, dead_before}
use go_core.Event.Steps.{waiting, Application, no_tables}

-- `gone` says whose dead letters expired so far.
module _ (app : Application) (gone : ℕ → String → Bool) where
  -- Every event has an id that was given, no consumer of a processed event still waits for it, and each
  -- of them finished it, unless its dead letter expired.
  pub record Settled (t : Tables) : Type 0 where
    pub given :
        (id : ℕ) {event : OutboxEvent} → t.outbox id ≡ some event → (0 < id) × (id ≤ t.last_id)
    pub settled :
        (id : ℕ) (event : OutboxEvent) (c : String)
        → t.outbox id ≡ some event
        → is_set event.processed_at ≡ true
        → Memᴰ c (app.siblings_of event.event_type)
        → waiting (t.rows id c) ≡ false
    pub ended :
        (id : ℕ) (event : OutboxEvent) (c : String)
        → t.outbox id ≡ some event
        → is_set event.processed_at ≡ true
        → Memᴰ c (app.siblings_of event.event_type)
        → (finished (t.rows id c) ≡ true) ⊎ (gone id c ≡ true)

  pub no_tables-Settled : Settled no_tables
  no_tables-Settled = record {
    given = λ id there. absurd (ground arith);
    settled = λ id event c there processed among. absurd (ground arith);
    ended = λ id event c there processed among. absurd (ground arith);
  }

  pub publish-Settled :
      (name : String) (envelope : Option Envelope) (t : Tables)
      → Settled t
      → Settled (publish name envelope t)
  unfolding publish
  publish-Settled name envelope t s = record { given = known; settled = quiet; ended = over }
    where
      known :
          (id : ℕ) {event : OutboxEvent}
          → (publish name envelope t).outbox id ≡ some event
          → (0 < id) × (id ≤ suc t.last_id)
      known id {event} there = elim (Bool-cases (nat_beq id (suc t.last_id))) [
        | inl new ↦ ground arith
        | inr old ↦ ground (arith, s.given id {event = event} (ground arith))
      ]

      quiet :
          (id : ℕ) (event : OutboxEvent) (c : String)
          → (publish name envelope t).outbox id ≡ some event
          → is_set event.processed_at ≡ true
          → Memᴰ c (app.siblings_of event.event_type)
          → waiting (t.rows id c) ≡ false
      quiet id event c there processed among = elim (Bool-cases (nat_beq id (suc t.last_id))) [
        | inl new ↦ absurd (ground arith)
        | inr old ↦ s.settled id event c (ground arith) processed among
      ]

      over :
          (id : ℕ) (event : OutboxEvent) (c : String)
          → (publish name envelope t).outbox id ≡ some event
          → is_set event.processed_at ≡ true
          → Memᴰ c (app.siblings_of event.event_type)
          → (finished (t.rows id c) ≡ true) ⊎ (gone id c ≡ true)
      over id event c there processed among = elim (Bool-cases (nat_beq id (suc t.last_id))) [
        | inl new ↦ absurd (ground arith)
        | inr old ↦ s.ended id event c (ground arith) processed among
      ]

  pub lease-Settled :
      (c : String) (wanted : List ℕ) (now until : ℕ) (t : Tables)
      → Settled t
      → Settled (lease c wanted now until t).0
  unfolding lease
  lease-Settled c wanted now until t s =
      let claimed = claim_due c now t (locked wanted t) in
      let same = write_leases-outbox c now until claimed t in
      record {
        given = λ id {event} there.
            rw (write_leases-last_id c now until claimed t)
              (s.given id {event = event} (ap (λ f. f id) (sym same) ∙ there));
        settled = λ id event d there processed among.
            let before : t.outbox id ≡ some event = ap (λ f. f id) (sym same) ∙ there in
            ap waiting (untouched id event d before processed)
            ∙ s.settled id event d before processed among;
        ended = λ id event d there processed among.
            let before : t.outbox id ≡ some event = ap (λ f. f id) (sym same) ∙ there in
            rw (untouched id event d before processed) (s.ended id event d before processed among);
      }
    where
      unclaimed :
          (id : ℕ) (ev : ClaimedEvent) (event : OutboxEvent)
          → t.outbox id ≡ some event
          → is_set event.processed_at ≡ true
          → Memᴰ ev.id (locked wanted t)
          → nat_beq id ev.id ≡ false
      unclaimed id ev event there processed m = elim (Bool-cases (nat_beq id ev.id)) [
        | inr other ↦ other
        | inl same ↦
            let free = (locked_elim wanted t m).1 in
            let eq : id ≡ ev.id = (nat_beq_iff id ev.id).0 same in
            absurd (ground (arith, ap t.outbox eq))
      ]

      untouched :
          (id : ℕ) (event : OutboxEvent) (d : String)
          → t.outbox id ≡ some event
          → is_set event.processed_at ≡ true
          → (write_leases c now until (claim_due c now t (locked wanted t)) t).rows id d
            ≡ t.rows id d
      untouched id event d before processed =
          write_leases_other c now until (claim_due c now t (locked wanted t)) t id d (
            inr (λ ev m.
              unclaimed id ev event before processed
                (claim_due_elim c now t (locked wanted t) m).0))

  pub retry-Settled :
      (clock at : ℕ) (c : String) (t : Tables) → Settled t → Settled (retry clock at c t).0
  unfolding retry write_row set_processed write_event
  retry-Settled clock at c t s = record {
    given = λ id {event} there. elim (Option-cases (t.outbox id)) [
      | inl gone ↦ absurd (ground arith)
      | inr (old, was) ↦ ground (arith, s.given id {event = old} was)
    ];
    settled = λ id event d there processed among. elim (Bool-cases (nat_beq id at)) [
      | inr other ↦ let kept = s.settled id event d (ground arith) processed among in ground arith
      | inl same ↦
          let unchanged : (retry clock at c t).0 ≡ t = ground (arith, nat_beq_iff id at) in
          let kept = s.settled id event d (rw (← unchanged) there) processed among in
          ap (λ u. waiting (u.rows id d)) unchanged ∙ kept
    ];
    ended = λ id event d there processed among. elim (Bool-cases (nat_beq id at)) [
      | inr other ↦
          let untouched : (retry clock at c t).0.rows id d ≡ t.rows id d = ground arith in
          rw untouched (s.ended id event d (ground arith) processed among)
      | inl same ↦
          let unchanged : (retry clock at c t).0 ≡ t = ground (arith, nat_beq_iff id at) in
          rw unchanged (s.ended id event d (rw (← unchanged) there) processed among)
    ];
  }

  pub prune-Settled :
      (ids : List ℕ) (cutoff : ℕ) (t : Tables)
      → Settled t
      → Settled (prune app.consumers ids cutoff t).0
  unfolding prune delete_events
  prune-Settled ids cutoff t s = record {
    given = λ id {event} there. s.given id {event = event} (was id event there);
    settled = λ id event d there processed among.
        let kept = s.settled id event d (was id event there) processed among in ground arith;
    ended = λ id event d there processed among.
        let untouched : (prune app.consumers ids cutoff t).0.rows id d ≡ t.rows id d =
          ground arith in
        rw untouched (s.ended id event d (was id event there) processed among);
  }
    where
      was :
          (id : ℕ) (event : OutboxEvent)
          → (prune app.consumers ids cutoff t).0.outbox id ≡ some event
          → t.outbox id ≡ some event
      was id event there = ground arith

module _ (app : Application) (gone later_gone : ℕ → String → Bool) (ids : List ℕ) (cutoff : ℕ)
    (t : Tables) where
  abbrev kept_letters : Tables
  kept_letters = delete_letters app.consumers ids cutoff t

  pub delete_letters-Settled :
      ((id : ℕ) (c : String) → gone id c ≡ true → later_gone id c ≡ true)
      → ((id : ℕ) (c : String)
          → is_dead (t.rows id c) ≡ true
          → kept_letters.rows id c ≡ none
          → later_gone id c ≡ true)
      → Settled app gone t
      → Settled app later_gone kept_letters
  unfolding delete_letters
  delete_letters-Settled grows expired s = record {
    given = s.given;
    settled = λ id event d there processed among.
        let kept = s.settled id event d there processed among in ground arith;
    ended = λ id event d there processed among. elim (s.ended id event d there processed among) [
      | inr earlier ↦ inr (grows id d earlier)
      | inl done ↦ elim (Bool-cases (contains ids id && dead_before cutoff (t.rows id d))) [
        | inl deleted ↦
            inr (expired id d (dead_of_old cutoff (t.rows id d) (ground arith)) (ground arith))
        | inr stays ↦
            let untouched : kept_letters.rows id d ≡ t.rows id d = ground arith in
            inl (rw untouched done)
      ]
    ];
  }
    where
      dead_of_old :
          (cutoff : ℕ) (row : Option AttemptRow)
          → dead_before cutoff row ≡ true
          → is_dead row ≡ true
      dead_of_old cutoff none h = ground arith
      dead_of_old cutoff (some row) h = elim (Option-cases row.dead_at) [
        | inl alive ↦ ground arith
        | inr (at, dead) ↦ ground arith
      ]
