-- ===== src/Event/Steps/Exclusive.antt =====
-- A lease excludes every other worker of its consumer until it ends, whatever else happens to the queue.
use go_core.Prelude.{
  ℕ, ◌<◌, String, string_eq, nat_eq, ◌≡◌, refl, ◌∙◌, ap, ◌⊎◌, inl, inr, true, false, ◌&&◌, not,
  List, Option, none, some, Memᴰ, nat_beq, nat_beq_iff, ◌==◌, ==-eq, ==_refl, arith, Bool-cases,
  contains, contains_elim, Dominance.keep_elim,
}
use go_core.Event.Tables.{
  Envelope, OutboxEvent, AttemptRow, Tables, finished, unprocessed, publish, ids_to, write_event,
  write_row, set_processed,
}
use go_core.Event.Queue.{ClaimedEvent, lease, finish}
use go_core.Event.Queue.Leasing.{Held, claimed-Held, lease-Held}
use go_core.Event.Queue.Outcomes.{
  finish-rows, finish-last_id, finish-outbox_other, finish-unprocessed,
}
use go_core.Event.DeadLetters.{retry}
use go_core.Event.Housekeeping.{
  prune, doomed, delete_events, delete_letters, dead_before, has_dead, processed_before,
}
use go_core.Event.Steps.{
  Elsewhere, publishes, leases, finishes, finishes_other, retries, prunes, expires, Meanwhile,
  nothing, and_then,
}

module _ (id : ℕ) (consumer : String) (until : ℕ) where
  publish-Held :
      (name : String) (envelope : Option Envelope) (t : Tables)
      → Held id consumer until t
      → Held id consumer until (publish name envelope t)
  unfolding publish
  publish-Held name envelope t (known, there, (row, found, unfinished, end)) =
      (omega arith, ground arith, (row, found, unfinished, end))

  finish-Held :
      (at : ℕ) (c : String) (row : AttemptRow) (siblings : List String) (t : Tables)
      → (nat_beq id at && (consumer == c)) ≡ false
      → (nat_beq id at ≡ false) ⊎ (contains siblings consumer ≡ true)
      → Held id consumer until t
      → Held id consumer until (finish at c row siblings t)
  finish-Held at c row siblings t apart same_event (known, there, (his, found, unfinished, end)) =
      let kept : (finish at c row siblings t).rows id consumer ≡ some his =
        ground (arith, finish-rows at c row siblings t id consumer) in
      let stays : (finish at c row siblings t).outbox id ≡ t.outbox id = elim same_event [
        | inl other ↦ finish-outbox_other at c row siblings t id other
        | inr among ↦ elim (Bool-cases (nat_beq id at)) [
          | inr other ↦ finish-outbox_other at c row siblings t id other
          | inl same ↦ its same (contains_elim siblings consumer among) kept
        ]
      ] in
      (rw (finish-last_id at c row siblings t) known, rw stays there, (his, kept, unfinished, end))
    where
      its :
          nat_beq id at ≡ true
          → Memᴰ consumer siblings
          → (finish at c row siblings t).rows id consumer ≡ some his
          → (finish at c row siblings t).outbox id ≡ t.outbox id
      its same among kept =
          let eq : id ≡ at = (nat_beq_iff id at).0 same in
          rw eq (
            finish-unprocessed at c row siblings t consumer among
              (ap finished (rw eq at kept) ∙ ground arith) (rw eq at there))

  retry-Held :
      (clock at : ℕ) (c : String) (t : Tables)
      → Held id consumer until t
      → Held id consumer until (retry clock at c t).0
  unfolding retry write_row set_processed write_event
  retry-Held clock at c t (known, there, (row, found, unfinished, end)) = (
    ground arith,
    ground (arith, nat_beq_iff id at),
    (row, ground (arith, nat_beq_iff id at, ==-eq consumer c), unfinished, end),
  )

  unprocessed_kept :
      (cutoff : ℕ) (event : Option OutboxEvent)
      → unprocessed event ≡ true
      → processed_before cutoff event ≡ false
  unprocessed_kept cutoff none there = refl
  unprocessed_kept cutoff (some event) there = ground arith

  prune-Held :
      (consumers : List String) (ids : List ℕ) (cutoff : ℕ) (t : Tables)
      → Held id consumer until t
      → Held id consumer until (prune consumers ids cutoff t).0
  unfolding prune delete_events
  prune-Held consumers ids cutoff t (known, there, (row, found, unfinished, end)) =
      let spared : contains (doomed consumers ids cutoff t) id ≡ false =
        elim (Bool-cases (contains (doomed consumers ids cutoff t) id)) [
          | inr not_doomed ↦ not_doomed
          | inl gone ↦
              absurd (contradiction (contains_elim (doomed consumers ids cutoff t) id gone))
        ] in
      (known, rw spared there, (row, rw spared found, unfinished, end))
    where
      contradiction : Memᴰ id (doomed consumers ids cutoff t) → ⊥
      contradiction m =
          let (locked, alive) = keep_elim (λ i. not (has_dead consumers t i)) _ m in
          let (old, test) =
            keep_elim (λ i. contains ids i && processed_before cutoff (t.outbox i))
              (ids_to t.last_id) locked in
          ground (arith, unprocessed_kept cutoff (t.outbox id))

  delete_letters-Held :
      (consumers : List String) (ids : List ℕ) (cutoff : ℕ) (t : Tables)
      → Held id consumer until t
      → Held id consumer until (delete_letters consumers ids cutoff t)
  unfolding delete_letters
  delete_letters-Held consumers ids cutoff t (known, there, (row, found, unfinished, end)) =
      let alive : dead_before cutoff (t.rows id consumer) ≡ false = ground arith in
      (known, there, (row, ground arith, unfinished, end))

  Elsewhere-Held :
      {t u : Tables}
      → Elsewhere id consumer until t u
      → Held id consumer until t
      → Held id consumer until u
  Elsewhere-Held (publishes name envelope t) held = publish-Held name envelope t held
  Elsewhere-Held (leases c wanted now end t early) held =
      (lease-Held id consumer until c wanted now end t early held).0
  Elsewhere-Held (finishes at c row siblings t apart among) held =
      finish-Held at c row siblings t apart (inr among) held
  Elsewhere-Held (finishes_other at c row siblings t other) held =
      finish-Held at c row siblings t (ground arith) (inl other) held
  Elsewhere-Held (retries clock at c t) held = retry-Held clock at c t held
  Elsewhere-Held (prunes consumers ids cutoff t) held = prune-Held consumers ids cutoff t held
  Elsewhere-Held (expires consumers ids cutoff t) held =
      delete_letters-Held consumers ids cutoff t held

  Meanwhile-Held :
      {t u : Tables}
      → Held id consumer until t
      → Meanwhile id consumer until t u
      → Held id consumer until u
  Meanwhile-Held held nothing = held
  Meanwhile-Held held (and_then before last) = Elsewhere-Held last (Meanwhile-Held held before)

-- An event that a consumer has leased is leased to no other worker of that consumer before the lease
-- ends: whatever events are published, leased, retried or deleted meanwhile, and whatever other
-- consumers finish, by clocks that are not past the end, until the holder itself records its outcome.
pub lease_exclusive :
    (consumer : String) (wanted wanted' : List ℕ) (now until now' until' : ℕ) (t u : Tables)
    (ev ev' : ClaimedEvent)
    → Memᴰ ev (lease consumer wanted now until t).1
    → Meanwhile ev.id consumer until (lease consumer wanted now until t).0 u
    → now' < until
    → Memᴰ ev' (lease consumer wanted' now' until' u).1
    → nat_beq ev.id ev'.id ≡ false
lease_exclusive consumer wanted wanted' now until now' until' t u ev ev' claimed between early
      again =
    let held = claimed-Held ev.id consumer until wanted now t ev refl claimed in
    let still = Meanwhile-Held ev.id consumer until held between in
    (lease-Held ev.id consumer until consumer wanted' now' until' u early still).1 ev' again
      (==_refl consumer)
