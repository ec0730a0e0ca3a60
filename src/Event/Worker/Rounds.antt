-- ===== src/Event/Worker/Rounds.antt =====
-- A handler that always fails: how often the event is handed to it, and where it ends.

use go_core.Prelude.{
  ℕ, suc, ◌+◌, ◌≤◌, ◌<◌, string_eq, nat_eq, ◌≡◌, refl, ◌∙◌, ap, inl, inr, true, false, List, [],
  ◌∷◌, Option, none, some, Memᴰ, ltb, leb, nat_beq_iff, if◌then◌else◌, ◌==◌, ==_refl, arith,
  Bool-cases, length,
}
use go_core.Event.Tables.{
  Envelope, OutboxEvent, AttemptRow, Tables, is_set, is_dead, finished, whole,
}
use go_core.Event.Queue.{
  ClaimedEvent, claimed_event, claim_due, write_leases, locked, lease, finish,
}
use go_core.Event.Queue.Leasing.{due_from, claim_due_intro, locked_intro}
use go_core.Event.Queue.Writing.{write_leases-outbox, write_leases-last_id}
use go_core.Event.Queue.Outcomes.{finish-rows, finish-last_id, finish-outbox_lem}
use go_core.Event.Worker.{
  Consumer, HandleError, recovered, itoa, handle, siblings, run, outcome_row, claim_lease,
}
use go_core.Event.Worker.Delivering.{
  failures, calm, handle_first, deliver, deliver_all, claims, idle, Dead, all_later-Dead,
}

module _ {W : Type 0} (consumers : List (Consumer W)) (c : Consumer W) (id : ℕ)
    (event : OutboxEvent) (env : Envelope) (error : W → HandleError)
    (readable : event.envelope ≡ some env) (current : (env.version == itoa c.version) ≡ true)
    (fails : (w : W) → recovered (c.handle id env.payload w).0 ≡ some (error w))
    (retriable : (w : W) → (error w).malformed ≡ false) where
  -- The event waits for the consumer after k failures.
  abbrev Waits : ℕ → Tables → Type 0
  Waits k t =
      (0 < id)
      × (id ≤ t.last_id)
      × (t.outbox id ≡ some event)
      × (is_set event.processed_at ≡ false)
      × (finished (t.rows id c.name) ≡ false)
      × (failures (t.rows id c.name) ≡ k)

  abbrev outcome : ℕ → ℕ → W → AttemptRow
  outcome k clock w = outcome_row c.retry k (whole clock) (some (error w))

  abbrev world : W → W
  world w = (c.handle id env.payload w).1

  handle_fails :
      (row : Option AttemptRow) (w : W)
      → handle c (claimed_event id event row) w ≡ (some (error w), world w)
  unfolding handle
  handle_fails none w = ground (arith, fails w)
  handle_fails (some row) w = ground (arith, fails w)

  run_fails :
      (row : Option AttemptRow) (clock : ℕ) (t : Tables) (w : W)
      → (run consumers c (calm clock) (claimed_event id event row) (t, w)).0 ≡ (
        finish id c.name (outcome (failures row) clock w) (siblings c.event consumers) t,
        world w,
      )
  unfolding run
  run_fails none clock t w = rw (run, handle_fails none w) refl
  run_fails (some row) clock t w = rw (run, handle_fails (some row) w) refl

  handle_first_fails :
      (row : Option AttemptRow) (clock : ℕ) (t : Tables) (w : W) (claimed : List ClaimedEvent)
      → Memᴰ (claimed_event id event row) claimed
      → ((ev : ClaimedEvent) → Memᴰ ev claimed → ev ≡ claimed_event id event row)
      → handle_first consumers c id clock claimed (t, w) ≡ (
        finish id c.name (outcome (failures row) clock w) (siblings c.event consumers) t,
        world w,
      )
  handle_first_fails row clock t w [] m alike = elim m [ ]
  handle_first_fails row clock t w (ev ∷ evs) m alike =
      ap (λ e. (run consumers c (calm clock) e (t, w)).0) (alike ev (Memᴰ.head refl))
      ∙ run_fails row clock t w

  -- The delivery of a waiting event: the lease claims it and the worker records the failure.
  deliver_waiting :
      (k wait clock : ℕ) (t : Tables) (w : W)
      → Waits k t
      → (t' : Tables) × (t'.last_id ≡ t.last_id)
        × (t'.outbox ≡ t.outbox)
        × (deliver consumers c id (wait, clock) (t, w)
            ≡ (finish id c.name (outcome k clock w) (siblings c.event consumers) t', world w))
  unfolding deliver lease
  deliver_waiting k wait clock t w (above, below, there, pending, unfinished, counted) =
      let row = t.rows id c.name in
      let now = due_from row + wait in
      let claimed = claim_due c.name now t (locked (id ∷ []) t) in
      let m =
        claim_due_intro c.name now t (locked (id ∷ []) t) {id = id} {event = event}
          (locked_intro (id ∷ []) t above below (ground (arith, nat_beq_iff id id)) (ground arith))
          there (idle consumers c id row wait unfinished) in
      (
        write_leases c.name now (now + claim_lease) claimed t,
        write_leases-last_id c.name now (now + claim_lease) claimed t,
        write_leases-outbox c.name now (now + claim_lease) claimed t,
        handle_first_fails row clock (write_leases c.name now (now + claim_lease) claimed t) w
              claimed m (λ ev n. (claims consumers c id event now (now + claim_lease) t there n).0)
            ∙ ap
                (λ n. (
                  finish id c.name (outcome n clock w) (siblings c.event consumers)
                      (write_leases c.name now (now + claim_lease) claimed t),
                  world w,
                ))
                counted,
      )

  -- Below the limit, one delivery more leaves the event waiting, with one failure more.
  deliver-Waits :
      (k wait clock : ℕ) (t : Tables) (w : W)
      → suc k < c.retry.attempts
      → Waits k t
      → Waits (suc k) (deliver consumers c id (wait, clock) (t, w)).0
  deliver-Waits k wait clock t w more waits =
      let (t', ids, events, result) = deliver_waiting k wait clock t w waits in
      let (above, below, there, pending, unfinished, counted) = waits in
      let done = ap (λ s. s.0) result in
      let rows =
        finish-rows id c.name (outcome k clock w) (siblings c.event consumers) t' id c.name in
      let here =
        finish-outbox_lem id c.name (outcome k clock w) (siblings c.event consumers) t'
          {event = event} (ap (λ f. f id) events ∙ there) in
      rw result (
        above,
        rw (finish-last_id id c.name (outcome k clock w) (siblings c.event consumers) t', ids)
            below,
        ground (arith, here, retriable w),
        pending,
        ground (arith, rows, retriable w, nat_beq_iff id id, ==_refl c.name),
        ground (arith, rows, retriable w, nat_beq_iff id id, ==_refl c.name),
      )

  -- At the limit it leaves a dead letter.
  deliver-Dead :
      (k wait clock : ℕ) (t : Tables) (w : W)
      → c.retry.attempts ≤ suc k
      → Waits k t
      → Dead consumers c id (suc k) (deliver consumers c id (wait, clock) (t, w)).0
  deliver-Dead k wait clock t w limit waits =
      let (t', ids, events, result) = deliver_waiting k wait clock t w waits in
      let rows =
        finish-rows id c.name (outcome k clock w) (siblings c.event consumers) t' id c.name in
      rw result (
        ground (arith, rows, retriable w, nat_beq_iff id id, ==_refl c.name),
        ground (arith, rows, retriable w, nat_beq_iff id id, ==_refl c.name),
      )

  abbrev Ends : ℕ → ℕ → Tables → Type 0
  Ends k n t =
      (is_dead (t.rows id c.name) ≡ leb c.retry.attempts (k + n))
      × (failures (t.rows id c.name)
          ≡ (if leb c.retry.attempts (k + n) then c.retry.attempts else k + n))

  from_waiting :
      (moments : List (ℕ × ℕ)) (k : ℕ) (t : Tables) (w : W)
      → k < c.retry.attempts
      → Waits k t
      → Ends k (length moments) (deliver_all consumers c id moments (t, w)).0
  unfolding deliver_all
  from_waiting [] k t w below (above, given, there, pending, unfinished, counted) =
      (ground (arith, alive (t.rows id c.name) unfinished), ground arith)
    where
      alive : (row : Option AttemptRow) → finished row ≡ false → is_dead row ≡ false
      alive none h = refl
      alive (some row) h = ground arith
  from_waiting ((wait, clock) ∷ moments) k t w below waits =
      elim (Bool-cases (ltb (suc k) c.retry.attempts)) [
        | inl more ↦
            let (dead, counted) =
              from_waiting moments (suc k) (deliver consumers c id (wait, clock) (t, w)).0
                (deliver consumers c id (wait, clock) (t, w)).1 (ground arith)
                (deliver-Waits k wait clock t w (ground arith) waits) in
            (ground arith, ground arith)
        | inr last ↦
            let (dead, counted) =
              all_later-Dead consumers c id moments (suc k)
                (deliver consumers c id (wait, clock) (t, w)).0
                (deliver consumers c id (wait, clock) (t, w)).1
                (deliver-Dead k wait clock t w (ground arith) waits) in
            (ground arith, ground arith)
      ]

  -- A handler that fails every time, on an event that can be read, is handed the event as often as the
  -- consumer's policy says and no more: after n deliveries, each at any time from when the row lets the
  -- event be claimed, the row counts n failures, but never more than the policy's attempts, and it is a
  -- dead letter exactly when n reaches them. The event is unprocessed and new to the consumer at first.
  pub deliver_all-failures :
      (moments : List (ℕ × ℕ)) (t : Tables) (w : W)
      → 0 < c.retry.attempts
      → 0 < id
      → id ≤ t.last_id
      → t.outbox id ≡ some event
      → is_set event.processed_at ≡ false
      → t.rows id c.name ≡ none
      → (is_dead ((deliver_all consumers c id moments (t, w)).0.rows id c.name)
          ≡ leb c.retry.attempts (length moments))
        × (failures ((deliver_all consumers c id moments (t, w)).0.rows id c.name)
            ≡ (if leb c.retry.attempts (length moments) then c.retry.attempts else length moments))
  deliver_all-failures moments t w positive above below there pending fresh =
      let (dead, counted) =
        from_waiting moments 0 t w positive
          (above, below, there, pending, ground arith, ground arith) in
      (ground arith, ground arith)
