-- ===== src/Event/Queue/Leasing.antt =====
-- What a lease of event/queue.go's queue promises to its holder.
use go_core.Prelude.{
  ℕ, ◌≤◌, ◌<◌, String, string_eq, nat_eq, ◌≡◌, refl, sym, inl, inr, true, false, ◌&&◌, List, [],
  ◌∷◌, Option, none, some, Memᴰ, mem_cases, mem_of_eq, ap, ◌∙◌, contains, and_right,
  Dominance.keep_elim, Dominance.keep_intro, nat_beq, nat_beq_iff, ◌==◌, ==-eq, ==_refl, arith,
  Bool-cases, Option-cases,
}
use go_core.Event.Tables.{
  OutboxEvent, AttemptRow, Tables, finished_row, finished, unprocessed, ids_to,
}
use go_core.Event.Tables.Ids.{ids_to_elim, ids_to_intro}
use go_core.Event.Queue.{ClaimedEvent, taken, claimed_event, claim_due, write_leases, locked, lease}
use go_core.Event.Queue.Writing.{
  write_leases-outbox, write_leases-last_id, write_leases_other, write_leases-LeasedRow,
}

-- When a consumer's row of an event lets it be claimed.
abbrev pub due_from : Option AttemptRow → ℕ
due_from none = 0
due_from (some row) = row.next_attempt_at

-- What the loop of lease takes: an event that is there, with a row that is not taken.
pub claim_due_elim :
    (consumer : String) (now : ℕ) (t : Tables) (ids : List ℕ) {ev : ClaimedEvent}
    → Memᴰ ev (claim_due consumer now t ids)
    → Memᴰ ev.id ids
      × (taken now (t.rows ev.id consumer) ≡ false)
      × ((event : OutboxEvent) × (t.outbox ev.id ≡ some event)
          × (ev ≡ claimed_event ev.id event (t.rows ev.id consumer)))
unfolding claim_due
claim_due_elim consumer now t [] m = elim m [ ]
claim_due_elim consumer now t (id ∷ ids) {ev} m = elim (Option-cases (t.outbox id)) [
  | inl gone ↦
      let (n, free, event) =
        claim_due_elim consumer now t ids {ev = ev} (mem_of_eq (ground arith) m) in
      (Memᴰ.tail n, free, event)
  | inr (event, there) ↦ elim (Bool-cases (taken now (t.rows id consumer))) [
    | inl busy ↦
        let (n, free, event) =
          claim_due_elim consumer now t ids {ev = ev} (mem_of_eq (ground arith) m) in
        (Memᴰ.tail n, free, event)
    | inr free ↦
        let grown : claim_due consumer now t (id ∷ ids)
            ≡ claimed_event id event (t.rows id consumer) ∷ claim_due consumer now t ids =
          ground arith in
        elim (mem_cases (mem_of_eq grown m)) [
          | inr later ↦
              let (n, free, event) = claim_due_elim consumer now t ids {ev = ev} later in
              (Memᴰ.tail n, free, event)
          | inl same ↦
              let its : ev.id ≡ id =
                ap (λ x. x.id) same ∙ claimed_id id event (t.rows id consumer) in
              (
                Memᴰ.head its,
                ground (arith, its),
                (
                  event,
                  ap t.outbox its ∙ there,
                  same
                      ∙ ap (claimed_event id event) (ap (λ x. t.rows x consumer) (sym its))
                      ∙ ap (λ x. claimed_event x event (t.rows ev.id consumer)) (sym its),
                ),
              )
        ]
  ]
]
  where
    claimed_id :
        (id : ℕ) (event : OutboxEvent) (row : Option AttemptRow)
        → (claimed_event id event row).id ≡ id
    claimed_id id event none = refl
    claimed_id id event (some row) = refl

pub claim_due_intro :
    (consumer : String) (now : ℕ) (t : Tables) (ids : List ℕ) {id : ℕ} {event : OutboxEvent}
    → Memᴰ id ids
    → t.outbox id ≡ some event
    → taken now (t.rows id consumer) ≡ false
    → Memᴰ (claimed_event id event (t.rows id consumer)) (claim_due consumer now t ids)
unfolding claim_due
claim_due_intro consumer now t [] m there free = elim m [ ]
claim_due_intro consumer now t (i ∷ ids) {id} {event} m there free = elim (mem_cases m) [
  | inl here ↦
      let grown : claim_due consumer now t (i ∷ ids)
          ≡ claimed_event id event (t.rows id consumer) ∷ claim_due consumer now t ids =
        ground arith in
      mem_of_eq (sym grown) (Memᴰ.head refl)
  | inr later ↦
      let n = claim_due_intro consumer now t ids {id = id} {event = event} later there free in
      elim (Option-cases (t.outbox i)) [
        | inl gone ↦ mem_of_eq (ground arith) n
        | inr (other, found) ↦ elim (Bool-cases (taken now (t.rows i consumer))) [
          | inl busy ↦ mem_of_eq (ground arith) n
          | inr idle ↦
              mem_of_eq (ground arith) (Memᴰ.tail {x = claimed_event i other (t.rows i consumer)} n)
        ]
      ]
]

-- What lease locks is there and unprocessed.
pub locked_elim :
    (wanted : List ℕ) (t : Tables) {id : ℕ}
    → Memᴰ id (locked wanted t)
    → (id ≤ t.last_id) × (unprocessed (t.outbox id) ≡ true)
locked_elim wanted t {id} m =
    let (n, test) =
      keep_elim (λ i. contains wanted i && unprocessed (t.outbox i)) (ids_to t.last_id) m in
    (ids_to_elim t.last_id n, and_right (contains wanted id) _ test)

pub locked_intro :
    (wanted : List ℕ) (t : Tables) {id : ℕ}
    → 0 < id
    → id ≤ t.last_id
    → contains wanted id ≡ true
    → unprocessed (t.outbox id) ≡ true
    → Memᴰ id (locked wanted t)
locked_intro wanted t {id} above below named there =
    keep_intro (λ i. contains wanted i && unprocessed (t.outbox i)) (ids_to t.last_id)
      (ids_to_intro t.last_id id above below) (ground arith)

taken_unfinished :
    (now : ℕ) (row : Option AttemptRow) → taken now row ≡ false → finished row ≡ false
taken_unfinished now none free = refl
taken_unfinished now (some row) free = ground arith

module _ (id : ℕ) (consumer : String) (until : ℕ) where
  -- The consumer holds the event at least until `until`: it is unprocessed, and its row is neither
  -- done nor dead.
  abbrev pub Held : Tables → Type 0
  Held t =
      (id ≤ t.last_id)
      × (unprocessed (t.outbox id) ≡ true)
      × ((row : AttemptRow) × (t.rows id consumer ≡ some row)
          × (finished_row row ≡ false)
          × (until ≤ row.next_attempt_at))

  -- Who claims an event holds it until the end of the lease.
  pub claimed-Held :
      (wanted : List ℕ) (now : ℕ) (t : Tables) (ev : ClaimedEvent)
      → ev.id ≡ id
      → Memᴰ ev (lease consumer wanted now until t).1
      → Held (lease consumer wanted now until t).0
  unfolding lease
  claimed-Held wanted now t ev its m =
      let claimed = claim_due consumer now t (locked wanted t) in
      let unfinished : (e : ClaimedEvent)
          → Memᴰ e claimed
          → finished (t.rows e.id consumer) ≡ false =
        λ e n.
          taken_unfinished now (t.rows e.id consumer)
            (claim_due_elim consumer now t (locked wanted t) n).1 in
      let (row, found, open_row, end) =
        write_leases-LeasedRow consumer now until claimed t unfinished m in
      let (known, there) =
        locked_elim wanted t (claim_due_elim consumer now t (locked wanted t) m).0 in
      let same = write_leases-outbox consumer now until claimed t in
      (
        rw (write_leases-last_id consumer now until claimed t, ← its) known,
        rw (same, ← its) there,
        (row, rw (← its) found, open_row, omega arith),
      )

  -- While the event is held, a lease whose clock is not past the end does not claim it for its consumer,
  -- and leaves it held.
  pub lease-Held :
      (c : String) (wanted : List ℕ) (now end : ℕ) (t : Tables)
      → now < until
      → Held t
      → Held (lease c wanted now end t).0
        × ((ev : ClaimedEvent)
            → Memᴰ ev (lease c wanted now end t).1
            → (c == consumer) ≡ true
            → nat_beq id ev.id ≡ false)
  unfolding lease
  lease-Held c wanted now end t early (known, there, (row, found, unfinished, late)) =
      let claimed = claim_due c now t (locked wanted t) in
      let not_again : (ev : ClaimedEvent)
          → Memᴰ ev claimed
          → (c == consumer) ≡ true
          → nat_beq id ev.id ≡ false =
        λ ev m same.
          again ev (claim_due_elim c now t (locked wanted t) m).1 (==-eq c consumer same) in
      let kept : (write_leases c now end claimed t).rows id consumer ≡ t.rows id consumer =
        elim (Bool-cases (consumer == c)) [
          | inr other ↦ write_leases_other c now end claimed t id consumer (inl other)
          | inl same ↦
              write_leases_other c now end claimed t id consumer
                (inr (λ ev m. not_again ev m (ground (arith, ==-eq consumer c same, ==_refl c))))
        ] in
      (
        (
          rw (write_leases-last_id c now end claimed t) known,
          rw (write_leases-outbox c now end claimed t) there,
          (row, kept ∙ found, unfinished, late),
        ),
        not_again,
      )
    where
      again :
          (ev : ClaimedEvent)
          → taken now (t.rows ev.id c) ≡ false
          → c ≡ consumer
          → nat_beq id ev.id ≡ false
      again ev free same = ground (arith, nat_beq_iff id ev.id, ap (t.rows ev.id) same)
