-- ===== src/Event/Queue/Writing.antt =====
-- What the upsert of lease in event/queue.go leaves in the tables.
use go_core.Prelude.{
  ℕ, String, string_eq, nat_eq, ◌≡◌, refl, ◌⊎◌, inl, inr, false, ◌&&◌, List, [], ◌∷◌, Option, some,
  Memᴰ, mem_cases, nat_beq, nat_beq_iff, if◌then◌else◌, ◌==◌, ==_refl, arith, Bool-cases,
}
use go_core.Event.Tables.{AttemptRow, Tables, write_row, finished_row, finished}
use go_core.Event.Queue.{ClaimedEvent, leased_row, write_leases}

write_row_rows :
    (id at : ℕ) (consumer c : String) (row : Option AttemptRow) (t : Tables)
    → (write_row id consumer row t).rows at c
      ≡ (if nat_beq at id && (c == consumer) then row else t.rows at c)
unfolding write_row
write_row_rows id at consumer c row t = refl

pub write_leases-outbox :
    (consumer : String) (now until : ℕ) (evs : List ClaimedEvent) (t : Tables)
    → (write_leases consumer now until evs t).outbox ≡ t.outbox
unfolding write_leases write_row
write_leases-outbox consumer now until [] t = refl
write_leases-outbox consumer now until (ev ∷ evs) t = write_leases-outbox consumer now until evs _

pub write_leases-last_id :
    (consumer : String) (now until : ℕ) (evs : List ClaimedEvent) (t : Tables)
    → (write_leases consumer now until evs t).last_id ≡ t.last_id
unfolding write_leases write_row
write_leases-last_id consumer now until [] t = refl
write_leases-last_id consumer now until (ev ∷ evs) t = write_leases-last_id consumer now until evs _

-- The leases change no row of another consumer, and none of an event that is not claimed.
pub write_leases_other :
    (consumer : String) (now until : ℕ) (evs : List ClaimedEvent) (t : Tables) (id : ℕ) (c : String)
    → ((c == consumer) ≡ false) ⊎ ((ev : ClaimedEvent) → Memᴰ ev evs → nat_beq id ev.id ≡ false)
    → (write_leases consumer now until evs t).rows id c ≡ t.rows id c
unfolding write_leases
write_leases_other consumer now until [] t id c apart = refl
write_leases_other consumer now until (ev ∷ evs) t id c (inl other) = ground (
  arith,
  write_leases_other consumer now until evs
      (write_row ev.id consumer (some (leased_row ev now until (t.rows ev.id consumer))) t) id c
      (inl other),
  write_row_rows ev.id id consumer c (some (leased_row ev now until (t.rows ev.id consumer))) t,
)
write_leases_other consumer now until (ev ∷ evs) t id c (inr apart) = ground (
  arith,
  write_leases_other consumer now until evs
      (write_row ev.id consumer (some (leased_row ev now until (t.rows ev.id consumer))) t) id c
      (inr (λ e m. apart e (Memᴰ.tail m))),
  write_row_rows ev.id id consumer c (some (leased_row ev now until (t.rows ev.id consumer))) t,
  apart ev (Memᴰ.head refl),
)

module _ (consumer : String) (now until : ℕ) where
  -- The consumer's row of the event is leased until `until`.
  abbrev pub LeasedRow : ℕ → Tables → Type 0
  LeasedRow id t =
      (row : AttemptRow) × (t.rows id consumer ≡ some row)
      × (finished_row row ≡ false)
      × (row.next_attempt_at ≡ until)

  abbrev one : ClaimedEvent → Tables → Tables
  one ev t = write_row ev.id consumer (some (leased_row ev now until (t.rows ev.id consumer))) t

  one_unfinished :
      (ev : ClaimedEvent) (t : Tables) (id : ℕ)
      → finished (t.rows id consumer) ≡ false
      → finished ((one ev t).rows id consumer) ≡ false
  unfolding write_row
  one_unfinished ev t id unfinished = ground (arith, nat_beq_iff id ev.id)

  one-LeasedRow :
      (ev : ClaimedEvent) (t : Tables)
      → finished (t.rows ev.id consumer) ≡ false
      → LeasedRow ev.id (one ev t)
  unfolding write_row
  one-LeasedRow ev t unfinished = (
    leased_row ev now until (t.rows ev.id consumer),
    ground (arith, ==_refl consumer),
    ground arith,
    ground arith,
  )

  one_keeps : (ev : ClaimedEvent) (t : Tables) (id : ℕ) → LeasedRow id t → LeasedRow id (one ev t)
  one_keeps ev t id (row, found, unfinished, end) = elim (Bool-cases (nat_beq id ev.id)) [
    | inl same ↦ (
      leased_row ev now until (t.rows ev.id consumer),
      ground (
        arith,
        write_row_rows ev.id id consumer consumer
            (some (leased_row ev now until (t.rows ev.id consumer))) t,
        ==_refl consumer,
      ),
      ground (arith, nat_beq_iff id ev.id),
      ground arith,
    )
    | inr other ↦ (
      row,
      ground (
        arith,
        write_row_rows ev.id id consumer consumer
            (some (leased_row ev now until (t.rows ev.id consumer))) t,
      ),
      unfinished,
      end,
    )
  ]

  leases_keep :
      (evs : List ClaimedEvent) (t : Tables) (id : ℕ)
      → LeasedRow id t
      → LeasedRow id (write_leases consumer now until evs t)
  unfolding write_leases
  leases_keep [] t id leased = leased
  leases_keep (ev ∷ evs) t id leased = leases_keep evs (one ev t) id (one_keeps ev t id leased)

  pub write_leases-LeasedRow :
      (evs : List ClaimedEvent) (t : Tables) {ev : ClaimedEvent}
      → ((e : ClaimedEvent) → Memᴰ e evs → finished (t.rows e.id consumer) ≡ false)
      → Memᴰ ev evs
      → LeasedRow ev.id (write_leases consumer now until evs t)
  unfolding write_leases
  write_leases-LeasedRow [] t unfinished m = elim m [ ]
  write_leases-LeasedRow (e ∷ evs) t {ev} unfinished m = elim (mem_cases m) [
    | inl here ↦
        leases_keep evs (one e t) ev.id
          (rw here (one-LeasedRow e t (unfinished e (Memᴰ.head refl))))
    | inr later ↦
        write_leases-LeasedRow evs (one e t) {ev = ev}
          (λ x n. one_unfinished e t x.id (unfinished x (Memᴰ.tail n))) later
  ]
