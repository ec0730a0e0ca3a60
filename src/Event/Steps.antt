-- ===== src/Event/Steps.antt =====
-- The queue as a state machine: the transactions of event/ that change the tables, by whichever process.
pub mod Exclusive
pub mod Settled
pub mod Delivery
pub mod Stranded
use go_core.Prelude.{
  ℕ, ◌<◌, ◌≡◌, String, string_eq, Bool, true, false, ◌&&◌, ◌||◌, List, Option, none, some, nat_beq,
  ◌==◌, contains,
}
use go_core.Event.Tables.{Envelope, OutboxEvent, AttemptRow, Tables, finished_row, is_dead, publish}
use go_core.Event.Queue.{lease, finish}
use go_core.Event.DeadLetters.{retry}
use go_core.Event.Housekeeping.{prune, delete_letters}

-- A row that is there and neither done nor dead: the event is leased to the consumer, or waits for it.
abbrev pub waiting : Option AttemptRow → Bool
waiting none = false
waiting (some row) = elim (finished_row row) [ true ↦ false | false ↦ true ]

-- The queue of an application: the consumers of an event by its name, and the names of all consumers.
pub record Application : Type 0 where
  pub siblings_of : String → List String
  pub consumers : List String

-- One transaction. `finish` is run by a consumer whose row still waits: nobody finished the event for it
-- since it was claimed.
pub data Step (app : Application) : Tables → Tables → Type 0 where
  publishes :
      (name : String) (envelope : Option Envelope) (t : Tables)
      → Step app t (publish name envelope t)
  leases :
      (c : String) (wanted : List ℕ) (now until : ℕ) (t : Tables)
      → Step app t (lease c wanted now until t).0
  finishes :
      (id : ℕ) (c : String) (row : AttemptRow) (event : OutboxEvent) (t : Tables)
      → t.outbox id ≡ some event
      → waiting (t.rows id c) ≡ true
      → Step app t (finish id c row (app.siblings_of event.event_type) t)
  retries : (clock id : ℕ) (c : String) (t : Tables) → Step app t (retry clock id c t).0
  prunes :
      (ids : List ℕ) (cutoff : ℕ) (t : Tables) → Step app t (prune app.consumers ids cutoff t).0
  expires :
      (ids : List ℕ) (cutoff : ℕ) (t : Tables)
      → Step app t (delete_letters app.consumers ids cutoff t)

abbrev pub no_tables : Tables
no_tables = record { last_id = 0; outbox = λ _. none; rows = λ _ _. none }

pub data Reach (app : Application) : Tables → Type 0 where
  start : Reach app no_tables
  later : {t u : Tables} → Reach app t → Step app t u → Reach app u

-- A transaction that deletes the dead letter of the event for the consumer, as too old.
abbrev pub deletes_letter : {app : Application} {t u : Tables} → Step app t u → ℕ → String → Bool
deletes_letter {app} (expires ids cutoff t) id c =
    is_dead (t.rows id c)
    && elim ((delete_letters app.consumers ids cutoff t).rows id c) [ none ↦ true | some _ ↦ false ]
deletes_letter (publishes name envelope t) id c = false
deletes_letter (leases d wanted now until t) id c = false
deletes_letter (finishes i d row event t there waits) id c = false
deletes_letter (retries clock i d t) id c = false
deletes_letter (prunes ids cutoff t) id c = false

-- Some transaction of the run deleted that dead letter.
abbrev pub letter_expired : {app : Application} {t : Tables} → Reach app t → ℕ → String → Bool
letter_expired start id c = false
letter_expired (later before step) id c = deletes_letter step id c || letter_expired before id c

-- What others may do while a consumer holds an event until `until`: anything but finishing the event for
-- that consumer; their clocks are not past the end, and they know the consumer when they finish the event
-- for another.
pub data Elsewhere (id : ℕ) (consumer : String) (until : ℕ) : Tables → Tables → Type 0 where
  publishes :
      (name : String) (envelope : Option Envelope) (t : Tables)
      → Elsewhere id consumer until t (publish name envelope t)
  leases :
      (c : String) (wanted : List ℕ) (now end : ℕ) (t : Tables)
      → now < until
      → Elsewhere id consumer until t (lease c wanted now end t).0
  finishes :
      (at : ℕ) (c : String) (row : AttemptRow) (siblings : List String) (t : Tables)
      → (nat_beq id at && (consumer == c)) ≡ false
      → contains siblings consumer ≡ true
      → Elsewhere id consumer until t (finish at c row siblings t)
  finishes_other :
      (at : ℕ) (c : String) (row : AttemptRow) (siblings : List String) (t : Tables)
      → nat_beq id at ≡ false
      → Elsewhere id consumer until t (finish at c row siblings t)
  retries :
      (clock at : ℕ) (c : String) (t : Tables)
      → Elsewhere id consumer until t (retry clock at c t).0
  prunes :
      (consumers : List String) (ids : List ℕ) (cutoff : ℕ) (t : Tables)
      → Elsewhere id consumer until t (prune consumers ids cutoff t).0
  expires :
      (consumers : List String) (ids : List ℕ) (cutoff : ℕ) (t : Tables)
      → Elsewhere id consumer until t (delete_letters consumers ids cutoff t)

pub data Meanwhile (id : ℕ) (consumer : String) (until : ℕ) (t : Tables) : Tables → Type 0 where
  nothing : Meanwhile id consumer until t t
  and_then :
      {u v : Tables}
      → Meanwhile id consumer until t u
      → Elsewhere id consumer until u v
      → Meanwhile id consumer until t v
