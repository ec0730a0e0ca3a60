-- ===== src/Event/Worker/Delivering.antt =====
-- One delivery of an event to a consumer, and that a dead letter is not delivered.
use mathlib.Core.Path.{subst}
use go_core.Prelude.{
  ℕ, ◌+◌, string_eq, nat_eq, ◌≡◌, refl, sym, ◌∙◌, ap, inl, inr, true, false, ◌&&◌, List, [], ◌∷◌,
  Option, none, some, Memᴰ, mem_cases, arith, contains, contains_elim, Dominance.keep_elim,
  and_left,
}
use go_core.Event.Tables.{OutboxEvent, AttemptRow, Tables, is_dead, finished, unprocessed, ids_to}
use go_core.Event.Queue.{ClaimedEvent, taken, claimed_event, claim_due, write_leases, locked, lease}
use go_core.Event.Queue.Leasing.{due_from, claim_due_elim}
use go_core.Event.Worker.{Consumer, Turn, run, claim_lease}

-- The failures that the row counts.
abbrev pub failures : Option AttemptRow → ℕ
failures none = 0
failures (some row) = row.attempts

-- A turn in which nothing stops the worker and the outcome is recorded.
abbrev pub calm : ℕ → Turn
calm clock = record { stopping = false; stopped = false; clock = clock; recorded = true }

module _ {W : Type 0} (consumers : List (Consumer W)) (c : Consumer W) (id : ℕ) where
  -- The worker handles the event if the lease claimed it.
  abbrev pub handle_first : ℕ → List ClaimedEvent → Tables × W → Tables × W
  handle_first clock [] state = state
  handle_first clock (ev ∷ evs) state = (run consumers c (calm clock) ev state).0

  -- One delivery: a lease of the event, `wait` after the row lets it be claimed, and the worker's run on
  -- what it claimed, whose outcome is recorded at `clock`.
  unfoldable pub deliver : ℕ × ℕ → Tables × W → Tables × W
  deliver (wait, clock) (t, w) =
      let now = due_from (t.rows id c.name) + wait in
      let (t', claimed) = lease c.name (id ∷ []) now (now + claim_lease) t in
      handle_first clock claimed (t', w)

  unfoldable pub deliver_all : List (ℕ × ℕ) → Tables × W → Tables × W
  unfolding deliver
  deliver_all [] state = state
  deliver_all (moment ∷ moments) state = deliver_all moments (deliver moment state)

  -- What the lease claims is the event, as it stands.
  pub claims :
      (event : OutboxEvent)
      → (now until : ℕ) (t : Tables) {ev : ClaimedEvent} → t.outbox id ≡ some event
      → Memᴰ ev (lease c.name (id ∷ []) now until t).1
      → (ev ≡ claimed_event id event (t.rows id c.name)) × (taken now (t.rows id c.name) ≡ false)
  unfolding lease
  claims event now until t {ev} there m =
      let (n, free, (other, found, same)) = claim_due_elim c.name now t (locked (id ∷ []) t) m in
      let (in_ids, test) =
        keep_elim (λ i. contains (id ∷ []) i && unprocessed (t.outbox i)) (ids_to t.last_id) n in
      let its : ev.id ≡ id =
        only ev.id (contains_elim (id ∷ []) ev.id (and_left (contains (id ∷ []) ev.id) _ test)) in
      let event_same : other ≡ event = some_eq (sym found ∙ ap t.outbox its ∙ there) in
      (
        same
            ∙ ap (λ i. claimed_event i other (t.rows i c.name)) its
            ∙ ap (λ o. claimed_event id o (t.rows id c.name)) event_same,
        ap (λ i. taken now (t.rows i c.name)) (sym its) ∙ free,
      )
    where
      only : (i : ℕ) → Memᴰ i (id ∷ []) → i ≡ id
      only i m = elim (mem_cases m) [ inl here ↦ here | inr past ↦ elim past [ ] ]

      some_eq : {a b : OutboxEvent} → ◌≡◌ {A = Option OutboxEvent} (some a) (some b) → a ≡ b
      some_eq h = cc

  pub idle :
      (row : Option AttemptRow) (wait : ℕ)
      → finished row ≡ false
      → taken (due_from row + wait) row ≡ false
  idle none wait unfinished = refl
  idle (some row) wait unfinished = ground arith

  abbrev pub Dead : ℕ → Tables → Type 0
  Dead k t = (is_dead (t.rows id c.name) ≡ true) × (failures (t.rows id c.name) ≡ k)

  none_claimed :
      (now : ℕ) (t : Tables)
      → is_dead (t.rows id c.name) ≡ true
      → claim_due c.name now t (locked (id ∷ []) t) ≡ []
  none_claimed now t dead =
      empty (claim_due c.name now t (locked (id ∷ []) t)) (λ ev m. impossible ev m)
    where
      empty : (evs : List ClaimedEvent) → ((ev : ClaimedEvent) → Memᴰ ev evs → ⊥) → evs ≡ []
      empty [] nobody = refl
      empty (ev ∷ evs) nobody = absurd (nobody ev (Memᴰ.head refl))

      dead_taken : (row : Option AttemptRow) → is_dead row ≡ true → taken now row ≡ true
      dead_taken none h = absurd (ground arith)
      dead_taken (some row) h = ground arith

      only : (i : ℕ) → Memᴰ i (id ∷ []) → i ≡ id
      only i m = elim (mem_cases m) [ inl here ↦ here | inr past ↦ elim past [ ] ]

      impossible : (ev : ClaimedEvent) → Memᴰ ev (claim_due c.name now t (locked (id ∷ []) t)) → ⊥
      impossible ev m =
          let (n, free, others) = claim_due_elim c.name now t (locked (id ∷ []) t) m in
          let (in_ids, test) =
            keep_elim (λ i. contains (id ∷ []) i && unprocessed (t.outbox i)) (ids_to t.last_id)
              n in
          let its =
            only ev.id
              (contains_elim (id ∷ []) ev.id (and_left (contains (id ∷ []) ev.id) _ test)) in
          ground
            (arith, dead_taken (t.rows id c.name) dead, ap (λ i. taken now (t.rows i c.name)) its)

  -- A dead letter is not delivered again.
  deliver_dead :
      (wait clock : ℕ) (t : Tables) (w : W)
      → is_dead (t.rows id c.name) ≡ true
      → deliver (wait, clock) (t, w) ≡ (t, w)
  unfolding deliver lease write_leases
  deliver_dead wait clock t w dead =
      let now = due_from (t.rows id c.name) + wait in
      ap
        (λ claimed.
          handle_first clock claimed (write_leases c.name now (now + claim_lease) claimed t, w))
        (none_claimed now t dead)

  pub all_later-Dead :
      (moments : List (ℕ × ℕ)) (k : ℕ) (t : Tables) (w : W)
      → Dead k t
      → Dead k (deliver_all moments (t, w)).0
  unfolding deliver_all
  all_later-Dead [] k t w dead = dead
  all_later-Dead ((wait, clock) ∷ moments) k t w dead =
      subst (λ s. Dead k (deliver_all moments s).0) (sym (deliver_dead wait clock t w dead.0))
        (all_later-Dead moments k t w dead)
