-- ===== src/Event/Housekeeping/Batches.antt =====
-- The batch of events that one round of the sweep reads, and what prune deletes of it.

use go_core.Prelude.{
  ℕ, ◌≤◌, String, string_eq, nat_eq, ◌≡◌, sym, ◌∙◌, inl, inr, Bool, true, ◌&&◌, not, List, Memᴰ,
  leb, arith, Bool-cases, keep, take, contains, contains_elim, contains_intro, Dominance.keep_elim,
  Dominance.keep_intro,
}
use go_core.Event.Tables.{Tables, ids_to}
use go_core.Event.Tables.Ids.{ids_to_elim, ids_to_intro}
use go_core.Event.Tables.Ascending.{last_of, ids_to-Ascends, keep-Ascends, mem_take, in_batch}
use go_core.Event.Housekeeping.{processed_before, has_dead, doomed, prune_batch, prunable}

module _ (consumers : List String) (cutoff : ℕ) where
  -- The sweep from `after` deletes the event: it is known, was processed before the cutoff and has no
  -- dead letter.
  abbrev pub swept : ℕ → Tables → ℕ → Bool
  swept after t id = leb id t.last_id && prunable consumers after cutoff t id

  abbrev pub picked : ℕ → Tables → List ℕ
  picked after t = take prune_batch (keep (prunable consumers after cutoff t) (ids_to t.last_id))

  pub picked-swept :
      (after : ℕ) (t : Tables) {id : ℕ} → Memᴰ id (picked after t) → swept after t id ≡ true
  picked-swept after t {id} m =
      let (n, test) =
        keep_elim (prunable consumers after cutoff t) (ids_to t.last_id)
          (mem_take prune_batch _ m) in
      ground (arith, ids_to_elim t.last_id n)

  pub swept_picked :
      (after : ℕ) (t : Tables) (id : ℕ)
      → swept after t id ≡ true
      → id ≤ last_of 0 (picked after t)
      → Memᴰ id (picked after t)
  swept_picked after t id sweeps le =
      let test : prunable consumers after cutoff t id ≡ true = ground arith in
      let m =
        keep_intro (prunable consumers after cutoff t) (ids_to t.last_id)
          (ids_to_intro t.last_id id (ground arith) (ground arith)) test in
      in_batch prune_batch 0 _
        (keep-Ascends (prunable consumers after cutoff t) 0 (ids_to t.last_id)
          (ids_to-Ascends t.last_id))
        m le

  -- prune deletes just the events of the batch that Sweep read.
  pub doomed-picked :
      (after : ℕ) (t : Tables) (id : ℕ)
      → contains (doomed consumers (picked after t) cutoff t) id ≡ contains (picked after t) id
  doomed-picked after t id = elim (Bool-cases (contains (picked after t) id)) [
    | inr spared ↦ elim (Bool-cases (contains (doomed consumers (picked after t) cutoff t) id)) [
      | inr not_doomed ↦ not_doomed ∙ sym spared
      | inl gone ↦
          let (locked, alive) =
            keep_elim (λ i. not (has_dead consumers t i)) _ (contains_elim _ id gone) in
          let (known, test) =
            keep_elim (λ i. contains (picked after t) i && processed_before cutoff (t.outbox i))
              (ids_to t.last_id) locked in
          absurd (ground arith)
    ]
    | inl taken ↦
        let sweeps = picked-swept after t (contains_elim _ id taken) in
        let known = ids_to_intro t.last_id id (ground arith) (ground arith) in
        contains_intro _ id (
          keep_intro (λ i. not (has_dead consumers t i)) _
            (keep_intro (λ i. contains (picked after t) i && processed_before cutoff (t.outbox i))
              (ids_to t.last_id) known (ground arith))
            (ground arith))
        ∙ sym taken
  ]
