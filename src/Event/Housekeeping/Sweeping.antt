-- ===== src/Event/Housekeeping/Sweeping.antt =====
-- What a sweep deletes, and that it ends.
use go_core.Prelude.{
  ℕ, String, string_eq, nat_eq, ◌≡◌, Bool, List, ◌∷◌, none, if◌then◌else◌, Dominance.keep_intro,
}
use go_core.Event.Tables.{Tables}
use go_core.Event.Tables.Ascending.{last_of}
use go_core.Event.Housekeeping.{prune}
use go_core.Event.Housekeeping.Batches.{picked}

module _ (consumers : List String) (cutoff : ℕ) where
  -- The tables with the events gone that the test names, and their attempts with them.
  abbrev Deleted : (ℕ → Bool) → Tables → Tables → Type 0
  Deleted gone t r =
      (id : ℕ)
      → (r.outbox id ≡ (if gone id then none else t.outbox id))
        × ((c : String) → r.rows id c ≡ (if gone id then none else t.rows id c))

  -- One round, and what is left for the later ones.
  module _ (after : ℕ) (t : Tables) (first : ℕ) (others : List ℕ)
      (batch : picked consumers cutoff after t ≡ first ∷ others) where
    abbrev pruned : Tables
    pruned = (prune consumers (first ∷ others) cutoff t).0

    abbrev end : ℕ
    end = last_of first others
