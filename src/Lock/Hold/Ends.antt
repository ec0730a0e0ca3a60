-- ===== src/Lock/Hold/Ends.antt =====
-- lock/lock.go: when run has returned, Hold cannot wait for ever, whatever the others do.
use go_core.Prelude.{ℕ, String, ◌≡◌, Bool, true, none}
use go_core.Lock.{Moment}
use go_core.Lock.Hold.{Holding, Step}
use go_core.Lock.Hold.Ending.{Ending, own}

module _ (found_rows : Bool) (key owner : String) (ttl : ℕ) where
  abbrev undisturbed : Moment
  undisturbed = record { meanwhile = λ t. t; refused = none }

  abbrev pub Moves : Holding → Type 0
  Moves s =
      (u : Holding) × (step : Step found_rows key owner ttl s u) × (own found_rows key owner ttl s
          step
        ≡ true)
