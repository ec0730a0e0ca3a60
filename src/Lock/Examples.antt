-- ===== src/Lock/Examples.antt =====
-- Two servers and one key, and the theorems applied: Ana holds the import until 160, Ivo tries.
use go_core.Prelude.{
  pos, string_eq, ◌≡◌, refl, true, false, List, [], ◌∷◌, some, lookup, insert, arith,
}
use go_core.Lock.{
  Table, Moment, deadlock, acquire, acquire_from, acquire_once, take_over, create_unless_duplicate,
  count_mine, extend, refresh, returned,
}
use go_core.Lock.Leases.{Leased, Denied, acquire-Denied}
use go_core.Lock.Hold.{
  Holding, ended, cancelled_run, asking, begin_hold, acquired, starting, waiting, running,
  lease_lost, verdict, takes, Reach, here, next, passes, others, starts, ticks, refreshes, judges,
}
use go_core.Lock.Hold.Held.{Held}
use go_core.Lock.Hold.Kept.{hold-Held}

abbrev held_by_ana : Table
held_by_ana = ("import", record { owner = "ana"; lease_until = 160 }) ∷ []

-- The first statement is a deadlock's victim, and another server looks on meanwhile.
abbrev trouble : List Moment
trouble = record { meanwhile = λ t. t; refused = some deadlock } ∷ []

ana-Leased : Leased "import" "ana" 160 held_by_ana
unfolding lookup
ana-Leased = (record { owner = "ana"; lease_until = 160 }, refl, refl, omega arith)

acquire-Denied_example :
    Denied "import" "ana" 160 (acquire true "import" "ivo" 150 210 trouble held_by_ana).0
    × Leased "import" "ana" 160 (acquire true "import" "ivo" 150 210 trouble held_by_ana).2
acquire-Denied_example =
    acquire-Denied "import" "ana" 160 "ivo" refl true 150 210 trouble held_by_ana (omega arith)
      (λ t leased. leased, tt) ana-Leased

-- Ana's run of the import: it holds the key until 160.
abbrev first_holding : Holding
first_holding = record {
  table = held_by_ana;
  clock = 100;
  cancelled = false;
  lost = false;
  beat = starting;
  phase = running;
  lease = 160;
}

ana_begins : begin_hold true "import" "ana" (pos 60) 100 [] [] ≡ acquired first_holding
unfolding begin_hold acquire_from acquire_once take_over count_mine create_unless_duplicate lookup
    insert
ana_begins = refl

-- Ivo tries at 120 and is denied, and then the heartbeat renews the lease until 181.
abbrev renewed : Holding
renewed = record first_holding {
  table = ("import", record { owner = "ana"; lease_until = 181 }) ∷ [];
  clock = 122;
  beat = waiting 180;
  lease = 181;
}

ana_renews : Reach true "import" "ana" 60 first_holding renewed
unfolding take_over extend refresh verdict lookup insert
ana_renews =
    next
      (next
        (next
          (next (next (next here (starts refl)) (passes 120 (omega arith)))
            (others (takes true "ivo" 120 180 refl (omega arith))))
          (ticks 160 refl))
        (refreshes 120 160 121 122 [] refl (omega arith) (omega arith) tt))
      (judges 120 160 (returned true) refl)

hold-Held_example : Held true "import" "ana" 60 renewed
hold-Held_example =
    hold-Held true "import" "ana" (pos 60) 100 100 [] [] first_holding renewed tt ana_begins
      ana_renews

-- The import fails after its lease is lost.
abbrev after_loss : Holding
after_loss = record renewed { lost = true; cancelled = true }

abbrev over : Holding
over = record after_loss { phase = ended (lease_lost (some "no file")) }

-- The deferred cancel, then the heartbeat's ticker is chosen all the same.
abbrev asked : Holding
asked = record over {
  phase = cancelled_run (lease_lost (some "no file"));
  cancelled = true;
  beat = asking 122 180;
}
