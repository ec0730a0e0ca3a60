-- ===== src/Lock/Hold/Granted.antt =====
-- lock/gormstore/gormstore.go: what "yes" means when other clients act between the statements.
use go_core.Prelude.{
  ℕ, zero, suc, String, string_eq, ◌≡◌, refl, Bool, true, false, List, if◌then◌else◌, arith,
}
use go_core.Lock.{
  Table, deadlock, other_error, Outcome, returned, failed, Moment, Db, statement, and_then, return,
  take_over, extend, count_mine, create_unless_duplicate, mine, acquire_once, unless_deadlock,
  acquire_from, acquire, refresh,
}
use go_core.Lock.Leases.{Leased}
use go_core.Lock.Hold.{Acts, Foreign}
use go_core.Lock.Hold.Clients.{Lasting, Acts-Lasting}
use go_core.Lock.Hold.Calls.{
  After, Granted, Anything, statement-After, count_mine-Granted, take_over-Granted, create-Granted,
  extend-Granted,
}

module _ (key owner : String) (clock : ℕ) where
  abbrev Any : Table → Type 0
  Any = Anything key owner clock

  abbrev Grants : ℕ → Bool → Table → Type 0
  Grants = Granted key owner clock

  -- Whatever it answers, a row of the owner then lasts until `end`, and "yes" means that there is one.
  abbrev Yields : ℕ → Outcome Bool × List Moment × Table → Type 0
  Yields end = After key owner clock Any (Grants end)

  keeps_anything : (u v : Table) → Acts key owner clock u v → Any u → Any v
  keeps_anything u v acts h = tt

  keeps-Lasting :
      (end : ℕ) (u v : Table)
      → Acts key owner clock u v
      → Lasting key owner end u
      → Lasting key owner end v
  keeps-Lasting end u v acts lasting = Acts-Lasting key owner clock end u v acts lasting

  -- `if yes { return true }`, and otherwise the next statement.
  or_next :
      (end : ℕ) (r : Outcome Bool × List Moment × Table) (next : Db Bool)
      → Yields end r
      → ((later : List Moment) (t : Table)
          → Foreign key owner clock later
          → Lasting key owner end t
          → Yields end (next later t))
      → Yields end (and_then r (λ said later t. if said then return true later t else next later t))
  or_next end (failed e, later, t) next after nexts = after
  or_next end (returned true, later, t) next after nexts = after
  or_next end (returned false, later, t) next (foreign, (lasting, granted)) nexts =
      nexts later t foreign lasting

  acquire_once-Granted :
      (found_rows : Bool) (now end : ℕ) (later : List Moment) (t : Table)
      → Foreign key owner clock later
      → Yields end (acquire_once found_rows key owner now end later t)
  unfolding acquire_once
  acquire_once-Granted found_rows now end later t foreign =
      or_next end (statement (take_over found_rows key owner now end) later t) _
        (statement-After key owner clock Any Any (Grants end)
          (take_over found_rows key owner now end) later t keeps_anything (λ u h. tt)
          (λ u h. take_over-Granted key owner clock found_rows now end u) foreign tt)
        (λ later t foreign lasting.
          or_next end (mine key owner later t) (statement (create_unless_duplicate key owner end))
            (statement-After key owner clock (Lasting key owner end) Any (Grants end)
              (count_mine key owner) later t (keeps-Lasting end) (λ u h. tt)
              (count_mine-Granted key owner clock end) foreign lasting)
            (λ later t foreign lasting.
              statement-After key owner clock (Lasting key owner end) Any (Grants end)
                (create_unless_duplicate key owner end) later t (keeps-Lasting end) (λ u h. tt)
                (create-Granted key owner clock end) foreign lasting))

  retried-Granted :
      (end : ℕ) (r : Outcome Bool × List Moment × Table) (again : Db Bool)
      → Yields end r
      → ((later : List Moment) (t : Table)
          → Foreign key owner clock later
          → Yields end (again later t))
      → Yields end (unless_deadlock r again)
  retried-Granted end (failed deadlock, later, t) again (foreign, h) tried = tried later t foreign
  retried-Granted end (failed (other_error e), later, t) again after tried = after
  retried-Granted end (returned b, later, t) again after tried = after

  acquire_from-Granted :
      (retries : ℕ) (found_rows : Bool) (now end : ℕ) (later : List Moment) (t : Table)
      → Foreign key owner clock later
      → Yields end (acquire_from retries found_rows key owner now end later t)
  unfolding acquire_from
  acquire_from-Granted zero found_rows now end later t foreign =
      acquire_once-Granted found_rows now end later t foreign
  acquire_from-Granted (suc retries) found_rows now end later t foreign =
      retried-Granted end (acquire_once found_rows key owner now end later t) _
        (acquire_once-Granted found_rows now end later t foreign)
        (λ later t foreign. acquire_from-Granted retries found_rows now end later t foreign)

  yes_granted :
      (end : ℕ) (r : Outcome Bool × List Moment × Table)
      → Yields end r
      → r.0 ≡ returned true
      → Leased key owner end r.2
  yes_granted end (failed e, later, t) after said = absurd (ground arith)
  yes_granted end (returned true, later, t) (foreign, (lasting, granted)) said = granted refl
  yes_granted end (returned false, later, t) after said = absurd (ground arith)

  -- An acquire that says yes has the lease until the end that it asked for.
  pub acquire-Leased :
      (found_rows : Bool) (now end : ℕ) (later : List Moment) (t : Table)
      → Foreign key owner clock later
      → (acquire found_rows key owner now end later t).0 ≡ returned true
      → Leased key owner end (acquire found_rows key owner now end later t).2
  acquire-Leased found_rows now end later t foreign said =
      yes_granted end (acquire found_rows key owner now end later t)
        (acquire_from-Granted 4 found_rows now end later t foreign) said

  refresh-Granted :
      (found_rows : Bool) (end : ℕ) (later : List Moment) (t : Table)
      → Foreign key owner clock later
      → Yields end (refresh found_rows key owner end later t)
  unfolding refresh
  refresh-Granted found_rows end later t foreign =
      or_next end (statement (extend found_rows key owner end) later t) (mine key owner)
        (statement-After key owner clock Any Any (Grants end) (extend found_rows key owner end)
          later t keeps_anything (λ u h. tt)
          (λ u h. extend-Granted key owner clock found_rows end u) foreign tt)
        (λ later t foreign lasting.
          statement-After key owner clock (Lasting key owner end) Any (Grants end)
            (count_mine key owner) later t (keeps-Lasting end) (λ u h. tt)
            (count_mine-Granted key owner clock end) foreign lasting)

  -- A refresh that says yes has the lease until the end that it asked for.
  pub refresh-Leased :
      (found_rows : Bool) (end : ℕ) (later : List Moment) (t : Table)
      → Foreign key owner clock later
      → (refresh found_rows key owner end later t).0 ≡ returned true
      → Leased key owner end (refresh found_rows key owner end later t).2
  refresh-Leased found_rows end later t foreign said =
      yes_granted end (refresh found_rows key owner end later t)
        (refresh-Granted found_rows end later t foreign) said
