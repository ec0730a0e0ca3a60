-- ===== src/Lock.antt =====
-- lock/gormstore/gormstore.go: leases in an SQL table, and lock/lock.go's Locker over them. Every SQL
-- statement is one atomic step on the table. What other clients do to the table before a statement, and
-- whether the database refuses the statement, is a schedule that the run takes as an argument; a
-- statement past the end of the schedule runs undisturbed. Times are numbers.
pub mod Leases
pub mod Acquired
pub mod Hold
mod Examples
use go_core.Prelude.{
  ℕ, zero, suc, ◌+◌, ◌-◌, String, string_eq, Bool, true, false, ◌&&◌, ◌||◌, not, List, [], ◌∷◌,
  Option, none, some, Map, lookup, insert, delete, ltb, nat_beq, if◌then◌else◌, ◌==◌,
}

-- The row of a key.
pub record Row : Type 0 where
  pub owner : String
  pub lease_until : ℕ

abbrev pub Table : Type 0
Table = Map String Row

pub data DbError : Type 0 where
  deadlock : DbError
  other_error : String → DbError

pub data Outcome (A : Type 0) : Type 0 where
  returned : A → Outcome A
  failed : DbError → Outcome A

-- What happens around a statement.
pub record Moment : Type 0 where
  pub meanwhile : Table → Table
  pub refused : Option DbError

abbrev pub Db : Type 0 → Type 0
Db A = List Moment → Table → Outcome A × List Moment × Table

-- One statement: its effect, and the rows affected or read.
abbrev pub statement : {A : Type 0} → (Table → A × Table) → Db A
statement run [] t = (returned (run t).0, [], (run t).1)
statement run (moment ∷ later) t = elim moment.refused [
  | some e ↦ (failed e, later, moment.meanwhile t)
  | none ↦ (returned (run (moment.meanwhile t)).0, later, (run (moment.meanwhile t)).1)
]

-- `if err != nil { return err }` after a call.
abbrev pub and_then :
    {A B : Type 0} → Outcome A × List Moment × Table → (A → Db B) → Outcome B × List Moment × Table
and_then (returned a, later, t) next = next a later t
and_then (failed e, later, t) next = (failed e, later, t)

abbrev pub return : {A : Type 0} → A → Db A
return a later t = (returned a, later, t)

-- UPDATE … SET owner, lease_until WHERE lock_key = key AND (owner = owner OR lease_until < now). An
-- UPDATE that changes nothing may report no row, which `found_rows` says: the DSN's clientFoundRows.
unfoldable pub take_over : Bool → String → String → ℕ → ℕ → Table → Bool × Table
take_over found_rows key owner now until t = elim (lookup key t) [
  | none ↦ (false, t)
  | some row ↦
      if row.owner == owner || ltb row.lease_until now
      then (
        found_rows || not (row.owner == owner && nat_beq row.lease_until until),
        insert key (record { owner = owner; lease_until = until }) t,
      )
      else (false, t)
]

-- UPDATE … SET lease_until WHERE lock_key = key AND owner = owner.
unfoldable pub extend : Bool → String → String → ℕ → Table → Bool × Table
extend found_rows key owner until t = elim (lookup key t) [
  | none ↦ (false, t)
  | some row ↦
      if row.owner == owner
      then (
        found_rows || not (nat_beq row.lease_until until),
        insert key (record row { lease_until = until }) t,
      )
      else (false, t)
]

-- SELECT COUNT(*) … WHERE lock_key = key AND owner = owner.
unfoldable pub count_mine : String → String → Table → Bool × Table
count_mine key owner t = elim (lookup key t) [
  | none ↦ (false, t)
  | some row ↦ (row.owner == owner, t)
]

-- database.CreateUnlessDuplicate: an INSERT that the primary key refuses is "not created".
unfoldable pub create_unless_duplicate : String → String → ℕ → Table → Bool × Table
create_unless_duplicate key owner until t = elim (lookup key t) [
  | some _ ↦ (false, t)
  | none ↦ (true, insert key (record { owner = owner; lease_until = until }) t)
]

-- DELETE … WHERE lock_key = key AND owner = owner.
unfoldable pub delete_mine : String → String → Table → Unit {0} × Table
delete_mine key owner t = elim (lookup key t) [
  | none ↦ (tt, t)
  | some row ↦ if row.owner == owner then (tt, delete key t) else (tt, t)
]

-- Store.mine
abbrev pub mine : String → String → Db Bool
mine key owner = statement (count_mine key owner)

-- Store.acquire, one attempt.
unfoldable pub acquire_once : Bool → String → String → ℕ → ℕ → Db Bool
acquire_once found_rows key owner now until later t =
    and_then (statement (take_over found_rows key owner now until) later t) λ taken later t.
      if taken
      then return true later t
      else and_then (mine key owner later t) λ held later t.
        if held
        then return true later t
        else statement (create_unless_duplicate key owner until) later t

-- The number of attempts of Store.Acquire.
abbrev pub attempts : ℕ
attempts = 5

-- `if !database.IsDeadlock(err) { return got, err }`, and otherwise the next attempt.
abbrev pub unless_deadlock :
    {A : Type 0} → Outcome A × List Moment × Table → Db A → Outcome A × List Moment × Table
unless_deadlock (failed deadlock, later, t) again = again later t
unless_deadlock (failed (other_error e), later, t) again = (failed (other_error e), later, t)
unless_deadlock (returned a, later, t) again = (returned a, later, t)

-- The loop of Store.Acquire and the attempt after it: `retries` more attempts are left.
unfoldable pub acquire_from : ℕ → Bool → String → String → ℕ → ℕ → Db Bool
acquire_from zero found_rows key owner now until later t =
    acquire_once found_rows key owner now until later t
acquire_from (suc retries) found_rows key owner now until later t =
    let again = acquire_from retries found_rows key owner now until in
    unless_deadlock (acquire_once found_rows key owner now until later t) again

-- Store.Acquire
abbrev pub acquire : Bool → String → String → ℕ → ℕ → Db Bool
acquire found_rows key owner now until later t =
    acquire_from (attempts - 1) found_rows key owner now until later t

-- Store.Refresh
unfoldable pub refresh : Bool → String → String → ℕ → Db Bool
refresh found_rows key owner until later t =
    and_then (statement (extend found_rows key owner until) later t)
      λ moved later t. if moved then return true later t else mine key owner later t

-- Store.Release
unfoldable pub release : String → String → Db (Unit {0})
release key owner = statement (delete_mine key owner)

-- Locker.Acquire, Refresh and Release: the lease ends `ttl` after the clock's reading `now`.
abbrev pub locker_acquire : Bool → String → String → ℕ → ℕ → Db Bool
locker_acquire found_rows key owner ttl now = acquire found_rows key owner now (now + ttl)

abbrev pub locker_refresh : Bool → String → String → ℕ → ℕ → Db Bool
locker_refresh found_rows key owner ttl now = refresh found_rows key owner (now + ttl)
