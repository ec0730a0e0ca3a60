-- ===== src/Lock/Hold.antt =====
-- lock/lock.go: Hold and its heartbeat as a step relation. The goroutine of the heartbeat, the run and
-- whoever cancels it, the clock and the other clients of the table take their steps in any order. A call
-- of the store is one step whose schedule says what the others do between its statements. newOwner makes
-- a name that nobody else has, which is the argument `owner`.
pub mod Clients
pub mod Calls
pub mod Granted
pub mod Standing
pub mod Held
pub mod Kept
pub mod Ending
pub mod Ends
use go_core.Prelude.{
  ℕ, ℤ, pos, pos_part, int_leb, ◌+◌, ◌≤◌, String, string_eq, ◌≡◌, Bool, true, false, List, [], ◌∷◌,
  Option, none, some, lookup, ltb, if◌then◌else◌, ◌==◌,
}
use go_core.Lock.{
  Row, Table, DbError, Outcome, returned, failed, Moment, take_over, extend,
  create_unless_duplicate, delete_mine, release, locker_acquire, locker_refresh,
}

pub data HoldAnswer : Type 0 where
  bad_ttl held : HoldAnswer
  store_failed : DbError → HoldAnswer
  ran lease_lost : Option String → HoldAnswer
  panicked : HoldAnswer

-- Where the heartbeat is: `until` and `now` are its variables of these names.
pub data Beat : Type 0 where
  starting : Beat
  waiting : (until : ℕ) → Beat
  asking : (now until : ℕ) → Beat
  answered : (now until : ℕ) → Outcome Bool → Beat
  stopped : Beat

-- Where Hold is once the key is acquired. `finished` says whether the release was carried out.
pub data Phase : Type 0 where
  running : Phase
  ended : HoldAnswer → Phase
  cancelled_run : HoldAnswer → Phase
  finished : HoldAnswer → Bool → Phase

-- `lease` is not a variable of the code: the end that the last call that said yes gave the lease.
pub record Holding : Type 0 where
  pub table : Table
  pub clock : ℕ
  pub cancelled : Bool
  pub lost : Bool
  pub beat : Beat
  pub phase : Phase
  pub lease : ℕ

-- The part of Hold before the goroutine starts: an answer, or the key is acquired.
pub data Begun : Type 0 where
  refused : HoldAnswer → Table → Begun
  acquired : Holding → Begun

abbrev pub begun : ℕ → ℕ → Outcome Bool × List Moment × Table → Begun
begun now until (failed e, later, t) = refused (store_failed e) t
begun now until (returned false, later, t) = refused held t
begun now until (returned true, later, t) = acquired (record {
  table = t;
  clock = now;
  cancelled = false;
  lost = false;
  beat = starting;
  phase = running;
  lease = until;
})

unfoldable pub begin_hold : Bool → String → String → ℤ → ℕ → List Moment → Table → Begun
begin_hold found_rows key owner ttl now later t =
    if int_leb ttl (pos 0)
    then refused bad_ttl t
    else begun now (now + pos_part ttl)
        (locker_acquire found_rows key owner (pos_part ttl) now later t)

-- What Hold answers when run has returned: `lost.Load()` chooses.
abbrev pub hold_answer : Bool → Option String → HoldAnswer
hold_answer lost err = if lost then lease_lost err else ran err

-- The switch of the heartbeat: it goes on with this `until`, it returns, or the lease is lost.
pub data Verdict : Type 0 where
  goes_on : (until : ℕ) → Verdict
  returns loses : Verdict

unfoldable pub verdict : Bool → ℕ → ℕ → ℕ → Outcome Bool → Verdict
verdict true ttl now until answer = returns
verdict false ttl now until (failed e) = if ltb now until then goes_on until else loses
verdict false ttl now until (returned false) = loses
verdict false ttl now until (returned true) = goes_on (now + ttl)

abbrev pub judged : Verdict → Holding → Holding
judged (goes_on until) s = record s { beat = waiting until }
judged returns s = record s { beat = stopped }
judged loses s = record s { beat = stopped; lost = true; cancelled = true }

-- The end of the lease after a refresh whose reading of the clock was `at`.
abbrev pub lease_after : Outcome Bool → ℕ → ℕ → ℕ
lease_after (returned true) renewed lease = renewed
lease_after (returned false) renewed lease = lease
lease_after (failed e) renewed lease = lease

module _ (key owner : String) where
  -- What another client's statement does, at a reading of the clock that is not past `clock`; of the
  -- other keys, anything.
  pub data Act (clock : ℕ) (t : Table) : Table → Type 0 where
    takes :
        (rows : Bool) (other : String) (now until : ℕ)
        → (other == owner) ≡ false
        → now ≤ clock
        → Act clock t (take_over rows key other now until t).1
    extends :
        (rows : Bool) (other : String) (until : ℕ)
        → (other == owner) ≡ false
        → Act clock t (extend rows key other until t).1
    creates :
        (other : String) (until : ℕ)
        → (other == owner) ≡ false
        → Act clock t (create_unless_duplicate key other until t).1
    deletes : (other : String) → (other == owner) ≡ false → Act clock t (delete_mine key other t).1
    elsewhere : {t' : Table} → lookup key t' ≡ lookup key t → Act clock t t'

  -- In every moment of a schedule, the others act any number of times.
  pub data Acts (clock : ℕ) (t : Table) : Table → Type 0 where
    none_yet : Acts clock t t
    then_act : {u v : Table} → Acts clock t u → Act clock u v → Acts clock t v

  abbrev pub Foreign : ℕ → List Moment → Type 0
  Foreign clock [] = Unit {0}
  Foreign clock (m ∷ later) = ((t : Table) → Acts clock t (m.meanwhile t)) × Foreign clock later

module _ (found_rows : Bool) (key owner : String) (ttl : ℕ) where
  pub data Step (s : Holding) : Holding → Type 0 where
    passes : (clock : ℕ) → s.clock ≤ clock → Step s (record s { clock = clock })
    others : {t : Table} → Act key owner s.clock s.table t → Step s (record s { table = t })
    -- The caller's context ends.
    cancels : Step s (record s { cancelled = true })
    starts : s.beat ≡ starting → Step s (record s { beat = waiting (s.clock + ttl) })
    -- `<-ctx.Done()`
    sees_done :
        (until : ℕ)
        → s.beat ≡ waiting until
        → s.cancelled ≡ true
        → Step s (record s { beat = stopped })
    -- `<-ticker.C` and the reading of the clock.
    ticks : (until : ℕ) → s.beat ≡ waiting until → Step s (record s { beat = asking s.clock until })
    -- Locker.Refresh: it reads the clock at `at` and ends at `clock`.
    refreshes :
        (now until at clock : ℕ) (later : List Moment)
        → s.beat ≡ asking now until
        → s.clock ≤ at
        → at ≤ clock
        → Foreign key owner clock later
        → Step s (record s {
          clock = clock;
          table = (locker_refresh found_rows key owner ttl at later s.table).2;
          beat = answered now until (locker_refresh found_rows key owner ttl at later s.table).0;
          lease =
              lease_after
                (locker_refresh found_rows key owner ttl at later s.table).0
                (at + ttl)
                s.lease;
        })
    judges :
        (now until : ℕ) (answer : Outcome Bool)
        → s.beat ≡ answered now until answer
        → Step s (judged (verdict s.cancelled ttl now until answer) s)
    -- run returns this error, if any, and Hold looks at `lost`.
    run_returns :
        (err : Option String)
        → s.phase ≡ running
        → Step s (record s { phase = ended (hold_answer s.lost err) })
    run_panics : s.phase ≡ running → Step s (record s { phase = ended panicked })
    -- The deferred `cancel()`.
    cancels_run :
        (a : HoldAnswer)
        → s.phase ≡ ended a
        → Step s (record s { phase = cancelled_run a; cancelled = true })
    -- `<-stopped`, and the release, whose error is only logged.
    releases :
        (a : HoldAnswer) (moment : Moment)
        → s.phase ≡ cancelled_run a
        → s.beat ≡ stopped
        → Foreign key owner s.clock (moment ∷ [])
        → Step s (record s {
          table = (release key owner (moment ∷ []) s.table).2;
          phase = finished a (elim (release key owner (moment ∷ []) s.table).0 [
            | returned _ ↦ true
            | failed _ ↦ false
          ]);
        })

  pub data Reach (s : Holding) : Holding → Type 0 where
    here : Reach s s
    next : {t u : Holding} → Reach s t → Step t u → Reach s u
