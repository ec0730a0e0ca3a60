-- ===== src/Lock/Leases.antt =====
-- What a lease promises, whatever other clients do between the statements of an operation.
use go_core.Prelude.{
  ℕ, zero, suc, ◌≤◌, String, string_eq, ◌≡◌, refl, sym, Bool, false, List, [], ◌∷◌, none, some,
  lookup, ◌==◌, ==-eq, ==_refl, arith, Option-cases, inl, inr,
}
use mathlib.Core.Path.{subst}
use go_core.Lock.{
  Row, Table, DbError, deadlock, other_error, Outcome, returned, failed, Moment, Db, statement,
  and_then, take_over, extend, count_mine, create_unless_duplicate, mine, acquire_once,
  unless_deadlock, acquire_from, acquire, refresh,
}

module _ (key holder : String) (end : ℕ) where
  -- The holder has the key, at least until `end`.
  abbrev pub Leased : Table → Type 0
  Leased t =
      (row : Row) × (lookup key t ≡ some row) × (row.owner ≡ holder) × (end ≤ row.lease_until)

  -- What others do meanwhile leaves the lease alone.
  abbrev pub Respectful : List Moment → Type 0
  Respectful [] = Unit {0}
  Respectful (m ∷ later) = ((t : Table) → Leased t → Leased (m.meanwhile t)) × Respectful later

  -- The answer is not "yes".
  abbrev pub Denied : Outcome Bool → Type 0
  Denied (returned b) = b ≡ false
  Denied (failed e) = Unit {0}

  -- The lease stands, and so it will.
  abbrev pub Safe : Outcome Bool × List Moment × Table → Type 0
  Safe (answer, later, t) = Denied answer × Respectful later × Leased t

  outcome_of : (r : Outcome Bool × List Moment × Table) → Safe r → Denied r.0 × Leased r.2
  outcome_of (answer, later, t) (denied, respectful, leased) = (denied, leased)

  statement-Safe :
      (run : Table → Bool × Table) (later : List Moment) (t : Table)
      → ((t : Table) → Leased t → ((run t).0 ≡ false) × Leased (run t).1)
      → Respectful later
      → Leased t
      → Safe (statement run later t)
  statement-Safe run [] t denies respectful leased =
      let (denied, still) = denies t leased in (denied, tt, still)
  statement-Safe run (m ∷ later) t denies (calm, respectful) leased =
      elim (Option-cases m.refused) [
        | inr (e, refused) ↦
            subst Safe (sym (refused_statement e refused)) (tt, respectful, calm t leased)
        | inl accepted ↦
            let (denied, still) = denies (m.meanwhile t) (calm t leased) in
            subst Safe (sym (run_statement accepted)) (denied, respectful, still)
      ]
    where
      refused_statement :
          (e : DbError)
          → m.refused ≡ some e
          → statement run (m ∷ later) t ≡ (failed e, later, m.meanwhile t)
      refused_statement e refused = ground arith

      run_statement :
          m.refused ≡ none
          → statement run (m ∷ later) t
            ≡ (returned (run (m.meanwhile t)).0, later, (run (m.meanwhile t)).1)
      run_statement accepted = ground arith

  and_then-Safe :
      (r : Outcome Bool × List Moment × Table) (next : Bool → Db Bool)
      → Safe r
      → ((later : List Moment) (t : Table)
          → Respectful later
          → Leased t
          → Safe (next false later t))
      → Safe (and_then r next)
  and_then-Safe (failed e, later, t) next safe then_safe = safe
  and_then-Safe (returned b, later, t) next (denied, respectful, leased) then_safe =
      subst (λ x. Safe (next x later t)) (sym denied) (then_safe later t respectful leased)

  module _ (owner : String) (stranger : (owner == holder) ≡ false) where
    pub take_over_denied :
        (found_rows : Bool) (now until : ℕ) (t : Table)
        → now ≤ end
        → Leased t
        → ((take_over found_rows key owner now until t).0 ≡ false)
          × Leased (take_over found_rows key owner now until t).1
    unfolding take_over
    take_over_denied found_rows now until t early (row, found, his, live) =
        let other : (row.owner == owner) ≡ false =
          ground (arith, ==-eq row.owner owner, ==_refl owner) in
        let same : take_over found_rows key owner now until t ≡ (false, t) = ground arith in
        rw same (refl, (row, found, his, live))

    pub not_mine :
        (t : Table) (row : Row)
        → lookup key t ≡ some row
        → row.owner ≡ holder
        → (row.owner == owner) ≡ false
    not_mine t row found his = ground (arith, ==-eq row.owner owner, ==_refl owner)

    pub count_mine_denied :
        (t : Table)
        → Leased t
        → ((count_mine key owner t).0 ≡ false) × Leased (count_mine key owner t).1
    unfolding count_mine
    count_mine_denied t (row, found, his, live) =
        let other = not_mine t row found his in
        let same : count_mine key owner t ≡ (false, t) = ground arith in
        rw same (refl, (row, found, his, live))

    pub create_denied :
        (until : ℕ) (t : Table)
        → Leased t
        → ((create_unless_duplicate key owner until t).0 ≡ false)
          × Leased (create_unless_duplicate key owner until t).1
    unfolding create_unless_duplicate
    create_denied until t (row, found, his, live) =
        let same : create_unless_duplicate key owner until t ≡ (false, t) = ground arith in
        rw same (refl, (row, found, his, live))

    pub extend_denied :
        (found_rows : Bool) (until : ℕ) (t : Table)
        → Leased t
        → ((extend found_rows key owner until t).0 ≡ false)
          × Leased (extend found_rows key owner until t).1
    unfolding extend
    extend_denied found_rows until t (row, found, his, live) =
        let other = not_mine t row found his in
        let same : extend found_rows key owner until t ≡ (false, t) = ground arith in
        rw same (refl, (row, found, his, live))

    acquire_once-Safe :
        (found_rows : Bool) (now until : ℕ) (later : List Moment) (t : Table)
        → now ≤ end
        → Respectful later
        → Leased t
        → Safe (acquire_once found_rows key owner now until later t)
    unfolding acquire_once
    acquire_once-Safe found_rows now until later t early respectful leased =
        and_then-Safe (statement (take_over found_rows key owner now until) later t) _
          (statement-Safe (take_over found_rows key owner now until) later t
            (λ t leased. take_over_denied found_rows now until t early leased) respectful leased)
          (λ later t respectful leased.
            and_then-Safe (mine key owner later t) _
              (statement-Safe (count_mine key owner) later t count_mine_denied respectful leased)
              (λ later t respectful leased.
                statement-Safe (create_unless_duplicate key owner until) later t
                  (create_denied until) respectful leased))

    unless_deadlock-Safe :
        (r : Outcome Bool × List Moment × Table) (again : Db Bool)
        → Safe r
        → ((later : List Moment) (t : Table) → Respectful later → Leased t → Safe (again later t))
        → Safe (unless_deadlock r again)
    unless_deadlock-Safe (failed deadlock, later, t) again (answer, respectful, leased) tried =
        tried later t respectful leased
    unless_deadlock-Safe (failed (other_error e), later, t) again safe tried = safe
    unless_deadlock-Safe (returned b, later, t) again safe tried = safe

    acquire_from-Safe :
        (retries : ℕ) (found_rows : Bool) (now until : ℕ) (later : List Moment) (t : Table)
        → now ≤ end
        → Respectful later
        → Leased t
        → Safe (acquire_from retries found_rows key owner now until later t)
    unfolding acquire_from
    acquire_from-Safe zero found_rows now until later t early respectful leased =
        acquire_once-Safe found_rows now until later t early respectful leased
    acquire_from-Safe (suc retries) found_rows now until later t early respectful leased =
        unless_deadlock-Safe (acquire_once found_rows key owner now until later t) _
          (acquire_once-Safe found_rows now until later t early respectful leased)
          (λ later t respectful leased.
            acquire_from-Safe retries found_rows now until later t early respectful leased)

    refresh-Safe :
        (found_rows : Bool) (until : ℕ) (later : List Moment) (t : Table)
        → Respectful later
        → Leased t
        → Safe (refresh found_rows key owner until later t)
    unfolding refresh
    refresh-Safe found_rows until later t respectful leased =
        and_then-Safe (statement (extend found_rows key owner until) later t) _
          (statement-Safe (extend found_rows key owner until) later t
            (extend_denied found_rows until) respectful leased)
          (λ later t respectful leased.
            statement-Safe (count_mine key owner) later t count_mine_denied respectful leased)

    -- While a holder's lease runs, an acquire by anybody else whose clock is not past its end never says
    -- yes and leaves the lease standing: whatever other clients do between its statements, as long as
    -- they respect the lease too, whichever statements the database refuses, over all attempts, and
    -- whether or not an UPDATE counts the rows that it did not change.
    pub acquire-Denied :
        (found_rows : Bool) (now until : ℕ) (later : List Moment) (t : Table)
        → now ≤ end
        → Respectful later
        → Leased t
        → Denied (acquire found_rows key owner now until later t).0
          × Leased (acquire found_rows key owner now until later t).2
    acquire-Denied found_rows now until later t early respectful leased =
        outcome_of (acquire found_rows key owner now until later t)
          (acquire_from-Safe 4 found_rows now until later t early respectful leased)

    -- A refresh by anybody else, under the same conditions, never says yes and leaves the lease standing.
    pub refresh-Denied :
        (found_rows : Bool) (until : ℕ) (later : List Moment) (t : Table)
        → Respectful later
        → Leased t
        → Denied (refresh found_rows key owner until later t).0
          × Leased (refresh found_rows key owner until later t).2
    refresh-Denied found_rows until later t respectful leased =
        outcome_of (refresh found_rows key owner until later t)
          (refresh-Safe found_rows until later t respectful leased)
