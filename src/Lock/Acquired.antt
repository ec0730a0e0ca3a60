-- ===== src/Lock/Acquired.antt =====
-- What "yes" means: the row is the owner's, and without disturbance exactly the keys that are free,
-- expired or the owner's already are acquired.
use go_core.Prelude.{
  ℕ, zero, suc, String, string_eq, ◌≡◌, refl, Bool, true, false, ◌||◌, List, [], ◌∷◌, none, some,
  lookup, insert, lookup-insert, ltb, if◌then◌else◌, ◌==◌, ==_refl, ==-eq, arith, Option-cases,
  Bool-cases, inl, inr, sym,
}
use mathlib.Core.Path.{subst}
use go_core.Lock.{
  Row, Table, DbError, deadlock, other_error, Outcome, returned, failed, Moment, Db, statement,
  and_then, return, take_over, count_mine, create_unless_duplicate, mine, acquire_once,
  unless_deadlock, acquire_from, acquire,
}

-- A key that is free, expired, or the owner's already.
abbrev pub available : String → String → ℕ → Table → Bool
available key owner now t = elim (lookup key t) [
  | none ↦ true
  | some row ↦ row.owner == owner || ltb row.lease_until now
]

module _ (key owner : String) where
  abbrev pub Owned : Table → Type 0
  Owned t = (row : Row) × (lookup key t ≡ some row) × (row.owner ≡ owner)

  -- "Yes" is only said when the row is the owner's.
  abbrev pub Truthful : Outcome Bool × List Moment × Table → Type 0
  Truthful (answer, later, t) = answer ≡ returned true → Owned t

  said_yes : (r : Outcome Bool × List Moment × Table) → Truthful r → r.0 ≡ returned true → Owned r.2
  said_yes (answer, later, t) truthful said = truthful said

  statement-Truthful :
      (run : Table → Bool × Table) (later : List Moment) (t : Table)
      → ((t : Table) → (run t).0 ≡ true → Owned (run t).1)
      → Truthful (statement run later t)
  statement-Truthful run [] t means = λ said. means t (ground arith)
  statement-Truthful run (m ∷ later) t means = elim (Option-cases m.refused) [
    | inr (e, refused) ↦
        subst Truthful (sym (refused_statement e refused)) (λ said. absurd (ground arith))
    | inl accepted ↦
        subst Truthful (sym (run_statement accepted)) (λ said. means (m.meanwhile t) (ground arith))
  ]
    where
      refused_statement :
          (e : DbError)
          → m.refused ≡ some e
          → statement run (m ∷ later) t ≡ (failed e, later, m.meanwhile t)
      refused_statement e refused = ground arith

      run_statement :
          m.refused ≡ none
          → statement run (m ∷ later) t
            ≡ (returned (run (m.meanwhile t)).0, later, (run (m.meanwhile t)).1)
      run_statement accepted = ground arith

  -- `if yes { return true }`, and otherwise the next statement.
  or_else-Truthful :
      (r : Outcome Bool × List Moment × Table) (next : Db Bool)
      → Truthful r
      → ((later : List Moment) (t : Table) → Truthful (next later t))
      → Truthful (and_then r (λ said later t. if said then return true later t else next later t))
  or_else-Truthful (failed e, later, t) next truthful then_truthful = λ said. absurd (ground arith)
  or_else-Truthful (returned true, later, t) next truthful then_truthful = λ said. truthful refl
  or_else-Truthful (returned false, later, t) next truthful then_truthful = then_truthful later t

  take_over-Owned :
      (found_rows : Bool) (now until : ℕ) (t : Table)
      → (take_over found_rows key owner now until t).0 ≡ true
      → Owned (take_over found_rows key owner now until t).1
  unfolding take_over
  take_over-Owned found_rows now until t said =
      let mine_now : Row = record { owner = owner; lease_until = until } in
      (mine_now, ground (arith, lookup-insert key key mine_now t, ==_refl key), refl)

  count_mine-Owned :
      (t : Table) → (count_mine key owner t).0 ≡ true → Owned (count_mine key owner t).1
  unfolding count_mine
  count_mine-Owned t said = elim (Option-cases (lookup key t)) [
    | inl missing ↦ absurd (ground arith)
    | inr (row, found) ↦ (row, ground arith, ground (arith, ==-eq row.owner owner))
  ]

  create-Owned :
      (until : ℕ) (t : Table)
      → (create_unless_duplicate key owner until t).0 ≡ true
      → Owned (create_unless_duplicate key owner until t).1
  unfolding create_unless_duplicate
  create-Owned until t said =
      let row : Row = record { owner = owner; lease_until = until } in
      (row, ground (arith, lookup-insert key key row t, ==_refl key), refl)

  acquire_once-Truthful :
      (found_rows : Bool) (now until : ℕ) (later : List Moment) (t : Table)
      → Truthful (acquire_once found_rows key owner now until later t)
  unfolding acquire_once
  acquire_once-Truthful found_rows now until later t =
      or_else-Truthful (statement (take_over found_rows key owner now until) later t) _
        (statement-Truthful (take_over found_rows key owner now until) later t
          (take_over-Owned found_rows now until))
        (λ later t.
          or_else-Truthful (mine key owner later t)
            (statement (create_unless_duplicate key owner until))
            (statement-Truthful (count_mine key owner) later t count_mine-Owned)
            (λ later t.
              statement-Truthful (create_unless_duplicate key owner until) later t
                (create-Owned until)))

  retried-Truthful :
      (r : Outcome Bool × List Moment × Table) (again : Db Bool)
      → Truthful r
      → ((later : List Moment) (t : Table) → Truthful (again later t))
      → Truthful (unless_deadlock r again)
  retried-Truthful (failed deadlock, later, t) again truthful tried = tried later t
  retried-Truthful (failed (other_error e), later, t) again truthful tried = truthful
  retried-Truthful (returned b, later, t) again truthful tried = truthful

  acquire_from-Truthful :
      (retries : ℕ) (found_rows : Bool) (now until : ℕ) (later : List Moment) (t : Table)
      → Truthful (acquire_from retries found_rows key owner now until later t)
  unfolding acquire_from
  acquire_from-Truthful zero found_rows now until later t =
      acquire_once-Truthful found_rows now until later t
  acquire_from-Truthful (suc retries) found_rows now until later t =
      retried-Truthful (acquire_once found_rows key owner now until later t) _
        (acquire_once-Truthful found_rows now until later t)
        (λ later t. acquire_from-Truthful retries found_rows now until later t)

  -- When an acquire says yes, the row of the key is the owner's as its last statement leaves the table:
  -- whatever other clients did between the statements, and whichever of them the database refused.
  pub acquire-Owned :
      (found_rows : Bool) (now until : ℕ) (later : List Moment) (t : Table)
      → (acquire found_rows key owner now until later t).0 ≡ returned true
      → Owned (acquire found_rows key owner now until later t).2
  acquire-Owned found_rows now until later t =
      said_yes (acquire found_rows key owner now until later t)
        (acquire_from-Truthful 4 found_rows now until later t)

  -- The table that an undisturbed acquire leaves.
  abbrev pub acquired_table : ℕ → ℕ → Table → Table
  acquired_table now until t =
      if available key owner now t
      then insert key (record { owner = owner; lease_until = until }) t
      else t

  once_undisturbed :
      (found_rows : Bool) (now until : ℕ) (t : Table)
      → acquire_once found_rows key owner now until [] t
        ≡ (returned (available key owner now t), [], acquired_table now until t)
  unfolding acquire_once take_over count_mine create_unless_duplicate
  once_undisturbed found_rows now until t =
      let mine_now : Row = record { owner = owner; lease_until = until } in
      elim (Option-cases (lookup key t)) [
        | inl free ↦ ground arith
        | inr (row, found) ↦ elim (Bool-cases (row.owner == owner || ltb row.lease_until now)) [
          | inl mine_or_expired ↦
              ground (arith, lookup-insert key key mine_now t, ==_refl key, ==_refl owner)
          | inr taken ↦ ground arith
        ]
      ]

  -- Undisturbed, an acquire says yes exactly for a key that is free, expired or the owner's already, and
  -- then the owner has the key until `until`; otherwise the table stays as it is. It makes no difference
  -- whether an UPDATE counts the rows that it did not change.
  pub acquire_undisturbed :
      (found_rows : Bool) (now until : ℕ) (t : Table)
      → acquire found_rows key owner now until [] t
        ≡ (returned (available key owner now t), [], acquired_table now until t)
  unfolding acquire_from
  acquire_undisturbed found_rows now until t = rw (once_undisturbed found_rows now until t) refl
