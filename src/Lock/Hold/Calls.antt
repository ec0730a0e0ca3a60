-- ===== src/Lock/Hold/Calls.antt =====
-- lock/gormstore/gormstore.go: what the holder's own calls leave, whatever other clients do between
-- their statements and whichever of them the database refuses.
use go_core.Prelude.{
  ℕ, String, string_eq, ◌≡◌, refl, Bool, true, false, ◌&&◌, ◌||◌, not, List, [], ◌∷◌, Option, none,
  some, lookup, insert, lookup-insert, nat_beq, ltb, ◌==◌, ==-eq, ==_refl, arith, Option-cases,
  Bool-cases, inl, inr,
}
use go_core.Lock.{
  Row, Table, DbError, Outcome, returned, failed, Moment, Db, statement, and_then, take_over,
  extend, count_mine, create_unless_duplicate,
}
use go_core.Lock.Leases.{Leased}
use go_core.Lock.Hold.{Acts, Foreign}
use go_core.Lock.Hold.Clients.{Lasting}

module _ (key owner : String) (clock : ℕ) where
  -- A call failed with the table so, or its answer and the table are so; the others go on as they did.
  abbrev pub After :
      {A : Type 0}
      → (Table → Type 0)
      → (A → Table → Type 0)
      → Outcome A × List Moment × Table
      → Type 0
  After E Q (returned a, later, t) = Foreign key owner clock later × Q a t
  After E Q (failed e, later, t) = Foreign key owner clock later × E t

  pub statement-After :
      {A : Type 0} (P E : Table → Type 0) (Q : A → Table → Type 0) (run : Table → A × Table)
      (later : List Moment) (t : Table)
      → ((u v : Table) → Acts key owner clock u v → P u → P v)
      → ((u : Table) → P u → E u)
      → ((u : Table) → P u → Q (run u).0 (run u).1)
      → Foreign key owner clock later
      → P t
      → After E Q (statement run later t)
  statement-After P E Q run [] t keeps fails runs foreign before = (tt, runs t before)
  statement-After P E Q run (m ∷ later) t keeps fails runs (acts, foreign) before =
      go m.refused (keeps t (m.meanwhile t) (acts t) before)
    where
      go :
          (r : Option DbError)
          → P (m.meanwhile t)
          → After E Q (elim r [
            | some e ↦ (failed e, later, m.meanwhile t)
            | none ↦ (returned (run (m.meanwhile t)).0, later, (run (m.meanwhile t)).1)
          ])
      go none now = (foreign, runs (m.meanwhile t) now)
      go (some e) now = (foreign, fails (m.meanwhile t) now)

  pub and_then-After :
      {A B : Type 0} (E : Table → Type 0) (Q : A → Table → Type 0) (R : B → Table → Type 0)
      (r : Outcome A × List Moment × Table) (next : A → Db B)
      → After E Q r
      → ((a : A) (later : List Moment) (t : Table)
          → Foreign key owner clock later
          → Q a t
          → After E R (next a later t))
      → After E R (and_then r next)
  and_then-After E Q R (failed e, later, t) next after nexts = after
  and_then-After E Q R (returned a, later, t) next (foreign, so) nexts = nexts a later t foreign so

  -- The answer is "yes" only with the lease until `end`, and a row of the owner lasts so long anyway.
  abbrev pub Granted : ℕ → Bool → Table → Type 0
  Granted end answer t = Lasting key owner end t × (answer ≡ true → Leased key owner end t)

  abbrev pub Anything : Table → Type 0
  Anything t = Unit {0}

  Lasting-Leased :
      (end : ℕ) (t : Table)
      → Lasting key owner end t
      → (count_mine key owner t).0 ≡ true
      → Leased key owner end t
  unfolding count_mine
  Lasting-Leased end t lasting said = elim (Option-cases (lookup key t)) [
    | inl missing ↦ absurd (ground arith)
    | inr (row, found) ↦
        let his : row.owner ≡ owner = ground (arith, ==-eq row.owner owner) in
        (row, found, his, lasting row found his)
  ]

  pub count_mine-Granted :
      (end : ℕ) (t : Table)
      → Lasting key owner end t
      → Granted end (count_mine key owner t).0 (count_mine key owner t).1
  unfolding count_mine
  count_mine-Granted end t lasting = elim (Option-cases (lookup key t)) [
    | inl missing ↦
        let same : count_mine key owner t ≡ (false, t) = ground arith in
        rw same (lasting, λ said. absurd (ground arith))
    | inr (row, found) ↦
        let same : count_mine key owner t ≡ (row.owner == owner, t) = ground arith in
        rw same (lasting, λ said. Lasting-Leased end t lasting (ground arith))
  ]

  written :
      (end : ℕ) (answer : Bool) (t : Table)
      → Granted end answer (insert key (record { owner = owner; lease_until = end }) t)
  written end answer t =
      let new : Row = record { owner = owner; lease_until = end } in
      (
        λ row found his. ground (arith, lookup-insert key key new t, ==_refl key),
        λ said. (new, ground (arith, lookup-insert key key new t, ==_refl key), refl, omega arith),
      )

  -- The table stays as it is, and has no row of the owner.
  untouched :
      (end : ℕ) (t : Table)
      → ((row : Row) → lookup key t ≡ some row → (row.owner == owner) ≡ false)
      → Granted end false t
  untouched end t gone = (
    λ row found his. absurd (ground (arith, gone row found, ==_refl owner)),
    λ said. absurd (ground arith),
  )

  pub take_over-Granted :
      (found_rows : Bool) (now end : ℕ) (t : Table)
      → Granted end
          (take_over found_rows key owner now end t).0
          (take_over found_rows key owner now end t).1
  unfolding take_over
  take_over-Granted found_rows now end t = elim (Option-cases (lookup key t)) [
    | inl free ↦
        let same : take_over found_rows key owner now end t ≡ (false, t) = ground arith in
        rw same (untouched end t (λ row found. absurd (ground arith)))
    | inr (row, there) ↦ elim (Bool-cases (row.owner == owner || ltb row.lease_until now)) [
      | inl taken ↦
          let same : take_over found_rows key owner now end t ≡ (
            found_rows || not (row.owner == owner && nat_beq row.lease_until end),
            insert key (record { owner = owner; lease_until = end }) t,
          ) =
            ground arith in
          rw same (written end _ t)
      | inr left ↦
          let same : take_over found_rows key owner now end t ≡ (false, t) = ground arith in
          rw same (untouched end t (λ old found. ground arith))
    ]
  ]

  pub create-Granted :
      (end : ℕ) (t : Table)
      → Lasting key owner end t
      → Granted end
          (create_unless_duplicate key owner end t).0
          (create_unless_duplicate key owner end t).1
  unfolding create_unless_duplicate
  create-Granted end t lasting = elim (Option-cases (lookup key t)) [
    | inr (row, there) ↦
        let same : create_unless_duplicate key owner end t ≡ (false, t) = ground arith in
        rw same (lasting, λ said. absurd (ground arith))
    | inl free ↦
        let same : create_unless_duplicate key owner end t
            ≡ (true, insert key (record { owner = owner; lease_until = end }) t) =
          ground arith in
        rw same (written end true t)
  ]

  pub extend-Granted :
      (found_rows : Bool) (end : ℕ) (t : Table)
      → Granted end (extend found_rows key owner end t).0 (extend found_rows key owner end t).1
  unfolding extend
  extend-Granted found_rows end t = elim (Option-cases (lookup key t)) [
    | inl free ↦
        let same : extend found_rows key owner end t ≡ (false, t) = ground arith in
        rw same (untouched end t (λ row found. absurd (ground arith)))
    | inr (row, there) ↦ elim (Bool-cases (row.owner == owner)) [
      | inl his ↦
          let owned = ==-eq row.owner owner his in
          let same : extend found_rows key owner end t ≡ (
            found_rows || not (nat_beq row.lease_until end),
            insert key (record { owner = owner; lease_until = end }) t,
          ) =
            ground (arith, owned) in
          rw same (written end _ t)
      | inr left ↦
          let same : extend found_rows key owner end t ≡ (false, t) = ground arith in
          rw same (untouched end t (λ old found. ground arith))
    ]
  ]
