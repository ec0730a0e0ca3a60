-- ===== src/Lock/Hold/Clients.antt =====
-- lock/gormstore/gormstore.go: what the statements of other clients can do to the row of a key.
use go_core.Prelude.{
  ℕ, ◌≤◌, String, string_eq, ◌≡◌, sym, ◌∙◌, Bool, false, ◌||◌, some, lookup, lookup-insert,
  lookup-delete, ltb, ◌==◌, ==-eq, ==_refl, arith, Option-cases, Bool-cases, inl, inr,
}
use go_core.Lock.{Row, Table, take_over, extend, create_unless_duplicate, delete_mine}
use go_core.Lock.Leases.{Leased, take_over_denied, extend_denied, create_denied}
use go_core.Lock.Hold.{Act, takes, extends, creates, deletes, elsewhere, Acts, none_yet, then_act}

module _ (key owner : String) where
  -- A row of the owner, where there is one, runs until `end` at least.
  abbrev pub Lasting : ℕ → Table → Type 0
  Lasting end t = (row : Row) → lookup key t ≡ some row → row.owner ≡ owner → end ≤ row.lease_until

  module _ (other : String) (stranger : (other == owner) ≡ false) where
    take_over_back :
        (rows : Bool) (now until : ℕ) (t : Table) (row : Row)
        → lookup key (take_over rows key other now until t).1 ≡ some row
        → row.owner ≡ owner
        → lookup key t ≡ some row
    unfolding take_over
    take_over_back rows now until t row found his = elim (Option-cases (lookup key t)) [
      | inl free ↦ ground arith
      | inr (old, there) ↦ elim (Bool-cases (old.owner == other || ltb old.lease_until now)) [
        | inr left ↦ ground arith
        | inl taken ↦
            let new : Row = record { owner = other; lease_until = until } in
            absurd (
              ground
                (arith, lookup-insert key key new t, ==_refl key, ==_refl other, ==_refl owner))
      ]
    ]

    extend_back :
        (rows : Bool) (until : ℕ) (t : Table) (row : Row)
        → lookup key (extend rows key other until t).1 ≡ some row
        → row.owner ≡ owner
        → lookup key t ≡ some row
    unfolding extend
    extend_back rows until t row found his = elim (Option-cases (lookup key t)) [
      | inl free ↦ ground arith
      | inr (old, there) ↦ elim (Bool-cases (old.owner == other)) [
        | inr left ↦ ground arith
        | inl theirs ↦
            let new : Row = record old { lease_until = until } in
            absurd (ground (arith, lookup-insert key key new t, ==_refl key, ==-eq old.owner other))
      ]
    ]

    create_back :
        (until : ℕ) (t : Table) (row : Row)
        → lookup key (create_unless_duplicate key other until t).1 ≡ some row
        → row.owner ≡ owner
        → lookup key t ≡ some row
    unfolding create_unless_duplicate
    create_back until t row found his = elim (Option-cases (lookup key t)) [
      | inr (old, there) ↦ ground arith
      | inl free ↦
          let new : Row = record { owner = other; lease_until = until } in
          absurd (ground (arith, lookup-insert key key new t, ==_refl key, ==_refl owner))
    ]

    delete_back :
        (t : Table) (row : Row)
        → lookup key (delete_mine key other t).1 ≡ some row
        → lookup key t ≡ some row
    unfolding delete_mine
    delete_back t row found = elim (Option-cases (lookup key t)) [
      | inl free ↦ ground arith
      | inr (old, there) ↦ elim (Bool-cases (old.owner == other)) [
        | inr left ↦ ground arith
        | inl theirs ↦ absurd (ground (arith, lookup-delete key key t, ==_refl key))
      ]
    ]

    delete_kept :
        (end : ℕ) (t : Table)
        → Leased key owner end t
        → Leased key owner end (delete_mine key other t).1
    unfolding delete_mine
    delete_kept end t (row, found, his, live) =
        let not_theirs : (row.owner == other) ≡ false =
          ground (arith, ==-eq row.owner other, ==_refl owner) in
        let same : (delete_mine key other t).1 ≡ t = ground arith in rw same (row, found, his, live)

  Act-back :
      (clock : ℕ) (t t' : Table) (row : Row)
      → Act key owner clock t t'
      → lookup key t' ≡ some row
      → row.owner ≡ owner
      → lookup key t ≡ some row
  Act-back clock t t' row (takes rows other now until stranger early) found his =
      take_over_back other stranger rows now until t row found his
  Act-back clock t t' row (extends rows other until stranger) found his =
      extend_back other stranger rows until t row found his
  Act-back clock t t' row (creates other until stranger) found his =
      create_back other stranger until t row found his
  Act-back clock t t' row (deletes other stranger) found his =
      delete_back other stranger t row found
  Act-back clock t t' row (elsewhere same) found his = sym same ∙ found

  Act-Leased :
      (clock end : ℕ) (t t' : Table)
      → Act key owner clock t t'
      → clock ≤ end
      → Leased key owner end t
      → Leased key owner end t'
  Act-Leased clock end t t' (takes rows other now until stranger past) early leased =
      (take_over_denied key owner end other stranger rows now until t (omega arith) leased).1
  Act-Leased clock end t t' (extends rows other until stranger) early leased =
      (extend_denied key owner end other stranger rows until t leased).1
  Act-Leased clock end t t' (creates other until stranger) early leased =
      (create_denied key owner end other stranger until t leased).1
  Act-Leased clock end t t' (deletes other stranger) early leased =
      delete_kept other stranger end t leased
  Act-Leased clock end t t' (elsewhere same) early (row, found, his, live) =
      (row, same ∙ found, his, live)

  -- The row of the owner, where it is there after what others did, was there before.
  pub Acts-back :
      (clock : ℕ) (t t' : Table) (row : Row)
      → Acts key owner clock t t'
      → lookup key t' ≡ some row
      → row.owner ≡ owner
      → lookup key t ≡ some row
  Acts-back clock t t' row none_yet found his = found
  Acts-back clock t t' row (then_act {u = u} acts act) found his =
      Acts-back clock t u row acts (Act-back clock u t' row act found his) his

  -- While the lease runs, it stands.
  pub Acts-Leased :
      (clock end : ℕ) (t t' : Table)
      → Acts key owner clock t t'
      → clock ≤ end
      → Leased key owner end t
      → Leased key owner end t'
  Acts-Leased clock end t t' none_yet early leased = leased
  Acts-Leased clock end t t' (then_act {u = u} acts act) early leased =
      Act-Leased clock end u t' act early (Acts-Leased clock end t u acts early leased)

  pub Acts-Lasting :
      (clock end : ℕ) (t t' : Table) → Acts key owner clock t t' → Lasting end t → Lasting end t'
  Acts-Lasting clock end t t' acts lasting row found his =
      lasting row (Acts-back clock t t' row acts found his) his

  -- The row is nobody's or somebody else's.
  abbrev pub Gone : Table → Type 0
  Gone t = (row : Row) → lookup key t ≡ some row → (row.owner == owner) ≡ false

  pub Acts-Gone : (clock : ℕ) (t t' : Table) → Acts key owner clock t t' → Gone t → Gone t'
  Acts-Gone clock t t' acts gone row found = elim (Bool-cases (row.owner == owner)) [
    | inr away ↦ away
    | inl his ↦
        let before = gone row (Acts-back clock t t' row acts found (==-eq row.owner owner his)) in
        absurd (ground (arith, his, before))
  ]
