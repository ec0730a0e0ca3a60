-- ===== src/Lock/Hold/Standing.antt =====
-- lock/gormstore/gormstore.go: a refresh of the holder, whatever it answers, leaves the lease standing,
-- and the release that is carried out ends it.
use go_core.Prelude.{
  ℕ, ◌≤◌, String, string_eq, ◌≡◌, Bool, true, false, List, [], ◌∷◌, none, lookup, insert,
  lookup-insert, lookup-delete, if◌then◌else◌, ◌==◌, ==_refl, arith, Option-cases, Bool-cases, inl,
  inr,
}
use go_core.Lock.{
  Row, Table, Outcome, returned, failed, Moment, statement, return, extend, count_mine, delete_mine,
  mine, refresh, release,
}
use go_core.Lock.Leases.{Leased}
use go_core.Lock.Hold.{Acts, Foreign}
use go_core.Lock.Hold.Clients.{Acts-Leased, Gone}
use go_core.Lock.Hold.Calls.{After, statement-After, and_then-After}

module _ (key owner : String) (clock : ℕ) where
  module _ (end : ℕ) (early : clock ≤ end) where
    abbrev Stands : {A : Type 0} → A → Table → Type 0
    Stands a t = Leased key owner end t

    keeps-Leased :
        (u v : Table) → Acts key owner clock u v → Leased key owner end u → Leased key owner end v
    keeps-Leased u v acts leased = Acts-Leased key owner clock end u v acts early leased

    extend_stands :
        (found_rows : Bool) (until : ℕ) (t : Table)
        → end ≤ until
        → Leased key owner end t
        → Leased key owner end (extend found_rows key owner until t).1
    unfolding extend
    extend_stands found_rows until t longer (row, found, his, live) =
        let new : Row = record row { lease_until = until } in
        let same : (extend found_rows key owner until t).1 ≡ insert key new t =
          ground (arith, his, ==_refl owner) in
        rw same (new, ground (arith, lookup-insert key key new t, ==_refl key), his, longer)

    count_mine_stands :
        (t : Table) → Leased key owner end t → Leased key owner end (count_mine key owner t).1
    unfolding count_mine
    count_mine_stands t (row, found, his, live) =
        let same : (count_mine key owner t).1 ≡ t = ground arith in rw same (row, found, his, live)

    left_standing :
        (r : Outcome Bool × List Moment × Table)
        → After key owner clock (Leased key owner end) Stands r
        → Leased key owner end r.2
    left_standing (returned b, later, t) (foreign, leased) = leased
    left_standing (failed e, later, t) (foreign, leased) = leased

    -- Before the lease is over, a refresh to a later end leaves it standing, also when it fails.
    pub refresh_stands :
        (found_rows : Bool) (until : ℕ) (later : List Moment) (t : Table)
        → end ≤ until
        → Foreign key owner clock later
        → Leased key owner end t
        → Leased key owner end (refresh found_rows key owner until later t).2
    unfolding refresh
    refresh_stands found_rows until later t longer foreign leased =
        left_standing (refresh found_rows key owner until later t) (
          and_then-After key owner clock (Leased key owner end) Stands Stands
            (statement (extend found_rows key owner until) later t) _
            (statement-After key owner clock (Leased key owner end) (Leased key owner end) Stands
              (extend found_rows key owner until) later t keeps-Leased (λ u h. h)
              (λ u h. extend_stands found_rows until u longer h) foreign leased)
            next_stands)
      where
        next_stands :
            (moved : Bool) (later : List Moment) (t : Table)
            → Foreign key owner clock later
            → Leased key owner end t
            → After key owner clock
                (Leased key owner end)
                Stands
                (if moved then return true later t else mine key owner later t)
        next_stands true later t foreign leased = (foreign, leased)
        next_stands false later t foreign leased =
            statement-After key owner clock (Leased key owner end) (Leased key owner end) Stands
              (count_mine key owner) later t keeps-Leased (λ u h. h) count_mine_stands foreign
              leased

  delete_mine-Gone : (t : Table) → Gone key owner (delete_mine key owner t).1
  unfolding delete_mine
  delete_mine-Gone t row found = elim (Option-cases (lookup key t)) [
    | inl free ↦ absurd (ground arith)
    | inr (old, there) ↦ elim (Bool-cases (old.owner == owner)) [
      | inl his ↦ absurd (ground (arith, lookup-delete key key t, ==_refl key))
      | inr other ↦ ground arith
    ]
  ]

  -- A release that is carried out leaves no row of the owner.
  pub release-Gone :
      (moment : Moment) (t : Table)
      → moment.refused ≡ none
      → Gone key owner (release key owner (moment ∷ []) t).2
  unfolding release
  release-Gone moment t accepted =
      let same : (release key owner (moment ∷ []) t).2
          ≡ (delete_mine key owner (moment.meanwhile t)).1 =
        ground arith in
      rw same (delete_mine-Gone (moment.meanwhile t))
