-- ===== src/Authz/Clause/Covers.antt =====
-- What Clause.covers promises: a covering clause reaches every record that the covered one does.
use go_core.Prelude.{
  String, ◌≡◌, true, List, [], some, Map, lookup, lookup-mem, ◌==◌, string_eq, int_eq, contains,
  contains_elim, contains_intro, all, all_elim, all_intro, arith, Memᴰ, and_left, and_right,
  and_intro, Option-cases, or_elim, inl, inr, ==-eq,
}
use go_core.Authz.Types.{
  Scope, scope_eq, Principal, Permission, Resource, Qualifier, qualifier_all, qualifier_covers,
}
use go_core.Authz.Errors.{Result, ok}
use go_core.Authz.Hierarchy.{Hierarchy, within, chain}
use go_core.Authz.Hierarchy.Containment.{within_trans}
use go_core.Authz.Clause.{
  Clause, Attrs, subset, key_covered, attrs_cover, covers, qualifier_reaches, value_allowed,
  match_record,
}

pub subset_sound :
    (narrow wide : List String) (v : String)
    → subset narrow wide ≡ true
    → contains narrow v ≡ true
    → contains wide v ≡ true
unfolding subset
subset_sound narrow wide v sub h =
    all_elim (λ n. contains wide n) narrow sub (contains_elim narrow v h)

subset_trans : (a b c : List String) → subset a b ≡ true → subset b c ≡ true → subset a c ≡ true
subset_trans a b c ab bc =
    unfold subset in
    all_intro (λ n. contains c n) a
      λ n m. subset_sound b c n bc (subset_sound a b n ab (contains_intro a n m))

-- A key that `a` constrains is a key of `b` with fewer values.
pub key_covered_elim :
    (a b : Attrs) (key : String) (allowed : List String)
    → attrs_cover a b ≡ true
    → Memᴰ (key, allowed) a
    → (narrow : List String) × (lookup key b ≡ some narrow) × (subset narrow allowed ≡ true)
unfolding attrs_cover
key_covered_elim a b key allowed h m =
    let covered = all_elim (key_covered b) a h m in
    elim (Option-cases (lookup key b)) [
      | inl missing ↦ absurd (ground arith)
      | inr (narrow, found) ↦ (narrow, found, ground arith)
    ]

attrs_cover_trans :
    (a b c : Attrs) → attrs_cover a b ≡ true → attrs_cover b c ≡ true → attrs_cover a c ≡ true
attrs_cover_trans a b c ab bc =
    unfold attrs_cover in all_intro (key_covered c) a λ entry m. through entry.0 entry.1 m
  where
    through :
        (key : String) (allowed : List String)
        → Memᴰ (key, allowed) a
        → key_covered c (key, allowed) ≡ true
    through key allowed m =
        let (mid, in_b, mid_sub) = key_covered_elim a b key allowed ab m in
        let (low, in_c, low_sub) = key_covered_elim b c key mid bc (lookup-mem key b in_b) in
        ground (arith, in_c, subset_trans low mid allowed low_sub mid_sub)

pub attrs_cover_sound :
    (a b : Attrs) (values : Map String String)
    → attrs_cover a b ≡ true
    → all (value_allowed values) b ≡ true
    → all (value_allowed values) a ≡ true
attrs_cover_sound a b values ab h =
    all_intro (value_allowed values) a λ entry m. through entry.0 entry.1 m
  where
    through :
        (key : String) (allowed : List String)
        → Memᴰ (key, allowed) a
        → value_allowed values (key, allowed) ≡ true
    through key allowed m =
        let (narrow, in_b, sub) = key_covered_elim a b key allowed ab m in
        let passed = all_elim (value_allowed values) b h (lookup-mem key b in_b) in
        elim (Option-cases (lookup key values)) [
          | inl missing ↦ absurd (ground arith)
          | inr (v, found) ↦ ground (arith, subset_sound narrow allowed v sub)
        ]

qualifier_covers_trans :
    (a b c : Qualifier)
    → qualifier_covers a b ≡ true
    → qualifier_covers b c ≡ true
    → qualifier_covers a c ≡ true
qualifier_covers_trans a b c ab bc = ground (
  arith,
  int_eq.agrees a qualifier_all,
  int_eq.agrees b qualifier_all,
  int_eq.agrees a b,
  int_eq.agrees b c,
  int_eq.agrees a c,
)

pub qualifier_covers_sound :
    (a b : Qualifier) (p : Principal) (perm : Permission) (res : Resource)
    → qualifier_covers a b ≡ true
    → qualifier_reaches b p perm res ≡ true
    → qualifier_reaches a p perm res ≡ true
unfolding qualifier_reaches
qualifier_covers_sound a b p perm res ab h = elim (or_elim (a == qualifier_all) (a == b) ab) [
  | inl everything ↦ rw everything
  | inr same ↦ rw (==-eq a b same) h
]

pub covers_parts :
    (a b : Clause)
    → covers a b ≡ true
    → (within b.chain a.scope ≡ true)
      × (qualifier_covers a.qualifier b.qualifier ≡ true)
      × (attrs_cover a.attrs b.attrs ≡ true)
unfolding covers
covers_parts a b ab =
    let both = and_left _ (attrs_cover a.attrs b.attrs) ab in
    (
      and_left (within b.chain a.scope) _ both,
      and_right (within b.chain a.scope) _ both,
      and_right _ (attrs_cover a.attrs b.attrs) ab,
    )

-- A record that a covered clause matches, the covering clause matches.
pub match_record-covers :
    (a b : Clause) (p : Principal) (perm : Permission) (res : Resource)
    → covers a b ≡ true
    → match_record b p perm res ≡ true
    → match_record a p perm res ≡ true
unfolding covers match_record
match_record-covers a b p perm res ab h =
    let (_, wide, broad) = covers_parts a b ab in
    let reached = and_left (qualifier_reaches b.qualifier p perm res) _ h in
    let allowed = and_right (qualifier_reaches b.qualifier p perm res) _ h in
    and_intro _ _ (qualifier_covers_sound a.qualifier b.qualifier p perm res wide reached)
      (attrs_cover_sound a.attrs b.attrs res.attrs broad allowed)

module _ (h : Hierarchy) (parent : Scope → Result Scope) where
  -- The clause carries the chain of its scope.
  abbrev pub IsResolved : Clause → Type 0
  IsResolved c = chain h parent c.scope [] ≡ ok c.chain

  pub covers_trans :
      (a b c : Clause)
      → IsResolved b
      → IsResolved c
      → covers a b ≡ true
      → covers b c ≡ true
      → covers a c ≡ true
  unfolding covers
  covers_trans a b c rb rc ab bc =
      let (place, wide, broad) = covers_parts a b ab in
      let (place', wide', broad') = covers_parts b c bc in
      and_intro _ _
        (and_intro _ _ (within_trans h parent c.scope b.scope a.scope rc rb place' place)
          (qualifier_covers_trans a.qualifier b.qualifier c.qualifier wide wide'))
        (attrs_cover_trans a.attrs b.attrs c.attrs broad broad')
