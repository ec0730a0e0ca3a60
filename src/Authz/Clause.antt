-- ===== src/Authz/Clause.antt =====
-- authz/effective.go's Clause and access.go's matchRecord: one way in which a permission is held,
-- when one covers another, which records it reaches, and the pruning of covered clauses.
pub mod Covers
pub mod Prune
use go_core.Prelude.{
  ℕ, suc, String, ℤ, pos, Bool, true, false, ◌&&◌, ◌||◌, not, List, [], ◌∷◌, Option, none, some,
  Map, lookup, if◌then◌else◌, ◌==◌, string_eq, int_eq, nat_eq, contains, all, any, ltb,
}
use go_core.Authz.Types.{
  Scope, Kind, user, kind_eq, RoleRef, Qualifier, qualifier_own, qualifier_own_location,
  qualifier_all, qualifier_covers, Principal, Permission, Resource,
}
use go_core.Authz.Hierarchy.{within}

pub record Source : Type 0 where
  pub binding_id : ℤ
  pub role : RoleRef
  pub role_name : String

abbrev pub Attrs : Type 0
Attrs = Map String (List String)

pub record Clause : Type 0 where
  pub scope : Scope
  pub chain : List Scope
  pub qualifier : Qualifier
  pub attrs : Attrs
  pub source : Source

-- subset: every element of the first list stands in the second.
unfoldable pub subset : List String → List String → Bool
subset narrow wide = all (λ n. contains wide n) narrow

-- One key of attrsCover.
abbrev pub key_covered : Attrs → String × List String → Bool
key_covered b (key, allowed) = elim (lookup key b) [
  | none ↦ false
  | some narrow ↦ subset narrow allowed
]

-- attrsCover: every key that `a` constrains, `b` constrains to a subset.
unfoldable pub attrs_cover : Attrs → Attrs → Bool
unfolding subset
attrs_cover a b = all (key_covered b) a

-- Clause.covers
unfoldable pub covers : Clause → Clause → Bool
unfolding attrs_cover
covers a b =
    within b.chain a.scope
    && qualifier_covers a.qualifier b.qualifier
    && attrs_cover a.attrs b.attrs

-- The inner loop of prune: some other clause `o`, at position `j` on, covers `c`, and is not a later
-- equal of it.
unfoldable pub redundant : ℕ → Clause → ℕ → List Clause → Bool
redundant i c j [] = false
redundant i c j (o ∷ os) =
    let rest = redundant i c (suc j) os in
    if i == j || not (covers o c) then rest else (if covers c o && ltb i j then rest else true)

-- The outer loop of prune, from position `i` on.
unfoldable pub prune_from : List Clause → ℕ → List Clause → List Clause
unfolding redundant
prune_from clauses i [] = []
prune_from clauses i (c ∷ cs) =
    let rest = prune_from clauses (suc i) cs in if redundant i c 0 clauses then rest else c ∷ rest

-- prune
unfoldable pub prune : List Clause → List Clause
unfolding prune_from
prune clauses = prune_from clauses 0 clauses

-- The switch of matchRecord on the qualifier; any other number reaches nothing.
unfoldable pub qualifier_reaches : Qualifier → Principal → Permission → Resource → Bool
qualifier_reaches q p perm res =
    if q == qualifier_all
    then true
    else (if q == qualifier_own_location
        then not (p.location == pos 0) && res.owner_location == p.location
        else (if q == qualifier_own
            then p.subject.kind == user
              && (res.owner == p.subject.id
                  || not (res.co_owner == pos 0) && res.co_owner == p.subject.id
                  || perm.unowned_is_own && res.owner == pos 0)
            else false))

-- One key of the attribute loop of matchRecord.
abbrev pub value_allowed : Map String String → String × List String → Bool
value_allowed attrs (key, allowed) = elim (lookup key attrs) [
  | none ↦ false
  | some v ↦ contains allowed v
]

-- matchRecord
unfoldable pub match_record : Clause → Principal → Permission → Resource → Bool
unfolding qualifier_reaches
match_record c p perm res =
    qualifier_reaches c.qualifier p perm res && all (value_allowed res.attrs) c.attrs
