-- ===== src/Authz/Delegation/Escalation.antt =====
-- CanSaveRole: no escalation through a stored role.
use go_core.Prelude.{
  ℕ, ◌≡◌, Bool, true, List, [], ◌∷◌, some, any, arith, Memᴰ, any_elim, any_intro, mem_cases,
  and_left, and_right, and_intro, Option-cases, Bool-cases, inl, inr, if◌then◌else◌,
}
use go_core.Authz.Errors.{
  Result, ok, fault, Result-cases, wrap_error, bad_request_from, escalation_error, >>=-eq-ok,
}
use go_core.Authz.Types.{
  Principal, Permission, Resource, Role, Grant, Binding, Scope, Subject, qualifier_covers,
}
use go_core.Authz.Catalogue.{Catalogue, lookup_permission}
use go_core.Authz.Clause.{Clause, match_record, qualifier_reaches}
use go_core.Authz.Clause.Covers.{qualifier_covers_sound, attrs_cover_sound}
use go_core.Authz.Effective.{Effective, clauses, clause_for, attrs_for}
use go_core.Authz.Cache.{Cache}
use go_core.Authz.Role.{resolve, validate_role, or_bare}
use go_core.Authz.Engine.{Engine, load_effective, effective}
use go_core.Authz.Engine.Cached.{IsFresh, effective-eq-load}
use go_core.Authz.Delegation.{wide_enough, holds_all, can_save_role, with_effective}

-- Where the rest of an operation succeeds, it succeeded on what loading gives now.
pub with_effective_sound :
    (e : Engine) (t : ℕ × ℕ) (s : Subject) (use_it : Effective → Result (Unit {0})) (c : Cache)
    → IsFresh e c
    → (with_effective e t s use_it c).0 ≡ ok tt
    → (eff : Effective) × (load_effective e s ≡ ok eff) × (use_it eff ≡ ok tt)
with_effective_sound e t s use_it c fresh h =
    let (same, _) = effective-eq-load e t s c fresh in
    let (eff, found, used) = >>=-eq-ok (effective e t s c).0 use_it h in
    (eff, ground (arith, same), used)

abbrev wanted : Catalogue → Role → Grant → Clause → Bool
wanted cat role g =
    wide_enough g (attrs_for (or_bare (lookup_permission cat g.permission)).attributes role.attrs)

holds_all_sound :
    (cat : Catalogue) (eff : Effective) (role : Role) (gs : List Grant) {g : Grant}
    → holds_all cat eff role gs ≡ ok tt
    → Memᴰ g gs
    → (held : Clause) × Memᴰ held (clauses eff g.permission) × (wanted cat role g held ≡ true)
unfolding holds_all
holds_all_sound cat eff role [] h m = elim m [ ]
holds_all_sound cat eff role (x ∷ gs) {g} h m =
    let (here, rest) = head_holds (clauses eff x.permission) h in
    elim (mem_cases m) [
      | inl same ↦ rw same (any_elim (wanted cat role x) (clauses eff x.permission) here)
      | inr later ↦ holds_all_sound cat eff role gs rest later
    ]
  where
    head_holds :
        (cs : List Clause)
        → (elim cs [
          | [] ↦ fault (escalation_error x.permission)
          | c ∷ cs ↦
              if any (wanted cat role x) (c ∷ cs)
              then holds_all cat eff role gs
              else fault (escalation_error x.permission)
        ])
          ≡ ok tt
        → (any (wanted cat role x) cs ≡ true) × (holds_all cat eff role gs ≡ ok tt)
    head_holds [] h = absurd (ground arith)
    head_holds (c ∷ cs) h = elim (Bool-cases (any (wanted cat role x) (c ∷ cs))) [
      | inl covered ↦ (covered, ground arith)
      | inr narrow ↦ absurd (ground arith)
    ]

module _ (e : Engine) (t : ℕ × ℕ) (actor : Principal) (role : Role) (c : Cache) where
  can_save_role_holds :
      IsFresh e c
      → (can_save_role e t actor role c).0 ≡ ok tt
      → (eff : Effective) × (load_effective e actor.subject ≡ ok eff)
        × (holds_all e.cat eff role (resolve role e.cat) ≡ ok tt)
  unfolding can_save_role
  can_save_role_holds fresh h = elim (Option-cases role.computed) [
    | inr (selects, computed) ↦ absurd (ground arith)
    | inl stored ↦ elim (Result-cases (wrap_error bad_request_from (validate_role role e.cat))) [
      | inr (x, invalid) ↦ absurd (ground arith)
      | inl (unit, valid) ↦
          with_effective_sound e t actor.subject
            (λ eff. holds_all e.cat eff role (resolve role e.cat)) c fresh (ground arith)
    ]
  ]

  matches :
      (g : Grant) (perm : Permission) (held : Clause)
      → wide_enough g (attrs_for perm.attributes role.attrs) held ≡ true
      → (b : Binding) (up : List Scope) (p : Principal) (res : Resource)
      → match_record (clause_for b role up perm g) p perm res ≡ true
      → match_record held p perm res ≡ true
  unfolding match_record
  matches g perm held wide b up p res matched =
      let reached = and_left (qualifier_reaches g.qualifier p perm res) _ matched in
      let allowed = and_right (qualifier_reaches g.qualifier p perm res) _ matched in
      let wider = and_left (qualifier_covers held.qualifier g.qualifier) _ wide in
      let broader = and_right (qualifier_covers held.qualifier g.qualifier) _ wide in
      and_intro _ _ (qualifier_covers_sound held.qualifier g.qualifier p perm res wider reached) (
        attrs_cover_sound held.attrs (attrs_for perm.attributes role.attrs) res.attrs broader
          allowed)

  -- Where CanSaveRole, over a cache whose entries are what loading gives now, lets an actor store a
  -- role: a record that a grant of the role on a permission of the catalogue matches, wherever and
  -- by whichever binding the role is given and whoever then asks, is matched by a clause of the
  -- same permission that the actor holds.
  pub can_save_role-holds :
      {g : Grant} {perm : Permission} (b : Binding) (up : List Scope) (p : Principal)
      (res : Resource)
      → IsFresh e c
      → (can_save_role e t actor role c).0 ≡ ok tt
      → Memᴰ g (resolve role e.cat)
      → lookup_permission e.cat g.permission ≡ some perm
      → match_record (clause_for b role up perm g) p perm res ≡ true
      → (eff : Effective) × (load_effective e actor.subject ≡ ok eff)
        × (any (λ held. match_record held p perm res) (clauses eff g.permission) ≡ true)
  can_save_role-holds {g} {perm} b up p res fresh h m known matched =
      let (eff, loaded, all_held) = can_save_role_holds fresh h in
      let (held, among, wide) = holds_all_sound e.cat eff role (resolve role e.cat) all_held m in
      let reached = matches g perm held (rw known at wide) b up p res matched in
      (
        eff,
        loaded,
        any_intro (λ held. match_record held p perm res) (clauses eff g.permission) among reached,
      )
