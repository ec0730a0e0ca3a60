-- ===== src/Authz/Engine/Record.antt =====
-- authz/access.go: RequireRecord, over any authorizer and over the engine with its cache.
use go_core.Prelude.{
  ℕ, String, string_eq, ◌≡◌, sym, ap, ◌∙◌, inl, inr, true, false, Option, none, some, if◌then◌else◌,
  ◌==◌, ==-eq, arith, Bool-cases, Option-cases,
}
use mathlib.Core.Path.{subst}
use go_core.Authz.Errors.{
  Result, ok, fault, Error, forbidden, sentinel, unknown_permission, is_error, internal_error,
  unauthenticated_error, Result-cases,
}
use go_core.Authz.Types.{Principal, Resource}
use go_core.Authz.Catalogue.{lookup_permission}
use go_core.Authz.Effective.{clauses}
use go_core.Authz.Cache.{Cache}
use go_core.Authz.Engine.{
  Engine, Checked, Prepared, load_effective, effective, principal_from, prepare, require_on_clauses,
  require_on,
}
use go_core.Authz.Engine.Cached.{IsFresh, effective-eq-load}

-- RequireOn of an Authorizer, at the clock's readings in its call.
abbrev pub RequireOn : Type 0
RequireOn = ℕ × ℕ → String → Resource → Checked (Unit {0})

-- RequireRecord
unfoldable pub require_record :
    RequireOn → ℕ × ℕ → ℕ × ℕ → Resource → String → String → Error → Checked (Unit {0})
require_record authorizer t t' res view action not_found c =
    let (r, c') = authorizer t view res c in
    elim r [
      | fault x ↦ (fault (if is_error x forbidden then not_found else x), c')
      | ok _ ↦ elim (action == view) [ true ↦ (ok tt, c') | false ↦ authorizer t' action res c' ]
    ]

-- What the two checks, each made on its own, say together.
abbrev pub both : Result (Unit {0}) → Result (Unit {0}) → Error → Result (Unit {0})
both (fault x) acted not_found = fault (if is_error x forbidden then not_found else x)
both (ok _) acted not_found = acted

module _ (e : Engine) (ctx : Option Principal) where
  -- prepare without a cache.
  abbrev unprepared : String → Result Prepared
  unprepared permission = elim (principal_from ctx) [
    | none ↦ fault unauthenticated_error
    | some p ↦ elim (lookup_permission e.cat permission) [
      | none ↦ fault (internal_error (sentinel unknown_permission permission))
      | some perm ↦ elim (load_effective e p.subject) [
        | fault x ↦ fault x
        | ok eff ↦ ok (p, perm, eff)
      ]
    ]
  ]

  prepare_eq :
      (t : ℕ × ℕ) (permission : String) (c : Cache)
      → IsFresh e c
      → ((prepare e t ctx permission c).0 ≡ unprepared permission)
        × IsFresh e (prepare e t ctx permission c).1
  unfolding prepare
  prepare_eq t permission c fresh = elim (Option-cases (principal_from ctx)) [
    | inl nobody ↦ answered (fault unauthenticated_error, c) (ground arith) (ground arith) fresh
    | inr (p, here) ↦ elim (Option-cases (lookup_permission e.cat permission)) [
      | inl unknown ↦
          answered (fault (internal_error (sentinel unknown_permission permission)), c)
            (ground arith) (ground arith) fresh
      | inr (perm, known) ↦
          let (same, kept) = effective-eq-load e t p.subject c fresh in
          elim (Result-cases (load_effective e p.subject)) [
            | inr (x, failed) ↦
                answered (fault x, (effective e t p.subject c).1) (ground (arith, same))
                  (ground arith) kept
            | inl (eff, loaded) ↦
                answered (ok (p, perm, eff), (effective e t p.subject c).1) (ground (arith, same))
                  (ground arith) kept
          ]
    ]
  ]
    where
      answered :
          (r : Result Prepared × Cache)
          → prepare e t ctx permission c ≡ r
          → r.0 ≡ unprepared permission
          → IsFresh e r.1
          → ((prepare e t ctx permission c).0 ≡ unprepared permission)
            × IsFresh e (prepare e t ctx permission c).1
      answered r same is_it kept = rw same (is_it, kept)

  abbrev decide : String → Resource → Result Prepared → Result (Unit {0})
  decide permission res r = elim r [
    | fault x ↦ fault x
    | ok (p, perm, eff) ↦ require_on_clauses e p permission perm res none (clauses eff permission)
  ]

  require_on_eq :
      (t : ℕ × ℕ) (permission : String) (res : Resource) (c : Cache)
      → IsFresh e c
      → ((require_on e t ctx permission res c).0 ≡ decide permission res (unprepared permission))
        × IsFresh e (require_on e t ctx permission res c).1
  unfolding require_on
  require_on_eq t permission res c fresh =
      let (same, kept) = prepare_eq t permission c fresh in (ap (decide permission res) same, kept)

  -- Over the engine and a cache whose entries are what loading gives now, RequireRecord says what
  -- RequireOn says of the view and of the action when each is asked of that cache: a refused view is
  -- the error `not_found` when it was forbidden and its own error otherwise, and after a passed view
  -- the answer is that of the action, also when the action is the view and is not asked again.
  pub require_record-both :
      (t t' : ℕ × ℕ) (res : Resource) (view action : String) (not_found : Error) (c : Cache)
      → IsFresh e c
      → (require_record
          (λ t permission. require_on e t ctx permission)
          t
          t'
          res
          view
          action
          not_found
          c).0
        ≡ both (require_on e t ctx view res c).0 (require_on e t' ctx action res c).0 not_found
  unfolding require_record
  require_record-both t t' res view action not_found c fresh =
      let (viewed, kept) = require_on_eq t view res c fresh in
      let (acted, _) = require_on_eq t' action res c fresh in
      let (acted_later, _) = require_on_eq t' action res (require_on e t ctx view res c).1 kept in
      elim (Result-cases (require_on e t ctx view res c).0) [
        | inr (x, refused) ↦ ground (arith, refused)
        | inl (u, passed) ↦ elim (Bool-cases (action == view)) [
          | inr differs ↦ ground (arith, passed, differs, acted, acted_later)
          | inl same ↦
              let again = require_on_eq t' view res c fresh in
              let also : (require_on e t' ctx action res c).0 ≡ ok tt =
                subst (λ a. (require_on e t' ctx a res c).0 ≡ ok tt) (sym (==-eq action view same))
                  (again.0 ∙ sym viewed ∙ passed) in
              ground (arith, passed, same, also)
        ]
      ]
