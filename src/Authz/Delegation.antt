-- ===== src/Authz/Delegation.antt =====
-- authz/delegation.go: what an actor may give away, and the check that nobody removes the last access
-- that they have to a protected permission. The cache is passed along, as in Engine.
pub mod Escalation
pub mod Assignment
pub mod LastAdmin
use go_core.Prelude.{
  ℕ, ℤ, pos, is_positive, String, Bool, true, false, ◌&&◌, ◌||◌, not, List, [], ◌∷◌, ◌++◌, Option,
  none, some, lookup, any, keep, if◌then◌else◌, ◌==◌, string_eq, int_eq,
}
use go_core.Authz.Errors.{
  Result, ok, fault, Error, validation, app, permission_denied, sentinel, last_admin,
  scope_not_found, invalid_scope, organization_only, invalid_role, Problem, is_error,
  internal_error, bad_request_from, forbidden_error, escalation_error, as_validation, wrap_error,
  ◌>>=◌, ◌>>◌, demand,
}
use go_core.Authz.Types.{
  Scope, Subject, Principal, RoleRef, Role, Grant, Permission, Qualifier, qualifier_covers, Binding,
}
use go_core.Authz.Hierarchy.{Hierarchy, is_root, chain, within}
use go_core.Authz.Catalogue.{Catalogue, lookup_permission}
use go_core.Authz.Clause.{Clause, Attrs, attrs_cover}
use go_core.Authz.Effective.{Effective, Rules, RoleLookup, clauses, attrs_for, build}
use go_core.Authz.Cache.{Cache}
use go_core.Authz.Role.{resolve, validate_role, or_bare, problem}
use go_core.Authz.Engine.{Engine, Checked, effective, lookup_role}

-- The rest of an operation, once Engine.Effective has answered.
abbrev pub with_effective :
    Engine → ℕ × ℕ → Subject → (Effective → Result (Unit {0})) → Checked (Unit {0})
with_effective e t s use_it c = let (r, c') = effective e t s c in (r >>= use_it, c')

-- The inner loop of holdsAll: a clause at least as wide and as broad as the grant.
abbrev pub wide_enough : Grant → Attrs → Clause → Bool
wide_enough g wanted c = qualifier_covers c.qualifier g.qualifier && attrs_cover c.attrs wanted

-- holdsAll
unfoldable pub holds_all : Catalogue → Effective → Role → List Grant → Result (Unit {0})
holds_all cat eff role [] = ok tt
holds_all cat eff role (g ∷ gs) = elim (clauses eff g.permission) [
  | [] ↦ fault (escalation_error g.permission)
  | c ∷ cs ↦
      if any
        (wide_enough g
          (attrs_for (or_bare (lookup_permission cat g.permission)).attributes role.attrs))
        (c ∷ cs)
      then holds_all cat eff role gs
      else fault (escalation_error g.permission)
]

abbrev pub stored_computed : Error
stored_computed =
    bad_request_from (validation (problem invalid_role "" "a stored role cannot be computed" ∷ []))

-- Engine.CanSaveRole
unfoldable pub can_save_role : Engine → ℕ × ℕ → Principal → Role → Checked (Unit {0})
can_save_role e t actor role c = elim role.computed [
  | some _ ↦ (fault stored_computed, c)
  | none ↦ elim (wrap_error bad_request_from (validate_role role e.cat)) [
    | fault x ↦ (fault x, c)
    | ok _ ↦
        with_effective e t actor.subject (λ eff. holds_all e.cat eff role (resolve role e.cat)) c
  ]
]

-- holdsWithin
unfoldable pub holds_within : Effective → String → (Scope → Bool) → Bool
holds_within eff permission test = any (λ c. test c.scope) (clauses eff permission)

-- Rule (4) of CanBind.
unfoldable pub below_root_problems : Catalogue → List Grant → List Problem
below_root_problems cat [] = []
below_root_problems cat (g ∷ gs) = elim (lookup_permission cat g.permission) [
  | none ↦ below_root_problems cat gs
  | some p ↦
      if p.organization_only
      then problem organization_only p.id "" ∷ below_root_problems cat gs
      else below_root_problems cat gs
]

-- Rules (2) and (3) of CanBind, grant by grant.
unfoldable pub dangerous :
    Catalogue → Effective → (Scope → Bool) → Bool → List Grant → Result (Unit {0})
dangerous cat eff inside at_root [] = ok tt
dangerous cat eff inside at_root (g ∷ gs) =
    let p = or_bare (lookup_permission cat g.permission) in
    let rest = dangerous cat eff inside at_root gs in
    if p.system && not (holds_within eff p.id inside)
    then fault (escalation_error p.id)
    else (if p.organization_only && not at_root then fault (escalation_error p.id) else rest)

-- The chain that CanBind needs of the target scope.
unfoldable pub target_chain : Engine → Scope → Result (List Scope)
target_chain e scope = elim (chain e.h e.parent scope []) [
  | ok c ↦ ok c
  | fault x ↦
      if is_error x scope_not_found || is_error x invalid_scope
      then fault (bad_request_from x)
      else fault (internal_error x)
]

-- The part of CanBind that comes before the actor's access is loaded.
unfoldable pub bindable : Engine → Role → Scope → Result (List Scope)
bindable e role scope = do
  wrap_error bad_request_from (validate_role role e.cat)
  above ← target_chain e scope
  wrap_error bad_request_from (
      if is_root e.h scope
      then ok tt
      else as_validation (below_root_problems e.cat (resolve role e.cat)))
  ok above

-- The part that comes after.
unfoldable pub may_bind : Engine → Role → String → List Scope → Effective → Result (Unit {0})
may_bind e role manage above eff = do
  demand (holds_within eff manage (within above)) (forbidden_error manage)
  dangerous e.cat eff (within above) (holds_within eff manage (is_root e.h)) (resolve role e.cat)

-- Engine.CanBind
unfoldable pub can_bind : Engine → ℕ × ℕ → Principal → Role → Scope → String → Checked (Unit {0})
can_bind e t actor role scope manage c = elim (bindable e role scope) [
  | fault x ↦ (fault x, c)
  | ok above ↦ with_effective e t actor.subject (may_bind e role manage above) c
]

-- The bindings that stay when one is dropped; 0 drops none.
abbrev pub kept_bindings : ℤ → List Binding → List Binding
kept_bindings drop bs = keep (λ b. not (b.id == drop) || drop == pos 0) bs

-- The lookup of keepsAccess: the replaced role's new definition first.
abbrev pub overridden : Engine → Option Role → RoleLookup
overridden e override ref = elim override [
  | none ↦ lookup_role e ref
  | some role ↦ if is_positive ref.id && ref.id == role.id then ok role else lookup_role e ref
]

abbrev pub has_some : List Clause → Bool
has_some [] = false
has_some (c ∷ cs) = true

-- The last loop of keepsAccess.
unfoldable pub check_protected : Effective → Effective → List String → Result (Unit {0})
check_protected old new [] = ok tt
check_protected old new (perm ∷ perms) =
    let rest = check_protected old new perms in
    if has_some (clauses old perm) && not (has_some (clauses new perm))
    then fault (app permission_denied (sentinel last_admin perm))
    else rest

-- What keepsAccess does once the access before the change is known.
unfoldable pub keeps_after :
    Engine → Subject → List String → ℤ → Option Role → Effective → Result (Unit {0})
keeps_after e s protected drop override old = do
  bindings ← wrap_error internal_error (e.store.bindings_for s)
  new ←
      wrap_error internal_error
        (build e.rules (overridden e override) s (kept_bindings drop bindings))
  check_protected old new protected

-- Engine.keepsAccess
unfoldable pub keeps_access :
    Engine → ℕ × ℕ → Subject → List String → ℤ → Option Role → Checked (Unit {0})
keeps_access e t s protected drop override c = elim protected [
  | [] ↦ (ok tt, c)
  | p ∷ ps ↦ with_effective e t s (keeps_after e s (p ∷ ps) drop override) c
]
