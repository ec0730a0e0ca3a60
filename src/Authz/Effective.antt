-- ===== src/Authz/Effective.antt =====
-- authz/effective.go's Effective and authz/engine.go's build: what a subject may do, resolved from
-- its bindings. The store is a Reader and the application's ScopeResolver is `parent`; both are
-- parameters. A set of numbers is a list with no number twice.
pub mod Build
pub mod Resolved
pub mod RoleChange
pub mod Valid
use go_core.Prelude.{
  ℕ, String, ℤ, is_positive, Bool, true, false, ◌&&◌, ◌||◌, not, List, [], ◌∷◌, ◌++◌, Option, none,
  some, Map, lookup, insert, if◌then◌else◌, ◌==◌, string_eq, int_eq, contains, length, nat_beq,
}
use go_core.Authz.Errors.{
  Result, ok, fault, Error, sentinel, role_not_found, scope_not_found, invalid_scope, is_error,
  ◌>>=◌,
}
use go_core.Authz.Types.{
  Scope, Subject, RoleRef, role_ref_eq, role_ref_valid, Grant, Permission, Role, Binding,
  qualifier_all, qualifier_valid, ownable,
}
use go_core.Authz.Hierarchy.{Hierarchy, is_root, chain, tenant_of}
use go_core.Authz.Catalogue.{Catalogue, lookup_permission}
use go_core.Authz.Role.{resolve}
use go_core.Authz.Clause.{Clause, Source, Attrs}

-- authz/store.go's Reader.
pub record Reader : Type 0 where
  pub bindings_for : Subject → Result (List Binding)
  pub role : ℤ → Result Role

pub record Effective : Type 0 where
  pub subject : Subject
  pub grants : Map String (List Clause)
  pub role_ids : List ℤ
  pub tenants : List ℤ
  pub has_root : Bool
  pub unpinned : Bool

abbrev pub no_access : Subject → Effective
no_access s = record {
  subject = s;
  grants = [];
  role_ids = [];
  tenants = [];
  has_root = false;
  unpinned = false;
}

abbrev pub or_none : Option (List Clause) → List Clause
or_none none = []
or_none (some cs) = cs

-- eff.grants[permission]: no entry reads as no clauses.
unfoldable pub clauses : Effective → String → List Clause
clauses eff permission = or_none (lookup permission eff.grants)

-- m[id] = struct{}{}
abbrev pub add_id : ℤ → List ℤ → List ℤ
add_id id ids = if contains ids id then ids else id ∷ ids

-- Effective.usesRole
abbrev pub uses_role : Effective → ℤ → Bool
uses_role eff id = contains eff.role_ids id

-- Effective.Tenant
unfoldable pub tenant : Effective → Option ℤ
tenant eff =
    if eff.has_root || eff.unpinned || not (nat_beq (length eff.tenants) 1)
    then none
    else elim eff.tenants [ [] ↦ none | id ∷ _ ↦ some id ]

-- attrsFor: the role's constraints on the attributes that the permission declares.
unfoldable pub attrs_for : List String → Attrs → Attrs
attrs_for [] role_attrs = []
attrs_for (key ∷ keys) role_attrs = elim (lookup key role_attrs) [
  | none ↦ attrs_for keys role_attrs
  | some values ↦ insert key values (attrs_for keys role_attrs)
]

-- The parts of an Engine that build reads.
pub record Rules : Type 0 where
  pub cat : Catalogue
  pub h : Hierarchy
  pub parent : Scope → Result Scope

abbrev pub RoleLookup : Type 0
RoleLookup = RoleRef → Result Role

-- The tests of addClauses: the permission under which a grant of a binding at `scope` counts.
unfoldable pub effective_permission : Rules → Scope → Grant → Option Permission
effective_permission e scope g = elim (lookup_permission e.cat g.permission) [
  | none ↦ none
  | some p ↦
      if not (qualifier_valid g.qualifier) || not (ownable p) && not (g.qualifier == qualifier_all)
      then none
      else (if p.organization_only && not (is_root e.h scope) then none else some p)
]

-- The clause that addClauses makes of a grant.
abbrev pub clause_for : Binding → Role → List Scope → Permission → Grant → Clause
clause_for b role chain p g = record {
  scope = b.scope;
  chain = chain;
  qualifier = g.qualifier;
  attrs = attrs_for p.attributes role.attrs;
  source = record { binding_id = b.id; role = b.role; role_name = role.name };
}

-- eff.grants[id] = append(eff.grants[id], c)
abbrev pub append_clause : String → Clause → Map String (List Clause) → Map String (List Clause)
append_clause id c m = insert id (or_none (lookup id m) ++ c ∷ []) m

-- The loop of addClauses, and whether it added any.
unfoldable pub add_grants :
    Rules
    → Binding
    → Role
    → List Scope
    → List Grant
    → Map String (List Clause)
    → Map String (List Clause) × Bool
unfolding effective_permission
add_grants e b role chain [] m = (m, false)
add_grants e b role chain (g ∷ gs) m = elim (effective_permission e b.scope g) [
  | none ↦ add_grants e b role chain gs m
  | some p ↦
      ((add_grants e b role chain gs (append_clause p.id (clause_for b role chain p g) m)).0, true)
]

-- Where a binding that grants something pins its tenant.
unfoldable pub pin : Rules → Scope → List Scope → Effective → Effective
pin e scope chain eff =
    if is_root e.h scope then record eff { has_root = true } else elim (tenant_of e.h chain) [
      | some t ↦ record eff { tenants = add_id t.id eff.tenants }
      | none ↦ record eff { unpinned = true }
    ]

-- addClauses, with the flags that build sets when it added any.
unfoldable pub add_clauses : Rules → Binding → Role → List Scope → Effective → Effective
unfolding add_grants
add_clauses e b role chain eff =
    let (m, added) = add_grants e b role chain (resolve role e.cat) eff.grants in
    let eff' = record eff { grants = m } in if added then pin e b.scope chain eff' else eff'

-- The second half of a round of build, once the role is known.
unfoldable pub build_scope : Rules → Binding → Role → Effective → Result Effective
build_scope e b role eff = elim (chain e.h e.parent b.scope []) [
  | ok c ↦ ok (add_clauses e b role c eff)
  | fault x ↦ if is_error x scope_not_found || is_error x invalid_scope then ok eff else fault x
]

-- The role IDs that build notes, also for a binding that it then skips.
abbrev pub note_role : Binding → Effective → Effective
note_role b eff =
    if is_positive b.role.id then record eff { role_ids = add_id b.role.id eff.role_ids } else eff

abbrev pub Memo : Type 0
Memo = Map RoleRef Role

-- One round of the loop of build; the roles already loaded are kept beside the access.
unfoldable pub build_round :
    Rules → RoleLookup → Binding → Memo × Effective → Result (Memo × Effective)
unfolding build_scope
build_round e load b (roles, eff) =
    if not (role_ref_valid b.role) then ok (roles, eff) else elim (lookup b.role roles) [
      | some role ↦ do eff' ← build_scope e b role (note_role b eff); ok (roles, eff')
      | none ↦ elim (load b.role) [
        | fault x ↦ if is_error x role_not_found then ok (roles, note_role b eff) else fault x
        | ok role ↦ do
          eff' ← build_scope e b role (note_role b eff)
          ok (insert b.role role roles, eff')
      ]
    ]

unfoldable pub build_from : Rules → RoleLookup → List Binding → Memo × Effective → Result Effective
unfolding build_round
build_from e load [] (roles, eff) = ok eff
build_from e load (b ∷ bs) state = do
  state' ← build_round e load b state
  build_from e load bs state'

-- Engine.build
unfoldable pub build : Rules → RoleLookup → Subject → List Binding → Result Effective
unfolding build_from
build e load s bindings = build_from e load bindings ([], no_access s)
