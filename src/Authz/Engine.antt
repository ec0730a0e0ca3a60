-- ===== src/Authz/Engine.antt =====
-- authz/engine.go and access.go: the decisions. An Engine's parts are a record; the cache is passed
-- from call to call. The store, the ScopeResolver and the FeatureResolver are parameters; `ctx` is
-- the principal that the request carries, if any; `t` holds the clock's readings in Cache.get and put.
pub mod Setup
pub mod Payload
pub mod Holders
pub mod Record
pub mod Decisions
pub mod Cached
pub mod Agreement
pub mod Unrestricted
use go_core.Prelude.{
  ℕ, String, Bool, true, false, ◌&&◌, ◌||◌, not, List, [], ◌∷◌, Option, none, some, Map, lookup,
  if◌then◌else◌, ◌==◌, string_eq, int_eq, any,
}
use go_core.Authz.Errors.{
  Result, ok, fault, Error, sentinel, role_not_found, scope_not_found, invalid_scope,
  unknown_permission, is_error, panic, internal_error, forbidden_error, unauthenticated_error,
  ◌>>=◌, wrap_error,
}
use go_core.Authz.Types.{
  qualifier_all, Scope, scope_is_zero, Subject, subject_valid, Principal, RoleRef, Role, Permission,
  Resource,
}
use go_core.Authz.Hierarchy.{Hierarchy, root, is_root, chain, within, tenant_of}
use go_core.Authz.Catalogue.{Catalogue, lookup_permission}
use go_core.Authz.Clause.{Clause, match_record, prune}
use go_core.Authz.Effective.{Reader, Effective, Rules, clauses, build}
use go_core.Authz.Cache.{Cache, get, begin, put}

abbrev pub FeatureResolver : Type 0
FeatureResolver = Scope → String → Result Bool

pub record Engine : Type 0 where
  pub rules : Rules
  pub open rules use *
  pub roles : Map String Role
  pub store : Reader
  pub features : Option FeatureResolver

-- Engine.lookupRole
unfoldable pub lookup_role : Engine → RoleRef → Result Role
lookup_role e ref =
    if not (ref.key == "")
    then elim (lookup ref.key e.roles) [
      | none ↦ fault (sentinel role_not_found ref.key)
      | some r ↦ ok r
    ]
    else e.store.role ref.id

-- What Engine.Effective loads on a miss.
unfoldable pub load_effective : Engine → Subject → Result Effective
load_effective e s = do
  bindings ← wrap_error internal_error (e.store.bindings_for s)
  wrap_error internal_error (build e.rules (lookup_role e) s bindings)

abbrev pub Checked : Type 0 → Type 0
Checked A = Cache → Result A × Cache

-- Engine.Effective
unfoldable pub effective : Engine → ℕ × ℕ → Subject → Checked Effective
effective e (t_get, t_put) s c = elim (get s t_get c).0 [
  | some eff ↦ (ok eff, (get s t_get c).1)
  | none ↦ elim (load_effective e s) [
    | fault x ↦ (fault x, (get s t_get c).1)
    | ok eff ↦ (ok eff, put s eff (begin (get s t_get c).1) t_put (get s t_get c).1)
  ]
]

-- PrincipalFrom
abbrev pub principal_from : Option Principal → Option Principal
principal_from ctx = elim ctx [
  | none ↦ none
  | some p ↦ if subject_valid p.subject then some p else none
]

abbrev pub Prepared : Type 0
Prepared = Principal × Permission × Effective

-- Engine.prepare
unfoldable pub prepare : Engine → ℕ × ℕ → Option Principal → String → Checked Prepared
prepare e t ctx permission c = elim (principal_from ctx) [
  | none ↦ (fault unauthenticated_error, c)
  | some p ↦ elim (lookup_permission e.cat permission) [
    | none ↦ (fault (internal_error (sentinel unknown_permission permission)), c)
    | some perm ↦
        let (r, c') = effective e t p.subject c in
        (elim r [ fault x ↦ fault x | ok eff ↦ ok (p, perm, eff) ], c')
  ]
]

-- Engine.featureOn
unfoldable pub feature_on : Engine → Permission → Scope → List Scope → Result Bool
feature_on e perm fallback chain = if perm.feature == "" then ok true else elim e.features [
  | none ↦ fault (panic "nil FeatureResolver")
  | some enabled ↦ elim (tenant_of e.h chain) [
    | some t ↦ enabled t perm.feature
    | none ↦ enabled fallback perm.feature
  ]
]

-- The loop of Engine.Require.
unfoldable pub require_clauses : Engine → String → Permission → List Clause → Result (Unit {0})
require_clauses e permission perm [] = fault (forbidden_error permission)
require_clauses e permission perm (c ∷ cs) = elim (feature_on e perm c.scope c.chain) [
  | fault x ↦ fault (internal_error x)
  | ok true ↦ ok tt
  | ok false ↦ require_clauses e permission perm cs
]

-- Engine.Require
unfoldable pub require : Engine → ℕ × ℕ → Option Principal → String → Checked (Unit {0})
require e t ctx permission c =
    let (r, c') = prepare e t ctx permission c in
    (
      elim r [
        | fault x ↦ fault x
        | ok (p, perm, eff) ↦ require_clauses e permission perm (clauses eff permission)
      ],
      c',
    )

-- Engine.resourceChain
unfoldable pub resource_chain : Engine → Resource → Result (List Scope)
resource_chain e res =
    if scope_is_zero res.scope
    then ok (root e.h ∷ [])
    else elim (chain e.h e.parent res.scope res.ancestors) [
      | ok c ↦ ok c
      | fault x ↦
          if is_error x scope_not_found || is_error x invalid_scope
          then ok []
          else fault (internal_error x)
    ]

-- The record's chain, resolved at most once.
abbrev pub chain_once : Engine → Resource → Option (List Scope) → Result (List Scope)
chain_once e res done = elim done [ some c ↦ ok c | none ↦ resource_chain e res ]

-- The scope and the chain that the feature gate of a record's check goes by.
abbrev pub gate : Resource → Option (List Scope) → Clause → Scope × List Scope
gate res done c = elim done [
  | none ↦ (c.scope, c.chain)
  | some rc ↦ if scope_is_zero res.scope then (c.scope, c.chain) else (res.scope, rc)
]

-- The loop of Engine.RequireOn; `done` is the record's chain once it is resolved.
module _ (e : Engine) (p : Principal) (permission : String) (perm : Permission)
    (res : Resource) where
  -- The part of a round after the scope test: the record, then the feature gate. `rest` is what the
  -- remaining rounds answer.
  unfoldable pub judge : Option (List Scope) → Clause → Result (Unit {0}) → Result (Unit {0})
  judge done c rest =
      if not (match_record c p perm res)
      then rest
      else elim (feature_on e perm (gate res done c).0 (gate res done c).1) [
        | fault x ↦ fault (internal_error x)
        | ok true ↦ ok tt
        | ok false ↦ rest
      ]

  unfoldable pub require_on_clauses : Option (List Scope) → List Clause → Result (Unit {0})
  require_on_clauses _ [] = fault (forbidden_error permission)
  require_on_clauses done (c ∷ cs) = elim (not (is_root e.h c.scope) || not (perm.feature == "")) [
    | false ↦ judge done c (require_on_clauses done cs)
    | true ↦ elim (chain_once e res done) [
      | fault x ↦ fault x
      | ok rc ↦ elim (within rc c.scope) [
        | false ↦ require_on_clauses (some rc) cs
        | true ↦ judge (some rc) c (require_on_clauses (some rc) cs)
      ]
    ]
  ]

-- Engine.RequireOn
unfoldable pub require_on :
    Engine → ℕ × ℕ → Option Principal → String → Resource → Checked (Unit {0})
require_on e t ctx permission res c =
    let (r, c') = prepare e t ctx permission c in
    (
      elim r [
        | fault x ↦ fault x
        | ok (p, perm, eff) ↦
            require_on_clauses e p permission perm res none (clauses eff permission)
      ],
      c',
    )

pub record AccessSet : Type 0 where
  pub permission : String
  pub record_type : String
  pub unowned_is_own : Bool
  pub principal : Principal
  pub clauses : List Clause

-- The loop of Engine.Access: the clauses whose feature gate is open.
unfoldable pub open_clauses : Engine → Permission → List Clause → Result (List Clause)
open_clauses e perm [] = ok []
open_clauses e perm (c ∷ cs) = elim (feature_on e perm c.scope c.chain) [
  | fault x ↦ fault (internal_error x)
  | ok true ↦ do rest ← open_clauses e perm cs; ok (c ∷ rest)
  | ok false ↦ open_clauses e perm cs
]

-- Engine.Access
unfoldable pub access : Engine → ℕ × ℕ → Option Principal → String → Checked AccessSet
access e t ctx permission c =
    let (r, c') = prepare e t ctx permission c in
    (
      elim r [
        | fault x ↦ fault x
        | ok (p, perm, eff) ↦ do
          opened ← open_clauses e perm (clauses eff permission)
          ok (record {
            permission = permission;
            record_type = perm.record_type;
            unowned_is_own = perm.unowned_is_own;
            principal = p;
            clauses = prune opened;
          })
      ],
      c',
    )

-- AccessSet.Empty
abbrev pub set_empty : AccessSet → Bool
set_empty set = elim set.clauses [ [] ↦ true | _ ↦ false ]

-- One clause of AccessSet.Unrestricted.
abbrev pub unrestricted_clause : Hierarchy → Clause → Bool
unrestricted_clause h c =
    is_root h c.scope && c.qualifier == qualifier_all && (elim c.attrs [ [] ↦ true | _ ↦ false ])

-- AccessSet.Unrestricted
unfoldable pub unrestricted : Hierarchy → AccessSet → Bool
unrestricted h set = any (unrestricted_clause h) set.clauses
