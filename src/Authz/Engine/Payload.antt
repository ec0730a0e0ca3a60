-- ===== src/Authz/Engine/Payload.antt =====
-- authz/payload.go: MyAccess, what a client is told of its own access. Its JSON is left out.
pub mod Shown
use go_core.Prelude.{
  ℕ, ℤ, pos, String, string_eq, Bool, true, false, List, [], ◌∷◌, Option, none, some, Map, lookup,
  insert, map, ltb, if◌then◌else◌,
}
use go_core.Prelude.{int_leb}
use go_core.Authz.Errors.{Result, ok, fault, unauthenticated_error, ◌>>=◌}
use go_core.Authz.Types.{Scope, Subject, Principal, Qualifier}
use go_core.Authz.Hierarchy.{Hierarchy, wider}
use go_core.Authz.Catalogue.{lookup_permission}
use go_core.Authz.Role.{or_bare, sort, sorted_keys}
use go_core.Authz.Clause.{Clause, Attrs, prune}
use go_core.Authz.Effective.{Effective, clauses}
use go_core.Authz.Cache.{Cache}
use go_core.Authz.Engine.{Engine, Checked, effective, principal_from, open_clauses}

pub record ClauseInfo : Type 0 where
  pub scope : Scope
  pub qualifier : Qualifier
  pub attrs : Attrs
  pub role : String
  pub binding_id : ℤ

pub record PermissionAccess : Type 0 where
  pub scope : Scope
  pub qualifier : Qualifier
  pub clauses : List ClauseInfo

pub record MyAccess : Type 0 where
  pub subject : Subject
  pub root : Bool
  pub permissions : Map String PermissionAccess
  pub unavailable : List String

abbrev pub info_of : Clause → ClauseInfo
info_of c = record {
  scope = c.scope;
  qualifier = c.qualifier;
  attrs = c.attrs;
  role = c.source.role_name;
  binding_id = c.source.binding_id;
}

-- The loop of Engine.describe: the widest scope and the widest qualifier.
unfoldable pub widest : Hierarchy → List Clause → Scope → Qualifier → Scope × Qualifier
unfolding wider
widest h [] scope qualifier = (scope, qualifier)
widest h (c ∷ cs) scope qualifier =
    widest h cs (if wider h c.scope.level scope.level then c.scope else scope)
      (if int_leb c.qualifier qualifier then qualifier else c.qualifier)

-- Engine.describe, of a list with a first clause.
unfoldable pub describe : Hierarchy → Clause → List Clause → PermissionAccess
unfolding widest
describe h first cs =
    let (scope, qualifier) = widest h cs first.scope (pos 0) in
    record { scope = scope; qualifier = qualifier; clauses = map info_of cs }

-- One permission of MyAccess whose open clauses are these: pruning leaves one of them at least, so the
-- empty list, on which the source would panic, is never described.
abbrev pub show :
    Hierarchy
    → String
    → List Clause
    → Map String PermissionAccess × List String
    → Map String PermissionAccess × List String
show h id [] (permissions, unavailable) = (permissions, id ∷ unavailable)
show h id (c ∷ cs) (permissions, unavailable) =
    (insert id (described (prune (c ∷ cs))) permissions, unavailable)
  where
    described : List Clause → PermissionAccess
    described [] = describe h c []
    described (first ∷ rest) = describe h first (first ∷ rest)

-- The loop of MyAccess over the permissions held, in their order.
unfoldable pub show_all :
    Engine → Effective → List String → Result (Map String PermissionAccess × List String)
unfolding open_clauses describe
show_all e eff [] = ok ([], [])
show_all e eff (id ∷ ids) =
    elim (open_clauses e (or_bare (lookup_permission e.cat id)) (clauses eff id)) [
      | fault err ↦ fault err
      | ok opened ↦ elim (show_all e eff ids) [
        | fault err ↦ fault err
        | ok rest ↦ ok (show e.h id opened rest)
      ]
    ]

-- What MyAccess answers once the permissions are looked through.
abbrev pub access_payload :
    Subject → Effective → Result (Map String PermissionAccess × List String) → Result MyAccess
access_payload s eff (fault err) = fault err
access_payload s eff (ok (permissions, unavailable)) = ok (record {
  subject = s;
  root = eff.has_root;
  permissions = permissions;
  unavailable = sort unavailable;
})

-- Engine.MyAccess
unfoldable pub my_access : Engine → ℕ × ℕ → Option Principal → Checked MyAccess
unfolding show_all
my_access e t ctx c = elim (principal_from ctx) [
  | none ↦ (fault unauthenticated_error, c)
  | some p ↦
      let (r, c') = effective e t p.subject c in
      (
        elim r [
          | fault err ↦ fault err
          | ok eff ↦ access_payload p.subject eff (show_all e eff (sorted_keys eff.grants))
        ],
        c',
      )
]
