-- ===== src/Authz/Engine/Holders.antt =====
-- authz/holders.go: HoldersOf. The two interfaces that the store may lack, of ListRoles and of
-- HoldersOf, are arguments, `none` when it does. An error of theirs goes on as it is: the text that %w puts
-- before it is left out.
pub mod Roles
pub mod Subjects
pub mod Order
pub mod Held
use go_core.Prelude.{
  ℤ, String, string_eq, Bool, true, false, List, [], ◌∷◌, ◌++◌, Option, none, some, Map, lookup,
  if◌then◌else◌, ◌==◌, int_leb, any, contains,
}
use go_core.Authz.Errors.{Result, ok, fault, sentinel, unknown_permission, other, ◌>>=◌}
use go_core.Authz.Types.{Subject, subject_eq, RoleRef, Role, Grant, Binding}
use go_core.Authz.Catalogue.{Catalogue, lookup_permission}
use go_core.Authz.Role.{sorted_keys, resolve}
use go_core.Authz.Engine.{Engine}

-- grants
unfoldable pub role_grants : Role → Catalogue → String → Bool
role_grants r cat permission = any (λ g. g.permission == permission) (resolve r cat)

-- Role.Ref
abbrev pub ref : Role → RoleRef
ref r = record { id = r.id; key = r.key }

-- The loop of PredefinedRoles.
unfoldable pub roles_at : Map String Role → List String → List Role
roles_at roles [] = []
roles_at roles (key ∷ keys) = elim (lookup key roles) [
  | none ↦ roles_at roles keys
  | some r ↦ r ∷ roles_at roles keys
]

-- Engine.PredefinedRoles
abbrev pub predefined_roles : Engine → List Role
predefined_roles e = roles_at e.roles (sorted_keys e.roles)

abbrev pub HoldersOf : Type 0
HoldersOf = RoleRef → Result (List Binding)

-- The loop of Engine.HoldersOf over the roles.
unfoldable pub held_by : Catalogue → HoldersOf → String → List Role → Result (List Binding)
unfolding role_grants
held_by cat holders permission [] = ok []
held_by cat holders permission (r ∷ rs) = elim (role_grants r cat permission) [
  | false ↦ held_by cat holders permission rs
  | true ↦ do held ← holders (ref r); rest ← held_by cat holders permission rs; ok (held ++ rest)
]

-- slices.SortStableFunc by the ID. The source takes the difference of two ids, which does not wrap for
-- the ids of a table, and looks at its sign.
abbrev pub put_binding : Binding → List Binding → List Binding
put_binding b [] = b ∷ []
put_binding b (c ∷ cs) = if int_leb b.id c.id then b ∷ c ∷ cs else c ∷ put_binding b cs

abbrev pub sort_bindings : List Binding → List Binding
sort_bindings [] = []
sort_bindings (b ∷ bs) = put_binding b (sort_bindings bs)

-- The last loop of Engine.HoldersOf.
unfoldable pub add_subjects : List Binding → List Subject → List Subject
add_subjects [] out = out
add_subjects (b ∷ bs) out =
    add_subjects bs (if contains out b.subject then out else out ++ (b.subject ∷ []))

-- Engine.HoldersOf
unfoldable pub holders_of :
    Engine → Option (Result (List Role)) → Option HoldersOf → String → Result (List Subject)
unfolding held_by add_subjects
holders_of e lister store permission = elim (lookup_permission e.cat permission) [
  | none ↦ fault (sentinel unknown_permission permission)
  | some _ ↦ elim lister [
    | none ↦ fault (other "HoldersOf needs a store that lists custom roles and their holders")
    | some listed ↦ elim store [
      | none ↦ fault (other "HoldersOf needs a store that lists custom roles and their holders")
      | some holders ↦ do
        custom ← listed
        bindings ← held_by e.cat holders permission (predefined_roles e ++ custom)
        ok (add_subjects (sort_bindings bindings) [])
    ]
  ]
]
