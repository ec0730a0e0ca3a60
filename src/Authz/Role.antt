-- ===== src/Authz/Role.antt =====
-- authz/role.go: the grants that a role resolves to against the catalogue, and its validation.
pub mod Grants
pub mod Closed
pub mod Computed
use go_core.Prelude.{
  ℕ, pos, String, Bool, true, false, ◌&&◌, ◌||◌, not, List, [], ◌∷◌, ◌++◌, Option, none, some, Map,
  lookup, insert, keep, map, if◌then◌else◌, ◌==◌, string_eq, int_eq, nat_beq, ltb, contains,
}
use go_core.Authz.Errors.{
  Result, Problem, ProblemCode, invalid_role, computed_with_grants, p_unknown_permission,
  invalid_qualifier, qualifier_not_allowed, duplicate_grant, missing_required, required_too_narrow,
  unknown_attribute, empty_attribute, as_validation,
}
use go_core.Authz.Types.{
  Permission, Grant, Role, Qualifier, qualifier_all, qualifier_valid, qualifier_covers, ownable,
}
use go_core.Authz.Words.{is_word, codes}
use go_core.Authz.Catalogue.{Catalogue, all_permissions, lookup_permission, bare_permission}

-- The grant that a computed role gets of a selected permission.
abbrev pub grant_all : Permission → Grant
grant_all p = record { permission = p.id; qualifier = qualifier_all }

-- Role.Resolve
unfoldable pub resolve : Role → Catalogue → List Grant
resolve r cat = elim r.computed [
  | none ↦ r.grants
  | some selects ↦ map grant_all (keep selects (all_permissions cat))
]

-- The order of Go's strings: that of their code points, the shorter first.
abbrev pub before : List ℕ → List ℕ → Bool
before [] [] = false
before [] (d ∷ ds) = true
before (c ∷ cs) [] = false
before (c ∷ cs) (d ∷ ds) = ltb c d || nat_beq c d && before cs ds

abbrev pub place : String → List String → List String
place s [] = s ∷ []
place s (t ∷ ts) = if before (codes t) (codes s) then t ∷ place s ts else s ∷ t ∷ ts

abbrev pub sort : List String → List String
sort [] = []
sort (s ∷ ss) = place s (sort ss)

-- sortedKeys
abbrev pub sorted_keys {ℓ} : {V : Type ℓ} → Map String V → List String
sorted_keys m = sort (map (λ entry. entry.0) m)

abbrev pub add_keys : List String → List String → List String
add_keys [] set = set
add_keys (a ∷ attrs) set = add_keys attrs (if contains set a then set else a ∷ set)

abbrev pub collect_keys : Map String Permission → List String → List String
collect_keys [] set = set
collect_keys ((_, p) ∷ perms) set = collect_keys perms (add_keys p.attributes set)

-- Catalogue.AttributeKeys
abbrev pub attribute_keys : Catalogue → List String
attribute_keys cat = sort (collect_keys cat.perms [])

abbrev pub problem : ProblemCode → String → String → Problem
problem code permission detail = record { code = code; permission = permission; detail = detail }

-- `add(code, perm, detail)` when the test holds.
abbrev pub add_if : Bool → ProblemCode → String → String → List Problem
add_if true code permission detail = problem code permission detail ∷ []
add_if false code permission detail = []

-- A missing key reads as the zero Permission.
abbrev pub or_bare : Option Permission → Permission
or_bare none = bare_permission ""
or_bare (some p) = p

abbrev pub Held : Type 0
Held = Map String Qualifier

-- The first loop of Role.Validate: the problems of the grants, and the grants that count.
unfoldable pub check_grants : Catalogue → Held → List Grant → List Problem × Held
check_grants cat held [] = ([], held)
check_grants cat held (g ∷ gs) = elim (lookup_permission cat g.permission) [
  | none ↦
      let (ps, out) = check_grants cat held gs in
      (problem p_unknown_permission g.permission "" ∷ ps, out)
  | some p ↦ elim (qualifier_valid g.qualifier) [
    | false ↦
        let (ps, out) = check_grants cat held gs in
        (problem invalid_qualifier g.permission "" ∷ ps, out)
    | true ↦
        let bad =
          add_if (not (ownable p) && not (g.qualifier == qualifier_all)) qualifier_not_allowed
            g.permission "" in
        elim (lookup g.permission held) [
          | some _ ↦
              let (ps, out) = check_grants cat held gs in
              (bad ++ problem duplicate_grant g.permission "" ∷ ps, out)
          | none ↦
              let (ps, out) = check_grants cat (insert g.permission g.qualifier held) gs in
              (bad ++ ps, out)
        ]
  ]
]

-- A missing key reads as the zero Qualifier.
abbrev pub or_no_qualifier : Option Qualifier → Qualifier
or_no_qualifier none = pos 0
or_no_qualifier (some q) = q

-- What one required permission lacks.
unfoldable pub check_required : Catalogue → Held → String → String → List Problem
check_required cat held id req = elim (lookup req held) [
  | none ↦ problem missing_required id req ∷ []
  | some rq ↦
      add_if
        (ownable (or_bare (lookup_permission cat id))
          && ownable (or_bare (lookup_permission cat req))
          && not (qualifier_covers rq (or_no_qualifier (lookup id held))))
        required_too_narrow id req
]

abbrev pub each {ℓ} : {A : Type ℓ} → (A → List Problem) → List A → List Problem
each f [] = []
each f (x ∷ xs) = f x ++ each f xs

-- The second loop of Role.Validate, over the sorted permissions held.
unfoldable pub check_requirements : Catalogue → Held → List Problem
unfolding check_required
check_requirements cat held =
    each (λ id. each (check_required cat held id) (or_bare (lookup_permission cat id)).requires)
      (sorted_keys held)

-- One key of the third loop of Role.Validate.
unfoldable pub check_attribute : List String → Map String (List String) → String → List Problem
check_attribute declared attrs key =
    if not (contains declared key)
    then problem unknown_attribute "" key ∷ []
    else elim (lookup key attrs) [
      | some (v ∷ vs) ↦ []
      | some [] ↦ problem empty_attribute "" key ∷ []
      | none ↦ problem empty_attribute "" key ∷ []
    ]

-- The tests of Role.Validate on the role itself.
unfoldable pub check_role : Role → List Problem
check_role r =
    add_if (r.name == "") invalid_role "" "name is required"
    ++ (add_if (not (r.key == "") && not (is_word r.key)) invalid_role ""
          "key must be a single lowercase word"
        ++ add_if (is_computed r && not (is_empty r.grants)) computed_with_grants "" "")
  where
    is_computed : Role → Bool
    is_computed r = elim r.computed [ none ↦ false | some _ ↦ true ]

    is_empty : List Grant → Bool
    is_empty [] = true
    is_empty (g ∷ gs) = false

-- The third loop of Role.Validate.
unfoldable pub check_role_attrs : Catalogue → Role → List Problem
unfolding check_attribute
check_role_attrs cat r = each (check_attribute (attribute_keys cat) r.attrs) (sorted_keys r.attrs)

-- Role.Validate
unfoldable pub validate_role : Role → Catalogue → Result (Unit {0})
unfolding check_role check_grants check_requirements check_role_attrs
validate_role r cat =
    let (ps, held) = check_grants cat [] (resolve r cat) in
    as_validation (check_role r ++ (ps ++ (check_requirements cat held ++ check_role_attrs cat r)))
