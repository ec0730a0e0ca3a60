-- ===== src/Authz/Catalogue.antt =====
-- authz/catalogue.go: the permissions that an application declares, in definition order.
pub mod Valid
pub mod Requirements
use go_core.Prelude.{
  true, ℕ, String, Bool, false, ◌&&◌, ◌||◌, not, List, [], ◌∷◌, ◌++◌, Option, none, some, Map,
  lookup, insert, if◌then◌else◌, ◌==◌, string_eq, contains, all, any, ltb, length, nat_beq,
}
use go_core.Authz.Errors.{
  Result, ok, fault, other, validation, Problem, invalid_identifier, duplicate_permission,
  inconsistent_metadata,
}
use go_core.Authz.Types.{Permission}
use go_core.Authz.Words.{is_word, matches_word, codes}

pub record Catalogue : Type 0 where
  pub perms : Map String Permission
  pub order : List String
  pub frozen : Bool

-- NewCatalogue
abbrev pub new_catalogue : Catalogue
new_catalogue = record { perms = []; order = []; frozen = false }

-- strings.Cut by one character: what stands before it, and what stands after it if it is there.
unfoldable pub cut : ℕ → List ℕ → List ℕ × Option (List ℕ)
cut sep [] = ([], none)
cut sep (c ∷ cs) =
    let rest = cut sep cs in if nat_beq c sep then ([], some cs) else (c ∷ rest.0, rest.1)

-- strings.Split by one character: always at least one piece.
unfoldable pub split : ℕ → List ℕ → List (List ℕ)
split sep [] = [] ∷ []
split sep (c ∷ cs) =
    let rest = split sep cs in
    if nat_beq c sep
    then [] ∷ rest
    else elim rest [ [] ↦ (c ∷ []) ∷ [] | piece ∷ pieces ↦ (c ∷ piece) ∷ pieces ]

abbrev pub max_resource_segments : ℕ
max_resource_segments = 3

-- checkIdentifier, over code points: "module.resource[.section]:verb", every segment a word.
unfoldable pub check_codes : List ℕ → Bool
unfolding cut split
check_codes id = elim (cut b':' id).1 [
  | none ↦ false
  | some verb ↦
      if any (λ c. nat_beq c b':') verb || not (matches_word verb)
      then false
      else (if ltb max_resource_segments (length (split b'.' (cut b':' id).0))
          then false
          else all matches_word (split b'.' (cut b':' id).0))
]

unfoldable pub check_identifier : String → Bool
unfolding check_codes
check_identifier id = check_codes (codes id)

abbrev pub inconsistent : String → String → Problem
inconsistent id detail = record { code = inconsistent_metadata; permission = id; detail = detail }

-- The attribute loop of checkPermission.
unfoldable pub check_attributes : String → List String → List String → List Problem
check_attributes id seen [] = []
check_attributes id seen (a ∷ attrs) =
    (if is_word a then [] else inconsistent id a ∷ [])
    ++ ((if contains seen a then inconsistent id a ∷ [] else [])
        ++ check_attributes id (a ∷ seen) attrs)

-- The requires loop of checkPermission.
unfoldable pub check_requires : String → List String → List Problem
check_requires id [] = []
check_requires id (r ∷ rs) =
    (if check_identifier r then [] else inconsistent id r ∷ [])
    ++ ((if r == id then inconsistent id "requires itself" ∷ [] else []) ++ check_requires id rs)

-- checkPermission
unfoldable pub check_permission : Permission → List Problem
unfolding check_attributes check_requires
check_permission p =
    (if p.unowned_is_own && p.record_type == ""
      then inconsistent p.id "UnownedIsOwn needs Ownable" ∷ []
      else [])
    ++ ((if not (p.feature == "") && not (is_word p.feature)
          then inconsistent p.id p.feature ∷ []
          else [])
        ++ (check_attributes p.id [] p.attributes ++ check_requires p.id p.requires))

-- DefineOption: what an option does to the permission being defined.
abbrev pub DefineOption : Type 0
DefineOption = Permission → Permission

abbrev pub sensitive : DefineOption
sensitive p = record p { sensitive = true }

abbrev pub system : DefineOption
system p = record p { system = true }

abbrev pub organization_only : DefineOption
organization_only p = record p { organization_only = true }

abbrev pub requires : List String → DefineOption
requires ids p = record p { requires = p.requires ++ ids }

abbrev pub ownable_as : String → DefineOption
ownable_as record_type p = record p { record_type = record_type }

abbrev pub unowned_is_own : DefineOption
unowned_is_own p = record p { unowned_is_own = true }

abbrev pub feature : String → DefineOption
feature name p = record p { feature = name }

abbrev pub attributes : List String → DefineOption
attributes keys p = record p { attributes = p.attributes ++ keys }

abbrev pub apply_options : List DefineOption → Permission → Permission
apply_options [] p = p
apply_options (opt ∷ opts) p = apply_options opts (opt p)

abbrev pub bare_permission : String → Permission
bare_permission id = record {
  id = id;
  sensitive = false;
  system = false;
  organization_only = false;
  requires = [];
  record_type = "";
  unowned_is_own = false;
  feature = "";
  attributes = [];
}

abbrev pub problem_of : Problem → Result Catalogue
problem_of p = fault (validation (p ∷ []))

-- Catalogue.Define
unfoldable pub define : Catalogue → String → List DefineOption → Result Catalogue
unfolding check_permission
define c id opts =
    if c.frozen
    then fault (other "catalogue is frozen")
    else (if not (check_identifier id)
        then problem_of (record { code = invalid_identifier; permission = id; detail = "" })
        else elim (lookup id c.perms) [
          | some _ ↦
              problem_of (record { code = duplicate_permission; permission = id; detail = "" })
          | none ↦
              let p = apply_options opts (bare_permission id) in
              elim (check_permission p) [
                | q ∷ qs ↦ fault (validation (q ∷ qs))
                | [] ↦ ok (record c { perms = insert id p c.perms; order = c.order ++ id ∷ [] })
              ]
        ])

-- Catalogue.Lookup
abbrev pub lookup_permission : Catalogue → String → Option Permission
lookup_permission c id = lookup id c.perms

-- The loop of Catalogue.All over the definition order.
unfoldable pub permissions_in : Map String Permission → List String → List Permission
permissions_in perms [] = []
permissions_in perms (id ∷ ids) = elim (lookup id perms) [
  | none ↦ permissions_in perms ids
  | some p ↦ p ∷ permissions_in perms ids
]

-- Catalogue.All
unfoldable pub all_permissions : Catalogue → List Permission
unfolding permissions_in
all_permissions c = permissions_in c.perms c.order

-- Catalogue.HasFeatures
unfoldable pub has_features : Catalogue → Bool
has_features c = any (λ entry. not (entry.1.feature == "")) c.perms
