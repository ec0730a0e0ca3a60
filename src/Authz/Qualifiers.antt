-- ===== src/Authz/Qualifiers.antt =====
-- authz/qualifier.go and role.go: the text of a qualifier, the check of qualifiers that a Store makes
-- before it writes grants, and the small constructors of role.go and principal.go.
use go_core.Prelude.{
  ℤ, pos, negsuc, zero, suc, int_eq, String, string_eq, ◌≡◌, ◌↔◌, refl, sym, ◌∙◌, inl, inr, true,
  not, List, [], ◌∷◌, Memᴰ, mem_cases, if◌then◌else◌, ◌==◌, arith, Bool-cases,
}
use mathlib.Core.Path.{subst}
use go_core.Authz.Errors.{
  Result, ok, fault, Problem, invalid_qualifier, validation, other, bad_request_from,
}
use go_core.Authz.Types.{
  Qualifier, qualifier_own, qualifier_own_location, qualifier_all, qualifier_valid, Grant,
  Principal, user, service,
}

-- Qualifier.String
unfoldable pub to_text : Qualifier → String
to_text q =
    if q == qualifier_own
    then "own"
    else if q == qualifier_own_location
    then "own_location"
    else if q == qualifier_all
    then "all"
    else "invalid"

-- The loop of ParseQualifier.
unfoldable pub find_qualifier : List Qualifier → String → Result Qualifier
unfolding to_text
find_qualifier [] s = fault (other s)
find_qualifier (q ∷ qs) s = if to_text q == s then ok q else find_qualifier qs s

-- ParseQualifier
abbrev pub parse_qualifier : String → Result Qualifier
parse_qualifier s = find_qualifier (qualifier_own ∷ qualifier_own_location ∷ qualifier_all ∷ []) s

-- Qualifier.MarshalText
unfoldable pub marshal_text : Qualifier → Result String
unfolding to_text
marshal_text q = if qualifier_valid q then ok (to_text q) else fault (other "invalid qualifier")

-- Qualifier.UnmarshalText
abbrev pub unmarshal_text : String → Result Qualifier
unmarshal_text text = parse_qualifier text

-- Grants
abbrev pub grants_of : Qualifier → List String → List Grant
grants_of q [] = []
grants_of q (p ∷ permissions) = record { permission = p; qualifier = q } ∷ grants_of q permissions

-- The loop of CheckQualifiers.
unfoldable pub qualifier_problems : List Grant → List Problem
qualifier_problems [] = []
qualifier_problems (g ∷ grants) =
    let rest = qualifier_problems grants in
    if not (qualifier_valid g.qualifier)
    then record { code = invalid_qualifier; permission = g.permission; detail = "" } ∷ rest
    else rest

-- CheckQualifiers
unfoldable pub check_qualifiers : List Grant → Result (Unit {0})
unfolding qualifier_problems
check_qualifiers grants = elim (qualifier_problems grants) [
  | [] ↦ ok tt
  | p ∷ ps ↦ fault (bad_request_from (validation (p ∷ ps)))
]

-- User and ServiceAccount
abbrev pub user_principal : ℤ → ℤ → Principal
user_principal id location = record {
  subject = record { kind = user; id = id };
  location = location;
}

abbrev pub service_principal : ℤ → Principal
service_principal id = record { subject = record { kind = service; id = id }; location = pos 0 }

-- A qualifier that can be written, and read back as it was.
abbrev pub ReadBack : Qualifier → Type 0
ReadBack q = (text : String) × (marshal_text q ≡ ok text) × (unmarshal_text text ≡ ok q)

valid-ReadBack : (q : Qualifier) → qualifier_valid q ≡ true → ReadBack q
unfolding marshal_text find_qualifier to_text
valid-ReadBack (pos zero) valid = absurd (ground arith)
valid-ReadBack (pos (suc zero)) valid = ("own", refl, refl)
valid-ReadBack (pos (suc (suc zero))) valid = ("own_location", refl, refl)
valid-ReadBack (pos (suc (suc (suc zero)))) valid = ("all", refl, refl)
valid-ReadBack (pos (suc (suc (suc (suc n))))) valid = absurd (ground arith)
valid-ReadBack (negsuc n) valid = absurd (ground arith)

ReadBack-valid : (q : Qualifier) → ReadBack q → qualifier_valid q ≡ true
unfolding marshal_text
ReadBack-valid q (text, written, back) = elim (Bool-cases (qualifier_valid q)) [
  | inl valid ↦ valid
  | inr invalid ↦ absurd (ground (arith, invalid, written))
]

-- CheckQualifiers accepts exactly the grants whose qualifiers can all be written and read back.
check_qualifiers-ReadBack :
    (grants : List Grant)
    → (check_qualifiers grants ≡ ok tt) ↔ ((g : Grant) → Memᴰ g grants → ReadBack g.qualifier)
unfolding check_qualifiers qualifier_problems
check_qualifiers-ReadBack [] = (λ h g m. absurd (elim m [ ]), λ h. refl)
check_qualifiers-ReadBack (g ∷ grants) = elim (Bool-cases (qualifier_valid g.qualifier)) [
  | inr invalid ↦ (
    λ h. absurd (ground (arith, invalid, h)),
    λ all. absurd (ground (arith, invalid, ReadBack-valid g.qualifier (all g (Memᴰ.head refl)))),
  )
  | inl valid ↦
      let rest = check_qualifiers-ReadBack grants in
      let same : check_qualifiers (g ∷ grants) ≡ check_qualifiers grants = ground (arith, valid) in
      (
        λ h d m. elim (mem_cases m) [
          | inl e ↦ subst (λ x. ReadBack x.qualifier) (sym e) (valid-ReadBack g.qualifier valid)
          | inr later ↦ rest.0 (sym same ∙ h) d later
        ],
        λ all. same ∙ rest.1 (λ d m. all d (Memᴰ.tail m)),
      )
]
