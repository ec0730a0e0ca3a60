-- ===== src/Authz/Examples/Catalogues.antt =====
-- The theorem on Define, applied to the first permission of a catalogue.
use go_core.Prelude.{
  ◌↔◌, String, Memᴰ, string_eq, ◌≡◌, refl, true, false, List, [], ◌∷◌, lookup, insert, arith,
}
use go_core.Authz.Errors.{ok, fault, validation, requirement_cycle}
use go_core.Authz.Catalogue.Requirements.{validate}
use go_core.Authz.Catalogue.Requirements.Acyclic.{Grounded}
use go_core.Authz.Catalogue.Requirements.Exact.{all_declared, validate-Grounded}
use go_core.Authz.Words.{matches_word}
use go_core.Authz.Catalogue.{
  Catalogue, new_catalogue, DefineOption, ownable_as, sensitive, define, check_identifier,
  bare_permission,
}
use go_core.Authz.Catalogue.Valid.{IsValid}

new_catalogue-IsValid : IsValid new_catalogue
unfolding lookup
new_catalogue-IsValid = record {
  defined = λ id p found. absurd (ground arith);
  ordered = λ id. refl;
}

abbrev options : List DefineOption
options = ownable_as "customer" ∷ sensitive ∷ []

abbrev one : Catalogue
one = record {
  perms =
      (
        "crm.customers:view",
        record (bare_permission "crm.customers:view") {
          record_type = "customer";
          sensitive = true;
        },
      )
      ∷ [];
  order = "crm.customers:view" ∷ [];
  frozen = false;
}

defined_one : define new_catalogue "crm.customers:view" options ≡ ok one
unfolding define check_identifier lookup insert matches_word
defined_one = refl

-- The second permission requires the first.
abbrev pub edits : Catalogue
edits = record one {
  perms =
      (
        "crm.customers:edit",
        record (bare_permission "crm.customers:edit") { requires = "crm.customers:view" ∷ [] },
      )
      ∷ one.perms;
  order = "crm.customers:view" ∷ "crm.customers:edit" ∷ [];
}

validate-Grounded_example : (validate edits ≡ ok tt) ↔ (
    (all_declared edits.perms edits.order ≡ true)
    × ((id : String) → Memᴰ id edits.order → Grounded edits.perms id))
validate-Grounded_example = validate-Grounded edits

accepted : validate edits ≡ ok tt
unfolding validate lookup insert
accepted = refl

-- And here the first requires the second, too.
abbrev circle : Catalogue
circle = record edits {
  perms =
      (
        "crm.customers:edit",
        record (bare_permission "crm.customers:edit") { requires = "crm.customers:view" ∷ [] },
      )
      ∷ (
        "crm.customers:view",
        record (bare_permission "crm.customers:view") { requires = "crm.customers:edit" ∷ [] },
      )
      ∷ [];
}

refused :
    validate circle
    ≡ fault (
        validation (
          record {
            code = requirement_cycle;
            permission = "crm.customers:edit";
            detail = "crm.customers:view";
          }
          ∷ []))
unfolding validate lookup insert
refused = refl
