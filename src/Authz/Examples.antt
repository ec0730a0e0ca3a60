-- ===== src/Authz/Examples.antt =====
-- A small application for the witnesses: three levels, one dealer with one location, and a salesman
-- who sees the customers of the dealer and his own at the location.
mod Places
pub mod Decisions
mod Caching
mod Delegations
mod Administration
pub mod Catalogues
mod Starting
mod Clients
mod Unlimited
use go_core.Prelude.{
  ℤ, pos, String, ◌≡◌, refl, List, [], ◌∷◌, none, if◌then◌else◌, ◌==◌, string_eq, int_eq, lookup,
  insert,
}
use go_core.Authz.Errors.{Result, ok, fault, sentinel, scope_not_found}
use go_core.Authz.Words.{is_word}
use go_core.Authz.Types.{Scope}
use go_core.Authz.Hierarchy.{
  Hierarchy, declare, new_hierarchy, with_tenant_level, check, level_above, find_level, next_scope,
  ask_parent, ancestors, chain, check_all,
}
use go_core.Authz.Hierarchy.Valid.{IsValid, new_hierarchy-IsValid}

abbrev pub three_levels : List String
three_levels = "organization" ∷ "dealer" ∷ "location" ∷ []

abbrev pub plain : Hierarchy
plain = record {
  levels = three_levels;
  depth = ("organization", 0) ∷ ("dealer", 1) ∷ ("location", 2) ∷ [];
  tenant = "";
}

abbrev pub dealers : Hierarchy
dealers = record plain { tenant = "dealer" }

abbrev pub organization : Scope
organization = record { level = "organization"; id = pos 0 }

abbrev pub dealer : Scope
dealer = record { level = "dealer"; id = pos 7 }

abbrev pub location : Scope
location = record { level = "location"; id = pos 12 }

abbrev pub parent_of : Scope → Result Scope
parent_of s =
    if s.level == "location"
    then (if s.id == pos 12 then ok dealer else fault (sentinel scope_not_found "location"))
    else ok organization

pub plain_made : new_hierarchy three_levels ≡ ok plain
unfolding new_hierarchy declare is_word lookup insert
plain_made = refl

pub dealers_made : with_tenant_level plain "dealer" ≡ ok dealers
unfolding with_tenant_level lookup
dealers_made = refl

pub plain-IsValid : IsValid plain
plain-IsValid = new_hierarchy-IsValid three_levels plain_made

pub location_chain : chain plain parent_of location [] ≡ ok (location ∷ dealer ∷ organization ∷ [])
unfolding chain check check_all ancestors next_scope ask_parent level_above find_level lookup
location_chain = refl

pub dealer_chain : chain plain parent_of dealer [] ≡ ok (dealer ∷ organization ∷ [])
unfolding chain check check_all ancestors next_scope ask_parent level_above find_level lookup
dealer_chain = refl
