-- ===== src/Authz/Examples/Places.antt =====
-- The theorems on hierarchies and chains, applied.
use go_core.Prelude.{◌≡◌, refl, [], some, lookup, string_eq, pos}
use go_core.Authz.Errors.{fault, sentinel, scope_not_found}
use go_core.Authz.Types.{Scope}
use go_core.Authz.Hierarchy.{
  check, depth_of, chain, check_all, ancestors, next_scope, ask_parent, level_above, find_level,
}
use go_core.Authz.Hierarchy.Totality.{Explained, chain-Explained}
use go_core.Authz.Examples.{plain, parent_of, plain-IsValid}

location_depth : depth_of plain "location" ≡ some 2
unfolding lookup
location_depth = refl

-- A location that the store does not know.
abbrev lost : Scope
lost = record { level = "location"; id = pos 99 }

lost_chain : chain plain parent_of lost [] ≡ fault (sentinel scope_not_found "location")
unfolding chain check check_all ancestors next_scope ask_parent level_above find_level lookup
lost_chain = refl

chain-Explained_example : Explained parent_of (sentinel scope_not_found "location")
chain-Explained_example = chain-Explained plain plain-IsValid parent_of lost [] lost_chain
