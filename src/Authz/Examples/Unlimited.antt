-- ===== src/Authz/Examples/Unlimited.antt =====
-- An access set with a clause at the root, and the theorem on it.
use go_core.Prelude.{pos, ◌≡◌, refl, true, [], ◌∷◌}
use go_core.Authz.Engine.{AccessSet, unrestricted}
use go_core.Authz.Examples.{plain, organization}
use go_core.Authz.Examples.Decisions.{listed, clause_at}

abbrev everywhere : AccessSet
everywhere = record listed { clauses = clause_at (pos 3) organization (organization ∷ []) ∷ [] }

nothing_hidden : unrestricted plain everywhere ≡ true
unfolding unrestricted
nothing_hidden = refl
