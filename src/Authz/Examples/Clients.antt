-- ===== src/Authz/Examples/Clients.antt =====
-- What clients are told, applied: the payload of a subject, the holders of a permission, and the guard
-- of one record.
use go_core.Prelude.{pos, ◌≡◌, refl, false, [], ◌∷◌, some, string_eq, int_eq, lookup, insert, List}
use go_core.Authz.Errors.{ok}
use go_core.Authz.Types.{Subject, Role, user, qualifier_all}
use go_core.Authz.Hierarchy.{
  chain, check, ancestors, next_scope, level_above, find_level, wider, tenant_of,
}
use go_core.Authz.Clause.{covers, prune}
use go_core.Authz.Effective.{build, clauses, add_clauses, pin, attrs_for}
use go_core.Authz.Role.{resolve}
use go_core.Authz.Cache.{new_cache, get}
use go_core.Authz.Engine.{lookup_role, load_effective, effective, require, open_clauses, feature_on}
use go_core.Authz.Engine.Payload.{MyAccess, info_of, describe, show_all, my_access}
use go_core.Authz.Engine.Payload.Shown.{answer, is_shown, my_access-require}
use go_core.Authz.Engine.Holders.{HoldersOf, holders_of, roles_at}
use go_core.Authz.Engine.Holders.Held.{Answers, holders_of-Answers}
use go_core.Authz.Examples.{dealer}
use go_core.Authz.Examples.Decisions.{
  engine, anna, bound, salesman, request, empty, view_known, at_dealer,
}

abbrev told : MyAccess
told = record {
  subject = anna;
  root = false;
  permissions =
      (
        "crm.customers:view",
        record { scope = dealer; qualifier = qualifier_all; clauses = info_of at_dealer ∷ [] },
      )
      ∷ [];
  unavailable = [];
}

anna_told : (my_access engine (5, 6) request empty).0 ≡ ok told
unfolding my_access effective load_effective new_cache get build lookup_role lookup chain check
    ancestors next_scope level_above find_level insert add_clauses resolve pin tenant_of attrs_for
    show_all open_clauses prune clauses feature_on covers describe wider
anna_told = refl

my_access-require_example :
    (require engine (5, 6) request "crm.customers:view" empty).0
    ≡ answer "crm.customers:view" (is_shown "crm.customers:view" told.permissions)
my_access-require_example =
    my_access-require engine (5, 6) request empty told "crm.customers:view" _ anna_told view_known

abbrev otto : Subject
otto = record { kind = user; id = pos 32 }

-- The bindings of the salesmen: two of one subject, and one of another made before them.
abbrev salesmen : HoldersOf
salesmen ref = ok (
    bound (pos 2) dealer
    ∷ bound (pos 3) dealer
    ∷ record (bound (pos 1) dealer) { subject = otto }
    ∷ [])

abbrev custom : List Role
custom = salesman ∷ []

both_listed :
    holders_of engine (some (ok custom)) (some salesmen) "crm.customers:view"
    ≡ ok (otto ∷ anna ∷ [])
unfolding holders_of lookup resolve roles_at
both_listed = refl

holders_of-Answers_example : Answers engine custom salesmen "crm.customers:view" (otto ∷ anna ∷ [])
holders_of-Answers_example =
    holders_of-Answers engine custom salesmen "crm.customers:view" (otto ∷ anna ∷ []) both_listed
