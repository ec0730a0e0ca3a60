-- ===== src/Authz/Examples/Delegations.antt =====
-- The theorems on delegation, applied: Anna stores a narrower role, assigns it, and narrows
-- the role that she holds herself.
use go_core.Prelude.{
  any, all, ℤ, pos, int_eq, is_positive, if◌then◌else◌, ◌==◌, ◌≡◌, refl, true, List, [], ◌∷◌, some,
  none, Memᴰ, lookup, insert,
}
use go_core.Authz.Errors.{ok}
use go_core.Authz.Types.{Scope, Resource, Role, Grant, Binding, qualifier_own}
use go_core.Authz.Hierarchy.{
  chain, check, ancestors, next_scope, level_above, find_level, tenant_of, within,
}
use go_core.Authz.Catalogue.{lookup_permission}
use go_core.Authz.Clause.{match_record, attrs_cover}
use go_core.Authz.Effective.{
  Effective, Reader, clauses, clause_for, build, add_clauses, pin, attrs_for,
}
use go_core.Authz.Role.{resolve, validate_role}
use go_core.Authz.Cache.{new_cache, get}
use go_core.Authz.Engine.{load_effective, effective, lookup_role}
use go_core.Authz.Delegation.{
  can_save_role, can_bind, keeps_access, has_some, holds_within, holds_all, bindable, may_bind,
  target_chain, below_root_problems, dangerous, keeps_after, check_protected,
}
use go_core.Authz.Delegation.Escalation.{can_save_role-holds}
use go_core.Authz.Delegation.Assignment.{allowed, can_bind-allowed}
use go_core.Authz.Delegation.LastAdmin.{role_after, keeps_access-kept}
use go_core.Authz.Examples.{location}
use go_core.Authz.Examples.Decisions.{
  held, view, anna, bound, bindings, stored_role, engine, empty, empty-IsFresh, who,
}

abbrev own_customers : Grant
own_customers = record { permission = "crm.customers:view"; qualifier = qualifier_own }

abbrev junior : Role
junior = record {
  id = pos 0;
  key = "";
  name = "Junior";
  grants = own_customers ∷ [];
  attrs = [];
  computed = none;
}

may_save : (can_save_role engine (5, 6) who junior empty).0 ≡ ok tt
unfolding can_save_role validate_role holds_all attrs_cover resolve lookup insert effective get
    new_cache load_effective build lookup_role chain check ancestors next_scope level_above
    find_level add_clauses attrs_for clauses pin tenant_of
may_save = refl

view_found : lookup_permission engine.cat "crm.customers:view" ≡ some view
unfolding lookup
view_found = refl

abbrev given : Binding
given = bound (pos 9) location

-- A customer that Anna owns.
abbrev her_customer : Resource
her_customer = record {
  scope = location;
  ancestors = [];
  owner = pos 31;
  co_owner = pos 0;
  owner_location = pos 0;
  attrs = [];
}

grant_matches :
    match_record (clause_for given junior [] view own_customers) who view her_customer ≡ true
unfolding match_record attrs_for
grant_matches = refl

can_save_role-holds_example :
    (eff : Effective) × (load_effective engine anna ≡ ok eff)
    × (any (λ c. match_record c who view her_customer) (clauses eff "crm.customers:view") ≡ true)
unfolding resolve
can_save_role-holds_example =
    can_save_role-holds engine (5, 6) who junior empty given [] who her_customer empty-IsFresh
      may_save (Memᴰ.head refl) view_found grant_matches

may_assign : (can_bind engine (5, 6) who junior location "crm.customers:view" empty).0 ≡ ok tt
unfolding can_bind bindable validate_role target_chain below_root_problems may_bind dangerous
    holds_within resolve lookup insert effective get new_cache load_effective build lookup_role
    chain check ancestors next_scope level_above find_level add_clauses attrs_for clauses pin
    tenant_of
may_assign = refl

can_bind-allowed_example :
    (above : List Scope) × (chain engine.h engine.parent location [] ≡ ok above)
    × ((eff : Effective) × (load_effective engine anna ≡ ok eff)
        × (holds_within eff "crm.customers:view" (within above) ≡ true)
        × (all (allowed engine location "crm.customers:view" above eff) (resolve junior engine.cat)
            ≡ true))
can_bind-allowed_example =
    can_bind-allowed engine junior location "crm.customers:view" (5, 6) who empty empty-IsFresh
      may_assign

-- Anna narrows the role that both of her bindings name, to the customers she owns.
abbrev narrowed : Role
narrowed = record junior { id = pos 4 }

abbrev store_after : Reader
store_after = record {
  bindings_for = λ _. ok bindings;
  role = λ id. if id == pos 4 then ok narrowed else stored_role id;
}

may_narrow :
    (keeps_access engine (5, 6) anna ("crm.customers:view" ∷ []) (pos 0) (some narrowed) empty).0
    ≡ ok tt
unfolding keeps_access keeps_after check_protected resolve lookup insert effective get new_cache
    load_effective build lookup_role chain check ancestors next_scope level_above find_level
    add_clauses attrs_for clauses pin tenant_of
may_narrow = refl

roles_after :
    (id : ℤ)
    → is_positive id ≡ true
    → store_after.role id
      ≡ role_after engine anna ("crm.customers:view" ∷ []) (pos 0) (some narrowed) id
roles_after id positive = refl

loaded_now : load_effective engine anna ≡ ok held
unfolding load_effective build lookup_role lookup chain check ancestors next_scope level_above
    find_level insert add_clauses resolve pin tenant_of attrs_for
loaded_now = refl

has_view : has_some (clauses held "crm.customers:view") ≡ true
unfolding clauses lookup
has_view = refl

keeps_access-kept_example :
    (new : Effective) × (load_effective (record engine { store = store_after }) anna ≡ ok new)
    × (has_some (clauses new "crm.customers:view") ≡ true)
keeps_access-kept_example =
    keeps_access-kept engine anna ("crm.customers:view" ∷ []) (pos 0) (some narrowed) store_after
      bindings refl refl roles_after (5, 6) empty empty-IsFresh may_narrow (Memᴰ.head refl)
      loaded_now has_view
