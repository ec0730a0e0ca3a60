-- ===== src/Authz/Examples/Decisions.antt =====
-- The theorems on access and decisions, applied: a salesman bound to a role at a dealer and at the
-- location below it.
use go_core.Prelude.{
  ℤ, pos, ◌≡◌, refl, ◌↔◌, Bool, true, false, List, [], ◌∷◌, Option, none, some, any, if◌then◌else◌,
  ◌==◌, string_eq, int_eq, lookup, insert, arith, Memᴰ, inl, inr, mem_cases,
}
use go_core.Authz.Errors.{Result, ok, fault, sentinel, role_not_found, forbidden_error}
use go_core.Authz.Types.{
  Scope, scope_eq, Subject, Principal, Permission, Role, RoleRef, Binding, Resource, user,
  qualifier_all,
}
use go_core.Authz.Hierarchy.{
  chain, check, check_all, ancestors, next_scope, ask_parent, level_above, find_level, tenant_of,
}
use go_core.Authz.Catalogue.{Catalogue, lookup_permission}
use go_core.Authz.Clause.{Clause, covers, match_record, prune}
use go_core.Authz.Clause.Covers.{match_record-covers, IsResolved}
use go_core.Authz.Clause.Prune.{any-prune}
use go_core.Authz.Effective.{Effective, build, clauses, add_clauses, pin, attrs_for}
use go_core.Authz.Role.{resolve}
use go_core.Authz.Effective.Build.{build_clauses, all_clauses}
use go_core.Authz.Cache.{Cache, new_cache, get}
use go_core.Authz.Engine.{
  Engine, AccessSet, lookup_role, load_effective, effective, prepare, require_on_clauses,
  resource_chain, require_on, access, open_clauses, feature_on,
}
use go_core.Authz.Engine.Cached.{IsFresh, effective-eq-load, prepare_sound}
use go_core.Authz.Engine.Decisions.{reaches, require_on_reaches}
use go_core.Authz.Engine.Agreement.{Consistent, access-require_on}
use go_core.Authz.Examples.{plain, organization, dealer, location, parent_of}

abbrev pub view : Permission
view = record {
  id = "crm.customers:view";
  sensitive = false;
  system = false;
  organization_only = false;
  requires = [];
  record_type = "customer";
  unowned_is_own = false;
  feature = "";
  attributes = [];
}

abbrev reports : Permission
reports = record view { id = "crm.reports:view"; record_type = ""; feature = "reports" }

abbrev catalogue : Catalogue
catalogue = record {
  perms = ("crm.customers:view", view) ∷ ("crm.reports:view", reports) ∷ [];
  order = "crm.customers:view" ∷ "crm.reports:view" ∷ [];
  frozen = true;
}

abbrev pub salesman : Role
salesman = record {
  id = pos 4;
  key = "";
  name = "Salesman";
  grants = record { permission = "crm.customers:view"; qualifier = qualifier_all } ∷ [];
  attrs = [];
  computed = none;
}

abbrev pub anna : Subject
anna = record { kind = user; id = pos 31 }

abbrev as_salesman : RoleRef
as_salesman = record { id = pos 4; key = "" }

abbrev pub bound : ℤ → Scope → Binding
bound id scope = record {
  id = id;
  subject = anna;
  role = as_salesman;
  scope = scope;
  created_by = pos 0;
}

abbrev pub bindings : List Binding
bindings = bound (pos 1) location ∷ bound (pos 2) dealer ∷ []

abbrev pub stored_role : ℤ → Result Role
stored_role id = if id == pos 4 then ok salesman else fault (sentinel role_not_found "")

abbrev pub engine : Engine
engine = record {
  rules = record { cat = catalogue; h = plain; parent = parent_of };
  roles = [];
  store = record { bindings_for = λ _. ok bindings; role = stored_role };
  features = some (λ s f. ok (s == dealer));
}

abbrev pub clause_at : ℤ → Scope → List Scope → Clause
clause_at id scope up = record {
  scope = scope;
  chain = up;
  qualifier = qualifier_all;
  attrs = [];
  source = record { binding_id = id; role = as_salesman; role_name = "Salesman" };
}

abbrev at_location : Clause
at_location = clause_at (pos 1) location (location ∷ dealer ∷ organization ∷ [])

abbrev pub at_dealer : Clause
at_dealer = clause_at (pos 2) dealer (dealer ∷ organization ∷ [])

abbrev pub held : Effective
held = record {
  subject = anna;
  grants = ("crm.customers:view", at_location ∷ at_dealer ∷ []) ∷ [];
  role_ids = pos 4 ∷ [];
  tenants = [];
  has_root = false;
  unpinned = true;
}

built : build engine.rules (lookup_role engine) anna bindings ≡ ok held
unfolding build lookup_role lookup chain check ancestors next_scope level_above find_level insert
    add_clauses resolve pin tenant_of attrs_for
built = refl

build_clauses_example :
    clauses held "crm.customers:view"
    ≡ all_clauses engine.rules (lookup_role engine) "crm.customers:view" bindings
build_clauses_example =
    build_clauses engine.rules (lookup_role engine) "crm.customers:view" anna bindings built

abbrev pub empty : Cache
empty = new_cache (pos 0)

pub empty-IsFresh : IsFresh engine empty
unfolding new_cache lookup
empty-IsFresh s entry h = absurd (ground arith)

effective-eq-load_example :
    ((effective engine (5, 6) anna empty).0 ≡ load_effective engine anna)
    × IsFresh engine (effective engine (5, 6) anna empty).1
effective-eq-load_example = effective-eq-load engine (5, 6) anna empty empty-IsFresh

abbrev pub request : Option Principal
request = some (record { subject = anna; location = pos 12 })

abbrev pub who : Principal
who = record { subject = anna; location = pos 12 }

-- A customer at the location.
abbrev pub customer : Resource
customer = record {
  scope = location;
  ancestors = dealer ∷ [];
  owner = pos 50;
  co_owner = pos 0;
  owner_location = pos 12;
  attrs = [];
}

abbrev pub above_customer : List Scope
above_customer = location ∷ dealer ∷ organization ∷ []

customer_chain : resource_chain engine customer ≡ ok above_customer
unfolding resource_chain chain check check_all ancestors next_scope ask_parent level_above
    find_level lookup
customer_chain = refl

customer-Consistent : Consistent engine customer
unfolding chain check check_all ancestors next_scope ask_parent level_above find_level lookup
customer-Consistent = refl

pub view_known : lookup_permission catalogue "crm.customers:view" ≡ some view
unfolding lookup
view_known = refl

abbrev pub listed : AccessSet
listed = record {
  permission = "crm.customers:view";
  record_type = "customer";
  unowned_is_own = false;
  principal = who;
  clauses = at_dealer ∷ [];
}

prepared : (prepare engine (5, 6) request "crm.customers:view" empty).0 ≡ ok (who, view, held)
unfolding prepare effective load_effective new_cache get build lookup_role lookup chain check
    ancestors next_scope level_above find_level insert add_clauses resolve pin tenant_of attrs_for
prepared = refl

prepare_sound_example :
    (request ≡ some who)
    × (lookup_permission catalogue "crm.customers:view" ≡ some view)
    × (load_effective engine anna ≡ ok held)
prepare_sound_example =
    prepare_sound engine (5, 6) request "crm.customers:view" empty empty-IsFresh prepared

-- The clause at the location is covered by the one at the dealer, and pruned.
listed_found : (access engine (5, 6) request "crm.customers:view" empty).0 ≡ ok listed
unfolding access prepare effective load_effective new_cache get build lookup_role lookup chain check
    ancestors next_scope level_above find_level insert add_clauses resolve pin tenant_of attrs_for
    open_clauses prune clauses feature_on covers
listed_found = refl

access-require_on_example :
    ((require_on engine (5, 6) request "crm.customers:view" customer empty).0 ≡ ok tt) ↔ (
      any (reaches engine "crm.customers:view" view who customer above_customer) listed.clauses
      ≡ true)
access-require_on_example =
    access-require_on engine (5, 6) request "crm.customers:view" view customer empty above_customer
      empty-IsFresh view_known refl customer-Consistent customer_chain listed_found

require_on_reaches_example :
    require_on_clauses engine who "crm.customers:view" view customer none
      (at_location ∷ at_dealer ∷ [])
    ≡ (if any
          (reaches engine "crm.customers:view" view who customer above_customer)
          (at_location ∷ at_dealer ∷ [])
        then ok tt
        else fault (forbidden_error "crm.customers:view"))
require_on_reaches_example =
    require_on_reaches engine "crm.customers:view" view who customer refl above_customer none
      (at_location ∷ at_dealer ∷ []) customer_chain (inl refl)

dealer_covers : covers at_dealer at_location ≡ true
unfolding covers
dealer_covers = refl

location_matches : match_record at_location who view customer ≡ true
unfolding match_record
location_matches = refl

abbrev two : List Clause
two = at_location ∷ at_dealer ∷ []

location_resolved : chain plain parent_of location [] ≡ ok above_customer
unfolding chain check check_all ancestors next_scope ask_parent level_above find_level lookup
location_resolved = refl

dealer_resolved : chain plain parent_of dealer [] ≡ ok (dealer ∷ organization ∷ [])
unfolding chain check check_all ancestors next_scope ask_parent level_above find_level lookup
dealer_resolved = refl

two-IsResolved : (c : Clause) → Memᴰ c two → IsResolved plain parent_of c
two-IsResolved c m = elim (mem_cases m) [
  | inl same ↦ rw same location_resolved
  | inr later ↦ elim (mem_cases later) [
    | inl same ↦ rw same dealer_resolved
    | inr past ↦ elim past [ ]
  ]
]

-- Whether a clause reaches the customer at the location.
abbrev reached : Clause → Bool
reached c = match_record c who view customer

any-prune_example : any reached (prune two) ≡ any reached two
any-prune_example =
    any-prune plain parent_of two two-IsResolved reached
      (λ a b _ _ ab h. match_record-covers a b who view customer ab h)
