-- ===== src/Authz/Examples/Administration.antt =====
-- The theorems on the write side, applied: a store that is a list of bindings; Anna gives up one of her
-- own, gives one to Ben, and narrows the role.
use go_core.Prelude.{
  ℤ, pos, ◌≡◌, refl, not, List, [], ◌∷◌, some, if◌then◌else◌, ◌==◌, int_eq, keep, arith, none,
  lookup, insert, Bool-cases, inl, inr, ==-eq,
}
use go_core.Authz.Errors.{
  Result, ok, fault, sentinel, binding_not_found, role_not_found, role_in_use,
}
use go_core.Authz.Types.{Subject, subject_eq, user, Role, qualifier_own, Binding}
use go_core.Authz.Hierarchy.{
  chain, check, ancestors, next_scope, level_above, find_level, tenant_of,
}
use go_core.Authz.Clause.{attrs_cover}
use go_core.Authz.Effective.{clauses, build, add_clauses, pin, attrs_for}
use go_core.Authz.Role.{resolve, validate_role}
use go_core.Authz.Engine.{
  load_effective, effective, feature_on, lookup_role, require, require_clauses, prepare,
}
use go_core.Authz.Delegation.{can_save_role, holds_all, keeps_access, keeps_after, check_protected}
use go_core.Authz.Admin.{Store, Admin, bind, unbind, replaces, save_role, engine_at}
use go_core.Authz.Admin.RoleFresh.{WritesRole, save_role-Fresh}
use go_core.Authz.Admin.Fresh.{Fresh, Writes, bind-Fresh, unbind-Fresh}
use go_core.Authz.Engine.Cached.{IsFresh}
use go_core.Authz.Cache.{new_cache, get, put}
use go_core.Authz.Examples.{dealer}
use go_core.Authz.Examples.Decisions.{
  anna, bound, bindings, stored_role, engine, empty, who, salesman,
}

abbrev ben : Subject
ben = record { kind = user; id = pos 8 }

abbrev find : ℤ → List Binding → Result Binding
find id [] = fault (sentinel binding_not_found "")
find id (b ∷ bs) = if b.id == id then ok b else find id bs

abbrev of_subject : Subject → List Binding → List Binding
of_subject s bs = keep (λ b. b.subject == s) bs

abbrev table : Store (List Binding)
table = record {
  reader = λ st. record { bindings_for = λ s. ok (of_subject s st); role = stored_role };
  binding = λ st id. find id st;
  bindings_for_role = λ st id. ok (keep (λ b. b.role.id == id) st);
  save_role = λ st _ role. (ok role, st);
  delete_role = λ st _ id. (ok tt, st);
  bind = λ st _ b. (ok b, b ∷ st);
  unbind = λ st _ id. (ok tt, keep (λ b. not (b.id == id)) st);
}

abbrev admin : Admin (List Binding)
admin = record {
  engine = engine;
  store = table;
  roles = "crm.customers:view";
  bindings = "crm.customers:view";
  protected = "crm.customers:view" ∷ [];
}

empty_now-IsFresh : IsFresh (engine_at admin bindings) empty
unfolding new_cache lookup
empty_now-IsFresh s entry h = absurd (ground arith)

dropped :
    (b : Binding)
    → find (pos 2) bindings ≡ ok b
    → Writes admin b.subject bindings (table.unbind bindings anna (pos 2))
dropped b found = record { same_roles = λ id. refl; others = λ s' other. ground arith }

unbind-Fresh_example :
    Fresh admin (unbind admin (1, 2) (3, 4) (5, 6) (some who) (pos 2) (bindings, empty))
unbind-Fresh_example =
    unbind-Fresh admin (1, 2) (3, 4) (5, 6) (some who) (pos 2) bindings empty
      (λ _ b found. dropped b found) empty_now-IsFresh

abbrev given : Binding
given = record (bound (pos 3) dealer) { subject = ben }

added : Writes admin ben bindings (table.bind bindings anna given)
added = record { same_roles = λ id. refl; others = λ s' other. ground arith }

bind-Fresh_example : Fresh admin (bind admin (1, 2) (3, 4) (some who) given (bindings, empty))
bind-Fresh_example =
    bind-Fresh admin (1, 2) (3, 4) (some who) given bindings empty (λ _. added) empty_now-IsFresh

-- A store of one role that can be changed; Anna narrows it, and her own access, which the checks have put
-- into the cache, rests on it.
abbrev one_role : Store Role
one_role = record {
  reader = λ st. record {
    bindings_for = λ _. ok bindings;
    role = λ id. if id == pos 4 then ok st else fault (sentinel role_not_found "");
  };
  binding = λ _ id. find id bindings;
  bindings_for_role = λ _ id. ok (keep (λ b. b.role.id == id) bindings);
  save_role = λ st _ role.
      if role.id == pos 4 then (ok role, role) else (fault (sentinel role_not_found ""), st);
  delete_role = λ st _ id. (fault (sentinel role_in_use ""), st);
  bind = λ st _ b. (ok b, st);
  unbind = λ st _ id. (ok tt, st);
}

abbrev role_admin : Admin Role
role_admin = record {
  engine = engine;
  store = one_role;
  roles = "crm.customers:view";
  bindings = "crm.customers:view";
  protected = "crm.customers:view" ∷ [];
}

abbrev narrowed : Role
narrowed = record {
  id = pos 4;
  key = "";
  name = "Junior";
  grants = record { permission = "crm.customers:view"; qualifier = qualifier_own } ∷ [];
  attrs = [];
  computed = none;
}

-- The change goes through.
narrows :
    (save_role role_admin (1, 2) (3, 4) (5, 6) (some who) narrowed (salesman, empty)).0
    ≡ ok narrowed
unfolding save_role replaces require require_clauses prepare can_save_role validate_role holds_all
    attrs_cover keeps_access keeps_after check_protected resolve lookup insert effective get put
    feature_on new_cache load_effective build lookup_role chain check ancestors next_scope
    level_above find_level add_clauses attrs_for clauses pin tenant_of
narrows = refl

role_written :
    (role : Role)
    → WritesRole role_admin (λ saved. saved.id) salesman (one_role.save_role salesman anna role)
role_written role = elim (Bool-cases (role.id == pos 4)) [
  | inr other ↦ rw other refl
  | inl same ↦ rw same (record {
    stored_role = rw (==-eq role.id (pos 4) same) refl;
    same_bindings = λ s. refl;
    other_roles = λ i other. ground (arith, ==-eq role.id (pos 4) same);
  })
]

salesman-IsFresh : IsFresh (engine_at role_admin salesman) empty
unfolding new_cache lookup
salesman-IsFresh s entry h = absurd (ground arith)

save_role-Fresh_example :
    Fresh role_admin
      (save_role role_admin (1, 2) (3, 4) (5, 6) (some who) narrowed (salesman, empty))
save_role-Fresh_example =
    save_role-Fresh role_admin (1, 2) (3, 4) (5, 6) (some who) narrowed salesman empty
      (λ _ role. role_written role) salesman-IsFresh
