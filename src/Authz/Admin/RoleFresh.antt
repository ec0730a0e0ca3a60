-- ===== src/Authz/Admin/RoleFresh.antt =====
-- SaveRole and DeleteRole leave no stale access in the cache.
use go_core.Prelude.{
  ℕ, ℤ, pos, String, ◌≡◌, refl, sym, true, false, [], ◌∷◌, Option, some, ◌==◌, int_eq, Option-cases,
  Bool-cases, inl, inr, is_positive,
}
use mathlib.Core.Path.{subst}
use go_core.Authz.Errors.{
  bad_request_from, Result, ok, fault, Result-cases, wrap_error, internal_error, >>=-eq-ok,
}
use go_core.Authz.Types.{Subject, Principal, Role, RoleRef}
use go_core.Authz.Effective.{Effective, build, uses_role}
use go_core.Authz.Effective.RoleChange.{build-unused_role}
use go_core.Authz.Cache.{Cache, evict_role}
use go_core.Authz.Cache.Eviction.{evict_role-lookup}
use go_core.Authz.Role.{resolve, validate_role}
use go_core.Authz.Engine.{load_effective, lookup_role, principal_from, require}
use go_core.Authz.Engine.Cached.{IsFresh}
use go_core.Authz.Engine.Agreement.{wrapped_ok}
use go_core.Authz.Delegation.{can_save_role, holds_all}
use go_core.Authz.Admin.{Admin, engine_at, commit, replaces, save_role, unbound_role, delete_role}
use go_core.Authz.Admin.Fresh.{
  with_effective-IsFresh, prepare-IsFresh, keeps_access-IsFresh, Fresh, checked-Fresh,
}

module _ {S : Type 0} (a : Admin S) where
  -- A write that concerns one stored role: all bindings and the other roles are as before.
  pub record TouchesRole (id : ℤ) (old new : S) : Type 0 where
    pub stored_role : is_positive id ≡ true
    pub same_bindings :
        (s : Subject) → (a.store.reader new).bindings_for s ≡ (a.store.reader old).bindings_for s
    pub other_roles :
        (i : ℤ) → (i == id) ≡ false → (a.store.reader new).role i ≡ (a.store.reader old).role i

  module _ (id : ℤ) (old new : S) (touches : TouchesRole id old new) where
    other_lookup :
        (ref : RoleRef)
        → (ref.id == id) ≡ false
        → lookup_role (engine_at a new) ref ≡ lookup_role (engine_at a old) ref
    unfolding lookup_role
    other_lookup ref other = rw (touches.other_roles ref.id other) refl

    -- An access that does not note the role is loaded again as it was.
    unused_load :
        (s : Subject) {eff : Effective}
        → load_effective (engine_at a old) s ≡ ok eff
        → uses_role eff id ≡ false
        → load_effective (engine_at a new) s ≡ ok eff
    unfolding load_effective
    unused_load s {eff} loaded unused =
        let (bs, listed, more) =
          >>=-eq-ok (wrap_error internal_error ((a.store.reader old).bindings_for s)) _ loaded in
        let built : build a.engine.rules (lookup_role (engine_at a old)) s bs ≡ ok eff =
          wrapped_ok (engine_at a old) internal_error _ more in
        let again =
          build-unused_role a.engine.rules id touches.stored_role (lookup_role (engine_at a old))
            (lookup_role (engine_at a new)) other_lookup s bs built unused in
        rw (touches.same_bindings s, listed, again) refl

    evict_role-IsFresh :
        (c : Cache) → IsFresh (engine_at a old) c → IsFresh (engine_at a new) (evict_role id c)
    evict_role-IsFresh c fresh s entry h =
        let (found, unused) = evict_role-lookup id s c h in
        unused_load s (fresh s entry found) unused

  -- A write that fails changes nothing, and one that succeeds concerns the role of its answer only.
  abbrev pub WritesRole : {A : Type 0} → (A → ℤ) → S → Result A × S → Type 0
  WritesRole id_of old (fault x, new) = new ≡ old
  WritesRole id_of old (ok v, new) = TouchesRole (id_of v) old new

  commit_role-Fresh :
      {A : Type 0} (id_of : A → ℤ) (st : S) (r : Result A × S) (c : Cache)
      → WritesRole id_of st r
      → IsFresh (engine_at a st) c
      → Fresh a (commit a r c (λ v. evict_role (id_of v)))
  commit_role-Fresh id_of st (fault x, new) c unchanged fresh =
      subst (λ st. IsFresh (engine_at a st) c) (sym unchanged) fresh
  commit_role-Fresh id_of st (ok v, new) c touches fresh =
      evict_role-IsFresh (id_of v) st new touches c fresh

  require-IsFresh :
      (t : ℕ × ℕ) (ctx : Option Principal) (permission : String) (st : S) (c : Cache)
      → IsFresh (engine_at a st) c
      → IsFresh (engine_at a st) (require (engine_at a st) t ctx permission c).1
  unfolding require
  require-IsFresh t ctx permission st c fresh =
      prepare-IsFresh (engine_at a st) t ctx permission c fresh

  can_save_role-IsFresh :
      (t : ℕ × ℕ) (actor : Principal) (role : Role) (st : S) (c : Cache)
      → IsFresh (engine_at a st) c
      → IsFresh (engine_at a st) (can_save_role (engine_at a st) t actor role c).1
  unfolding can_save_role
  can_save_role-IsFresh t actor role st c fresh = elim (Option-cases role.computed) [
    | inr (f, computed) ↦ rw (can_save_role, computed) fresh
    | inl stored ↦
        elim (Result-cases (wrap_error bad_request_from (validate_role role a.engine.cat))) [
          | inr (x, refused) ↦ rw (can_save_role, stored, refused) fresh
          | inl (u, valid) ↦
              rw (can_save_role, stored, valid)
                (with_effective-IsFresh (engine_at a st) t actor.subject
                  (λ eff. holds_all a.engine.cat eff role (resolve role a.engine.cat)) c fresh)
        ]
  ]

  replaces-IsFresh :
      (t : ℕ × ℕ) (actor : Principal) (role : Role) (st : S) (c : Cache)
      → IsFresh (engine_at a st) c
      → IsFresh (engine_at a st) (replaces a t actor role st c).1
  unfolding replaces
  replaces-IsFresh t actor role st c fresh = elim (Bool-cases (is_positive role.id)) [
    | inr new ↦ rw (replaces, new) fresh
    | inl old ↦ elim (Result-cases ((a.store.reader st).role role.id)) [
      | inr (x, missing) ↦ rw (replaces, old, missing) fresh
      | inl (r, there) ↦
          rw (replaces, old, there)
            (keeps_access-IsFresh (engine_at a st) t actor.subject a.protected (pos 0) (some role) c
              fresh)
    ]
  ]

  unbound_role-IsFresh :
      (id : ℤ) (st : S) (c : Cache)
      → IsFresh (engine_at a st) c
      → IsFresh (engine_at a st) (unbound_role a id st c).1
  unfolding unbound_role
  unbound_role-IsFresh id st c fresh = elim (Result-cases (a.store.bindings_for_role st id)) [
    | inr (x, failed) ↦ rw (unbound_role, failed) fresh
    | inl ([], free) ↦ rw (unbound_role, free) fresh
    | inl (b ∷ bs, in_use) ↦ rw (unbound_role, in_use) fresh
  ]

  -- Whatever SaveRole answers, where the cache before held only what loading gives, the cache then holds
  -- only what loading from the changed store gives: as long as the store's own SaveRole, where it
  -- succeeds, answers a role with a positive ID and changes no binding and no role but that one, and
  -- where it fails, changes nothing.
  pub save_role-Fresh :
      (t1 t2 t3 : ℕ × ℕ) (ctx : Option Principal) (given : Role) (st : S) (c : Cache)
      → ((actor : Subject) (role : Role)
          → WritesRole (λ saved. saved.id) st (a.store.save_role st actor role))
      → IsFresh (engine_at a st) c
      → Fresh a (save_role a t1 t2 t3 ctx given (st, c))
  unfolding save_role
  save_role-Fresh t1 t2 t3 ctx given st c writes fresh = elim (Option-cases (principal_from ctx)) [
    | inl nobody ↦ rw (save_role, nobody) fresh
    | inr (actor, here) ↦
        let role = record given { key = "" } in
        rw (save_role, here)
          (checked-Fresh a st (require (engine_at a st) t1 ctx a.roles c) _
            (require-IsFresh t1 ctx a.roles st c fresh)
            (λ c fresh.
              checked-Fresh a st (can_save_role (engine_at a st) t2 actor role c) _
                (can_save_role-IsFresh t2 actor role st c fresh)
                (λ c fresh.
                  checked-Fresh a st (replaces a t3 actor role st c) _
                    (replaces-IsFresh t3 actor role st c fresh)
                    (λ c fresh.
                      commit_role-Fresh (λ saved. saved.id) st
                        (a.store.save_role st actor.subject role) c (writes actor.subject role)
                        fresh))))
  ]

  -- The same of DeleteRole, where the store's own DeleteRole, if it succeeds, changes that role only.
  pub delete_role-Fresh :
      (t1 : ℕ × ℕ) (ctx : Option Principal) (id : ℤ) (st : S) (c : Cache)
      → ((actor : Subject) → WritesRole (λ _. id) st (a.store.delete_role st actor id))
      → IsFresh (engine_at a st) c
      → Fresh a (delete_role a t1 ctx id (st, c))
  unfolding delete_role
  delete_role-Fresh t1 ctx id st c writes fresh = elim (Option-cases (principal_from ctx)) [
    | inl nobody ↦ rw (delete_role, nobody) fresh
    | inr (actor, here) ↦
        rw (delete_role, here)
          (checked-Fresh a st (require (engine_at a st) t1 ctx a.roles c) _
            (require-IsFresh t1 ctx a.roles st c fresh)
            (λ c fresh.
              checked-Fresh a st (unbound_role a id st c) _ (unbound_role-IsFresh id st c fresh)
                (λ c fresh.
                  commit_role-Fresh (λ _. id) st (a.store.delete_role st actor.subject id) c
                    (writes actor.subject) fresh)))
  ]
