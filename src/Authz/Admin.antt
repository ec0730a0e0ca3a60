-- ===== src/Authz/Admin.antt =====
-- authz/admin.go: the write side. The application's Store is a parameter: functions on a state of its
-- own, `S`. An operation takes that state and the cache and gives both back; `t1`, `t2` and `t3` are the
-- clock's readings in the cache's methods. The lock that serialises a person's own changes makes an
-- operation one step, and is not modelled further.
pub mod Fresh
pub mod RoleFresh
use go_core.Prelude.{
  ℕ, ℤ, pos, is_positive, String, Bool, true, false, not, ◌&&◌, ◌||◌, List, [], ◌∷◌, Option, none,
  some, if◌then◌else◌, ◌==◌, string_eq, int_eq,
}
use go_core.Authz.Errors.{
  Result, ok, fault, Error, sentinel, validation, app, other, panic, diverged, internal, not_found,
  already_exists, bad_request, permission_denied, role_not_found, binding_not_found,
  duplicate_binding, role_in_use, self_assignment, unknown_permission, invalid_role, is_error,
  internal_error, bad_request_from, unauthenticated_error, wrap_error, demand,
}
use go_core.Authz.Types.{
  Scope, Subject, subject_eq, subject_valid, Principal, Role, role_ref_valid, Binding, Resource,
}
use go_core.Authz.Hierarchy.{check}
use go_core.Authz.Catalogue.{lookup_permission}
use go_core.Authz.Effective.{Reader}
use go_core.Authz.Cache.{Cache, evict, evict_role}
use go_core.Authz.Role.{problem}
use go_core.Authz.Engine.{Engine, Checked, lookup_role, principal_from, require, require_on}
use go_core.Authz.Delegation.{can_save_role, can_bind, keeps_access}

-- authz/store.go's Store.
pub record Store (S : Type 0) : Type 0 where
  pub reader : S → Reader
  pub binding : S → ℤ → Result Binding
  pub bindings_for_role : S → ℤ → Result (List Binding)
  pub save_role : S → Subject → Role → Result Role × S
  pub delete_role : S → Subject → ℤ → Result (Unit {0}) × S
  pub bind : S → Subject → Binding → Result Binding × S
  pub unbind : S → Subject → ℤ → Result (Unit {0}) × S

pub record Admin (S : Type 0) : Type 0 where
  pub engine : Engine
  pub store : Store S
  pub roles : String
  pub bindings : String
  pub protected : List String

abbrev pub all_known : Engine → List String → Result (Unit {0})
all_known e [] = ok tt
all_known e (id ∷ ids) =
    let rest = all_known e ids in
    elim (lookup_permission e.cat id) [
      | none ↦ fault (sentinel unknown_permission id)
      | some _ ↦ rest
    ]

-- NewAdmin, for an engine and a store that are not nil.
unfoldable pub new_admin : {S : Type 0} → Admin S → Result (Admin S)
new_admin cfg = elim (all_known cfg.engine (cfg.roles ∷ cfg.bindings ∷ cfg.protected)) [
  | fault x ↦ fault x
  | ok _ ↦ ok cfg
]

-- errors.As for an AppError.
abbrev pub is_app : Error → Bool
is_app (app _ _) = true
is_app (sentinel _ _) = false
is_app (validation _) = false
is_app (other _) = false
is_app (panic _) = false
is_app diverged = false

-- storeErr
abbrev pub store_err : Error → Error
store_err x =
    if is_error x role_not_found || is_error x binding_not_found
    then app not_found x
    else (if is_error x duplicate_binding || is_error x role_in_use
        then app already_exists x
        else (if is_app x then x else internal_error x))

-- A record that is only a place.
abbrev pub place_of : Scope → Resource
place_of s = record {
  scope = s;
  ancestors = [];
  owner = pos 0;
  co_owner = pos 0;
  owner_location = pos 0;
  attrs = [];
}

abbrev pub malformed_binding : Error
malformed_binding = bad_request_from (
    validation (
      problem invalid_role "" "a binding needs a valid subject and exactly one of role ID and key"
      ∷ []))

abbrev pub assigned_to_self : Error
assigned_to_self = app permission_denied (sentinel self_assignment "")

module _ {S : Type 0} (a : Admin S) where
  -- The engine, reading the store as it is now.
  abbrev pub engine_at : S → Engine
  engine_at st = record a.engine { store = a.store.reader st }

  abbrev pub World : Type 0
  World = S × Cache

  -- `if err != nil { return err }` after a check.
  abbrev pub checked :
      {A : Type 0} → S → Result (Unit {0}) × Cache → (Cache → Result A × World) → Result A × World
  checked st (fault x, c) next = (fault x, (st, c))
  checked st (ok _, c) next = next c

  -- The write, and the eviction after it.
  abbrev pub commit : {A : Type 0} → Result A × S → Cache → (A → Cache → Cache) → Result A × World
  commit (fault x, st) c evicting = (fault (store_err x), (st, c))
  commit (ok v, st) c evicting = (ok v, (st, evicting v c))

  -- The checks of SaveRole on a role that exists.
  unfoldable pub replaces : ℕ × ℕ → Principal → Role → S → Checked (Unit {0})
  replaces t actor role st c =
      if is_positive role.id
      then elim ((a.store.reader st).role role.id) [
        | fault x ↦ (fault (store_err x), c)
        | ok _ ↦ keeps_access (engine_at st) t actor.subject a.protected (pos 0) (some role) c
      ]
      else (ok tt, c)

  -- Admin.SaveRole
  unfoldable pub save_role :
      ℕ × ℕ → ℕ × ℕ → ℕ × ℕ → Option Principal → Role → World → Result Role × World
  save_role t1 t2 t3 ctx given (st, c) = elim (principal_from ctx) [
    | none ↦ (fault unauthenticated_error, (st, c))
    | some actor ↦
        let role = record given { key = "" } in
        checked st (require (engine_at st) t1 ctx a.roles c) λ c.
          checked st (can_save_role (engine_at st) t2 actor role c) λ c.
            checked st (replaces t3 actor role st c)
              λ c. commit (a.store.save_role st actor.subject role) c (λ saved. evict_role saved.id)
  ]

  -- The test of DeleteRole that the role has no bindings.
  unfoldable pub unbound_role : ℤ → S → Checked (Unit {0})
  unbound_role id st c = elim (a.store.bindings_for_role st id) [
    | fault x ↦ (fault (store_err x), c)
    | ok [] ↦ (ok tt, c)
    | ok (b ∷ bs) ↦ (fault (app already_exists (sentinel role_in_use "")), c)
  ]

  -- Admin.DeleteRole
  unfoldable pub delete_role : ℕ × ℕ → Option Principal → ℤ → World → Result (Unit {0}) × World
  delete_role t1 ctx id (st, c) = elim (principal_from ctx) [
    | none ↦ (fault unauthenticated_error, (st, c))
    | some actor ↦ checked st (require (engine_at st) t1 ctx a.roles c) λ c.
        checked st (unbound_role id st c)
          λ c. commit (a.store.delete_role st actor.subject id) c (λ _. evict_role id)
  ]

  -- The tests of Bind on the binding itself.
  unfoldable pub well_formed : Principal → Binding → Result (Unit {0})
  well_formed actor b =
      if not (subject_valid b.subject) || not (role_ref_valid b.role)
      then fault malformed_binding
      else elim (wrap_error bad_request_from (check a.engine.h b.scope)) [
        | fault x ↦ fault x
        | ok _ ↦ demand (not (b.subject == actor.subject)) assigned_to_self
      ]

  -- The role of the binding, and whether it may be assigned there.
  unfoldable pub assignable : ℕ × ℕ → Principal → Binding → S → Checked (Unit {0})
  assignable t actor b st c = elim (lookup_role (engine_at st) b.role) [
    | fault x ↦ (fault (store_err x), c)
    | ok role ↦ can_bind (engine_at st) t actor role b.scope a.bindings c
  ]

  -- Admin.Bind
  unfoldable pub bind : ℕ × ℕ → ℕ × ℕ → Option Principal → Binding → World → Result Binding × World
  bind t1 t2 ctx b (st, c) = elim (principal_from ctx) [
    | none ↦ (fault unauthenticated_error, (st, c))
    | some actor ↦
        checked st (well_formed actor b, c)
          λ c. checked st (require_on (engine_at st) t1 ctx a.bindings (place_of b.scope) c) λ c.
            checked st (assignable t2 actor b st c)
              λ c. commit (a.store.bind st actor.subject b) c (λ _. evict b.subject)
  ]

  -- Unbind's check of the role, which may be gone.
  unfoldable pub releasable : ℕ × ℕ → Principal → Binding → S → Checked (Unit {0})
  releasable t actor b st c = elim (lookup_role (engine_at st) b.role) [
    | ok role ↦ can_bind (engine_at st) t actor role b.scope a.bindings c
    | fault x ↦ if is_error x role_not_found then (ok tt, c) else (fault (internal_error x), c)
  ]

  -- Unbind's check of the actor's own last access.
  unfoldable pub own_access : ℕ × ℕ → Principal → Binding → S → Checked (Unit {0})
  own_access t actor b st c =
      if b.subject == actor.subject
      then keeps_access (engine_at st) t actor.subject a.protected b.id none c
      else (ok tt, c)

  -- Admin.Unbind
  unfoldable pub unbind :
      ℕ × ℕ → ℕ × ℕ → ℕ × ℕ → Option Principal → ℤ → World → Result (Unit {0}) × World
  unbind t1 t2 t3 ctx id (st, c) = elim (principal_from ctx) [
    | none ↦ (fault unauthenticated_error, (st, c))
    | some actor ↦ elim (a.store.binding st id) [
      | fault x ↦ (fault (store_err x), (st, c))
      | ok b ↦ checked st (require_on (engine_at st) t1 ctx a.bindings (place_of b.scope) c) λ c.
          checked st (releasable t2 actor b st c) λ c.
            checked st (own_access t3 actor b st c)
              λ c. commit (a.store.unbind st actor.subject id) c (λ _. evict b.subject)
    ]
  ]
