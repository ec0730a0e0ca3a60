-- ===== src/Authz/Admin/Fresh.antt =====
-- Bind and Unbind leave no stale access in the cache.
use go_core.Prelude.{
  ℕ, ℤ, String, ◌≡◌, refl, sym, ◌∙◌, false, List, [], ◌∷◌, Option, none, lookup-delete, arith, ◌==◌,
  Option-cases, Bool-cases, inl, inr,
}
use mathlib.Core.Path.{subst}
use go_core.Authz.Errors.{Result, ok, fault, Result-cases}
use go_core.Authz.Types.{Scope, Subject, subject_eq, Principal, Role, RoleRef, Binding, Resource}
use go_core.Authz.Catalogue.{lookup_permission}
use go_core.Authz.Effective.{Effective}
use go_core.Authz.Cache.{Cache, evict}
use go_core.Authz.Engine.{
  Engine, load_effective, lookup_role, effective, prepare, principal_from, require_on,
}
use go_core.Authz.Engine.Cached.{IsFresh, effective-eq-load}
use go_core.Authz.Delegation.{
  with_effective, can_bind, bindable, may_bind, keeps_access, keeps_after,
}
use go_core.Authz.Admin.{
  Admin, engine_at, checked, commit, assignable, well_formed, releasable, own_access, bind, unbind,
  place_of,
}

-- The checks only fill the cache with what loading gives.
module _ (e : Engine) where
  pub IsFresh-subst : (c c' : Cache) → c' ≡ c → IsFresh e c → IsFresh e c'
  IsFresh-subst c c' same fresh = subst (IsFresh e) (sym same) fresh

  pub with_effective-IsFresh :
      (t : ℕ × ℕ) (s : Subject) (use_it : Effective → Result (Unit {0})) (c : Cache)
      → IsFresh e c
      → IsFresh e (with_effective e t s use_it c).1
  with_effective-IsFresh t s use_it c fresh = (effective-eq-load e t s c fresh).1

  pub prepare-IsFresh :
      (t : ℕ × ℕ) (ctx : Option Principal) (permission : String) (c : Cache)
      → IsFresh e c
      → IsFresh e (prepare e t ctx permission c).1
  unfolding prepare
  prepare-IsFresh t ctx permission c fresh = elim (Option-cases (principal_from ctx)) [
    | inl nobody ↦ IsFresh-subst c (prepare e t ctx permission c).1 (ground arith) fresh
    | inr (p, here) ↦ elim (Option-cases (lookup_permission e.cat permission)) [
      | inl unknown ↦ IsFresh-subst c (prepare e t ctx permission c).1 (ground arith) fresh
      | inr (perm, known) ↦
          IsFresh-subst (effective e t p.subject c).1 (prepare e t ctx permission c).1
            (ground arith) ((effective-eq-load e t p.subject c fresh).1)
    ]
  ]

  require_on-IsFresh :
      (t : ℕ × ℕ) (ctx : Option Principal) (permission : String) (res : Resource) (c : Cache)
      → IsFresh e c
      → IsFresh e (require_on e t ctx permission res c).1
  unfolding require_on
  require_on-IsFresh t ctx permission res c fresh = prepare-IsFresh t ctx permission c fresh

  can_bind-IsFresh :
      (t : ℕ × ℕ) (actor : Principal) (role : Role) (scope : Scope) (manage : String) (c : Cache)
      → IsFresh e c
      → IsFresh e (can_bind e t actor role scope manage c).1
  unfolding can_bind
  can_bind-IsFresh t actor role scope manage c fresh = elim (Result-cases (bindable e role scope)) [
    | inr (x, refused) ↦
        IsFresh-subst c (can_bind e t actor role scope manage c).1 (ground arith) fresh
    | inl (above, placed) ↦
        IsFresh-subst (with_effective e t actor.subject (may_bind e role manage above) c).1
          (can_bind e t actor role scope manage c).1 (ground arith)
          (with_effective-IsFresh t actor.subject (may_bind e role manage above) c fresh)
  ]

  pub keeps_access-IsFresh :
      (t : ℕ × ℕ) (s : Subject) (protected : List String) (drop : ℤ) (override : Option Role)
      (c : Cache)
      → IsFresh e c
      → IsFresh e (keeps_access e t s protected drop override c).1
  unfolding keeps_access
  keeps_access-IsFresh t s [] drop override c fresh = fresh
  keeps_access-IsFresh t s (p ∷ ps) drop override c fresh =
      with_effective-IsFresh t s (keeps_after e s (p ∷ ps) drop override) c fresh

-- Two engines that load the same for everybody but `s`: what is fresh for one is fresh for the other,
-- once `s` is evicted.
evict-IsFresh :
    (e e' : Engine) (s : Subject) (c : Cache)
    → ((s' : Subject) → (s == s') ≡ false → load_effective e' s' ≡ load_effective e s')
    → IsFresh e c
    → IsFresh e' (evict s c)
unfolding evict
evict-IsFresh e e' s c same fresh s' entry h = elim (Bool-cases (s == s')) [
  | inl hit ↦ absurd (ground (arith, lookup-delete s s' c.entries))
  | inr miss ↦ same s' miss ∙ fresh s' entry (ground (arith, lookup-delete s s' c.entries))
]

module _ {S : Type 0} (a : Admin S) where
  -- A write that concerns one subject: the others' bindings and all roles are as before.
  pub record Touches (s : Subject) (old new : S) : Type 0 where
    pub same_roles : (id : ℤ) → (a.store.reader new).role id ≡ (a.store.reader old).role id
    pub others :
        (s' : Subject)
        → (s == s') ≡ false
        → (a.store.reader new).bindings_for s' ≡ (a.store.reader old).bindings_for s'

  same_lookup :
      (s : Subject) (old new : S) (ref : RoleRef)
      → Touches s old new
      → lookup_role (engine_at a new) ref ≡ lookup_role (engine_at a old) ref
  unfolding lookup_role
  same_lookup s old new ref touches = rw (touches.same_roles ref.id) refl

  others_load :
      (s : Subject) (old new : S)
      → Touches s old new
      → (s' : Subject) → (s == s') ≡ false
      → load_effective (engine_at a new) s' ≡ load_effective (engine_at a old) s'
  unfolding load_effective
  others_load s old new touches s' other =
      let same : lookup_role (engine_at a new) ≡ lookup_role (engine_at a old) =
        λ i ref. same_lookup s old new ref touches i in
      rw (touches.others s' other, same) refl

  -- The cache is fresh for the store that it is beside.
  abbrev pub Fresh : {A : Type 0} → Result A × (S × Cache) → Type 0
  Fresh (r, (st, c)) = IsFresh (engine_at a st) c

  pub checked-Fresh :
      {A : Type 0} (st : S) (r : Result (Unit {0}) × Cache) (next : Cache → Result A × (S × Cache))
      → IsFresh (engine_at a st) r.1
      → ((c : Cache) → IsFresh (engine_at a st) c → Fresh (next c))
      → Fresh (checked a st r next)
  checked-Fresh st (fault x, c) next fresh after = fresh
  checked-Fresh st (ok u, c) next fresh after = after c fresh

  -- A write that fails changes nothing, and one that succeeds concerns the subject only.
  abbrev pub Writes : {A : Type 0} → Subject → S → Result A × S → Type 0
  Writes s old (fault x, new) = new ≡ old
  Writes s old (ok v, new) = Touches s old new

  commit-Fresh :
      {A : Type 0} (st : S) (r : Result A × S) (s : Subject) (c : Cache)
      → Writes s st r
      → IsFresh (engine_at a st) c
      → Fresh (commit a r c (λ _. evict s))
  commit-Fresh st (fault x, new) s c unchanged fresh =
      subst (λ st. IsFresh (engine_at a st) c) (sym unchanged) fresh
  commit-Fresh st (ok v, new) s c touches fresh =
      evict-IsFresh (engine_at a st) (engine_at a new) s c (others_load s st new touches) fresh

  releasable-IsFresh :
      (t : ℕ × ℕ) (actor : Principal) (b : Binding) (st : S) (c : Cache)
      → IsFresh (engine_at a st) c
      → IsFresh (engine_at a st) (releasable a t actor b st c).1
  unfolding releasable
  releasable-IsFresh t actor b st c fresh =
      elim (Result-cases (lookup_role (engine_at a st) b.role)) [
        | inl (role, found) ↦
            IsFresh-subst (engine_at a st)
              (can_bind (engine_at a st) t actor role b.scope a.bindings c).1
              (releasable a t actor b st c).1 (ground arith)
              (can_bind-IsFresh (engine_at a st) t actor role b.scope a.bindings c fresh)
        | inr (x, missing) ↦
            IsFresh-subst (engine_at a st) c (releasable a t actor b st c).1 (ground arith) fresh
      ]

  assignable-IsFresh :
      (t : ℕ × ℕ) (actor : Principal) (b : Binding) (st : S) (c : Cache)
      → IsFresh (engine_at a st) c
      → IsFresh (engine_at a st) (assignable a t actor b st c).1
  unfolding assignable
  assignable-IsFresh t actor b st c fresh =
      elim (Result-cases (lookup_role (engine_at a st) b.role)) [
        | inl (role, found) ↦
            IsFresh-subst (engine_at a st)
              (can_bind (engine_at a st) t actor role b.scope a.bindings c).1
              (assignable a t actor b st c).1 (ground arith)
              (can_bind-IsFresh (engine_at a st) t actor role b.scope a.bindings c fresh)
        | inr (x, missing) ↦
            IsFresh-subst (engine_at a st) c (assignable a t actor b st c).1 (ground arith) fresh
      ]

  own_access-IsFresh :
      (t : ℕ × ℕ) (actor : Principal) (b : Binding) (st : S) (c : Cache)
      → IsFresh (engine_at a st) c
      → IsFresh (engine_at a st) (own_access a t actor b st c).1
  unfolding own_access
  own_access-IsFresh t actor b st c fresh = elim (Bool-cases (b.subject == actor.subject)) [
    | inl own ↦
        IsFresh-subst (engine_at a st)
          (keeps_access (engine_at a st) t actor.subject a.protected b.id none c).1
          (own_access a t actor b st c).1 (ground arith)
          (keeps_access-IsFresh (engine_at a st) t actor.subject a.protected b.id none c fresh)
    | inr other ↦
        IsFresh-subst (engine_at a st) c (own_access a t actor b st c).1 (ground arith) fresh
  ]

  -- Whatever Unbind answers, where the cache before held only what loading gives, the cache then
  -- holds only what loading from the changed store gives: as long as the store's own Unbind, where
  -- it succeeds, changes nobody's bindings but those of the binding's subject and no role, and
  -- where it fails, changes nothing.
  pub unbind-Fresh :
      (t1 t2 t3 : ℕ × ℕ) (ctx : Option Principal) (id : ℤ) (st : S) (c : Cache)
      → ((actor : Subject) (b : Binding)
          → a.store.binding st id ≡ ok b
          → Writes b.subject st (a.store.unbind st actor id))
      → IsFresh (engine_at a st) c
      → Fresh (unbind a t1 t2 t3 ctx id (st, c))
  unfolding unbind
  unbind-Fresh t1 t2 t3 ctx id st c writes fresh = elim (Option-cases (principal_from ctx)) [
    | inl nobody ↦ rw (unbind, nobody) fresh
    | inr (actor, here) ↦ elim (Result-cases (a.store.binding st id)) [
      | inr (x, missing) ↦ rw (unbind, here, missing) fresh
      | inl (b, found) ↦
          rw (unbind, here, found)
            (checked-Fresh st (require_on (engine_at a st) t1 ctx a.bindings (place_of b.scope) c) _
              (require_on-IsFresh (engine_at a st) t1 ctx a.bindings (place_of b.scope) c fresh)
              (λ c fresh.
                checked-Fresh st (releasable a t2 actor b st c) _
                  (releasable-IsFresh t2 actor b st c fresh)
                  (λ c fresh.
                    checked-Fresh st (own_access a t3 actor b st c) _
                      (own_access-IsFresh t3 actor b st c fresh)
                      (λ c fresh.
                        commit-Fresh st (a.store.unbind st actor.subject id) b.subject c
                          (writes actor.subject b found) fresh))))
    ]
  ]

  -- Whatever Bind answers, the cache then holds only what loading from the changed store gives, under the
  -- same conditions on the store's own Bind.
  pub bind-Fresh :
      (t1 t2 : ℕ × ℕ) (ctx : Option Principal) (b : Binding) (st : S) (c : Cache)
      → ((actor : Subject) → Writes b.subject st (a.store.bind st actor b))
      → IsFresh (engine_at a st) c
      → Fresh (bind a t1 t2 ctx b (st, c))
  unfolding bind
  bind-Fresh t1 t2 ctx b st c writes fresh = elim (Option-cases (principal_from ctx)) [
    | inl nobody ↦ rw (bind, nobody) fresh
    | inr (actor, here) ↦
        rw (bind, here)
          (checked-Fresh st (well_formed a actor b, c) _ fresh
            (λ c fresh.
              checked-Fresh st (require_on (engine_at a st) t1 ctx a.bindings (place_of b.scope) c)
                _ (require_on-IsFresh (engine_at a st) t1 ctx a.bindings (place_of b.scope) c fresh)
                (λ c fresh.
                  checked-Fresh st (assignable a t2 actor b st c) _
                    (assignable-IsFresh t2 actor b st c fresh)
                    (λ c fresh.
                      commit-Fresh st (a.store.bind st actor.subject b) b.subject c
                        (writes actor.subject) fresh))))
  ]
