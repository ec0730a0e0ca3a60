-- ===== src/Authz/Delegation/LastAdmin.antt =====
-- keepsAccess: nobody takes their own last access to a protected permission away.
use go_core.Prelude.{
  ℕ, ℤ, String, ◌≡◌, refl, sym, ◌∙◌, true, List, [], ◌∷◌, Option, none, some, arith, Memᴰ,
  mem_cases, inl, inr, is_positive, Option-cases, ◌==◌, int_eq, string_eq, if◌then◌else◌,
}
use go_core.Authz.Errors.{Result, ok-injective, ok, wrap_error, internal_error, >>=-eq-ok}
use go_core.Authz.Types.{Subject, Role, RoleRef, role_ref_valid, Binding}
use go_core.Authz.Effective.{Effective, Reader, clauses, build}
use go_core.Authz.Effective.Valid.{build_valid}
use go_core.Authz.Cache.{Cache}
use go_core.Authz.Engine.{Engine, load_effective, lookup_role}
use go_core.Authz.Engine.Cached.{IsFresh}
use go_core.Authz.Engine.Agreement.{wrapped_ok}
use go_core.Authz.Delegation.{
  kept_bindings, overridden, has_some, check_protected, keeps_after, keeps_access, with_effective,
}
use go_core.Authz.Delegation.Escalation.{with_effective_sound}

check_protected_sound :
    (old new : Effective) (perms : List String) {perm : String}
    → check_protected old new perms ≡ ok tt
    → Memᴰ perm perms
    → has_some (clauses old perm) ≡ true
    → has_some (clauses new perm) ≡ true
unfolding check_protected
check_protected_sound old new [] h m had = elim m [ ]
check_protected_sound old new (p ∷ perms) {perm} h m had = elim (mem_cases m) [
  | inl same ↦
      let had' : has_some (clauses old p) ≡ true = rw (← same) had in rw same (ground arith)
  | inr later ↦ check_protected_sound old new perms (ground arith) later had
]

module _ (e : Engine) (s : Subject) (protected : List String) (drop : ℤ)
    (override : Option Role) where
  keeps_after_sound :
      (old : Effective) (bs : List Binding)
      → e.store.bindings_for s ≡ ok bs
      → keeps_after e s protected drop override old ≡ ok tt
      → (new : Effective) × (build e.rules (overridden e override) s (kept_bindings drop bs)
          ≡ ok new)
        × (check_protected old new protected ≡ ok tt)
  unfolding keeps_after
  keeps_after_sound old bs listed h =
      let (bs', found, more) = >>=-eq-ok (wrap_error internal_error (e.store.bindings_for s)) _ h in
      let same : bs' ≡ bs = ground arith in
      let (new, built, checked) =
        >>=-eq-ok
          (wrap_error internal_error
            (build e.rules (overridden e override) s (kept_bindings drop bs')))
          _ more in
      (new, rw (← same) (wrapped_ok e internal_error _ built), checked)

  -- The store's roles with the replaced one's new definition.
  abbrev pub role_after : ℤ → Result Role
  role_after id = elim override [
    | none ↦ e.store.role id
    | some role ↦ if id == role.id then ok role else e.store.role id
  ]

  module _ (store' : Reader) (bs : List Binding) (listed : e.store.bindings_for s ≡ ok bs)
      (kept : store'.bindings_for s ≡ ok (kept_bindings drop bs))
      (roles : (id : ℤ) → is_positive id ≡ true → store'.role id ≡ role_after id) where
    -- A well-formed reference names the role by its ID or by its key, so the override is found as the
    -- store finds it afterwards.
    looked_up :
        (ref : RoleRef)
        → role_ref_valid ref ≡ true
        → lookup_role (record e { store = store' }) ref ≡ overridden e override ref
    unfolding lookup_role
    looked_up ref valid = elim (Option-cases override) [
      | inl same ↦ ground (arith, roles ref.id)
      | inr (role, replaced) ↦ ground (arith, roles ref.id)
    ]

    reloaded :
        {new : Effective}
        → build e.rules (overridden e override) s (kept_bindings drop bs) ≡ ok new
        → load_effective (record e { store = store' }) s ≡ ok new
    unfolding load_effective
    reloaded {new} built =
        rw
          (
            kept,
            build_valid e.rules (overridden e override) (lookup_role (record e { store = store' }))
                looked_up s (kept_bindings drop bs),
            built,
          )
          refl

    -- Where keepsAccess, over a cache whose entries are what loading gives now, lets a change to
    -- the actor's own bindings or to a role pass, and the store then holds what was checked (the
    -- actor's bindings without the dropped one, and under every positive ID the role that was there,
    -- or the replaced role's new definition): loading succeeds again,
    -- and a protected permission that the actor held before is held after.
    pub keeps_access-kept :
        (t : ℕ × ℕ) (c : Cache) {perm : String} {old : Effective}
        → IsFresh e c
        → (keeps_access e t s protected drop override c).0 ≡ ok tt
        → Memᴰ perm protected
        → load_effective e s ≡ ok old
        → has_some (clauses old perm) ≡ true
        → (new : Effective) × (load_effective (record e { store = store' }) s ≡ ok new)
          × (has_some (clauses new perm) ≡ true)
    unfolding keeps_access
    keeps_access-kept t c {perm} {old} fresh h m before had =
        let (old', loaded, passed) =
          with_effective_sound e t s (keeps_after e s protected drop override) c fresh
            (nonempty protected m h) in
        let same : old ≡ old' = ok-injective (sym before ∙ loaded) in
        let (new, built, checked) = keeps_after_sound old' bs listed passed in
        (new, reloaded built, check_protected_sound old' new protected checked m (rw (← same) had))
      where
        nonempty :
            (ps : List String)
            → Memᴰ perm ps
            → (keeps_access e t s ps drop override c).0 ≡ ok tt
            → (with_effective e t s (keeps_after e s ps drop override) c).0 ≡ ok tt
        nonempty [] m h = elim m [ ]
        nonempty (p ∷ ps) m h = h
