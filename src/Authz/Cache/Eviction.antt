-- ===== src/Authz/Cache/Eviction.antt =====
-- authz/cache.go's EvictRole: what it leaves.
use go_core.Prelude.{
  ℤ, ◌≡◌, true, false, [], ◌∷◌, some, Memᴰ, mem_cases, mem_of_eq, mem_delete, lookup, delete,
  lookup-delete, lookup-mem, Map, Bool-cases, inl, inr, arith, ◌==◌, ==_refl,
}
use go_core.Authz.Types.{Subject, subject_eq}
use go_core.Authz.Effective.{uses_role}
use go_core.Authz.Cache.{Cache, CacheEntry, evict_users, evict_role}

module _ (id : ℤ) where
  -- The subject has no entry among these that notes the role.
  Unnoted : Subject → Map Subject CacheEntry → Type 0
  Unnoted s entries =
      (x : Subject × CacheEntry) → Memᴰ x entries → uses_role x.1.eff id ≡ true → (s == x.0) ≡ false

  users_mem :
      (entries left : Map Subject CacheEntry) {x : Subject × CacheEntry}
      → Memᴰ x (evict_users id entries left)
      → Memᴰ x left × Unnoted x.0 entries
  unfolding evict_users Unnoted
  users_mem [] left m = (m, λ y n. elim n [ ])
  users_mem ((s, entry) ∷ entries) left {x} m = elim (Bool-cases (uses_role entry.eff id)) [
    | inr other ↦
        let (past, unnoted) =
          users_mem entries left (mem_of_eq {ys = evict_users id entries left} (ground arith) m) in
        (
          past,
          λ y n uses. elim (mem_cases n) [
            | inl here ↦ absurd (ground (arith, here))
            | inr later ↦ unnoted y later uses
          ],
        )
    | inl user ↦
        let (apart, more) =
          mem_delete s (evict_users id entries left)
            (mem_of_eq {ys = delete s (evict_users id entries left)} (ground arith) m) in
        let (past, unnoted) = users_mem entries left more in
        (
          past,
          λ y n uses. elim (mem_cases n) [
            | inl here ↦ ground (arith, here, apart)
            | inr later ↦ unnoted y later uses
          ],
        )
  ]

  users_lookup :
      (s : Subject) (entries left : Map Subject CacheEntry) {entry : CacheEntry}
      → lookup s (evict_users id entries left) ≡ some entry
      → lookup s left ≡ some entry
  unfolding evict_users
  users_lookup s [] left h = h
  users_lookup s ((t, e) ∷ entries) left h =
      users_lookup s entries left (ground (arith, lookup-delete t s (evict_users id entries left)))

  pub evict_role_mem :
      (c : Cache) {x : Subject × CacheEntry}
      → Memᴰ x (evict_role id c).entries
      → Memᴰ x c.entries × (uses_role x.1.eff id ≡ false)
  unfolding evict_role Unnoted
  evict_role_mem c {x} m =
      let (past, unnoted) = users_mem c.entries c.entries m in
      (
        past,
        elim (Bool-cases (uses_role x.1.eff id)) [
          | inr other ↦ other
          | inl user ↦ absurd (ground (arith, unnoted x past user, ==_refl x.0))
        ],
      )

  -- What is found after the eviction was found before, and does not note the role.
  pub evict_role-lookup :
      (s : Subject) (c : Cache) {entry : CacheEntry}
      → lookup s (evict_role id c).entries ≡ some entry
      → (lookup s c.entries ≡ some entry) × (uses_role entry.eff id ≡ false)
  unfolding evict_role
  evict_role-lookup s c {entry} h = (
    users_lookup s c.entries c.entries h,
    (evict_role_mem c {x = (s, entry)} (lookup-mem s (evict_role id c).entries h)).1,
  )
