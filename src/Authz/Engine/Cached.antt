-- ===== src/Authz/Engine/Cached.antt =====
-- The cache changes no answer: over entries that are what the store gives, Engine.Effective answers
-- as if it loaded every time, and it leaves such entries.
use go_core.Prelude.{
  ℕ, ◌+◌, ◌≡◌, Option, some, lookup, lookup-insert, lookup-delete, arith, Option-cases, inl, inr,
  ==-eq, String,
}
use go_core.Authz.Errors.{Result, ok, fault, Result-cases}
use go_core.Authz.Types.{Subject, subject_eq, Principal, Permission}
use go_core.Authz.Effective.{Effective}
use go_core.Authz.Catalogue.{lookup_permission}
use go_core.Authz.Cache.{Cache, CacheEntry, get, put, begin}
use go_core.Authz.Engine.{Engine, load_effective, effective, prepare, principal_from}

module _ (e : Engine) where
  -- Every entry is what loading gives now.
  abbrev pub IsFresh : Cache → Type 0
  IsFresh c =
      (s : Subject) (entry : CacheEntry)
      → lookup s c.entries ≡ some entry
      → load_effective e s ≡ ok entry.eff

  get-IsFresh : (s : Subject) (now : ℕ) (c : Cache) → IsFresh c → IsFresh (get s now c).1
  unfolding get
  get-IsFresh s now c fresh s' entry h =
      ground (arith, lookup-delete s s' c.entries, fresh s' entry)

  get_found :
      (s : Subject) (now : ℕ) (c : Cache) {eff : Effective}
      → IsFresh c
      → (get s now c).0 ≡ some eff
      → load_effective e s ≡ ok eff
  unfolding get
  get_found s now c fresh h = elim (Option-cases (lookup s c.entries)) [
    | inl missing ↦ absurd (ground arith)
    | inr (entry, found) ↦ ground (arith, fresh s entry found)
  ]

  put-IsFresh :
      (s : Subject) (eff : Effective) (epoch now : ℕ) (c : Cache)
      → IsFresh c
      → load_effective e s ≡ ok eff
      → IsFresh (put s eff epoch now c)
  unfolding put
  put-IsFresh s eff epoch now c fresh loaded s' entry h = ground (
    arith,
    lookup-insert s s' (record { eff = eff; expires = now + c.ttl }) c.entries,
    ==-eq s s',
    fresh s' entry,
  )

  -- Over a cache whose entries are what loading gives now, Engine.Effective answers what loading
  -- answers, error or access, and leaves such a cache.
  pub effective-eq-load :
      (t : ℕ × ℕ) (s : Subject) (c : Cache)
      → IsFresh c
      → ((effective e t s c).0 ≡ load_effective e s) × IsFresh (effective e t s c).1
  unfolding effective
  effective-eq-load (t_get, t_put) s c fresh = elim (Option-cases (get s t_get c).0) [
    | inr (eff, hit) ↦
        answered (ok eff, got) (ground arith) (ground (arith, get_found s t_get c fresh hit)) fresh'
    | inl miss ↦ elim (Result-cases (load_effective e s)) [
      | inr (x, failed) ↦ answered (fault x, got) (ground arith) (ground arith) fresh'
      | inl (eff, loaded) ↦
          answered (ok eff, put s eff (begin got) t_put got) (ground arith) (ground arith)
            (put-IsFresh s eff (begin got) t_put got fresh' loaded)
    ]
  ]
    where
      got : Cache
      got = (get s t_get c).1

      fresh' : IsFresh got
      fresh' = get-IsFresh s t_get c fresh

      answered :
          (r : Result Effective × Cache)
          → effective e (t_get, t_put) s c ≡ r
          → r.0 ≡ load_effective e s
          → IsFresh r.1
          → ((effective e (t_get, t_put) s c).0 ≡ load_effective e s)
            × IsFresh (effective e (t_get, t_put) s c).1
      answered r same loads kept = rw same (loads, kept)

  -- What a check has in hand once `prepare` succeeds: the request's principal, the permission's entry
  -- in the catalogue and the access that loading gives.
  pub prepare_sound :
      (t : ℕ × ℕ) (ctx : Option Principal) (permission : String) (c : Cache) {p : Principal}
      {perm : Permission} {eff : Effective}
      → IsFresh c
      → (prepare e t ctx permission c).0 ≡ ok (p, perm, eff)
      → (principal_from ctx ≡ some p)
        × (lookup_permission e.cat permission ≡ some perm)
        × (load_effective e p.subject ≡ ok eff)
  unfolding prepare
  prepare_sound t ctx permission c {p} {perm} {eff} fresh h =
      elim (Option-cases (principal_from ctx)) [
        | inl nobody ↦ absurd (ground arith)
        | inr (p', here) ↦ elim (Option-cases (lookup_permission e.cat permission)) [
          | inl unknown ↦ absurd (ground arith)
          | inr (perm', known) ↦
              let (same, _) = effective-eq-load t p'.subject c fresh in
              elim (Result-cases (effective e t p'.subject c).0) [
                | inr (x, failed) ↦ absurd (ground arith)
                | inl (eff', loaded) ↦ ground (arith, same)
              ]
        ]
      ]
