-- ===== src/Authz/Cache/Freshness.antt =====
-- Loads and evictions interleaved: what the epoch of the cache is for. `made_at` dates an access by
-- the number of evictions that came before the store was read.
use go_core.Prelude.{
  ℕ, suc, ◌+◌, ◌^◌, ◌≤◌, ◌<◌, ℤ, ◌≡◌, refl, Bool, true, List, [], ◌∷◌, some, Memᴰ, lookup, arith,
  if◌then◌else◌, ◌==◌, length, nat_beq, Bool-cases, inl, inr, Map, mem_insert, mem_delete,
  mem_of_eq, ap, ==-eq, ==_refl, Option-cases, ltb, lookup-mem,
}
use go_core.Authz.Types.{Subject, subject_eq}
use go_core.Authz.Effective.{Effective, uses_role}
use go_core.Authz.Cache.Eviction.{evict_role_mem}
use go_core.Authz.Cache.{
  Cache, CacheEntry, new_cache, get, begin, put, next_epoch, evict, evict_role, evict_all,
}

pub data Eviction : Type 0 where
  of_subject : Subject → Eviction
  of_role : ℤ → Eviction
  of_all : Eviction

-- The eviction concerns the access of this subject.
abbrev pub concerns : Eviction → Subject → Effective → Bool
concerns (of_subject t) s eff = t == s
concerns (of_role id) s eff = uses_role eff id
concerns of_all s eff = true

-- The number of evictions up to the newest that concerns the access, 0 if none does.
abbrev pub newest : Subject → Effective → List Eviction → ℕ
newest s eff [] = 0
newest s eff (x ∷ log) = if concerns x s eff then suc (length log) else newest s eff log

-- The cache, the evictions so far, newest first, and the loads under way with the epoch they began in.
pub record World : Type 0 where
  pub cache : Cache
  pub log : List Eviction
  pub loads : List (Subject × ℕ)

abbrev pub evicted : Eviction → Cache → Cache
evicted (of_subject s) c = evict s c
evicted (of_role id) c = evict_role id c
evicted of_all c = evict_all c

module _ (made_at : Effective → ℕ) where
  -- One step of some goroutine.
  pub data Step : World → World → Type 0 where
    read : (w : World) (s : Subject) (now : ℕ) → Step w (record w { cache = (get s now w.cache).1 })
    started : (w : World) (s : Subject) → Step w (record w { loads = (s, begin w.cache) ∷ w.loads })
    stored :
        (w : World) (s : Subject) (epoch : ℕ) (eff : Effective) (now : ℕ)
        → Memᴰ (s, epoch) w.loads
        → epoch ≤ made_at eff
        → Step w (record w { cache = put s eff epoch now w.cache })
    dropped :
        (w : World) (x : Eviction)
        → Step w (record w { cache = evicted x w.cache; log = x ∷ w.log })

  pub data Reachable : World → Type 0 where
    fresh : (ttl : ℤ) → Reachable (record { cache = new_cache ttl; log = []; loads = [] })
    next : {w v : World} → Reachable w → Step w v → Reachable v

  abbrev Dated : Map Subject CacheEntry → List Eviction → Type 0
  Dated entries log =
      (x : Subject × CacheEntry) → Memᴰ x entries → newest x.0 x.1.eff log ≤ made_at x.1.eff

  -- The epoch counts the evictions, and no entry is older than an eviction that concerns it.
  record Sound (w : World) : Type 0 where
    counted : w.cache.epoch ≡ length w.log
    dated : Dated w.cache.entries w.log

  newest_bound :
      (s : Subject) (eff : Effective) (log : List Eviction) → newest s eff log ≤ length log
  newest_bound s eff [] = omega arith
  newest_bound s eff (x ∷ log) = ground (arith, newest_bound s eff log)

  get_mem :
      (s : Subject) (now : ℕ) (c : Cache) {x : Subject × CacheEntry}
      → Memᴰ x (get s now c).1.entries
      → Memᴰ x c.entries
  unfolding get
  get_mem s now c m = elim (Option-cases (lookup s c.entries)) [
    | inl missing ↦ mem_of_eq (ground arith) m
    | inr (entry, found) ↦ elim (Bool-cases (ltb now entry.expires)) [
      | inl live ↦ mem_of_eq (ground arith) m
      | inr expired ↦ (mem_delete s c.entries (mem_of_eq (ground arith) m)).1
    ]
  ]

  get_epoch : (s : Subject) (now : ℕ) (c : Cache) → (get s now c).1.epoch ≡ c.epoch
  unfolding get
  get_epoch s now c = ground arith

  put_epoch :
      (s : Subject) (eff : Effective) (epoch now : ℕ) (c : Cache)
      → (put s eff epoch now c).epoch ≡ c.epoch
  unfolding put
  put_epoch s eff epoch now c = ground arith

  evicted_epoch : (x : Eviction) (c : Cache) → (evicted x c).epoch ≡ next_epoch c.epoch
  unfolding evict evict_role evict_all
  evicted_epoch (of_subject s) c = refl
  evicted_epoch (of_role id) c = refl
  evicted_epoch of_all c = refl

  put-Dated :
      (s : Subject) (eff : Effective) (epoch now : ℕ) (c : Cache) (log : List Eviction)
      → c.epoch ≡ length log
      → epoch ≤ made_at eff
      → Dated c.entries log
      → Dated (put s eff epoch now c).entries log
  unfolding put
  put-Dated s eff epoch now c log counted old d x m = elim (Bool-cases (nat_beq epoch c.epoch)) [
    | inr stale ↦ d x (mem_of_eq (ground arith) m)
    | inl same ↦
        elim (mem_insert s (record { eff = eff; expires = now + c.ttl }) c.entries
          (mem_of_eq (ground arith) m)) [
            | inl (new, _) ↦ ground (arith, newest_bound x.0 eff log, ap (λ e. e.eff) new)
            | inr past ↦ d x past
          ]
  ]

  evicted-Dated :
      (y : Eviction) (c : Cache) (log : List Eviction)
      → Dated c.entries log
      → Dated (evicted y c).entries (y ∷ log)
  unfolding evict evict_all
  evicted-Dated (of_subject s) c log d x m =
      let (other, past) = mem_delete s c.entries m in
      ground (arith, d x past, ==-eq s x.0, ==_refl s)
  evicted-Dated (of_role id) c log d x m =
      let (past, free) = evict_role_mem id c m in ground (arith, d x past)
  evicted-Dated of_all c log d x m = elim m [ ]

  Step-Sound : {w v : World} → Step w v → length v.log < 2 ^ 64 → Sound w → Sound v
  Step-Sound (Step.read w s now) few sound = record {
    counted = ground (arith, sound.counted, get_epoch s now w.cache);
    dated = λ x m. sound.dated x (get_mem s now w.cache m);
  }
  Step-Sound (Step.started w s) few sound = record { counted = sound.counted; dated = sound.dated }
  Step-Sound (Step.stored w s epoch eff now begun after) few sound = record {
    counted = ground (arith, sound.counted, put_epoch s eff epoch now w.cache);
    dated = put-Dated s eff epoch now w.cache w.log sound.counted after sound.dated;
  }
  Step-Sound (Step.dropped w x) few sound = record {
    counted = ground (arith, sound.counted, evicted_epoch x w.cache);
    dated = evicted-Dated x w.cache w.log sound.dated;
  }

  log_grows : {w v : World} → Step w v → length w.log ≤ length v.log
  log_grows (Step.read w s now) = omega arith
  log_grows (Step.started w s) = omega arith
  log_grows (Step.stored w s epoch eff now begun after) = omega arith
  log_grows (Step.dropped w x) = omega arith

  Reachable-Sound : {w : World} → Reachable w → length w.log < 2 ^ 64 → Sound w
  unfolding new_cache
  Reachable-Sound (Reachable.fresh ttl) few = record { counted = refl; dated = λ x m. elim m [ ] }
  Reachable-Sound (Reachable.next {w} path step) few =
      Step-Sound step few (Reachable-Sound path (omega (arith, log_grows step)))

  get_entry :
      (s : Subject) (now : ℕ) (c : Cache) {eff : Effective}
      → (get s now c).0 ≡ some eff
      → (entry : CacheEntry) × (entry.eff ≡ eff) × Memᴰ (s, entry) c.entries
  unfolding get
  get_entry s now c hit = elim (Option-cases (lookup s c.entries)) [
    | inl missing ↦ absurd (ground arith)
    | inr (entry, found) ↦ (entry, ground arith, lookup-mem s c.entries found)
  ]

  -- However loads and evictions interleave, where every load reads the store at or after its
  -- beginning and there are fewer than 2^64 evictions: the access that the cache answers for a
  -- subject was read from the store after the newest eviction that concerns it, be it of the
  -- subject, of a role that the access rests on, or of everything. A load that began before an
  -- eviction never brings back what the eviction dropped.
  pub get-newest :
      {w : World} (s : Subject) (now : ℕ) {eff : Effective}
      → Reachable w
      → length w.log < 2 ^ 64
      → (get s now w.cache).0 ≡ some eff
      → newest s eff w.log ≤ made_at eff
  get-newest {w} s now path few hit =
      let (entry, same, m) = get_entry s now w.cache hit in
      rw (← same) ((Reachable-Sound path few).dated (s, entry) m)
