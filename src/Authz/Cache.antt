-- ===== src/Authz/Cache.antt =====
-- authz/cache.go: the cache of effective access. Its mutex makes each method one step. Times are
-- nanoseconds, and the clock's reading is an argument of the method that reads it.
pub mod Eviction
pub mod Freshness
use go_core.Prelude.{
  ℕ, ◌+◌, ◌%◌, ◌^◌, ℤ, [], ◌∷◌, Option, none, some, Map, lookup, insert, delete, if◌then◌else◌, ltb,
  length, nat_beq, keep, not, is_positive, pos_part,
}
use go_core.Authz.Types.{Subject, subject_eq}
use go_core.Authz.Effective.{Effective, uses_role}

-- DefaultCacheTTL, five minutes.
abbrev pub default_cache_ttl : ℕ
default_cache_ttl = 300_000_000_000

pub record CacheEntry : Type 0 where
  pub eff : Effective
  pub expires : ℕ

pub record Cache : Type 0 where
  pub entries : Map Subject CacheEntry
  pub epoch : ℕ  -- uint64
  pub ttl : ℕ

-- NewCache
unfoldable pub new_cache : ℤ → Cache
new_cache ttl = record {
  entries = [];
  epoch = 0;
  ttl = if is_positive ttl then pos_part ttl else default_cache_ttl;
}

-- Cache.get: an entry that has expired is dropped.
unfoldable pub get : Subject → ℕ → Cache → Option Effective × Cache
get s now c = elim (lookup s c.entries) [
  | none ↦ (none, c)
  | some entry ↦
      if ltb now entry.expires
      then (some entry.eff, c)
      else (none, record c { entries = delete s c.entries })
]

-- Cache.begin
abbrev pub begin : Cache → ℕ
begin c = c.epoch

-- Cache.put: nothing is stored when an eviction came between.
unfoldable pub put : Subject → Effective → ℕ → ℕ → Cache → Cache
put s eff epoch now c =
    if nat_beq epoch c.epoch
    then record c { entries = insert s (record { eff = eff; expires = now + c.ttl }) c.entries }
    else c

abbrev pub next_epoch : ℕ → ℕ
next_epoch n = (n + 1) % 2 ^ 64

-- Cache.Evict
unfoldable pub evict : Subject → Cache → Cache
evict s c = record c { epoch = next_epoch c.epoch; entries = delete s c.entries }

-- The loop of EvictRole over the entries, on the map that is left.
unfoldable pub evict_users :
    ℤ → Map Subject CacheEntry → Map Subject CacheEntry → Map Subject CacheEntry
evict_users id [] left = left
evict_users id ((s, entry) ∷ entries) left =
    let more = evict_users id entries left in if uses_role entry.eff id then delete s more else more

-- Cache.EvictRole
unfoldable pub evict_role : ℤ → Cache → Cache
unfolding evict_users
evict_role id c = record c {
  epoch = next_epoch c.epoch;
  entries = evict_users id c.entries c.entries;
}

-- Cache.EvictAll
unfoldable pub evict_all : Cache → Cache
evict_all c = record c { epoch = next_epoch c.epoch; entries = [] }

-- Cache.Len
unfoldable pub len : Cache → ℕ
len c = length c.entries
