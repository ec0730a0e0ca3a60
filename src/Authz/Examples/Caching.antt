-- ===== src/Authz/Examples/Caching.antt =====
-- The theorems on the cache of effective access, applied.
use go_core.Prelude.{
  ℕ, pos, ◌≡◌, refl, ◌≤◌, [], ◌∷◌, some, Memᴰ, arith, int_eq, lookup, insert, delete,
}
use go_core.Authz.Types.{Subject, subject_eq, user}
use go_core.Authz.Effective.{Effective, no_access}
use go_core.Authz.Cache.{new_cache, get, put, evict}
use go_core.Authz.Cache.Freshness.{World, Step, Reachable, of_subject, get-newest, newest}

abbrev ben : Subject
ben = record { kind = user; id = pos 8 }

abbrev eve : Subject
eve = record { kind = user; id = pos 9 }

abbrev dated : Effective → ℕ
dated eff = 0

-- Ben's access is loaded and stored, then Eve's is evicted.
abbrev start : World
start = record { cache = new_cache (pos 60); log = []; loads = [] }

abbrev loading : World
loading = record start { loads = (ben, 0) ∷ [] }

abbrev loaded : World
loaded = record loading { cache = put ben (no_access ben) 0 7 start.cache }

abbrev after : World
after = record loaded { cache = evict eve loaded.cache; log = of_subject eve ∷ [] }

after-Reachable : Reachable dated after
unfolding new_cache
after-Reachable =
    Reachable.next
      (Reachable.next (Reachable.next (Reachable.fresh (pos 60)) (Step.started start ben))
        (Step.stored loading ben 0 (no_access ben) 7 (Memᴰ.head refl) (omega arith)))
      (Step.dropped loaded (of_subject eve))

after_hit : (get ben 20 after.cache).0 ≡ some (no_access ben)
unfolding get evict put new_cache lookup insert delete
after_hit = refl

get-newest_example : newest ben (no_access ben) after.log ≤ dated (no_access ben)
get-newest_example = get-newest dated ben 20 after-Reachable (omega arith) after_hit
