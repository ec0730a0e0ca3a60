-- ===== src/Ratelimit/Windows.antt =====
-- How many calls of a key pass within one window, whatever else the limiter does meanwhile.
use go_core.Prelude.{
  ℕ, suc, ◌+◌, ◌-◌, ◌≤◌, ◌<◌, min, String, ◌≡◌, refl, sym, ◌∙◌, true, false, ◌&&◌, not, List, [],
  ◌∷◌, none, some, Map, lookup, insert, keep, lookup-insert, ltb, if◌then◌else◌, ◌==◌, string_eq,
  ==-eq, ==_refl, arith, Bool-cases, Option-cases, inl, inr, ◌⊎◌,
}
use mathlib.Core.Path.{subst}
use go_core.Ratelimit.{MemCounter, InMemoryLimiter, sweep, allow, open_window}

-- What happens to a limiter: a call of a key, or a round of the sweep, each at its time.
pub data Event : Type 0 where
  call : String → ℕ → Event
  tick : ℕ → Event

abbrev pub time : Event → ℕ
time (call key now) = now
time (tick now) = now

-- The number of calls of the key.
abbrev pub calls : String → List Event → ℕ
calls k [] = 0
calls k (call j now ∷ events) = (if j == k then 1 else 0) + calls k events
calls k (tick now ∷ events) = calls k events

-- The number of calls of the key that Allow lets through.
abbrev pub granted : String → List Event → InMemoryLimiter → ℕ
granted k [] l = 0
granted k (call j now ∷ events) l =
    let rest = granted k events (allow j now l).1 in
    (if j == k && (allow j now l).0 then 1 else 0) + rest
granted k (tick now ∷ events) l = granted k events (sweep now l)

-- No event is later than `end`.
abbrev pub Until : ℕ → List Event → Type 0
Until end [] = Unit {0}
Until end (x ∷ events) = (time x ≤ end) × Until end events

lookup-keep_live :
    (k : String) (now : ℕ) (m : Map String MemCounter) {c : MemCounter}
    → now ≤ c.expiry
    → lookup k m ≡ some c
    → lookup k (keep (λ entry. not (ltb entry.1.expiry now)) m) ≡ some c
unfolding lookup
lookup-keep_live k now [] live h = absurd (ground arith)
lookup-keep_live k now ((j, d) ∷ m) {c} live h = elim (Bool-cases (j == k)) [
  | inl hit ↦ ground arith
  | inr miss ↦ ground (arith, lookup-keep_live k now m {c = c} live)
]

-- What a call does to the key with a live window.
live_call :
    (k : String) (now : ℕ) (l : InMemoryLimiter) {c : MemCounter}
    → lookup k l.m ≡ some c
    → now ≤ c.expiry
    → allow k now l ≡ (
        if ltb c.count l.limit
        then (true, record l { m = insert k (record c { count = suc c.count }) l.m })
        else (false, l))
unfolding allow
live_call k now l found live = ground arith

-- What a call of another key leaves.
other_call :
    (k j : String) (now : ℕ) (l : InMemoryLimiter)
    → (j == k) ≡ false
    → (lookup k (allow j now l).1.m ≡ lookup k l.m) × ((allow j now l).1.limit ≡ l.limit)
unfolding allow
other_call k j now l other = elim (Option-cases (lookup j l.m)) [
  | inl new ↦ (
    ground (arith, lookup-insert j k (record { count = 1; expiry = now + l.window }) l.m),
    ground arith,
  )
  | inr (c, found) ↦ (
    ground (
      arith,
      lookup-insert j k (record { count = 1; expiry = now + l.window }) l.m,
      lookup-insert j k (record { count = suc c.count; expiry = c.expiry }) l.m,
    ),
    ground arith,
  )
]

-- A call of the key with a live window, where the theorem below holds of the events after it.
own_call :
    (k : String) (now : ℕ) (events : List Event) (l : InMemoryLimiter) (c : MemCounter)
    → lookup k l.m ≡ some c
    → c.count ≤ l.limit
    → now ≤ c.expiry
    → ((l' : InMemoryLimiter) (c' : MemCounter)
        → lookup k l'.m ≡ some c'
        → c'.count ≤ l'.limit
        → c'.expiry ≡ c.expiry
        → granted k events l' ≡ min (calls k events) (l'.limit - c'.count))
    → granted k (call k now ∷ events) l ≡ min (calls k (call k now ∷ events)) (l.limit - c.count)
own_call k now events l c found fits live later = elim (Bool-cases (ltb c.count l.limit)) [
  | inl room ↦
      let c' : MemCounter = record c { count = suc c.count } in
      let l' : InMemoryLimiter = record l { m = insert k c' l.m } in
      let step : allow k now l ≡ (true, l') = ground (arith, live_call k now l found live) in
      let rest =
        later l' c' (ground (arith, lookup-insert k k c' l.m, ==_refl k)) (ground arith) refl in
      ground (arith, rest, step, ==_refl k)
  | inr full ↦
      let step : allow k now l ≡ (false, l) = ground (arith, live_call k now l found live) in
      ground (arith, later l c found fits refl, step, ==_refl k)
]

live_window :
    (k : String) (events : List Event) (l : InMemoryLimiter) (c : MemCounter)
    → lookup k l.m ≡ some c
    → c.count ≤ l.limit
    → Until c.expiry events
    → granted k events l ≡ min (calls k events) (l.limit - c.count)
unfolding sweep
live_window k [] l c found fits until = omega arith
live_window k (tick now ∷ events) l c found fits (live, until) =
    live_window k events (sweep now l) c (lookup-keep_live k now l.m live found) fits until
live_window k (call j now ∷ events) l c found fits (live, until) = elim (Bool-cases (j == k)) [
  | inr other ↦
      let (same, limit) = other_call k j now l other in
      ground
        (arith, live_window k events (allow j now l).1 c (same ∙ found) (omega arith) until, limit)
  | inl hit ↦ rw (==-eq j k hit) (
      own_call k now events l c found fits live (λ l' c' found' fits' same.
        live_window k events l' c' found' fits' (subst (λ end. Until end events) (sym same) until)))
]

-- With a positive limit: a call that opens a window, followed by any calls of any keys and any
-- rounds of the sweep that are not later than the window's end: of the calls of the key, exactly
-- the first `limit` pass, as many as there are if they are fewer. No other key and no sweep takes
-- anything from it or gives it more.
pub granted-window :
    (k : String) (now : ℕ) (events : List Event) (l : InMemoryLimiter)
    → 0 < l.limit
    → (lookup k l.m ≡ none) ⊎ ((c : MemCounter) × (lookup k l.m ≡ some c) × (c.expiry < now))
    → Until (now + l.window) events
    → granted k (call k now ∷ events) l ≡ min (calls k (call k now ∷ events)) l.limit
unfolding allow
granted-window k now events l positive closed until =
    let opened : allow k now l ≡ open_window k now l = first closed in
    let c : MemCounter = record { count = 1; expiry = now + l.window } in
    let rest =
      live_window k events (open_window k now l).1 c
        (ground (arith, lookup-insert k k c l.m, ==_refl k)) (omega arith) until in
    ground (arith, rest, opened, ==_refl k)
  where
    first :
        (lookup k l.m ≡ none) ⊎ ((c : MemCounter) × (lookup k l.m ≡ some c) × (c.expiry < now))
        → allow k now l ≡ open_window k now l
    first (inl new) = ground arith
    first (inr (c, found, expired)) = ground arith
