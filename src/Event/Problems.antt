-- ===== src/Event/Problems.antt =====
-- event/typed.go: Problems, what is wrong with a set of consumers. The English text of a problem is left
-- out; its constructor says which one it is, and the name is the one that the text is about.
pub mod Works
pub mod Sound
use go_core.Prelude.{
  ℕ, suc, ◌≤◌, ℤ, pos, int_eq, int_leb, String, string_eq, Bool, true, false, ◌&&◌, ◌||◌, not, List,
  [], ◌∷◌, ◌++◌, Option, none, some, Map, lookup, insert, nat_beq, leb, ltb, if◌then◌else◌, ◌==◌,
  contains, length,
}
use go_core.Authz.Words.{codes, starts_word, continues_word}
use go_core.Event.Retrying.{RetryPolicy, duration_ltb}
use go_core.Event.Worker.{Consumer}

pub data Problem : Type 0 where
  bad_event_name bad_consumer_name bad_version bad_retry name_taken defined_twice : String → Problem

-- namePattern, ^[a-z][a-z0-9]*([.-][a-z0-9]+)*$, over code points.
abbrev pub is_separator : ℕ → Bool
is_separator letter = nat_beq letter b'.' || nat_beq letter b'-'

-- The pattern after its first letter; `fresh` says that a dot or a dash stands just before.
unfoldable pub rest_matches : Bool → List ℕ → Bool
rest_matches fresh [] = not fresh
rest_matches fresh (c ∷ cs) = elim (continues_word c) [
  | true ↦ rest_matches false cs
  | false ↦ not fresh && is_separator c && rest_matches true cs
]

unfoldable pub matches_name : List ℕ → Bool
unfolding rest_matches
matches_name [] = false
matches_name (c ∷ cs) = starts_word c && rest_matches false cs

abbrev pub problem_if : Bool → Problem → List Problem
problem_if true p = p ∷ []
problem_if false p = []

-- retry.attempts < 1 || retry.firstDelay <= 0 || retry.maxDelay < retry.firstDelay
unfoldable pub cannot_work : RetryPolicy → Bool
cannot_work p =
    ltb p.attempts 1 || not (duration_ltb 0 p.first_delay) || duration_ltb p.max_delay p.first_delay

module _ {W : Type 0} where
  -- Consumer.problems. A name that matches is ASCII, so its length in bytes is that in code points.
  unfoldable pub consumer_problems : Consumer W → List Problem
  consumer_problems c =
      problem_if (not (matches_name (codes c.event))) (bad_event_name c.event)
      ++ problem_if (not (matches_name (codes c.name)) || ltb 100 (length (codes c.name)))
          (bad_consumer_name c.name)
      ++ problem_if (not (int_leb (pos 1) c.version)) (bad_version c.event)
      ++ problem_if (cannot_work c.retry) (bad_retry c.name)

  -- f.version != c.version || f.payload != c.payload
  abbrev pub differs : Consumer W → Consumer W → Bool
  differs f c = not (f.version == c.version) || not (f.payload == c.payload)

  -- What the first consumer of the event, if there is one, has against this one.
  abbrev pub event_problems : Option (Consumer W) → Consumer W → List Problem
  event_problems none c = []
  event_problems (some f) c = problem_if (differs f c) (defined_twice c.event)

  abbrev pub note_first :
      Option (Consumer W) → Consumer W → Map String (Consumer W) → Map String (Consumer W)
  note_first none c first = insert c.event c first
  note_first (some f) c first = first

  -- The loop of Problems: the names so far, and the first consumer of every event.
  unfoldable pub problems_from :
      List String → Map String (Consumer W) → List (Consumer W) → List Problem
  unfolding consumer_problems
  problems_from names first [] = []
  problems_from names first (c ∷ cs) =
      consumer_problems c
      ++ problem_if (contains names c.name) (name_taken c.name)
      ++ event_problems (lookup c.event first) c
      ++ problems_from (c.name ∷ names) (note_first (lookup c.event first) c first) cs

  -- Problems
  abbrev pub problems : List (Consumer W) → List Problem
  problems consumers = problems_from [] [] consumers
