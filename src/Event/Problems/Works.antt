-- ===== src/Event/Problems/Works.antt =====
-- event/typed.go: what Problems finds nothing wrong with, of one consumer and of two.
use go_core.Prelude.{
  ◌≤◌, pos, int_eq, int_leb, String, string_eq, ◌≡◌, refl, sym, inl, inr, Bool, true, false, ◌||◌,
  not, map, List, [], ◌∷◌, ◌++◌, Memᴰ, mem_cases, append_nil, ltb, length, arith,
}
use go_core.Authz.Words.{codes}
use go_core.Event.Worker.{Consumer}
use go_core.Event.Problems.{
  Problem, matches_name, problem_if, cannot_work, consumer_problems, bad_event_name,
  bad_consumer_name, bad_version,
}

pub no_problem : (b : Bool) (p : Problem) → problem_if b p ≡ [] → b ≡ false
no_problem true p h = absurd (ground arith)
no_problem false p h = refl

module _ {W : Type 0} where
  -- A consumer that can work: names of the pattern, a version from 1, a retry policy that makes sense.
  pub record Works (c : Consumer W) : Type 0 where
    pub event_named : matches_name (codes c.event) ≡ true
    pub named : matches_name (codes c.name) ≡ true
    pub short : length (codes c.name) ≤ 100
    pub versioned : int_leb (pos 1) c.version ≡ true
    pub retried : cannot_work c.retry ≡ false

  pub consumer_problems-Works : (c : Consumer W) → consumer_problems c ≡ [] → Works c
  unfolding consumer_problems
  consumer_problems-Works c none_found =
      let ev = problem_if (not (matches_name (codes c.event))) (bad_event_name c.event) in
      let nm =
        problem_if (not (matches_name (codes c.name)) || ltb 100 (length (codes c.name)))
          (bad_consumer_name c.name) in
      let vs = problem_if (not (int_leb (pos 1) c.version)) (bad_version c.event) in
      let (rest', fourth) = append_nil (ev ++ nm ++ vs) _ none_found in
      let (rest, third) = append_nil (ev ++ nm) vs rest' in
      let (first, second) = append_nil ev nm rest in
      let event_ok = no_problem _ _ first in
      let name_ok = no_problem _ _ second in
      let version_ok = no_problem _ _ third in
      record {
        event_named = ground (arith, event_ok);
        named = ground (arith, name_ok);
        short = ground (arith, name_ok);
        versioned = ground (arith, version_ok);
        retried = no_problem _ _ fourth;
      }

  -- The event and the payload's type of two consumers of one event are the same.
  abbrev pub Agree : Consumer W → Consumer W → Type 0
  Agree c d = (c.event ≡ d.event) → (c.version ≡ d.version) × (c.payload ≡ d.payload)

  pub mem_names :
      (n : String) (cs : List (Consumer W))
      → Memᴰ n (map (λ c. c.name) cs)
      → (c : Consumer W) × Memᴰ c cs × (c.name ≡ n)
  mem_names n [] m = absurd (elim m [ ])
  mem_names n (c ∷ cs) m = elim (mem_cases m) [
    | inl e ↦ (c, Memᴰ.head refl, sym e)
    | inr later ↦ let (d, there, is) = mem_names n cs later in (d, Memᴰ.tail there, is)
  ]
