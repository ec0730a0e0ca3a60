-- ===== src/Event/Problems/Sound.antt =====
-- event/typed.go: what Problems promises when it finds nothing.
use go_core.Prelude.{
  int_eq, String, string_eq, ◌≡◌, refl, sym, ap, ◌∙◌, inl, inr, true, false, map, List, [], ◌∷◌,
  ◌++◌, some, Map, Memᴰ, mem_cases, mem_of_eq, lookup, lookup-insert, append_nil, ◌==◌, ==-eq,
  ==_refl, contains, contains_intro, contains_elim, arith, Bool-cases, Option-cases,
}
use go_core.Prelude.Counting.{no_duplicates}
use mathlib.Core.Path.{subst}
use go_core.Event.Worker.{Consumer, siblings}
use go_core.Event.Problems.{
  problem_if, consumer_problems, differs, event_problems, note_first, problems_from, problems,
  name_taken, defined_twice,
}
use go_core.Event.Problems.Works.{no_problem, Works, consumer_problems-Works, mem_names, Agree}

module _ {W : Type 0} where
  -- What the loop establishes of the consumers that are left, when it finds nothing.
  pub record Clean (names : List String) (first : Map String (Consumer W)) (cs : List (Consumer W))
      : Type 0 where
    pub works : (c : Consumer W) → Memᴰ c cs → Works c
    pub new : (c : Consumer W) → Memᴰ c cs → contains names c.name ≡ false
    pub once : no_duplicates (map (λ c. c.name) cs) ≡ true
    pub firsts :
        (c f : Consumer W) → Memᴰ c cs → lookup c.event first ≡ some f → differs f c ≡ false
    pub agree : (c d : Consumer W) → Memᴰ c cs → Memᴰ d cs → Agree c d

  differs_refl : (c : Consumer W) → differs c c ≡ false
  differs_refl c = ground (arith, ==_refl c.version, ==_refl c.payload)

  differs_agree :
      (c f : Consumer W) → differs f c ≡ false → (f.version ≡ c.version) × (f.payload ≡ c.payload)
  differs_agree c f same = (
    ground (arith, same, ==-eq f.version c.version),
    ground (arith, same, ==-eq f.payload c.payload),
  )

  -- The first consumer of the event of `c`, once `c` is noted: it agrees with `c`.
  noted :
      (first : Map String (Consumer W)) (c : Consumer W)
      → event_problems (lookup c.event first) c ≡ []
      → (f : Consumer W) × (lookup c.event (note_first (lookup c.event first) c first) ≡ some f)
        × (differs f c ≡ false)
  noted first c none_found = elim (Option-cases (lookup c.event first)) [
    | inl new ↦
        let there : lookup c.event (note_first (lookup c.event first) c first) ≡ some c =
          ground (arith, new, lookup-insert c.event c.event c first, ==_refl c.event) in
        (c, there, differs_refl c)
    | inr (f, known) ↦
        let there : lookup c.event (note_first (lookup c.event first) c first) ≡ some f =
          ground (arith, known) in
        let same : event_problems (some f) c ≡ [] =
          ap (λ o. event_problems o c) (sym known) ∙ none_found in
        (f, there, no_problem (differs f c) (defined_twice c.event) same)
  ]

  still_first :
      (first : Map String (Consumer W)) (c f : Consumer W) (event : String)
      → lookup event first ≡ some f
      → lookup event (note_first (lookup c.event first) c first) ≡ some f
  still_first first c f event known = elim (Option-cases (lookup c.event first)) [
    | inr (g, there) ↦ ground (arith, there, known)
    | inl new ↦ elim (Bool-cases (c.event == event)) [
      | inr other ↦ ground (arith, new, lookup-insert c.event event c first, other, known)
      | inl same ↦
          absurd (ground (arith, ap (λ e. lookup e first) (==-eq c.event event same), new, known))
    ]
  ]

  Clean-next :
      (names : List String) (first : Map String (Consumer W)) (c : Consumer W)
      (cs : List (Consumer W))
      → Works c
      → contains names c.name ≡ false
      → event_problems (lookup c.event first) c ≡ []
      → Clean (c.name ∷ names) (note_first (lookup c.event first) c first) cs
      → Clean names first (c ∷ cs)
  Clean-next names first c cs works new fits rest = record {
    works = λ d m. elim (mem_cases m) [
      | inl e ↦ subst Works (sym e) works
      | inr later ↦ rest.works d later
    ];
    new = λ d m. elim (mem_cases m) [
      | inl e ↦ subst (λ x. contains names x.name ≡ false) (sym e) new
      | inr later ↦ ground (arith, rest.new d later)
    ];
    once = elim (Bool-cases (contains (map (λ d. d.name) cs) c.name)) [
      | inr alone ↦ ground (arith, alone, rest.once)
      | inl again ↦
          let (d, there, same) =
            mem_names c.name cs (contains_elim (map (λ d. d.name) cs) c.name again) in
          absurd (ground (arith, rest.new d there, ap (λ n. c.name == n) same, ==_refl c.name))
    ];
    firsts = λ d f m known. elim (mem_cases m) [
      | inr later ↦ rest.firsts d f later (still_first first c f d.event known)
      | inl e ↦
          let of_c : lookup c.event first ≡ some f =
            ap (λ x. lookup x.event first) (sym e) ∙ known in
          subst (λ x. differs f x ≡ false) (sym e)
            (no_problem (differs f c) (defined_twice c.event)
              (ap (λ o. event_problems o c) (sym of_c) ∙ fits))
    ];
    agree = λ d g m n. elim (mem_cases m) [
      | inl e ↦ elim (mem_cases n) [
        | inl e' ↦ λ same. (ap (λ x. x.version) (e ∙ sym e'), ap (λ x. x.payload) (e ∙ sym e'))
        | inr later ↦ subst (λ x. Agree x g) (sym e) (with_head g later)
      ]
      | inr later ↦ elim (mem_cases n) [
        | inl e ↦ λ same.
            let (v, p) = with_head d later (ap (λ x. x.event) (sym e) ∙ sym same) in
            (sym v ∙ ap (λ x. x.version) (sym e), sym p ∙ ap (λ x. x.payload) (sym e))
        | inr later' ↦ rest.agree d g later later'
      ]
    ];
  }
    where
      with_head : (d : Consumer W) → Memᴰ d cs → Agree c d
      with_head d m same =
          let (f, known, of_c) = noted first c fits in
          let of_d =
            rest.firsts d f m
              (ap (λ e. lookup e (note_first (lookup c.event first) c first)) (sym same) ∙ known) in
          let (cv, cp) = differs_agree c f of_c in
          let (dv, dp) = differs_agree d f of_d in (sym cv ∙ dv, sym cp ∙ dp)

  problems_from-Clean :
      (names : List String) (first : Map String (Consumer W)) (cs : List (Consumer W))
      → problems_from names first cs ≡ []
      → Clean names first cs
  unfolding problems_from
  problems_from-Clean names first [] none_found = record {
    works = λ c m. absurd (elim m [ ]);
    new = λ c m. absurd (elim m [ ]);
    once = refl;
    firsts = λ c f m. absurd (elim m [ ]);
    agree = λ c d m. absurd (elim m [ ]);
  }
  problems_from-Clean names first (c ∷ cs) none_found =
      let taken_one = problem_if (contains names c.name) (name_taken c.name) in
      let unfit = event_problems (lookup c.event first) c in
      let (rest', rest'') = append_nil (consumer_problems c ++ taken_one ++ unfit) _ none_found in
      let (rest, fits) = append_nil (consumer_problems c ++ taken_one) unfit rest' in
      let (own, taken) = append_nil (consumer_problems c) taken_one rest in
      Clean-next names first c cs (consumer_problems-Works c own)
        (no_problem (contains names c.name) (name_taken c.name) taken) fits
        (problems_from-Clean (c.name ∷ names) (note_first (lookup c.event first) c first) cs rest'')

  -- The consumers of one event have names of their own when all have.
  siblings_once :
      (event : String) (cs : List (Consumer W))
      → no_duplicates (map (λ c. c.name) cs) ≡ true
      → no_duplicates (siblings event cs) ≡ true
  unfolding siblings
  siblings_once event [] once = refl
  siblings_once event (c ∷ cs) once = elim (Bool-cases (contains (siblings event cs) c.name)) [
    | inr alone ↦ ground (arith, alone, siblings_once event cs)
    | inl again ↦
        let there = among event cs c.name (contains_elim (siblings event cs) c.name again) in
        absurd (ground (arith, once, contains_intro (map (λ d. d.name) cs) c.name there))
  ]
    where
      among :
          (event : String) (cs : List (Consumer W)) (n : String)
          → Memᴰ n (siblings event cs)
          → Memᴰ n (map (λ d. d.name) cs)
      among event [] n m = m
      among event (d ∷ ds) n m = elim (Bool-cases (d.event == event)) [
        | inr other ↦ Memᴰ.tail (among event ds n (mem_of_eq (ground (arith, other)) m))
        | inl its ↦
            elim (mem_cases (mem_of_eq {ys = d.name ∷ siblings event ds} (ground (arith, its)) m)) [
              | inl e ↦ Memᴰ.head e
              | inr later ↦ Memᴰ.tail (among event ds n later)
            ]
      ]

  -- What Problems promises of the consumers.
  pub record Ordered (consumers : List (Consumer W)) : Type 0 where
    pub works : (c : Consumer W) → Memᴰ c consumers → Works c
    pub once : no_duplicates (map (λ c. c.name) consumers) ≡ true
    pub siblings_differ : (event : String) → no_duplicates (siblings event consumers) ≡ true
    pub agree : (c d : Consumer W) → Memᴰ c consumers → Memᴰ d consumers → Agree c d

  -- When Problems finds nothing wrong, every consumer and its event have a name of the pattern, the
  -- consumer's of 100 letters at most, a version from 1 and a retry policy that makes sense; no two
  -- consumers have one name, so neither have two of one event; and consumers of one event were made for
  -- one version and one type of its payload.
  pub problems-Ordered :
      (consumers : List (Consumer W)) → problems consumers ≡ [] → Ordered consumers
  problems-Ordered consumers none_found =
      let clean = problems_from-Clean [] [] consumers none_found in
      record {
        works = clean.works;
        once = clean.once;
        siblings_differ = λ event. siblings_once event consumers clean.once;
        agree = clean.agree;
      }
