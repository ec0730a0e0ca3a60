-- ===== src/Event/DeadLetters/Letters.antt =====
-- event/deadletter.go: which letters the list is made of.
use go_core.Prelude.{
  ℕ, String, string_eq, ◌≡◌, ◌↔◌, refl, sym, ap, inl, inr, Bool, true, ◌||◌, List, [], ◌∷◌, ◌++◌,
  Option, none, some, Memᴰ, mem_cases, mem_of_eq, mem_append, mem_append_left, mem_append_right,
  ◌==◌, arith, Bool-cases,
}
use mathlib.Core.Path.{subst}
use go_core.Event.Tables.{AttemptRow, Tables, is_set, is_dead}
use go_core.Event.DeadLetters.Listing.{
  DeadLetter, name_of, letter_of, goes_first, put_letter, sort_letters, letters_at, letters_in,
}

mem_put_letter :
    (before : String → String → Bool) (x l : DeadLetter) (ls : List DeadLetter)
    → Memᴰ x (put_letter before l ls) ↔ Memᴰ x (l ∷ ls)
mem_put_letter before x l [] = (λ m. m, λ m. m)
mem_put_letter before x l (k ∷ ks) = elim (Bool-cases (goes_first before l k)) [
  | inl first ↦ rw first (λ m. m, λ m. m)
  | inr later ↦
      let rest = mem_put_letter before x l ks in
      rw later (
        λ m. elim (mem_cases m) [
          | inl e ↦ Memᴰ.tail (Memᴰ.head e)
          | inr n ↦ elim (mem_cases (rest.0 n)) [
            | inl e ↦ Memᴰ.head e
            | inr past ↦ Memᴰ.tail (Memᴰ.tail past)
          ]
        ],
        λ m. elim (mem_cases m) [
          | inl e ↦ Memᴰ.tail (rest.1 (Memᴰ.head e))
          | inr n ↦ elim (mem_cases n) [
            | inl e ↦ Memᴰ.head e
            | inr past ↦ Memᴰ.tail (rest.1 (Memᴰ.tail past))
          ]
        ],
      )
]

pub mem_sort_letters :
    (before : String → String → Bool) (x : DeadLetter) (ls : List DeadLetter)
    → Memᴰ x (sort_letters before ls) ↔ Memᴰ x ls
mem_sort_letters before x [] = (λ m. m, λ m. m)
mem_sort_letters before x (l ∷ ls) =
    let put = mem_put_letter before x l (sort_letters before ls) in
    let rest = mem_sort_letters before x ls in
    (
      λ m. elim (mem_cases (put.0 m)) [ inl e ↦ Memᴰ.head e | inr n ↦ Memᴰ.tail (rest.0 n) ],
      λ m. put.1 (elim (mem_cases m) [ inl e ↦ Memᴰ.head e | inr n ↦ Memᴰ.tail (rest.1 n) ]),
    )

-- What a letter tells of its row and its event.
pub record Tells (t : Tables) (id : ℕ) (consumer : String) (letter : DeadLetter) : Type 0 where
  pub of_event : letter.event_id ≡ id
  pub of_consumer : letter.consumer ≡ consumer
  pub named : letter.event_name ≡ name_of (t.outbox id)
  pub dead : is_dead (t.rows id consumer) ≡ true

module _ (t : Tables) where
  letter_of-Tells :
      (id : ℕ) (c : String) (letter : DeadLetter)
      → Memᴰ letter (letter_of t id c (t.rows id c))
      → Tells t id c letter
  letter_of-Tells id c letter m = told (t.rows id c) refl m
    where
      told :
          (r : Option AttemptRow)
          → t.rows id c ≡ r
          → Memᴰ letter (letter_of t id c r)
          → Tells t id c letter
      told none same m = absurd (elim m [ ])
      told (some row) same m = dated row.dead_at refl m
        where
          dated :
              (at : Option ℕ)
              → row.dead_at ≡ at
              → Memᴰ letter (letter_of t id c (some row))
              → Tells t id c letter
          dated none alive m = absurd (elim (mem_of_eq (letter_alive alive) m) [ ])
            where
              letter_alive : row.dead_at ≡ none → letter_of t id c (some row) ≡ []
              letter_alive alive = ground (arith, alive)
          dated (some at) dead m = elim (mem_cases (mem_of_eq (letter_dead dead) m)) [
            | inr past ↦ absurd (elim past [ ])
            | inl is ↦ record {
              of_event = ap (λ x. x.event_id) is;
              of_consumer = ap (λ x. x.consumer) is;
              named = ap (λ x. x.event_name) is;
              dead = ground (arith, same, dead);
            }
          ]
            where
              letter_dead :
                  row.dead_at ≡ some at
                  → letter_of t id c (some row)
                    ≡ record {
                      event_id = id;
                      consumer = c;
                      event_name = name_of (t.outbox id);
                      attempts = row.attempts;
                      last_error = row.last_error;
                      dead_at = at;
                    }
                      ∷ []
              letter_dead dead = ground (arith, dead)

  dead-letter_of :
      (id : ℕ) (c : String)
      → is_dead (t.rows id c) ≡ true
      → (letter : DeadLetter) × Memᴰ letter (letter_of t id c (t.rows id c))
  dead-letter_of id c dead = found (t.rows id c) dead
    where
      dated :
          (row : AttemptRow) (at : Option ℕ)
          → row.dead_at ≡ at
          → is_set at ≡ true
          → (letter : DeadLetter) × Memᴰ letter (letter_of t id c (some row))
      dated row none same dead = absurd (ground arith)
      dated row (some at) same dead =
          let letter : DeadLetter = record {
            event_id = id;
            consumer = c;
            event_name = name_of (t.outbox id);
            attempts = row.attempts;
            last_error = row.last_error;
            dead_at = at;
          } in
          let only : letter ∷ [] ≡ letter_of t id c (some row) = ground (arith, same) in
          (letter, mem_of_eq only (Memᴰ.head refl))

      found :
          (r : Option AttemptRow)
          → is_dead r ≡ true
          → (letter : DeadLetter) × Memᴰ letter (letter_of t id c r)
      found none dead = absurd (ground arith)
      found (some row) dead = dated row row.dead_at refl dead

  module _ (wanted : String) where
    letters_at-Tells :
        (id : ℕ) (cs : List String) (letter : DeadLetter)
        → Memᴰ letter (letters_at wanted t id cs)
        → Tells t id letter.consumer letter
    unfolding letters_at
    letters_at-Tells id [] letter m = absurd (elim m [ ])
    letters_at-Tells id (c ∷ cs) letter m = elim (Bool-cases (wanted == "" || (c == wanted))) [
      | inr other ↦
          let same : letters_at wanted t id (c ∷ cs) ≡ letters_at wanted t id cs =
            ground (arith, other) in
          letters_at-Tells id cs letter (mem_of_eq same m)
      | inl chosen ↦
          let same : letters_at wanted t id (c ∷ cs)
              ≡ letter_of t id c (t.rows id c) ++ letters_at wanted t id cs =
            ground (arith, chosen) in
          elim (mem_append (letter_of t id c (t.rows id c)) (mem_of_eq same m)) [
            | inl here ↦
                let tells = letter_of-Tells id c letter here in
                subst (λ x. Tells t id x letter) (sym tells.of_consumer) tells
            | inr later ↦ letters_at-Tells id cs letter later
          ]
    ]

    pub letters_in-Tells :
        (consumers : List String) (ids : List ℕ) (letter : DeadLetter)
        → Memᴰ letter (letters_in consumers wanted t ids)
        → Tells t letter.event_id letter.consumer letter
    unfolding letters_in
    letters_in-Tells consumers [] letter m = absurd (elim m [ ])
    letters_in-Tells consumers (id ∷ ids) letter m =
        elim (mem_append (letters_at wanted t id consumers) m) [
          | inl here ↦
              let tells = letters_at-Tells id consumers letter here in
              subst (λ x. Tells t x letter.consumer letter) (sym tells.of_event) tells
          | inr later ↦ letters_in-Tells consumers ids letter later
        ]

    letter_at :
        (id : ℕ) (c : String) (cs : List String) (letter : DeadLetter)
        → (wanted == "" || (c == wanted)) ≡ true
        → Memᴰ c cs
        → Memᴰ letter (letter_of t id c (t.rows id c))
        → Memᴰ letter (letters_at wanted t id cs)
    unfolding letters_at
    letter_at id c [] letter chosen among there = absurd (elim among [ ])
    letter_at id c (d ∷ cs) letter chosen among there = elim (mem_cases among) [
      | inl same ↦
          let split : letter_of t id c (t.rows id c) ++ letters_at wanted t id cs
              ≡ letters_at wanted t id (c ∷ cs) =
            ground (arith, chosen) in
          subst (λ x. Memᴰ letter (letters_at wanted t id (x ∷ cs))) same
            (mem_of_eq split (mem_append_left (letter_of t id c (t.rows id c)) _ there))
      | inr later ↦
          let rest = letter_at id c cs letter chosen later there in
          elim (Bool-cases (wanted == "" || (d == wanted))) [
            | inr other ↦ mem_of_eq (ground (arith, other)) rest
            | inl kept ↦
                let split : letter_of t id d (t.rows id d) ++ letters_at wanted t id cs
                    ≡ letters_at wanted t id (d ∷ cs) =
                  ground (arith, kept) in
                mem_of_eq split (mem_append_right (letter_of t id d (t.rows id d)) _ rest)
          ]
    ]

    letter_in :
        (consumers : List String) (id : ℕ) (c : String) (ids : List ℕ) (letter : DeadLetter)
        → Memᴰ id ids
        → Memᴰ letter (letters_at wanted t id consumers)
        → Memᴰ letter (letters_in consumers wanted t ids)
    unfolding letters_in
    letter_in consumers id c [] letter among there = absurd (elim among [ ])
    letter_in consumers id c (i ∷ ids) letter among there = elim (mem_cases among) [
      | inl same ↦
          mem_append_left (letters_at wanted t i consumers) _
            (subst (λ x. Memᴰ letter (letters_at wanted t x consumers)) same there)
      | inr later ↦
          mem_append_right (letters_at wanted t i consumers) _
            (letter_in consumers id c ids letter later there)
    ]

    -- A dead row of a consumer that is asked for has its letter.
    pub dead-letters_in :
        (consumers : List String) (id : ℕ) (c : String) (ids : List ℕ)
        → (wanted == "" || (c == wanted)) ≡ true
        → Memᴰ c consumers
        → Memᴰ id ids
        → is_dead (t.rows id c) ≡ true
        → (letter : DeadLetter) × Memᴰ letter (letters_in consumers wanted t ids)
          × Tells t id c letter
    dead-letters_in consumers id c ids chosen among known dead =
        let (letter, there) = dead-letter_of id c dead in
        (
          letter,
          letter_in consumers id c ids letter known
              (letter_at id c consumers letter chosen among there),
          letter_of-Tells id c letter there,
        )
