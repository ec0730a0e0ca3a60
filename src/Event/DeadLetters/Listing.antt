-- ===== src/Event/DeadLetters/Listing.antt =====
-- event/deadletter.go: List. The names of all consumers that have rows are a parameter, since a table is
-- a function here, and so is the order of names that the database's collation gives. The column
-- created_at is left out.
use go_core.Prelude.{
  ℕ, ℤ, pos, pos_part, int_leb, min, String, string_eq, Bool, ◌&&◌, ◌||◌, not, List, [], ◌∷◌, ◌++◌,
  Option, none, some, ltb, nat_beq, if◌then◌else◌, ◌==◌, take, drop, length,
}
use go_core.Event.Tables.{OutboxEvent, AttemptRow, Tables, ids_to}

pub record DeadLetter : Type 0 where
  pub event_id : ℕ
  pub consumer : String
  pub event_name : String
  pub attempts : ℕ
  pub last_error : String
  pub dead_at : ℕ

-- DeadLetter.Retryable
abbrev pub retryable : DeadLetter → Bool
retryable letter = not (letter.event_name == "")

pub record DeadLetterQuery : Type 0 where
  pub consumer : String
  pub limit : ℤ
  pub offset : ℤ

-- The event's name, "" when the left join finds no event.
abbrev pub name_of : Option OutboxEvent → String
name_of none = ""
name_of (some event) = event.event_type

-- What is listed of one row.
abbrev pub letter_of : Tables → ℕ → String → Option AttemptRow → List DeadLetter
letter_of t id consumer none = []
letter_of t id consumer (some row) = elim row.dead_at [
  | none ↦ []
  | some at ↦
      record {
        event_id = id;
        consumer = consumer;
        event_name = name_of (t.outbox id);
        attempts = row.attempts;
        last_error = row.last_error;
        dead_at = at;
      }
      ∷ []
]

module _ (name_before : String → String → Bool) where
  -- ORDER BY dead_at DESC, event_id DESC, consumer ASC.
  abbrev pub goes_first : DeadLetter → DeadLetter → Bool
  goes_first l m =
      ltb m.dead_at l.dead_at
      || nat_beq m.dead_at l.dead_at
        && (ltb m.event_id l.event_id
            || nat_beq m.event_id l.event_id && not (name_before m.consumer l.consumer))

  abbrev pub put_letter : DeadLetter → List DeadLetter → List DeadLetter
  put_letter l [] = l ∷ []
  put_letter l (m ∷ ms) = if goes_first l m then l ∷ m ∷ ms else m ∷ put_letter l ms

  abbrev pub sort_letters : List DeadLetter → List DeadLetter
  sort_letters [] = []
  sort_letters (l ∷ ls) = put_letter l (sort_letters ls)

-- The rows of an event, and of all: WHERE dead_at IS NOT NULL, and the consumer's if one is named.
unfoldable pub letters_at : String → Tables → ℕ → List String → List DeadLetter
letters_at wanted t id [] = []
letters_at wanted t id (c ∷ cs) =
    let rest = letters_at wanted t id cs in
    if wanted == "" || (c == wanted) then letter_of t id c (t.rows id c) ++ rest else rest

unfoldable pub letters_in : List String → String → Tables → List ℕ → List DeadLetter
unfolding letters_at
letters_in consumers wanted t [] = []
letters_in consumers wanted t (id ∷ ids) =
    letters_at wanted t id consumers ++ letters_in consumers wanted t ids

-- The page size: 25 by default, at most 100.
abbrev pub page_size : ℤ → ℕ
page_size limit = min (if int_leb limit (pos 0) then 25 else pos_part limit) 100

-- List: a page, and how many letters there are in all.
unfoldable pub list_letters :
    (String → String → Bool) → List String → DeadLetterQuery → Tables → List DeadLetter × ℕ
unfolding letters_in
list_letters name_before consumers q t =
    let all = sort_letters name_before (letters_in consumers q.consumer t (ids_to t.last_id)) in
    (take (page_size q.limit) (drop (pos_part q.offset) all), length all)
