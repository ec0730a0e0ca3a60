-- ===== src/Event/DeadLetters/Pages.antt =====
-- event/deadletter.go: a client that reads page after page finds exactly the letters that Retry revives.
use go_core.Prelude.{
  ℕ, zero, suc, ◌+◌, ◌≤◌, ◌<◌, ℤ, pos, negsuc, String, string_eq, ◌≡◌, ◌↔◌, refl, sym, ap, ◌∙◌, inl,
  inr, Bool, true, false, ◌||◌, List, [], ◌∷◌, ◌++◌, some, Memᴰ, mem_of_eq, ◌==◌, take, drop,
  take-drop, drop-drop, length, length-drop, arith, Bool-cases, Option-cases,
}
use mathlib.Core.Path.{subst}
use go_core.Event.Tables.{OutboxEvent, Tables, ids_to, is_set, is_dead}
use go_core.Event.Tables.Ids.{ids_to_intro}
use go_core.Event.DeadLetters.{retry, retried}
use go_core.Event.DeadLetters.Listing.{
  DeadLetter, retryable, name_of, sort_letters, letters_in, page_size, list_letters,
}
use go_core.Event.DeadLetters.Letters.{mem_sort_letters, letters_in-Tells, dead-letters_in}

page_size_pos : (limit : ℤ) → 0 < page_size limit
page_size_pos (pos zero) = ground arith
page_size_pos (pos (suc n)) = ground arith
page_size_pos (negsuc n) = ground arith

module _ (name_before : String → String → Bool) (consumers : List String) (t : Tables) where
  -- The letters of all pages, in their order.
  abbrev pub letters : String → List DeadLetter
  letters wanted = sort_letters name_before (letters_in consumers wanted t (ids_to t.last_id))

  -- A client that reads page after page, until one is empty.
  unfoldable pub read_pages : ℕ → String → ℤ → ℕ → List DeadLetter
  read_pages zero wanted limit offset = []
  read_pages (suc reads) wanted limit offset =
      let rest = read_pages reads wanted limit (offset + page_size limit) in
      let page =
        (list_letters name_before consumers
          (record { consumer = wanted; limit = limit; offset = pos offset }) t).0 in
      elim page [ [] ↦ [] | l ∷ ls ↦ l ∷ ls ++ rest ]

  read_pages-drop :
      (reads : ℕ) (wanted : String) (limit : ℤ) (offset : ℕ)
      → length (letters wanted) < reads + offset
      → read_pages reads wanted limit offset ≡ drop offset (letters wanted)
  unfolding read_pages list_letters
  read_pages-drop zero wanted limit offset enough =
      sym
        (empty (drop offset (letters wanted)) (ground (arith, length-drop offset (letters wanted))))
    where
      empty : (ls : List DeadLetter) → length ls ≡ 0 → ls ≡ []
      empty [] none_left = refl
      empty (l ∷ ls) none_left = absurd (omega arith)
  read_pages-drop (suc reads) wanted limit offset enough =
      let some_read = page_size_pos limit in
      let rest = read_pages-drop reads wanted limit (offset + page_size limit) (omega arith) in
      paged (page_size limit) (drop offset (letters wanted)) _ some_read
        (rest ∙ sym (drop-drop offset (page_size limit) (letters wanted)))
    where
      paged :
          (size : ℕ) (left rest : List DeadLetter)
          → 0 < size
          → rest ≡ drop size left
          → (elim (take size left) [ [] ↦ [] | l ∷ ls ↦ l ∷ ls ++ rest ]) ≡ left
      paged zero left rest some_read same = absurd (omega arith)
      paged (suc size) [] rest some_read same = refl
      paged (suc size) (l ∷ ls) rest some_read same =
          ap (λ r. l ∷ take size ls ++ r) same ∙ ap (λ r. l ∷ r) (take-drop size ls)

  -- A dead letter that is to be retried, for Retry.
  retry-is_dead :
      (clock id : ℕ) (c : String)
      → ((retry clock id c t).1 ≡ retried)
        ↔ (((event : OutboxEvent) × (t.outbox id ≡ some event)) × (is_dead (t.rows id c) ≡ true))
  unfolding retry
  retry-is_dead clock id c = (revived, revives)
    where
      revived :
          (retry clock id c t).1 ≡ retried
          → ((event : OutboxEvent) × (t.outbox id ≡ some event)) × (is_dead (t.rows id c) ≡ true)
      revived done = elim (Option-cases (t.outbox id)) [
        | inl gone ↦ absurd (ground (arith, gone))
        | inr (event, there) ↦ elim (Option-cases (t.rows id c)) [
          | inl missing ↦ absurd (ground (arith, there, missing))
          | inr (row, found) ↦ elim (Bool-cases (is_set row.dead_at)) [
            | inr alive ↦ absurd (ground (arith, there, found, alive))
            | inl dead ↦ ((event, there), ground (arith, found, dead))
          ]
        ]
      ]

      revives :
          ((event : OutboxEvent) × (t.outbox id ≡ some event)) × (is_dead (t.rows id c) ≡ true)
          → (retry clock id c t).1 ≡ retried
      revives ((event, there), dead) = elim (Option-cases (t.rows id c)) [
        | inl missing ↦ absurd (ground (arith, missing))
        | inr (row, found) ↦ ground (arith, there, found)
      ]

  -- Take a table in which every event has a name, and read the list page after page from the start, of
  -- all consumers or of one, often enough to come past the last letter, whatever the page size that is
  -- asked for. Then for an event id that was given and a consumer that was asked for, a letter that is
  -- Retryable is among those read exactly when Retry would put it back in the queue.
  pub read_pages-retry :
      (clock : ℕ) (wanted : String) (limit : ℤ) (reads id : ℕ) (c : String)
      → ((i : ℕ) (event : OutboxEvent) → t.outbox i ≡ some event → (event.event_type == "") ≡ false)
      → length (letters wanted) < reads
      → (wanted == "" || (c == wanted)) ≡ true
      → Memᴰ c consumers
      → 0 < id
      → id ≤ t.last_id
      → ((letter : DeadLetter) × Memᴰ letter (read_pages reads wanted limit 0)
          × (letter.event_id ≡ id)
          × (letter.consumer ≡ c)
          × (retryable letter ≡ true))
        ↔ ((retry clock id c t).1 ≡ retried)
  read_pages-retry clock wanted limit reads id c names enough chosen among above below =
      (revives, listed)
    where
      all_read : read_pages reads wanted limit 0 ≡ letters wanted
      all_read = read_pages-drop reads wanted limit 0 (omega arith)

      event_of :
          (letter : DeadLetter)
          → letter.event_id ≡ id
          → retryable letter ≡ true
          → letter.event_name ≡ name_of (t.outbox letter.event_id)
          → (event : OutboxEvent) × (t.outbox id ≡ some event)
      event_of letter of_id may named = elim (Option-cases (t.outbox id)) [
        | inr there ↦ there
        | inl gone ↦
            let nameless =
              named ∙ ap (λ i. name_of (t.outbox i)) of_id ∙ ap (λ o. name_of o) gone in
            absurd (ground (arith, may, ap (λ n. n == "") nameless))
      ]

      revives :
          (letter : DeadLetter) × Memᴰ letter (read_pages reads wanted limit 0)
            × (letter.event_id ≡ id)
            × (letter.consumer ≡ c)
            × (retryable letter ≡ true)
          → (retry clock id c t).1 ≡ retried
      revives (letter, m, of_id, of_c, may) =
          let there = (mem_sort_letters name_before letter _).0 (mem_of_eq all_read m) in
          let tells = letters_in-Tells t wanted consumers (ids_to t.last_id) letter there in
          (retry-is_dead clock id c).1 (
            event_of letter of_id may tells.named,
            subst (λ i. is_dead (t.rows i c) ≡ true) of_id
                (subst (λ d. is_dead (t.rows letter.event_id d) ≡ true) of_c tells.dead),
          )

      listed :
          (retry clock id c t).1 ≡ retried
          → (letter : DeadLetter) × Memᴰ letter (read_pages reads wanted limit 0)
            × (letter.event_id ≡ id)
            × (letter.consumer ≡ c)
            × (retryable letter ≡ true)
      listed done =
          let ((event, there), dead) = (retry-is_dead clock id c).0 done in
          let (letter, m, tells) =
            dead-letters_in t wanted consumers id c (ids_to t.last_id) chosen among
              (ids_to_intro t.last_id id above below) dead in
          let named = tells.named ∙ ap (λ o. name_of o) there in
          (
            letter,
            mem_of_eq (sym all_read) ((mem_sort_letters name_before letter _).1 m),
            tells.of_event,
            tells.of_consumer,
            ground (arith, ap (λ n. n == "") named, names id event there),
          )
