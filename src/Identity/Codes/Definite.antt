-- ===== src/Identity/Codes/Definite.antt =====
-- identity/account/codes.go: the rounds of Verify end on an answer.
use go_core.Prelude.{
  ℕ, ◌+◌, ◌≤◌, ◌<◌, max, String, string_eq, nat_eq, ◌≡◌, ap, inl, inr, Bool, true, false, ◌&&◌,
  ◌||◌, List, [], ◌∷◌, none, some, lookup, nat_beq, nat_beq_iff, ◌==◌, arith, Bool-cases,
  Option-cases, length,
}
use go_core.Event.Tables.{is_set}
use go_core.Identity.Codes.Store.{Code, CodeTable, latest, is_open, ended, save_verification}
use go_core.Identity.Codes.{
  Limits, CodeRules, with_defaults, judged, live, refuse, no_pending, Change, changes, verify_code,
  verify_once, Round, is_conflict, verify_rounds,
}
use go_core.Identity.Codes.Rows.{row_left}
use go_core.Identity.Codes.Later.{Later, quiet, latest-Later, latest_left, changes-latest_left}

-- A save of a row that is not as it was read does nothing.
save_refused :
    (id : ℕ) (to d : Code) (read : ℕ) (u : CodeTable)
    → lookup id u.codes ≡ some d
    → (is_open d && nat_beq d.attempts read) ≡ false
    → save_verification id to read u ≡ (false, u)
unfolding save_verification
save_refused id to d read u row refused = ground (arith, row, refused)

save_made :
    (id : ℕ) (to d : Code) (read : ℕ) (u : CodeTable)
    → lookup id u.codes ≡ some d
    → (is_open d && nat_beq d.attempts read) ≡ true
    → (save_verification id to read u).0 ≡ true
unfolding save_verification
save_made id to d read u row as_read = ground (arith, row, as_read)

-- A round that ends in a conflict found an open code, and its save did nothing.
code_refused :
    (rules : Limits) (hash : String) (now : ℕ) (meanwhile : CodeTable → CodeTable) (t : CodeTable)
    (id : ℕ) (c d : Code)
    → lookup id (meanwhile t).codes ≡ some d
    → (is_open d && nat_beq d.attempts c.attempts) ≡ false
    → is_conflict (verify_code rules hash now meanwhile t id c).0 ≡ true
    → (is_open c ≡ true) × ((verify_code rules hash now meanwhile t id c).1 ≡ meanwhile t)
unfolding verify_code
code_refused rules hash now meanwhile t id c d row refused lost =
    elim (Bool-cases (is_set c.consumed_at || is_set c.invalidated_at)) [
      | inl ended ↦ absurd (ground (arith, ended))
      | inr opened ↦ elim (Bool-cases (live now c)) [
        | inr late ↦ absurd (ground (arith, opened, late))
        | inl alive ↦
            let nothing =
              save_refused id (judged rules (c.hash == hash) now c).0 d c.attempts (meanwhile t) row
                refused in
            (ground (arith, opened), ground (arith, opened, alive, ap (λ p. p.1) nothing))
      ]
    ]

code_made :
    (rules : Limits) (hash : String) (now : ℕ) (meanwhile : CodeTable → CodeTable) (t : CodeTable)
    (id : ℕ) (c d : Code)
    → lookup id (meanwhile t).codes ≡ some d
    → (is_open d && nat_beq d.attempts c.attempts) ≡ true
    → is_conflict (verify_code rules hash now meanwhile t id c).0 ≡ false
unfolding verify_code
code_made rules hash now meanwhile t id c d row as_read =
    let made =
      save_made id (judged rules (c.hash == hash) now c).0 d c.attempts (meanwhile t) row as_read in
    ground (arith, made)

-- It has seen the code lose a guess.
module _ (rules : Limits) (hash : String) (now : ℕ) (xs : List Change) (t : CodeTable) where
  code-left :
      (id : ℕ) (c d : Code)
      → latest (changes rules xs t) ≡ some (id, d)
      → lookup id (changes rules xs t).codes ≡ some d
      → Later rules c d
      → is_conflict (verify_code rules hash now (changes rules xs) t id c).0 ≡ true
      → latest_left rules (verify_code rules hash now (changes rules xs) t id c).1
        < row_left rules c
  unfolding Later
  code-left id c d there row later lost =
      elim (Bool-cases (is_open d && nat_beq d.attempts c.attempts)) [
        | inl as_read ↦
            absurd
              (ground (arith, code_made rules hash now (changes rules xs) t id c d row as_read))
        | inr other ↦
            let (opened, same) =
              code_refused rules hash now (changes rules xs) t id c d row other lost in
            let fewer : row_left rules d < row_left rules c = elim later [
              | inl less ↦ less
              | inr (still, read) ↦ absurd (ground (arith, nat_beq_iff d.attempts c.attempts))
            ] in
            rw same (rw there fewer)
      ]

  verify_once-none :
      (meanwhile : CodeTable → CodeTable)
      → latest t ≡ none
      → verify_once rules hash now meanwhile t ≡ (refuse no_pending, t)
  unfolding verify_once
  verify_once-none meanwhile missing = ground (arith, missing)

  verify_once-some :
      (meanwhile : CodeTable → CodeTable) (id : ℕ) (c : Code)
      → latest t ≡ some (id, c)
      → verify_once rules hash now meanwhile t ≡ verify_code rules hash now meanwhile t id c
  unfolding verify_once
  verify_once-some meanwhile id c newest = ground (arith, newest)

  conflict-left :
      quiet xs ≡ true
      → is_conflict (verify_once rules hash now (changes rules xs) t).0 ≡ true
      → latest_left rules (verify_once rules hash now (changes rules xs) t).1 < latest_left rules t
  conflict-left still lost = elim (Option-cases (latest t)) [
    | inl missing ↦ absurd (ground (arith, verify_once-none (changes rules xs) missing))
    | inr ((id, c), newest) ↦
        let (d, (there, (row, later))) = latest-Later rules id c xs t still newest in
        let same = verify_once-some (changes rules xs) id c newest in
        let fewer = code-left id c d there row later (rw same at lost) in rw same (rw newest fewer)
  ]

abbrev rounds_quiet : List Round → Bool
rounds_quiet [] = true
rounds_quiet (round ∷ rounds) = quiet round.before && quiet round.meanwhile && rounds_quiet rounds

verify_rounds-definite :
    (rules : Limits) (hash : String) (rounds : List Round) (t : CodeTable)
    → rounds_quiet rounds ≡ true
    → latest_left rules t < length rounds
    → is_conflict (verify_rounds rules hash rounds t).0 ≡ false
unfolding verify_rounds
verify_rounds-definite rules hash [] t still enough = absurd (omega arith)
verify_rounds-definite rules hash (round ∷ rounds) t still enough =
    let u = changes rules round.before t in
    let fewer = changes-latest_left rules round.before t (ground arith) in
    elim (Bool-cases
      (is_conflict (verify_once rules hash round.now (changes rules round.meanwhile) u).0)) [
        | inr answered ↦ rw answered answered
        | inl lost ↦
            let less = conflict-left rules hash round.now round.meanwhile u (ground arith) lost in
            rw lost (
              verify_rounds-definite rules hash rounds
                (verify_once rules hash round.now (changes rules round.meanwhile) u).1
                (ground arith) (omega arith))
      ]

limit_positive : (r : CodeRules) → 0 < (with_defaults r).attempts
limit_positive r = ground arith

latest_left_most : (rules : Limits) (t : CodeTable) → latest_left rules t ≤ max rules.attempts 1
latest_left_most rules t = elim (Option-cases (latest t)) [
  | inl missing ↦ ground (arith, missing)
  | inr ((id, c), newest) ↦ ground (arith, newest)
]

-- Verify, with its rounds one more than the limit of attempts, always comes to an answer of its own and
-- never gives up on a conflict, whatever verifications are saved and codes are ended by other requests
-- before each round and between its read and its save, as long as no code is issued meanwhile.
pub verify_definite :
    (r : CodeRules) (hash : String) (rounds : List Round) (t : CodeTable)
    → rounds_quiet rounds ≡ true
    → length rounds ≡ (with_defaults r).attempts + 1
    → is_conflict (verify_rounds (with_defaults r) hash rounds t).0 ≡ false
verify_definite r hash rounds t still enough =
    let limit = limit_positive r in
    let most = latest_left_most (with_defaults r) t in
    verify_rounds-definite (with_defaults r) hash rounds t still (omega arith)
