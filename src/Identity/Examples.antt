-- ===== src/Identity/Examples.antt =====
-- Concrete runs of identity/account: codes.go, signin.go and reauth.go.
use go_core.Prelude.{
  ◌+◌, ◌*◌, insert, ◌≡◌, ◌≤◌, refl, inr, arith, true, false, List, [], ◌∷◌, none, some, pos, lookup,
  nat_eq,
}
use go_core.Event.Tables.{second, whole}
use go_core.Identity.Codes.Store.{Code, CodeTable}
use go_core.Identity.Codes.{
  CodeRules, Limits, with_defaults, Change, saves, Round, verify_rounds, is_conflict, issue, answer,
  is_conflict,
}
use go_core.Identity.Reauth.{written, count_attempt, clear_attempts}
use go_core.Identity.Reauth.Guesses.{attempt, clear, Write, totals, attempts_bounded}
use go_core.Identity.SignIn
use go_core.Identity.SignIn.{LockRule, SignInEntry, wrong_password, signed_in, login_found}
use go_core.Identity.SignIn.Streak.{count, counted, counted_login, login_found-count}
use go_core.Identity.Codes.Rows.{left}
use go_core.Identity.Codes.Guesses.{Known, saved, guesses_bounded}
use go_core.Identity.Codes.Definite.{verify_definite}
use go_core.Identity.Codes.Issued.{Issued, issue-Issued}

abbrev two_guesses : CodeRules
two_guesses = record { ttl = pos 0; attempts = pos 2; cooldown = pos 0; per_hour = pos 0 }

abbrev rules : Limits
rules = with_defaults two_guesses

abbrev sent_code : Code
sent_code = record {
  target = "ana@example.org";
  hash = "4711";
  attempts = 0;
  expires_at = 1900 * second;
  consumed_at = none;
  invalidated_at = none;
  created_at = 1000 * second;
}

abbrev one_code : CodeTable
one_code = record { last_id = 1; codes = (1, sent_code) ∷ [] }

-- Two wrong guesses that read the same code, and the right one that read it after the first of them.
abbrev race : List Change
race =
    saves 1 sent_code "0000" (1100 * second)
    ∷ saves 1 sent_code "1111" (1100 * second)
    ∷ saves 1 (record sent_code { attempts = 1 }) "4711" (1100 * second)
    ∷ []

raced : saved rules 1 race one_code ≡ (2, 1)
unfolding saved lookup insert
raced = refl

guesses_bounded_example :
    ((saved rules 1 race one_code).0 ≤ left rules (lookup 1 one_code.codes))
    × (((saved rules 1 race one_code).1 ≤ (saved rules 1 race one_code).0)
        × ((saved rules 1 race one_code).1 ≤ 1))
unfolding Known
guesses_bounded_example = guesses_bounded rules 1 race one_code known
  where
    known : Known 1 one_code
    known = inr (omega arith)

-- Another request's guess is saved between the read and the save of the first round.
abbrev rounds : List Round
rounds =
    record {
      before = [];
      meanwhile = saves 1 sent_code "0000" (1100 * second) ∷ [];
      now = 1100 * second;
    }
    ∷ record { before = []; meanwhile = []; now = 1101 * second }
    ∷ record { before = []; meanwhile = []; now = 1102 * second }
    ∷ []

second_round : (verify_rounds rules "4711" rounds one_code).0 ≡ answer "ana@example.org"
unfolding verify_rounds lookup insert
second_round = refl

verify_definite_example :
    is_conflict (verify_rounds (with_defaults two_guesses) "4711" rounds one_code).0 ≡ false
verify_definite_example = verify_definite two_guesses "4711" rounds one_code refl refl

abbrev hourly : Limits
hourly = with_defaults (record two_guesses { per_hour = pos 1 })

issue-Issued_example :
    Issued rules one_code
      (1800 * second)
      (issue rules "ana@example.org" "4712" true (1700 * second) (1701 * second) one_code).1
      (issue rules "ana@example.org" "4712" true (1700 * second) (1701 * second) one_code).0
issue-Issued_example =
    issue-Issued rules "ana@example.org" "4712" true (1700 * second) (1701 * second) (1800 * second)
      one_code

-- Two wrong passwords after a sign-in, where two lock for a minute.
abbrev two_wrong : LockRule
two_wrong = record { after = pos 2; lock_for = pos (60 * second) }

abbrev wrong_twice : List SignInEntry
wrong_twice =
    record { event = wrong_password; created_at = 120 * second }
    ∷ record { event = wrong_password; created_at = 110 * second }
    ∷ record { event = signed_in; created_at = 50 * second }
    ∷ []

login_found-count_example :
    counted (login_found (SignIn.with_defaults two_wrong) true true (130 * second) wrong_twice)
    ≡ counted_login (SignIn.with_defaults two_wrong) true true (130 * second) (count wrong_twice)
login_found-count_example = login_found-count two_wrong true true (130 * second) wrong_twice

still_locked :
    (login_found (SignIn.with_defaults two_wrong) true true (130 * second) wrong_twice).0
    ≡ SignIn.locked (180 * second)
unfolding login_found
still_locked = refl

-- Five requests, of which two have read the same counter, and two are counted after the third one's
-- password was right.
abbrev racing : List Write
racing =
    attempt none (100 * second)
    ∷ attempt none (100 * second)
    ∷ attempt (some (record { failures = 1; locked_until = none })) (110 * second)
    ∷ clear (some (record { failures = 2; locked_until = some (170 * second) }))
    ∷ attempt (some (record { failures = 0; locked_until = none })) (111 * second)
    ∷ attempt (some (record { failures = 1; locked_until = none })) (112 * second)
    ∷ []

four_counted : totals (SignIn.with_defaults two_wrong) racing none ≡ (4, 1)
unfolding totals written whole count_attempt clear_attempts
four_counted = refl

attempts_bounded_example :
    (totals (SignIn.with_defaults two_wrong) racing none).0
    ≤ 2 + (totals (SignIn.with_defaults two_wrong) racing none).1 * 2
unfolding whole
attempts_bounded_example =
    attempts_bounded (SignIn.with_defaults two_wrong) (100 * second) racing none (omega arith) refl
