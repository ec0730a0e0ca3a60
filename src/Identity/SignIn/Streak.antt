-- ===== src/Identity/SignIn/Streak.antt =====
-- identity/account/signin.go: the lock that is read off the history, against a count of wrong passwords that
-- every attempt updates.
use go_core.Prelude.{
  ℕ, zero, suc, ◌+◌, ◌<◌, ◌≡◌, refl, Bool, true, false, ◌&&◌, not, List, [], ◌∷◌, none, some, keep,
  length, take, all, ltb, leb, if◌then◌else◌, arith,
}
use go_core.Event.Tables.{whole}
use go_core.Identity.SignIn.{
  lock_event, is_wrong, SignInEntry, Lock, LockRule, with_defaults, newest, locked_until,
  lock_events, LoginAnswer, locked, failed, inactive, opened, signed, login_found,
}

-- The wrong passwords since the last sign-in or unlock, and when the last of the three was.
pub record Count : Type 0 where
  pub wrong : ℕ
  pub last : ℕ

abbrev pub observed : SignInEntry → Count → Count
observed e c =
    if not (lock_event e.event)
    then c
    else record { wrong = if is_wrong e.event then suc c.wrong else 0; last = e.created_at }

unfoldable pub count : List SignInEntry → Count
count [] = record { wrong = 0; last = 0 }
count (e ∷ history) = observed e (count history)

-- What Login answers, and the count of the history it leaves.
unfoldable pub counted : LoginAnswer × List SignInEntry → LoginAnswer × Count
unfolding count
counted result = (result.0, count result.1)

-- A sign-in that keeps only the count.
abbrev pub counted_login : Lock → Bool → Bool → ℕ → Count → LoginAnswer × Count
counted_login l matches active now c =
    if leb l.after c.wrong && ltb now (c.last + l.lock_for)
    then (locked (c.last + l.lock_for), c)
    else if not matches
    then (failed, record { wrong = suc c.wrong; last = whole now })
    else if not active
    then (inactive, c)
    else (opened, record { wrong = 0; last = whole now })

abbrev leading : List SignInEntry → ℕ
leading [] = 0
leading (e ∷ entries) = let n = leading entries in if is_wrong e.event then suc n else 0

count-leading :
    (history : List SignInEntry)
    → count history ≡ record {
      wrong = leading (keep (λ e. lock_event e.event) history);
      last = newest (keep (λ e. lock_event e.event) history);
    }
unfolding count
count-leading [] = refl
count-leading (e ∷ history) = ground (arith, count-leading history)

leading-take :
    (n : ℕ) (entries : List SignInEntry)
    → (not (ltb (length (take n entries)) n)
        && all (λ e. is_wrong e.event) (take n (take n entries)))
      ≡ leb n (leading entries)
leading-take zero entries = ground arith
leading-take (suc n) [] = ground arith
leading-take (suc n) (e ∷ entries) = ground (arith, leading-take n entries)

newest-take :
    (n : ℕ) (entries : List SignInEntry) → 0 < n → newest (take n entries) ≡ newest entries
newest-take zero entries positive = absurd (omega arith)
newest-take (suc n) [] positive = refl
newest-take (suc n) (e ∷ entries) positive = refl

guards :
    (short wrong early both : Bool) (until : ℕ)
    → (not short && wrong) ≡ both
    → (if short then none else if not wrong then none else if early then some until else none)
      ≡ (if both && early then some until else none)
guards true wrong early both until h = ground arith
guards false true early both until h = ground arith
guards false false early both until h = ground arith

locked_until-count :
    (l : Lock) (history : List SignInEntry) (now : ℕ)
    → 0 < l.after
    → locked_until l (lock_events history l.after) now ≡ (
        if leb l.after (count history).wrong && ltb now ((count history).last + l.lock_for)
        then some ((count history).last + l.lock_for)
        else none)
unfolding locked_until lock_events
locked_until-count l history now positive =
    let entries = keep (λ e. lock_event e.event) history in
    let many = leading-take l.after entries in
    rw (count-leading history) (rw (newest-take l.after entries positive) (guards _ _ _ _ _ many))

signed-count :
    (held matches active : Bool) (until now : ℕ) (history : List SignInEntry)
    → counted (signed (if held then some until else none) matches active now history) ≡ (
        if held
        then (locked until, count history)
        else if not matches
        then (failed, record { wrong = suc (count history).wrong; last = whole now })
        else if not active
        then (inactive, count history)
        else (opened, record { wrong = 0; last = whole now }))
unfolding signed counted count
signed-count true matches active until now history = refl
signed-count false false active until now history = refl
signed-count false true false until now history = refl
signed-count false true true until now history = refl

login_found-signed :
    (l : Lock) (matches active : Bool) (now : ℕ) (history : List SignInEntry)
    → login_found l matches active now history
      ≡ signed (locked_until l (lock_events history l.after) now) matches active now history
unfolding login_found
login_found-signed l matches active now history = refl

-- Login over the history answers as a sign-in does that only keeps the number of wrong passwords since the
-- last sign-in or unlock and the time of the last of these events, and the history it leaves has the count
-- that such a sign-in leaves: the lock holds exactly when the count has reached After, until For after the
-- last wrong password.
pub login_found-count :
    (rule : LockRule) (matches active : Bool) (now : ℕ) (history : List SignInEntry)
    → counted (login_found (with_defaults rule) matches active now history)
      ≡ counted_login (with_defaults rule) matches active now (count history)
login_found-count rule matches active now history =
    let positive : 0 < (with_defaults rule).after = ground arith in
    let lock = locked_until-count (with_defaults rule) history now positive in
    let at = (count history).last + (with_defaults rule).lock_for in
    let same = login_found-signed (with_defaults rule) matches active now history in
    rw same (
      rw lock (
        signed-count (leb (with_defaults rule).after (count history).wrong && ltb now at) matches
          active at now history))
