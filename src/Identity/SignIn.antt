-- ===== src/Identity/SignIn.antt =====
-- identity/account/signin.go, attempts.go and the Login of signin_service.go: the lock that wrong passwords put
-- on the sign-in of an account, read off its history, and the attempts of a login in a minute.
pub mod Streak
use go_core.Prelude.{
  ◌*◌, ℕ, zero, suc, ◌+◌, ℤ, is_positive, pos_part, String, string_eq, Bool, true, false, not, List,
  [], ◌∷◌, Option, none, some, Map, lookup, insert, keep, length, take, all, ltb, leb,
  if◌then◌else◌,
}
use go_core.Event.Tables.{second, whole}

pub data SignInEvent : Type 0 where
  signed_in wrong_password locked_out refused_inactive signed_in_as unlocked : SignInEvent
  signed_out_everywhere session_revoked : SignInEvent

-- LockEvent
abbrev pub lock_event : SignInEvent → Bool
lock_event wrong_password = true
lock_event signed_in = true
lock_event unlocked = true
lock_event _ = false

abbrev pub is_wrong : SignInEvent → Bool
is_wrong wrong_password = true
is_wrong _ = false

-- SignInEntry, less the account, the caller and the device.
pub record SignInEntry : Type 0 where
  pub event : SignInEvent
  pub created_at : ℕ

-- Lock, and what withDefaults makes of it.
pub record LockRule : Type 0 where
  pub after : ℤ
  pub lock_for : ℤ

pub record Lock : Type 0 where
  pub after : ℕ
  pub lock_for : ℕ

abbrev pub with_defaults : LockRule → Lock
with_defaults l = record {
  after = if is_positive l.after then pos_part l.after else 5;
  lock_for = if is_positive l.lock_for then pos_part l.lock_for else 900 * second;
}

abbrev pub newest : List SignInEntry → ℕ
newest [] = 0
newest (e ∷ entries) = e.created_at

-- Lock.LockedUntil, of a history with the newest entry first.
unfoldable pub locked_until : Lock → List SignInEntry → ℕ → Option ℕ
locked_until l latest now =
    if ltb (length latest) l.after
    then none
    else if not (all (λ e. is_wrong e.event) (take l.after latest))
    then none
    else if ltb now (newest latest + l.lock_for)
    then some (newest latest + l.lock_for)
    else none

-- SignIns.LockEvents
unfoldable pub lock_events : List SignInEntry → ℕ → List SignInEntry
lock_events history n = take n (keep (λ e. lock_event e.event) history)

-- attempts: the windows of the logins.
pub record Window : Type 0 where
  pub end : ℕ
  pub count : ℕ

abbrev pub attempt_window : ℕ
attempt_window = 60 * second

abbrev pub sweep_above : ℕ
sweep_above = 1024

abbrev pub swept : ℕ → Map String Window → Map String Window
swept now windows =
    if ltb sweep_above (length windows)
    then keep (λ entry. ltb now entry.1.end) windows
    else windows

-- The window of a login that is going on, or a new one.
abbrev pub current : ℕ → Option Window → Window
current now none = record { end = now + attempt_window; count = 0 }
current now (some w) = if ltb now w.end then w else record { end = now + attempt_window; count = 0 }

-- attempts.allow: the end of the window, whether the attempt may go on, and the windows after it.
unfoldable pub allow : ℕ → String → ℕ → Map String Window → (ℕ × Bool) × Map String Window
allow limit login now windows =
    let kept = swept now windows in
    let open_window = current now (lookup login kept) in
    let w : Window = record open_window { count = suc open_window.count } in
    ((w.end, leb w.count limit), insert login w kept)

-- The reasons of a refusal of Login.
pub data LoginAnswer : Type 0 where
  locked : ℕ → LoginAnswer
  failed inactive opened : LoginAnswer

-- record, as the store keeps it: whole seconds.
abbrev pub recorded : SignInEvent → ℕ → List SignInEntry → List SignInEntry
recorded event now history = record { event = event; created_at = whole now } ∷ history

-- Login once the lock is read: the password is compared by `matches`, which is not asked while it holds.
unfoldable pub signed :
    Option ℕ
    → (matches : Bool) → (active : Bool) → ℕ
    → List SignInEntry
    → LoginAnswer × List SignInEntry
unfolding whole
signed (some until) matches active now history = (locked until, recorded locked_out now history)
signed none matches active now history =
    if not matches
    then (failed, recorded wrong_password now history)
    else if not active
    then (inactive, recorded refused_inactive now history)
    else (opened, recorded signed_in now history)

-- Login, of an account that was found and is not held back by the attempts.
unfoldable pub login_found :
    Lock
    → (matches : Bool) → (active : Bool) → ℕ
    → List SignInEntry
    → LoginAnswer × List SignInEntry
unfolding locked_until lock_events signed
login_found l matches active now history =
    signed (locked_until l (lock_events history l.after) now) matches active now history

-- Login: `too_long` is a login longer than the store keeps, and the account is what FindByLogin finds, with
-- what the hasher says of its password and whether it is active.
unfoldable pub login :
    ℕ
    → Lock
    → String
    → (too_long : Bool) → Option (Bool × Bool)
    → ℕ
    → Map String Window
    → List SignInEntry
    → LoginAnswer × (Map String Window × List SignInEntry)
unfolding allow login_found
login limit l name too_long account now windows history =
    let ((until, allowed), counted) = allow limit name now windows in
    let (answer, after) = judged account in
    if not allowed
    then (locked until, (counted, history))
    else if too_long
    then (failed, (counted, history))
    else (answer, (counted, after))
  where
    judged : Option (Bool × Bool) → LoginAnswer × List SignInEntry
    judged none = (failed, history)
    judged (some (matches, active)) = login_found l matches active now history
