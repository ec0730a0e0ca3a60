-- ===== src/Identity/Reauth.antt =====
-- identity/account/reauth.go over identity/gormstore/reauth.go: the counter of an account's re-confirmations of
-- its password. The table is the account's row, if it has one; the time of the last update is left out.
pub mod Guesses
use go_core.Prelude.{
  ℕ, suc, ◌+◌, min, nat_eq, nat_beq, Bool, true, false, ◌&&◌, List, [], ◌∷◌, not, Option, none,
  some, leb, ltb, if◌then◌else◌,
}
use go_core.Event.Tables.{whole, is_set}
use go_core.Identity.Codes.Store.{whole_or_nil}
use go_core.Identity.SignIn.{Lock}

pub record Attempts : Type 0 where
  pub failures : ℕ
  pub locked_until : Option ℕ

-- Attempts.Locked
abbrev pub is_locked : ℕ → Attempts → Bool
is_locked now a = elim a.locked_until [ none ↦ false | some until ↦ ltb now until ]

-- The columns: failures is a uint16, and locked_until has whole seconds.
abbrev pub max_uint16 : ℕ
max_uint16 = 65535

unfoldable pub stored : Attempts → Attempts
unfolding whole
stored a = record {
  failures = min a.failures max_uint16;
  locked_until = whole_or_nil a.locked_until;
}

abbrev pub same_time : Option ℕ → Option ℕ → Bool
same_time none none = true
same_time (some a) (some b) = nat_beq a b
same_time _ _ = false

-- Create: the primary key refuses a second row.
unfoldable pub create : Attempts → Option Attempts → Bool × Option Attempts
unfolding stored
create a none = (true, some (stored a))
create a (some row) = (false, some row)

-- What Save writes: unlike Create, the failures as they are. begin never counts past the larger of After
-- and 1, which the column holds for an After up to 65535.
unfoldable pub written : Attempts → Attempts
unfolding whole
written a = record a { locked_until = whole_or_nil a.locked_until }

-- Save: UPDATE … WHERE failures and locked_until are as they were read.
unfoldable pub save : Attempts → Attempts → Option Attempts → Bool × Option Attempts
unfolding written
save a read none = (false, none)
save a read (some row) =
    if nat_beq row.failures read.failures
      && same_time row.locked_until (whole_or_nil read.locked_until)
    then (true, some (written a))
    else (false, some row)

-- What begin makes of the counter that it read: a lock that ran out starts a fresh count.
abbrev pub next : Lock → ℕ → Attempts → Attempts
next l now read =
    let failures = (if is_set read.locked_until then 1 else suc read.failures) in
    record {
      failures = failures;
      locked_until = if leb l.after failures then some (now + l.lock_for) else none;
    }

abbrev pub no_attempts : Attempts
no_attempts = record { failures = 0; locked_until = none }

-- One round of begin from its read on: whether an attempt is counted, and the row after it.
unfoldable pub count_attempt : Lock → ℕ → Option Attempts → Option Attempts → Bool × Option Attempts
unfolding create save
count_attempt l now none row = create (next l now no_attempts) row
count_attempt l now (some read) row =
    if is_locked now read then (false, row) else save (next l now read) read row

-- What other requests do around one round, and the round's clock.
pub record Turn : Type 0 where
  pub before : Option Attempts → Option Attempts
  pub meanwhile : Option Attempts → Option Attempts
  pub now : ℕ

pub data Confirmation : Type 0 where
  confirmed wrong conflict : Confirmation
  held : ℕ → Confirmation

-- reauthLocked is only asked of a counter that has a lock.
abbrev pub end_of : Attempts → ℕ
end_of a = elim a.locked_until [ none ↦ 0 | some until ↦ until ]

abbrev pub read_held : ℕ → Option Attempts → Bool
read_held now none = false
read_held now (some a) = is_locked now a

abbrev pub found : Option Attempts → Attempts
found none = no_attempts
found (some a) = a

-- begin, over the rounds that are left: the counter with this attempt in it, or the refusal.
unfoldable pub begin :
    Lock → List Turn → Option Attempts → (Confirmation × Option Attempts) × Option Attempts
unfolding count_attempt
begin l [] row = ((conflict, none), row)
begin l (turn ∷ turns) row =
    let read = turn.before row in
    let (done, row') = count_attempt l turn.now read (turn.meanwhile read) in
    let rest = begin l turns row' in
    if read_held turn.now read
    then ((held (end_of (found read)), none), read)
    else if done
    then ((confirmed, some (next l turn.now (found read))), row')
    else rest

-- The write of succeed's round: the counter that it read is emptied.
unfoldable pub clear_attempts : Option Attempts → Option Attempts → Bool × Option Attempts
unfolding save
clear_attempts read row = save no_attempts (found read) row

-- succeed, over the rounds that are left
unfoldable pub succeed : List Turn → Option Attempts → Confirmation × Option Attempts
unfolding clear_attempts
succeed [] row = (conflict, row)
succeed (turn ∷ turns) row =
    let read = turn.before row in
    let (done, row') = clear_attempts read (turn.meanwhile read) in
    let rest = succeed turns row' in
    if nat_beq (found read).failures 0 && not (is_set (found read).locked_until)
    then (confirmed, read)
    else if done
    then (confirmed, row')
    else rest

-- Confirm: `matches` is the hasher's answer, and `later` the clock after it.
unfoldable pub confirm :
    Lock → Bool → List Turn → List Turn → ℕ → Option Attempts → Confirmation × Option Attempts
unfolding begin succeed
confirm l matches turns after later row =
    let ((refusal, counted), row') = begin l turns row in
    elim counted [
      | none ↦ (refusal, row')
      | some a ↦
          if matches
          then succeed after row'
          else if is_locked later a
          then (held (end_of a), row')
          else (wrong, row')
    ]
