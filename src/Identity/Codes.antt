-- ===== src/Identity/Codes.antt =====
-- identity/account/codes.go over identity/gormstore/codes.go: the one-time codes of one account and purpose,
-- on which every method of the store is keyed. Times are nanoseconds. The hash of a guess (HMAC of the
-- account, the purpose and the code), the random digits and the outcome of sending are arguments.
pub mod Store
pub mod Rows
pub mod Guesses
pub mod Later
pub mod Definite
pub mod Issued
use go_core.Prelude.{
  ℕ, zero, suc, ◌+◌, ◌-◌, ◌*◌, ◌/◌, max, String, string_eq, nat_eq, ℤ, is_positive, pos_part, Bool,
  true, false, ◌&&◌, ◌||◌, not, List, [], ◌∷◌, Option, none, some, Map, lookup, leb, ltb,
  if◌then◌else◌, ◌==◌,
}
use go_core.Event.Tables.{second, is_set}
use go_core.Identity.Codes.Store.{
  Code, CodeTable, latest, issued_since, issue_code, save_verification, invalidate_live,
}

-- CodeRules, and what withDefaults makes of it.
pub record CodeRules : Type 0 where
  pub ttl : ℤ
  pub attempts : ℤ
  pub cooldown : ℤ
  pub per_hour : ℤ

pub record Limits : Type 0 where
  pub ttl : ℕ
  pub attempts : ℕ
  pub cooldown : ℕ
  pub per_hour : ℕ

abbrev pub or_default : ℤ → ℕ → ℕ
or_default v default = if is_positive v then pos_part v else default

abbrev pub with_defaults : CodeRules → Limits
with_defaults r = record {
  ttl = or_default r.ttl (900 * second);
  attempts = or_default r.attempts 5;
  cooldown = or_default r.cooldown (60 * second);
  per_hour = or_default r.per_hour 5;
}

abbrev pub code_window : ℕ
code_window = 3600 * second

-- The reasons of a refusal, with the seconds or the guesses that they carry.
pub data Refusal : Type 0 where
  resend_too_soon too_many_requests mismatch : ℕ → Refusal
  no_pending expired too_many_attempts not_delivered conflict : Refusal

pub data Answer (A : Type 0) : Type 0 where
  answer : A → Answer A
  refuse : Refusal → Answer A

-- Code.Live
abbrev pub live : ℕ → Code → Bool
live now c = not (is_set c.consumed_at) && not (is_set c.invalidated_at) && ltb now c.expires_at

-- retryAfter: whole seconds, rounded up, at least one
abbrev pub retry_after : ℕ → ℕ
retry_after d = max ((d + (second - 1)) / second) 1

-- checkCanIssue
unfoldable pub check_can_issue : Limits → ℕ → CodeTable → Option Refusal
unfolding issued_since
check_can_issue rules now t =
    let capped =
      (let (n, oldest) = issued_since (now - code_window) t in
        if leb rules.per_hour n
        then some (too_many_requests (retry_after (oldest + code_window - now)))
        else none) in
    elim (latest t) [
      | none ↦ capped
      | some (id, c) ↦
          if ltb now (c.created_at + rules.cooldown)
          then some (resend_too_soon (retry_after (c.created_at + rules.cooldown - now)))
          else capped
    ]

pub record PendingCode : Type 0 where
  pub target : String
  pub expires_at : ℕ
  pub resend_available_at : ℕ
  pub attempts_left : ℕ

-- Codes.pending
abbrev pub pending_of : Limits → Code → PendingCode
pending_of rules c = record {
  target = c.target;
  expires_at = c.expires_at;
  resend_available_at = c.created_at + rules.cooldown;
  attempts_left = rules.attempts - c.attempts;
}

-- Codes.Issue, of a code with this hash; `sent` is what the sender says, and `later` the clock after it.
unfoldable pub issue :
    Limits → String → String → Bool → ℕ → ℕ → CodeTable → Answer PendingCode × CodeTable
unfolding check_can_issue issue_code invalidate_live
issue rules target hash sent now later t = elim (check_can_issue rules now t) [
  | some refusal ↦ (refuse refusal, t)
  | none ↦
      let (code, t') = issue_code target hash (now + rules.ttl) now t in
      if sent
      then (answer (pending_of rules code), t')
      else (refuse not_delivered, invalidate_live later t')
]

-- The code as verifyOnce changes it, and the refusal that goes with it.
abbrev pub judged : Limits → Bool → ℕ → Code → Code × Option Refusal
judged rules matched now c =
    if matched
    then (record c { consumed_at = some now }, none)
    else if leb rules.attempts (c.attempts + 1)
    then (record c { attempts = c.attempts + 1; invalidated_at = some now }, some too_many_attempts)
    else (
      record c { attempts = c.attempts + 1 },
      some (mismatch (rules.attempts - (c.attempts + 1))),
    )

-- What the answer is once the outcome is saved, or not.
abbrev pub saved_answer : Bool → String → Option Refusal → Answer String
saved_answer false target refusal = refuse conflict
saved_answer true target none = answer target
saved_answer true target (some refusal) = refuse refusal

-- verifyOnce, once the code is read: `meanwhile` is what other requests do between the read and the save.
unfoldable pub verify_code :
    Limits → String → ℕ → (CodeTable → CodeTable) → CodeTable → ℕ → Code → Answer String × CodeTable
unfolding save_verification
verify_code rules hash now meanwhile t id c =
    if is_set c.consumed_at || is_set c.invalidated_at
    then (refuse no_pending, t)
    else if not (live now c)
    then (refuse expired, t)
    else (let (changed, refusal) = judged rules (c.hash == hash) now c in
        let (done, t') = save_verification id changed c.attempts (meanwhile t) in
        (saved_answer done c.target refusal, t'))

-- verifyOnce
unfoldable pub verify_once :
    Limits → String → ℕ → (CodeTable → CodeTable) → CodeTable → Answer String × CodeTable
unfolding verify_code
verify_once rules hash now meanwhile t = elim (latest t) [
  | none ↦ (refuse no_pending, t)
  | some (id, c) ↦ verify_code rules hash now meanwhile t id c
]

-- What other requests do to the table: they issue a code, end the codes (Cancel, and a code that was not
-- sent), or save what they made of a code that they read earlier.
pub data Change : Type 0 where
  issues : (target hash : String) → (expires now : ℕ) → Change
  ends : (now : ℕ) → Change
  saves : (id : ℕ) → (read : Code) → (hash : String) → (now : ℕ) → Change

unfoldable pub save : Limits → ℕ → Code → String → ℕ → CodeTable → Bool × CodeTable
unfolding save_verification
save rules id read hash now t =
    save_verification id (judged rules (read.hash == hash) now read).0 read.attempts t

unfoldable pub change : Limits → Change → CodeTable → CodeTable
unfolding issue_code invalidate_live save
change rules (issues target hash expires now) t = (issue_code target hash expires now t).1
change rules (ends now) t = invalidate_live now t
change rules (saves id read hash now) t = (save rules id read hash now t).1

unfoldable pub changes : Limits → List Change → CodeTable → CodeTable
unfolding change
changes rules [] t = t
changes rules (x ∷ xs) t = changes rules xs (change rules x t)

-- What happens around one round of Verify: before it, between its read and its save, and its clock.
pub record Round : Type 0 where
  pub before : List Change
  pub meanwhile : List Change
  pub now : ℕ

abbrev pub is_conflict : Answer String → Bool
is_conflict (refuse conflict) = true
is_conflict _ = false

-- The rounds of Verify that are left.
unfoldable pub verify_rounds : Limits → String → List Round → CodeTable → Answer String × CodeTable
unfolding verify_once changes
verify_rounds rules hash [] t = (refuse conflict, t)
verify_rounds rules hash (round ∷ rounds) t =
    let (result, t') =
      verify_once rules hash round.now (changes rules round.meanwhile)
        (changes rules round.before t) in
    let rest = verify_rounds rules hash rounds t' in
    if is_conflict result then rest else (result, t')

-- Cancel
abbrev pub cancel : ℕ → CodeTable → CodeTable
cancel now t = invalidate_live now t

-- Pending
unfoldable pub pending : Limits → ℕ → CodeTable → Option PendingCode
pending rules now t = elim (latest t) [
  | none ↦ none
  | some (id, c) ↦ if live now c then some (pending_of rules c) else none
]
