-- ===== src/Identity/Codes/Issued.antt =====
-- identity/account/codes.go: what Issue leaves, as Pending sees it.
use go_core.Prelude.{
  ℕ, ◌+◌, String, ◌≡◌, refl, Bool, true, false, none, some, inl, inr, Option-cases, ltb,
  if◌then◌else◌, arith,
}
use go_core.Identity.Codes.Store.{Code, CodeTable, latest, end_all, issue_code, invalidate_live}
use go_core.Identity.Codes.{
  Limits, Refusal, Answer, answer, refuse, resend_too_soon, too_many_requests, mismatch, no_pending,
  expired, too_many_attempts, not_delivered, conflict, PendingCode, pending_of, check_can_issue,
  issue, pending,
}

-- A pending code is what Pending says until it expires; after a code that was not delivered none is
-- pending; every other refusal left the table as it was.
unfoldable pub Issued : Limits → CodeTable → ℕ → CodeTable → Answer PendingCode → Type 0
Issued rules t at u (answer p) = pending rules at u ≡ (if ltb at p.expires_at then some p else none)
Issued rules t at u (refuse not_delivered) = pending rules at u ≡ none
Issued rules t at u (refuse other) = u ≡ t

check_refused :
    (rules : Limits) (now at : ℕ) (t : CodeTable) (x : Refusal)
    → check_can_issue rules now t ≡ some x
    → Issued rules t at t (refuse x)
unfolding check_can_issue Issued
check_refused rules now at t (resend_too_soon n) refused = refl
check_refused rules now at t (too_many_requests n) refused = refl
check_refused rules now at t (mismatch n) refused = refl
check_refused rules now at t no_pending refused = refl
check_refused rules now at t expired refused = refl
check_refused rules now at t too_many_attempts refused = refl
check_refused rules now at t conflict refused = refl
check_refused rules now at t not_delivered refused = elim (Option-cases (latest t)) [
  | inl missing ↦ absurd (ground (arith, missing))
  | inr ((id, c), newest) ↦ absurd (ground (arith, newest))
]

module _ (rules : Limits) (target hash : String) (now later : ℕ) (t : CodeTable) where
  abbrev stored : Code × CodeTable
  stored = issue_code target hash (now + rules.ttl) now t

  issue_refused :
      (sent : Bool) (x : Refusal)
      → check_can_issue rules now t ≡ some x
      → issue rules target hash sent now later t ≡ (refuse x, t)
  unfolding issue
  issue_refused sent x refused = ground (arith, refused)

  issue_sent :
      check_can_issue rules now t ≡ none
      → issue rules target hash true now later t ≡ (answer (pending_of rules stored.0), stored.1)
  unfolding issue
  issue_sent allowed = ground (arith, allowed)

  issue_unsent :
      check_can_issue rules now t ≡ none
      → issue rules target hash false now later t
        ≡ (refuse not_delivered, invalidate_live later stored.1)
  unfolding issue
  issue_unsent allowed = ground (arith, allowed)

issue_allowed :
    (rules : Limits) (target hash : String) (sent : Bool) (now later at : ℕ) (t : CodeTable)
    → check_can_issue rules now t ≡ none
    → Issued rules t at
        (issue rules target hash sent now later t).1
        (issue rules target hash sent now later t).0
unfolding Issued issue_code invalidate_live end_all pending
issue_allowed rules target hash true now later at t allowed =
    rw (issue_sent rules target hash now later t allowed) refl
issue_allowed rules target hash false now later at t allowed =
    rw (issue_unsent rules target hash now later t allowed) refl

-- When Issue answers with a pending code, that is what Pending says at any time until the code expires, and
-- then nothing; when the code was not delivered, Pending says nothing at any time; and any other refusal of
-- Issue leaves the table as it was.
pub issue-Issued :
    (rules : Limits) (target hash : String) (sent : Bool) (now later at : ℕ) (t : CodeTable)
    → Issued rules t at
        (issue rules target hash sent now later t).1
        (issue rules target hash sent now later t).0
issue-Issued rules target hash sent now later at t =
    elim (Option-cases (check_can_issue rules now t)) [
      | inl allowed ↦ issue_allowed rules target hash sent now later at t allowed
      | inr (x, refused) ↦
          rw (issue_refused rules target hash now later t sent x refused)
            (check_refused rules now at t x refused)
    ]
