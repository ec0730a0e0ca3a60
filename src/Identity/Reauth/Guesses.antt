-- ===== src/Identity/Reauth/Guesses.antt =====
-- identity/account/reauth.go: how many passwords are checked while a lock lasts.
use go_core.Prelude.{
  ℕ, suc, ◌+◌, ◌*◌, ◌-◌, ◌≤◌, ◌<◌, max, nat_beq, nat_beq_iff, ◌≡◌, refl, ap, sym, ◌⊎◌, inl, inr,
  Bool, true, false, ◌&&◌, List, [], ◌∷◌, Option, none, some, leb, ltb, if◌then◌else◌, arith,
  Bool-cases,
}
use mathlib.Core.Path.{subst}
use go_core.Event.Tables.{whole}
use go_core.Identity.Codes.Store.{whole_or_nil}
use go_core.Identity.SignIn.{Lock}
use go_core.Identity.Reauth.{
  Attempts, is_locked, stored, written, same_time, create, save, next, count_attempt,
  clear_attempts,
}

-- A write of some request with what the request had read, at any time before: it counts an attempt, by its
-- clock, or its password was right and it empties the counter.
pub data Write : Type 0 where
  attempt : (read : Option Attempts) (now : ℕ) → Write
  clear : (read : Option Attempts) → Write

abbrev pub applied : Lock → Write → Option Attempts → Bool × Option Attempts
applied l (attempt read now) row = count_attempt l now read row
applied l (clear read) row = clear_attempts read row

-- The attempts that are counted, each before its password is checked, and the writes that emptied the
-- counter.
unfoldable pub totals : Lock → List Write → Option Attempts → ℕ × ℕ
totals l [] row = (0, 0)
totals l (w ∷ ws) row =
    let (counted, cleared) = totals l ws (applied l w row).1 in
    if (applied l w row).0
    then elim w [ attempt _ _ ↦ (suc counted, cleared) | clear _ ↦ (counted, suc cleared) ]
    else (counted, cleared)

abbrev pub within : ℕ → ℕ → List Write → Bool
within from until [] = true
within from until (attempt read now ∷ ws) = leb from now && ltb now until && within from until ws
within from until (clear read ∷ ws) = within from until ws

-- The attempts that the row has left before `until`.
abbrev left : Lock → ℕ → Option Attempts → ℕ
left l until none = max l.after 1
left l until (some a) = elim a.locked_until [
  | none ↦ max (l.after - a.failures) 1
  | some end ↦ if leb until end then 0 else max l.after 1
]

whole_mono : (a b : ℕ) → a ≤ b → whole a ≤ whole b
unfolding whole
whole_mono a b less = omega arith

whole_le : (a : ℕ) → whole a ≤ a
unfolding whole
whole_le a = omega arith

-- An attempt that is counted leaves less.
next-left :
    (l : Lock) (from now failures : ℕ) (end : Option ℕ)
    → from ≤ now
    → now < whole (from + l.lock_for)
    → is_locked now (record { failures = failures; locked_until = end }) ≡ false
    → left l
        (whole (from + l.lock_for))
        (some (written (next l now (record { failures = failures; locked_until = end }))))
      < left l
          (whole (from + l.lock_for))
          (some (record { failures = failures; locked_until = whole_or_nil end }))
unfolding written
next-left l from now failures none late early unlocked =
    let longer = whole_mono (from + l.lock_for) (now + l.lock_for) (omega arith) in
    elim (Bool-cases (leb l.after (suc failures))) [
      | inl full ↦ ground (arith, full, longer)
      | inr more ↦ ground (arith, more)
    ]
next-left l from now failures (some end) late early unlocked =
    let longer = whole_mono (from + l.lock_for) (now + l.lock_for) (omega arith) in
    let ended = whole_le end in
    elim (Bool-cases (leb l.after 1)) [
      | inl full ↦ ground (arith, full, longer, ended)
      | inr more ↦ ground (arith, more, ended)
    ]

same_time-eq : (a b : Option ℕ) → same_time a b ≡ true → a ≡ b
same_time-eq none none same = refl
same_time-eq (some a) (some b) same = ap some ((nat_beq_iff a b).0 same)
same_time-eq none (some b) same = absurd (ground arith)
same_time-eq (some a) none same = absurd (ground arith)

save-left :
    (l : Lock) (from now : ℕ) (read row : Attempts)
    → from ≤ now
    → now < whole (from + l.lock_for)
    → is_locked now read ≡ false
    → (nat_beq row.failures read.failures
        && same_time row.locked_until (whole_or_nil read.locked_until))
      ≡ true
    → left l (whole (from + l.lock_for)) (some (written (next l now read)))
      < left l (whole (from + l.lock_for)) (some row)
save-left l from now read row late early unlocked same =
    let until = whole (from + l.lock_for) in
    let failed = (nat_beq_iff row.failures read.failures).0 (ground arith) in
    let ends = same_time-eq row.locked_until (whole_or_nil read.locked_until) (ground arith) in
    let less = next-left l from now read.failures read.locked_until late early unlocked in
    subst
      (λ f.
        left l until (some (written (next l now read)))
        < left l until (some (record { failures = f; locked_until = row.locked_until })))
      (sym failed)
      (subst
        (λ e.
          left l until (some (written (next l now read)))
          < left l until (some (record { failures = read.failures; locked_until = e })))
        (sym ends) less)

-- A round counts nothing and changes nothing, or counts an attempt and leaves less.
count_attempt-left :
    (l : Lock) (from now : ℕ) (read row : Option Attempts)
    → from ≤ now
    → now < whole (from + l.lock_for)
    → (((count_attempt l now read row).0 ≡ false) × ((count_attempt l now read row).1 ≡ row))
      ⊎ (((count_attempt l now read row).0 ≡ true)
          × (left l (whole (from + l.lock_for)) (count_attempt l now read row).1
              < left l (whole (from + l.lock_for)) row))
unfolding count_attempt create save stored written
count_attempt-left l from now none none late early =
    let less = next-left l from now 0 none late early refl in inr (refl, omega arith)
count_attempt-left l from now none (some row) late early = inl (refl, refl)
count_attempt-left l from now (some read) none late early = inl (ground arith, ground arith)
count_attempt-left l from now (some read) (some row) late early =
    elim (Bool-cases (is_locked now read)) [
      | inl held ↦ inl (ground (arith, held), ground (arith, held))
      | inr free ↦
          elim (Bool-cases (
            nat_beq row.failures read.failures
            && same_time row.locked_until (whole_or_nil read.locked_until))) [
              | inr other ↦ inl (ground (arith, free, other), ground (arith, free, other))
              | inl same ↦
                  let less = save-left l from now read row late early free same in
                  let to : (count_attempt l now (some read) (some row)).1
                      ≡ some (written (next l now read)) =
                    ground (arith, free, same) in
                  inr (ground (arith, free, same), rw to less)
            ]
    ]

clear-left :
    (l : Lock) (until : ℕ) (read row : Option Attempts)
    → 0 < l.after
    → (clear_attempts read row).0 ≡ true
    → left l until (clear_attempts read row).1 ≡ l.after
unfolding clear_attempts save written
clear-left l until read none positive done = absurd (ground arith)
clear-left l until read (some row) positive done = ground arith

kept_row :
    (read row : Option Attempts)
    → (clear_attempts read row).0 ≡ false
    → (clear_attempts read row).1 ≡ row
unfolding clear_attempts save
kept_row read none refused = refl
kept_row read (some row) refused = ground arith

totals-left :
    (l : Lock) (from : ℕ) (ws : List Write) (row : Option Attempts)
    → 0 < l.after
    → within from (whole (from + l.lock_for)) ws ≡ true
    → (totals l ws row).0 ≤ left l (whole (from + l.lock_for)) row + (totals l ws row).1 * l.after
unfolding totals
totals-left l from [] row positive times = omega arith
totals-left l from (attempt read now ∷ ws) row positive times =
    let after = (count_attempt l now read row).1 in
    let rest = totals-left l from ws after positive (ground arith) in
    elim (count_attempt-left l from now read row (ground arith) (ground arith)) [
      | inl (refused, same) ↦
          let kept = ap (left l (whole (from + l.lock_for))) same in rw refused (omega arith)
      | inr (done, less) ↦ rw done (omega arith)
    ]
totals-left l from (clear read ∷ ws) row positive times =
    let rest = totals-left l from ws (clear_attempts read row).1 positive (ground arith) in
    elim (Bool-cases (clear_attempts read row).0) [
      | inl done ↦
          let full = clear-left l (whole (from + l.lock_for)) read row positive done in
          rw done (omega arith)
      | inr refused ↦
          let kept = ap (left l (whole (from + l.lock_for))) (kept_row read row refused) in
          rw refused (omega arith)
    ]

left_most : (l : Lock) (until : ℕ) (row : Option Attempts) → left l until row ≤ max l.after 1
left_most l until none = omega arith
left_most l until (some row) = ground arith

-- While the clocks of all the requests lie between one time and For after it (in whole seconds), the
-- attempts that are counted, each before its password is checked, are at most After, and After more for
-- each time that a request whose password was right empties the counter; whatever the requests have read
-- and in whatever order they write.
pub attempts_bounded :
    (l : Lock) (from : ℕ) (ws : List Write) (row : Option Attempts)
    → 0 < l.after
    → within from (whole (from + l.lock_for)) ws ≡ true
    → (totals l ws row).0 ≤ l.after + (totals l ws row).1 * l.after
attempts_bounded l from ws row positive times =
    let fewer = totals-left l from ws row positive times in
    let most = left_most l (whole (from + l.lock_for)) row in omega (arith, fewer, most)
