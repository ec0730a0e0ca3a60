-- ===== src/Identity/Codes/Later.antt =====
-- identity/account/codes.go and identity/gormstore/codes.go: what verifications and cancellations make of the
-- code that Latest returns.
use go_core.Prelude.{
  ℕ, ◌≤◌, ◌<◌, string_eq, nat_eq, ◌≡◌, refl, ◌∙◌, ◌↔◌, ◌⊎◌, inl, inr, Bool, true, false, ◌&&◌, not,
  List, [], ◌∷◌, Option, none, some, Map, lookup, insert, nat_beq, ◌==◌, ==_refl, arith, Bool-cases,
  Option-cases,
}
use go_core.Identity.Codes.Store.{
  Code, CodeTable, latest, is_open, ended, end_all, invalidate_live, save_verification,
  whole_or_nil,
}
use go_core.Identity.Codes.{Limits, judged, Change, issues, ends, saves, save, change, changes}
use go_core.Identity.Codes.Rows.{row_change, is_issue, row_quiet, row_left, judged-spends}

unfoldable first_key : Map ℕ Code → Option ℕ
first_key [] = none
first_key ((id, c) ∷ codes) = some id

first_key-insert :
    (at : ℕ) (row old : Code) (codes : Map ℕ Code)
    → lookup at codes ≡ some old
    → first_key (insert at row codes) ≡ first_key codes
unfolding first_key insert lookup
first_key-insert at row old [] found = absurd (ground arith)
first_key-insert at row old ((id, c) ∷ codes) found = ground arith

first_key-end_all : (now : ℕ) (codes : Map ℕ Code) → first_key (end_all now codes) ≡ first_key codes
unfolding first_key end_all
first_key-end_all now [] = refl
first_key-end_all now ((id, c) ∷ codes) = refl

first_key-change :
    (rules : Limits) (x : Change) (t : CodeTable)
    → is_issue x ≡ false
    → first_key (change rules x t).codes ≡ first_key t.codes
unfolding change invalidate_live save save_verification
first_key-change rules (issues target hash expires now) t quiet = absurd (ground arith)
first_key-change rules (ends now) t quiet = first_key-end_all now t.codes
first_key-change rules (saves at read hash now) t quiet = elim (Option-cases (lookup at t.codes)) [
  | inl missing ↦ ground (arith, missing)
  | inr (row, found) ↦ ground (
    arith,
    found,
    first_key-insert at
        (let (to, refusal) = judged rules (read.hash == hash) now read in
          record row {
            attempts = to.attempts;
            consumed_at = whole_or_nil to.consumed_at;
            invalidated_at = whole_or_nil to.invalidated_at;
          })
        row t.codes found,
  )
]

latest-first :
    (id : ℕ) (c : Code) (last : ℕ) (codes : Map ℕ Code)
    → latest (record { last_id = last; codes = codes }) ≡ some (id, c)
    → (first_key codes ≡ some id) × (lookup id codes ≡ some c)
unfolding first_key lookup
latest-first id c last [] found = absurd (ground arith)
latest-first id c last ((at, d) ∷ codes) found = (ground arith, ground (arith, ==_refl id))

first-latest :
    (id : ℕ) (c : Code) (last : ℕ) (codes : Map ℕ Code)
    → first_key codes ≡ some id
    → lookup id codes ≡ some c
    → latest (record { last_id = last; codes = codes }) ≡ some (id, c)
unfolding first_key lookup
first-latest id c last [] key found = absurd (ground arith)
first-latest id c last ((at, d) ∷ codes) key found = ground (arith, ==_refl id)

-- What other verifications and cancellations may have made of a code: nothing that a save looks at, or one
-- guess less at least.
unfoldable pub Later : Limits → Code → Code → Type 0
Later rules c d =
    (row_left rules d < row_left rules c) ⊎ ((is_open d ≡ is_open c) × (d.attempts ≡ c.attempts))

Later-trans : (rules : Limits) (c d e : Code) → Later rules c d → Later rules d e → Later rules c e
unfolding Later
Later-trans rules c d e (inl less) (inl more) = inl (omega arith)
Later-trans rules c d e (inl less) (inr (opened, read)) = inl (ground arith)
Later-trans rules c d e (inr (opened, read)) (inl less) = inl (ground arith)
Later-trans rules c d e (inr (opened, read)) (inr (still, again)) =
    inr (still ∙ opened, again ∙ read)

pub Later-left :
    (rules : Limits) (c d : Code) → Later rules c d → row_left rules d ≤ row_left rules c
unfolding Later
Later-left rules c d (inl less) = omega arith
Later-left rules c d (inr (opened, read)) = ground arith

ended-Later : (rules : Limits) (now : ℕ) (c : Code) → Later rules c (ended now c)
unfolding Later
ended-Later rules now c = elim (Bool-cases (is_open c)) [
  | inl opened ↦ inl (ground (arith, opened))
  | inr closed ↦ inr (ground (arith, closed), ground (arith, closed))
]

row_change-Later :
    (rules : Limits) (id : ℕ) (x : Change) (c : Code)
    → is_issue x ≡ false
    → Later rules c (row_change rules id x c)
unfolding Later row_change
row_change-Later rules id (issues target hash expires now) c quiet = ended-Later rules now c
row_change-Later rules id (ends now) c quiet = ended-Later rules now c
row_change-Later rules id (saves at read hash now) c quiet =
    elim (Bool-cases (nat_beq at id && (is_open c && nat_beq c.attempts read.attempts))) [
      | inl it ↦ inl ((judged-spends rules id at read hash now c it).0)
      | inr not_it ↦ rw not_it (inr (refl, refl))
    ]

abbrev pub quiet : List Change → Bool
quiet [] = true
quiet (x ∷ xs) = not (is_issue x) && quiet xs

changes-first :
    (rules : Limits) (xs : List Change) (t : CodeTable)
    → quiet xs ≡ true
    → first_key (changes rules xs t).codes ≡ first_key t.codes
unfolding changes
changes-first rules [] t still = refl
changes-first rules (x ∷ xs) t still =
    changes-first rules xs (change rules x t) (ground arith)
    ∙ first_key-change rules x t (ground arith)

changes-Later :
    (rules : Limits) (id : ℕ) (c : Code) (xs : List Change) (t : CodeTable)
    → quiet xs ≡ true
    → lookup id t.codes ≡ some c
    → (d : Code) × ((lookup id (changes rules xs t).codes ≡ some d) × Later rules c d)
unfolding changes Later
changes-Later rules id c [] t still found = (c, (found, inr (refl, refl)))
changes-Later rules id c (x ∷ xs) t still found =
    let (d, (there, later)) =
      changes-Later rules id (row_change rules id x c) xs (change rules x t) (ground arith)
        (row_quiet rules id x t (ground arith) ∙ rw found refl) in
    (
      d,
      (
        there,
        Later-trans rules c (row_change rules id x c) d
            (row_change-Later rules id x c (ground arith)) later,
      ),
    )

pub latest-Later :
    (rules : Limits) (id : ℕ) (c : Code) (xs : List Change) (t : CodeTable)
    → quiet xs ≡ true
    → latest t ≡ some (id, c)
    → (d : Code) × ((latest (changes rules xs t) ≡ some (id, d))
        × ((lookup id (changes rules xs t).codes ≡ some d) × Later rules c d))
latest-Later rules id c xs t still newest =
    let (key, found) = latest-first id c t.last_id t.codes newest in
    let (d, (there, later)) = changes-Later rules id c xs t still found in
    let u = changes rules xs t in
    (
      d,
      (
        first-latest id d u.last_id u.codes (changes-first rules xs t still ∙ key) there,
        (there, later),
      ),
    )

latest-none :
    (rules : Limits) (xs : List Change) (t : CodeTable)
    → quiet xs ≡ true
    → latest t ≡ none
    → latest (changes rules xs t) ≡ none
unfolding first_key
latest-none rules xs t still missing =
    let u = changes rules xs t in
    (none_iff u.last_id u.codes).1
      (changes-first rules xs t still ∙ (none_iff t.last_id t.codes).0 missing)
  where
    none_iff :
        (last : ℕ) (codes : Map ℕ Code)
        → (latest (record { last_id = last; codes = codes }) ≡ none) ↔ (first_key codes ≡ none)
    none_iff last [] = (λ h. refl, λ h. refl)
    none_iff last ((id, c) ∷ codes) = (λ h. absurd (ground arith), λ h. absurd (ground arith))

abbrev pub latest_left : Limits → CodeTable → ℕ
latest_left rules t = left_of (latest t)
  where
    left_of : Option (ℕ × Code) → ℕ
    left_of none = 0
    left_of (some (id, c)) = row_left rules c

pub changes-latest_left :
    (rules : Limits) (xs : List Change) (t : CodeTable)
    → quiet xs ≡ true
    → latest_left rules (changes rules xs t) ≤ latest_left rules t
changes-latest_left rules xs t still = elim (Option-cases (latest t)) [
  | inl missing ↦ ground (arith, missing, latest-none rules xs t still missing)
  | inr ((id, c), newest) ↦
      let (d, (there, (row, later))) = latest-Later rules id c xs t still newest in
      let less = Later-left rules c d later in rw there (rw newest less)
]
