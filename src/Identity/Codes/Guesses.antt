-- ===== src/Identity/Codes/Guesses.antt =====
-- identity/account/codes.go and identity/gormstore/codes.go: what the saves of verifications, in any order
-- and of any read, do to one code.
use go_core.Prelude.{
  ℕ, suc, ◌≤◌, ◌<◌, String, string_eq, nat_eq, ◌≡◌, refl, ◌⊎◌, inl, inr, Bool, true, false, ◌&&◌,
  List, [], ◌∷◌, Option, none, some, lookup, nat_beq, nat_beq_iff, if◌then◌else◌, ◌==◌, arith,
  Bool-cases, Option-cases,
}
use go_core.Identity.Codes.Store.{
  Code, CodeTable, is_open, ended, end_all, issue_code, invalidate_live, save_verification,
}
use go_core.Identity.Codes.{Limits, Change, issues, ends, saves, save, change}
use go_core.Identity.Codes.Rows.{
  row_change, mapped, lookup-end_all, row_quiet, row_left, left, judged-spends,
}

-- Whether a change is a save of this code, and one that is made.
abbrev pub is_saved : Limits → ℕ → Change → CodeTable → Bool
is_saved rules id (issues target hash expires now) t = false
is_saved rules id (ends now) t = false
is_saved rules id (saves at read hash now) t = nat_beq at id && (save rules at read hash now t).0

-- And whether the guess is right.
abbrev pub is_right : Change → Bool
is_right (issues target hash expires now) = false
is_right (ends now) = false
is_right (saves at read hash now) = read.hash == hash

-- The saves of a code that are made, and how many of them are of a right guess.
unfoldable pub saved : Limits → ℕ → List Change → CodeTable → ℕ × ℕ
unfolding save change
saved rules id [] t = (0, 0)
saved rules id (x ∷ xs) t =
    let (all, right) = saved rules id xs (change rules x t) in
    if is_saved rules id x t
    then (suc all, if is_right x then suc right else right)
    else (all, right)

-- The table gave out this id before, or has no row of it.
unfoldable pub Known : ℕ → CodeTable → Type 0
Known id t = (lookup id t.codes ≡ none) ⊎ (id ≤ t.last_id)

change-last_id :
    (rules : Limits) (x : Change) (t : CodeTable) → t.last_id ≤ (change rules x t).last_id
unfolding change issue_code invalidate_live save save_verification
change-last_id rules (issues target hash expires now) t = omega arith
change-last_id rules (ends now) t = omega arith
change-last_id rules (saves at read hash now) t = ground arith

issue-Known :
    (target hash : String) (expires now id : ℕ) (t : CodeTable)
    → Known id t
    → Known id (issue_code target hash expires now t).1
unfolding Known issue_code lookup
issue-Known target hash expires now id t (inr old) = inr (omega arith)
issue-Known target hash expires now id t (inl missing) =
    elim (Bool-cases (nat_beq (suc t.last_id) id)) [
      | inl new ↦ inr (ground (arith, nat_beq_iff (suc t.last_id) id))
      | inr other ↦ inl (ground (arith, lookup-end_all id now t.codes))
    ]

change-Known :
    (rules : Limits) (id : ℕ) (x : Change) (t : CodeTable)
    → Known id t
    → Known id (change rules x t)
unfolding Known change
change-Known rules id (issues target hash expires now) t known =
    issue-Known target hash expires now id t known
change-Known rules id x t (inr old) = inr (ground (arith, change-last_id rules x t))
change-Known rules id (ends now) t (inl missing) =
    inl (ground (arith, row_quiet rules id (ends now) t refl))
change-Known rules id (saves at read hash now) t (inl missing) =
    inl (ground (arith, row_quiet rules id (saves at read hash now) t refl))

left-mapped :
    (rules : Limits) (f : Code → Code) (o : Option Code)
    → ((c : Code) → row_left rules (f c) ≤ row_left rules c)
    → left rules (mapped f o) ≤ left rules o
left-mapped rules f none less = omega arith
left-mapped rules f (some c) less = less c

ended-left : (rules : Limits) (now : ℕ) (c : Code) → row_left rules (ended now c) ≤ row_left rules c
ended-left rules now c = ground arith

save-left :
    (rules : Limits) (id at : ℕ) (read : Code) (hash : String) (now : ℕ) (c : Code)
    → row_left rules (row_change rules id (saves at read hash now) c) ≤ row_left rules c
unfolding row_change
save-left rules id at read hash now c =
    elim (Bool-cases (nat_beq at id && (is_open c && nat_beq c.attempts read.attempts))) [
      | inl it ↦
          let (less, rest) = judged-spends rules id at read hash now c it in ground (arith, less)
      | inr not_it ↦ ground (arith, not_it)
    ]

-- A save that is made uses up what is left; any other change gives nothing back.
change-left :
    (rules : Limits) (id : ℕ) (x : Change) (t : CodeTable)
    → Known id t
    → left rules (lookup id (change rules x t).codes) ≤ left rules (lookup id t.codes)
unfolding Known change issue_code lookup row_change
change-left rules id (issues target hash expires now) t known =
    elim (Bool-cases (nat_beq (suc t.last_id) id)) [
      | inl new ↦ ground (arith, nat_beq_iff (suc t.last_id) id)
      | inr other ↦
          let less : left rules (lookup id (end_all now t.codes)) ≤ left rules (lookup id t.codes) =
            rw (lookup-end_all id now t.codes)
              (left-mapped rules (ended now) (lookup id t.codes) (ended-left rules now)) in
          ground (arith, other, less)
    ]
change-left rules id (ends now) t known =
    rw (row_quiet rules id (ends now) t refl)
      (left-mapped rules (ended now) (lookup id t.codes) (ended-left rules now))
change-left rules id (saves at read hash now) t known =
    rw (row_quiet rules id (saves at read hash now) t refl) (
      left-mapped rules (row_change rules id (saves at read hash now)) (lookup id t.codes)
        (save-left rules id at read hash now))

saved-spends :
    (rules : Limits) (id : ℕ) (x : Change) (t : CodeTable)
    → is_saved rules id x t ≡ true
    → (left rules (lookup id (change rules x t).codes) < left rules (lookup id t.codes))
      × (is_right x ≡ true → left rules (lookup id (change rules x t).codes) ≡ 0)
unfolding change save save_verification
saved-spends rules id (issues target hash expires now) t it = absurd (ground arith)
saved-spends rules id (ends now) t it = absurd (ground arith)
saved-spends rules id (saves at read hash now) t it = elim (Option-cases (lookup id t.codes)) [
  | inl missing ↦ absurd (ground (arith, missing, nat_beq_iff at id))
  | inr (row, found) ↦
      rw (row_quiet rules id (saves at read hash now) t refl)
        (rw found (judged-spends rules id at read hash now row (ground (arith, nat_beq_iff at id))))
]

-- Whatever codes are issued and ended, and whatever verifications are saved, in any order and each with
-- what it read at any time before: the guesses that are saved on one code are at most as many as it has
-- left (a code that is not issued yet has the limit of attempts, an open one what is missing to the limit
-- and one at least, any other none), and at most one of them is right.
pub guesses_bounded :
    (rules : Limits) (id : ℕ) (xs : List Change) (t : CodeTable)
    → Known id t
    → ((saved rules id xs t).0 ≤ left rules (lookup id t.codes))
      × (((saved rules id xs t).1 ≤ (saved rules id xs t).0) × ((saved rules id xs t).1 ≤ 1))
unfolding saved
guesses_bounded rules id [] t known = (omega arith, (omega arith, omega arith))
guesses_bounded rules id (x ∷ xs) t known =
    let (rest, (fewer, once)) =
      guesses_bounded rules id xs (change rules x t) (change-Known rules id x t known) in
    elim (Bool-cases (is_saved rules id x t)) [
      | inr other ↦
          let less = change-left rules id x t known in rw other (omega arith, (fewer, once))
      | inl it ↦ spent it rest fewer once
    ]
  where
    spent :
        is_saved rules id x t ≡ true
        → (saved rules id xs (change rules x t)).0 ≤ left rules (lookup id (change rules x t).codes)
        → (saved rules id xs (change rules x t)).1 ≤ (saved rules id xs (change rules x t)).0
        → (saved rules id xs (change rules x t)).1 ≤ 1
        → ((saved rules id (x ∷ xs) t).0 ≤ left rules (lookup id t.codes))
          × (((saved rules id (x ∷ xs) t).1 ≤ (saved rules id (x ∷ xs) t).0)
              × ((saved rules id (x ∷ xs) t).1 ≤ 1))
    spent it rest fewer once =
        let (less, closed) = saved-spends rules id x t it in
        rw it (elim (Bool-cases (is_right x)) [
          | inl hit ↦ let none_left = closed hit in rw hit (omega arith, (omega arith, omega arith))
          | inr miss ↦ rw miss (omega arith, (omega arith, once))
        ])
