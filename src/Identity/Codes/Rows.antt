-- ===== src/Identity/Codes/Rows.antt =====
-- identity/account/codes.go and identity/gormstore/codes.go: what a change makes of the row of one code.
use go_core.Prelude.{
  ℕ, ◌-◌, ◌<◌, max, String, string_eq, nat_eq, ◌≡◌, refl, inl, inr, Bool, true, false, ◌&&◌, [],
  ◌∷◌, Option, none, some, Map, lookup, lookup-insert, nat_beq, nat_beq_iff, if◌then◌else◌, ◌==◌,
  arith, Option-cases,
}
use go_core.Identity.Codes.Store.{
  Code, CodeTable, is_open, ended, end_all, invalidate_live, save_verification, whole_or_nil,
}
use go_core.Identity.Codes.{Limits, judged, Change, issues, ends, saves, save, change}

-- What one change makes of the row of a code that is there.
unfoldable pub row_change : Limits → ℕ → Change → Code → Code
row_change rules id (issues target hash expires now) c = ended now c
row_change rules id (ends now) c = ended now c
row_change rules id (saves at read hash now) c =
    if nat_beq at id && (is_open c && nat_beq c.attempts read.attempts)
    then (let (to, refusal) = judged rules (read.hash == hash) now read in
        record c {
          attempts = to.attempts;
          consumed_at = whole_or_nil to.consumed_at;
          invalidated_at = whole_or_nil to.invalidated_at;
        })
    else c

abbrev pub mapped : (Code → Code) → Option Code → Option Code
mapped f none = none
mapped f (some c) = some (f c)

pub lookup-end_all :
    (id now : ℕ) (codes : Map ℕ Code)
    → lookup id (end_all now codes) ≡ mapped (ended now) (lookup id codes)
unfolding lookup end_all
lookup-end_all id now [] = refl
lookup-end_all id now ((at, c) ∷ codes) = ground (arith, lookup-end_all id now codes)

pub row_save :
    (rules : Limits) (id at : ℕ) (read : Code) (hash : String) (now : ℕ) (t : CodeTable)
    → lookup id (save rules at read hash now t).1.codes
      ≡ mapped (row_change rules id (saves at read hash now)) (lookup id t.codes)
unfolding save save_verification row_change
row_save rules id at read hash now t = elim (Option-cases (lookup at t.codes)) [
  | inl missing ↦ ground (arith, nat_beq_iff at id, missing)
  | inr (row, found) ↦ ground (
    arith,
    nat_beq_iff at id,
    found,
    lookup-insert at id
        (let (to, refusal) = judged rules (read.hash == hash) now read in
          record row {
            attempts = to.attempts;
            consumed_at = whole_or_nil to.consumed_at;
            invalidated_at = whole_or_nil to.invalidated_at;
          })
        t.codes,
  )
]

-- A change that issues no code.
abbrev pub is_issue : Change → Bool
is_issue (issues target hash expires now) = true
is_issue (ends now) = false
is_issue (saves id read hash now) = false

pub row_quiet :
    (rules : Limits) (id : ℕ) (x : Change) (t : CodeTable)
    → is_issue x ≡ false
    → lookup id (change rules x t).codes ≡ mapped (row_change rules id x) (lookup id t.codes)
unfolding change invalidate_live row_change
row_quiet rules id (issues target hash expires now) t quiet = absurd (ground arith)
row_quiet rules id (ends now) t quiet = lookup-end_all id now t.codes
row_quiet rules id (saves at read hash now) t quiet = row_save rules id at read hash now t

-- The saves that a code has left: the guesses, one at least while it is open; and the most it will have.
abbrev pub row_left : Limits → Code → ℕ
row_left rules c = if is_open c then max (rules.attempts - c.attempts) 1 else 0

abbrev pub left : Limits → Option Code → ℕ
left rules none = max rules.attempts 1
left rules (some c) = row_left rules c

pub judged-spends :
    (rules : Limits) (id at : ℕ) (read : Code) (hash : String) (now : ℕ) (c : Code)
    → (nat_beq at id && (is_open c && nat_beq c.attempts read.attempts)) ≡ true
    → (row_left rules (row_change rules id (saves at read hash now) c) < row_left rules c)
      × ((read.hash == hash) ≡ true
          → row_left rules (row_change rules id (saves at read hash now) c) ≡ 0)
unfolding row_change
judged-spends rules id at read hash now c it = (ground arith, λ h. ground arith)
