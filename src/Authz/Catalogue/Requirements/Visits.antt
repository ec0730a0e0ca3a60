-- ===== src/Authz/Catalogue/Requirements/Visits.antt =====
-- authz/catalogue.go: what a visit of the search keeps, and that it ends.
use go_core.Prelude.{
  ℕ, zero, suc, ◌≤◌, ◌<◌, String, string_eq, ◌≡◌, refl, sym, ap, ◌∙◌, inl, inr, Bool, true, false,
  not, List, [], ◌∷◌, Option, none, some, Map, lookup, lookup-insert, lookup-mem, length,
  if◌then◌else◌, ◌==◌, ==_refl, arith, Bool-cases, Option-cases,
}
use mathlib.Core.Path.{subst}
use go_core.Prelude.Dominance.{count_if, count_if_mono, count_if_strict}
use go_core.Prelude.Counting.{count_if-le-length}
use go_core.Authz.Types.{Permission}
use go_core.Authz.Catalogue.Requirements.{
  requires_of, Mark, visiting, visited, Search, mark, report, scan, leave, visit, visit_all,
}

abbrev pub is_visiting : Option Mark → Bool
is_visiting (some visiting) = true
is_visiting _ = false

abbrev pub is_marked : Option Mark → Bool
is_marked none = false
is_marked (some m) = true

abbrev pub mark_of : String → Search → Option Mark
mark_of v s = lookup v s.marks

-- No mark is lost, and what is being visited was so before.
unfoldable pub Kept : Search → Search → Type 0
Kept s t =
    (v : String)
    → (is_visiting (mark_of v t) ≡ true → is_visiting (mark_of v s) ≡ true)
      × (is_marked (mark_of v s) ≡ true → is_marked (mark_of v t) ≡ true)

pub Kept-refl : (s : Search) → Kept s s
unfolding Kept
Kept-refl s v = (λ h. h, λ h. h)

pub Kept-trans : (s t u : Search) → Kept s t → Kept t u → Kept s u
unfolding Kept
Kept-trans s t u first second v =
    (λ h. (first v).0 ((second v).0 h), λ h. (second v).1 ((first v).1 h))

abbrev pub Keeps : (String → Search → Option Search) → Type 0
Keeps step = (r : String) → (s t : Search) → step r s ≡ some t → Kept s t

-- What one round of `scan` did.
pub data Scanned (step : String → Search → Option Search) (id r : String) (rs : List String)
    (s t : Search) : Type 0 where
  met :
      mark_of r s ≡ some visiting
      → scan step id rs (report id r s) ≡ some t
      → Scanned step id r rs s t
  passed : mark_of r s ≡ some visited → scan step id rs s ≡ some t → Scanned step id r rs s t
  entered :
      (u : Search)
      → mark_of r s ≡ none
      → step r s ≡ some u
      → scan step id rs u ≡ some t
      → Scanned step id r rs s t

module _ (step : String → Search → Option Search) (id : String) where
  pub scan-nil : (s t : Search) → scan step id [] s ≡ some t → s ≡ t
  unfolding scan
  scan-nil s t ends = ap (λ o. elim o [ none ↦ s | some u ↦ u ]) ends

  pub scan-cons :
      (r : String) (rs : List String) (s t : Search)
      → scan step id (r ∷ rs) s ≡ some t
      → Scanned step id r rs s t
  unfolding scan
  scan-cons r rs s t ends = elim (Option-cases (mark_of r s)) [
    | inr (visiting, now) ↦ met now (ground (arith, now))
    | inr (visited, before) ↦ passed before (ground (arith, before))
    | inl unseen ↦ elim (Option-cases (step r s)) [
      | inl stuck ↦ absurd (ground (arith, unseen, stuck))
      | inr (u, stepped) ↦ entered u unseen stepped (ground (arith, unseen, stepped))
    ]
  ]

  pub scan-Kept :
      (rs : List String) (s t : Search) → Keeps step → scan step id rs s ≡ some t → Kept s t
  unfolding Kept
  scan-Kept [] s t keeps ends = subst (Kept s) (scan-nil s t ends) (Kept-refl s)
  scan-Kept (r ∷ rs) s t keeps ends = elim (scan-cons r rs s t ends) [
    | met now rest ↦
        Kept-trans s (report id r s) t (Kept-refl s) (scan-Kept rs (report id r s) t keeps rest)
    | passed before rest ↦ scan-Kept rs s t keeps rest
    | entered u unseen stepped rest ↦
        Kept-trans s u t (keeps r s u stepped) (scan-Kept rs u t keeps rest)
  ]

pub mark_of-mark :
    (m : Mark) (id v : String) (s : Search)
    → mark_of v (mark m id s) ≡ (if id == v then some m else mark_of v s)
mark_of-mark m id v s = lookup-insert id v m s.marks

module _ (perms : Map String Permission) where
  pub visit-inv :
      (fuel : ℕ) (id : String) (s t : Search)
      → visit perms (suc fuel) id s ≡ some t
      → (u : Search) × (scan (visit perms fuel) id (requires_of perms id) (mark visiting id s)
          ≡ some u)
        × (mark visited id u ≡ t)
  unfolding visit
  visit-inv fuel id s t ends =
      elim (Option-cases (scan (visit perms fuel) id (requires_of perms id) (mark visiting id s))) [
        | inl stuck ↦ absurd (ground (arith, stuck))
        | inr (u, scanned) ↦ (
          u,
          scanned,
          ap (λ o. elim o [ none ↦ s | some x ↦ x ]) (ap (leave id) (sym scanned) ∙ ends),
        )
      ]

  pub visit-zero : (id : String) (s t : Search) → visit perms 0 id s ≡ some t → ⊥
  unfolding visit
  visit-zero id s t ends = ground arith

  pub visit-Kept : (fuel : ℕ) → Keeps (visit perms fuel)
  unfolding Kept
  visit-Kept zero id s t ends = absurd (visit-zero id s t ends)
  visit-Kept (suc fuel) id s t ends =
      let (u, scanned, left) = visit-inv fuel id s t ends in
      let kept =
        scan-Kept (visit perms fuel) id (requires_of perms id) (mark visiting id s) u
          (visit-Kept fuel) scanned in
      subst (Kept s) left (between u kept)
    where
      between : (u : Search) → Kept (mark visiting id s) u → Kept s (mark visited id u)
      between u kept v =
          let (calm, marked) = kept v in
          let inner = mark_of-mark visiting id v s in
          let outer = mark_of-mark visited id v u in
          (
            λ h. elim (Bool-cases (id == v)) [
              | inl same ↦ absurd (ground (arith, outer, same))
              | inr other ↦ ground (arith, inner, outer, other, calm)
            ],
            λ h. elim (Bool-cases (id == v)) [
              | inl same ↦ ground (arith, outer, same)
              | inr other ↦ ground (arith, inner, outer, other, marked)
            ],
          )

  -- The permissions that have no mark yet.
  abbrev pub unmarked : Search → ℕ
  unmarked s = count_if (λ entry. not (is_marked (mark_of entry.0 s))) perms

  pub Kept-unmarked : (s t : Search) → Kept s t → unmarked t ≤ unmarked s
  unfolding Kept
  Kept-unmarked s t kept =
      count_if_mono (λ entry. not (is_marked (mark_of entry.0 t)))
        (λ entry. not (is_marked (mark_of entry.0 s))) perms
        (λ entry m h. ground (arith, (kept entry.0).1))

  mark-unmarked :
      (id : String) (p : Permission) (s : Search)
      → lookup id perms ≡ some p
      → mark_of id s ≡ none
      → unmarked (mark visiting id s) < unmarked s
  mark-unmarked id p s there unseen =
      count_if_strict (λ entry. not (is_marked (mark_of entry.0 (mark visiting id s))))
        (λ entry. not (is_marked (mark_of entry.0 s))) perms
        (λ entry m h. ground (arith, mark_of-mark visiting id entry.0 s))
        (lookup-mem id perms there) (ground (arith, mark_of-mark visiting id id s, ==_refl id))
        (ground (arith, unseen))

  scan_total :
      (fuel : ℕ) (id : String) (rs : List String) (s : Search)
      → ((r : String) (u : Search)
          → mark_of r u ≡ none
          → unmarked u < fuel
          → (t : Search) × (visit perms fuel r u ≡ some t))
      → unmarked s < fuel
      → (t : Search) × (scan (visit perms fuel) id rs s ≡ some t)
  unfolding scan
  scan_total fuel id [] s total enough = (s, refl)
  scan_total fuel id (r ∷ rs) s total enough = elim (Option-cases (mark_of r s)) [
    | inr (visiting, now) ↦
        let (t, ends) = scan_total fuel id rs (report id r s) total enough in
        (t, ground (arith, now, ends))
    | inr (visited, before) ↦
        let (t, ends) = scan_total fuel id rs s total enough in (t, ground (arith, before, ends))
    | inl unseen ↦
        let (u, stepped) = total r s unseen enough in
        let fewer = Kept-unmarked s u (visit-Kept fuel r s u stepped) in
        let (t, ends) = scan_total fuel id rs u total (omega arith) in
        (t, ground (arith, unseen, stepped, ends))
  ]

  requires_of-none : (id : String) → lookup id perms ≡ none → requires_of perms id ≡ []
  unfolding requires_of
  requires_of-none id missing = ground (arith, missing)

  visit_of_scan :
      (fuel : ℕ) (id : String) (s u : Search)
      → scan (visit perms fuel) id (requires_of perms id) (mark visiting id s) ≡ some u
      → visit perms (suc fuel) id s ≡ some (mark visited id u)
  unfolding visit
  visit_of_scan fuel id s u scanned = ap (leave id) scanned

  pub visit_total :
      (fuel : ℕ) (id : String) (s : Search)
      → mark_of id s ≡ none
      → unmarked s < fuel
      → (t : Search) × (visit perms fuel id s ≡ some t)
  unfolding scan
  visit_total zero id s unseen enough = absurd (omega arith)
  visit_total (suc fuel) id s unseen enough = elim (Option-cases (lookup id perms)) [
    | inl missing ↦ (
      mark visited id (mark visiting id s),
      visit_of_scan fuel id s (mark visiting id s)
          (rw (requires_of-none id missing) (empty (visit perms fuel) id (mark visiting id s))),
    )
    | inr (p, there) ↦
        let fewer = mark-unmarked id p s there unseen in
        let (u, scanned) =
          scan_total fuel id (requires_of perms id) (mark visiting id s) (visit_total fuel)
            (omega arith) in
        (mark visited id u, visit_of_scan fuel id s u scanned)
  ]
    where
      empty :
          (step : String → Search → Option Search) (id : String) (s : Search)
          → scan step id [] s ≡ some s
      empty step id s = refl

  pub visit_all_total :
      (ids : List String) (s : Search)
      → (t : Search) × (visit_all perms (suc (length perms)) ids s ≡ some t)
  unfolding visit_all
  visit_all_total [] s = (s, refl)
  visit_all_total (id ∷ ids) s = elim (Option-cases (mark_of id s)) [
    | inr (m, before) ↦ let (t, ends) = visit_all_total ids s in (t, ground (arith, before, ends))
    | inl unseen ↦
        let most = count_if-le-length (λ entry. not (is_marked (mark_of entry.0 s))) perms in
        let (u, stepped) = visit_total (suc (length perms)) id s unseen (omega arith) in
        let (t, ends) = visit_all_total ids u in (t, ground (arith, unseen, stepped, ends))
  ]
