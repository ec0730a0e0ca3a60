-- ===== src/Authz/Catalogue/Requirements/Acyclic.antt =====
-- authz/catalogue.go: a search that reports nothing has visited permissions whose chains of requirements end.
use go_core.Prelude.{
  append_cons_ne, ℕ, zero, suc, String, string_eq, ◌≡◌, sym, ap, ◌∙◌, inl, inr, true, List, [], ◌∷◌,
  Option, none, some, Map, Memᴰ, ◌==◌, ==-eq, arith, Bool-cases, Option-cases,
}
use mathlib.Core.Path.{subst}
use go_core.Authz.Types.{Permission}
use go_core.Authz.Catalogue.Requirements.{
  requires_of, visiting, visited, Search, mark, report, scan, visit, visit_all,
}
use go_core.Authz.Catalogue.Requirements.Visits.{
  is_visiting, mark_of, mark_of-mark, Kept, visit-Kept, met, passed, entered, scan-nil, scan-cons,
  visit-inv, visit-zero,
}

-- Every chain of requirements from this permission on comes to an end.
pub data Grounded (perms : Map String Permission) : String → Type 0 where
  grounded :
      {id : String}
      → ((r : String) → Memᴰ r (requires_of perms id) → Grounded perms r)
      → Grounded perms id

-- A chain of one requirement or more.
pub data Leads (perms : Map String Permission) : String → String → Type 0 where
  direct : {a c : String} → Memᴰ c (requires_of perms a) → Leads perms a c
  onward :
      {a c : String} (b : String) → Memᴰ b (requires_of perms a) → Leads perms b c → Leads perms a c

module _ (perms : Map String Permission) where
  pub Leads-then :
      {a b c : String} → Leads perms a b → Memᴰ c (requires_of perms b) → Leads perms a c
  Leads-then {b = b} (direct m) last = onward b m (direct last)
  Leads-then (onward b m rest) last = onward b m (Leads-then rest last)

  pub Grounded-loop : {r : String} → Grounded perms r → Leads perms r r → ⊥
  Grounded-loop (grounded below) (direct m) = Grounded-loop (below _ m) (direct m)
  Grounded-loop (grounded below) (onward b m rest) = Grounded-loop (below b m) (Leads-then rest m)

  -- The problems of a search are never taken back.
  abbrev Cleans : (String → Search → Option Search) → Type 0
  Cleans step = (r : String) (s t : Search) → step r s ≡ some t → t.problems ≡ [] → s.problems ≡ []

  scan-clean :
      (step : String → Search → Option Search) (id : String) (rs : List String) (s t : Search)
      → Cleans step
      → scan step id rs s ≡ some t
      → t.problems ≡ []
      → s.problems ≡ []
  scan-clean step id [] s t cleans ends clean =
      ap (λ x. x.problems) (scan-nil step id s t ends) ∙ clean
  scan-clean step id (r ∷ rs) s t cleans ends clean = elim (scan-cons step id r rs s t ends) [
    | met now rest ↦
        absurd (
          append_cons_ne s.problems _ []
            (scan-clean step id rs (report id r s) t cleans rest clean))
    | passed before rest ↦ scan-clean step id rs s t cleans rest clean
    | entered u unseen stepped rest ↦
        cleans r s u stepped (scan-clean step id rs u t cleans rest clean)
  ]

  visit-clean : (fuel : ℕ) → Cleans (visit perms fuel)
  visit-clean zero id s t ends clean = absurd (visit-zero perms id s t ends)
  visit-clean (suc fuel) id s t ends clean =
      let (u, scanned, left) = visit-inv perms fuel id s t ends in
      scan-clean (visit perms fuel) id (requires_of perms id) (mark visiting id s) u
        (visit-clean fuel) scanned (ap (λ x. x.problems) left ∙ clean)

  -- Every permission that was visited to the end is grounded.
  abbrev pub AllGrounded : Search → Type 0
  AllGrounded s = (v : String) → mark_of v s ≡ some visited → Grounded perms v

  abbrev Grounds : (String → Search → Option Search) → Type 0
  Grounds step =
      (r : String) (s t : Search)
      → step r s ≡ some t
      → t.problems ≡ []
      → AllGrounded s
      → AllGrounded t × Grounded perms r

  with_first :
      {r : String} {rs : List String}
      → Grounded perms r
      → ((x : String) → Memᴰ x rs → Grounded perms x)
      → (x : String) → Memᴰ x (r ∷ rs)
      → Grounded perms x
  with_first first others x (Memᴰ.head e) = subst (Grounded perms) (sym e) first
  with_first first others x (Memᴰ.tail m) = others x m

  scan-Grounds :
      (step : String → Search → Option Search) (id : String) (rs : List String) (s t : Search)
      → Cleans step
      → Grounds step
      → scan step id rs s ≡ some t
      → t.problems ≡ []
      → AllGrounded s
      → AllGrounded t × ((r : String) → Memᴰ r rs → Grounded perms r)
  scan-Grounds step id [] s t cleans grounds ends clean all =
      (subst AllGrounded (scan-nil step id s t ends) all, λ r m. elim m [ ])
  scan-Grounds step id (r ∷ rs) s t cleans grounds ends clean all =
      elim (scan-cons step id r rs s t ends) [
        | met now rest ↦ absurd (
            append_cons_ne s.problems _ []
              (scan-clean step id rs (report id r s) t cleans rest clean))
        | passed before rest ↦
            let (after, others) = scan-Grounds step id rs s t cleans grounds rest clean all in
            (after, with_first (all r before) others)
        | entered u unseen stepped rest ↦
            let (between, first) =
              grounds r s u stepped (scan-clean step id rs u t cleans rest clean) all in
            let (after, others) = scan-Grounds step id rs u t cleans grounds rest clean between in
            (after, with_first first others)
      ]

  visit-Grounds : (fuel : ℕ) → Grounds (visit perms fuel)
  visit-Grounds zero id s t ends clean all = absurd (visit-zero perms id s t ends)
  visit-Grounds (suc fuel) id s t ends clean all =
      let (u, scanned, left) = visit-inv perms fuel id s t ends in
      let (inside, below) =
        scan-Grounds (visit perms fuel) id (requires_of perms id) (mark visiting id s) u
          (visit-clean fuel) (visit-Grounds fuel) scanned (ap (λ x. x.problems) left ∙ clean)
          (on_entry all) in
      (subst AllGrounded left (on_leave u inside (grounded below)), grounded below)
    where
      on_entry : AllGrounded s → AllGrounded (mark visiting id s)
      on_entry all v h = elim (Bool-cases (id == v)) [
        | inl same ↦ absurd (ground (arith, same, mark_of-mark visiting id v s))
        | inr other ↦ all v (ground (arith, other, mark_of-mark visiting id v s))
      ]

      on_leave : (u : Search) → AllGrounded u → Grounded perms id → AllGrounded (mark visited id u)
      on_leave u all here v h = elim (Bool-cases (id == v)) [
        | inl same ↦ subst (Grounded perms) (==-eq id v same) here
        | inr other ↦ all v (ground (arith, other, mark_of-mark visited id v u))
      ]

  -- Nothing is being visited: the state between the visits of the outer loop.
  unfoldable pub Idle : Search → Type 0
  Idle s = (v : String) → is_visiting (mark_of v s) ≡ true → ⊥

  pub visit-Idle :
      (fuel : ℕ) (id : String) (s t : Search) → visit perms fuel id s ≡ some t → Idle s → Idle t
  unfolding Idle Kept
  visit-Idle fuel id s t ends idle v h = idle v ((visit-Kept perms fuel id s t ends v).0 h)

  -- What one round of the outer loop did.
  pub data Visited (fuel : ℕ) (id : String) (ids : List String) (s t : Search) : Type 0 where
    known :
        mark_of id s ≡ some visited → visit_all perms fuel ids s ≡ some t → Visited fuel id ids s t
    fresh :
        (u : Search)
        → mark_of id s ≡ none
        → visit perms fuel id s ≡ some u
        → visit_all perms fuel ids u ≡ some t
        → Visited fuel id ids s t

  pub visit_all-nil : (fuel : ℕ) (s t : Search) → visit_all perms fuel [] s ≡ some t → s ≡ t
  unfolding visit_all
  visit_all-nil fuel s t ends = ap (λ o. elim o [ none ↦ s | some u ↦ u ]) ends

  pub visit_all-cons :
      (fuel : ℕ) (id : String) (ids : List String) (s t : Search)
      → Idle s
      → visit_all perms fuel (id ∷ ids) s ≡ some t
      → Visited fuel id ids s t
  unfolding visit_all Idle
  visit_all-cons fuel id ids s t idle ends = elim (Option-cases (mark_of id s)) [
    | inr (visiting, now) ↦ absurd (idle id (ground (arith, now)))
    | inr (visited, before) ↦ known before (ground (arith, before))
    | inl unseen ↦ elim (Option-cases (visit perms fuel id s)) [
      | inl stuck ↦ absurd (ground (arith, unseen, stuck))
      | inr (u, stepped) ↦ fresh u unseen stepped (ground (arith, unseen, stepped))
    ]
  ]

  visit_all-clean :
      (fuel : ℕ) (ids : List String) (s t : Search)
      → Idle s
      → visit_all perms fuel ids s ≡ some t
      → t.problems ≡ []
      → s.problems ≡ []
  visit_all-clean fuel [] s t idle ends clean =
      ap (λ x. x.problems) (visit_all-nil fuel s t ends) ∙ clean
  visit_all-clean fuel (id ∷ ids) s t idle ends clean =
      elim (visit_all-cons fuel id ids s t idle ends) [
        | known before rest ↦ visit_all-clean fuel ids s t idle rest clean
        | fresh u unseen stepped rest ↦
            visit-clean fuel id s u stepped
              (visit_all-clean fuel ids u t (visit-Idle fuel id s u stepped idle) rest clean)
      ]

  pub visit_all-Grounds :
      (fuel : ℕ) (ids : List String) (s t : Search)
      → Idle s
      → visit_all perms fuel ids s ≡ some t
      → t.problems ≡ []
      → AllGrounded s
      → (id : String) → Memᴰ id ids
      → Grounded perms id
  visit_all-Grounds fuel [] s t idle ends clean all = λ v m. elim m [ ]
  visit_all-Grounds fuel (id ∷ ids) s t idle ends clean all =
      elim (visit_all-cons fuel id ids s t idle ends) [
        | known before rest ↦
            with_first (all id before) (visit_all-Grounds fuel ids s t idle rest clean all)
        | fresh u unseen stepped rest ↦
            let still = visit-Idle fuel id s u stepped idle in
            let (between, first) =
              visit-Grounds fuel id s u stepped (visit_all-clean fuel ids u t still rest clean)
                all in
            with_first first (visit_all-Grounds fuel ids u t still rest clean between)
      ]
