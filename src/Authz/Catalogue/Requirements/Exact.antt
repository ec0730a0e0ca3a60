-- ===== src/Authz/Catalogue/Requirements/Exact.antt =====
-- authz/catalogue.go: Validate against the requirements that are declared and their chains.
use go_core.Prelude.{
  ℕ, zero, suc, String, string_eq, ◌≡◌, refl, sym, ap, ◌∙◌, ◌↔◌, inl, inr, Bool, true, false, ◌&&◌,
  all, List, [], ◌∷◌, ◌++◌, Option, none, some, Map, Memᴰ, lookup, length, ◌==◌, ==-eq, arith,
  Bool-cases, Option-cases,
}
use mathlib.Core.Path.{subst}
use go_core.Authz.Errors.{ok, Problem, as_validation}
use go_core.Authz.Types.{Permission}
use go_core.Authz.Catalogue.{Catalogue}
use go_core.Authz.Catalogue.Requirements.{
  requires_of, unknown_in, unknown_requirements, visiting, Search, mark, scan, visit, visit_all,
  no_marks, problems_of, requirement_cycles, validate,
}
use go_core.Authz.Catalogue.Requirements.Visits.{
  is_visiting, mark_of, mark_of-mark, Kept, visit-Kept, met, passed, entered, scan-nil, scan-cons,
  visit-inv, visit-zero, visit_all_total,
}
use go_core.Authz.Catalogue.Requirements.Acyclic.{
  Grounded, grounded, Leads, direct, Leads-then, Grounded-loop, Idle, visit-Idle, known, fresh,
  visit_all-nil, visit_all-cons, visit_all-Grounds,
}

module _ (perms : Map String Permission) where
  -- What is being visited leads to this permission.
  unfoldable Above : String → Search → Type 0
  Above id s = (v : String) → is_visiting (mark_of v s) ≡ true → Leads perms v id

  -- And to each of these.
  abbrev AboveAll : List String → Search → Type 0
  AboveAll rs s = (r : String) → Memᴰ r rs → Above r s

  Above-Kept : (id : String) (s t : Search) → Kept s t → Above id s → Above id t
  unfolding Above Kept
  Above-Kept id s t kept above v h = above v ((kept v).0 h)

  Above-entry :
      (id r : String) (s : Search)
      → Memᴰ r (requires_of perms id)
      → Above id s
      → Above r (mark visiting id s)
  unfolding Above
  Above-entry id r s m above v h = elim (Bool-cases (id == v)) [
    | inl same ↦ subst (λ x. Leads perms x r) (==-eq id v same) (direct m)
    | inr other ↦ Leads-then perms (above v (ground (arith, other, mark_of-mark visiting id v s))) m
  ]

  -- A visit of a grounded permission, from below all that is being visited, reports nothing.
  abbrev Calm : (String → Search → Option Search) → Type 0
  Calm step =
      (r : String) (s t : Search)
      → step r s ≡ some t
      → Grounded perms r
      → Above r s
      → t.problems ≡ s.problems

  scan-Calm :
      (fuel : ℕ) (id : String) (rs : List String) (s t : Search)
      → Calm (visit perms fuel)
      → scan (visit perms fuel) id rs s ≡ some t
      → ((r : String) → Memᴰ r rs → Grounded perms r)
      → AboveAll rs s
      → t.problems ≡ s.problems
  unfolding Above
  scan-Calm fuel id [] s t calm ends below above =
      ap (λ x. x.problems) (sym (scan-nil (visit perms fuel) id s t ends))
  scan-Calm fuel id (r ∷ rs) s t calm ends below above =
      elim (scan-cons (visit perms fuel) id r rs s t ends) [
        | met now rest ↦ absurd (
            Grounded-loop perms (below r (Memᴰ.head refl))
              (above r (Memᴰ.head refl) r (ap is_visiting now)))
        | passed before rest ↦
            scan-Calm fuel id rs s t calm rest (λ x m. below x (Memᴰ.tail m))
              (λ x m. above x (Memᴰ.tail m))
        | entered u unseen stepped rest ↦
            let kept = visit-Kept perms fuel r s u stepped in
            scan-Calm fuel id rs u t calm rest (λ x m. below x (Memᴰ.tail m))
              (λ x m. Above-Kept x s u kept (above x (Memᴰ.tail m)))
            ∙ calm r s u stepped (below r (Memᴰ.head refl)) (above r (Memᴰ.head refl))
      ]

  visit-Calm : (fuel : ℕ) → Calm (visit perms fuel)
  visit-Calm zero id s t ends low above = absurd (visit-zero perms id s t ends)
  visit-Calm (suc fuel) id s t ends (grounded below) above =
      let (u, scanned, left) = visit-inv perms fuel id s t ends in
      ap (λ x. x.problems) (sym left)
      ∙ scan-Calm fuel id (requires_of perms id) (mark visiting id s) u (visit-Calm fuel) scanned
          below (λ r m. Above-entry id r s m above)

  visit_all-Calm :
      (fuel : ℕ) (ids : List String) (s t : Search)
      → Idle perms s
      → visit_all perms fuel ids s ≡ some t
      → ((id : String) → Memᴰ id ids → Grounded perms id)
      → t.problems ≡ s.problems
  unfolding Above Idle
  visit_all-Calm fuel [] s t idle ends low =
      ap (λ x. x.problems) (sym (visit_all-nil perms fuel s t ends))
  visit_all-Calm fuel (id ∷ ids) s t idle ends low =
      elim (visit_all-cons perms fuel id ids s t idle ends) [
        | known before rest ↦ visit_all-Calm fuel ids s t idle rest (λ x m. low x (Memᴰ.tail m))
        | fresh u unseen stepped rest ↦
            visit_all-Calm fuel ids u t (visit-Idle perms fuel id s u stepped idle) rest
              (λ x m. low x (Memᴰ.tail m))
            ∙ visit-Calm fuel id s u stepped (low id (Memᴰ.head refl)) (idle_above idle)
      ]
    where
      idle_above : Idle perms s → Above id s
      idle_above idle v h = absurd (idle v h)

abbrev pub is_declared : Map String Permission → String → Bool
is_declared perms r = elim (lookup r perms) [ none ↦ false | some _ ↦ true ]

-- Every requirement of every one of these permissions is declared.
abbrev pub all_declared : Map String Permission → List String → Bool
all_declared perms ids = all (λ id. all (is_declared perms) (requires_of perms id)) ids

abbrev is_nil : List Problem → Bool
is_nil [] = true
is_nil (p ∷ ps) = false

unknown_in-nil :
    (perms : Map String Permission) (id : String) (rs : List String)
    → is_nil (unknown_in perms id rs) ≡ all (is_declared perms) rs
unfolding unknown_in
unknown_in-nil perms id [] = refl
unknown_in-nil perms id (r ∷ rs) = elim (Option-cases (lookup r perms)) [
  | inl missing ↦ ground (arith, missing)
  | inr (p, there) ↦ ground (arith, there, unknown_in-nil perms id rs)
]

is_nil-append : (ps qs : List Problem) → is_nil (ps ++ qs) ≡ (is_nil ps && is_nil qs)
is_nil-append [] qs = refl
is_nil-append (p ∷ ps) qs = refl

unknown_requirements-nil :
    (perms : Map String Permission) (ids : List String)
    → is_nil (unknown_requirements perms ids) ≡ all_declared perms ids
unfolding unknown_requirements
unknown_requirements-nil perms [] = refl
unknown_requirements-nil perms (id ∷ ids) = ground (
  arith,
  is_nil-append (unknown_in perms id (requires_of perms id)) (unknown_requirements perms ids),
  unknown_in-nil perms id (requires_of perms id),
  unknown_requirements-nil perms ids,
)

no_marks-Idle : (perms : Map String Permission) → Idle perms no_marks
unfolding Idle lookup
no_marks-Idle perms v h = ground arith

cycles-Grounded :
    (c : Catalogue)
    → (requirement_cycles c ≡ []) ↔ ((id : String) → Memᴰ id c.order → Grounded c.perms id)
unfolding requirement_cycles lookup
cycles-Grounded c =
    let (t, ends) = visit_all_total c.perms c.order no_marks in
    let fuel = suc (length c.perms) in
    (
      λ clean.
          visit_all-Grounds c.perms fuel c.order no_marks t (no_marks-Idle c.perms) ends
            (ap problems_of (sym ends) ∙ clean) (λ v h. absurd (ground arith)),
      λ low.
          ap problems_of ends
          ∙ visit_all-Calm c.perms fuel c.order no_marks t (no_marks-Idle c.perms) ends low,
    )

both_nil :
    (us cs : List Problem)
    → (elim us [ [] ↦ as_validation cs | p ∷ ps ↦ as_validation (p ∷ ps) ] ≡ ok tt)
      ↔ ((is_nil us ≡ true) × (cs ≡ []))
both_nil [] [] = (λ h. (refl, refl), λ h. refl)
both_nil [] (q ∷ qs) = (λ h. absurd (ground arith), λ h. absurd (ground (arith, h.1)))
both_nil (p ∷ ps) cs = (λ h. absurd (ground arith), λ h. absurd (ground (arith, h.0)))

-- Validate accepts a catalogue exactly when every requirement of a defined permission is declared, and every
-- chain of requirements from one comes to an end: there is no cycle.
pub validate-Grounded :
    (c : Catalogue)
    → (validate c ≡ ok tt) ↔ (
        (all_declared c.perms c.order ≡ true)
        × ((id : String) → Memᴰ id c.order → Grounded c.perms id))
unfolding validate
validate-Grounded c =
    let (clean, low) = cycles-Grounded c in
    let declared = unknown_requirements-nil c.perms c.order in
    let (split, join) = both_nil (unknown_requirements c.perms c.order) (requirement_cycles c) in
    (
      λ accepted. (sym declared ∙ (split accepted).0, clean (split accepted).1),
      λ fine. join (declared ∙ fine.0, low fine.1),
    )
