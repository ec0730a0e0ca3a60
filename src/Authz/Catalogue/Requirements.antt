-- ===== src/Authz/Catalogue/Requirements.antt =====
-- authz/catalogue.go: Validate, with the depth-first search for cycles of requirements, and freeze. The search
-- runs on fuel; what a visit returns without it is `none`.
pub mod Visits
pub mod Acyclic
pub mod Exact
use go_core.Prelude.{
  ℕ, zero, suc, String, Bool, true, false, List, [], ◌∷◌, ◌++◌, Option, none, some, Map, lookup,
  insert, length, string_eq, if◌then◌else◌,
}
use go_core.Authz.Errors.{
  Result, ok, fault, Problem, unknown_requirement, requirement_cycle, as_validation,
}
use go_core.Authz.Types.{Permission}
use go_core.Authz.Catalogue.{Catalogue}

-- c.perms[id].Requires. Define enters every id of the definition order, so none is missing; a key that
-- is would be a nil permission there and has no requirements here.
unfoldable pub requires_of : Map String Permission → String → List String
requires_of perms id = elim (lookup id perms) [ none ↦ [] | some p ↦ p.requires ]

-- The requirements of one permission that are not declared.
unfoldable pub unknown_in : Map String Permission → String → List String → List Problem
unknown_in perms id [] = []
unknown_in perms id (r ∷ rs) = elim (lookup r perms) [
  | some _ ↦ unknown_in perms id rs
  | none ↦
      record { code = unknown_requirement; permission = id; detail = r } ∷ unknown_in perms id rs
]

-- The loop of Validate over the definition order.
unfoldable pub unknown_requirements : Map String Permission → List String → List Problem
unfolding unknown_in requires_of
unknown_requirements perms [] = []
unknown_requirements perms (id ∷ ids) =
    unknown_in perms id (requires_of perms id) ++ unknown_requirements perms ids

-- `unseen` is the absence of a mark.
pub data Mark : Type 0 where
  visiting visited : Mark

pub record Search : Type 0 where
  pub marks : Map String Mark
  pub problems : List Problem

abbrev pub mark : Mark → String → Search → Search
mark m id s = record s { marks = insert id m s.marks }

abbrev pub report : String → String → Search → Search
report id r s = record s {
  problems = s.problems ++ record { code = requirement_cycle; permission = id; detail = r } ∷ [];
}

-- The loop of visit over the requirements of `id`.
unfoldable pub scan :
    (String → Search → Option Search) → String → List String → Search → Option Search
scan step id [] s = some s
scan step id (r ∷ rs) s = elim (lookup r s.marks) [
  | some visiting ↦ scan step id rs (report id r s)
  | some visited ↦ scan step id rs s
  | none ↦ elim (step r s) [ none ↦ none | some t ↦ scan step id rs t ]
]

abbrev pub leave : String → Option Search → Option Search
leave id none = none
leave id (some s) = some (mark visited id s)

unfoldable pub visit : Map String Permission → ℕ → String → Search → Option Search
unfolding scan requires_of
visit perms zero id s = none
visit perms (suc fuel) id s =
    leave id (scan (visit perms fuel) id (requires_of perms id) (mark visiting id s))

-- The loop of requirementCycles over the definition order.
unfoldable pub visit_all : Map String Permission → ℕ → List String → Search → Option Search
unfolding visit
visit_all perms fuel [] s = some s
visit_all perms fuel (id ∷ ids) s = elim (lookup id s.marks) [
  | some _ ↦ visit_all perms fuel ids s
  | none ↦ elim (visit perms fuel id s) [ none ↦ none | some t ↦ visit_all perms fuel ids t ]
]

abbrev pub no_marks : Search
no_marks = record { marks = []; problems = [] }

abbrev pub problems_of : Option Search → List Problem
problems_of none = []
problems_of (some s) = s.problems

-- requirementCycles: a visit goes into permissions that have no mark, so it is never deeper than they are many.
unfoldable pub requirement_cycles : Catalogue → List Problem
unfolding visit_all
requirement_cycles c = problems_of (visit_all c.perms (suc (length c.perms)) c.order no_marks)

-- Catalogue.Validate
unfoldable pub validate : Catalogue → Result (Unit {0})
unfolding unknown_requirements requirement_cycles
validate c = elim (unknown_requirements c.perms c.order) [
  | [] ↦ as_validation (requirement_cycles c)
  | p ∷ ps ↦ as_validation (p ∷ ps)
]

-- Catalogue.freeze
unfoldable pub freeze : Catalogue → Result Catalogue
unfolding validate
freeze c = elim (validate c) [ ok _ ↦ ok (record c { frozen = true }) | fault e ↦ fault e ]
