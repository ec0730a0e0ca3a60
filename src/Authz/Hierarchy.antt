-- ===== src/Authz/Hierarchy.antt =====
-- authz/hierarchy.go: the levels of an application, scopes, and the chain of a scope's ancestors.
-- The application's ScopeResolver is the parameter `parent`. `depth` is the map from a level to its
-- position that NewHierarchy builds beside the list.
pub mod Valid
pub mod Chains
pub mod Containment
pub mod Totality
use go_core.Prelude.{
  ℕ, zero, suc, String, pos, is_positive, Bool, true, false, ◌&&◌, ◌||◌, not, List, [], ◌∷◌, ◌++◌,
  Option, none, some, Map, lookup, insert, if◌then◌else◌, ◌==◌, string_eq, int_eq, length, contains,
  get_elem?, ltb,
}
use go_core.Authz.Errors.{
  Result, ok, fault, Error, other, panic, diverged, sentinel, invalid_scope, ◌>>=◌, ◌>>◌, demand,
}
use go_core.Authz.Types.{Scope, scope_eq}
use go_core.Authz.Words.{is_word}

pub record Hierarchy : Type 0 where
  pub levels : List String
  pub depth : Map String ℕ
  pub tenant : String

-- The loop of NewHierarchy from position `i` on.
unfoldable pub declare : ℕ → List String → Map String ℕ → Result (Map String ℕ)
declare i [] depth = ok depth
declare i (l ∷ ls) depth = do
  demand (is_word l) (other "level must be a single lowercase word")
  elim (lookup l depth) [
    | some _ ↦ fault (other "level declared twice")
    | none ↦ declare (suc i) ls (insert l i depth)
  ]

-- NewHierarchy
unfoldable pub new_hierarchy : List String → Result Hierarchy
unfolding declare
new_hierarchy [] = fault (other "a hierarchy needs at least a root level")
new_hierarchy (l ∷ ls) = do
  depth ← declare 0 (l ∷ ls) []
  ok (record { levels = l ∷ ls; depth = depth; tenant = "" })

-- Hierarchy.WithTenantLevel
unfoldable pub with_tenant_level : Hierarchy → String → Result Hierarchy
with_tenant_level h level = elim (lookup level h.depth) [
  | none ↦ fault (other "tenant level is not a level")
  | some zero ↦ fault (other "the root level cannot be the tenant level")
  | some (suc d) ↦ ok (record h { tenant = level })
]

-- h.levels[0]; a Hierarchy is only made by NewHierarchy, which refuses an empty list.
abbrev pub root_level : Hierarchy → String
root_level h = elim h.levels [ [] ↦ "" | l ∷ ls ↦ l ]

-- Hierarchy.Root
abbrev pub root : Hierarchy → Scope
root h = record { level = root_level h; id = pos 0 }

-- Hierarchy.IsRoot
abbrev pub is_root : Hierarchy → Scope → Bool
is_root h s = s.level == root_level h

-- Hierarchy.Depth
abbrev pub depth_of : Hierarchy → String → Option ℕ
depth_of h level = lookup level h.depth

-- Hierarchy.Check
unfoldable pub check : Hierarchy → Scope → Result (Unit {0})
check h s = elim (depth_of h s.level) [
  | none ↦ fault (sentinel invalid_scope s.level)
  | some zero ↦ demand (s.id == pos 0) (sentinel invalid_scope s.level)
  | some (suc d) ↦ demand (is_positive s.id) (sentinel invalid_scope s.level)
]

-- A missing key of a Go map reads as zero.
abbrev pub or_zero : Option ℕ → ℕ
or_zero none = 0
or_zero (some d) = d

-- Hierarchy.Wider
unfoldable pub wider : Hierarchy → String → String → Bool
wider h a b = ltb (or_zero (depth_of h a)) (or_zero (depth_of h b))

-- h.levels[h.depth[level]-1]: out of range at the root's depth.
unfoldable pub level_above : Hierarchy → String → Result String
level_above h level = elim (depth_of h level) [
  | some (suc d) ↦ elim (get_elem? h.levels d) [
    | some l ↦ ok l
    | none ↦ fault (panic "index out of range")
  ]
  | _ ↦ fault (panic "index out of range")
]

-- findLevel, and Chain.At
unfoldable pub find_level : List Scope → String → Option Scope
find_level [] level = none
find_level (s ∷ ss) level = if s.level == level then some s else find_level ss level

-- Chain.Within
abbrev pub within : List Scope → Scope → Bool
within chain s = contains chain s

-- Hierarchy.tenantOf
unfoldable pub tenant_of : Hierarchy → List Scope → Option Scope
unfolding find_level
tenant_of h chain = if h.tenant == "" then none else find_level chain h.tenant

-- The validation loop of Hierarchy.Chain over the ancestors that the caller knows.
unfoldable pub check_all : Hierarchy → List Scope → Result (Unit {0})
check_all h [] = ok tt
check_all h (s ∷ ss) = check h s >> check_all h ss

module _ (h : Hierarchy) (parent : Scope → Result Scope) (known : List Scope) where
  -- The resolver's answer, which must be a valid scope one level up.
  unfoldable pub ask_parent : Scope → String → Result (Scope × Bool)
  ask_parent cur want = do
    next ← parent cur
    demand (next.level == want) (sentinel invalid_scope next.level)
    check h next
    ok (next, false)

  -- One round of the loop of Hierarchy.Chain: the next scope up, and whether it was known.
  unfoldable pub next_scope : Scope → Bool → Result (Scope × Bool)
  unfolding ask_parent
  next_scope cur cur_known = do
    want ← level_above h cur.level
    elim (find_level known want) [
      | some next ↦ ok (next, true)
      | none ↦ if cur_known && want == root_level h then ok (root h, true) else ask_parent cur want
    ]

  -- The loop itself; every round goes one level up, so the number of levels is fuel enough.
  unfoldable pub ancestors : ℕ → Scope → Bool → Result (List Scope)
  ancestors zero cur cur_known = fault diverged
  ancestors (suc fuel) cur cur_known = if is_root h cur then ok (cur ∷ []) else (do
    (next, next_known) ← next_scope cur cur_known
    rest ← ancestors fuel next next_known
    ok (cur ∷ rest))

-- Hierarchy.Chain
unfoldable pub chain : Hierarchy → (Scope → Result Scope) → Scope → List Scope → Result (List Scope)
unfolding check_all
chain h parent s known = do
  check h s
  check_all h known
  ancestors h parent known (length h.levels) s false
