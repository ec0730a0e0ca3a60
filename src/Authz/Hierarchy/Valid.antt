-- ===== src/Authz/Hierarchy/Valid.antt =====
-- What NewHierarchy establishes: the map and the list of levels say the same.
use go_core.Prelude.{
  ℕ, suc, zero, ◌+◌, ◌<◌, String, ◌≡◌, refl, ◌⊎◌, inl, inr, true, List, [], ◌∷◌, Option, none, some,
  Map, lookup, insert, lookup-insert, ◌==◌, string_eq, ==-eq, get_elem?, length, arith, Bool-cases,
}
use mathlib.Core.Path.{subst}
use go_core.Authz.Errors.{ok, >>=-eq-ok, ok-injective}
use go_core.Authz.Words.{is_word}
use go_core.Authz.Hierarchy.{Hierarchy, declare, new_hierarchy, with_tenant_level}

pub record IsValid (h : Hierarchy) : Type 0 where
  pub nonempty : 0 < length h.levels
  pub positions : (l : String) (i : ℕ) → lookup l h.depth ≡ some i → get_elem? h.levels i ≡ some l
  pub complete : (l : String) (i : ℕ) → get_elem? h.levels i ≡ some l → lookup l h.depth ≡ some i

declare_step :
    (i : ℕ) (x : String) (xs : List String) (m : Map String ℕ) {m' : Map String ℕ}
    → declare i (x ∷ xs) m ≡ ok m'
    → (lookup x m ≡ none) × (declare (suc i) xs (insert x i m) ≡ ok m') × (is_word x ≡ true)
unfolding declare
declare_step i x xs m h = ground arith

declare_keeps :
    (i : ℕ) (ls : List String) (m : Map String ℕ) {m' : Map String ℕ} (l : String) (j : ℕ)
    → declare i ls m ≡ ok m'
    → lookup l m ≡ some j
    → lookup l m' ≡ some j
unfolding declare
declare_keeps i [] m l j h e = ground arith
declare_keeps i (x ∷ xs) m l j h e =
    let (new, rest, _) = declare_step i x xs m h in
    declare_keeps (suc i) xs (insert x i m) l j rest
      (ground (arith, lookup-insert x l i m, string_eq.agrees x l))

declare_new :
    (i : ℕ) (ls : List String) (m : Map String ℕ) {m' : Map String ℕ} (l : String) (k : ℕ)
    → declare i ls m ≡ ok m'
    → get_elem? ls k ≡ some l
    → lookup l m' ≡ some (i + k)
declare_new i [] m l k h e = absurd (ground arith)
declare_new i (x ∷ xs) m l zero h e =
    let (new, rest, _) = declare_step i x xs m h in
    declare_keeps (suc i) xs (insert x i m) l (i + 0) rest
      (ground (arith, lookup-insert x l i m, string_eq.agrees x l))
declare_new i (x ∷ xs) m l (suc k) h e =
    let (new, rest, _) = declare_step i x xs m h in
    ground (arith, declare_new (suc i) xs (insert x i m) l k rest e)

declare_only :
    (i : ℕ) (ls : List String) (m : Map String ℕ) {m' : Map String ℕ} (l : String) (j : ℕ)
    → declare i ls m ≡ ok m'
    → lookup l m' ≡ some j
    → (lookup l m ≡ some j) ⊎ ((k : ℕ) × (j ≡ i + k) × (get_elem? ls k ≡ some l))
unfolding declare
declare_only i [] m l j h e = inl (ground arith)
declare_only i (x ∷ xs) m {m'} l j h e =
    let (new, rest, _) = declare_step i x xs m h in
    pick (declare_only (suc i) xs (insert x i m) l j rest e)
  where
    pick :
        (lookup l (insert x i m) ≡ some j) ⊎ ((k : ℕ) × (j ≡ suc i + k) × (get_elem? xs k ≡ some l))
        → (lookup l m ≡ some j) ⊎ ((k : ℕ) × (j ≡ i + k) × (get_elem? (x ∷ xs) k ≡ some l))
    pick (inr (k, at, found)) = inr (suc k, omega arith, found)
    pick (inl at) = elim (Bool-cases (x == l)) [
      | inl same ↦ inr (0, ground (arith, lookup-insert x l i m), ground (arith, ==-eq x l same))
      | inr differs ↦ inl (ground (arith, lookup-insert x l i m))
    ]

-- The hierarchy that the loop's result makes.
abbrev assembled : List String → Map String ℕ → Hierarchy
assembled ls m = record { levels = ls; depth = m; tenant = "" }

assembled-IsValid :
    (l : String) (ls : List String) {m : Map String ℕ}
    → declare 0 (l ∷ ls) [] ≡ ok m
    → IsValid (assembled (l ∷ ls) m)
unfolding lookup
assembled-IsValid l ls {m} h = record {
  nonempty = omega arith;
  positions = λ x i e. from_start x i (declare_only 0 (l ∷ ls) [] x i h e);
  complete = λ x i e. ground (arith, declare_new 0 (l ∷ ls) [] x i h e);
}
  where
    from_start :
        (x : String) (i : ℕ)
        → (lookup x [] ≡ some i) ⊎ ((k : ℕ) × (i ≡ 0 + k) × (get_elem? (l ∷ ls) k ≡ some x))
        → get_elem? (l ∷ ls) i ≡ some x
    from_start x i (inl none_yet) = absurd (ground arith)
    from_start x i (inr (k, at, found)) = ground arith

-- Where NewHierarchy succeeds, the position map is exactly the inverse of the list of levels, and
-- there is at least one level.
pub new_hierarchy-IsValid :
    (levels : List String) {h : Hierarchy} → new_hierarchy levels ≡ ok h → IsValid h
unfolding new_hierarchy
new_hierarchy-IsValid [] e = absurd (ground arith)
new_hierarchy-IsValid (l ∷ ls) e =
    let (m, made, whole) = >>=-eq-ok (declare 0 (l ∷ ls) []) (λ m. ok (assembled (l ∷ ls) m)) e in
    subst IsValid (ok-injective whole) (assembled-IsValid l ls made)

-- A position is missing, the root's, or one below it.
position_cases : (o : Option ℕ) → (o ≡ none) ⊎ ((o ≡ some 0) ⊎ ((d : ℕ) × (o ≡ some (suc d))))
position_cases none = inl refl
position_cases (some zero) = inr (inl refl)
position_cases (some (suc d)) = inr (inr (d, refl))

tenant_level_result :
    (h : Hierarchy) (level : String) (d : ℕ) {h' : Hierarchy}
    → lookup level h.depth ≡ some (suc d)
    → with_tenant_level h level ≡ ok h'
    → record h { tenant = level } ≡ h'
unfolding with_tenant_level
tenant_level_result h level d below e = ground arith

keeps_levels : (h : Hierarchy) (level : String) → IsValid h → IsValid (record h { tenant = level })
keeps_levels h level v = record {
  nonempty = v.nonempty;
  positions = v.positions;
  complete = v.complete;
}

-- WithTenantLevel keeps the levels, so the hierarchy stays valid; the tenant level that it names is
-- a level below the root.
pub with_tenant_level-IsValid :
    (h : Hierarchy) (level : String) {h' : Hierarchy}
    → IsValid h
    → with_tenant_level h level ≡ ok h'
    → IsValid h' × ((d : ℕ) × (lookup level h'.depth ≡ some (suc d)) × (h'.tenant ≡ level))
unfolding with_tenant_level
with_tenant_level-IsValid h level v e = elim (position_cases (lookup level h.depth)) [
  | inl none_found ↦ absurd (ground arith)
  | inr (inl at_root) ↦ absurd (ground arith)
  | inr (inr (d, below)) ↦
      let same = tenant_level_result h level d below e in
      subst
        (λ k. IsValid k × ((d : ℕ) × (lookup level k.depth ≡ some (suc d)) × (k.tenant ≡ level)))
        same (keeps_levels h level v, (d, below, refl))
]
