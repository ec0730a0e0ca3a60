-- ===== src/Authz/Role/Computed.antt =====
-- authz/computed.go: the selectors of computed roles. A role resolves to one grant of each permission
-- that its selector picks.
use go_core.Prelude.{
  ℕ, pos, String, ◌≡◌, ◌↔◌, refl, inl, inr, Bool, true, false, ◌&&◌, not, List, [], ◌∷◌, some, none,
  arith, Memᴰ, mem_cases, keep, map, nat_beq, if◌then◌else◌, Bool-cases,
}
use mathlib.Core.Path.{subst}
use go_core.Authz.Types.{Permission, Grant, Role}
use go_core.Authz.Words.{codes}
use go_core.Authz.Catalogue.{Catalogue, cut, all_permissions}
use go_core.Authz.Role.{grant_all, resolve}

abbrev pub Predicate : Type 0
Predicate = Permission → Bool

-- IsSystem
abbrev pub is_system : Predicate
is_system p = p.system

-- IsSensitive
abbrev pub is_sensitive : Predicate
is_sensitive p = p.sensitive

-- IsOrganizationOnly
abbrev pub is_organization_only : Predicate
is_organization_only p = p.organization_only

-- Permission.Verb, over code points: the whole identifier when there is no colon.
unfoldable pub verb : Permission → List ℕ
verb p = elim (cut b':' (codes p.id)).1 [ none ↦ codes p.id | some after ↦ after ]

abbrev pub same_text : List ℕ → List ℕ → Bool
same_text [] [] = true
same_text [] (d ∷ ds) = false
same_text (c ∷ cs) [] = false
same_text (c ∷ cs) (d ∷ ds) = nat_beq c d && same_text cs ds

-- IsView
unfoldable pub is_view : Predicate
unfolding verb
is_view p = same_text (verb p) (codes "view")

-- All
abbrev pub all : Predicate
all p = true

-- AllExcept
unfoldable pub all_except : List Predicate → Predicate
all_except [] p = true
all_except (e ∷ exclude) p = let rest = all_except exclude p in if e p then false else rest

-- Matching
abbrev pub matching : Predicate → Predicate
matching pred = pred

-- Both
unfoldable pub both : List Predicate → Predicate
both [] p = true
both (s ∷ selectors) p = let rest = both selectors p in if not (s p) then false else rest

-- ComputedRole
abbrev pub computed_role : String → String → Predicate → Role
computed_role key name sel = record {
  id = pos 0;
  key = key;
  name = name;
  grants = [];
  attrs = [];
  computed = some sel;
}

kept-granted :
    (sel : Predicate) (ps : List Permission) (g : Grant)
    → Memᴰ g (map grant_all (keep sel ps))
      ↔ ((p : Permission) × Memᴰ p ps × (sel p ≡ true) × (g ≡ grant_all p))
kept-granted sel [] g = (λ m. absurd (elim m [ ]), λ (p, m, picked, is_g). absurd (elim m [ ]))
kept-granted sel (q ∷ qs) g = elim (Bool-cases (sel q)) [
  | inl picks ↦
      let rest = kept-granted sel qs g in
      rw picks (
        λ m. elim (mem_cases m) [
          | inl e ↦ (q, Memᴰ.head refl, picks, e)
          | inr n ↦ let (p, later, picked, is_g) = rest.0 n in (p, Memᴰ.tail later, picked, is_g)
        ],
        λ (p, m, picked, is_g). elim (mem_cases m) [
          | inl e ↦ Memᴰ.head (subst (λ x. g ≡ grant_all x) e is_g)
          | inr later ↦ Memᴰ.tail (rest.1 (p, later, picked, is_g))
        ],
      )
  | inr leaves ↦
      let rest = kept-granted sel qs g in
      rw leaves (
        λ m. let (p, later, picked, is_g) = rest.0 m in (p, Memᴰ.tail later, picked, is_g),
        λ (p, m, picked, is_g). elim (mem_cases m) [
          | inl e ↦ absurd (ground (arith, subst (λ x. sel x ≡ true) e picked, leaves))
          | inr later ↦ rest.1 (p, later, picked, is_g)
        ],
      )
]

-- A computed role grants exactly the permissions of the catalogue that its selector picks, each without
-- a qualifier that narrows it.
resolve-computed_role :
    (key name : String) (sel : Predicate) (cat : Catalogue) (g : Grant)
    → Memᴰ g (resolve (computed_role key name sel) cat)
      ↔ ((p : Permission) × Memᴰ p (all_permissions cat) × (sel p ≡ true) × (g ≡ grant_all p))
unfolding resolve
resolve-computed_role key name sel cat g = kept-granted sel (all_permissions cat) g
